-- ===== src/Graph/Build/Grows.antt =====
-- The graph only grows while edges and nodes are added.
use mathlib.Core.Path.{subst}
use base_buster.Prelude.{
  ℕ, ◌≡◌, refl, sym, inl, inr, Bool, List, [], ◌∷◌, some, ok, contains, get_elem?, Bool-cases, In,
  >>=-eq-ok, ok-injective, unwrap, unwrap-some,
}
use base_buster.Pool.{Address, Pool}
use base_buster.Graph.Library.{UnGraph}
use base_buster.Graph.Build.{
  find_node, Building, add_token, add_tokens, join, join_rest, join_pairs,
}
use base_buster.Graph.Build.Nodes.{find_node_first, get-append}

module _ {G : Type 0} (lib : UnGraph G) where
  -- No edge goes, and no node moves.
  pub record Grows (g h : G) : Type 0 where
    pub edges_stay : (n : ℕ) (e : ℕ × Pool) → In e (lib.edges g n) → In e (lib.edges h n)
    pub nodes_stay :
        (i : ℕ) (a : Address)
        → get_elem? (lib.nodes g) i ≡ some a
        → get_elem? (lib.nodes h) i ≡ some a

  pub Grows-refl : (g : G) → Grows g g
  Grows-refl g = record { edges_stay = λ n e m. m; nodes_stay = λ i a m. m }

  pub Grows-trans : {g h k : G} → Grows g h → Grows h k → Grows g k
  Grows-trans a b = record {
    edges_stay = λ n e m. b.edges_stay n e (a.edges_stay n e m);
    nodes_stay = λ i x m. b.nodes_stay i x (a.nodes_stay i x m);
  }

  -- The pool's edge between the nodes of two tokens, in both directions.
  abbrev pub Joined : G → Pool → Address → Address → Type 0
  Joined g pool a b =
      (i : ℕ) × (j : ℕ) × (get_elem? (lib.nodes g) i ≡ some a)
      × (get_elem? (lib.nodes g) j ≡ some b)
      × In (j, pool) (lib.edges g i)
      × In (i, pool) (lib.edges g j)

  pub Joined-Grows :
      {g h : G} (pool : Pool) (a b : Address) → Grows g h → Joined g pool a b → Joined h pool a b
  Joined-Grows pool a b grows (i, j, at_i, at_j, out, back) = (
    i,
    j,
    grows.nodes_stay i a at_i,
    grows.nodes_stay j b at_j,
    grows.edges_stay i (j, pool) out,
    grows.edges_stay j (i, pool) back,
  )

  pub join-Joined :
      (pool : Pool) (g h : G) (a b : Address)
      → join lib pool g a b ≡ ok h
      → Grows g h × Joined h pool a b
  unfolding join
  join-Joined pool g h a b e =
      let (i, e1, r) = >>=-eq-ok (unwrap (find_node a (lib.nodes g) 0)) _ e in
      let (j, e2, r2) = >>=-eq-ok (unwrap (find_node b (lib.nodes g) 0)) _ r in
      let here_i = find_node_first a (lib.nodes g) i (unwrap-some _ i e1) in
      let here_j = find_node_first b (lib.nodes g) j (unwrap-some _ j e2) in
      let same = lib.nodes-add_edge g i j pool in
      let node : (k : ℕ) (x : Address)
          → get_elem? (lib.nodes g) k ≡ some x
          → get_elem? (lib.nodes (lib.add_edge g i j pool)) k ≡ some x =
        λ k x m. subst (λ z. get_elem? z k ≡ some x) (sym same) m in
      subst (λ z. Grows g z × Joined z pool a b) (ok-injective r2)
        (
          record {
            edges_stay = λ n x m. (lib.edges-add_edge g i j pool n x).1 (inl m);
            nodes_stay = node;
          },
          (
            i,
            j,
            node i a here_i,
            node j b here_j,
            (lib.edges-add_edge g i j pool i (j, pool)).1 (inr (inl (refl, refl))),
            (lib.edges-add_edge g i j pool j (i, pool)).1 (inr (inr (refl, refl))),
          ),
        )

  join_rest-Grows :
      (keep : Address → Address → Bool) (pool : Pool) (g h : G) (a : Address)
      (tokens : List Address)
      → join_rest lib keep pool g a tokens ≡ ok h
      → Grows g h
  unfolding join_rest
  join_rest-Grows keep pool g h a [] e = subst (Grows g) (ok-injective e) (Grows-refl g)
  join_rest-Grows keep pool g h a (b ∷ tokens) e = elim (Bool-cases (keep a b)) [
    | inl k ↦
        let (mid, e1, e2) = >>=-eq-ok (join lib pool g a b) _ (rw (k, join_rest) at e) in
        Grows-trans (join-Joined pool g mid a b e1).0 (join_rest-Grows keep pool mid h a tokens e2)
    | inr k ↦ join_rest-Grows keep pool g h a tokens (rw (k, join_rest) at e)
  ]

  pub join_pairs-Grows :
      (keep : Address → Address → Bool) (pool : Pool) (g h : G) (tokens : List Address)
      → join_pairs lib keep pool g tokens ≡ ok h
      → Grows g h
  unfolding join_pairs
  join_pairs-Grows keep pool g h [] e = subst (Grows g) (ok-injective e) (Grows-refl g)
  join_pairs-Grows keep pool g h (a ∷ tokens) e =
      let (mid, e1, e2) = >>=-eq-ok (join_rest lib keep pool g a tokens) _ e in
      Grows-trans (join_rest-Grows keep pool g mid a tokens e1)
        (join_pairs-Grows keep pool mid h tokens e2)

  pub add_token-Grows :
      (b : Building G) (token : Address) → Grows b.graph (add_token lib b token).graph
  unfolding add_token
  add_token-Grows b token = elim (Bool-cases (contains token b.inserted_nodes)) [
    | inl e ↦ rw (e, add_token) (Grows-refl b.graph)
    | inr e ↦
        rw (e, add_token)
          (record {
            edges_stay = λ n x m. subst (In x) (sym (lib.edges-add_node b.graph token n)) m;
            nodes_stay = λ i a m.
                subst (λ z. get_elem? z i ≡ some a) (sym (lib.nodes-add_node b.graph token))
                  (get-append (lib.nodes b.graph) (token ∷ []) i a m);
          })
  ]

  pub add_tokens-Grows :
      (b : Building G) (tokens : List Address) → Grows b.graph (add_tokens lib b tokens).graph
  unfolding add_tokens
  add_tokens-Grows b [] = Grows-refl b.graph
  add_tokens-Grows b (t ∷ tokens) =
      Grows-trans (add_token-Grows b t) (add_tokens-Grows (add_token lib b t) tokens)
