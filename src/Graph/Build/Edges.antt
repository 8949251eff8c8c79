-- ===== src/Graph/Build/Edges.antt =====
-- The edges of the graph are those of its pools, between nodes of the pools' tokens, and no token has
-- two nodes.
use mathlib.Core.Path.{subst}
use base_buster.Prelude.{
  ℕ, ◌≡◌, refl, sym, inl, inr, true, List, [], ◌∷◌, ◌++◌, Outcome, ok, contains, Bool-cases, In,
  In-append, contains→In, In→contains, >>=-eq-ok, ok-injective,
}
use base_buster.Pool.{Address, Pool, balancer_v2, curve_tri_crypto, same_type}
use base_buster.Graph.Library.{UnGraph}
use base_buster.Graph.Build.Nodes.{get-append, Distinct, Distinct-snoc}
use base_buster.Graph.Build.{
  Building, add_token, add_tokens, add_simple_pool_to_graph, add_curve_pool_to_graph,
  add_balancer_pool_to_graph, add_pool_to_graph, build_pools, build_graph, with_graph,
}
use base_buster.Graph.Build.Joins.{EdgeOk, EdgesOk, Joins, join-Joins, join_pairs-Joins}

module _ {G : Type 0} (lib : UnGraph G) (pools : List Pool) where
  pub record Built (b : Building G) : Type 0 where
    pub edges_ok : EdgesOk lib pools b.graph
    pub inserted : (t : Address) → In t (lib.nodes b.graph) → contains t b.inserted_nodes ≡ true
    pub distinct : Distinct (lib.nodes b.graph)

  EdgeOk-append :
      (nodes more : List Address) (n : ℕ) (e : ℕ × Pool)
      → EdgeOk lib pools nodes n e
      → EdgeOk lib pools (nodes ++ more) n e
  EdgeOk-append nodes more n (m, pool) (there, (a, b, at_n, at_m, trades)) =
      (there, (a, b, get-append nodes more n a at_n, get-append nodes more m b at_m, trades))

  add_token-Built : (b : Building G) (token : Address) → Built b → Built (add_token lib b token)
  unfolding add_token
  add_token-Built b token h = elim (Bool-cases (contains token b.inserted_nodes)) [
    | inl e ↦ rw (e, add_token) h
    | inr e ↦
        let g = b.graph in
        let nodes = lib.nodes-add_node g token in
        let fresh : In token (lib.nodes g) → ⊥ = λ m. let c = h.inserted token m in cc in
        rw (e, add_token)
          (record {
            edges_ok = λ n x m.
                subst (λ z. EdgeOk lib pools z n x) (sym nodes)
                  (EdgeOk-append (lib.nodes g) (token ∷ []) n x
                    (h.edges_ok n x (subst (In x) (lib.edges-add_node g token n) m)));
            inserted = λ t m. elim (In-append t (lib.nodes g) (token ∷ []) (subst (In t) nodes m)) [
              | inl old ↦
                  In→contains t (token ∷ b.inserted_nodes)
                    (inr (contains→In t b.inserted_nodes (h.inserted t old)))
              | inr (inl same) ↦ In→contains t (token ∷ b.inserted_nodes) (inl same)
              | inr (inr bad) ↦ absurd bad
            ];
            distinct =
                subst Distinct (sym nodes) (Distinct-snoc (lib.nodes g) token fresh h.distinct);
          })
  ]

  add_tokens-Built :
      (b : Building G) (tokens : List Address) → Built b → Built (add_tokens lib b tokens)
  unfolding add_tokens
  add_tokens-Built b [] h = h
  add_tokens-Built b (t ∷ tokens) h =
      add_tokens-Built (add_token lib b t) tokens (add_token-Built b t h)

  with_graph-Built :
      (b after : Building G) (m : Outcome G)
      → Built b
      → ((g : G) → m ≡ ok g → Joins lib pools b.graph g)
      → with_graph lib b m ≡ ok after
      → Built after
  with_graph-Built b after m h f e =
      let (g, e1, e2) = >>=-eq-ok m _ e in
      let (ok_g, same) = f g e1 in
      subst Built (ok-injective e2) (record {
        edges_ok = ok_g;
        inserted = λ t k. h.inserted t (subst (In t) same k);
        distinct = subst Distinct (sym same) h.distinct;
      })

  add_pool_to_graph-Built :
      (b after : Building G) (pool : Pool)
      → In pool pools
      → Built b
      → add_pool_to_graph lib b pool ≡ ok after
      → Built after
  unfolding add_pool_to_graph add_balancer_pool_to_graph add_curve_pool_to_graph
      add_simple_pool_to_graph
  add_pool_to_graph-Built b after pool there h e =
      let many = add_tokens-Built b pool.tokens h in
      elim (Bool-cases (same_type pool.pool_type balancer_v2)) [
        | inl k ↦
            with_graph-Built _ after _ many
              (λ g j.
                join_pairs-Joins lib pools pool there _ _ g pool.tokens (λ s. let bad = s.0 in cc)
                  (λ t m. m) many.edges_ok j)
              (simp k at e)
        | inr k ↦ elim (Bool-cases (same_type pool.pool_type curve_tri_crypto)) [
          | inl c ↦
              with_graph-Built _ after _ many
                (λ g j.
                  join_pairs-Joins lib pools pool there _ _ g pool.tokens (λ s. let bad = s.1 in cc)
                    (λ t m. m) many.edges_ok j)
                (simp (k, c) at e)
          | inr c ↦
              let two =
                add_token-Built _ pool.token1_address (add_token-Built b pool.token0_address h) in
              with_graph-Built _ after _ two
                (λ g j.
                  join-Joins lib pools pool there _ g _ _ (inl ((k, c), inl (refl, refl)))
                    two.edges_ok j)
                (simp (k, c) at e)
        ]
      ]

  build_pools-Built :
      (b after : Building G) (rest : List Pool)
      → ((p : Pool) → In p rest → In p pools)
      → Built b
      → build_pools lib b rest ≡ ok after
      → Built after
  unfolding build_pools
  build_pools-Built b after [] all h e = subst Built (ok-injective e) h
  build_pools-Built b after (pool ∷ rest) all h e =
      let (mid, e1, e2) = >>=-eq-ok (add_pool_to_graph lib b pool) _ e in
      build_pools-Built mid after rest (λ p m. all p (inr m))
        (add_pool_to_graph-Built b mid pool (all pool (inl refl)) h e1) e2

  empty-Built : Built (record { graph = lib.new_undirected; inserted_nodes = [] })
  empty-Built = record {
    edges_ok = λ n x m. absurd (subst (In x) (lib.edges-new n) m);
    inserted = λ t m. absurd (subst (In t) lib.nodes-new m);
    distinct = subst Distinct (sym lib.nodes-new) (λ i j a p q. cc);
  }

  -- The graph of the pools: each edge is one of the pools, between two of its tokens, and each token
  -- has one node at most.
  pub build_graph-Edges :
      (g : G) → build_graph lib pools ≡ ok g → EdgesOk lib pools g × Distinct (lib.nodes g)
  unfolding build_graph
  build_graph-Edges g e =
      let (b, e1, e2) =
        >>=-eq-ok
          (build_pools lib (record { graph = lib.new_undirected; inserted_nodes = [] }) pools) _
          e in
      let h = build_pools-Built _ b pools (λ p m. m) empty-Built e1 in
      subst (λ z. EdgesOk lib pools z × Distinct (lib.nodes z)) (ok-injective e2)
        (h.edges_ok, h.distinct)
