-- ===== src/Graph/Build/Joins.antt =====
-- The edges that joining the nodes of a pool's tokens adds.
use mathlib.Core.Path.{subst}
use base_buster.Prelude.{
  ℕ, ◌≡◌, refl, sym, ◌∙◌, ◌⊎◌, inl, inr, Bool, List, [], ◌∷◌, some, ok, get_elem?, Bool-cases, In,
  >>=-eq-ok, ok-injective, unwrap, unwrap-some,
}
use base_buster.Pool.{Address, Pool}
use base_buster.Graph.Library.{UnGraph}
use base_buster.Graph.Build.Growth.{IsSimple}
use base_buster.Graph.Build.Nodes.{find_node_first}
use base_buster.Graph.Build.{find_node, join, join_rest, join_pairs}

-- The tokens that a pool trades: its two tokens, or two of the tokens of a Balancer or Curve pool.
abbrev pub Trades : Pool → Address → Address → Type 0
Trades pool a b =
    (IsSimple pool
      × (((a ≡ pool.token0_address) × (b ≡ pool.token1_address))
          ⊎ ((a ≡ pool.token1_address) × (b ≡ pool.token0_address))))
    ⊎ ((IsSimple pool → ⊥) × In a pool.tokens × In b pool.tokens)

Trades-flip : (pool : Pool) (a b : Address) → Trades pool a b → Trades pool b a
Trades-flip pool a b (inl (s, inl (p, q))) = inl (s, inr (q, p))
Trades-flip pool a b (inl (s, inr (p, q))) = inl (s, inl (q, p))
Trades-flip pool a b (inr (n, p, q)) = inr (n, q, p)

module _ {G : Type 0} (lib : UnGraph G) (pools : List Pool) where
  -- An edge from node n.
  abbrev pub EdgeOk : List Address → ℕ → ℕ × Pool → Type 0
  EdgeOk nodes n (m, pool) =
      In pool pools
      × ((a : Address) × (b : Address) × (get_elem? nodes n ≡ some a)
          × (get_elem? nodes m ≡ some b)
          × Trades pool a b)

  abbrev pub EdgesOk : G → Type 0
  EdgesOk g = (n : ℕ) (e : ℕ × Pool) → In e (lib.edges g n) → EdgeOk (lib.nodes g) n e

  -- A step that adds edges only.
  abbrev pub Joins : G → G → Type 0
  Joins g h = EdgesOk h × (lib.nodes h ≡ lib.nodes g)

  module _ (pool : Pool) (there : In pool pools) where
    pub join-Joins :
        (g h : G) (a b : Address)
        → Trades pool a b
        → EdgesOk g
        → join lib pool g a b ≡ ok h
        → Joins g h
    unfolding join
    join-Joins g h a b trades ok_g e =
        let (i, e1, r) = >>=-eq-ok (unwrap (find_node a (lib.nodes g) 0)) _ e in
        let (j, e2, r2) = >>=-eq-ok (unwrap (find_node b (lib.nodes g) 0)) _ r in
        let here_i = find_node_first a (lib.nodes g) i (unwrap-some _ i e1) in
        let here_j = find_node_first b (lib.nodes g) j (unwrap-some _ j e2) in
        let same = lib.nodes-add_edge g i j pool in
        let edge : EdgeOk (lib.nodes g) i (j, pool) = (there, (a, b, here_i, here_j, trades)) in
        let back : EdgeOk (lib.nodes g) j (i, pool) =
          (there, (b, a, here_j, here_i, Trades-flip pool a b trades)) in
        subst (Joins g) (ok-injective r2) (
          λ n x m.
              subst (λ z. EdgeOk z n x) (sym same)
                (elim ((lib.edges-add_edge g i j pool n x).0 m) [
                  | inl old ↦ ok_g n x old
                  | inr (inl (at_n, is_x)) ↦
                      subst (EdgeOk (lib.nodes g) n) (sym is_x)
                        (subst (λ z. EdgeOk (lib.nodes g) z (j, pool)) (sym at_n) edge)
                  | inr (inr (at_n, is_x)) ↦
                      subst (EdgeOk (lib.nodes g) n) (sym is_x)
                        (subst (λ z. EdgeOk (lib.nodes g) z (i, pool)) (sym at_n) back)
                ]),
          same,
        )

    join_rest-Joins :
        (keep : Address → Address → Bool) (g h : G) (a : Address) (tokens : List Address)
        → (IsSimple pool → ⊥)
        → In a pool.tokens
        → ((t : Address) → In t tokens → In t pool.tokens)
        → EdgesOk g
        → join_rest lib keep pool g a tokens ≡ ok h
        → Joins g h
    unfolding join_rest
    join_rest-Joins keep g h a [] many in_a all ok_g e =
        subst (Joins g) (ok-injective e) (ok_g, refl)
    join_rest-Joins keep g h a (b ∷ tokens) many in_a all ok_g e = elim (Bool-cases (keep a b)) [
      | inl k ↦
          let (mid, e1, e2) = >>=-eq-ok (join lib pool g a b) _ (rw (k, join_rest) at e) in
          let (ok_mid, same) = join-Joins g mid a b (inr (many, in_a, all b (inl refl))) ok_g e1 in
          let (ok_h, same') =
            join_rest-Joins keep mid h a tokens many in_a (λ t m. all t (inr m)) ok_mid e2 in
          (ok_h, same' ∙ same)
      | inr k ↦
          join_rest-Joins keep g h a tokens many in_a (λ t m. all t (inr m)) ok_g
            (rw (k, join_rest) at e)
    ]

    pub join_pairs-Joins :
        (keep : Address → Address → Bool) (g h : G) (tokens : List Address)
        → (IsSimple pool → ⊥)
        → ((t : Address) → In t tokens → In t pool.tokens)
        → EdgesOk g
        → join_pairs lib keep pool g tokens ≡ ok h
        → Joins g h
    unfolding join_pairs
    join_pairs-Joins keep g h [] many all ok_g e = subst (Joins g) (ok-injective e) (ok_g, refl)
    join_pairs-Joins keep g h (a ∷ tokens) many all ok_g e =
        let (mid, e1, e2) = >>=-eq-ok (join_rest lib keep pool g a tokens) _ e in
        let (ok_mid, same) =
          join_rest-Joins keep g mid a tokens many (all a (inl refl)) (λ t m. all t (inr m)) ok_g
            e1 in
        let (ok_h, same') =
          join_pairs-Joins keep mid h tokens many (λ t m. all t (inr m)) ok_mid e2 in
        (ok_h, same' ∙ same)
