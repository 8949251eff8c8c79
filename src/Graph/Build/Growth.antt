-- ===== src/Graph/Build/Growth.antt =====
-- The graph only grows while it is built, and a pool of two tokens gets its edge.
use mathlib.Core.Path.{subst}
use base_buster.Prelude.{
  ◌≡◌, sym, inl, inr, Bool, true, false, List, [], ◌∷◌, ok, Bool-cases, In, >>=-eq-ok, ok-injective,
}
use base_buster.Pool.{Address, Pool, balancer_v2, curve_tri_crypto, same_type}
use base_buster.Graph.Library.{UnGraph}
use base_buster.Graph.Build.{
  Building, add_token, add_tokens, join, join_pairs, nonzero_balances, add_simple_pool_to_graph,
  add_curve_pool_to_graph, add_balancer_pool_to_graph, add_pool_to_graph, build_pools, build_graph,
  with_graph,
}
use base_buster.Graph.Build.Grows.{
  Grows-refl, Grows-trans, Joined-Grows, join-Joined, join_pairs-Grows, add_token-Grows,
  add_tokens-Grows, Grows, Joined,
}

-- A pool that `add_simple_pool_to_graph` adds.
abbrev pub IsSimple : Pool → Type 0
IsSimple pool =
    (same_type pool.pool_type balancer_v2 ≡ false)
    × (same_type pool.pool_type curve_tri_crypto ≡ false)

module _ {G : Type 0} (lib : UnGraph G) where
  -- What adding a pool does to the graph.
  abbrev Adds : Building G → Pool → Building G → Type 0
  Adds b pool after =
      Grows lib b.graph after.graph
      × (IsSimple pool → Joined lib after.graph pool pool.token0_address pool.token1_address)

  pairs-Grows :
      (keep : Address → Address → Bool) (pool : Pool) (b after : Building G)
      → (let c = add_tokens lib b pool.tokens in
          with_graph lib c (join_pairs lib keep pool c.graph pool.tokens) ≡ ok after)
      → Grows lib b.graph after.graph
  pairs-Grows keep pool b after e =
      let c = add_tokens lib b pool.tokens in
      let (g, e1, e2) = >>=-eq-ok (join_pairs lib keep pool c.graph pool.tokens) _ e in
      subst (λ z. Grows lib b.graph z.graph) (ok-injective e2)
        (Grows-trans lib (add_tokens-Grows lib b pool.tokens)
          (join_pairs-Grows lib keep pool c.graph g pool.tokens e1))

  simple-Adds :
      (b after : Building G) (pool : Pool)
      → add_simple_pool_to_graph lib b pool ≡ ok after
      → Grows lib b.graph after.graph
        × Joined lib after.graph pool pool.token0_address pool.token1_address
  unfolding add_simple_pool_to_graph
  simple-Adds b after pool e =
      let one = add_token lib b pool.token0_address in
      let two = add_token lib one pool.token1_address in
      let (g, e1, e2) =
        >>=-eq-ok (join lib pool two.graph pool.token0_address pool.token1_address) _ e in
      let (grows, joined) = join-Joined lib pool two.graph g _ _ e1 in
      let before =
        Grows-trans lib (add_token-Grows lib b pool.token0_address)
          (add_token-Grows lib one pool.token1_address) in
      subst
        (λ z.
          Grows lib b.graph z.graph
          × Joined lib z.graph pool pool.token0_address pool.token1_address)
        (ok-injective e2) (Grows-trans lib before grows, joined)

  add_pool_to_graph-Adds :
      (b after : Building G) (pool : Pool)
      → add_pool_to_graph lib b pool ≡ ok after
      → Adds b pool after
  unfolding add_pool_to_graph add_balancer_pool_to_graph add_curve_pool_to_graph
  add_pool_to_graph-Adds b after pool e = elim (Bool-cases (same_type pool.pool_type balancer_v2)) [
    | inl k ↦ (
      pairs-Grows (nonzero_balances lib pool) pool b after (simp k at e),
      λ simple. let bad = simple.0 in cc,
    )
    | inr k ↦ elim (Bool-cases (same_type pool.pool_type curve_tri_crypto)) [
      | inl c ↦ (
        pairs-Grows (λ x y. true) pool b after (simp (k, c) at e),
        λ simple. let bad = simple.1 in cc,
      )
      | inr c ↦
          let (grows, joined) = simple-Adds b after pool (simp (k, c) at e) in
          (grows, λ simple. joined)
    ]
  ]

  build_pools-Joined :
      (b after : Building G) (pools : List Pool)
      → build_pools lib b pools ≡ ok after
      → Grows lib b.graph after.graph
        × ((pool : Pool)
            → In pool pools
            → IsSimple pool
            → Joined lib after.graph pool pool.token0_address pool.token1_address)
  unfolding build_pools
  build_pools-Joined b after [] e = (
    subst (λ z. Grows lib b.graph z.graph) (ok-injective e) (Grows-refl lib b.graph),
    λ p m s. absurd m,
  )
  build_pools-Joined b after (pool ∷ pools) e =
      let (mid, e1, e2) = >>=-eq-ok (add_pool_to_graph lib b pool) _ e in
      let (grows, joined) = add_pool_to_graph-Adds b mid pool e1 in
      let (later, rest) = build_pools-Joined mid after pools e2 in
      (
        Grows-trans lib grows later,
        λ p m s. elim m [
          | inl same ↦
              subst (λ z. Joined lib after.graph z z.token0_address z.token1_address) (sym same)
                (Joined-Grows lib pool _ _ later (joined (subst IsSimple same s)))
          | inr k ↦ rest p k s
        ],
      )

  -- Each pool of two tokens has its edge in the graph, between the nodes of its tokens.
  pub build_graph-Joined :
      (g : G) (pools : List Pool) (pool : Pool)
      → build_graph lib pools ≡ ok g
      → In pool pools
      → IsSimple pool
      → Joined lib g pool pool.token0_address pool.token1_address
  unfolding build_graph
  build_graph-Joined g pools pool e there simple =
      let empty : Building G = record { graph = lib.new_undirected; inserted_nodes = [] } in
      let (b, e1, e2) = >>=-eq-ok (build_pools lib empty pools) _ e in
      subst (λ z. Joined lib z pool pool.token0_address pool.token1_address) (ok-injective e2)
        ((build_pools-Joined empty b pools e1).1 pool there simple)
