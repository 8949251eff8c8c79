-- ===== src/Graph/Build/Exact.antt =====
-- The program's cycles are all the round trips over pools of two tokens.
use mathlib.Core.Path.{subst}
use base_buster.Prelude.{
  ℕ, ◌≡◌, ◌↔◌, ◌⊎◌, refl, get_elem?-In, sym, ap, ◌∙◌, inl, inr, List, [], ◌∷◌, map, some,
  some-injective, ok, get_elem?, In, All, All→In, >>=-eq-ok, ok-injective, unwrap, unwrap-some,
}
use base_buster.Pool.{Address, Pool}
use base_buster.Swap.{SwapStep, SwapPath}
use base_buster.Graph.Library.{UnGraph}
use base_buster.Graph.Cycles.{find_all_arbitrage_paths}
use base_buster.Graph.Cycles.Complete.{find_all_arbitrage_paths_two, TwoPools}
use base_buster.Graph.Build.{find_node, build_graph, generate_cycles}
use base_buster.Graph.Build.Nodes.{find_node_first, Distinct}
use base_buster.Graph.Build.Joins.{Trades}
use base_buster.Graph.Build.Edges.{build_graph-Edges}
use base_buster.Graph.Build.Total.{find_node-In, build_graph_total}
use base_buster.Graph.Build.Growth.{IsSimple, build_graph-Joined}
use base_buster.Graph.Build.Generated.{step_of, RoundTrip, generate_cycles-RoundTrip}

module _ {G : Type 0} (lib : UnGraph G) (pools : List Pool) (token : Address) where
  map-In :
      (hash : List SwapStep → ℕ) (cycles : List (List SwapStep)) (path : SwapPath)
      → In path.steps cycles
      → path.hash ≡ hash path.steps
      → In path (map (λ c. record { steps = c; hash = hash c }) cycles)
  map-In hash [] path m h = absurd m
  map-In hash (c ∷ cycles) path (inl e) h =
      inl (λ i. record { steps = e i; hash = (h ∙ ap hash e) i })
  map-In hash (c ∷ cycles) path (inr m) h = inr (map-In hash cycles path m h)

  -- The edge of a pool of two tokens, in the direction in which it trades them.
  Trades-edge :
      (g : G) (pool : Pool) (a b : Address)
      → build_graph lib pools ≡ ok g
      → In pool pools
      → IsSimple pool
      → Trades pool a b
      → (i : ℕ) × (j : ℕ) × (get_elem? (lib.nodes g) i ≡ some a)
        × (get_elem? (lib.nodes g) j ≡ some b)
        × In (j, pool) (lib.edges g i)
  Trades-edge g pool a b built m simple (inl (_, inl (p, q))) =
      let (i, j, at_i, at_j, out, back) = build_graph-Joined lib g pools pool built m simple in
      (i, j, at_i ∙ ap some (sym p), at_j ∙ ap some (sym q), out)
  Trades-edge g pool a b built m simple (inl (_, inr (p, q))) =
      let (i, j, at_i, at_j, out, back) = build_graph-Joined lib g pools pool built m simple in
      (j, i, at_j ∙ ap some (sym p), at_i ∙ ap some (sym q), back)
  Trades-edge g pool a b built m simple (inr (other, p, q)) = absurd (other simple)

  RoundTrip-TwoPools :
      (g : G) (start_node : ℕ) (c : List SwapStep)
      → build_graph lib pools ≡ ok g
      → All IsSimple pools
      → Distinct (lib.nodes g)
      → get_elem? (lib.nodes g) start_node ≡ some token
      → RoundTrip pools token c
      → TwoPools lib g start_node c
  RoundTrip-TwoPools g s c built simple distinct at_s r =
      let edge = λ (pool : Pool) (a : Address) (b : Address) (m : In pool pools).
        Trades-edge g pool a b built m (All→In IsSimple pools pool simple m) in
      let (i, q, at_i, at_q, out) = edge r.first token r.middle r.first_in r.first_trades in
      let (q', j, at_q', at_j, home) = edge r.second r.middle token r.second_in r.second_trades in
      let from_start = distinct i s token at_i at_s in
      let to_start = distinct j s token at_j at_s in
      let joint = distinct q' q r.middle at_q' at_q in
      let start = lib.weight-nodes g s token at_s in
      let mid = lib.weight-nodes g q r.middle at_q in
      (
        q,
        r.first,
        r.second,
        λ e. r.elsewhere (
            some-injective
              (sym (subst (λ z. get_elem? (lib.nodes g) z ≡ some r.middle) e at_q) ∙ at_s)),
        subst (λ z. In (q, r.first) (lib.edges g z)) from_start out,
        subst (λ z. In (s, r.second) (lib.edges g z)) joint
            (subst (λ z. In (z, r.second) (lib.edges g q')) to_start home),
        r.differ,
        r.there_and_back
            ∙ sym
                (λ i. step_of (start i) r.first (mid i) ∷ step_of (mid i) r.second (start i) ∷ []),
      )

  -- A token of a pool of two tokens has its node, so that the search starts.
  generate_cycles-returns :
      (hash : List SwapStep → ℕ) (pool : Pool)
      → In pool pools
      → IsSimple pool
      → (token ≡ pool.token0_address) ⊎ (token ≡ pool.token1_address)
      → (cycles : List SwapPath) × (generate_cycles lib hash token pools ≡ ok cycles)
  unfolding generate_cycles
  generate_cycles-returns hash pool there simple side =
      let (g, built) = build_graph_total lib pools in
      let (i, j, at_i, at_j, _, _) = build_graph-Joined lib g pools pool built there simple in
      let node : In token (lib.nodes g) = elim side [
        | inl e ↦ subst (λ z. In z (lib.nodes g)) (sym e) (get_elem?-In (lib.nodes g) i _ at_i)
        | inr e ↦ subst (λ z. In z (lib.nodes g)) (sym e) (get_elem?-In (lib.nodes g) j _ at_j)
      ] in
      let (start_node, found) = find_node-In token (lib.nodes g) 0 node in
      (
        map (λ c. record { steps = c; hash = hash c })
            (find_all_arbitrage_paths lib g start_node 2),
        rw (built, found) refl,
      )

  In-generate_cycles :
      (hash : List SwapStep → ℕ) (cycles : List SwapPath) (path : SwapPath)
      → All IsSimple pools
      → generate_cycles lib hash token pools ≡ ok cycles
      → In path cycles ↔ (RoundTrip pools token path.steps × (path.hash ≡ hash path.steps))
  unfolding generate_cycles
  In-generate_cycles hash cycles path simple h =
      let (g, built, h1) = >>=-eq-ok (build_graph lib pools) _ h in
      let (s, found, h2) = >>=-eq-ok (unwrap (find_node token (lib.nodes g) 0)) _ h1 in
      let (edges, distinct) = build_graph-Edges lib pools g built in
      let at_s = find_node_first token (lib.nodes g) s (unwrap-some _ s found) in
      (
        All→In _ cycles path (generate_cycles-RoundTrip lib pools token hash cycles h),
        λ r. subst (In path) (ok-injective h2) (
            map-In hash (find_all_arbitrage_paths lib g s 2) path
              ((find_all_arbitrage_paths_two lib g s path.steps).1
                (RoundTrip-TwoPools g s path.steps built simple distinct at_s r.0))
              r.1),
      )

  -- When a pool of the list trades the token and no pool of it is a Balancer or Curve pool,
  -- generate_cycles returns, and its cycles are exactly the round trips from the token over two pools of
  -- the list that have different types, each swapping one of its two tokens for the other, with the hash
  -- of their steps.
  pub generate_cycles_exact :
      (hash : List SwapStep → ℕ) (pool : Pool)
      → All IsSimple pools
      → In pool pools
      → (token ≡ pool.token0_address) ⊎ (token ≡ pool.token1_address)
      → (cycles : List SwapPath) × (generate_cycles lib hash token pools ≡ ok cycles)
        × ((path : SwapPath)
            → In path cycles ↔ (RoundTrip pools token path.steps × (path.hash ≡ hash path.steps)))
  generate_cycles_exact hash pool simple there side =
      let (cycles, e) =
        generate_cycles-returns hash pool there (All→In IsSimple pools pool simple there) side in
      (cycles, e, λ path. In-generate_cycles hash cycles path simple e)
