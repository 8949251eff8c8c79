-- ===== src/Graph/Cycles/Complete.antt =====
-- Every walk that the search is to find is found, and the fuel is enough; with two hops at most, as
-- `generate_cycles` calls it, the cycles found are the pairs of pools of different types.
use base_buster.Prelude.{
  ℕ, zero, suc, ◌+◌, ◌≤◌, ◌<◌, ◌≡◌, ◌≢◌, ◌↔◌, refl, ◌∙◌, ap, sym, inl, inr, Bool, true, false, not,
  List, [], ◌∷◌, ◌++◌, map, length, length-append, In, In-append_left, In-append_right, arith,
  eq_false, ==_iff,
}
use mathlib.Core.Path.{subst}
use mathlib.Core.List.{append_assoc}
use base_buster.Pool.{Pool, same_type}
use base_buster.Swap.{SwapStep}
use base_buster.Graph.Library.{UnGraph}
use base_buster.Graph.Cycles.{
  Hop, Search, closes, swap_step, find_all_arbitrage_paths, empty_search,
}
use base_buster.Graph.Cycles.Found.{found_by, found_all, found, construct_cycles-found}
use base_buster.Graph.Cycles.Sound.{
  Completes, Completed, by_edge, closing_edge, open_edge, found_go, found-Sound,
}

module _ {G : Type 0} (lib : UnGraph G) (graph : G) (start_node : ℕ) (max_hops : ℕ) where
  In-found_all :
      (collect : ℕ → List Hop → List ℕ → List (List SwapStep)) (current : ℕ) (path : List Hop)
      (visited : List ℕ) (next : ℕ) (pool : Pool) (edges : List (ℕ × Pool)) (c : List SwapStep)
      → In (next, pool) edges
      → In c (by_edge lib graph start_node max_hops collect current path visited next pool)
      → In c (found_all lib graph start_node max_hops collect current path visited edges)
  unfolding found_all
  In-found_all collect current path visited next pool [] c edge h = absurd edge
  In-found_all collect current path visited next pool (e ∷ edges) c (inl here) h =
      In-append_left c _ _ (
        subst (λ x. In c (found_by lib graph start_node max_hops collect current path visited x))
          here h)
  In-found_all collect current path visited next pool (e ∷ edges) c (inr later) h =
      In-append_right c _ _ (In-found_all collect current path visited next pool edges c later h)

  -- An edge of a node where there is room for one more hop contributes to what is found there.
  In-found_edge :
      (fuel base : ℕ) (path : List Hop) (visited : List ℕ) (pool : Pool) (quote : ℕ)
      (c : List SwapStep)
      → In (quote, pool) (lib.edges graph base)
      → length path < max_hops
      → In c (
          by_edge lib graph start_node max_hops
            (found lib graph start_node max_hops fuel)
            base
            path
            visited
            quote
            pool)
      → In c (found lib graph start_node max_hops (suc fuel) base path visited)
  In-found_edge fuel base path visited pool quote c edge room h =
      subst (In c)
        (sym (found_go lib graph start_node max_hops fuel base path visited (ground arith)))
        (In-found_all (found lib graph start_node max_hops fuel) base path visited quote pool
          (lib.edges graph base) c edge h)

  pub In-found :
      (fuel current : ℕ) (path : List Hop) (visited : List ℕ) (rest : List Hop)
      → Completes lib graph start_node max_hops current path visited rest
      → max_hops < length path + fuel
      → In
          (map (swap_step lib graph) (path ++ rest))
          (found lib graph start_node max_hops fuel current path visited)
  In-found fuel current path visited [] complete enough = absurd complete
  In-found zero current path visited ((base, pool, quote) ∷ rest) (_, _, room, _) enough =
      absurd (omega arith)
  In-found (suc fuel) current path visited ((base, pool, quote) ∷ rest)
        (here, edge, room, inl (back, keeps, done)) enough =
      let hop : Hop = (base, pool, quote) in
      let cycle : List Hop → List SwapStep = λ r. map (swap_step lib graph) (path ++ hop ∷ r) in
      subst (λ n. In (cycle rest) (found lib graph start_node max_hops (suc fuel) n path visited))
        here
        (In-found_edge fuel base path visited pool quote (cycle rest) edge room (
          subst (In (cycle rest))
            (sym (
              closing_edge lib graph start_node max_hops (found lib graph start_node max_hops fuel)
                base path visited quote pool ((==_iff quote start_node).1 back) keeps))
            (inl (ap cycle done))))
  In-found (suc fuel) current path visited ((base, pool, quote) ∷ rest)
        (here, edge, room, inr (away, fresh, complete)) enough =
      let hop : Hop = (base, pool, quote) in
      let cycle : List SwapStep = map (swap_step lib graph) (path ++ hop ∷ rest) in
      let deeper =
        In-found fuel quote (path ++ hop ∷ []) (quote ∷ visited) rest complete
          (omega (arith, length-append path (hop ∷ []))) in
      subst (λ n. In cycle (found lib graph start_node max_hops (suc fuel) n path visited)) here
        (In-found_edge fuel base path visited pool quote cycle edge room (
          subst (In cycle)
            (sym (
              open_edge lib graph start_node max_hops (found lib graph start_node max_hops fuel)
                base path visited quote pool (eq_false quote start_node away) fresh))
            (subst
              (λ (p : List Hop). In (map (swap_step lib graph) p) (
                found lib graph start_node max_hops fuel quote (path ++ hop ∷ [])
                  (quote ∷ visited)))
              (append_assoc path (hop ∷ []) rest) deeper)))

  -- For every bound on the hops, the search returns exactly the closed walks from the start node
  -- that `Completes` describes: simple, of at most `max_hops` hops, closing as the source wants.
  pub find_all_arbitrage_paths_exact :
      (c : List SwapStep)
      → In c (find_all_arbitrage_paths lib graph start_node max_hops)
        ↔ Completed lib graph start_node max_hops start_node [] [] c
  unfolding find_all_arbitrage_paths
  find_all_arbitrage_paths_exact c =
      let ran =
        construct_cycles-found lib graph start_node max_hops (suc max_hops) start_node
          empty_search in
      let paths = ap (λ (s : Search). s.all_paths) ran in
      (
        λ h.
            found-Sound lib graph start_node max_hops (suc max_hops) start_node [] [] c
              (subst (In c) paths h),
        λ (rest, complete, e). subst (In c) (sym paths) (
            subst (λ x. In x (found lib graph start_node max_hops (suc max_hops) start_node [] []))
              (sym e) (In-found (suc max_hops) start_node [] [] rest complete (omega arith))),
      )

not-true : (b : Bool) → not b ≡ true → b ≡ false
not-true b h = ground arith

false-not : (b : Bool) → b ≡ false → not b ≡ true
false-not b h = ground arith

module _ {G : Type 0} (lib : UnGraph G) (graph : G) (start_node : ℕ) where
  -- Out over one pool and back over another of a different type.
  abbrev pub TwoPools : List SwapStep → Type 0
  TwoPools c =
      (middle : ℕ) × (first : Pool) × (second : Pool) × (middle ≢ start_node)
      × In (middle, first) (lib.edges graph start_node)
      × In (start_node, second) (lib.edges graph middle)
      × (same_type first.pool_type second.pool_type ≡ false)
      × (c
          ≡ swap_step lib graph (start_node, first, middle)
            ∷ swap_step lib graph (middle, second, start_node)
            ∷ [])

  no_third :
      (current : ℕ) (path : List Hop) (visited : List ℕ) (rest : List Hop)
      → 2 ≤ length path
      → ¬ Completes lib graph start_node 2 current path visited rest
  no_third current path visited [] long complete = complete
  no_third current path visited (hop ∷ rest) long (_, _, room, _) = omega arith

  to_TwoPools :
      (c : List SwapStep) (rest : List Hop)
      → Completes lib graph start_node 2 start_node [] [] rest
      → c ≡ map (swap_step lib graph) rest
      → TwoPools c
  unfolding closes
  to_TwoPools c [] complete e = absurd complete
  to_TwoPools c ((b, p, q) ∷ rest) (here, edge, room, inl (back, keeps, done)) e = cc
  to_TwoPools c ((b, p, q) ∷ []) (here, edge, room, inr (away, fresh, complete)) e = absurd complete
  to_TwoPools c ((b, p, q) ∷ (b', p', q') ∷ rest)
        (here, edge, room, inr (away, fresh, (here', edge', room', inr (away', fresh', more)))) e =
      absurd (no_third q' _ _ rest (omega arith) more)
  to_TwoPools c ((b, p, q) ∷ (b', p', q') ∷ rest)
        (here, edge, room, inr (away, fresh, (here', edge', room', inl (back', keeps', done')))) e =
      (
        q,
        p,
        p',
        away,
        subst (λ n. In (q, p) (lib.edges graph n)) here edge,
        subst (λ n. In (start_node, p') (lib.edges graph n)) here'
            (subst (λ n. In (n, p') (lib.edges graph b')) back' edge'),
        not-true (same_type p.pool_type p'.pool_type) keeps',
        e ∙ λ i. map (swap_step lib graph) ((here i, p, q) ∷ (here' i, p', back' i) ∷ done' i),
      )

  of_TwoPools :
      (c : List SwapStep) → TwoPools c → Completed lib graph start_node 2 start_node [] [] c
  unfolding closes
  of_TwoPools c (middle, first, second, away, out, home, differ, e) = (
    (start_node, first, middle) ∷ (middle, second, start_node) ∷ [],
    (
      refl,
      out,
      omega arith,
      inr (
        away,
        refl,
        (
          refl,
          home,
          omega arith,
          inl (refl, false-not (same_type first.pool_type second.pool_type) differ, refl),
        ),
      ),
    ),
    e,
  )

  -- As `generate_cycles` calls it, the search returns exactly the cycles of two hops from the start
  -- token: out over one pool to another token and back over a pool of a different type.
  pub find_all_arbitrage_paths_two :
      (c : List SwapStep) → In c (find_all_arbitrage_paths lib graph start_node 2) ↔ TwoPools c
  find_all_arbitrage_paths_two c =
      let exact = find_all_arbitrage_paths_exact lib graph start_node 2 c in
      (
        λ h. let (rest, complete, e) = exact.0 h in to_TwoPools c rest complete e,
        λ t. exact.1 (of_TwoPools c t),
      )
