-- ===== src/Graph/Cycles/Sound.antt =====
-- Every cycle that the search finds is a walk that it is to find.
use base_buster.Prelude.{
  ℕ, zero, suc, ◌<◌, ◌≡◌, ◌≢◌, refl, ◌∙◌, ap, ◌⊎◌, inl, inr, true, false, List, [], ◌∷◌, ◌++◌, map,
  leb, ◌==◌, length, contains, In, In-append, arith, Bool-cases, ==_iff,
}
use mathlib.Core.Path.{subst}
use mathlib.Core.List.{append_assoc}
use base_buster.Pool.{Pool}
use base_buster.Swap.{SwapStep}
use base_buster.Graph.Library.{UnGraph}
use base_buster.Graph.Cycles.{Hop, closes, swap_step}
use base_buster.Graph.Cycles.Found.{found_by, found_all, found}

module _ {G : Type 0} (lib : UnGraph G) (graph : G) (start_node : ℕ) (max_hops : ℕ) where
  -- `rest` takes a walk from `current` on along edges of the graph, over nodes that are neither the
  -- start nor visited, until it closes at the start; `path` has been walked before, and no hop
  -- begins when `max_hops` hops have been made.
  abbrev pub Completes : ℕ → List Hop → List ℕ → List Hop → Type 0
  Completes current path visited [] = ⊥
  Completes current path visited ((base, pool, quote) ∷ rest) =
      (base ≡ current)
      × In (quote, pool) (lib.edges graph base)
      × (length path < max_hops)
      × (((quote ≡ start_node) × (closes path pool.pool_type ≡ true) × (rest ≡ []))
          ⊎ ((quote ≢ start_node)
              × (contains quote visited ≡ false)
              × Completes quote (path ++ (base, pool, quote) ∷ []) (quote ∷ visited) rest))

  ne_of_test : (next : ℕ) → (next == start_node) ≡ false → next ≢ start_node
  ne_of_test next away = ground arith

  module _ (collect : ℕ → List Hop → List ℕ → List (List SwapStep)) (current : ℕ) (path : List Hop)
      (visited : List ℕ) (next : ℕ) (pool : Pool) where
    abbrev pub by_edge : List (List SwapStep)
    by_edge = found_by lib graph start_node max_hops collect current path visited (next, pool)

    abbrev pub walked : List Hop
    walked = path ++ (current, pool, next) ∷ []

    pub closing_edge :
        (next == start_node) ≡ true
        → closes path pool.pool_type ≡ true
        → by_edge ≡ map (swap_step lib graph) walked ∷ []
    unfolding found_by
    closing_edge back keeps = rw (back, keeps)

    dropped_edge : (next == start_node) ≡ true → closes path pool.pool_type ≡ false → by_edge ≡ []
    unfolding found_by
    dropped_edge back drops = rw (back, drops)

    seen_edge : (next == start_node) ≡ false → contains next visited ≡ true → by_edge ≡ []
    unfolding found_by
    seen_edge away seen = rw (away, seen)

    pub open_edge :
        (next == start_node) ≡ false
        → contains next visited ≡ false
        → by_edge ≡ collect next walked (next ∷ visited)
    unfolding found_by
    open_edge away fresh = rw (away, fresh)

  -- `c` is the walk `path` completed.
  abbrev pub Completed : ℕ → List Hop → List ℕ → List SwapStep → Type 0
  Completed current path visited c =
      (rest : List Hop) × Completes current path visited rest
      × (c ≡ map (swap_step lib graph) (path ++ rest))

  abbrev pub Sound : (ℕ → List Hop → List ℕ → List (List SwapStep)) → Type 0
  Sound collect =
      (current : ℕ) (path : List Hop) (visited : List ℕ) (c : List SwapStep)
      → In c (collect current path visited)
      → Completed current path visited c

  module _ (collect : ℕ → List Hop → List ℕ → List (List SwapStep)) (ih : Sound collect)
      (current : ℕ) (path : List Hop) (visited : List ℕ) (c : List SwapStep)
      (room : length path < max_hops) where
    found_by-Sound :
        (next : ℕ) (pool : Pool)
        → In (next, pool) (lib.edges graph current)
        → In c (by_edge collect current path visited next pool)
        → Completed current path visited c
    found_by-Sound next pool edge h = elim (Bool-cases (next == start_node)) [
      | inl back ↦ elim (Bool-cases (closes path pool.pool_type)) [
        | inl keeps ↦
            elim (subst (In c) (closing_edge collect current path visited next pool back keeps) h) [
              | inl e ↦ (
                (current, pool, next) ∷ [],
                (refl, edge, room, inl ((==_iff next start_node).0 back, keeps, refl)),
                e,
              )
              | inr nothing ↦ absurd nothing
            ]
        | inr drops ↦
            absurd (subst (In c) (dropped_edge collect current path visited next pool back drops) h)
      ]
      | inr away ↦ elim (Bool-cases (contains next visited)) [
        | inl seen ↦
            absurd (subst (In c) (seen_edge collect current path visited next pool away seen) h)
        | inr fresh ↦
            let (rest, complete, e) =
              ih next (walked collect current path visited next pool) (next ∷ visited) c
                (subst (In c) (open_edge collect current path visited next pool away fresh) h) in
            (
              (current, pool, next) ∷ rest,
              (refl, edge, room, inr (ne_of_test next away, fresh, complete)),
              e ∙ ap (map (swap_step lib graph)) (append_assoc path _ rest),
            )
      ]
    ]

    found_all-Sound :
        (edges : List (ℕ × Pool))
        → ((e : ℕ × Pool) → In e edges → In e (lib.edges graph current))
        → In c (found_all lib graph start_node max_hops collect current path visited edges)
        → Completed current path visited c
    unfolding found_all
    found_all-Sound [] sub h = absurd h
    found_all-Sound ((next, pool) ∷ edges) sub h = elim (In-append c _ _ h) [
      | inl here ↦ found_by-Sound next pool (sub (next, pool) (inl refl)) here
      | inr later ↦ found_all-Sound edges (λ e m. sub e (inr m)) later
    ]

  module _ (fuel current : ℕ) (path : List Hop) (visited : List ℕ) where
    found_stop :
        leb max_hops (length path) ≡ true
        → found lib graph start_node max_hops (suc fuel) current path visited ≡ []
    unfolding found
    found_stop stop = rw stop

    pub found_go :
        leb max_hops (length path) ≡ false
        → found lib graph start_node max_hops (suc fuel) current path visited
          ≡ found_all lib graph start_node max_hops
              (found lib graph start_node max_hops fuel)
              current
              path
              visited
              (lib.edges graph current)
    unfolding found
    found_go go = rw go

  pub found-Sound : (fuel : ℕ) → Sound (found lib graph start_node max_hops fuel)
  found-Sound zero current path visited c h = unfold found in absurd h
  found-Sound (suc fuel) current path visited c h = elim (Bool-cases (leb max_hops (length path))) [
    | inl stop ↦ absurd (subst (In c) (found_stop fuel current path visited stop) h)
    | inr go ↦
        found_all-Sound (found lib graph start_node max_hops fuel) (found-Sound fuel) current path
          visited c (ground arith) (lib.edges graph current) (λ e m. m)
          (subst (In c) (found_go fuel current path visited go) h)
  ]
