-- ===== src/Filter/Kept.antt =====
-- src/filter.rs: which pools the swaps there and back keep.
use mathlib.Core.Path.{subst}
use base_buster.Prelude.{
  ◌*◌, ◌≤◌, ◌<◌, ◌≡◌, refl, sym, ◌⊎◌, inl, inr, Bool, true, false, not, List, [], ◌∷◌, Option, none,
  some, ok, >>=-eq-ok, ok-injective, leb, if◌then◌else◌, lookup, HashMap, arith, Bool-cases,
  Option-cases,
}
use base_buster.Prelude.Words.{checked_mul, checked_div}
use base_buster.Pool.{Address, U256, Pool}
use base_buster.Swap.{amount}
use base_buster.Filter.Routers.{SwapType, Abi, router_of}
use base_buster.Filter.BySwap.{
  NodeEvm, first_direction, lower_bound, router_swap, fund, enough, swap_back, round_trip, try_pool,
  filter_by_swap,
}

module _ {S : Type 0} (node : NodeEvm S) (abi : Abi) (slot_map : HashMap U256) where
  -- The first swap of a pool by its router, on a database with both balances and approvals.
  abbrev pub First : Pool → Address → SwapType → S → Option U256 → Type 0
  First pool router swap_type t first =
      (slot0 slot1 : U256) × (before s : S) × (lookup pool.token0_address slot_map ≡ some slot0)
      × (lookup pool.token1_address slot_map ≡ some slot1)
      × (router_of pool.pool_type ≡ ok (router, swap_type))
      × (fund node abi before pool router slot0 slot1 ≡ ok s)
      × (router_swap node abi s pool router swap_type amount (first_direction pool) ≡ ok (t, first))

  -- The outputs of the two swaps, as far as they succeed.
  abbrev pub Swapped : Pool → Option U256 → Option U256 → Type 0
  Swapped pool first second =
      (router : Address) × (swap_type : SwapType) × (t : S) × First pool router swap_type t first
      × (elim first [
        | none ↦ second ≡ none
        | some amt ↦
            (u : S) × (router_swap node abi t pool router swap_type amt (not (first_direction pool))
              ≡ ok (u, second))
      ])

  -- A pool that is kept: both slots are known, and the way back returns 95 percent of AMOUNT.
  abbrev pub Passed : Pool → Type 0
  Passed pool =
      (amt received : U256) × Swapped pool (some amt) (some received)
      × (95 * amount ≤ 100 * received)

  -- A pool that is dropped: a slot is unknown, a swap fails, or less comes back.
  abbrev pub Failed : Pool → Type 0
  Failed pool =
      (lookup pool.token0_address slot_map ≡ none)
      ⊎ (lookup pool.token1_address slot_map ≡ none)
      ⊎ (Swapped pool none none)
      ⊎ ((amt : U256) × Swapped pool (some amt) none)
      ⊎ ((amt received : U256) × Swapped pool (some amt) (some received)
          × (100 * received < 95 * amount))

  -- The pools that passed, in their order; the others failed.
  abbrev pub Selected : List Pool → List Pool → Type 0
  Selected [] kept = kept ≡ []
  Selected (pool ∷ pools) kept =
      ((rest : List Pool) × (kept ≡ pool ∷ rest) × Passed pool × Selected pools rest)
      ⊎ (Failed pool × Selected pools kept)

  lower_bound-eq : lower_bound ≡ ok 950_000_000_000_000
  unfolding lower_bound checked_mul checked_div
  lower_bound-eq = refl

  abbrev Verdict : Pool → Bool → Type 0
  Verdict pool true = Passed pool
  Verdict pool false = Failed pool

  enough-Verdict :
      (t u : S) (pool : Pool) (router : Address) (swap_type : SwapType) (amt : U256)
      (second : Option U256)
      → First pool router swap_type t (some amt)
      → router_swap node abi t pool router swap_type amt (not (first_direction pool))
        ≡ ok (u, second)
      → Verdict pool (enough 950_000_000_000_000 second)
  unfolding enough
  enough-Verdict t u pool router swap_type amt none f g =
      inr (inr (inr (inl (amt, (router, swap_type, t, f, (u, g))))))
  enough-Verdict t u pool router swap_type amt (some received) f g =
      elim (Bool-cases (leb 950_000_000_000_000 received)) [
        | inl e ↦
            subst (Verdict pool) (sym e)
              (amt, received, (router, swap_type, t, f, (u, g)), ground arith)
        | inr e ↦
            subst (Verdict pool) (sym e) (
              inr
                (inr (inr (inr (amt, received, (router, swap_type, t, f, (u, g)), ground arith)))))
      ]

  swap_back-Verdict :
      (t : S) (pool : Pool) (router : Address) (swap_type : SwapType) (first : Option U256) (s' : S)
      (kept : Bool)
      → First pool router swap_type t first
      → swap_back node abi 950_000_000_000_000 t pool router swap_type first ≡ ok (s', kept)
      → Verdict pool kept
  unfolding swap_back
  swap_back-Verdict t pool router swap_type none s' kept f h =
      subst (λ z. Verdict pool z.1) (ok-injective h)
        (inr (inr (inl (router, swap_type, t, f, refl))))
  swap_back-Verdict t pool router swap_type (some amt) s' kept ran h =
      let ((u, second), g, h2) =
        >>=-eq-ok (router_swap node abi t pool router swap_type amt (not (first_direction pool))) _
          h in
      subst (λ z. Verdict pool z.1) (ok-injective h2)
        (enough-Verdict t u pool router swap_type amt second ran g)

  round_trip-Verdict :
      (before s : S) (pool : Pool) (router : Address) (swap_type : SwapType) (slot0 slot1 : U256)
      (s' : S) (kept : Bool)
      → router_of pool.pool_type ≡ ok (router, swap_type)
      → lookup pool.token0_address slot_map ≡ some slot0
      → lookup pool.token1_address slot_map ≡ some slot1
      → fund node abi before pool router slot0 slot1 ≡ ok s
      → round_trip node abi s pool router swap_type ≡ ok (s', kept)
      → Verdict pool kept
  unfolding round_trip
  round_trip-Verdict before s pool router swap_type slot0 slot1 s' kept r l0 l1 d h =
      let ((t, first), f, h2) =
        >>=-eq-ok (router_swap node abi s pool router swap_type amount (first_direction pool)) _
          (rw lower_bound-eq at h) in
      swap_back-Verdict t pool router swap_type first s' kept
        (slot0, slot1, before, s, l0, l1, r, d, f) h2

  try_pool-Verdict :
      (s : S) (pool : Pool) (s' : S) (kept : Bool)
      → try_pool node abi slot_map s pool ≡ ok (s', kept)
      → Verdict pool kept
  unfolding try_pool
  try_pool-Verdict s pool s' kept h =
      let ((router, swap_type), r, h1) = >>=-eq-ok (router_of pool.pool_type) _ h in
      elim (Option-cases (lookup pool.token0_address slot_map)) [
        | inl l0 ↦ subst (λ z. Verdict pool z.1) (ok-injective (rw l0 at h1)) (inl l0)
        | inr (slot0, l0) ↦ elim (Option-cases (lookup pool.token1_address slot_map)) [
          | inl l1 ↦ subst (λ z. Verdict pool z.1) (ok-injective (rw (l0, l1) at h1)) (inr (inl l1))
          | inr (slot1, l1) ↦
              let (funded, d, h2) =
                >>=-eq-ok (fund node abi s pool router slot0 slot1) _ (rw (l0, l1) at h1) in
              round_trip-Verdict s funded pool router swap_type slot0 slot1 s' kept r l0 l1 d h2
        ]
      ]

  select :
      (pool : Pool) (pools rest : List Pool) (kept : Bool)
      → Verdict pool kept
      → Selected pools rest
      → Selected (pool ∷ pools) (if kept then pool ∷ rest else rest)
  select pool pools rest true v h = inl (rest, refl, v, h)
  select pool pools rest false v h = inr (v, h)

  -- A filter run that ends without a panic keeps, in their order, exactly the pools for which the
  -- balance slots of both tokens are known and a swap of AMOUNT by the protocol's router, followed by
  -- the swap of its output back, returns at least 95 percent of AMOUNT; a dropped pool has an unknown
  -- slot, a failed swap, or a smaller return.
  pub filter_by_swap-Selected :
      (s : S) (pools kept : List Pool)
      → filter_by_swap node abi slot_map s pools ≡ ok kept
      → Selected pools kept
  unfolding filter_by_swap
  filter_by_swap-Selected s [] kept h = sym (ok-injective h)
  filter_by_swap-Selected s (pool ∷ pools) kept h =
      let ((s', passed), h1, h2) = >>=-eq-ok (try_pool node abi slot_map s pool) _ h in
      let (rest, h3, h4) = >>=-eq-ok (filter_by_swap node abi slot_map s' pools) _ h2 in
      subst (Selected (pool ∷ pools)) (ok-injective h4) (
        select pool pools rest passed (try_pool-Verdict s pool s' passed h1)
          (filter_by_swap-Selected s' pools rest h3))
