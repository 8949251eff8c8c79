-- ===== src/Calculation/Calculator/Coherence.antt =====
-- Coherence of the cache: its entries are the outputs of the swaps it stands for. The key of an
-- entry has no direction, so the steps that share a pool must be one step.
use mathlib.Core.Path.{subst}
use base_buster.Prelude.{
  ap, sym, ◌∙◌, inl, inr, Bool-cases, Option-cases, ◌≡◌, refl, false, List, [], ◌∷◌, none, some,
  Outcome, ok, err, panic, ◌>>=◌, ◌==◌, if◌then◌else◌, arith, contains, All,
}
use base_buster.Pool.{Address, U256}
use base_buster.Swap.{SwapPath, SwapStep, amount}
use base_buster.Cache.{Cache, get, invalidate}
use base_buster.Cache.Laws.{get-invalidate}
use base_buster.Calculation.Calculator.{
  Swaps, step_amount_out, cached_step, calculate_steps, calculate_output, invalidate_cache,
}

-- The path's output without a cache.
abbrev pub path_output : Swaps → U256 → List SwapStep → Outcome U256
path_output swaps a [] = ok a
path_output swaps a (step ∷ steps) =
    step_amount_out swaps a step >>= λ out. if out == 0 then ok 0 else path_output swaps out steps

-- `step_of` gives the step that uses a pool.
module _ (step_of : Address → SwapStep) where
  abbrev pub Coherent : Swaps → Cache → Type 0
  Coherent swaps c =
      (a : U256) (q : Address) (v : U256)
      → get c a q ≡ some v
      → step_amount_out swaps a (step_of q) ≡ ok v

  abbrev pub OneStep : List SwapStep → Type 0
  OneStep = All (λ step. step_of step.pool_address ≡ step)

  abbrev pub Agrees : Swaps → Outcome (Cache × U256) → Outcome U256 → Type 0
  Agrees swaps (ok (c, v)) (ok w) = (v ≡ w) × Coherent swaps c
  Agrees swaps (err e) (err f) = e ≡ f
  Agrees swaps panic panic = Unit
  Agrees swaps (ok _) (err _) = ⊥
  Agrees swaps (ok _) panic = ⊥
  Agrees swaps (err _) (ok _) = ⊥
  Agrees swaps (err _) panic = ⊥
  Agrees swaps panic (ok _) = ⊥
  Agrees swaps panic (err _) = ⊥

  module _ (swaps : Swaps) where
    set-Coherent :
        (c : Cache) (a : U256) (q : Address) (v : U256)
        → Coherent swaps c
        → step_amount_out swaps a (step_of q) ≡ ok v
        → Coherent swaps (swaps.set c a q v)
    set-Coherent c a q v coherent h b r w g =
        let e = swaps.get-set c a q v b r in let k = coherent b r w in ground (arith, e, k)

    Agrees->>= :
        (m : Outcome (Cache × U256)) (n : Outcome U256) (f : Cache × U256 → Outcome (Cache × U256))
        (g : U256 → Outcome U256)
        → Agrees swaps m n
        → ((c : Cache) (v : U256) → Coherent swaps c → Agrees swaps (f (c, v)) (g v))
        → Agrees swaps (m >>= f) (n >>= g)
    Agrees->>= (ok (c, v)) (ok w) f g (e, h) k =
        subst (λ z. Agrees swaps (f (c, v)) (g z)) e (k c v h)
    Agrees->>= (err e) (err h) f g r k = r
    Agrees->>= panic panic f g r k = r
    Agrees->>= (ok _) (err _) f g r k = absurd r
    Agrees->>= (ok _) panic f g r k = absurd r
    Agrees->>= (err _) (ok _) f g r k = absurd r
    Agrees->>= (err _) panic f g r k = absurd r
    Agrees->>= panic (ok _) f g r k = absurd r
    Agrees->>= panic (err _) f g r k = absurd r

    -- A miss stores what it computes.
    computed-Agrees :
        (c : Cache) (a : U256) (q : Address) (m : Outcome U256)
        → Coherent swaps c
        → step_amount_out swaps a (step_of q) ≡ m
        → Agrees swaps (m >>= λ out. ok (swaps.set c a q out, out)) m
    computed-Agrees c a q (ok v) coherent e = (refl, set-Coherent c a q v coherent e)
    computed-Agrees c a q (err x) coherent e = refl
    computed-Agrees c a q panic coherent e = tt

    cached_step-Agrees :
        (c : Cache) (a : U256) (step : SwapStep)
        → Coherent swaps c
        → step_of step.pool_address ≡ step
        → Agrees swaps (cached_step swaps c a step) (step_amount_out swaps a step)
    unfolding cached_step
    cached_step-Agrees c a step coherent one = elim (Option-cases (get c a step.pool_address)) [
      | inl none_h ↦
          rw (none_h, cached_step)
            (computed-Agrees c a step.pool_address (step_amount_out swaps a step) coherent
              (ap (step_amount_out swaps a) one))
      | inr (v, some_h) ↦
          let e : step_amount_out swaps a step ≡ ok v =
            sym (ap (step_amount_out swaps a) one) ∙ coherent a step.pool_address v some_h in
          rw (some_h, cached_step)
            (subst (λ n. Agrees swaps (ok (c, v)) n) (sym e) (refl, coherent))
    ]

    steps-Agrees :
        (c : Cache) (a : U256) (steps : List SwapStep)
        → Coherent swaps c
        → OneStep steps
        → Agrees swaps (calculate_steps swaps c a steps) (path_output swaps a steps)
    unfolding calculate_steps
    steps-Agrees c a [] coherent one = (refl, coherent)
    steps-Agrees c a (step ∷ steps) coherent one =
        Agrees->>= (cached_step swaps c a step) (step_amount_out swaps a step) _ _
          (cached_step-Agrees c a step coherent one.0)
          (λ d v h. elim (Bool-cases (v == 0)) [
            | inl e ↦ rw e (refl, h)
            | inr e ↦ rw e (steps-Agrees d v steps h one.1)
          ])

-- Where the cache is coherent and no two steps share a pool, the path's output is that of the swaps
-- without a cache, errors included, and the cache stays coherent.
pub calculate_output-Coherent :
    (step_of : Address → SwapStep) (swaps : Swaps) (c : Cache) (path : SwapPath)
    → Coherent step_of swaps c
    → OneStep step_of path.steps
    → Agrees step_of swaps (calculate_output swaps c path) (path_output swaps amount path.steps)
unfolding calculate_output
calculate_output-Coherent step_of swaps c path = steps-Agrees step_of swaps c amount path.steps

get-invalidate_cache :
    (c : Cache) (pools : List Address) (a : U256) (q : Address)
    → get (invalidate_cache c pools) a q ≡ (if contains q pools then none else get c a q)
unfolding invalidate_cache
get-invalidate_cache c [] a q = refl
get-invalidate_cache c (r ∷ pools) a q =
    let e = get-invalidate_cache (invalidate c r) pools a q in
    let g = get-invalidate c a q r in ground (arith, e, g)

-- Where the swaps of a block differ only at the updated pools, invalidating those makes the cache
-- coherent with the new swaps.
pub invalidate_cache-Coherent :
    (step_of : Address → SwapStep) (old new : Swaps) (c : Cache) (updated : List Address)
    → Coherent step_of old c
    → ((a : U256) (q : Address)
        → contains q updated ≡ false
        → step_amount_out new a (step_of q) ≡ step_amount_out old a (step_of q))
    → Coherent step_of new (invalidate_cache c updated)
invalidate_cache-Coherent step_of old new c updated coherent same a q v h =
    let e = get-invalidate_cache c updated a q in
    let s = same a q in let k = coherent a q v in ground (arith, e, s, k)
