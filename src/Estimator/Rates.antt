-- ===== src/Estimator/Rates.antt =====
-- The estimate of a path against the exact product of its rates.
use native.Mathlib.Nat.{pow-suc, mul-le-mul_right, div-mul-le_self}
use base_buster.Prelude.{
  ℕ, suc, ◌*◌, ◌^◌, ◌≤◌, ◌≡◌, inl, inr, List, [], ◌∷◌, ltb, arith, Bool-cases, Option-cases, length,
}
use base_buster.Prelude.Words.{checked_mul, checked_div, u256_mod}
use base_buster.Pool.{U256}
use base_buster.Swap.{SwapPath, SwapStep, amount}
use base_buster.Estimator.{
  Estimator, rate_scale_value, or_zero, apply_rate, rate_of, estimate_steps, estimate_output_amount,
}

-- A rate rounds down, and is zero where the product overflows.
apply_rate-le : (a r : U256) → apply_rate a r * rate_scale_value ≤ a * r
unfolding apply_rate checked_mul checked_div
apply_rate-le a r =
    let h = div-mul-le_self (a * r) rate_scale_value in
    elim (Bool-cases (ltb (a * r) u256_mod)) [
      | inl e ↦ rw (e, apply_rate, checked_mul) h
      | inr e ↦ rw (e, apply_rate, checked_mul) (omega arith)
    ]

-- The product of a path's rates; a rate that is missing counts as zero.
abbrev rates_product : Estimator → List SwapStep → ℕ
rates_product e [] = 1
rates_product e (step ∷ steps) = or_zero (rate_of e step) * rates_product e steps

estimate_steps-le :
    (e : Estimator) (a : U256) (steps : List SwapStep)
    → estimate_steps e a steps * rate_scale_value ^ length steps ≤ a * rates_product e steps
unfolding estimate_steps
estimate_steps-le e a [] = omega arith
estimate_steps-le e a (step ∷ steps) = elim (Option-cases (rate_of e step)) [
  | inl h ↦ rw (h, estimate_steps) (omega arith)
  | inr (r, h) ↦
      let ih = estimate_steps-le e (apply_rate a r) steps in
      let p = rates_product e steps in
      let ap_le : apply_rate a r * rate_scale_value * p ≤ a * r * p =
        mul-le-mul_right p (apply_rate-le a r) in
      let s : estimate_steps e (apply_rate a r) steps
            * rate_scale_value ^ length steps
            * rate_scale_value
          ≤ apply_rate a r * p * rate_scale_value =
        mul-le-mul_right rate_scale_value ih in
      let w : rate_scale_value ^ suc (length steps)
          ≡ rate_scale_value ^ length steps * rate_scale_value =
        pow-suc rate_scale_value (length steps) in
      rw (h, estimate_steps) (simp w (omega arith))
]

-- The estimate never exceeds the amount times the exact product of the path's rates, a missing rate
-- counting as zero.
estimate_output_amount-le :
    (e : Estimator) (path : SwapPath)
    → estimate_output_amount e path * rate_scale_value ^ length path.steps
      ≤ amount * rates_product e path.steps
unfolding estimate_output_amount
estimate_output_amount-le e path = estimate_steps-le e amount path.steps
