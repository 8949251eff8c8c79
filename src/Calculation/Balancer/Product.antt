-- ===== src/Calculation/Balancer/Product.antt =====
-- Weighted pools with equal weights keep the product of their balances.
use native.Mathlib.Nat.{
  mul-zero, add-mul, one-mul, div-le_self, lt-div-mul-add, div-mul-le_self, mul-div_cancel_left,
  mul-add, mul-le-mul_left, mul-le-mul_right,
}
use base_buster.Prelude.{
  ℕ, ◌+◌, ◌-◌, ◌*◌, ◌/◌, ◌≤◌, ◌<◌, ◌≡◌, refl, sym, ap, ◌∙◌, ◌⊎◌, inl, inr, ok, ◌==◌, ltb, arith,
  Bool-cases, eq_false, ltb→lt,
}
use base_buster.Prelude.Words.{u256_mod, wrapping_add-exact, wrapping_sub-exact, wrapping_mul-exact}
use base_buster.Pool.{U256}
use base_buster.Calculation.Balancer.{
  one, div_up, div_down, mul_down, pow_up, complement, weighted_out,
}

product_le :
    (bi bo den base c out : ℕ)
    → bi * one ≤ base * den
    → c + base ≡ one
    → out * one ≤ bo * c
    → bi * bo ≤ den * (bo - out)
product_le bi bo den base c out h e l =
    let split : bo * c + bo * base ≡ bo * one = sym (mul-add bo c base) ∙ ap (λ z. bo * z) e in
    let kept : bo * base ≤ (bo - out) * one = omega arith in
    let left : bo * (bi * one) ≤ bo * (base * den) = mul-le-mul_left bo h in
    let right : (bo * base) * den ≤ ((bo - out) * one) * den = mul-le-mul_right den kept in
    let m1 : bo * (bi * one) ≡ (bi * bo) * one = grind arith in
    let m2 : bo * (base * den) ≡ (bo * base) * den = grind arith in
    let m3 : ((bo - out) * one) * den ≡ (den * (bo - out)) * one = grind arith in omega arith

-- Rounding up reaches at least the exact quotient.
div_up-ge :
    (a b : U256)
    → a * one < u256_mod
    → 0 < b
    → (base : U256) × (div_up a b ≡ ok base) × (a * one ≤ base * b)
unfolding div_up
div_up-ge a b h p = elim (Bool-cases (a == 0)) [
  | inl z ↦ (0, rw z refl, ground arith)
  | inr z ↦
      let nonzero = eq_false b 0 (λ e. absurd (omega arith)) in
      let some_a : 1 ≤ a = ground arith in
      let low = wrapping_sub-exact (a * one) 1 h (omega arith) in
      let quotient = (a * one - 1) / b in
      let smaller : quotient ≤ a * one - 1 = div-le_self (a * one - 1) b in
      let above : a * one - 1 < quotient * b + b = lt-div-mul-add {a = a * one - 1} {b = b} p in
      let times : (quotient + 1) * b ≡ quotient * b + b =
        add-mul quotient 1 b ∙ ap (λ x. quotient * b + x) (one-mul b) in
      (
        quotient + 1,
        simp (
          z,
          nonzero,
          wrapping_mul-exact a one h,
          low,
          wrapping_add-exact quotient 1 (omega arith),
        ),
        omega arith,
      )
]

div_down_self : (w : U256) → w * one < u256_mod → 0 < w → div_down w w ≡ ok one
unfolding div_down
div_down_self w h p =
    let nonzero = eq_false w 0 (λ e. absurd (omega arith)) in
    simp (nonzero, wrapping_mul-exact w one h, mul-div_cancel_left one p)

pow_up-one : (x : U256) → pow_up x one ≡ ok x
unfolding pow_up
pow_up-one x = refl

-- The complement, where it is positive and where it is 0.
complement_cases :
    (x : U256)
    → ((complement x + x ≡ one) ⊎ ((complement x ≡ 0) × (one ≤ x))) × (complement x ≤ one)
unfolding complement
complement_cases x = elim (Bool-cases (ltb x one)) [
  | inl e ↦
      let below : x < one = ltb→lt x one e in
      let same : complement x ≡ one - x =
        rw e (wrapping_sub-exact one x (omega arith) (omega arith)) in
      (inl (omega arith), omega arith)
  | inr e ↦ (inr (rw e refl, ground arith), rw e (omega arith))
]

-- With equal positive weights, and where the balances and the weight times 1e18 and the sum of the
-- input with its balance fit 256 bits and the sum is positive, the formula has an output, which is at
-- most the balance of its token and leaves a product of the balances that is no smaller than before.
pub weighted_out-product :
    (balance_in balance_out weight amount_in : U256)
    → 0 < weight
    → weight * one < u256_mod
    → balance_in * one < u256_mod
    → balance_out * one < u256_mod
    → 0 < balance_in + amount_in
    → balance_in + amount_in < u256_mod
    → (out : U256) × (weighted_out balance_in balance_out weight weight amount_in ≡ ok out)
      × (out ≤ balance_out)
      × (balance_in * balance_out ≤ (balance_in + amount_in) * (balance_out - out))
unfolding weighted_out mul_down
weighted_out-product bi bo w traded wp ws bis bos dp ds =
    let den = wrapping_add-exact bi traded ds in
    let (base, b, ge) = div_up-ge bi (bi + traded) bis dp in
    let (cases, le) = complement_cases base in
    let c = complement base in
    let capped : bo * c ≤ bo * one = mul-le-mul_left bo le in
    let mul = wrapping_mul-exact bo c (omega arith) in
    let out = bo * c / one in
    let rounded : out * one ≤ bo * c = div-mul-le_self (bo * c) one in
    (
      out,
      simp (den, b, div_down_self w ws wp, pow_up-one base, mul),
      omega arith,
      elim cases [
        | inl e ↦ product_le bi bo (bi + traded) base c out ge e rounded
        | inr (z, big) ↦
            let nothing : bo * c ≡ 0 = ap (λ x. bo * x) z ∙ mul-zero bo in
            let all : bo - out ≡ bo = omega arith in rw all (mul-le-mul_right bo (omega arith))
      ],
    )
