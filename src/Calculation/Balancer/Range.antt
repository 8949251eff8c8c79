-- ===== src/Calculation/Balancer/Range.antt =====
-- The results of `exp` on its whole domain.
use native.Mathlib.Nat.{mul-le-mul_left, div-mul-le_self}
use base_buster.Prelude.{ℕ, suc, ◌*◌, ◌/◌, ◌≤◌, ◌≡◌, ap, ◌∙◌, true, false, if◌then◌else◌, arith, ok}
use base_buster.Prelude.Int.{ℤ, pos, negsuc, ltb_ℤ, ◌-ℤ◌}
use base_buster.Prelude.I256.{i256_mul, i256_neg, i256_div, quot}
use base_buster.Prelude.Signed.{to_bits, of_bits}
use base_buster.Calculation.Balancer.LogExp.{exp, exp_body, valid_exponent, one_18}
use base_buster.Calculation.Balancer.Series.{i256_mul-pos}
use base_buster.Calculation.Balancer.Body.{body_range}

-- The exponents in the domain.
valid_pos : (x : ℕ) → valid_exponent (pos x) ≡ true → x ≤ 130_000_000_000_000_000_000
unfolding ◌-ℤ◌
valid_pos x h = ground arith

valid_neg : (x : ℕ) → valid_exponent (negsuc x) ≡ true → suc x ≤ 41_000_000_000_000_000_000
unfolding ◌-ℤ◌
valid_neg x h = ground arith

i256_neg-negsuc : (x : ℕ) → suc x ≤ 41_000_000_000_000_000_000 → i256_neg (negsuc x) ≡ pos (suc x)
unfolding ◌-ℤ◌ of_bits to_bits
i256_neg-negsuc x h = ground arith

valid_suc : (x : ℕ) → suc x ≤ 41_000_000_000_000_000_000 → valid_exponent (pos (suc x)) ≡ true
unfolding ◌-ℤ◌
valid_suc x h = ground arith

one_squared : i256_mul one_18 one_18 ≡ pos 1_000_000_000_000_000_000_000_000_000_000_000_000
one_squared = i256_mul-pos 1_000_000_000_000_000_000 1_000_000_000_000_000_000 (omega arith)

-- The inverse of a number of at least one.
inverse_le :
    (r : ℕ)
    → 1_000_000_000_000_000_000 ≤ r
    → (i256_div (pos 1_000_000_000_000_000_000_000_000_000_000_000_000) (pos r)
        ≡ ok (pos (1_000_000_000_000_000_000_000_000_000_000_000_000 / r)))
      × (1_000_000_000_000_000_000_000_000_000_000_000_000 / r ≤ 1_000_000_000_000_000_000)
unfolding i256_div quot
inverse_le r h =
    let q = 1_000_000_000_000_000_000_000_000_000_000_000_000 / r in
    let back : q * r ≤ 1_000_000_000_000_000_000_000_000_000_000_000_000 =
      div-mul-le_self 1_000_000_000_000_000_000_000_000_000_000_000_000 r in
    let more : q * 1_000_000_000_000_000_000 ≤ q * r = mul-le-mul_left q h in
    (ground arith, omega arith)

-- For every exponent that it accepts `exp` returns a number and does not panic: at least 1e18 where
-- the exponent is not negative, and at most 1e18 where it is.
pub exp-range :
    (x : ℤ)
    → valid_exponent x ≡ true
    → (r : ℕ) × (exp x ≡ ok (pos r))
      × (if ltb_ℤ x (pos 0) then r ≤ 1_000_000_000_000_000_000 else 1_000_000_000_000_000_000 ≤ r)
unfolding exp
exp-range (pos x) v =
    let (r, e, low) = body_range x (valid_pos x v) in
    let positive : ltb_ℤ (pos x) (pos 0) ≡ false = ground arith in
    (r, rw (v, positive, exp) (ap ok e), rw positive low)
exp-range (negsuc x) v =
    let h = valid_neg x v in
    let (r, e, low) = body_range (suc x) (omega arith) in
    let negative : ltb_ℤ (negsuc x) (pos 0) ≡ true = ground arith in
    let (divided, high) = inverse_le r low in
    let negated = i256_neg-negsuc x h in
    let value : exp_body (i256_neg (negsuc x)) ≡ pos r = ap exp_body negated ∙ e in
    let accepted : valid_exponent (i256_neg (negsuc x)) ≡ true =
      ap valid_exponent negated ∙ valid_suc x h in
    (
      1_000_000_000_000_000_000_000_000_000_000_000_000 / r,
      rw (v, negative, accepted, one_squared, value, exp) divided,
      rw negative high,
    )
