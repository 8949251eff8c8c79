-- ===== src/Calculation/Balancer/Factored.antt =====
-- The value of `exp` from the factors that are taken off its exponent.
use native.Mathlib.Nat.{mul-le-mul, mul-le-mul_right}
use base_buster.Prelude.{ℕ, ◌+◌, ◌*◌, ◌/◌, ◌^◌, ◌≤◌, ◌<◌, ◌≡◌, refl, arith}
use base_buster.Prelude.Int.{pos}
use base_buster.Prelude.I256.{i256_add, i256_mul, quot}
use base_buster.Calculation.Balancer.LogExp.{
  exp_terms, exp_divisors, exp_body, first_term, reduce, one_20,
}
use base_buster.Calculation.Balancer.Decompose.{i256_mul-hundred}
use base_buster.Calculation.Balancer.Series.{
  i256_mul-pos, i256_add-pos, AtLeastTwo, exp_series-range,
}

-- The last line of `exp`.
last_line :
    (q s first largest : ℕ)
    → 100_000_000_000_000_000_000 ≤ q
    → q ≤ largest
    → 100_000_000_000_000_000_000 ≤ s
    → s ≤ 159_375_000_000_000_000_000
    → 1 ≤ first
    → largest * 159_375_000_000_000_000_000 < 2 ^ 255
    → largest * 159_375_000_000_000_000_000 / 100_000_000_000_000_000_000 * first < 2 ^ 255
    → (r : ℕ) × (quot (i256_mul (quot (i256_mul (pos q) (pos s)) one_20) (pos first)) (pos 100)
        ≡ pos r)
      × (1_000_000_000_000_000_000 ≤ r)
unfolding quot
last_line q s first largest q1 q2 s1 s2 f1 b1 b2 =
    let top : q * s ≤ largest * 159_375_000_000_000_000_000 = mul-le-mul q2 s2 in
    let bottom : 100_000_000_000_000_000_000 * 100_000_000_000_000_000_000 ≤ q * s =
      mul-le-mul q1 s1 in
    let m = q * s / 100_000_000_000_000_000_000 in
    let high : m * first
        ≤ largest * 159_375_000_000_000_000_000 / 100_000_000_000_000_000_000 * first =
      mul-le-mul_right first (omega arith) in
    let enough : 100_000_000_000_000_000_000 ≤ m = omega arith in
    let low : 100_000_000_000_000_000_000 * 1 ≤ m * first = mul-le-mul enough f1 in
    (
      m * first / 100,
      rw (i256_mul-pos q s (omega arith), i256_mul-pos m first (omega arith)) refl,
      omega arith,
    )

-- `exp` from its parts: the rest after the first term, the first factor, the rest and the product.
pub exp_body-parts :
    (x y first rest q largest : ℕ)
    → (first_term (pos x)).0 ≡ pos y
    → (first_term (pos x)).1 ≡ pos first
    → y < 64_000_000_000_000_000_000
    → 1 ≤ first
    → (reduce exp_terms (pos (100 * y), one_20)).0 ≡ pos rest
    → (reduce exp_terms (pos (100 * y), one_20)).1 ≡ pos q
    → rest < 25_000_000_000_000_000_000
    → 100_000_000_000_000_000_000 ≤ q
    → q ≤ largest
    → largest * 159_375_000_000_000_000_000 < 2 ^ 255
    → largest * 159_375_000_000_000_000_000 / 100_000_000_000_000_000_000 * first < 2 ^ 255
    → (r : ℕ) × (exp_body (pos x) ≡ pos r) × (1_000_000_000_000_000_000 ≤ r)
unfolding exp_body
exp_body-parts x y first rest q largest e0 e1 small f1 e2 e3 short q1 q2 b1 b2 =
    let two : AtLeastTwo exp_divisors = (
      omega arith,
      (
        omega arith,
        (
          omega arith,
          (
            omega arith,
            (
              omega arith,
              (
                omega arith,
                (omega arith, (omega arith, (omega arith, (omega arith, (omega arith, tt))))),
              ),
            ),
          ),
        ),
      ),
    ) in
    let first_sum : i256_add one_20 (pos rest) ≡ pos (100_000_000_000_000_000_000 + rest) =
      i256_add-pos 100_000_000_000_000_000_000 rest (omega arith) in
    let (s, series, low, high) =
      exp_series-range rest rest (100_000_000_000_000_000_000 + rest) exp_divisors two (omega arith)
        (omega arith) (omega arith) in
    let (r, is_r, one_or_more) =
      last_line q s first largest q1 q2 (omega arith) (omega arith) f1 b1 b2 in
    (r, rw (e0, e1, i256_mul-hundred y small, e2, e3, first_sum, series) is_r, one_or_more)
