-- ===== src/Calculation/Balancer/Series.antt =====
-- The Taylor series of `exp`, where nothing wraps around.
use native.Mathlib.Nat.{mul-le-mul, mul-le-mul_right, mul-div-le}
use base_buster.Prelude.{ℕ, ◌+◌, ◌*◌, ◌/◌, ◌^◌, ◌≤◌, ◌<◌, ◌≡◌, refl, List, [], ◌∷◌, length, arith}
use base_buster.Prelude.Int.{ℤ, pos, negsuc, ◌+ℤ◌, ◌*ℤ◌}
use base_buster.Prelude.I256.{i256_add, i256_mul, quot}
use base_buster.Prelude.Signed.{to_bits, of_bits}
use base_buster.Calculation.Balancer.LogExp.{exp_series}

wrap_small : (n : ℕ) → n < 2 ^ 255 → of_bits (2 ^ 255) (to_bits (2 * 2 ^ 255) (pos n)) ≡ pos n
unfolding of_bits to_bits
wrap_small n h = ground arith

times_pos : (a b : ℕ) → pos a *ℤ pos b ≡ pos (a * b)
unfolding ◌*ℤ◌
times_pos a b = ground arith

pub i256_mul-pos : (a b : ℕ) → a * b < 2 ^ 255 → i256_mul (pos a) (pos b) ≡ pos (a * b)
unfolding i256_mul
i256_mul-pos a b h = rw (times_pos a b) (wrap_small (a * b) h)

pub i256_add-pos : (a b : ℕ) → a + b < 2 ^ 255 → i256_add (pos a) (pos b) ≡ pos (a + b)
unfolding i256_add ◌+ℤ◌ of_bits to_bits
i256_add-pos a b h = ground arith

-- The next term of the series.
term_small :
    (term x n : ℕ)
    → term ≤ 25_000_000_000_000_000_000
    → x ≤ 25_000_000_000_000_000_000
    → 2 ≤ n
    → (term * x < 2 ^ 255)
      × (term * x / 100_000_000_000_000_000_000 / n ≤ 3_125_000_000_000_000_000)
term_small term x n t h d =
    let product : term * x ≤ 25_000_000_000_000_000_000 * 25_000_000_000_000_000_000 =
      mul-le-mul t h in
    let q = term * x / 100_000_000_000_000_000_000 in
    let divided : n * (q / n) ≤ q = mul-div-le q n in
    let twice : 2 * (q / n) ≤ n * (q / n) = mul-le-mul_right (q / n) d in (omega arith, omega arith)

abbrev pub AtLeastTwo : List ℤ → Type 0
AtLeastTwo [] = Unit
AtLeastTwo (pos n ∷ ns) = (2 ≤ n) × AtLeastTwo ns
AtLeastTwo (negsuc n ∷ ns) = ⊥

pub exp_series-range :
    (x term sum : ℕ) (ns : List ℤ)
    → AtLeastTwo ns
    → x ≤ 25_000_000_000_000_000_000
    → term ≤ 25_000_000_000_000_000_000
    → sum + 3_125_000_000_000_000_000 * length ns < 2 ^ 255
    → (r : ℕ) × (exp_series (pos x) ns (pos term) (pos sum) ≡ pos r)
      × (sum ≤ r)
      × (r ≤ sum + 3_125_000_000_000_000_000 * length ns)
unfolding exp_series quot
exp_series-range x term sum [] d h t b = (sum, refl, omega arith, omega arith)
exp_series-range x term sum (negsuc n ∷ ns) d h t b = absurd d
exp_series-range x term sum (pos n ∷ ns) (d, ds) h t b =
    let (small, next) = term_small term x n t h d in
    let t' = term * x / 100_000_000_000_000_000_000 / n in
    let (r, e, low, high) = exp_series-range x t' (sum + t') ns ds h (omega arith) (omega arith) in
    (
      r,
      rw (i256_mul-pos term x small, i256_add-pos sum t' (omega arith)) e,
      omega arith,
      omega arith,
    )
