-- ===== src/Calculation/Balancer/Factors.antt =====
-- The product of the factors of `exp`, where nothing wraps around.
use native.Mathlib.Nat.{mul-le-mul_left, mul-le-mul_right}
use base_buster.Prelude.{
  ℕ, ◌*◌, ◌/◌, ◌^◌, ◌≤◌, ◌<◌, ◌≡◌, refl, inl, inr, false, List, [], ◌∷◌, arith, Bool-cases,
}
use base_buster.Prelude.Int.{ℤ, pos, negsuc}
use base_buster.Prelude.I256.{i256_sub, quot}
use base_buster.Calculation.Balancer.LogExp.{reduce, geb_ℤ}
use base_buster.Calculation.Balancer.Series.{i256_mul-pos}

-- The largest product that the terms can make, and that making it does not leave 255 bits.
abbrev pub grow : List (ℤ × ℤ) → ℕ → ℕ
grow [] largest = largest
grow ((x_n, pos a_n) ∷ terms) largest = grow terms (largest * a_n / 100_000_000_000_000_000_000)
grow ((x_n, negsuc k) ∷ terms) largest = largest

abbrev pub Fits : List (ℤ × ℤ) → ℕ → Type 0
Fits [] largest = Unit
Fits ((x_n, pos a_n) ∷ terms) largest =
    (100_000_000_000_000_000_000 ≤ a_n)
    × (largest * a_n < 2 ^ 255)
    × Fits terms (largest * a_n / 100_000_000_000_000_000_000)
Fits ((x_n, negsuc k) ∷ terms) largest = ⊥

-- One factor: between the product and the largest product after it.
factor_range :
    (p largest a : ℕ)
    → p ≤ largest
    → 100_000_000_000_000_000_000 ≤ a
    → (p ≤ p * a / 100_000_000_000_000_000_000)
      × (p * a / 100_000_000_000_000_000_000 ≤ largest * a / 100_000_000_000_000_000_000)
      × (p * a ≤ largest * a)
factor_range p largest a l h =
    let more : p * 100_000_000_000_000_000_000 ≤ p * a = mul-le-mul_left p h in
    let less : p * a ≤ largest * a = mul-le-mul_right a l in (omega arith, omega arith, less)

pub reduce-range :
    (terms : List (ℤ × ℤ)) (x : ℤ) (p largest : ℕ)
    → Fits terms largest
    → p ≤ largest
    → (q : ℕ) × ((reduce terms (x, pos p)).1 ≡ pos q) × (p ≤ q) × (q ≤ grow terms largest)
unfolding reduce quot
reduce-range [] x p largest f l = (p, refl, omega arith, l)
reduce-range ((x_n, negsuc k) ∷ terms) x p largest f l = absurd f
reduce-range ((x_n, pos a_n) ∷ terms) x p largest (big, fits, f) l =
    let (up, down, times) = factor_range p largest a_n l big in
    elim (Bool-cases (geb_ℤ x x_n)) [
      | inl e ↦
          let p' = p * a_n / 100_000_000_000_000_000_000 in
          let (q, is_q, low, high) =
            reduce-range terms (i256_sub x x_n) p' (largest * a_n / 100_000_000_000_000_000_000) f
              down in
          (q, rw (e, i256_mul-pos p a_n (omega arith), reduce) is_q, omega arith, high)
      | inr e ↦
          let (q, is_q, low, high) =
            reduce-range terms x p (largest * a_n / 100_000_000_000_000_000_000) f (omega arith) in
          (q, rw (e, reduce) is_q, low, high)
    ]

-- A term that is larger than the exponent is passed over.
pub reduce_skip :
    (x_n : ℕ) (a_n : ℤ) (terms : List (ℤ × ℤ)) (n : ℕ) (product : ℤ)
    → n < x_n
    → reduce ((pos x_n, a_n) ∷ terms) (pos n, product) ≡ reduce terms (pos n, product)
unfolding reduce
reduce_skip x_n a_n terms n product h =
    let below : geb_ℤ (pos n) (pos x_n) ≡ false = ground arith in rw (below, reduce) refl
