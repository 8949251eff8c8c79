-- ===== src/Calculation/Balancer/Decompose.antt =====
-- The decomposition of an exponent into the terms of `exp`.
use base_buster.Prelude.{
  ℕ, ◌+◌, ◌-◌, ◌*◌, ◌^◌, ◌≤◌, ◌<◌, ◌≡◌, refl, ◌⊎◌, inl, inr, true, false, List, [], ◌∷◌, ltb, arith,
  Bool-cases, ltb→lt,
}
use base_buster.Prelude.Int.{ℤ, pos, negsuc, ◌-ℤ◌, ◌*ℤ◌}
use base_buster.Prelude.I256.{i256_sub, i256_mul, quot}
use base_buster.Prelude.Signed.{to_bits, of_bits}
use base_buster.Calculation.Balancer.LogExp.{reduce, geb_ℤ, one_20}

-- Subtraction of a part, where nothing wraps.
pub i256_sub-pos : (m n : ℕ) → m < 2 ^ 255 → n ≤ m → i256_sub (pos m) (pos n) ≡ pos (m - n)
unfolding of_bits to_bits ◌-ℤ◌
i256_sub-pos m n h l = ground arith

-- A chosen part of each term, with what is left of the exponent: each term once or not at all.
abbrev pub Decomposed : List (ℤ × ℤ) → ℕ → ℕ → Type 0
Decomposed [] n rest = n ≡ rest
Decomposed ((pos x_n, a_n) ∷ terms) n rest =
    Decomposed terms n rest ⊎ ((m : ℕ) × (n ≡ m + x_n) × Decomposed terms m rest)
Decomposed ((negsuc k, a_n) ∷ terms) n rest = ⊥

-- Each term is at most half of the bound before it, and at least half: the bound is kept.
abbrev pub Halving : List (ℤ × ℤ) → ℕ → ℕ → Type 0
Halving [] bound last = bound ≡ last
Halving ((pos x_n, a_n) ∷ terms) bound last = (bound ≤ 2 * x_n) × Halving terms x_n last
Halving ((negsuc k, a_n) ∷ terms) bound last = ⊥

pub reduce-Decomposed :
    (terms : List (ℤ × ℤ)) (n bound last : ℕ) (product : ℤ)
    → Halving terms bound last
    → n < bound
    → n < 2 ^ 255
    → (rest : ℕ) × ((reduce terms (pos n, product)).0 ≡ pos rest)
      × (rest < last)
      × Decomposed terms n rest
unfolding reduce
reduce-Decomposed [] n bound last product h l b = (n, refl, omega arith, refl)
reduce-Decomposed ((negsuc k, a_n) ∷ terms) n bound last product h l b = absurd h
reduce-Decomposed ((pos x_n, a_n) ∷ terms) n bound last product (half, h) l b =
    elim (Bool-cases (ltb n x_n)) [
      | inl e ↦
          let below : geb_ℤ (pos n) (pos x_n) ≡ false = ground arith in
          let (rest, is_rest, small, parts) =
            reduce-Decomposed terms n x_n last product h (ltb→lt n x_n e) b in
          (rest, rw (below, reduce) is_rest, small, inl parts)
      | inr e ↦
          let reached : x_n ≤ n = ground arith in
          let above : geb_ℤ (pos n) (pos x_n) ≡ true = ground arith in
          let (rest, is_rest, small, parts) =
            reduce-Decomposed terms (n - x_n) x_n last (quot (i256_mul product a_n) one_20) h
              (omega arith) (omega arith) in
          (
            rest,
            rw (above, i256_sub-pos n x_n b reached, reduce) is_rest,
            small,
            inr (n - x_n, omega arith, parts),
          )
    ]

pub i256_mul-hundred :
    (y : ℕ) → y < 64_000_000_000_000_000_000 → i256_mul (pos y) (pos 100) ≡ pos (100 * y)
unfolding i256_mul of_bits to_bits ◌*ℤ◌
i256_mul-hundred y h = ground arith
