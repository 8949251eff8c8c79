-- ===== src/Calculation/UniswapV3/Position.antt =====
-- Where the bit of a tick lies, and which words of the bitmap a step reads.
use mathlib.Core.Path.{subst}
use native.Mathlib.Nat.{div-le_self, le-div_iff_mul-le, div-lt_iff_lt-mul}
use base_buster.Prelude.{
  ℕ, suc, ◌+◌, ◌*◌, ◌/◌, ◌^◌, ◌≤◌, ◌<◌, ◌≡◌, ◌⊎◌, inl, inr, sym, ◌∙◌, ok, ok-injective, arith, [],
  ◌∷◌, ◌-◌, refl, ap, In,
}
use base_buster.Prelude.Int.{ℤ, pos_part, pos, negsuc, ◌+ℤ◌, ◌-ℤ◌, ◌*ℤ◌, +ℤ_cancel}
use base_buster.Prelude.Signed.{to_bits, FitsSigned, of_bits-to_bits}
use base_buster.Calculation.UniswapV3.{
  as_i16, shr_8, rem_256, position, div_trunc, window, range_inclusive, range_from,
}

as_i16-exact : (z : ℤ) → FitsSigned (2 ^ 15) z → as_i16 z ≡ z
as_i16-exact z h = of_bits-to_bits (2 ^ 15) z (omega arith) h

shr_8-FitsSigned : (t : ℤ) → FitsSigned (2 ^ 23) t → FitsSigned (2 ^ 15) (shr_8 t)
unfolding shr_8
shr_8-FitsSigned (pos n) h = omega arith
shr_8-FitsSigned (negsuc n) h = omega arith

-- The bit number of a tick: its distance from the start of the word.
bit_of :
    (t : ℤ)
    → (shr_8 t *ℤ pos 256 +ℤ pos (to_bits 256 (rem_256 t)) ≡ t) × (to_bits 256 (rem_256 t) < 256)
unfolding shr_8 rem_256 to_bits ◌*ℤ◌ ◌+ℤ◌ ◌-ℤ◌
bit_of (pos n) = (ground arith, ground arith)
bit_of (negsuc n) = (ground arith, ground arith)

-- For a 24-bit tick the position gives the tick back, as 256 times the word plus the bit, and the bit
-- number is less than 256.
pub position-tick :
    (t : ℤ)
    → FitsSigned (2 ^ 23) t
    → ((position t).0 *ℤ pos 256 +ℤ pos (position t).1 ≡ t) × ((position t).1 < 256)
unfolding position
position-tick t h =
    let (e, l) = bit_of t in
    (
      subst (λ w. w *ℤ pos 256 +ℤ pos (to_bits 256 (rem_256 t)) ≡ t)
          (sym (as_i16-exact (shr_8 t) (shr_8-FitsSigned t h))) e,
      l,
    )

-- Division of a successor moves the quotient by at most 1.
suc-div : (n d : ℕ) → 0 < d → (suc n / d ≡ n / d) ⊎ (suc n / d ≡ suc (n / d))
suc-div n d h =
    let low : n / d * d ≤ n = (le-div_iff_mul-le {k = d} {x = n / d} {y = n} h).0 (omega arith) in
    let high : n < (n / d + 1) * d =
      (div-lt_iff_lt-mul {k = d} {x = n} {y = n / d + 1} h).0 (omega arith) in
    let more : suc n < (n / d + 2) * d = grind arith in
    let above : n / d ≤ suc n / d =
      (le-div_iff_mul-le {k = d} {x = n / d} {y = suc n} h).1 (omega arith) in
    let below : suc n / d < n / d + 2 =
      (div-lt_iff_lt-mul {k = d} {x = suc n} {y = n / d + 2} h).1 more in
    omega arith

-- The quotient rounded down, by which the library compresses a tick.
abbrev pub floor_div : ℤ → ℕ → ℤ
floor_div (pos n) d = pos (n / d)
floor_div (negsuc n) d = negsuc (n / d)

div_trunc-floor_div :
    (t : ℤ) (d : ℕ) (q : ℤ)
    → div_trunc t (suc d) ≡ ok q
    → (q ≡ floor_div t (suc d)) ⊎ (q ≡ floor_div t (suc d) +ℤ pos 1)
unfolding div_trunc ◌-ℤ◌ ◌+ℤ◌
div_trunc-floor_div (pos n) d q h = inl (sym (ok-injective h))
div_trunc-floor_div (negsuc n) d q h = elim (suc-div n (suc d) (omega arith)) [
  | inl e ↦ inr (sym (ok-injective h) ∙ ground arith)
  | inr e ↦ inl (sym (ok-injective h) ∙ ground arith)
]

shr_8-suc : (z : ℤ) → (shr_8 (z +ℤ pos 1) ≡ shr_8 z) ⊎ (shr_8 (z +ℤ pos 1) ≡ shr_8 z +ℤ pos 1)
unfolding shr_8 ◌+ℤ◌
shr_8-suc (pos n) = ground arith
shr_8-suc (negsuc n) = ground arith

-- Away from the ends of `i16` the window is a word and its neighbours.
length_three : (w : ℤ) → pos_part (w +ℤ pos 1 +ℤ pos 1 -ℤ (w -ℤ pos 1)) ≡ 3
unfolding ◌+ℤ◌ ◌-ℤ◌
length_three w = ground arith

up_down : (w : ℤ) → w -ℤ pos 1 +ℤ pos 1 ≡ w
unfolding ◌+ℤ◌ ◌-ℤ◌
up_down w = ground arith

near-FitsSigned :
    (w : ℤ)
    → FitsSigned (2 ^ 15 - 1) w
    → FitsSigned (2 ^ 15) (w -ℤ pos 1) × FitsSigned (2 ^ 15) (w +ℤ pos 1) × FitsSigned (2 ^ 15) w
unfolding ◌+ℤ◌ ◌-ℤ◌
near-FitsSigned w h = ground arith

window-three : (w : ℤ) → FitsSigned (2 ^ 15 - 1) w → window w ≡ (w -ℤ pos 1) ∷ w ∷ (w +ℤ pos 1) ∷ []
unfolding window range_inclusive range_from
window-three w h =
    let (a, b, _) = near-FitsSigned w h in
    rw (as_i16-exact (w -ℤ pos 1) a, as_i16-exact (w +ℤ pos 1) b, length_three w, up_down w) refl

-- The word of a quotient and the next one lie in the window of a quotient that differs by at most 1.
window-near :
    (f q : ℤ)
    → (q ≡ f) ⊎ (q ≡ f +ℤ pos 1)
    → FitsSigned (2 ^ 15 - 1) (shr_8 q)
    → In (shr_8 f) (window (shr_8 q)) × In (shr_8 (f +ℤ pos 1)) (window (shr_8 q))
window-near f q near h =
    let as_three = window-three (shr_8 q) h in
    let (low, high) : In (shr_8 f) ((shr_8 q -ℤ pos 1) ∷ shr_8 q ∷ (shr_8 q +ℤ pos 1) ∷ [])
        × In (shr_8 (f +ℤ pos 1)) ((shr_8 q -ℤ pos 1) ∷ shr_8 q ∷ (shr_8 q +ℤ pos 1) ∷ []) =
      elim near [
        | inl e ↦ (
          inr (inl (ap shr_8 (sym e))),
          elim (shr_8-suc f) [
            | inl same ↦ inr (inl (same ∙ ap shr_8 (sym e)))
            | inr next ↦ inr (inr (inl (next ∙ ap (λ z. shr_8 z +ℤ pos 1) (sym e))))
          ],
        )
        | inr e ↦ (
          elim (shr_8-suc f) [
            | inl same ↦ inr (inl (sym same ∙ ap shr_8 (sym e)))
            | inr next ↦ inl (
                sym (
                  ap (λ z. shr_8 z -ℤ pos 1) e
                  ∙ ap (λ z. z -ℤ pos 1) next
                  ∙ +ℤ_cancel (shr_8 f) (pos 1)))
          ],
          inr (inl (ap shr_8 (sym e))),
        )
      ] in
    (subst (In (shr_8 f)) (sym as_three) low, subst (In (shr_8 (f +ℤ pos 1))) (sym as_three) high)

floor_div-FitsSigned : (t : ℤ) (d : ℕ) → FitsSigned (2 ^ 22) t → FitsSigned (2 ^ 22) (floor_div t d)
floor_div-FitsSigned (pos n) d h = let smaller = div-le_self n d in omega arith
floor_div-FitsSigned (negsuc n) d h = let smaller = div-le_self n d in omega arith

near-FitsWord :
    (f q : ℤ)
    → FitsSigned (2 ^ 22) f
    → (q ≡ f) ⊎ (q ≡ f +ℤ pos 1)
    → FitsSigned (2 ^ 15 - 1) (shr_8 q)
unfolding shr_8 ◌+ℤ◌
near-FitsWord f (pos n) h near = ground arith
near-FitsWord f (negsuc n) h near = ground arith

-- For a tick of at most 22 bits and a sign and a positive spacing, the bitmap words that a pass reads
-- contain the word of the tick divided by the spacing and rounded down, and the word of the next
-- quotient, though the code divides with rounding to 0.
pub window_covers :
    (t : ℤ) (d : ℕ) (q : ℤ)
    → FitsSigned (2 ^ 22) t
    → div_trunc t (suc d) ≡ ok q
    → In (shr_8 (floor_div t (suc d))) (window (position q).0)
      × In (shr_8 (floor_div t (suc d) +ℤ pos 1)) (window (position q).0)
unfolding position
window_covers t d q h e =
    let f = floor_div t (suc d) in
    let near = div_trunc-floor_div t d q e in
    let fits = near-FitsWord f q (floor_div-FitsSigned t (suc d) h) near in
    subst (λ w. In (shr_8 f) (window w) × In (shr_8 (f +ℤ pos 1)) (window w))
      (sym (as_i16-exact (shr_8 q) (near-FitsSigned (shr_8 q) fits).2)) (window-near f q near fits)
