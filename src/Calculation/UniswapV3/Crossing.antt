-- ===== src/Calculation/UniswapV3/Crossing.antt =====
-- The liquidity past a tick: the signed sum, or an error.
use base_buster.Prelude.{
  ℕ, suc, some, none, ◌-◌, ◌^◌, ◌<◌, ◌≡◌, ◌≢◌, ap, ◌∙◌, Bool, true, false, Outcome, ok, err,
  insufficient_liquidity, liquidity_overflow, ltb, if◌then◌else◌, arith,
}
use base_buster.Prelude.Words.{checked_sub, checked_add}
use base_buster.Prelude.Int.{ℤ, pos, negsuc, ltb_ℤ, ◌+ℤ◌, ◌-ℤ◌}
use base_buster.Prelude.Signed.{to_bits, of_bits, FitsSigned, of_bits-to_bits}
use base_buster.Calculation.UniswapV3.{as_u128, i128_neg, add_liquidity, cross_tick}

-- An integer as a liquidity, with the error for each side on which it does not fit.
abbrev pub as_liquidity : ℤ → Outcome ℕ
as_liquidity (pos n) = if ltb n (2 ^ 128) then ok n else err liquidity_overflow
as_liquidity (negsuc n) = err insufficient_liquidity

neg-FitsSigned :
    (z : ℤ) → FitsSigned (2 ^ 127) z → z ≢ negsuc (2 ^ 127 - 1) → FitsSigned (2 ^ 127) (pos 0 -ℤ z)
unfolding ◌-ℤ◌
neg-FitsSigned z f h = ground arith

i128_neg-exact : (z : ℤ) → FitsSigned (2 ^ 127) (pos 0 -ℤ z) → i128_neg z ≡ pos 0 -ℤ z
i128_neg-exact z f = of_bits-to_bits (2 ^ 127) (pos 0 -ℤ z) (omega arith) f

-- The magnitude of a negative net, also of the least one.
magnitude : (n : ℕ) → n < 2 ^ 127 → as_u128 (i128_neg (negsuc n)) ≡ suc n
unfolding ◌-ℤ◌ to_bits of_bits
magnitude n h = ground arith

remove_liquidity :
    (l n : ℕ)
    → l < 2 ^ 128
    → elim (checked_sub l (suc n)) [ some l' ↦ ok l' | none ↦ err insufficient_liquidity ]
      ≡ as_liquidity (pos l +ℤ negsuc n)
unfolding ◌+ℤ◌ checked_sub
remove_liquidity l n h = ground arith

is_negative : (n : ℕ) → ltb_ℤ (negsuc n) (pos 0) ≡ true
is_negative n = ground arith

add_liquidity-exact :
    (l : ℕ) (net : ℤ)
    → l < 2 ^ 128
    → FitsSigned (2 ^ 127) net
    → add_liquidity l net ≡ as_liquidity (pos l +ℤ net)
unfolding add_liquidity ◌+ℤ◌ to_bits checked_add
add_liquidity-exact l (pos n) h f = ground arith
add_liquidity-exact l (negsuc n) h f = rw (is_negative n, magnitude n f) (remove_liquidity l n h)

minus : (l : ℕ) (z : ℤ) → pos l +ℤ (pos 0 -ℤ z) ≡ pos l -ℤ z
unfolding ◌+ℤ◌ ◌-ℤ◌
minus l z = ground arith

-- For a liquidity below 2 ^ 128 and an `i128` net other than the least one, crossing a tick upwards
-- gives the liquidity plus the net, downwards the liquidity minus the net, as integers; it is the
-- error of insufficient liquidity exactly where this is negative and of an overflow exactly where it
-- is 2 ^ 128 or more.
pub cross_tick-exact :
    (zero_to_one : Bool) (l : ℕ) (net : ℤ)
    → l < 2 ^ 128
    → FitsSigned (2 ^ 127) net
    → net ≢ negsuc (2 ^ 127 - 1)
    → cross_tick zero_to_one l net
      ≡ as_liquidity (if zero_to_one then pos l -ℤ net else pos l +ℤ net)
unfolding cross_tick
cross_tick-exact false l net h f m = add_liquidity-exact l net h f
cross_tick-exact true l net h f m =
    let g = neg-FitsSigned net f m in
    rw (i128_neg-exact net g)
      (add_liquidity-exact l (pos 0 -ℤ net) h g ∙ ap as_liquidity (minus l net))
