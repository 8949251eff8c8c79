-- ===== src/Prelude/I256.antt =====
-- 256-bit signed integers as alloy has them: operators wrap, division rounds to 0.
use Prim.Native.Nat.{ℕ, suc, ◌*◌, ◌/◌, ◌%◌, ◌^◌}
use base_buster.Prelude.Tests.{if◌then◌else◌}
use base_buster.Prelude.Results.{Outcome, ok, panic}
use base_buster.Prelude.Int.{ℤ, pos, negsuc, ltb_ℤ, ◌+ℤ◌, ◌-ℤ◌, ◌*ℤ◌, is_zero}
use base_buster.Prelude.Signed.{to_bits, of_bits}

abbrev pub i256_from_raw : ℕ → ℤ
i256_from_raw w = of_bits (2 ^ 255) w

abbrev pub i256_into_raw : ℤ → ℕ
i256_into_raw z = to_bits (2 * 2 ^ 255) z

abbrev pub i256_wrap : ℤ → ℤ
i256_wrap z = i256_from_raw (i256_into_raw z)

abbrev pub i256_sub : ℤ → ℤ → ℤ
i256_sub a b = i256_wrap (a -ℤ b)

unfoldable pub i256_add : ℤ → ℤ → ℤ
i256_add a b = i256_wrap (a +ℤ b)

unfoldable pub i256_mul : ℤ → ℤ → ℤ
i256_mul a b = i256_wrap (a *ℤ b)

abbrev pub magnitude : ℤ → ℕ
magnitude (pos n) = n
magnitude (negsuc n) = suc n

abbrev pub neg_ℤ : ℤ → ℤ
neg_ℤ z = pos 0 -ℤ z

abbrev pub i256_neg : ℤ → ℤ
i256_neg z = i256_sub (pos 0) z

abbrev pub i256_abs : ℤ → ℤ
i256_abs z = if ltb_ℤ z (pos 0) then i256_neg z else z

-- The quotient and the remainder, for a divisor that is not 0.
unfoldable pub quot : ℤ → ℤ → ℤ
quot (pos m) (pos n) = pos (m / n)
quot (negsuc m) (negsuc n) = i256_wrap (pos (suc m / suc n))
quot (pos m) (negsuc n) = neg_ℤ (pos (m / suc n))
quot (negsuc m) (pos n) = neg_ℤ (pos (suc m / n))

unfoldable pub rem : ℤ → ℤ → ℤ
rem (pos m) n = pos (m % magnitude n)
rem (negsuc m) n = neg_ℤ (pos (suc m % magnitude n))

-- Division by 0 panics.
unfoldable pub i256_div : ℤ → ℤ → Outcome ℤ
i256_div a b = if is_zero b then panic else ok (quot a b)
