-- ===== src/Prelude/Signed.antt =====
-- Two's complement words of signed integers: `as u32`, `as i128`, `Signed::from_raw`.
use Prim.Native.Nat.{ℕ, ◌-◌, ◌*◌, ◌%◌, ◌<◌}
use mathlib.Core.Path.{◌≡◌}
use native.Mathlib.Nat.{mod-eq_of_lt}
use native.Mathlib.Omega.{arith}
use base_buster.Prelude.Tests.{ltb, if◌then◌else◌}
use base_buster.Prelude.Int.{ℤ, pos, negsuc}

-- The low bits of the two's complement, for a modulus that is a power of two.
unfoldable pub to_bits : ℕ → ℤ → ℕ
to_bits m (pos n) = n % m
to_bits m (negsuc n) = m - 1 - n % m

-- The integer that a word below `2 * half` stands for.
unfoldable pub of_bits : ℕ → ℕ → ℤ
of_bits half w = if ltb w half then pos w else negsuc (2 * half - 1 - w)

-- The integer lies in `-half .. half - 1`.
abbrev pub FitsSigned : ℕ → ℤ → Type 0
FitsSigned half (pos n) = n < half
FitsSigned half (negsuc n) = n < half

small : (n half : ℕ) → n < half → n % (2 * half) ≡ n
small n half h = mod-eq_of_lt (omega arith)

pub of_bits-to_bits :
    (half : ℕ) (z : ℤ) → 0 < half → FitsSigned half z → of_bits half (to_bits (2 * half) z) ≡ z
unfolding of_bits to_bits
of_bits-to_bits half (pos n) h f = ground (arith, small n half f)
of_bits-to_bits half (negsuc n) h f = ground (arith, small n half f)

pub to_bits-lt : (m : ℕ) (z : ℤ) → 0 < m → to_bits m z < m
unfolding to_bits
to_bits-lt m (pos n) h = grind arith
to_bits-lt m (negsuc n) h = omega arith
