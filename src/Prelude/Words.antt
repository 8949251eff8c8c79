-- ===== src/Prelude/Words.antt =====
-- 256-bit unsigned words as ruint has them: operators wrap, shifts drop the bits that leave.
use Prim.Native.Nat.{ℕ, ◌+◌, ◌-◌, ◌*◌, ◌/◌, ◌%◌, ◌^◌, ◌≤◌, ◌<◌}
use mathlib.Core.Path.{◌≡◌}
use mathlib.Core.Option.{Option, none, some}
use native.Mathlib.Omega.{arith}
use base_buster.Prelude.Tests.{ltb, ◌==◌, if◌then◌else◌}

abbrev pub u256_mod : ℕ
u256_mod = 2 ^ 256

unfoldable pub wrapping_add : ℕ → ℕ → ℕ
wrapping_add a b = (a + b) % u256_mod

unfoldable pub wrapping_sub : ℕ → ℕ → ℕ
wrapping_sub a b = (a + u256_mod - b) % u256_mod

unfoldable pub wrapping_mul : ℕ → ℕ → ℕ
wrapping_mul a b = a * b % u256_mod

-- `checked_mul` and `checked_div`
unfoldable pub checked_mul : ℕ → ℕ → Option ℕ
checked_mul a b = if ltb (a * b) u256_mod then some (a * b) else none

unfoldable pub checked_div : ℕ → ℕ → Option ℕ
checked_div a b = if b == 0 then none else some (a / b)

-- `checked_sub`, and `checked_add` below the modulus
unfoldable pub checked_sub : ℕ → ℕ → Option ℕ
checked_sub a b = if ltb a b then none else some (a - b)

unfoldable pub checked_add : ℕ → ℕ → ℕ → Option ℕ
checked_add m a b = if ltb (a + b) m then some (a + b) else none

abbrev pub shl : ℕ → ℕ → ℕ
shl x k = x * 2 ^ k % u256_mod

abbrev pub shr : ℕ → ℕ → ℕ
shr x k = x / 2 ^ k

-- Where the exact result fits, the operators give it.
pub wrapping_add-exact : (a b : ℕ) → a + b < u256_mod → wrapping_add a b ≡ a + b
unfolding wrapping_add
wrapping_add-exact a b h = omega arith

pub wrapping_sub-exact : (a b : ℕ) → a < u256_mod → b ≤ a → wrapping_sub a b ≡ a - b
unfolding wrapping_sub
wrapping_sub-exact a b h k = omega arith

pub wrapping_mul-exact : (a b : ℕ) → a * b < u256_mod → wrapping_mul a b ≡ a * b
unfolding wrapping_mul
wrapping_mul-exact a b h = omega arith
