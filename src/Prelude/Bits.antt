-- ===== src/Prelude/Bits.antt =====
-- The masks and packings of 256-bit words as arithmetic: `x & (2^w - 1)` is a remainder, and
-- `(hi << w) | lo` is a sum where `lo` fits `w` bits.
use Prim.Native.Nat.{
  ℕ, zero, suc, ◌+◌, ◌-◌, ◌*◌, ◌/◌, ◌%◌, ◌^◌, ◌≤◌, ◌<◌, min, max, digits, bit_and, bit_or,
  bit_and-bitwise, bit_or-bitwise,
}
use mathlib.Core.Path.{◌≡◌, refl, ap}
use native.Mathlib.Nat.{pow-suc, one-le-pow}
use native.Mathlib.Omega.{arith}

module _ (keep : ℕ → ℕ) (bit : ℕ → ℕ → ℕ) where
  -- More fuel than the first number is never used.
  enough_fuel : (x y f : ℕ) (g : ℕ) → x ≤ f → x ≤ g → digits keep bit f x y ≡ digits keep bit g x y
  enough_fuel zero y zero zero hf hg = refl
  enough_fuel zero y zero (suc g) hf hg = refl
  enough_fuel zero y (suc f) zero hf hg = refl
  enough_fuel zero y (suc f) (suc g) hf hg = refl
  enough_fuel (suc x) y zero g hf hg = elim hf [ ]
  enough_fuel (suc x) y (suc f) zero hf hg = elim hg [ ]
  enough_fuel (suc x) y (suc f) (suc g) hf hg =
      omega (arith, enough_fuel (suc x / 2) (y / 2) f g (omega arith) (omega arith))

or_digit : (x y : ℕ) → bit_or x y ≡ 2 * bit_or (x / 2) (y / 2) + max (x % 2) (y % 2)
or_digit zero y = omega (arith, bit_or-bitwise zero y, bit_or-bitwise zero (y / 2))
or_digit (suc x) y = omega (
  arith,
  bit_or-bitwise (suc x) y,
  bit_or-bitwise (suc x / 2) (y / 2),
  enough_fuel (λ b. b) max (suc x / 2) (y / 2) x (suc x / 2) (omega arith) (omega arith),
)

and_digit : (x y : ℕ) → bit_and x y ≡ 2 * bit_and (x / 2) (y / 2) + min (x % 2) (y % 2)
and_digit zero y = omega (arith, bit_and-bitwise zero y, bit_and-bitwise zero (y / 2))
and_digit (suc x) y = omega (
  arith,
  bit_and-bitwise (suc x) y,
  bit_and-bitwise (suc x / 2) (y / 2),
  enough_fuel (λ _. 0) min (suc x / 2) (y / 2) x (suc x / 2) (omega arith) (omega arith),
)

or_nothing_below : (bound x : ℕ) → x ≤ bound → bit_or x 0 ≡ x
or_nothing_below bound zero h = refl
or_nothing_below zero (suc x) h = elim h [ ]
or_nothing_below (suc bound) (suc x) h =
    omega (arith, or_digit (suc x) 0, or_nothing_below bound (suc x / 2) (omega arith))

and_nothing_below : (bound x : ℕ) → x ≤ bound → bit_and x 0 ≡ 0
and_nothing_below bound zero h = refl
and_nothing_below zero (suc x) h = elim h [ ]
and_nothing_below (suc bound) (suc x) h =
    omega (arith, and_digit (suc x) 0, and_nothing_below bound (suc x / 2) (omega arith))

doubled : (w hi : ℕ) → hi * 2 ^ suc w ≡ 2 * (hi * 2 ^ w)
doubled w hi = omega (arith, ap (λ (t : ℕ). hi * t) (pow-suc 2 w))

-- `(hi << w) | lo` at every width.
pub bit_or_packed : (w hi lo : ℕ) → lo < 2 ^ w → bit_or (hi * 2 ^ w) lo ≡ hi * 2 ^ w + lo
bit_or_packed zero hi lo h = ground (arith, or_nothing_below hi hi (omega arith))
bit_or_packed (suc w) hi lo h =
    let low : lo < 2 * 2 ^ w = omega (arith, pow-suc 2 w) in
    ground
      (arith, doubled w hi, or_digit (hi * 2 ^ suc w) lo, bit_or_packed w hi (lo / 2) (omega arith))

or_nothing_above : (x : ℕ) → bit_or 0 x ≡ x
or_nothing_above x = bit_or-bitwise 0 x

-- `lo | (hi << w)` at every width.
pub bit_or_packed_right : (w hi lo : ℕ) → lo < 2 ^ w → bit_or lo (hi * 2 ^ w) ≡ hi * 2 ^ w + lo
bit_or_packed_right zero hi lo h =
    let none_below : lo ≡ 0 = omega arith in
    rw none_below (omega (arith, or_nothing_above (hi * 2 ^ 0)))
bit_or_packed_right (suc w) hi lo h =
    let low : lo < 2 * 2 ^ w = omega (arith, pow-suc 2 w) in
    ground (
      arith,
      doubled w hi,
      or_digit lo (hi * 2 ^ suc w),
      bit_or_packed_right w hi (lo / 2) (omega arith),
    )

pub bit_or-zero : (x : ℕ) → bit_or x 0 ≡ x
bit_or-zero x = or_nothing_below x x (omega arith)

rem_doubled : (x m : ℕ) → 0 < m → x % (m * 2) ≡ 2 * (x / 2 % m) + x % 2
rem_doubled x m h = grind arith

-- `x & (2^w - 1)` at every width.
pub bit_and_mask : (w x : ℕ) → bit_and x (2 ^ w - 1) ≡ x % 2 ^ w
bit_and_mask zero x = omega (arith, and_nothing_below x x (omega arith))
bit_and_mask (suc w) x =
    let pos : 1 ≤ 2 ^ w = one-le-pow w 2 (omega arith) in
    rw (pow-suc 2 w) (
      ground (
        arith,
        pos,
        rem_doubled x (2 ^ w) pos,
        and_digit x (2 ^ w * 2 - 1),
        bit_and_mask w (x / 2),
      ))
