-- ===== src/Calculation/Aerodrome/Laws.antt =====
-- What the volatile formula of aerodrome.rs guarantees.
use native.Mathlib.Nat.{mul-le-mul, div-mul-le_self, le_of_mul-le-mul_right}
use base_buster.Prelude.{◌+◌, ◌-◌, ◌*◌, ◌/◌, ◌^◌, ◌≤◌, ◌<◌, ◌≡◌, false, ok, ◌==◌, arith, eq_false}
use base_buster.Prelude.Words.{wrapping_add, wrapping_mul, wrapping_mul-exact, wrapping_add-exact}
use base_buster.Pool.{U256}
use base_buster.Calculation.Aerodrome.{volatile_out}
use base_buster.Calculation.UniswapV2.Laws.{product_grows}

-- A volatile pool with a reserve of the input token that is not zero, with reserves below 2 ^ 127, pays
-- out at most its reserve on an input below 2 ^ 127, and the product of the reserves does not fall.
pub volatile_out-product :
    (a ra rb : U256)
    → a < 2 ^ 127
    → ra < 2 ^ 127
    → rb < 2 ^ 127
    → 0 < ra
    → (out : U256) × ((volatile_out a ra rb ≡ ok out)
        × ((out ≤ rb) × (ra * rb ≤ (ra + a) * (rb - out))))
unfolding volatile_out
volatile_out-product a ra rb ha hra hrb pos =
    let q = a * rb / (ra + a) in
    let m : a * rb ≤ 2 ^ 127 * 2 ^ 127 =
      mul-le-mul {n₂ = 2 ^ 127} {m₂ = 2 ^ 127} (omega arith) (omega arith) in
    let e1 : wrapping_mul a rb ≡ a * rb = wrapping_mul-exact a rb (omega arith) in
    let e2 : wrapping_add ra a ≡ ra + a = wrapping_add-exact ra a (omega arith) in
    let e3 : (ra + a == 0) ≡ false = eq_false (ra + a) 0 (omega arith) in
    let share : q * (ra + a) ≤ a * rb = div-mul-le_self (a * rb) (ra + a) in
    let small : q ≤ rb = le_of_mul-le-mul_right {k = ra + a} (omega arith) (omega arith) in
    (q, (simp (e1, e2, e3), (small, product_grows a ra rb q small share)))
