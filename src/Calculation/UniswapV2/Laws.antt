-- ===== src/Calculation/UniswapV2/Laws.antt =====
-- What the Uniswap V2 formula guarantees on amounts that fit 112 bits.
use base_buster.Prelude.{
  ℕ, ◌+◌, ◌-◌, ◌*◌, ◌/◌, ◌^◌, ◌≤◌, ◌<◌, ◌≡◌, ap, sym, ◌∙◌, ok, arith, ◌==◌, false, eq_false,
}
use mathlib.Core.Path.{subst}
use native.Mathlib.Nat.{
  div-mul-le_self, mul-le-mul_left, mul-le-mul_right, mul-pos, div-lt_iff_lt-mul, le-div_iff_mul-le,
}
use base_buster.Prelude.Words.{
  wrapping_add, wrapping_mul, wrapping_mul-exact, wrapping_add-exact, u256_mod,
}
use base_buster.Pool.{U256}
use base_buster.Calculation.UniswapV2.{v2_amount_out}

-- The amounts and reserves that occur: 112 bits, a fee factor of at most 1, a nonempty reserve.
pub record InRange (amount_in fee reserve_in reserve_out : U256) : Type 0 where
  pub amount_small : amount_in < 2 ^ 112
  pub fee_small : fee ≤ 10000
  pub in_small : reserve_in < 2 ^ 112
  pub in_positive : 0 < reserve_in
  pub out_small : reserve_out < 2 ^ 112

-- The exact quotient.
abbrev pub quotient : U256 → U256 → U256 → U256 → ℕ
quotient a f ri ro = a * f * ro / (ri * 10000 + a * f)

module _ (a f ri ro : U256) (r : InRange a f ri ro) where
  with_fee-small : a * f < 2 ^ 126
  with_fee-small =
      let p : a * f ≤ a * 10000 = mul-le-mul_left a (r.fee_small) in
      let s = r.amount_small in omega arith

  with_fee-le : a * f ≤ 2 ^ 126
  with_fee-le = let h = with_fee-small in omega arith

  numerator-small : a * f * ro < u256_mod
  numerator-small =
      let p : a * f * ro ≤ 2 ^ 126 * ro = mul-le-mul_right ro with_fee-le in
      let s = r.out_small in omega arith

  -- Nothing wraps around and nothing panics.
  pub v2_amount_out-quotient : v2_amount_out a f ri ro ≡ ok (quotient a f ri ro)
  unfolding v2_amount_out
  v2_amount_out-quotient =
      let afs = with_fee-small in
      let afr = numerator-small in
      let ris = r.in_small in
      let pos = r.in_positive in
      let e1 : wrapping_mul a f ≡ a * f = wrapping_mul-exact a f (omega arith) in
      let e2 : wrapping_mul (a * f) ro ≡ a * f * ro = wrapping_mul-exact (a * f) ro afr in
      let e3 : wrapping_mul ri 10000 ≡ ri * 10000 = wrapping_mul-exact ri 10000 (omega arith) in
      let e4 : wrapping_add (ri * 10000) (a * f) ≡ ri * 10000 + a * f =
        wrapping_add-exact (ri * 10000) (a * f) (omega arith) in
      let e5 : (ri * 10000 + a * f == 0) ≡ false = eq_false (ri * 10000 + a * f) 0 (omega arith) in
      simp (e1, e2, e3, e4, e5)

  -- The quotient times its divisor.
  quotient-mul : quotient a f ri ro * (ri * 10000 + a * f) ≤ a * f * ro
  quotient-mul = div-mul-le_self (a * f * ro) (ri * 10000 + a * f)

  -- The input with its fee never buys the whole reserve.
  pub quotient-lt : 0 < ro → quotient a f ri ro < ro
  quotient-lt ro0 =
      let p : 0 < ro * ri = mul-pos ro0 (r.in_positive) in
      let d : 0 < ri * 10000 + a * f = let pos = r.in_positive in omega arith in
      (div-lt_iff_lt-mul d).1 (omega arith)

-- A share q of ro that x earns against k is also earned by a larger x.
share_mono : (k q ro x d : ℕ) → q ≤ ro → q * (k + x) ≤ x * ro → q * (k + (x + d)) ≤ (x + d) * ro
share_mono k q ro x d q≤ro h = let e : q * d ≤ ro * d = mul-le-mul_right d q≤ro in omega arith

-- An output q that the whole input pays for keeps the product of the reserves.
pub product_grows : (a ri ro q : ℕ) → q ≤ ro → q * (ri + a) ≤ a * ro → ri * ro ≤ (ri + a) * (ro - q)
product_grows a ri ro q le h =
    let g : (ri + a) * (ro - q + q) ≡ (ri + a) * ro = ap (λ z. (ri + a) * z) (omega arith) in
    omega arith

module _ (a f ri ro : U256) (r : InRange a f ri ro) (ro0 : 0 < ro) where
  pub quotient-le : quotient a f ri ro ≤ ro
  quotient-le = let h = quotient-lt a f ri ro r ro0 in omega arith

  -- A larger input never buys less.
  pub quotient_mono : (d : ℕ) → quotient a f ri ro ≤ quotient (a + d) f ri ro
  quotient_mono d =
      let q = quotient a f ri ro in
      let h : q * (ri * 10000 + (a * f + d * f)) ≤ (a * f + d * f) * ro =
        share_mono (ri * 10000) q ro (a * f) (d * f) quotient-le (quotient-mul a f ri ro r) in
      let e : (a + d) * f ≡ a * f + d * f = omega arith in
      let pos : 0 < ri * 10000 + (a + d) * f = let ri0 = r.in_positive in omega arith in
      (le-div_iff_mul-le pos).1 (subst (λ z. q * (ri * 10000 + z) ≤ z * ro) (sym e) h)

  -- Against the whole input, without the fee.
  quotient-no_fee : quotient a f ri ro * (ri + a) ≤ a * ro
  quotient-no_fee =
      let q = quotient a f ri ro in
      let fs = r.fee_small in
      let af : a * f ≤ a * 10000 = mul-le-mul_left a fs in
      let h : q * (ri * 10000 + (a * f + (a * 10000 - a * f)))
          ≤ (a * f + (a * 10000 - a * f)) * ro =
        share_mono (ri * 10000) q ro (a * f) (a * 10000 - a * f) quotient-le
          (quotient-mul a f ri ro r) in
      let e : a * f + (a * 10000 - a * f) ≡ a * 10000 = omega arith in
      let h2 : q * (ri * 10000 + a * 10000) ≤ a * 10000 * ro =
        subst (λ z. q * (ri * 10000 + z) ≤ z * ro) e h in
      omega arith

  -- The product of the reserves never falls.
  pub quotient-product : ri * ro ≤ (ri + a) * (ro - quotient a f ri ro)
  quotient-product = product_grows a ri ro (quotient a f ri ro) quotient-le quotient-no_fee

-- On a nonempty pool whose amounts fit 112 bits a swap returns, it pays out less than the reserve,
-- and the product of the reserves does not fall.
pub v2_amount_out-product :
    (a f ri ro : U256)
    → InRange a f ri ro
    → 0 < ro
    → (out : U256) × ((v2_amount_out a f ri ro ≡ ok out)
        × ((out < ro) × (ri * ro ≤ (ri + a) * (ro - out))))
v2_amount_out-product a f ri ro r ro0 = (
  quotient a f ri ro,
  (
    v2_amount_out-quotient a f ri ro r,
    (quotient-lt a f ri ro r ro0, quotient-product a f ri ro r ro0),
  ),
)

-- On a nonempty pool whose amounts fit 112 bits a larger input is not paid less.
v2_amount_out_mono :
    (a d f ri ro x y : U256)
    → InRange a f ri ro
    → InRange (a + d) f ri ro
    → 0 < ro
    → v2_amount_out a f ri ro ≡ ok x
    → v2_amount_out (a + d) f ri ro ≡ ok y
    → x ≤ y
v2_amount_out_mono a d f ri ro x y r s ro0 p q =
    let e = sym (v2_amount_out-quotient a f ri ro r) ∙ p in
    let g = sym (v2_amount_out-quotient (a + d) f ri ro s) ∙ q in
    let h = quotient_mono a f ri ro r ro0 d in ground (arith, h)
