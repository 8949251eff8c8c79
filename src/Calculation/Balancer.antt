-- ===== src/Calculation/Balancer.antt =====
-- src/calculation/balancer.rs: the output of a swap in a weighted pool.
pub mod LogExp
pub mod Product
pub mod Decompose
pub mod Series
pub mod Factors
pub mod Factored
pub mod Body
pub mod Range
use base_buster.Prelude.{
  ℕ, ◌+◌, ◌-◌, ◌*◌, ◌/◌, ◌%◌, ◌^◌, Bool, true, false, List, Option, none, some, Outcome, ok, panic,
  unwrap, ◌>>=◌, ◌==◌, ltb, if◌then◌else◌, get_elem?,
}
use base_buster.Prelude.Words.{u256_mod, wrapping_add, wrapping_sub, wrapping_mul}
use base_buster.Prelude.Int.{ℤ, pos, negsuc, ◌-ℤ◌}
use base_buster.Prelude.Signed.{to_bits, of_bits}
use base_buster.Pool.{Address, U256}
use base_buster.Calculation.Balancer.LogExp.{pow}

-- What is read of pool_sync's `BalancerV2Pool`.
pub record BalancerPool : Type 0 where
  pub get_token_index : Address → Option ℕ
  pub balances : List U256
  pub weights : List U256
  pub swap_fee : U256
  pub token0_decimals : ℕ

abbrev pub one : U256
one = 1_000_000_000_000_000_000

-- `18 - decimals as i8`
abbrev pub as_i8 : ℤ → ℤ
as_i8 z = of_bits (2 ^ 7) (to_bits (2 * 2 ^ 7) z)

unfoldable pub scaling_factor : ℕ → ℤ
scaling_factor decimals = as_i8 (pos 18 -ℤ as_i8 (pos decimals))

-- `U256::from` of a negative `i8` panics.
unfoldable pub scale : U256 → ℤ → Outcome U256
scale value (pos decimals) = ok (wrapping_mul value (10 ^ decimals % u256_mod))
scale value (negsuc n) = panic

unfoldable pub div_up : U256 → U256 → Outcome U256
div_up a b =
    if a == 0
    then ok 0
    else (if b == 0 then panic else ok (wrapping_add (wrapping_sub (wrapping_mul a one) 1 / b) 1))

unfoldable pub div_down : U256 → U256 → Outcome U256
div_down a b = if a == 0 then ok 0 else (if b == 0 then panic else ok (wrapping_mul a one / b))

unfoldable pub mul_up : U256 → U256 → U256
mul_up a b =
    let product = wrapping_mul a b in
    if product == 0 then 0 else wrapping_add (wrapping_sub product 1 / one) 1

unfoldable pub mul_down : U256 → U256 → U256
mul_down a b = wrapping_mul a b / one

unfoldable pub pow_up : U256 → U256 → Outcome U256
pow_up x y = elim (y == one) [
  | true ↦ ok x
  | false ↦ elim (y == wrapping_mul one 2) [
    | true ↦ ok (mul_up x x)
    | false ↦ elim (y == wrapping_mul one 4) [
      | true ↦ let square = mul_up x x in ok (mul_up square square)
      | false ↦ do raw ← pow x y; ok (wrapping_add raw (wrapping_add (mul_up raw 10000) 1))
    ]
  ]
]

unfoldable pub complement : U256 → U256
complement x = if ltb x one then wrapping_sub one x else 0

-- The input that is traded: scaled, without the fee, scaled again.
unfoldable pub amount_without_fee : U256 → U256 → ℤ → Outcome U256
amount_without_fee amount_in swap_fee_percentage factor = do
  scaled_amount_in ← scale amount_in factor
  let without_fees = wrapping_sub scaled_amount_in (mul_up scaled_amount_in swap_fee_percentage)
  scale without_fees factor

-- The output for a traded input.
unfoldable pub weighted_out : U256 → U256 → U256 → U256 → U256 → Outcome U256
weighted_out balance_in balance_out weight_in weight_out amount_in = do
  let denominator = wrapping_add balance_in amount_in
  base ← div_up balance_in denominator
  exponent ← div_down weight_in weight_out
  power ← pow_up base exponent
  ok (mul_down balance_out (complement power))

-- The pool is `pool_manager.get_balancer_pool(&pool_address)`.
unfoldable pub balancer_v2_out : BalancerPool → U256 → Address → Address → Outcome U256
balancer_v2_out pool amount_in token_in token_out = do
  token_in_index ← unwrap (pool.get_token_index token_in)
  token_out_index ← unwrap (pool.get_token_index token_out)
  balance_in ← unwrap (get_elem? pool.balances token_in_index)
  balance_out ← unwrap (get_elem? pool.balances token_out_index)
  weight_in ← unwrap (get_elem? pool.weights token_in_index)
  weight_out ← unwrap (get_elem? pool.weights token_out_index)
  traded ← amount_without_fee amount_in pool.swap_fee (scaling_factor pool.token0_decimals)
  weighted_out balance_in balance_out weight_in weight_out traded
