-- ===== src/Calculation/UniswapV2.antt =====
-- `uniswap_v2_out` of src/calculation/uniswap.rs.
pub mod Laws
use base_buster.Prelude.{ℕ, ◌/◌, ◌==◌, if◌then◌else◌, Outcome, ok, panic, unwrap, ◌>>=◌}
use base_buster.Prelude.Words.{wrapping_add, wrapping_mul}
use base_buster.Pool.{Address, U256}
use base_buster.StateDb.Types.{BlockStateDb, Provider}
use base_buster.StateDb.Database.{zero_to_one}
use base_buster.StateDb.V2.{get_reserves}

-- The formula, from the reserve of the input token and that of the output token. A division by zero
-- panics.
unfoldable pub v2_amount_out : U256 → U256 → U256 → U256 → Outcome U256
v2_amount_out amount_in fee reserve0 reserve1 =
    let amount_in_with_fee = wrapping_mul amount_in fee in
    let numerator = wrapping_mul amount_in_with_fee reserve1 in
    let denominator = wrapping_add (wrapping_mul reserve0 10000) amount_in_with_fee in
    if denominator == 0 then panic else ok (numerator / denominator)

unfoldable pub uniswap_v2_out :
    Provider → BlockStateDb → U256 → Address → Address → U256 → Outcome U256
uniswap_v2_out p db amount_in pool_address token_in fee = do
  zero_for_one ← unwrap (zero_to_one db pool_address token_in)
  (reserve0, reserve1) ← get_reserves p db pool_address
  if zero_for_one
      then v2_amount_out amount_in fee reserve0 reserve1
      else v2_amount_out amount_in fee reserve1 reserve0
