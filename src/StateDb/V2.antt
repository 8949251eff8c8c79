-- ===== src/StateDb/V2.antt =====
-- src/state_db/v2_db.rs: Uniswap V2 pools in the database.
pub mod Laws
use Prim.Native.Nat.{bit_and, bit_or}
use base_buster.Prelude.{ℕ, ◌-◌, ◌^◌, ◌%◌, Outcome, ok, unwrap, expect_ok, ◌>>=◌}
use base_buster.Prelude.Words.{shl, shr}
use base_buster.Pool.{Address, U256, Pool}
use base_buster.StateDb.Types.{BlockStateDb, Provider, Evm}
use base_buster.StateDb.Database.{storage_ref, add_pool}
use base_buster.StateDb.PutSlot.{put_slot}

abbrev pub u112_mask : U256
u112_mask = 2 ^ 112 - 1

unfoldable pub get_reserves : Provider → BlockStateDb → Address → Outcome (U256 × U256)
get_reserves p db pool = do
  value ← expect_ok (storage_ref p db pool 8)
  ok (bit_and (shr value 0) u112_mask, bit_and (shr value 112) u112_mask)

-- `Address::from_word` keeps the low 20 bytes.
abbrev pub from_word : U256 → Address
from_word w = w % 2 ^ 160

unfoldable pub get_token0 : Provider → BlockStateDb → Address → Outcome Address
get_token0 p db pool = do token0 ← expect_ok (storage_ref p db pool 6); ok (from_word token0)

unfoldable pub get_token1 : Provider → BlockStateDb → Address → Outcome Address
get_token1 p db pool = do token1 ← expect_ok (storage_ref p db pool 7); ok (from_word token1)

unfoldable pub insert_reserves : BlockStateDb → Address → U256 → U256 → Outcome BlockStateDb
insert_reserves db pool reserve0 reserve1 = put_slot db pool 8 (bit_or (shl reserve1 112) reserve0)

-- The 20 bytes of the address behind 12 zero bytes, read as a big-endian word, are its number.
unfoldable pub insert_token0 : BlockStateDb → Address → Address → Outcome BlockStateDb
insert_token0 db pool token = put_slot db pool 6 token

unfoldable pub insert_token1 : BlockStateDb → Address → Address → Outcome BlockStateDb
insert_token1 db pool token = put_slot db pool 7 token

unfoldable pub insert_v2 : Evm → Provider → BlockStateDb → Pool → Outcome BlockStateDb
insert_v2 evm p db pool = do
  db₁ ← add_pool evm p db pool
  v2_pool ← unwrap pool.get_v2
  db₂ ← insert_reserves db₁ pool.address v2_pool.token0_reserves v2_pool.token1_reserves
  db₃ ← insert_token0 db₂ pool.address pool.token0_address
  insert_token1 db₃ pool.address pool.token1_address
