-- ===== src/Pool.antt =====
-- What the program reads of pool_sync's pools: the values that the accessors of `Pool` return.
-- pool_sync is a dependency, so the values are data of the model and nothing is assumed of them.
use base_buster.Prelude.{ℕ, Bool, true, false, List, Option}
use base_buster.Prelude.Int.{ℤ}

-- Addresses, 256-bit words and hashes are numbers.
abbrev pub Address : Type 0
Address = ℕ

abbrev pub U256 : Type 0
U256 = ℕ

pub data PoolType : Type 0 where
  uniswap_v2 sushiswap_v2 pancakeswap_v2 baseswap_v2 swapbased_v2 alienbase_v2 dackieswap_v2 :
      PoolType
  uniswap_v3 sushiswap_v3 pancakeswap_v3 baseswap_v3 swapbased_v3 alienbase_v3 dackieswap_v3 :
      PoolType
  slipstream aerodrome maverick_v1 maverick_v2 balancer_v2 curve_two_crypto curve_tri_crypto :
      PoolType

unfoldable pub PoolType-discrete : Discrete PoolType
PoolType-discrete = hlevel

-- `==` on pool types.
abbrev pub same_type : PoolType → PoolType → Bool
same_type a b = elim (PoolType-discrete a b) [ yes _ ↦ true | no _ ↦ false ]

pub record V2Pool : Type 0 where
  pub token0_reserves : U256
  pub token1_reserves : U256
  pub stable : Option Bool

-- `ticks` has each tick's `liquidity_net`; `tick_bitmap` has each word's bitmap.
pub record V3Pool : Type 0 where
  pub sqrt_price : U256
  pub tick : ℤ
  pub liquidity : ℕ
  pub tick_spacing : ℤ
  pub ticks : List (ℤ × ℤ)
  pub tick_bitmap : List (ℤ × U256)
  pub fee : ℕ

pub record Pool : Type 0 where
  pub address : Address
  pub token0_address : Address
  pub token1_address : Address
  pub token0_decimals : ℕ
  pub token1_decimals : ℕ
  pub pool_type : PoolType
  pub fee : ℕ
  pub is_v2 : Bool
  pub is_v3 : Bool
  pub get_v2 : Option V2Pool
  pub get_v3 : Option V3Pool
  -- `get_tokens` and `get_balance` of the Balancer and Curve pools
  pub tokens : List Address
  pub balance : Address → U256
