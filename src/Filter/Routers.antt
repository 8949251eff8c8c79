-- ===== src/Filter/Routers.antt =====
-- src/filter.rs: the router of each protocol, the calls that swap through it, and what they return.
use base_buster.Prelude.{
  ℕ, ◌^◌, ◌-◌, Bool, true, false, List, [], ◌∷◌, last?, Option, Outcome, ok, panic, unwrap, ◌>>=◌,
  ltb, if◌then◌else◌,
}
use base_buster.Prelude.Int.{ℤ, pos, negsuc}
use base_buster.Pool.{
  Address, U256, Pool, PoolType, uniswap_v2, sushiswap_v2, pancakeswap_v2, baseswap_v2,
  swapbased_v2, alienbase_v2, dackieswap_v2, uniswap_v3, sushiswap_v3, pancakeswap_v3, baseswap_v3,
  swapbased_v3, alienbase_v3, dackieswap_v3, slipstream, aerodrome, maverick_v1, maverick_v2,
  balancer_v2, curve_two_crypto, curve_tri_crypto,
}

-- The enum for the swap dispatch.
pub data SwapType : Type 0 where
  v2_basic v2_aerodrome v3_basic v3_deadline v3_deadline_tick : SwapType

-- The `match` on the pool's type.
unfoldable pub router_of : PoolType → Outcome (Address × SwapType)
router_of uniswap_v2 = ok (0x4752ba5dbc23f44d87826276bf6fd6b1c372ad24, v2_basic)
router_of sushiswap_v2 = ok (0x6bded42c6da8fbf0d2ba55b2fa120c5e0c8d7891, v2_basic)
router_of pancakeswap_v2 = ok (0x8cfe327cec66d1c090dd72bd0ff11d690c33a2eb, v2_basic)
router_of baseswap_v2 = ok (0x327df1e6de05895d2ab08513aadd9313fe505d86, v2_basic)
router_of swapbased_v2 = ok (0xaaa3b1f1bd7bcc97fd1917c18ade665c5d31f066, v2_basic)
router_of dackieswap_v2 = ok (0xca4eaa32e7081b0c4ba47e2bdf9b7163907fe56f, v2_basic)
router_of alienbase_v2 = ok (0x8c1a3cf8f83074169fe5d7ad50b978e1cd6b37c7, v2_basic)
router_of uniswap_v3 = ok (0x2626664c2603336e57b271c5c0b26f421741e481, v3_basic)
router_of alienbase_v3 = ok (0xb20c411fc84fbb27e78608c24d0056d974ea9411, v3_basic)
router_of dackieswap_v3 = ok (0x195fbc5b8fbd5ac739c1ba57d4ef6d5a704f34f7, v3_basic)
router_of pancakeswap_v3 = ok (0x678aa4bf4e210cf2166753e054d5b7c31cc7fa86, v3_basic)
router_of sushiswap_v3 = ok (0xfb7ef66a7e61224dd6fcd0d7d9c3be5c8b049b9f, v3_deadline)
router_of swapbased_v3 = ok (0x756c6bbdd915202adac7bebb1c6c89ac0886503f, v3_deadline)
router_of baseswap_v3 = ok (0x1b8eea9315be495187d873da7773a874545d9d48, v3_deadline)
router_of aerodrome = ok (0xcf77a3ba9a5ca399b7c97c74d54e5b1beb874e43, v2_aerodrome)
router_of slipstream = ok (0xbe6d8f0d05cc4be24d5167a3ef062215be6d18a5, v3_deadline_tick)
router_of maverick_v1 = panic
router_of maverick_v2 = panic
router_of balancer_v2 = panic
router_of curve_two_crypto = panic
router_of curve_tri_crypto = panic

-- The structs of the calls; the recipient, the amount and the tokens have the source's names.
pub record ExactInputSingle : Type 0 where
  pub token_in : Address
  pub token_out : Address
  pub recipient : Address
  pub amount_in : U256
  pub amount_out_minimum : U256
  pub sqrt_price_limit_x96 : U256

pub record SwapExactTokens : Type 0 where
  pub amount_in : U256
  pub amount_out_min : U256
  pub to : Address
  pub deadline : U256

pub data Calldata : Type 0 where
  approve : Address → U256 → Calldata
  balance_of : Address → Calldata
  -- with the path; with the route's ends, its `stable` and its factory
  v2_swap : SwapExactTokens → List Address → Calldata
  v2_aerodrome_swap : SwapExactTokens → Address → Address → Bool → Address → Calldata
  -- with the fee; with the fee and the deadline; with the tick spacing and the deadline
  v3_swap : ExactInputSingle → ℕ → Calldata
  v3_swap_deadline : ExactInputSingle → ℕ → U256 → Calldata
  v3_swap_deadline_tick : ExactInputSingle → ℤ → U256 → Calldata

-- `U256::MAX`
abbrev pub u256_max : U256
u256_max = 2 ^ 256 - 1

-- `try_into` of a `u32` to 24 bits, and of an `i32` to 24 signed bits, unwrapped.
unfoldable pub to_u24 : ℕ → Outcome ℕ
to_u24 n = if ltb n (2 ^ 24) then ok n else panic

unfoldable pub to_i24 : ℤ → Outcome ℤ
to_i24 (pos n) = if ltb n (2 ^ 23) then ok (pos n) else panic
to_i24 (negsuc n) = if ltb n (2 ^ 23) then ok (negsuc n) else panic

abbrev pub exact_input : Address → Address → Address → U256 → ExactInputSingle
exact_input token0 token1 account amt = record {
  token_in = token0;
  token_out = token1;
  recipient = account;
  amount_in = amt;
  amount_out_minimum = 0;
  sqrt_price_limit_x96 = 0;
}

abbrev pub exact_tokens : Address → U256 → SwapExactTokens
exact_tokens account amt = record {
  amount_in = amt;
  amount_out_min = 0;
  to = account;
  deadline = u256_max;
}

-- The tokens in the direction of the swap.
abbrev pub swap_tokens : Pool → Bool → Address × Address
swap_tokens pool true = (pool.token0_address, pool.token1_address)
swap_tokens pool false = (pool.token1_address, pool.token0_address)

-- The call, and whether it returns a vector.
unfoldable pub setup_router_calldata :
    Pool → Address → U256 → SwapType → Bool → Outcome (Calldata × Bool)
setup_router_calldata pool account amt v2_basic zero_to_one =
    let (token0, token1) = swap_tokens pool zero_to_one in
    ok (v2_swap (exact_tokens account amt) (token0 ∷ token1 ∷ []), true)
setup_router_calldata pool account amt v3_basic zero_to_one = do
  v3_pool ← unwrap pool.get_v3
  fee ← to_u24 v3_pool.fee
  let (token0, token1) = swap_tokens pool zero_to_one
  ok (v3_swap (exact_input token0 token1 account amt) fee, false)
setup_router_calldata pool account amt v3_deadline zero_to_one = do
  v3_pool ← unwrap pool.get_v3
  fee ← to_u24 v3_pool.fee
  let (token0, token1) = swap_tokens pool zero_to_one
  ok (v3_swap_deadline (exact_input token0 token1 account amt) fee u256_max, false)
setup_router_calldata pool account amt v2_aerodrome zero_to_one = do
  v2_pool ← unwrap pool.get_v2
  stable ← unwrap v2_pool.stable
  let (token0, token1) = swap_tokens pool zero_to_one
  ok (v2_aerodrome_swap (exact_tokens account amt) token0 token1 stable 0, true)
setup_router_calldata pool account amt v3_deadline_tick zero_to_one = do
  v3_pool ← unwrap pool.get_v3
  tick_spacing ← to_i24 v3_pool.tick_spacing
  let (token0, token1) = swap_tokens pool zero_to_one
  ok (v3_swap_deadline_tick (exact_input token0 token1 account amt) tick_spacing u256_max, false)

-- alloy's `abi_decode`, for a vector and for one number.
pub record Abi : Type 0 where
  pub encode : Calldata → List ℕ
  pub decode_vec : List ℕ → Option (List U256)
  pub decode : List ℕ → Option U256

unfoldable pub decode_swap_return : Abi → List ℕ → Bool → Outcome U256
decode_swap_return abi output true = do
  decoded_amount ← unwrap (abi.decode_vec output)
  unwrap (last? decoded_amount)
decode_swap_return abi output false = unwrap (abi.decode output)
