-- ===== src/Filter/BySwap.antt =====
-- src/filter.rs: a swap there and back on every pool.
use base_buster.Prelude.{
  Bool, true, false, not, ◌||◌, List, [], ◌∷◌, Option, none, some, Outcome, ok, unwrap, ◌>>=◌, ◌==◌,
  leb, if◌then◌else◌, lookup, HashMap,
}
use base_buster.Prelude.Words.{checked_mul, checked_div}
use base_buster.Pool.{Address, U256, Pool}
use base_buster.Swap.{amount}
use base_buster.Quoter.{TxEnv, ExecutionResult, success, revert, halt}
use base_buster.Filter.Routers.{
  SwapType, Calldata, approve, Abi, router_of, setup_router_calldata, decode_swap_return,
}

abbrev pub weth_address : Address
weth_address = 0x4200000000000000000000000000000000000006

-- `U256::from(1e70)`
abbrev pub lots_of_tokens : U256
lots_of_tokens = 10000000000000000725314363815292351261583744096465219555182101554790400

abbrev pub account : Address
account = 1

-- The crates `node_db` and revm over a database of type `S`. A `none` is an error. A call that is
-- not committed may still cache what it reads.
pub record NodeEvm (S : Type 0) : Type 0 where
  pub insert_account_storage : S → Address → U256 → U256 → Option S
  pub transact_commit : S → TxEnv → Option S
  pub transact : S → TxEnv → Option (S × ExecutionResult)

abbrev pub call : Abi → Address → Calldata → TxEnv
call abi to calldata = record {
  caller = account;
  value = 0;
  gas_limit = some 500_000;
  transact_to = to;
  tx_data = abi.encode calldata;
}

-- The direction of the first swap: from WETH where the pool has it.
unfoldable pub first_direction : Pool → Bool
first_direction pool =
    let is_weth_pool = pool.token0_address == weth_address || pool.token1_address == weth_address in
    if is_weth_pool then pool.token0_address == weth_address else true

unfoldable pub lower_bound : Outcome U256
lower_bound = do product ← unwrap (checked_mul amount 95); unwrap (checked_div product 100)

-- A swap back that succeeds with at least the bound.
unfoldable pub enough : U256 → Option U256 → Bool
enough bound none = false
enough bound (some received) = leb bound received

module _ {S : Type 0} (node : NodeEvm S) (abi : Abi) where
  -- A swap by the router, and its output if it succeeds.
  unfoldable pub router_swap :
      S → Pool → Address → SwapType → U256 → Bool → Outcome (S × Option U256)
  router_swap nodedb pool router_address swap_type amt zero_to_one = do
    (calldata, vec_ret) ← setup_router_calldata pool account amt swap_type zero_to_one
    (nodedb', result) ← unwrap (node.transact nodedb (call abi router_address calldata))
    elim result [
      | success output ↦
          decode_swap_return abi output vec_ret >>= λ received. ok (nodedb', some received)
      | revert output ↦ ok (nodedb', none)
      | halt ↦ ok (nodedb', none)
    ]

  -- Balances and approvals.
  unfoldable pub fund : S → Pool → Address → U256 → U256 → Outcome S
  fund nodedb pool router_address t0_slot t1_slot = do
    db₁ ← unwrap (node.insert_account_storage nodedb pool.token0_address t0_slot lots_of_tokens)
    db₂ ← unwrap (node.insert_account_storage db₁ pool.token1_address t1_slot lots_of_tokens)
    db₃ ← unwrap (
        node.transact_commit db₂
          (call abi pool.token0_address (approve router_address lots_of_tokens)))
    unwrap (
        node.transact_commit db₃
          (call abi pool.token1_address (approve router_address lots_of_tokens)))

  -- The swap back of what the first swap gave, and whether the pool is kept.
  unfoldable pub swap_back : U256 → S → Pool → Address → SwapType → Option U256 → Outcome (S × Bool)
  swap_back bound nodedb pool router_address swap_type none = ok (nodedb, false)
  swap_back bound nodedb pool router_address swap_type (some amt) = do
    (nodedb', second) ←
        router_swap nodedb pool router_address swap_type amt (not (first_direction pool))
    ok (nodedb', enough bound second)

  unfoldable pub round_trip : S → Pool → Address → SwapType → Outcome (S × Bool)
  round_trip nodedb pool router_address swap_type = do
    bound ← lower_bound
    (nodedb', first) ←
        router_swap nodedb pool router_address swap_type amount (first_direction pool)
    swap_back bound nodedb' pool router_address swap_type first

  -- A pool with a token whose slot is unknown is skipped.
  unfoldable pub try_pool : HashMap U256 → S → Pool → Outcome (S × Bool)
  try_pool slot_map nodedb pool = do
    (router_address, swap_type) ← router_of pool.pool_type
    elim (lookup pool.token0_address slot_map) [
      | none ↦ ok (nodedb, false)
      | some t0_slot ↦ elim (lookup pool.token1_address slot_map) [
        | none ↦ ok (nodedb, false)
        | some t1_slot ↦ do
          funded ← fund nodedb pool router_address t0_slot t1_slot
          round_trip funded pool router_address swap_type
      ]
    ]

  unfoldable pub filter_by_swap : HashMap U256 → S → List Pool → Outcome (List Pool)
  filter_by_swap slot_map nodedb [] = ok []
  filter_by_swap slot_map nodedb (pool ∷ pools) = do
    (nodedb', kept) ← try_pool slot_map nodedb pool
    rest ← filter_by_swap slot_map nodedb' pools
    ok (if kept then pool ∷ rest else rest)
