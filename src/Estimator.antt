-- ===== src/Estimator.antt =====
-- src/estimator.rs: the rates of the pools, and the estimate of a path.
pub mod Rates
pub mod Rated
use base_buster.Prelude.{
  ℕ, zero, suc, ◌+◌, ◌-◌, ◌*◌, ◌/◌, ◌%◌, ◌^◌, Bool, true, false, List, [], ◌∷◌, ◌++◌, Option, none,
  some, Outcome, ok, panic, ◌>>=◌, ◌==◌, ◌&&◌, ◌||◌, not, leb, ltb, if◌then◌else◌, HashMap, lookup,
  insert, contains, unwrap,
}
use base_buster.Prelude.Words.{wrapping_add, wrapping_mul, checked_mul, checked_div}
use base_buster.Pool.{Address, U256, Pool, PoolType}
use base_buster.Swap.{SwapPath, SwapStep, amount}
use base_buster.StateDb.Types.{BlockStateDb}
use base_buster.StateDb.Database.{get_pool}

abbrev pub rate_scale : ℕ
rate_scale = 18

abbrev pub rate_scale_value : U256
rate_scale_value = 1_000_000_000_000_000_000

pub record Estimator : Type 0 where
  pub rates : HashMap (HashMap U256)
  pub weth_based : HashMap Bool
  pub aggregated_weth_rate : HashMap U256
  pub token_decimals : HashMap ℕ

abbrev pub empty_estimator : Estimator
empty_estimator = record {
  rates = [];
  weth_based = [];
  aggregated_weth_rate = [];
  token_decimals = [];
}

-- `unwrap_or(U256::ZERO)`
abbrev pub or_zero : Option U256 → U256
or_zero none = 0
or_zero (some v) = v

-- `amount * rate / RATE_SCALE_VALUE`, and zero where the product overflows.
unfoldable pub apply_rate : U256 → U256 → U256
apply_rate current rate = elim (checked_mul current rate) [
  | none ↦ 0
  | some v ↦ or_zero (checked_div v rate_scale_value)
]

unfoldable pub rate_of : Estimator → SwapStep → Option U256
rate_of e step = elim (lookup step.pool_address e.rates) [
  | none ↦ none
  | some pool_rates ↦ lookup step.token_in pool_rates
]

unfoldable pub estimate_steps : Estimator → U256 → List SwapStep → U256
estimate_steps e current [] = current
estimate_steps e current (step ∷ steps) = elim (rate_of e step) [
  | some rate ↦ estimate_steps e (apply_rate current rate) steps
  | none ↦ 0
]

unfoldable pub estimate_output_amount : Estimator → SwapPath → U256
estimate_output_amount e swap_path = estimate_steps e amount swap_path.steps

unfoldable pub profit_steps : Estimator → U256 → U256 → List SwapStep → Bool
profit_steps e min_profit_ratio cumulative_rate [] =
    ltb (wrapping_add rate_scale_value min_profit_ratio) cumulative_rate
profit_steps e min_profit_ratio cumulative_rate (pool ∷ steps) = elim (rate_of e pool) [
  | some rate ↦ profit_steps e min_profit_ratio (apply_rate cumulative_rate rate) steps
  | none ↦ false
]

unfoldable pub is_profitable : Estimator → SwapPath → U256 → Bool
is_profitable e swap_path min_profit_ratio =
    profit_steps e min_profit_ratio rate_scale_value swap_path.steps

-- The exponent is at most 237, and a `u64` power of ten above 19 wraps around.
unfoldable pub scale_to_rate : U256 → ℕ → Outcome U256
scale_to_rate amount token_decimals =
    if leb token_decimals rate_scale
    then ok (wrapping_mul amount (10 ^ (rate_scale - token_decimals) % 2 ^ 64))
    else (let scale = 10 ^ (token_decimals - rate_scale) % 2 ^ 64 in
        if scale == 0 then panic else ok (amount / scale))

unfoldable pub calculate_rate : U256 → U256 → ℕ → ℕ → Outcome U256
calculate_rate input output input_decimals output_decimals = do
  scaled_input ← scale_to_rate input input_decimals
  scaled_output ← scale_to_rate output output_decimals
  ok (elim (checked_mul scaled_output rate_scale_value) [
    | none ↦ 0
    | some v ↦ or_zero (checked_div v scaled_input)
  ])

abbrev pub decimals_of : Estimator → Address → ℕ
decimals_of e token = elim (lookup token e.token_decimals) [ none ↦ 18 | some d ↦ d ]

-- `rates.entry(pool).or_default().insert(token, rate)`
unfoldable pub store_rate : Address → Address → U256 → Estimator → Estimator
store_rate pool token rate e =
    let pool_rates : HashMap U256 = elim (lookup pool e.rates) [ none ↦ [] | some r ↦ r ] in
    record e { rates = insert pool (insert token rate pool_rates) e.rates }

-- What `process_pools` holds while it runs: the estimator, the tokens that were paired with WETH, and
-- how many pools each has.
pub record Progress : Type 0 where
  pub estimator : Estimator
  pub alt_tokens : List Address
  pub weth_alt_cnt : HashMap ℕ

-- `HashSet::insert`
abbrev pub add_token : Address → List Address → List Address
add_token token tokens = if contains token tokens then tokens else token ∷ tokens

-- The aggregate gets the rate stored under token0 where WETH is token0, the other one otherwise.
unfoldable pub aggregate :
    Address → Address → Address → U256 → U256 → Estimator → Progress → Progress
aggregate base alt token0 zero_one_rate one_zero_rate e s =
    let rate = if base == token0 then zero_one_rate else one_zero_rate in
    let old = or_zero (lookup alt e.aggregated_weth_rate) in
    let count : ℕ = elim (lookup alt s.weth_alt_cnt) [ none ↦ 0 | some n ↦ n ] in
    record {
      estimator = record e {
        aggregated_weth_rate = insert alt (wrapping_add old rate) e.aggregated_weth_rate;
      };
      alt_tokens = add_token alt s.alt_tokens;
      weth_alt_cnt = insert alt (suc count) s.weth_alt_cnt;
    }

-- Each aggregate of this run is divided by the number of its pools.
unfoldable pub average_rates : HashMap ℕ → List Address → HashMap U256 → HashMap U256
average_rates weth_alt_cnt [] aggregated = aggregated
average_rates weth_alt_cnt (token ∷ tokens) aggregated = elim (lookup token weth_alt_cnt) [
  | none ↦ average_rates weth_alt_cnt tokens aggregated
  | some count ↦ elim (lookup token aggregated) [
    | none ↦ average_rates weth_alt_cnt tokens aggregated
    | some rate ↦
        average_rates weth_alt_cnt tokens
          (insert token (or_zero (checked_div rate count)) aggregated)
  ]
]

-- `compute_pool_output` of the calculator.
module _ (compute_pool_output : Address → Address → PoolType → ℕ → U256 → Outcome U256) where
  abbrev pool_output : Pool → Address → U256 → Outcome U256
  pool_output pool token input =
      compute_pool_output pool.address token pool.pool_type pool.fee input

  unfoldable pub process_eth_pool : Pool → Address → U256 → Progress → Outcome Progress
  process_eth_pool pool weth input s =
      let e0 = s.estimator in
      let token0 = pool.token0_address in
      let token1 = pool.token1_address in
      let decimals =
        insert token1 pool.token1_decimals (insert token0 pool.token0_decimals e0.token_decimals) in
      let e1 : Estimator = record e0 { token_decimals = decimals } in
      let base = if token0 == weth then token0 else token1 in
      let alt = if token0 == weth then token1 else token0 in
      pool_output pool base input >>= λ alt_output.
      pool_output pool alt alt_output >>= λ other_output.
      calculate_rate input alt_output (decimals_of e1 base) (decimals_of e1 alt)
      >>= λ zero_one_rate.
          calculate_rate alt_output other_output (decimals_of e1 alt) (decimals_of e1 base)
          >>= λ one_zero_rate. ok (
              aggregate base alt token0 zero_one_rate one_zero_rate
                (store_rate pool.address token1 one_zero_rate
                  (store_rate pool.address token0 zero_one_rate e1))
                s)

  unfoldable pub process_nonweth_pool : Pool → Estimator → Outcome Estimator
  process_nonweth_pool pool e =
      let token0 = pool.token0_address in
      let token1 = pool.token1_address in
      elim (lookup token0 e.aggregated_weth_rate) [
        | none ↦ ok e
        | some input_rate ↦ pool_output pool token0 input_rate >>= λ output.
            pool_output pool token1 output >>= λ other_output.
            calculate_rate input_rate output (decimals_of e token0) (decimals_of e token1)
            >>= λ zero_one_rate.
                calculate_rate output other_output (decimals_of e token1) (decimals_of e token0)
                >>= λ one_zero_rate. ok (
                    store_rate pool.address token1 one_zero_rate
                      (store_rate pool.address token0 zero_one_rate e))
      ]

  abbrev has_weth : Address → Pool → Bool
  has_weth weth pool = (pool.token0_address == weth) || (pool.token1_address == weth)

  -- The first pass: the pools with WETH.
  unfoldable pub process_eth_pools : Address → List Pool → Progress → Outcome Progress
  process_eth_pools weth [] s = ok s
  process_eth_pools weth (pool ∷ pools) s = elim (has_weth weth pool) [
    | true ↦
        let e = s.estimator in
        let marked : Estimator = record e { weth_based = insert pool.address true e.weth_based } in
        process_eth_pool pool weth amount (record s { estimator = marked })
        >>= process_eth_pools weth pools
    | false ↦ process_eth_pools weth pools s
  ]

  -- The last pass: the pools without WETH.
  unfoldable pub process_nonweth_pools : Address → List Pool → Estimator → Outcome Estimator
  process_nonweth_pools weth [] e = ok e
  process_nonweth_pools weth (pool ∷ pools) e = elim (has_weth weth pool) [
    | true ↦ process_nonweth_pools weth pools e
    | false ↦ process_nonweth_pool pool e >>= process_nonweth_pools weth pools
  ]

  unfoldable pub process_pools : Address → List Pool → Estimator → Outcome Estimator
  process_pools weth pools e = do
    s ← process_eth_pools weth pools (record { estimator = e; alt_tokens = []; weth_alt_cnt = [] })
    let e1 = s.estimator
    let averaged = average_rates s.weth_alt_cnt s.alt_tokens e1.aggregated_weth_rate
    process_nonweth_pools weth pools (record e1 { aggregated_weth_rate = averaged })

  -- `get_pool` panics on a pool that is not tracked.
  unfoldable pub get_pools : BlockStateDb → List Address → Outcome (List Pool)
  get_pools db [] = ok []
  get_pools db (a ∷ addrs) = do pool ← get_pool db a; pools ← get_pools db addrs; ok (pool ∷ pools)

  unfoldable pub update_rates :
      Address → BlockStateDb → List Address → Estimator → Outcome Estimator
  update_rates weth db pool_addrs e = do pools ← get_pools db pool_addrs; process_pools weth pools e
