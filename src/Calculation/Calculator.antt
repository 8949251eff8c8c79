-- ===== src/Calculation/Calculator.antt =====
-- src/calculation/calculator.rs: the output of a swap and of a path, with the cache.
pub mod Coherence
use base_buster.Prelude.{
  ℕ, zero, suc, ◌≡◌, Bool, List, [], ◌∷◌, ◌++◌, Option, none, some, Outcome, ok, panic, expect_ok,
  ◌>>=◌, ◌==◌, ◌&&◌, if◌then◌else◌,
}
use base_buster.Pool.{
  Address, U256, PoolType, uniswap_v2, sushiswap_v2, pancakeswap_v2, baseswap_v2, swapbased_v2,
  alienbase_v2, dackieswap_v2, uniswap_v3, sushiswap_v3, pancakeswap_v3, baseswap_v3, swapbased_v3,
  alienbase_v3, dackieswap_v3, slipstream, aerodrome, maverick_v1, maverick_v2, balancer_v2,
  curve_two_crypto, curve_tri_crypto,
}
use base_buster.StateDb.Types.{BlockStateDb, Provider}
use base_buster.Swap.{SwapPath, SwapStep, amount}
use base_buster.Cache.{Cache, get, invalidate}
use base_buster.Calculation.UniswapV2.{uniswap_v2_out}

-- The swaps of the other families, from the amount, the pool, the input token and the fee.
module _ (uniswap_v3_out : U256 → Address → Address → ℕ → Outcome U256)
    (aerodrome_out : U256 → Address → Address → Outcome U256) (p : Provider)
    (db : BlockStateDb) where
  unfoldable pub compute_amount_out : U256 → Address → Address → PoolType → ℕ → Outcome U256
  compute_amount_out input pool token_in uniswap_v2 fee =
      uniswap_v2_out p db input pool token_in 9970
  compute_amount_out input pool token_in sushiswap_v2 fee =
      uniswap_v2_out p db input pool token_in 9970
  compute_amount_out input pool token_in swapbased_v2 fee =
      uniswap_v2_out p db input pool token_in 9970
  compute_amount_out input pool token_in pancakeswap_v2 fee =
      uniswap_v2_out p db input pool token_in 9975
  compute_amount_out input pool token_in baseswap_v2 fee =
      uniswap_v2_out p db input pool token_in 9975
  compute_amount_out input pool token_in dackieswap_v2 fee =
      uniswap_v2_out p db input pool token_in 9975
  compute_amount_out input pool token_in alienbase_v2 fee =
      uniswap_v2_out p db input pool token_in 9984
  compute_amount_out input pool token_in aerodrome fee = aerodrome_out input token_in pool
  compute_amount_out input pool token_in maverick_v1 fee = panic
  compute_amount_out input pool token_in maverick_v2 fee = panic
  compute_amount_out input pool token_in balancer_v2 fee = panic
  compute_amount_out input pool token_in curve_two_crypto fee = panic
  compute_amount_out input pool token_in curve_tri_crypto fee = panic
  compute_amount_out input pool token_in uniswap_v3 fee =
      expect_ok (uniswap_v3_out input pool token_in fee)
  compute_amount_out input pool token_in sushiswap_v3 fee =
      expect_ok (uniswap_v3_out input pool token_in fee)
  compute_amount_out input pool token_in baseswap_v3 fee =
      expect_ok (uniswap_v3_out input pool token_in fee)
  compute_amount_out input pool token_in slipstream fee =
      expect_ok (uniswap_v3_out input pool token_in fee)
  compute_amount_out input pool token_in pancakeswap_v3 fee =
      expect_ok (uniswap_v3_out input pool token_in fee)
  compute_amount_out input pool token_in alienbase_v3 fee =
      expect_ok (uniswap_v3_out input pool token_in fee)
  compute_amount_out input pool token_in swapbased_v3 fee =
      expect_ok (uniswap_v3_out input pool token_in fee)
  compute_amount_out input pool token_in dackieswap_v3 fee =
      expect_ok (uniswap_v3_out input pool token_in fee)

  unfoldable pub compute_pool_output : Address → Address → PoolType → ℕ → U256 → Outcome U256
  compute_pool_output pool_addr token_in protocol fee input =
      compute_amount_out input pool_addr token_in protocol fee

-- The interface that paths are calculated over: a swap's output, and `Cache::set`, which
-- src/cache.rs does not declare.
pub record Swaps : Type 0 where
  pub amount_out : U256 → Address → Address → PoolType → ℕ → Outcome U256
  pub set : Cache → U256 → Address → U256 → Cache
  pub get-set :
      (c : Cache) (a : U256) (p : Address) (v : U256) (b : U256) (q : Address)
      → get (set c a p v) b q ≡ (if (b == a) && (q == p) then some v else get c b q)

module _ (swaps : Swaps) where
  abbrev pub step_amount_out : U256 → SwapStep → Outcome U256
  step_amount_out input step =
      swaps.amount_out input step.pool_address step.token_in step.protocol step.fee

  -- One pass of the loop: the new cache and the amount.
  unfoldable pub cached_step : Cache → U256 → SwapStep → Outcome (Cache × U256)
  cached_step cache input step = elim (get cache input step.pool_address) [
    | some cached_amount ↦ ok (cache, cached_amount)
    | none ↦ step_amount_out input step >>= λ output_amount.
        ok (swaps.set cache input step.pool_address output_amount, output_amount)
  ]

  unfoldable pub calculate_steps : Cache → U256 → List SwapStep → Outcome (Cache × U256)
  calculate_steps cache input [] = ok (cache, input)
  calculate_steps cache input (step ∷ steps) = cached_step cache input step >>= λ (after, out).
      if out == 0 then ok (after, 0) else calculate_steps after out steps

  unfoldable pub calculate_output : Cache → SwapPath → Outcome (Cache × U256)
  calculate_output cache path = calculate_steps cache amount path.steps

  unfoldable pub debug_steps : List U256 → U256 → List SwapStep → Outcome (List U256)
  debug_steps path_calc input [] = ok path_calc
  debug_steps path_calc input (step ∷ steps) = step_amount_out input step >>= λ output_amount.
      debug_steps (path_calc ++ output_amount ∷ []) output_amount steps

  unfoldable pub debug_calculation : SwapPath → Outcome (List U256)
  debug_calculation path = debug_steps (amount ∷ []) amount path.steps

-- The pools of the set are invalidated one by one.
unfoldable pub invalidate_cache : Cache → List Address → Cache
invalidate_cache cache [] = cache
invalidate_cache cache (pool ∷ pools) = invalidate_cache (invalidate cache pool) pools
