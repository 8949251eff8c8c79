-- ===== src/Tests/Pricing.antt =====
-- Runs of the cache, the formulas and the rates.
use base_buster.Prelude.{
  ℕ, ◌+◌, ◌-◌, ◌*◌, ◌≤◌, ◌<◌, ◌≡◌, refl, ◌==◌, ◌&&◌, if◌then◌else◌, true, [], ◌∷◌, some, Outcome,
  ok, arith, inl,
}
use base_buster.Prelude.Maps.{lookup, insert}
use base_buster.Prelude.Words.{wrapping_add, wrapping_sub, wrapping_mul, checked_mul, checked_div}
use base_buster.Pool.{Address, U256, PoolType, uniswap_v2}
use base_buster.Swap.{SwapPath, SwapStep, amount}
use base_buster.Cache.{Cache, find_entry, get, invalidate}
use base_buster.Calculation.UniswapV2.{v2_amount_out}
use base_buster.Calculation.UniswapV2.Laws.{InRange, v2_amount_out-product}
use base_buster.Calculation.Aerodrome.{get_y, get_y_loop, get_y_pass, f, d, k, volatile_out}
use base_buster.Calculation.Aerodrome.Laws.{volatile_out-product}
use base_buster.Calculation.Calculator.{Swaps, step_amount_out, calculate_output, invalidate_cache}
use base_buster.Calculation.Calculator.Coherence.{
  Coherent, Agrees, path_output, calculate_output-Coherent, invalidate_cache-Coherent,
}
use base_buster.Estimator.{
  process_eth_pools, process_eth_pool, process_nonweth_pools, aggregate, average_rates,
  calculate_rate, scale_to_rate, store_rate, Estimator, process_pools, empty_estimator,
}
use base_buster.Estimator.Rated.{Rated, process_pools-Rated}
use base_buster.Tests.Data.{test_pool}

in_range : InRange 100 9970 1000 2000
in_range = record {
  amount_small = omega arith;
  fee_small = omega arith;
  in_small = omega arith;
  in_positive = omega arith;
  out_small = omega arith;
}

more-InRange : InRange (100 + 50) 9970 1000 2000
more-InRange = record {
  amount_small = omega arith;
  fee_small = omega arith;
  in_small = omega arith;
  in_positive = omega arith;
  out_small = omega arith;
}

v2_amount_out-product_example :
    (out : U256) × ((v2_amount_out 100 9970 1000 2000 ≡ ok out)
      × ((out < 2000) × (1000 * 2000 ≤ (1000 + 100) * (2000 - out))))
v2_amount_out-product_example = v2_amount_out-product 100 9970 1000 2000 in_range (omega arith)

out_100 : v2_amount_out 100 9970 1000 2000 ≡ ok 181
unfolding v2_amount_out wrapping_mul wrapping_add
out_100 = refl

out_150 : v2_amount_out (100 + 50) 9970 1000 2000 ≡ ok 260
unfolding v2_amount_out wrapping_mul wrapping_add
out_150 = refl

volatile_out-product_example :
    (out : U256) × ((volatile_out 100 1000 2000 ≡ ok out)
      × ((out ≤ 2000) × (1000 * 2000 ≤ (1000 + 100) * (2000 - out))))
volatile_out-product_example =
    volatile_out-product 100 1000 2000 (omega arith) (omega arith) (omega arith) (omega arith)

-- The iteration returns a value on whose right the solution lies.
get_y_low :
    get_y 152970000000000000 46782716365350217922 true 1_000_000 1_000_000 7140340000000000000
    ≡ ok 6736253523304806666
unfolding get_y get_y_loop get_y_pass f d k wrapping_add wrapping_sub wrapping_mul
get_y_low = refl

curve_above_low :
    (f 152970000000000000 6736253523304806666 < 46782716365350217922)
    × (46782716365350217922 < f 152970000000000000 6736253523304806667)
unfolding f wrapping_add wrapping_mul
curve_above_low = (omega arith, omega arith)

-- A cache with one entry: pool 7 gives 3 for 5.
abbrev one_entry : Cache
one_entry = (record { pool_address = 7; amount_in = 5 }, record { output_amount = 3 }) ∷ []

-- `set` puts its entry in front.
abbrev pub put_first : Cache → U256 → Address → U256 → Cache
put_first c a q v = (record { pool_address = q; amount_in = a }, record { output_amount = v }) ∷ c

pub get-put_first :
    (c : Cache) (a : U256) (p : Address) (v : U256) (b : U256) (q : Address)
    → get (put_first c a p v) b q ≡ (if (b == a) && (q == p) then some v else get c b q)
unfolding get find_entry
get-put_first c a p v b q = ground arith

abbrev pub fixed_swaps : U256 → Swaps
fixed_swaps n = record {
  amount_out = λ input pool token_in protocol fee. ok n;
  set = put_first;
  get-set = get-put_first;
}

abbrev pub step_at : Address → SwapStep
step_at pool = record {
  pool_address = pool;
  token_in = 10;
  token_out = 11;
  protocol = uniswap_v2;
  fee = 0;
}

abbrev pub one_path : SwapPath
one_path = record { steps = step_at 7 ∷ step_at 8 ∷ []; hash = 0 }

one_entry-Coherent : Coherent step_at (fixed_swaps 3) one_entry
unfolding get find_entry
one_entry-Coherent a q v h = ground arith

calculate_output-Coherent_example :
    Agrees step_at
      (fixed_swaps 3)
      (calculate_output (fixed_swaps 3) one_entry one_path)
      (path_output (fixed_swaps 3) amount one_path.steps)
calculate_output-Coherent_example =
    calculate_output-Coherent step_at (fixed_swaps 3) one_entry one_path one_entry-Coherent
      (refl, (refl, tt))

invalidate_cache-Coherent_example : step_amount_out (fixed_swaps 3) 5 (step_at 7) ≡ ok 3
unfolding get find_entry invalidate_cache invalidate
invalidate_cache-Coherent_example =
    invalidate_cache-Coherent step_at (fixed_swaps 3) (fixed_swaps 3) one_entry (8 ∷ [])
      one_entry-Coherent (λ a q h. refl) 5 7 3 refl

-- Every swap of one pool with WETH, token 10, gives 5.
abbrev fives : Address → Address → PoolType → ℕ → U256 → Outcome U256
fives pool token_in protocol fee input = ok 5

abbrev after_pools : Estimator
after_pools = record {
  rates = (1, (10, 5000) ∷ (11, 1_000_000_000_000_000_000) ∷ []) ∷ [];
  weth_based = (1, true) ∷ [];
  aggregated_weth_rate = (11, 5000) ∷ [];
  token_decimals = (10, 18) ∷ (11, 18) ∷ [];
}

processed : process_pools fives 10 (test_pool ∷ []) empty_estimator ≡ ok after_pools
unfolding process_pools process_eth_pools process_eth_pool process_nonweth_pools aggregate
    average_rates calculate_rate scale_to_rate store_rate lookup insert wrapping_add wrapping_mul
    checked_mul checked_div
processed = refl

process_pools-Rated_example : Rated test_pool after_pools
process_pools-Rated_example =
    process_pools-Rated fives 10 (test_pool ∷ []) empty_estimator after_pools processed test_pool
      (inl refl) refl
