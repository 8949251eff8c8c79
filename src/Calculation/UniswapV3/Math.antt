-- ===== src/Calculation/UniswapV3/Math.antt =====
-- What a swap relies on in the crate `uniswap_v3_math`.
use base_buster.Prelude.{ℕ, ◌+◌, ◌-◌, ◌^◌, ◌≤◌, ◌<◌, ◌≡◌, ◌⊎◌, Bool, true, false, List, ok}
use base_buster.Prelude.Words.{u256_mod}
use base_buster.Prelude.Int.{ℤ, pos, negsuc, ◌+ℤ◌, ◌≤ℤ◌}
use base_buster.Pool.{U256}
use base_buster.Calculation.UniswapV3.{UniswapMath}

-- What the crate documents: the constants, the side on which the next tick lies, and that a step
-- with an exact input never takes more than what remains and, short of its target, takes all.
pub record MathLaws (math : UniswapMath) : Type 0 where
  pub tick_bounds :
      (negsuc (2 ^ 23 - 1) ≤ℤ math.min_tick)
      × (math.min_tick ≤ℤ math.max_tick)
      × (math.max_tick ≤ℤ pos (2 ^ 23))
  pub ratio_bounds :
      (math.min_sqrt_ratio + 1 < u256_mod)
      × (0 < math.max_sqrt_ratio)
      × (math.max_sqrt_ratio < u256_mod)
  pub ratio_at_min : math.get_sqrt_ratio_at_tick math.min_tick ≡ ok math.min_sqrt_ratio
  pub ratio_at_max : math.get_sqrt_ratio_at_tick math.max_tick ≡ ok math.max_sqrt_ratio
  pub next_le :
      (words : List (ℤ × U256)) (tick : ℤ) (spacing : ℕ) (next : ℤ) (initialized : Bool)
      → math.next_initialized_tick_within_one_word words tick spacing true ≡ ok (next, initialized)
      → next ≤ℤ tick
  pub next_gt :
      (words : List (ℤ × U256)) (tick : ℤ) (spacing : ℕ) (next : ℤ) (initialized : Bool)
      → math.next_initialized_tick_within_one_word words tick spacing false ≡ ok (next, initialized)
      → tick +ℤ pos 1 ≤ℤ next
  pub step_takes :
      (price target liquidity remaining fee price' amount_in amount_out fee_amount : ℕ)
      → remaining < 2 ^ 255
      → fee < 1_000_000
      → math.compute_swap_step price target liquidity (pos remaining) fee
        ≡ ok (price', amount_in, amount_out, fee_amount)
      → (amount_in + fee_amount ≤ remaining)
        × ((price' ≡ target) ⊎ (amount_in + fee_amount ≡ remaining))
