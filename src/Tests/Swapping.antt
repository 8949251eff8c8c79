-- ===== src/Tests/Swapping.antt =====
-- Uniswap V3 swaps on a small price grid.
use base_buster.Prelude.{
  ℕ, ◌+◌, ◌-◌, ◌^◌, ◌<◌, ◌≤◌, ◌≡◌, ◌≢◌, ◌⊎◌, refl, Bool, true, false, List, [], ◌∷◌, some, Outcome,
  ok, err, library, leb, if◌then◌else◌, arith, In,
}
use base_buster.Prelude.Int.{ℤ, pos, negsuc, ◌+ℤ◌, ◌-ℤ◌}
use base_buster.Pool.{U256}
use base_buster.Calculation.UniswapV3.{
  UniswapMath, position, window, div_trunc, shr_8, cross_tick, uniswap_v3_out, swap_start,
  swap_result, swap_loop, swap_pass, swap_done, move_tick, next_tick, read_bitmaps, range_inclusive,
  range_from, swap_target, clamp, rem_256,
}
use base_buster.Prelude.Words.{wrapping_add, wrapping_sub}
use base_buster.Prelude.Signed.{to_bits, of_bits}
use base_buster.Prelude.Maps.{lookup}
use base_buster.StateDb.Types.{BlockStateDb, BlockStateDbSlot, custom, untouched}
use base_buster.StateDb.Database.{zero_to_one, storage_ref, slot_at}
use base_buster.StateDb.V3.{
  slot0, slot0_fields, liquidity, tick_spacing, tick_bitmap, read_hashed_slot,
}
use base_buster.Calculation.UniswapV3.Position.{floor_div, window_covers}
use base_buster.Calculation.UniswapV3.Crossing.{cross_tick-exact, as_liquidity}
use base_buster.Calculation.UniswapV3.Math.{MathLaws}
use base_buster.Calculation.UniswapV3.Total.{uniswap_v3_out_total}
use base_buster.Tests.Data.{test_evm, node, empty_db, no_info, test_pool}

divided : div_trunc (negsuc 2560) 10 ≡ ok (negsuc 255)
unfolding div_trunc ◌-ℤ◌
divided = refl

-- The tick -2561 with the spacing 10: the quotient is -256 here and -257 rounded down.
window_covers_example :
    In (shr_8 (floor_div (negsuc 2560) 10)) (window (position (negsuc 255)).0)
    × In (shr_8 (floor_div (negsuc 2560) 10 +ℤ pos 1)) (window (position (negsuc 255)).0)
window_covers_example = window_covers (negsuc 2560) 9 (negsuc 255) (omega arith) divided

not_least : negsuc 29 ≢ negsuc (2 ^ 127 - 1)
not_least = ground arith

cross_tick-exact_example : cross_tick true 50 (negsuc 29) ≡ as_liquidity (pos 50 -ℤ negsuc 29)
cross_tick-exact_example =
    cross_tick-exact true 50 (negsuc 29) (omega arith) (omega arith) not_least

-- One price per tick from 98 to 102, and 10 units of input to cross one.
abbrev grid_price : ℤ → Outcome U256
grid_price (pos n) = ok (100 + n)
grid_price (negsuc n) = ok (99 - n)

abbrev grid_next : List (ℤ × U256) → ℤ → ℕ → Bool → Outcome (ℤ × Bool)
grid_next words tick spacing true = ok (tick, false)
grid_next words tick spacing false = ok (tick +ℤ pos 1, false)

abbrev grid_step : U256 → U256 → ℕ → ℤ → ℕ → Outcome (U256 × U256 × U256 × U256)
grid_step price target liquidity (negsuc n) fee = err library
grid_step price target liquidity (pos r) fee =
    if leb 10 r then ok (target, 10, 9, 0) else ok (price, r, 0, 0)

abbrev grid : UniswapMath
grid = record {
  min_tick = negsuc 1;
  max_tick = pos 2;
  min_sqrt_ratio = 98;
  max_sqrt_ratio = 102;
  next_initialized_tick_within_one_word = grid_next;
  get_sqrt_ratio_at_tick = grid_price;
  get_tick_at_sqrt_ratio = λ price. ok (pos 0);
  compute_swap_step = grid_step;
}

takes :
    (price target liquidity remaining fee price' amount_in amount_out fee_amount : ℕ)
    → remaining < 2 ^ 255
    → fee < 1_000_000
    → grid_step price target liquidity (pos remaining) fee
      ≡ ok (price', amount_in, amount_out, fee_amount)
    → (amount_in + fee_amount ≤ remaining)
      × ((price' ≡ target) ⊎ (amount_in + fee_amount ≡ remaining))
takes price target liquidity remaining fee price' amount_in amount_out fee_amount small fair h =
    ground arith

grid_laws : MathLaws grid
grid_laws = record {
  tick_bounds = (omega arith, omega arith, omega arith);
  ratio_bounds = (omega arith, omega arith, omega arith);
  ratio_at_min = refl;
  ratio_at_max = refl;
  next_le = λ words tick spacing next initialized h. ground arith;
  next_gt = λ words tick spacing next initialized h. ground arith;
  step_takes = takes;
}

abbrev slot : ℕ → BlockStateDbSlot
slot v = record { value = v; insertion_type = custom }

-- Price 100, tick 0, liquidity 77 and spacing 1.
abbrev v3_db : BlockStateDb
v3_db = record empty_db {
  accounts =
      (
        1,
        record {
          info = no_info;
          state = untouched;
          storage = (0, slot 100) ∷ (4, slot 77) ∷ (14, slot 1) ∷ [];
          insertion_type = custom;
        },
      )
      ∷ [];
  pools = 1 ∷ [];
  pool_info = (1, test_pool) ∷ [];
}

-- Two steps down, to the price limit 99.
swapped : uniswap_v3_out grid test_evm node v3_db 1 (2 ^ 24 + 2) 25 10 500 ≡ some (ok 18)
unfolding uniswap_v3_out swap_start swap_result swap_loop swap_pass swap_done move_tick next_tick
    read_bitmaps window range_inclusive range_from swap_target clamp position shr_8 rem_256
    div_trunc zero_to_one slot0 slot0_fields liquidity tick_spacing tick_bitmap read_hashed_slot
    storage_ref slot_at lookup wrapping_add wrapping_sub to_bits of_bits ◌+ℤ◌ ◌-ℤ◌
swapped = refl

uniswap_v3_out_total_example :
    (out : Outcome U256) × (uniswap_v3_out grid test_evm node v3_db 1 (2 ^ 24 + 2) 25 10 500
      ≡ some out)
    × (uniswap_v3_out grid test_evm node v3_db 1 20_000_000 25 10 500 ≡ some out)
uniswap_v3_out_total_example =
    uniswap_v3_out_total grid grid_laws test_evm node v3_db 1 20_000_000 25 10 500 (omega arith)
      (omega arith) (omega arith)
