-- ===== src/Calculation/UniswapV3.antt =====
-- src/calculation/uniswap.rs: the output of a Uniswap V3 swap, as the loop over initialized ticks.
pub mod Position
pub mod Crossing
pub mod Math
pub mod Ticks
pub mod Progress
pub mod Total
use base_buster.Prelude.{
  ℕ, zero, suc, ◌+◌, ◌-◌, ◌*◌, ◌/◌, ◌%◌, ◌^◌, Bool, true, false, ◌||◌, ◌&&◌, List, [], ◌∷◌, Option,
  none, some, Outcome, ok, err, panic, insufficient_liquidity, liquidity_overflow, unwrap, ◌>>=◌,
  ◌==◌, ltb, if◌then◌else◌,
}
use base_buster.Prelude.Words.{u256_mod, wrapping_add, wrapping_sub, checked_sub, checked_add}
use base_buster.Prelude.Int.{ℤ, pos, negsuc, ◌+ℤ◌, ◌-ℤ◌, ltb_ℤ, pos_part, is_zero}
use base_buster.Prelude.Signed.{to_bits, of_bits}
use base_buster.Prelude.I256.{i256_from_raw, i256_into_raw, i256_sub}
use base_buster.Pool.{Address, U256}
use base_buster.StateDb.Types.{BlockStateDb, Provider, Evm}
use base_buster.StateDb.Database.{zero_to_one}
use base_buster.StateDb.V3.{slot0, liquidity, tick_spacing, ticks_liquidity_net, tick_bitmap}

-- The crate `uniswap_v3_math`, with its constants.
pub record UniswapMath : Type 0 where
  pub min_tick : ℤ
  pub max_tick : ℤ
  pub min_sqrt_ratio : U256
  pub max_sqrt_ratio : U256
  pub next_initialized_tick_within_one_word : List (ℤ × U256) → ℤ → ℕ → Bool → Outcome (ℤ × Bool)
  pub get_sqrt_ratio_at_tick : ℤ → Outcome U256
  pub get_tick_at_sqrt_ratio : U256 → Outcome ℤ
  -- price, target, liquidity, remaining and fee to the price, input, output and fee of a step
  pub compute_swap_step : U256 → U256 → ℕ → ℤ → ℕ → Outcome (U256 × U256 × U256 × U256)

-- `i128` and `i16` arithmetic that wraps.
abbrev pub as_u128 : ℤ → ℕ
as_u128 z = to_bits (2 * 2 ^ 127) z

abbrev pub i128_neg : ℤ → ℤ
i128_neg z = of_bits (2 ^ 127) (as_u128 (pos 0 -ℤ z))

abbrev pub as_i16 : ℤ → ℤ
as_i16 z = of_bits (2 ^ 15) (to_bits (2 * 2 ^ 15) z)

-- `>>` on `i32` rounds down; `%` and `/` round to 0.
unfoldable pub shr_8 : ℤ → ℤ
shr_8 (pos n) = pos (n / 256)
shr_8 (negsuc n) = negsuc (n / 256)

unfoldable pub rem_256 : ℤ → ℤ
rem_256 (pos n) = pos (n % 256)
rem_256 (negsuc n) = pos 0 -ℤ pos (suc n % 256)

unfoldable pub div_trunc : ℤ → ℕ → Outcome ℤ
div_trunc t zero = panic
div_trunc (pos n) (suc d) = ok (pos (n / suc d))
div_trunc (negsuc n) (suc d) = ok (pos 0 -ℤ pos (suc n / suc d))

unfoldable pub position : ℤ → ℤ × ℕ
position tick = (as_i16 (shr_8 tick), to_bits 256 (rem_256 tick))

-- `from..=to`
unfoldable pub range_from : ℤ → ℕ → List ℤ
range_from i zero = []
range_from i (suc n) = i ∷ range_from (i +ℤ pos 1) n

unfoldable pub range_inclusive : ℤ → ℤ → List ℤ
range_inclusive from to = range_from from (pos_part (to +ℤ pos 1 -ℤ from))

pub record CurrentState : Type 0 where
  pub amount_specified_remaining : ℤ
  pub amount_calculated : ℤ
  pub sqrt_price_x_96 : U256
  pub tick : ℤ
  pub liquidity : ℕ

-- `tick.clamp(min, max)`
unfoldable pub clamp : ℤ → ℤ → ℤ → ℤ
clamp min max t = if ltb_ℤ t min then min else (if ltb_ℤ max t then max else t)

-- The liquidity past an initialized tick.
unfoldable pub add_liquidity : ℕ → ℤ → Outcome ℕ
add_liquidity liquidity net =
    if ltb_ℤ net (pos 0)
    then (elim (checked_sub liquidity (as_u128 (i128_neg net))) [
      | some l ↦ ok l
      | none ↦ err insufficient_liquidity
    ])
    else (elim (checked_add (2 ^ 128) liquidity (as_u128 net)) [
      | some l ↦ ok l
      | none ↦ err liquidity_overflow
    ])

unfoldable pub cross_tick : Bool → ℕ → ℤ → Outcome ℕ
cross_tick zero_to_one liquidity net =
    add_liquidity liquidity (if zero_to_one then i128_neg net else net)

unfoldable pub swap_target : Bool → U256 → U256 → U256
swap_target zero_to_one limit next =
    if zero_to_one
    then (if ltb next limit then limit else next)
    else (if ltb limit next then limit else next)

unfoldable pub window : ℤ → List ℤ
window word_pos = range_inclusive (as_i16 (word_pos -ℤ pos 1)) (as_i16 (word_pos +ℤ pos 1))

abbrev pub sqrt_price_limit : UniswapMath → Bool → U256
sqrt_price_limit math zero_to_one =
    if zero_to_one then wrapping_add math.min_sqrt_ratio 1 else wrapping_sub math.max_sqrt_ratio 1

-- The negated condition of the loop.
unfoldable pub swap_done : UniswapMath → Bool → CurrentState → Bool
swap_done math zero_to_one s =
    is_zero s.amount_specified_remaining || (s.sqrt_price_x_96 == sqrt_price_limit math zero_to_one)

abbrev pub initial_state : U256 → U256 → ℤ → ℕ → CurrentState
initial_state amount_in sqrt_price tick liquidity = record {
  amount_specified_remaining = i256_from_raw amount_in;
  amount_calculated = pos 0;
  sqrt_price_x_96 = sqrt_price;
  tick = tick;
  liquidity = liquidity;
}

abbrev pub amount_received : CurrentState → U256
amount_received s = i256_into_raw (i256_sub (pos 0) s.amount_calculated)

unfoldable pub swap_result : Option (Outcome CurrentState) → Option (Outcome U256)
swap_result none = none
swap_result (some run) = some (run >>= λ s. ok (amount_received s))

module _ (math : UniswapMath) (evm : Evm) (p : Provider) (db : BlockStateDb) (pool : Address) where
  -- `db_read.tick_bitmap(…).unwrap_or_default()` for the words of a window.
  unfoldable pub read_bitmaps : List ℤ → Outcome (List (ℤ × U256))
  read_bitmaps [] = ok []
  read_bitmaps (i ∷ words) = do
    word ← elim (tick_bitmap evm p db pool i) [ ok w ↦ ok w | err e ↦ ok 0 | panic ↦ panic ]
    rest ← read_bitmaps words
    ok ((i, word) ∷ rest)

  -- `tick_next`, clamped, and `initialized`
  unfoldable pub next_tick : ℕ → Bool → ℤ → Outcome (ℤ × Bool)
  next_tick spacing zero_to_one tick = do
    compressed ← div_trunc tick spacing
    bitmaps ← read_bitmaps (window (position compressed).0)
    (next, initialized) ←
        math.next_initialized_tick_within_one_word bitmaps tick spacing zero_to_one
    ok (clamp math.min_tick math.max_tick next, initialized)

  -- Tick and liquidity after a step from `s` to `price` towards `next` at `next_price`.
  unfoldable pub move_tick : Bool → CurrentState → ℤ → Bool → U256 → U256 → Outcome (ℤ × ℕ)
  move_tick zero_to_one s next initialized next_price price = elim (price == next_price) [
    | true ↦
        (if initialized
          then (ticks_liquidity_net evm p db pool next >>= cross_tick zero_to_one s.liquidity)
          else ok s.liquidity)
        >>= λ l. ok (if zero_to_one then next -ℤ pos 1 else next, l)
    | false ↦
        if price == s.sqrt_price_x_96
        then ok (s.tick, s.liquidity)
        else (math.get_tick_at_sqrt_ratio price >>= λ t. ok (t, s.liquidity))
  ]

  -- The body of the loop.
  unfoldable pub swap_pass : ℕ → Bool → ℕ → CurrentState → Outcome CurrentState
  swap_pass spacing zero_to_one fee s = do
    (next, initialized) ← next_tick spacing zero_to_one s.tick
    next_price ← math.get_sqrt_ratio_at_tick next
    (price, amount_in, amount_out, fee_amount) ←
        math.compute_swap_step s.sqrt_price_x_96
          (swap_target zero_to_one (sqrt_price_limit math zero_to_one) next_price) s.liquidity
          s.amount_specified_remaining fee
    (tick, liquidity) ← move_tick zero_to_one s next initialized next_price price
    ok (record {
      amount_specified_remaining =
          i256_sub s.amount_specified_remaining (i256_from_raw (wrapping_add amount_in fee_amount));
      amount_calculated = i256_sub s.amount_calculated (i256_from_raw amount_out);
      sqrt_price_x_96 = price;
      tick = tick;
      liquidity = liquidity;
    })

  -- The loop on fuel; `none` is a run that has not ended.
  unfoldable pub swap_loop : ℕ → ℕ → Bool → ℕ → CurrentState → Option (Outcome CurrentState)
  swap_loop zero spacing zero_to_one fee s = none
  swap_loop (suc fuel) spacing zero_to_one fee s = elim (swap_done math zero_to_one s) [
    | true ↦ some (ok s)
    | false ↦ elim (swap_pass spacing zero_to_one fee s) [
      | ok next ↦ swap_loop fuel spacing zero_to_one fee next
      | err e ↦ some (err e)
      | panic ↦ some panic
    ]
  ]

  -- Everything read before the loop: direction, first state, tick spacing.
  unfoldable pub swap_start : U256 → Address → Outcome (Bool × CurrentState × ℕ)
  swap_start amount_in token_in = do
    direction ← unwrap (zero_to_one db pool token_in)
    first ← slot0 db pool
    l ← liquidity db pool
    spacing ← tick_spacing db pool
    ok (direction, initial_state amount_in first.sqrt_price_x96 first.tick l, spacing)

  unfoldable pub uniswap_v3_out : ℕ → U256 → Address → ℕ → Option (Outcome U256)
  uniswap_v3_out fuel amount_in token_in fee =
      if amount_in == 0 then some (ok 0) else (elim (swap_start amount_in token_in) [
        | ok (direction, s, spacing) ↦ swap_result (swap_loop fuel spacing direction fee s)
        | err e ↦ some (err e)
        | panic ↦ some panic
      ])
