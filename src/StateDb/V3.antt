-- ===== src/StateDb/V3.antt =====
-- src/state_db/v3_db.rs: Uniswap V3 pools in the database.
pub mod Writes
pub mod Word
pub mod Entries
pub mod RoundTrip
use Prim.Native.Nat.{bit_and, bit_or, min}
use base_buster.Prelude.{
  ℕ, ◌-◌, ◌*◌, ◌^◌, List, [], ◌∷◌, ltb, if◌then◌else◌, Bool, ◌==◌, Outcome, ok, err, panic, unwrap,
  ◌>>=◌, lookup, not,
}
use base_buster.Prelude.Words.{shl, shr}
use base_buster.Prelude.Int.{ℤ, pos, negsuc}
use base_buster.Prelude.Signed.{to_bits, of_bits}
use base_buster.Pool.{Address, U256, Pool}
use base_buster.StateDb.Types.{BlockStateDb, Provider, Evm}
use base_buster.StateDb.Database.{storage_ref, slot_at, add_pool}
use base_buster.StateDb.PutSlot.{put_slot}

-- The key of a mapping entry: keccak of the two 32-byte words. `I256::try_from(tick)` cannot fail.
abbrev pub hashed_slot : Evm → U256 → U256 → U256
hashed_slot evm item offset = evm.keccak256 (item ∷ offset ∷ [])

abbrev pub tick_word : ℤ → U256
tick_word tick = to_bits (2 * 2 ^ 255) tick

unfoldable pub insert_tick_bitmap : Evm → BlockStateDb → Address → ℤ → U256 → Outcome BlockStateDb
insert_tick_bitmap evm db pool tick bitmap =
    put_slot db pool (hashed_slot evm (tick_word tick) 6) bitmap

unfoldable pub insert_liquidity : BlockStateDb → Address → ℕ → Outcome BlockStateDb
insert_liquidity db pool liquidity = put_slot db pool 4 liquidity

unfoldable pub insert_tick_liquidity_net :
    Evm → BlockStateDb → Address → ℤ → ℤ → Outcome BlockStateDb
insert_tick_liquidity_net evm db pool tick liquidity_net =
    put_slot db pool (hashed_slot evm (tick_word tick) 5)
      (shl (to_bits (2 * 2 ^ 127) liquidity_net) 128)

abbrev pub bits24_mask : U256
bits24_mask = 2 ^ 24 - 1

-- `|` chain of `insert_slot0`; the four zero fields are shifted zeros.
unfoldable pub slot0_word : U256 → ℤ → U256
slot0_word sqrt_price tick =
    bit_or
      (bit_or
        (bit_or
          (bit_or
            (bit_or (bit_or sqrt_price (shl (bit_and (to_bits (2 * 2 ^ 31) tick) bits24_mask) 160))
              (shl 0 184))
            (shl 0 200))
          (shl 0 216))
        (shl (bit_and 0 (2 ^ 8 - 1)) 232))
      (shl 1 240)

unfoldable pub insert_slot0 : BlockStateDb → Address → U256 → ℤ → Outcome BlockStateDb
insert_slot0 db pool sqrt_price tick = put_slot db pool 0 (slot0_word sqrt_price tick)

-- `U256::from` of a negative `i32` panics.
unfoldable pub insert_tick_spacing : BlockStateDb → Address → ℤ → Outcome BlockStateDb
insert_tick_spacing db pool (pos n) = put_slot db pool 14 n
insert_tick_spacing db pool (negsuc n) = panic

-- The two loops of `insert_v3`.
unfoldable pub insert_ticks : Evm → BlockStateDb → Address → List (ℤ × ℤ) → Outcome BlockStateDb
insert_ticks evm db pool [] = ok db
insert_ticks evm db pool ((tick, net) ∷ ticks) = do
  db' ← insert_tick_liquidity_net evm db pool tick net
  insert_ticks evm db' pool ticks

unfoldable pub insert_bitmaps :
    Evm → BlockStateDb → Address → List (ℤ × U256) → Outcome BlockStateDb
insert_bitmaps evm db pool [] = ok db
insert_bitmaps evm db pool ((word_pos, bitmap) ∷ words) = do
  db' ← insert_tick_bitmap evm db pool word_pos bitmap
  insert_bitmaps evm db' pool words

-- `U160::from` of a word that does not fit panics.
unfoldable pub to_u160 : U256 → Outcome U256
to_u160 w = if ltb w (2 ^ 160) then ok w else panic

unfoldable pub insert_v3 : Evm → Provider → BlockStateDb → Pool → Outcome BlockStateDb
insert_v3 evm p db pool = do
  db₁ ← add_pool evm p db pool
  v3_pool ← unwrap pool.get_v3
  sqrt_price ← to_u160 v3_pool.sqrt_price
  db₂ ← insert_slot0 db₁ pool.address sqrt_price v3_pool.tick
  db₃ ← insert_liquidity db₂ pool.address v3_pool.liquidity
  db₄ ← insert_tick_spacing db₃ pool.address v3_pool.tick_spacing
  db₅ ← insert_ticks evm db₄ pool.address v3_pool.ticks
  insert_bitmaps evm db₅ pool.address v3_pool.tick_bitmap

-- `self.accounts.get(…).unwrap().storage.get(…).unwrap().value`
abbrev pub stored_value : BlockStateDb → Address → U256 → Outcome U256
stored_value db address slot = do found ← unwrap (slot_at db address slot); ok found.value

unfoldable pub tick_spacing : BlockStateDb → Address → Outcome ℕ
tick_spacing db address = do word ← stored_value db address 14; ok (min word (2 ^ 31 - 1))

pub record Slot0 : Type 0 where
  pub sqrt_price_x96 : U256
  pub tick : ℤ
  pub observation_index : ℕ
  pub observation_cardinality : ℕ
  pub observation_cardinality_next : ℕ
  pub fee_protocol : ℕ
  pub unlocked : Bool

-- The fields cut out of the word. A 24-bit value always fits the narrower types.
unfoldable pub slot0_fields : U256 → Slot0
slot0_fields cell = record {
  sqrt_price_x96 = bit_and cell (2 ^ 160 - 1);
  tick = of_bits (2 ^ 23) (bit_and (shr cell 160) bits24_mask);
  observation_index = bit_and (shr cell 184) (2 ^ 16 - 1);
  observation_cardinality = bit_and (shr cell 200) (2 ^ 16 - 1);
  observation_cardinality_next = bit_and (shr cell 216) (2 ^ 16 - 1);
  fee_protocol = bit_and (shr cell 232) (2 ^ 8 - 1);
  unlocked = not (bit_and (shr cell 240) (2 ^ 1 - 1) == 0);
}

unfoldable pub slot0 : BlockStateDb → Address → Outcome Slot0
slot0 db address = do cell ← stored_value db address 0; ok (slot0_fields cell)

unfoldable pub liquidity : BlockStateDb → Address → Outcome ℕ
liquidity db address = do cell ← stored_value db address 4; ok (min cell (2 ^ 128 - 1))

unfoldable pub read_hashed_slot :
    Evm → Provider → BlockStateDb → Address → U256 → U256 → Outcome U256
read_hashed_slot evm p db account offset item =
    storage_ref p db account (hashed_slot evm item offset)

unfoldable pub ticks_liquidity_net : Evm → Provider → BlockStateDb → Address → ℤ → Outcome ℤ
ticks_liquidity_net evm p db address tick = do
  cell ← read_hashed_slot evm p db address 5 (tick_word tick)
  ok (of_bits (2 ^ 127) (shr cell 128))

unfoldable pub tick_bitmap : Evm → Provider → BlockStateDb → Address → ℤ → Outcome U256
tick_bitmap evm p db address tick = read_hashed_slot evm p db address 6 (tick_word tick)
