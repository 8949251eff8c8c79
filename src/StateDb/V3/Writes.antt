-- ===== src/StateDb/V3/Writes.antt =====
-- The writes of `insert_v3` as one list of slots and values.
use base_buster.Prelude.{
  ◌≡◌, refl, ◌∙◌, ◌==◌, List, [], ◌∷◌, ◌++◌, map, some, if◌then◌else◌, lookup, Outcome, ok, ◌>>=◌,
  >>=-ext, >>=-assoc, sym, ◌*◌, ◌^◌, arith,
}
use base_buster.Prelude.Int.{ℤ}
use base_buster.Prelude.Words.{shl}
use base_buster.Prelude.Signed.{to_bits}
use base_buster.Pool.{Address, U256}
use base_buster.StateDb.Types.{BlockStateDbAccount, BlockStateDb, Evm}
use base_buster.StateDb.Database.{slot_at}
use base_buster.StateDb.PutSlot.{put_slot, put_slot-Wrote}
use base_buster.StateDb.Insertions.{last_entry, custom_or}
use base_buster.StateDb.V3.{
  hashed_slot, tick_word, insert_ticks, insert_bitmaps, insert_tick_liquidity_net,
  insert_tick_bitmap,
}

unfoldable pub put_slots : BlockStateDb → Address → List (U256 × U256) → Outcome BlockStateDb
put_slots db a [] = ok db
put_slots db a ((slot, v) ∷ changes) = do db' ← put_slot db a slot v; put_slots db' a changes

pub record WroteAll (db db' : BlockStateDb) (a : Address) (changes : List (U256 × U256))
    : Type 0 where
  pub account : BlockStateDbAccount
  pub known : lookup a db'.accounts ≡ some account
  pub slots :
      (b : Address) (j : U256)
      → slot_at db' b j
        ≡ (if b == a then custom_or (last_entry changes j) (slot_at db a j) else slot_at db b j)
  pub same_pools : db'.pools ≡ db.pools
  pub same_pool_info : db'.pool_info ≡ db.pool_info

pub put_slots-WroteAll :
    (db : BlockStateDb) (a : Address) (changes : List (U256 × U256)) (account : BlockStateDbAccount)
    → lookup a db.accounts ≡ some account
    → (db' : BlockStateDb) × (put_slots db a changes ≡ ok db') × WroteAll db db' a changes
unfolding put_slots
put_slots-WroteAll db a [] account known = (
  db,
  refl,
  record {
    account = account;
    known = known;
    slots = λ b j. unfold slot_at in ground arith;
    same_pools = refl;
    same_pool_info = refl;
  },
)
put_slots-WroteAll db a ((slot, v) ∷ changes) account known =
    let (db₁, e, w) = put_slot-Wrote db a slot v account known in
    let (db₂, e', ws) = put_slots-WroteAll db₁ a changes w.account w.known in
    (
      db₂,
      rw e e',
      record {
        account = ws.account;
        known = ws.known;
        slots = λ b j. ground (arith, ws.slots b j, w.slots b j, w.slots a j);
        same_pools = ws.same_pools ∙ w.same_pools;
        same_pool_info = ws.same_pool_info ∙ w.same_pool_info;
      },
    )

abbrev pub tick_change : Evm → ℤ × ℤ → U256 × U256
tick_change evm entry =
    (hashed_slot evm (tick_word entry.0) 5, shl (to_bits (2 * 2 ^ 127) entry.1) 128)

abbrev pub bitmap_change : Evm → ℤ × U256 → U256 × U256
bitmap_change evm entry = (hashed_slot evm (tick_word entry.0) 6, entry.1)

-- Appended writes run one after the other.
pub put_slots-append :
    (db : BlockStateDb) (a : Address) (xs ys : List (U256 × U256))
    → put_slots db a (xs ++ ys) ≡ (put_slots db a xs >>= λ db'. put_slots db' a ys)
unfolding put_slots
put_slots-append db a [] ys = refl
put_slots-append db a ((slot, v) ∷ xs) ys =
    >>=-ext (put_slot db a slot v) _ _ (λ db'. put_slots-append db' a xs ys)
    ∙ sym (>>=-assoc (put_slot db a slot v) _ _)

pub insert_ticks-put_slots :
    (evm : Evm) (db : BlockStateDb) (a : Address) (ticks : List (ℤ × ℤ))
    → insert_ticks evm db a ticks ≡ put_slots db a (map (tick_change evm) ticks)
unfolding insert_ticks insert_tick_liquidity_net put_slots
insert_ticks-put_slots evm db a [] = refl
insert_ticks-put_slots evm db a ((tick, net) ∷ ticks) =
    >>=-ext (insert_tick_liquidity_net evm db a tick net) _ _
      (λ db'. insert_ticks-put_slots evm db' a ticks)

pub insert_bitmaps-put_slots :
    (evm : Evm) (db : BlockStateDb) (a : Address) (words : List (ℤ × U256))
    → insert_bitmaps evm db a words ≡ put_slots db a (map (bitmap_change evm) words)
unfolding insert_bitmaps insert_tick_bitmap put_slots
insert_bitmaps-put_slots evm db a [] = refl
insert_bitmaps-put_slots evm db a ((tick, net) ∷ words) =
    >>=-ext (insert_tick_bitmap evm db a tick net) _ _
      (λ db'. insert_bitmaps-put_slots evm db' a words)
