-- ===== src/StateDb/V3/RoundTrip.antt =====
-- A Uniswap V3 pool read back from the database.
use mathlib.Core.Path.{subst}
use base_buster.Prelude.{
  ℕ, ◌*◌, ◌^◌, ◌≤◌, ◌<◌, ◌≡◌, ◌≢◌, ◌∙◌, ap, sym, true, List, ◌∷◌, ◌++◌, map, none, some, ◌==◌,
  if◌then◌else◌, All, All-imp, All-and, All-middle, Outcome, ok, ◌>>=◌, >>=-ext, arith, eq_self,
  lt→ltb,
}
use base_buster.Prelude.Int.{ℤ, pos}
use base_buster.Prelude.Words.{shl, shr}
use base_buster.Prelude.Signed.{to_bits, FitsSigned, of_bits-to_bits, to_bits-lt}
use base_buster.Pool.{Address, U256, Pool, V3Pool}
use base_buster.StateDb.Types.{AccountInfo, BlockStateDb, Provider, Evm}
use base_buster.StateDb.Database.{slot_at, basic_ref, custom_slot}
use base_buster.StateDb.Slots.{storage_ref_hit}
use base_buster.StateDb.Insertions.{last_entry, custom_or}
use base_buster.StateDb.AddPool.{add_pool-Added}
use base_buster.StateDb.PutSlot.{put_slot}
use base_buster.StateDb.V3.{
  insert_slot0, insert_liquidity, insert_tick_spacing, insert_ticks, insert_bitmaps, to_u160,
  insert_v3, slot0_fields, slot0, liquidity, tick_spacing, read_hashed_slot, ticks_liquidity_net,
  tick_bitmap,
}
use base_buster.StateDb.V3.Word.{slot0_fields-slot0_word}
use base_buster.StateDb.V3.Writes.{
  put_slots, put_slots-WroteAll, put_slots-append, tick_change, bitmap_change,
  insert_ticks-put_slots, insert_bitmaps-put_slots,
}
use base_buster.StateDb.V3.Entries.{
  NoCollision, FitsTypes, mapped, changes, mapped_low, tick_entry, word_entry,
}

-- The two loops of `insert_v3` are one list of writes.
loops-put_slots :
    (evm : Evm) (db : BlockStateDb) (a : Address) (v3 : V3Pool)
    → (insert_ticks evm db a v3.ticks >>= λ db'. insert_bitmaps evm db' a v3.tick_bitmap)
      ≡ put_slots db a (map (tick_change evm) v3.ticks ++ map (bitmap_change evm) v3.tick_bitmap)
loops-put_slots evm db a v3 =
    ap (λ (m : Outcome BlockStateDb). m >>= λ db'. insert_bitmaps evm db' a v3.tick_bitmap)
      (insert_ticks-put_slots evm db a v3.ticks)
    ∙ >>=-ext (put_slots db a (map (tick_change evm) v3.ticks)) _ _
        (λ db'. insert_bitmaps-put_slots evm db' a v3.tick_bitmap)
    ∙ sym (
        put_slots-append db a (map (tick_change evm) v3.ticks)
          (map (bitmap_change evm) v3.tick_bitmap))

-- The reads, given the slot that they find.
module _ (db : BlockStateDb) (a : Address) where
  slot0_found :
      (w : U256) → slot_at db a 0 ≡ some (custom_slot w) → slot0 db a ≡ ok (slot0_fields w)
  unfolding slot0
  slot0_found w hit = rw hit

  liquidity_found :
      (w : ℕ) → w < 2 ^ 128 → slot_at db a 4 ≡ some (custom_slot w) → liquidity db a ≡ ok w
  unfolding liquidity
  liquidity_found w small hit = rw hit (ap ok (omega arith))

  tick_spacing_found :
      (w : ℕ) → w < 2 ^ 31 → slot_at db a 14 ≡ some (custom_slot w) → tick_spacing db a ≡ ok w
  unfolding tick_spacing
  tick_spacing_found w small hit = rw hit (ap ok (omega arith))

  module _ (evm : Evm) (q : Provider) where
    ticks_liquidity_net_found :
        (t net : ℤ)
        → FitsSigned (2 ^ 127) net
        → slot_at db a (tick_change evm (t, net)).0
          ≡ some (custom_slot (tick_change evm (t, net)).1)
        → ticks_liquidity_net evm q db a t ≡ ok net
    unfolding ticks_liquidity_net read_hashed_slot
    ticks_liquidity_net_found t net small hit =
        let bits : ℕ = to_bits (2 * 2 ^ 127) net in
        let below : bits < 2 * 2 ^ 127 = to_bits-lt (2 * 2 ^ 127) net (omega arith) in
        let back : shr (shl bits 128) 128 ≡ bits = omega arith in
        rw (storage_ref_hit q db a _ (custom_slot (tick_change evm (t, net)).1) hit)
          (rw back (ap ok (of_bits-to_bits (2 ^ 127) net (omega arith) small)))

    tick_bitmap_found :
        (t : ℤ) (bitmap : U256)
        → slot_at db a (bitmap_change evm (t, bitmap)).0 ≡ some (custom_slot bitmap)
        → tick_bitmap evm q db a t ≡ ok bitmap
    unfolding tick_bitmap read_hashed_slot
    tick_bitmap_found t bitmap hit = storage_ref_hit q db a _ (custom_slot bitmap) hit

module _ (evm : Evm) (nc : NoCollision evm) (p : Provider) (db : BlockStateDb) (pool : Pool)
    (info : AccountInfo) (fetched : basic_ref evm p db pool.address ≡ ok (some info)) (v3 : V3Pool)
    (is_v3 : pool.get_v3 ≡ some v3) (spacing : ℕ) (fits : FitsTypes v3 spacing) where
  writes-put_slots :
      (db₁ : BlockStateDb)
      → (do
        db₂ ← insert_slot0 db₁ pool.address v3.sqrt_price v3.tick
        db₃ ← insert_liquidity db₂ pool.address v3.liquidity
        db₄ ← insert_tick_spacing db₃ pool.address (pos spacing)
        db₅ ← insert_ticks evm db₄ pool.address v3.ticks
        insert_bitmaps evm db₅ pool.address v3.tick_bitmap)
        ≡ put_slots db₁ pool.address (changes evm nc v3 spacing fits)
  unfolding put_slots insert_slot0 insert_liquidity insert_tick_spacing
  writes-put_slots db₁ = >>=-ext (put_slot db₁ pool.address 0 _) _ _ λ db₂.
      >>=-ext (put_slot db₂ pool.address 4 _) _ _ λ db₃.
        >>=-ext (put_slot db₃ pool.address 14 _) _ _ λ db₄. loops-put_slots evm db₄ pool.address v3

  insert_v3-slots :
      (db' : BlockStateDb) × (insert_v3 evm p db pool ≡ ok db')
      × ((b : Address) (j : U256)
          → slot_at db' b j ≡ (
              if b == pool.address
              then custom_or (last_entry (changes evm nc v3 spacing fits) j) none
              else slot_at db b j))
  unfolding insert_v3 to_u160
  insert_v3-slots =
      let (db₁, e₁, a) = add_pool-Added evm p db pool info fetched in
      let (db₂, e₂, w) =
        put_slots-WroteAll db₁ pool.address (changes evm nc v3 spacing fits) a.account a.known in
      (
        db₂,
        simp (e₁, is_v3, lt→ltb _ _ fits.sqrt_price, fits.spacing_is, writes-put_slots db₁) e₂,
        λ b j. ground (arith, w.slots b j, a.slots b j, a.slots pool.address j),
      )

  -- For a pool whose account is known or fetched and whose values fit their types, and a keccak
  -- without collisions on the entries: the insertion succeeds, the price, tick, liquidity and spacing
  -- read back, the pool is unlocked, and every entry of its tick and bitmap maps that no later entry
  -- of the same key replaces reads back, whatever the provider answers later.
  pub insert_v3-get :
      (db' : BlockStateDb) × (insert_v3 evm p db pool ≡ ok db')
      × (slot0 db' pool.address
          ≡ ok (record {
            sqrt_price_x96 = v3.sqrt_price;
            tick = v3.tick;
            observation_index = 0;
            observation_cardinality = 0;
            observation_cardinality_next = 0;
            fee_protocol = 0;
            unlocked = true;
          }))
      × (liquidity db' pool.address ≡ ok v3.liquidity)
      × (tick_spacing db' pool.address ≡ ok spacing)
      × ((q : Provider) (before : List (ℤ × ℤ)) (t net : ℤ) (after : List (ℤ × ℤ))
          → v3.ticks ≡ before ++ (t, net) ∷ after
          → All (λ y. t ≢ y.0) after
          → ticks_liquidity_net evm q db' pool.address t ≡ ok net)
      × ((q : Provider) (before : List (ℤ × U256)) (t : ℤ) (bitmap : U256) (after : List (ℤ × U256))
          → v3.tick_bitmap ≡ before ++ (t, bitmap) ∷ after
          → All (λ y. t ≢ y.0) after
          → tick_bitmap evm q db' pool.address t ≡ ok bitmap)
  insert_v3-get =
      let (db', e, slots) = insert_v3-slots in
      let hit : (j v : U256)
          → last_entry (changes evm nc v3 spacing fits) j ≡ some v
          → slot_at db' pool.address j ≡ some (custom_slot v) =
        λ j v entry. rw (slots pool.address j) (rw (eq_self pool.address) (rw entry)) in
      let low : (j : U256) → j ≤ 14 → last_entry (mapped evm nc v3 spacing fits) j ≡ none =
        mapped_low evm nc v3 spacing fits in
      (
        db',
        e,
        slot0_found db' pool.address _ (hit 0 _ (ground (arith, low 0 (omega arith))))
            ∙ ap ok (slot0_fields-slot0_word v3.sqrt_price v3.tick fits.sqrt_price fits.tick),
        liquidity_found db' pool.address v3.liquidity fits.liquidity
            (hit 4 _ (ground (arith, low 4 (omega arith)))),
        tick_spacing_found db' pool.address spacing fits.spacing_small
            (hit 14 _ (ground (arith, low 14 (omega arith)))),
        λ q before t net after split later.
            let (here, rest) =
              All-middle (λ e. FitsSigned (2 ^ 31) e.0 × FitsSigned (2 ^ 127) e.1) before (t, net)
                after
                (subst (All (λ e. FitsSigned (2 ^ 31) e.0 × FitsSigned (2 ^ 127) e.1)) split
                  fits.ticks) in
            ticks_liquidity_net_found db' pool.address evm q t net here.1 (
              hit _ _ (
                tick_entry evm nc v3 spacing fits before t net after split here.0 (
                  All-and (λ y. t ≢ y.0) (λ y. FitsSigned (2 ^ 31) y.0) after later
                    (All-imp after (λ y f. f.0) rest)))),
        λ q before t bitmap after split later.
            let (here, rest) =
              All-middle (λ e. FitsSigned (2 ^ 31) e.0) before (t, bitmap) after
                (subst (All (λ e. FitsSigned (2 ^ 31) e.0)) split fits.words) in
            tick_bitmap_found db' pool.address evm q t bitmap (
              hit _ _ (
                word_entry evm nc v3 spacing fits before t bitmap after split here
                  (All-and (λ y. t ≢ y.0) (λ y. FitsSigned (2 ^ 31) y.0) after later rest))),
      )
