-- ===== src/MarketState/Insertions.antt =====
-- What the insertions of pools do to the tracked addresses and to the pools' descriptions.
use mathlib.Core.Path.{subst}
use base_buster.Prelude.{
  ◌≡◌, refl, ◌∙◌, List, [], ◌∷◌, ok, unwrap, expect_ok, >>=-eq-ok, ok-injective, lookup, insert,
}
use base_buster.Prelude.Int.{ℤ, pos, negsuc}
use base_buster.Pool.{Address, U256, Pool}
use base_buster.StateDb.Types.{BlockStateDb, Provider, Evm}
use base_buster.StateDb.Database.{basic_ref, add_pool, write_slot}
use base_buster.StateDb.PutSlot.{put_slot}
use base_buster.StateDb.V2.{insert_v2, insert_reserves, insert_token0, insert_token1}
use base_buster.StateDb.V3.{
  insert_v3, insert_slot0, insert_liquidity, insert_tick_spacing, insert_tick_liquidity_net,
  insert_tick_bitmap, insert_ticks, insert_bitmaps, to_u160,
}

-- Neither the tracked addresses nor the pools' descriptions change.
abbrev Same : BlockStateDb → BlockStateDb → Type 0
Same db db' = (db'.pools ≡ db.pools) × (db'.pool_info ≡ db.pool_info)

-- One pool is tracked in addition.
abbrev pub Tracks : Pool → BlockStateDb → BlockStateDb → Type 0
Tracks pool db db' =
    (db'.pools ≡ pool.address ∷ db.pools) × (db'.pool_info ≡ insert pool.address pool db.pool_info)

Tracks-Same : (pool : Pool) (a b c : BlockStateDb) → Tracks pool a b → Same b c → Tracks pool a c
Tracks-Same pool a b c (p, q) (p', q') = (p' ∙ p, q' ∙ q)

Same-trans : (a b c : BlockStateDb) → Same a b → Same b c → Same a c
Same-trans a b c (p, q) (p', q') = (p' ∙ p, q' ∙ q)

put_slot-Same :
    (db db' : BlockStateDb) (a : Address) (i v : U256) → put_slot db a i v ≡ ok db' → Same db db'
unfolding put_slot write_slot
put_slot-Same db db' a i v e =
    let (account, _, r) = >>=-eq-ok (unwrap (lookup a db.accounts)) _ e in
    subst (Same db) (ok-injective r) (refl, refl)

module _ (evm : Evm) (p : Provider) where
  add_pool-Tracks :
      (db db' : BlockStateDb) (pool : Pool) → add_pool evm p db pool ≡ ok db' → Tracks pool db db'
  unfolding add_pool
  add_pool-Tracks db db' pool e =
      let (fetched, _, r) = >>=-eq-ok (expect_ok (basic_ref evm p _ pool.address)) _ e in
      let (info, _, r2) = >>=-eq-ok (unwrap fetched) _ r in
      subst (Tracks pool db) (ok-injective r2) (refl, refl)

  pub insert_v2-Tracks :
      (db db' : BlockStateDb) (pool : Pool) → insert_v2 evm p db pool ≡ ok db' → Tracks pool db db'
  unfolding insert_v2 insert_reserves insert_token0 insert_token1
  insert_v2-Tracks db db' pool e =
      let (a, e1, r1) = >>=-eq-ok (add_pool evm p db pool) _ e in
      let (v2, _, r2) = >>=-eq-ok (unwrap pool.get_v2) _ r1 in
      let (b, e3, r3) = >>=-eq-ok (put_slot a pool.address 8 _) _ r2 in
      let (c, e4, r4) = >>=-eq-ok (put_slot b pool.address 6 pool.token0_address) _ r3 in
      Tracks-Same pool db a db' (add_pool-Tracks db a pool e1) (
        Same-trans a b db' (put_slot-Same a b _ _ _ e3)
          (Same-trans b c db' (put_slot-Same b c _ _ _ e4) (put_slot-Same c db' _ _ _ r4)))

  insert_ticks-Same :
      (db db' : BlockStateDb) (pool : Address) (ticks : List (ℤ × ℤ))
      → insert_ticks evm db pool ticks ≡ ok db'
      → Same db db'
  unfolding insert_ticks insert_tick_liquidity_net
  insert_ticks-Same db db' pool [] e = subst (Same db) (ok-injective e) (refl, refl)
  insert_ticks-Same db db' pool ((tick, net) ∷ ticks) e =
      let (a, e1, r) = >>=-eq-ok (insert_tick_liquidity_net evm db pool tick net) _ e in
      Same-trans db a db' (put_slot-Same db a _ _ _ e1) (insert_ticks-Same a db' pool ticks r)

  insert_bitmaps-Same :
      (db db' : BlockStateDb) (pool : Address) (words : List (ℤ × U256))
      → insert_bitmaps evm db pool words ≡ ok db'
      → Same db db'
  unfolding insert_bitmaps insert_tick_bitmap
  insert_bitmaps-Same db db' pool [] e = subst (Same db) (ok-injective e) (refl, refl)
  insert_bitmaps-Same db db' pool ((word_pos, bitmap) ∷ words) e =
      let (a, e1, r) = >>=-eq-ok (insert_tick_bitmap evm db pool word_pos bitmap) _ e in
      Same-trans db a db' (put_slot-Same db a _ _ _ e1) (insert_bitmaps-Same a db' pool words r)

  insert_tick_spacing-Same :
      (db db' : BlockStateDb) (pool : Address) (spacing : ℤ)
      → insert_tick_spacing db pool spacing ≡ ok db'
      → Same db db'
  unfolding insert_tick_spacing
  insert_tick_spacing-Same db db' pool (pos n) e = put_slot-Same db db' _ _ _ e
  insert_tick_spacing-Same db db' pool (negsuc n) e = cc

  pub insert_v3-Tracks :
      (db db' : BlockStateDb) (pool : Pool) → insert_v3 evm p db pool ≡ ok db' → Tracks pool db db'
  unfolding insert_v3 insert_slot0 insert_liquidity
  insert_v3-Tracks db db' pool e =
      let (a, e1, r1) = >>=-eq-ok (add_pool evm p db pool) _ e in
      let (v3, _, r2) = >>=-eq-ok (unwrap pool.get_v3) _ r1 in
      let (price, _, r3) = >>=-eq-ok (to_u160 v3.sqrt_price) _ r2 in
      let (b, e4, r4) = >>=-eq-ok (insert_slot0 a pool.address price v3.tick) _ r3 in
      let (c, e5, r5) = >>=-eq-ok (insert_liquidity b pool.address v3.liquidity) _ r4 in
      let (d, e6, r6) = >>=-eq-ok (insert_tick_spacing c pool.address v3.tick_spacing) _ r5 in
      let (f, e7, r7) = >>=-eq-ok (insert_ticks evm d pool.address v3.ticks) _ r6 in
      Tracks-Same pool db a db' (add_pool-Tracks db a pool e1) (
        Same-trans a b db' (put_slot-Same a b _ _ _ e4) (
          Same-trans b c db' (put_slot-Same b c _ _ _ e5) (
            Same-trans c d db' (insert_tick_spacing-Same c d _ _ e6) (
              Same-trans d f db' (insert_ticks-Same d f _ _ e7)
                (insert_bitmaps-Same f db' _ _ r7)))))
