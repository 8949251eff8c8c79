-- ===== src/StateDb/V2/Laws.antt =====
-- A Uniswap V2 pool read back from the database.
use Prim.Native.Nat.{bit_and, bit_or}
use base_buster.Prelude.{
  ℕ, ◌+◌, ◌*◌, ◌/◌, ◌^◌, ◌<◌, ◌≡◌, ◌≢◌, refl, ap, ◌∷◌, ◌∙◌, insert, true, Option, none, some, ◌==◌,
  if◌then◌else◌, ok, arith, lookup-insert_self,
}
use base_buster.Prelude.Words.{shl, shr}
use base_buster.Prelude.Bits.{bit_or_packed, bit_and_mask}
use base_buster.Pool.{Address, U256, Pool, V2Pool}
use base_buster.StateDb.Types.{AccountInfo, BlockStateDbSlot, BlockStateDb, Provider, Evm}
use base_buster.StateDb.Database.{
  slot_at, basic_ref, storage_ref, custom_slot, tracking_pool, get_pool,
}
use base_buster.StateDb.Slots.{storage_ref_hit}
use base_buster.StateDb.PutSlot.{put_slot-Wrote}
use base_buster.StateDb.AddPool.{add_pool-Added}
use base_buster.StateDb.V2.{
  u112_mask, get_reserves, get_token0, get_token1, insert_reserves, insert_token0, insert_token1,
  insert_v2,
}

-- Two reserves that fit 112 bits come apart again.
packed-unpacked :
    (r0 r1 : U256)
    → r0 < 2 ^ 112
    → r1 < 2 ^ 112
    → (bit_and (shr (bit_or (shl r1 112) r0) 0) u112_mask ≡ r0)
      × (bit_and (shr (bit_or (shl r1 112) r0) 112) u112_mask ≡ r1)
packed-unpacked r0 r1 h0 h1 =
    let unpacked : (x : ℕ)
        → x ≡ r1 * 2 ^ 112 + r0
        → (bit_and (x / 1) u112_mask ≡ r0) × (bit_and (x / 2 ^ 112) u112_mask ≡ r1) =
      λ x e.
        (omega (arith, bit_and_mask 112 (x / 1)), omega (arith, bit_and_mask 112 (x / 2 ^ 112))) in
    let fits : shl r1 112 ≡ r1 * 2 ^ 112 = omega arith in
    rw fits (rw (bit_or_packed 112 r1 r0 h0) (unpacked (r1 * 2 ^ 112 + r0) refl))

module _ (q : Provider) (db : BlockStateDb) (a : Address) where
  get_reserves_lem :
      (value : U256) {r0 r1 : U256}
      → bit_and (shr value 0) u112_mask ≡ r0
      → bit_and (shr value 112) u112_mask ≡ r1
      → slot_at db a 8 ≡ some (custom_slot value)
      → get_reserves q db a ≡ ok (r0, r1)
  unfolding get_reserves
  get_reserves_lem value low high hit =
      rw (storage_ref_hit q db a 8 (custom_slot value) hit) (rw (low, high))

  get_token0_lem :
      {token : Address}
      → token < 2 ^ 160
      → slot_at db a 6 ≡ some (custom_slot token)
      → get_token0 q db a ≡ ok token
  unfolding get_token0
  get_token0_lem {token} fits hit =
      rw (storage_ref_hit q db a 6 (custom_slot token) hit) (ap ok (omega arith))

  get_token1_lem :
      {token : Address}
      → token < 2 ^ 160
      → slot_at db a 7 ≡ some (custom_slot token)
      → get_token1 q db a ≡ ok token
  unfolding get_token1
  get_token1_lem {token} fits hit =
      rw (storage_ref_hit q db a 7 (custom_slot token) hit) (ap ok (omega arith))

module _ (evm : Evm) (p : Provider) (db : BlockStateDb) (pool : Pool) (v2 : V2Pool)
    (info : AccountInfo) (fetched : basic_ref evm p db pool.address ≡ ok (some info))
    (is_v2 : pool.get_v2 ≡ some v2) where
  abbrev slots_after : Address → U256 → Option BlockStateDbSlot
  slots_after b j =
      if b == pool.address
      then (if j == 7
          then some (custom_slot pool.token1_address)
          else if j == 6
          then some (custom_slot pool.token0_address)
          else if j == 8
          then some (custom_slot (bit_or (shl v2.token1_reserves 112) v2.token0_reserves))
          else none)
      else slot_at db b j

  -- The insertion goes through, and these are the slots that it leaves.
  insert_v2-slots :
      (db' : BlockStateDb) × (insert_v2 evm p db pool ≡ ok db')
      × ((b : Address) (j : U256) → slot_at db' b j ≡ slots_after b j)
      × (db'.pools ≡ pool.address ∷ db.pools)
      × (db'.pool_info ≡ insert pool.address pool db.pool_info)
  unfolding insert_v2 insert_reserves insert_token0 insert_token1
  insert_v2-slots =
      let (db₁, e₁, a) = add_pool-Added evm p db pool info fetched in
      let (db₂, e₂, w₂) =
        put_slot-Wrote db₁ pool.address 8 (bit_or (shl v2.token1_reserves 112) v2.token0_reserves)
          a.account a.known in
      let (db₃, e₃, w₃) =
        put_slot-Wrote db₂ pool.address 6 pool.token0_address w₂.account w₂.known in
      let (db₄, e₄, w₄) =
        put_slot-Wrote db₃ pool.address 7 pool.token1_address w₃.account w₃.known in
      (
        db₄,
        simp (e₁, is_v2, e₂, e₃, e₄),
        λ b j. rw (w₄.slots b j, w₃.slots b j, w₂.slots b j, a.slots b j) (ground arith),
        w₄.same_pools ∙ w₃.same_pools ∙ w₂.same_pools ∙ a.pools,
        w₄.same_pool_info ∙ w₃.same_pool_info ∙ w₂.same_pool_info ∙ a.pool_info,
      )

  -- A V2 pool whose account is known or fetched, whose reserves fit 112 bits and whose tokens fit
  -- 160 is inserted, and its reserves and tokens read back unchanged, whatever the provider answers
  -- later.
  pub insert_v2-get :
      v2.token0_reserves < 2 ^ 112
      → v2.token1_reserves < 2 ^ 112
      → pool.token0_address < 2 ^ 160
      → pool.token1_address < 2 ^ 160
      → (db' : BlockStateDb) × (insert_v2 evm p db pool ≡ ok db')
        × ((q : Provider)
            → (get_reserves q db' pool.address ≡ ok (v2.token0_reserves, v2.token1_reserves))
              × (get_token0 q db' pool.address ≡ ok pool.token0_address)
              × (get_token1 q db' pool.address ≡ ok pool.token1_address))
  insert_v2-get h0 h1 t0 t1 =
      let (db', e, slots, _, _) = insert_v2-slots in
      let (low, high) = packed-unpacked v2.token0_reserves v2.token1_reserves h0 h1 in
      (
        db',
        e,
        λ q. (
          get_reserves_lem q db' pool.address _ low high (ground (arith, slots pool.address 8)),
          get_token0_lem q db' pool.address t0 (ground (arith, slots pool.address 6)),
          get_token1_lem q db' pool.address t1 (ground (arith, slots pool.address 7)),
        ),
      )

  -- Inserting a V2 pool whose account is known or fetched succeeds, tracks it, records it, and leaves
  -- the reads of every other account.
  insert_v2-frame :
      (db' : BlockStateDb) × (insert_v2 evm p db pool ≡ ok db')
      × (tracking_pool db' pool.address ≡ true)
      × (get_pool db' pool.address ≡ ok pool)
      × ((q : Provider) (b : Address) (j : U256)
          → b ≢ pool.address
          → storage_ref q db' b j ≡ storage_ref q db b j)
  unfolding tracking_pool get_pool storage_ref
  insert_v2-frame =
      let (db', e, slots, pools, infos) = insert_v2-slots in
      (
        db',
        e,
        rw pools (ground arith),
        rw infos (rw (lookup-insert_self pool.address pool db.pool_info)),
        λ q b j ne. ground (arith, slots b j),
      )
