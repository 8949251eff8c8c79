-- ===== src/MarketState.antt =====
-- src/market_state.rs: filling the database with the pools, and following the blocks.
pub mod Blocks
pub mod Updates
pub mod Insertions
pub mod Refined
pub mod Tracked
pub mod WarmUp
use base_buster.Prelude.{
  ℕ, zero, suc, ◌-◌, Bool, true, false, List, [], ◌∷◌, ◌++◌, Option, none, some, Outcome, ok, ◌>>=◌,
  expect_ok, leb, ltb, if◌then◌else◌, contains,
}
use base_buster.Pool.{Address, U256, Pool}
use base_buster.StateDb.Types.{BlockStateDb, Provider, Evm}
use base_buster.StateDb.Database.{tracking_pool, update_all_slots}
use base_buster.StateDb.V2.{insert_v2}
use base_buster.StateDb.V3.{insert_v3}

unfoldable pub populate_db_with_pools :
    Evm → Provider → BlockStateDb → List Pool → Outcome BlockStateDb
populate_db_with_pools evm p db [] = ok db
populate_db_with_pools evm p db (pool ∷ pools) = do
  after ←
      (if pool.is_v2
        then insert_v2 evm p db pool
        else if pool.is_v3
        then expect_ok (insert_v3 evm p db pool)
        else ok db)
  populate_db_with_pools evm p after pools

-- The post state of a block: each changed account with its changed slots.
abbrev pub Updates : Type 0
Updates = List (Address × List (U256 × U256))

-- `HashSet::insert`
abbrev pub add_address : Address → List Address → List Address
add_address a addresses = if contains a addresses then addresses else a ∷ addresses

-- The loop of `update_state`: the database and the updated pools.
unfoldable pub update_pools : BlockStateDb → List Address → Updates → BlockStateDb × List Address
update_pools db updated_pools [] = (db, updated_pools)
update_pools db updated_pools ((address, storage) ∷ updates) = elim (tracking_pool db address) [
  | true ↦
      update_pools (update_all_slots db address storage) (add_address address updated_pools) updates
  | false ↦ update_pools db updated_pools updates
]

-- `trace` stands for `debug_trace_block`: the updates of a block.
module _ (trace : ℕ → Updates) where
  unfoldable pub update_state : BlockStateDb → ℕ → BlockStateDb × List Address
  update_state db block_num = update_pools db [] (trace block_num)

  -- The blocks from first on, count of them.
  unfoldable pub update_range : BlockStateDb → ℕ → ℕ → BlockStateDb
  update_range db first zero = db
  update_range db first (suc count) = update_range (update_state db first).0 (suc first) count

  -- The catch-up loop. `heads` are the answers of `get_block_number`, one per turn; the result is the
  -- database, the last block, and whether the loop ended within the answers.
  unfoldable pub catch_up : BlockStateDb → ℕ → ℕ → List ℕ → BlockStateDb × ℕ × Bool
  catch_up db last_synced current [] = (db, last_synced, leb current last_synced)
  catch_up db last_synced current (head ∷ heads) =
      let after = update_range db (suc last_synced) (current - last_synced) in
      let rest = catch_up after current head heads in
      if ltb last_synced current then rest else (db, last_synced, true)

  -- The stream of new blocks: the database, the last block, and the events sent, as the numbers of
  -- the blocks with their updated pools.
  unfoldable pub stream_blocks :
      BlockStateDb → ℕ → List ℕ → BlockStateDb × ℕ × List (ℕ × List Address)
  stream_blocks db last_synced [] = (db, last_synced, [])
  stream_blocks db last_synced (block_number ∷ blocks) = elim (leb block_number last_synced) [
    | true ↦ stream_blocks db last_synced blocks
    | false ↦
        let after = update_state db block_number in
        let (end, last, sent) = stream_blocks after.0 block_number blocks in
        (end, last, (block_number, after.1) ∷ sent)
  ]
