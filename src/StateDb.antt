-- ===== src/StateDb.antt =====
-- state_db: the database of account and pool state behind the market state.
pub mod Types
pub mod New
pub mod Database
pub mod Slots
pub mod ReadThrough
pub mod Insertions
pub mod Commit
pub mod PutSlot
pub mod AddPool
pub mod V2
pub mod V3
