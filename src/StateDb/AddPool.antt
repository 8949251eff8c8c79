-- ===== src/StateDb/AddPool.antt =====
-- `add_pool` of src/state_db/blockstate_db.rs.
use base_buster.Prelude.{
  ◌≡◌, refl, none, some, ◌==◌, if◌then◌else◌, lookup, insert, lookup-insert_self, lookup-insert,
  lookup-nil, ok, arith, ◌∷◌,
}
use base_buster.Pool.{Address, U256, Pool}
use base_buster.StateDb.Types.{
  AccountInfo, BlockStateDbSlot, BlockStateDbAccount, BlockStateDb, Provider, Evm,
}
use base_buster.StateDb.Database.{default_account, slot_at, basic_ref, add_pool}

-- `db'` is `db` with the pool tracked and an account for it that has no slot.
pub record Added (db db' : BlockStateDb) (pool : Pool) : Type 0 where
  pub account : BlockStateDbAccount
  pub known : lookup pool.address db'.accounts ≡ some account
  pub slots :
      (b : Address) (j : U256)
      → slot_at db' b j ≡ (if b == pool.address then none else slot_at db b j)
  pub pools : db'.pools ≡ pool.address ∷ db.pools
  pub pool_info : db'.pool_info ≡ insert pool.address pool db.pool_info

pub add_pool-Added :
    (evm : Evm) (p : Provider) (db : BlockStateDb) (pool : Pool) (info : AccountInfo)
    → basic_ref evm p db pool.address ≡ ok (some info)
    → (db' : BlockStateDb) × (add_pool evm p db pool ≡ ok db') × Added db db' pool
unfolding add_pool basic_ref
add_pool-Added evm p db pool info fetched =
    let fresh = record (default_account evm) { info = info } in
    (
      record db {
        pools = pool.address ∷ db.pools;
        pool_info = insert pool.address pool db.pool_info;
        accounts = insert pool.address fresh db.accounts;
      },
      ground arith,
      record {
        account = fresh;
        known = lookup-insert_self pool.address fresh db.accounts;
        slots = λ b j.
            unfold slot_at in
            ground (
              arith,
              lookup-insert b pool.address fresh db.accounts,
              lookup-nil {0} {V = BlockStateDbSlot} j,
            );
        pools = refl;
        pool_info = refl;
      },
    )
