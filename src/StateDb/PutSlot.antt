-- ===== src/StateDb/PutSlot.antt =====
-- The writes that src/state_db/v2_db.rs and v3_db.rs share: a custom slot in an account that must
-- be there.
use base_buster.Prelude.{
  ◌≡◌, refl, ◌==◌, ◌&&◌, some, if◌then◌else◌, lookup, insert, lookup-insert_self, Outcome, ok,
  unwrap, ◌>>=◌, arith,
}
use base_buster.Pool.{Address, U256}
use base_buster.StateDb.Types.{BlockStateDbAccount, BlockStateDb}
use base_buster.StateDb.Database.{slot_at, write_slot, custom_slot}
use base_buster.StateDb.Slots.{slot_at-write_slot}

-- `let account = self.accounts.get_mut(&pool).unwrap(); account.storage.insert(slot, …)`
unfoldable pub put_slot : BlockStateDb → Address → U256 → U256 → Outcome BlockStateDb
put_slot db pool slot value = do
  account ← unwrap (lookup pool db.accounts)
  ok (write_slot db pool account slot (custom_slot value))

-- `db'` is `db` with one custom slot written in an account, and nothing else.
pub record Wrote (db db' : BlockStateDb) (a : Address) (i v : U256) : Type 0 where
  pub account : BlockStateDbAccount
  pub known : lookup a db'.accounts ≡ some account
  pub slots :
      (b : Address) (j : U256)
      → slot_at db' b j ≡ (if b == a && j == i then some (custom_slot v) else slot_at db b j)
  pub same_pools : db'.pools ≡ db.pools
  pub same_pool_info : db'.pool_info ≡ db.pool_info

pub put_slot-Wrote :
    (db : BlockStateDb) (a : Address) (i v : U256) (account : BlockStateDbAccount)
    → lookup a db.accounts ≡ some account
    → (db' : BlockStateDb) × (put_slot db a i v ≡ ok db') × Wrote db db' a i v
unfolding put_slot
put_slot-Wrote db a i v account known =
    let written = record account { storage = insert i (custom_slot v) account.storage } in
    (
      write_slot db a account i (custom_slot v),
      rw known,
      record {
        account = written;
        known = unfold write_slot in lookup-insert_self a written db.accounts;
        slots = λ b j. ground (arith, slot_at-write_slot db a b j account i (custom_slot v) known);
        same_pools = unfold write_slot in refl;
        same_pool_info = unfold write_slot in refl;
      },
    )
