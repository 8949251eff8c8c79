-- ===== src/StateDb/Slots.antt =====
-- How the writes of src/state_db/blockstate_db.rs change the stored slots.
use base_buster.Prelude.{
  ◌≡◌, none, some, ◌==◌, if◌then◌else◌, lookup, insert, inl, inr, lookup-insert, lookup-nil,
  Option-cases, ok, arith,
}
use base_buster.Pool.{Address, U256}
use base_buster.StateDb.Types.{
  AccountInfo, InsertionType, BlockStateDbSlot, BlockStateDbAccount, BlockStateDb, Provider, Evm,
}
use base_buster.StateDb.Database.{
  new_account, slot_at, write_slot, insert_account_info, store_info, custom_slot, update_slot,
  storage_ref,
}

module _ (db : BlockStateDb) (a b : Address) (j : U256) where
  -- An account put into the map brings its own slots and leaves those of the others.
  pub slot_at-insert :
      (account : BlockStateDbAccount)
      → slot_at (record db { accounts = insert a account db.accounts }) b j
        ≡ (if b == a then lookup j account.storage else slot_at db b j)
  unfolding slot_at
  slot_at-insert account = ground (arith, lookup-insert b a account db.accounts)

  pub slot_at-write_slot :
      (account : BlockStateDbAccount) (i : U256) (s : BlockStateDbSlot)
      → lookup a db.accounts ≡ some account
      → slot_at (write_slot db a account i s) b j
        ≡ (if b == a then (if j == i then some s else slot_at db a j) else slot_at db b j)
  unfolding slot_at write_slot
  slot_at-write_slot account i s known = ground (
    arith,
    lookup-insert b a (record account { storage = insert i s account.storage }) db.accounts,
    lookup-insert j i s account.storage,
  )

  pub slot_at-insert_account_info :
      (evm : Evm) (info : AccountInfo) (t : InsertionType)
      → slot_at (insert_account_info evm db a info t) b j
        ≡ (if b == a then none else slot_at db b j)
  unfolding insert_account_info
  slot_at-insert_account_info evm info t =
      rw lookup-nil at (slot_at-insert (record (new_account evm t) { info = info }))

  -- `basic` stores information and no slot.
  pub slot_at-store_info :
      (evm : Evm) (info : AccountInfo) → slot_at (store_info evm db a info) b j ≡ slot_at db b j
  unfolding slot_at insert_account_info
  slot_at-store_info evm info = elim (Option-cases (lookup a db.accounts)) [
    | inl new ↦ ground (
      arith,
      lookup-nil {0} {V = BlockStateDbSlot} j,
      slot_at-insert (record (new_account evm InsertionType.on_chain) { info = info }),
    )
    | inr (account, known) ↦ ground (arith, slot_at-insert (record account { info = info }))
  ]

  pub slot_at-update_slot :
      (account : BlockStateDbAccount) (i v : U256)
      → lookup a db.accounts ≡ some account
      → slot_at (update_slot db a i v) b j ≡ (
          if b == a
          then (if j == i then some (custom_slot v) else slot_at db a j)
          else slot_at db b j)
  unfolding update_slot
  slot_at-update_slot account i v known =
      ground (arith, slot_at-write_slot account i (custom_slot v) known)

pub storage_ref_hit :
    (q : Provider) (db : BlockStateDb) (a : Address) (i : U256) (slot : BlockStateDbSlot)
    → slot_at db a i ≡ some slot
    → storage_ref q db a i ≡ ok slot.value
unfolding storage_ref
storage_ref_hit q db a i slot hit = rw (hit, storage_ref)
