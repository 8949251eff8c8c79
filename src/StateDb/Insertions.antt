-- ===== src/StateDb/Insertions.antt =====
-- What the insertions of src/state_db/blockstate_db.rs make the database read: account storage,
-- the slots of a block trace, account information and tracked pools.
use base_buster.Prelude.{
  ◌≡◌, refl, Option, none, some, ◌==◌, if◌then◌else◌, List, [], ◌∷◌, lookup, insert, inl, inr,
  lookup-insert_self, Option-cases, Outcome, ok, panic, arith,
}
use base_buster.Pool.{Address, U256}
use base_buster.StateDb.Types.{
  AccountInfo, InsertionType, BlockStateDbSlot, BlockStateDbAccount, BlockStateDb, Provider, Evm,
}
use base_buster.StateDb.Database.{
  new_account, slot_at, write_slot, insert_account_info, store_info, custom_slot, basic_ref,
  storage_ref, storage, insert_account_storage, update_slot, update_all_slots,
}
use base_buster.StateDb.Slots.{
  slot_at-write_slot, slot_at-insert_account_info, slot_at-store_info, slot_at-update_slot,
}
use base_buster.StateDb.ReadThrough.{
  Pinned, Pinned-write_slot, basic_ref-cases, basic_new, basic_unknown, slot_at-none,
}

-- The last entry for a slot in an account's part of the trace.
abbrev pub last_entry : List (U256 × U256) → U256 → Option U256
last_entry [] j = none
last_entry ((slot, v) ∷ storage) j = elim (last_entry storage j) [
  | some w ↦ some w
  | none ↦ if j == slot then some v else none
]

abbrev pub custom_or : Option U256 → Option BlockStateDbSlot → Option BlockStateDbSlot
custom_or (some v) old = some (custom_slot v)
custom_or none old = old

abbrev pub value_or : Option U256 → Outcome U256 → Outcome U256
value_or (some v) old = ok v
value_or none old = old

lookup-insert_account_info :
    (evm : Evm) (db : BlockStateDb) (a : Address) (info : AccountInfo) (t : InsertionType)
    → lookup a (insert_account_info evm db a info t).accounts
      ≡ some (record (new_account evm t) { info = info })
unfolding insert_account_info
lookup-insert_account_info evm db a info t = lookup-insert_self a _ db.accounts

module _ (a : Address) where
  known-update_slot :
      (db : BlockStateDb) (i v : U256) (account : BlockStateDbAccount)
      → lookup a db.accounts ≡ some account
      → (account' : BlockStateDbAccount) × (lookup a (update_slot db a i v).accounts
          ≡ some account')
  unfolding update_slot write_slot
  known-update_slot db i v account known =
      let written = record account { storage = insert i (custom_slot v) account.storage } in
      (written, ground (arith, lookup-insert_self a written db.accounts))

  pub update_all_slots-slot_at :
      (db : BlockStateDb) (changes : List (U256 × U256)) (account : BlockStateDbAccount)
      → lookup a db.accounts ≡ some account
      → (b : Address) (j : U256)
      → slot_at (update_all_slots db a changes) b j
        ≡ (if b == a then custom_or (last_entry changes j) (slot_at db a j) else slot_at db b j)
  unfolding update_all_slots slot_at
  update_all_slots-slot_at db [] account known b j = ground arith
  update_all_slots-slot_at db ((i, v) ∷ changes) account known b j =
      let (account', known') = known-update_slot db i v account known in
      ground (
        arith,
        update_all_slots-slot_at (update_slot db a i v) changes account' known' b j,
        slot_at-update_slot db a b j account i v known,
        slot_at-update_slot db a a j account i v known,
      )

  -- Of an account that the database has, the trace's slots read their last value in the trace;
  -- all other slots of all accounts read as before.
  pub update_all_slots-storage_ref :
      (db : BlockStateDb) (changes : List (U256 × U256)) (account : BlockStateDbAccount)
      → lookup a db.accounts ≡ some account
      → (q : Provider) (b : Address) (j : U256)
      → storage_ref q (update_all_slots db a changes) b j ≡ (
          if b == a
          then value_or (last_entry changes j) (storage_ref q db a j)
          else storage_ref q db b j)
  unfolding storage_ref
  update_all_slots-storage_ref db changes account known q b j =
      ground (arith, update_all_slots-slot_at db changes account known b j)

  -- The trace of an account that the database lacks changes nothing.
  pub update_all_slots_unknown :
      (db : BlockStateDb) (changes : List (U256 × U256))
      → lookup a db.accounts ≡ none
      → update_all_slots db a changes ≡ db
  unfolding update_all_slots update_slot
  update_all_slots_unknown db [] new = refl
  update_all_slots_unknown db ((i, v) ∷ changes) new =
      rw (new, update_slot) (update_all_slots_unknown db changes new)

module _ (evm : Evm) (p : Provider) (db : BlockStateDb) (a : Address) where
  module _ (i v : U256) (t : InsertionType) (new : lookup a db.accounts ≡ none) where
    insert_unknown :
        basic_ref evm p db a ≡ ok none → insert_account_storage evm p db a i v t ≡ panic
    unfolding insert_account_storage
    insert_unknown failed =
        rw (new, insert_account_storage) (rw (basic_unknown evm db a p new failed))

    insert_new :
        (info : AccountInfo)
        → basic_ref evm p db a ≡ ok (some info)
        → insert_account_storage evm p db a i v t
          ≡ ok (
              write_slot
                (insert_account_info evm (store_info evm db a info) a info t)
                a
                (record (new_account evm t) { info = info })
                i
                (custom_slot v))
    unfolding insert_account_storage
    insert_new info fetched =
        rw (new, insert_account_storage)
          (rw (basic_new evm db a p new info fetched)
            (rw (lookup-insert_account_info evm (store_info evm db a info) a info t)))

  -- The slot inserted reads the value, for any answers of the provider, and every other slot of
  -- every account reads as before, also where the account had to be fetched first.
  insert_account_storage-storage_ref :
      (i v : U256) (t : InsertionType) {db' : BlockStateDb}
      → insert_account_storage evm p db a i v t ≡ ok db'
      → Pinned db db' a i v
  insert_account_storage-storage_ref i v t {db'} h q b j =
      elim (Option-cases (lookup a db.accounts)) [
        | inr (account, known) ↦
            unfold insert_account_storage in
            ground (arith, Pinned-write_slot evm db a account i v known q b j)
        | inl new ↦ elim (basic_ref-cases evm db a p) [
          | inl failed ↦ cc (insert_unknown i v t new failed)
          | inr (info, fetched) ↦
              let stored = store_info evm db a info in
              let db₂ = insert_account_info evm stored a info t in
              unfold storage_ref in
              ground (
                arith,
                insert_new i v t new info fetched,
                slot_at-write_slot db₂ a b j (record (new_account evm t) { info = info }) i
                    (custom_slot v) (lookup-insert_account_info evm stored a info t),
                slot_at-insert_account_info stored a b j evm info t,
                slot_at-insert_account_info stored a a j evm info t,
                slot_at-store_info db a b j evm info,
                slot_at-none evm db a j new,
              )
        ]
      ]
