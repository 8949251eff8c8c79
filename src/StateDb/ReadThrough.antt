-- ===== src/StateDb/ReadThrough.antt =====
-- The read-through cache of src/state_db/blockstate_db.rs against the direct reads of the database:
-- `Database` (which stores what it fetches) implements `DatabaseRef` (which does not).
use base_buster.Prelude.{
  ◌≡◌, none, some, ◌==◌, ◌&&◌, if◌then◌else◌, lookup, inl, inr, lookup-insert_self, Option-cases,
  ◌⊎◌, >>=-eq-ok, ok, panic, arith,
}
use base_buster.Pool.{Address, U256}
use base_buster.StateDb.Types.{
  AccountInfo, BlockStateDbAccount, BlockStateDb, Provider, Evm, on_chain,
}
use base_buster.StateDb.Database.{
  new_account, slot_at, write_slot, insert_account_info, store_info, fetch_info, custom_slot,
  chain_slot, basic_ref, basic, storage_ref, store_slot, storage,
}
use base_buster.StateDb.Slots.{slot_at-write_slot, slot_at-store_info}

-- The reads of `db'` are those of `db`, but for the slot (a, i), which reads `v`.
abbrev pub Pinned : BlockStateDb → BlockStateDb → Address → U256 → U256 → Type 0
Pinned db db' a i v =
    (q : Provider) (b : Address) (j : U256)
    → storage_ref q db' b j ≡ (if b == a && j == i then ok v else storage_ref q db b j)

module _ (evm : Evm) (db : BlockStateDb) (a : Address) where
  pub lookup-store_info-none :
      (info : AccountInfo)
      → lookup a db.accounts ≡ none
      → lookup a (store_info evm db a info).accounts
        ≡ some (record (new_account evm on_chain) { info = info })
  unfolding insert_account_info
  lookup-store_info-none info new =
      ground (
        arith,
        lookup-insert_self a (record (new_account evm on_chain) { info = info }) db.accounts,
      )

  pub slot_at-none : (j : U256) → lookup a db.accounts ≡ none → slot_at db a j ≡ none
  unfolding slot_at
  slot_at-none j new = ground arith

  pub Pinned-write_slot :
      (account : BlockStateDbAccount) (i v : U256)
      → lookup a db.accounts ≡ some account
      → Pinned db (write_slot db a account i (custom_slot v)) a i v
  unfolding storage_ref
  Pinned-write_slot account i v known q b j =
      ground (arith, slot_at-write_slot db a b j account i (custom_slot v) known)

  -- A failed request makes `basic_ref` return `Ok(None)`, never an error.
  pub basic_ref-cases :
      (p : Provider)
      → (basic_ref evm p db a ≡ ok none)
        ⊎ ((info : AccountInfo) × (basic_ref evm p db a ≡ ok (some info)))
  unfolding basic_ref
  basic_ref-cases p = elim (Option-cases (lookup a db.accounts)) [
    | inr (account, known) ↦ inr (account.info, ground arith)
    | inl new ↦
        elim (Option-cases
          (fetch_info evm (p.get_transaction_count a) (p.get_balance a) (p.get_code_at a))) [
            | inl failed ↦ inl (rw (new, basic_ref) (rw failed))
            | inr (info, fetched) ↦ inr (info, rw (new, basic_ref) (rw fetched))
          ]
  ]

  module _ (p : Provider) (new : lookup a db.accounts ≡ none) where
    pub basic_new :
        (info : AccountInfo)
        → basic_ref evm p db a ≡ ok (some info)
        → basic evm p db a ≡ ok (some info, store_info evm db a info)
    unfolding basic
    basic_new info fetched = ground arith

    pub basic_unknown : basic_ref evm p db a ≡ ok none → basic evm p db a ≡ panic
    unfolding basic
    basic_unknown failed = ground arith

    store_slot_new :
        (info : AccountInfo) (i v : U256)
        → basic_ref evm p db a ≡ ok (some info)
        → store_slot evm p db a i v
          ≡ ok (
              write_slot
                (store_info evm db a info)
                a
                (record (new_account evm on_chain) { info = info })
                i
                (chain_slot v))
    unfolding store_slot
    store_slot_new info i v fetched =
        rw (new, store_slot) (rw (basic_new info fetched) (rw (lookup-store_info-none info new)))

    store_slot_unknown :
        (i v : U256) → basic_ref evm p db a ≡ ok none → store_slot evm p db a i v ≡ panic
    unfolding store_slot
    store_slot_unknown i v failed = rw (new, store_slot) (rw (basic_unknown failed))

  pub slot_at-store_slot :
      (p : Provider) (i v : U256) (b : Address) (j : U256) {db' : BlockStateDb}
      → store_slot evm p db a i v ≡ ok db'
      → slot_at db' b j ≡ (if b == a && j == i then some (chain_slot v) else slot_at db b j)
  slot_at-store_slot p i v b j {db'} h = elim (Option-cases (lookup a db.accounts)) [
    | inr (account, known) ↦
        unfold store_slot in
        ground (arith, slot_at-write_slot db a b j account i (chain_slot v) known)
    | inl new ↦ elim (basic_ref-cases p) [
      | inl failed ↦ cc (store_slot_unknown p new i v failed)
      | inr (info, fetched) ↦
          let fresh = record (new_account evm on_chain) { info = info } in
          let stored = store_info evm db a info in
          ground (
            arith,
            store_slot_new p new info i v fetched,
            slot_at-write_slot stored a b j fresh i (chain_slot v)
                (lookup-store_info-none info new),
            slot_at-store_info db a b j evm info,
            slot_at-store_info db a a j evm info,
            slot_at-none j new,
          )
    ]
  ]

  -- A read that succeeds returns what the direct read returns; afterwards that slot is pinned to the value, for
  -- any answers of the provider, and every other slot reads as before.
  pub storage-storage_ref :
      (p : Provider) (i v : U256) {db' : BlockStateDb}
      → storage evm p db a i ≡ ok (v, db')
      → (storage_ref p db a i ≡ ok v) × Pinned db db' a i v
  unfolding storage
  storage-storage_ref p i v {db'} h = elim (Option-cases (slot_at db a i)) [
    | inr (slot, hit) ↦ unfold storage_ref in (ground arith, λ q b j. ground arith)
    | inl miss ↦
        let (w, read, rest) = >>=-eq-ok (storage_ref p db a i) _ (rw (miss, storage) at h) in
        let (db₁, stored, e) = >>=-eq-ok (store_slot evm p db a i w) _ rest in
        unfold storage_ref in
        (ground (arith, read), λ q b j. ground (arith, e, slot_at-store_slot p i w b j stored))
  ]

  store_slot_total :
      (p : Provider) (i v : U256) (info : AccountInfo)
      → basic_ref evm p db a ≡ ok (some info)
      → (db' : BlockStateDb) × (store_slot evm p db a i v ≡ ok db')
  store_slot_total p i v info fetched = elim (Option-cases (lookup a db.accounts)) [
    | inr (account, known) ↦
        (write_slot db a account i (chain_slot v), unfold store_slot in ground arith)
    | inl new ↦ (_, store_slot_new p new info i v fetched)
  ]

  -- The read succeeds whenever the direct reads of the slot and of the account do.
  pub storage_total :
      (p : Provider) (i v : U256) (info : AccountInfo)
      → storage_ref p db a i ≡ ok v
      → basic_ref evm p db a ≡ ok (some info)
      → (db' : BlockStateDb) × (storage evm p db a i ≡ ok (v, db'))
  unfolding storage
  storage_total p i v info read fetched = elim (Option-cases (slot_at db a i)) [
    | inr (slot, hit) ↦ (db, unfold storage_ref in ground arith)
    | inl miss ↦
        let (db', stored) = store_slot_total p i v info fetched in
        (db', rw (miss, storage) (rw (read, stored)))
  ]
