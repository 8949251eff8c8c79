-- ===== src/StateDb/Commit/Laws.antt =====
-- What a commit leaves to be read.
use base_buster.Prelude.{
  ℕ, ◌≡◌, refl, true, false, ◌&&◌, ◌||◌, List, [], ◌∷◌, Option, none, some, ◌==◌, if◌then◌else◌,
  lookup, insert, lookup-insert, lookup-nil, ok, err, transport, arith, HashMap,
}
use base_buster.Pool.{Address, U256}
use base_buster.StateDb.Types.{BlockStateDbSlot, BlockStateDb, Provider, Evm, AccountInfo}
use base_buster.StateDb.Database.{slot_at, storage_ref, custom_slot, code_by_hash_ref}
use base_buster.StateDb.Insertions.{last_entry, custom_or}
use base_buster.StateDb.Commit.{
  Account, entry_or_default, commit_code, extend, merged, destroyed, commit_account, filed_hash,
}

lookup-extend :
    (storage : HashMap BlockStateDbSlot) (changes : List (U256 × U256)) (j : U256)
    → lookup j (extend storage changes) ≡ custom_or (last_entry changes j) (lookup j storage)
unfolding extend
lookup-extend storage [] j = refl
lookup-extend storage ((key, value) ∷ changes) j = ground (
  arith,
  lookup-extend (insert key (custom_slot value) storage) changes j,
  lookup-insert j key (custom_slot value) storage,
)

module _ (evm : Evm) (db : BlockStateDb) (a : Address) (account : Account) where
  entry-slot : (j : U256) → lookup j (entry_or_default evm db a).storage ≡ slot_at db a j
  unfolding slot_at
  entry-slot j = ground (arith, lookup-nil {0} {V = BlockStateDbSlot} j)

  -- What a slot of the committed account holds afterwards.
  abbrev pub slot_after : U256 → Option BlockStateDbSlot
  slot_after j =
      if account.is_selfdestructed
      then none
      else custom_or (last_entry account.storage j)
          (if account.is_created then none else slot_at db a j)

  merged-slot :
      (info : AccountInfo) (j : U256)
      → lookup j (merged (entry_or_default evm db a) account info).storage
        ≡ custom_or
            (last_entry account.storage j)
            (if account.is_created then none else slot_at db a j)
  unfolding merged
  merged-slot info j = ground (
    arith,
    entry-slot j,
    lookup-nil {0} {V = BlockStateDbSlot} j,
    lookup-extend [] account.storage j,
    lookup-extend (entry_or_default evm db a).storage account.storage j,
  )

  -- An account that was not touched is passed over. A destroyed one loses all its slots; a created
  -- one loses its old slots; the written slots hold the value written last, as custom slots. All
  -- other slots stay.
  pub slot_at-commit_account :
      (b : Address) (j : U256)
      → slot_at (commit_account evm db a account) b j
        ≡ (if account.is_touched && b == a then slot_after j else slot_at db b j)
  unfolding commit_account slot_at
  slot_at-commit_account b j =
      let old = entry_or_default evm db a in
      let info = (commit_code evm account.info db.contracts).0 in
      ground (
        arith,
        lookup-insert b a (destroyed evm old) db.accounts,
        lookup-insert b a (merged old account info) db.accounts,
        lookup-nil {0} {V = BlockStateDbSlot} j,
        merged-slot info j,
      )

  -- A slot that a destroyed or created account was not given since reads the provider's value: the
  -- state that the commit records is not consulted.
  pub storage_ref-commit_cleared :
      (q : Provider) (j : U256)
      → account.is_touched ≡ true
      → (account.is_selfdestructed || account.is_created) ≡ true
      → last_entry account.storage j ≡ none
      → storage_ref q (commit_account evm db a account) a j
        ≡ elim (q.get_storage_at a j) [ some v ↦ ok v | none ↦ err transport ]
  unfolding storage_ref
  storage_ref-commit_cleared q j t c e = ground (arith, slot_at-commit_account a j)

  -- The code that a commit brings can be read by the hash under which it is filed; a code that was
  -- filed before under that hash stays.
  pub code_by_hash_ref-commit_account :
      (byte : ℕ) (bytes : List ℕ)
      → account.is_touched ≡ true
      → account.is_selfdestructed ≡ false
      → account.info.code ≡ some (byte ∷ bytes)
      → code_by_hash_ref
          (commit_account evm db a account)
          (filed_hash evm account.info (byte ∷ bytes))
        ≡ elim (lookup (filed_hash evm account.info (byte ∷ bytes)) db.contracts) [
          | some code ↦ ok code
          | none ↦ ok (byte ∷ bytes)
        ]
  unfolding code_by_hash_ref commit_account commit_code
  code_by_hash_ref-commit_account byte bytes t d c =
      let hash = filed_hash evm account.info (byte ∷ bytes) in
      ground (arith, lookup-insert hash hash (byte ∷ bytes) db.contracts)
