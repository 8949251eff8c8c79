-- ===== src/StateDb/Commit.antt =====
-- `DatabaseCommit` of src/state_db/blockstate_db.rs: the accounts that an EVM run changed.
pub mod Laws
use base_buster.Prelude.{
  ℕ, Bool, List, [], ◌∷◌, Option, none, some, ◌==◌, if◌then◌else◌, HashMap, lookup, insert,
}
use base_buster.Pool.{Address, U256}
use base_buster.StateDb.Types.{
  Bytecode, AccountInfo, AccountState, not_existing, touched, storage_cleared, untouched,
  BlockStateDbSlot, BlockStateDbAccount, BlockStateDb, Evm,
}
use base_buster.StateDb.Database.{default_account, custom_slot}

-- revm's `Account`; `storage` has the present value of each slot.
pub record Account : Type 0 where
  pub info : AccountInfo
  pub is_touched : Bool
  pub is_selfdestructed : Bool
  pub is_created : Bool
  pub storage : List (U256 × U256)

-- `self.accounts.entry(address).or_default()`
abbrev pub entry_or_default : Evm → BlockStateDb → Address → BlockStateDbAccount
entry_or_default evm db address = elim (lookup address db.accounts) [
  | some account ↦ account
  | none ↦ default_account evm
]

-- The hash under which the code is filed.
abbrev pub filed_hash : Evm → AccountInfo → Bytecode → ℕ
filed_hash evm info code =
    if info.code_hash == evm.keccak_empty then evm.hash_slow code else info.code_hash

-- `entry(hash).or_insert_with(…)`
abbrev pub or_insert : ℕ → Bytecode → HashMap Bytecode → HashMap Bytecode
or_insert hash code contracts = elim (lookup hash contracts) [
  | some _ ↦ contracts
  | none ↦ insert hash code contracts
]

-- The `if let Some(code)` of `commit`: the information with its hash mended, and the contracts.
unfoldable pub commit_code : Evm → AccountInfo → HashMap Bytecode → AccountInfo × HashMap Bytecode
commit_code evm info contracts = elim info.code [
  | none ↦ (info, contracts)
  | some [] ↦ (info, contracts)
  | some (byte ∷ bytes) ↦
      let code = byte ∷ bytes in
      let hash = filed_hash evm info code in
      (record info { code_hash = hash }, or_insert hash code contracts)
]

-- `storage.extend(…)`
unfoldable pub extend : HashMap BlockStateDbSlot → List (U256 × U256) → HashMap BlockStateDbSlot
extend storage [] = storage
extend storage ((key, value) ∷ changes) = extend (insert key (custom_slot value) storage) changes

abbrev pub state_after : Bool → AccountState → AccountState
state_after is_newly_created state = if is_newly_created then storage_cleared else elim state [
  | storage_cleared ↦ storage_cleared
  | not_existing ↦ touched
  | touched ↦ touched
  | untouched ↦ touched
]

-- The account that the last part of the loop's body leaves.
unfoldable pub merged : BlockStateDbAccount → Account → AccountInfo → BlockStateDbAccount
merged old account info = record old {
  info = info;
  state = state_after account.is_created old.state;
  storage = extend (if account.is_created then [] else old.storage) account.storage;
}

abbrev pub destroyed : Evm → BlockStateDbAccount → BlockStateDbAccount
destroyed evm old = record old { info = evm.default_info; state = not_existing; storage = [] }

-- One turn of the loop.
unfoldable pub commit_account : Evm → BlockStateDb → Address → Account → BlockStateDb
commit_account evm db address account =
    let old = entry_or_default evm db address in
    if account.is_touched
    then (if account.is_selfdestructed
        then record db { accounts = insert address (destroyed evm old) db.accounts }
        else (let (info, contracts) = commit_code evm account.info db.contracts in
            record db {
              accounts = insert address (merged old account info) db.accounts;
              contracts = contracts;
            }))
    else db

unfoldable pub commit : Evm → BlockStateDb → List (Address × Account) → BlockStateDb
commit evm db [] = db
commit evm db ((address, account) ∷ changes) =
    commit evm (commit_account evm db address account) changes
