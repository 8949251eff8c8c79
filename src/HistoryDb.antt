-- ===== src/HistoryDb.antt =====
-- src/history_db.rs: reads of a historical state.
use base_buster.Prelude.{ℕ, Option, none, some, Outcome, ok, err, panic, library}
use base_buster.Pool.{Address, U256}
use base_buster.StateDb.Types.{AccountInfo, Bytecode}

-- reth's account.
pub record Account : Type 0 where
  pub balance : U256
  pub nonce : ℕ

-- reth's provider at the block; the outer `none` is an error. `new_bytecode` is revm's empty one.
pub record HistoryProvider : Type 0 where
  pub basic_account : Address → Option (Option Account)
  pub account_code : Address → Option (Option Bytecode)
  pub account_storage : Address → U256 → Option (Option U256)
  pub hash_of_block : ℕ → Option (Option ℕ)
  pub hash_slow : Bytecode → ℕ
  pub keccak_empty : ℕ
  pub new_bytecode : Bytecode

-- `unwrap_or_default()` of a result with an option.
unfoldable pub found : {A : Type 0} → Option (Option A) → Option A
found none = none
found (some answer) = answer

unfoldable pub account_or_default : Option Account → Account
account_or_default none = record { balance = 0; nonce = 0 }
account_or_default (some account) = account

module _ (p : HistoryProvider) where
  unfoldable pub basic_ref : Address → Outcome (Option AccountInfo)
  basic_ref address =
      let account = account_or_default (found (p.basic_account address)) in
      elim (found (p.account_code address)) [
        | some code ↦ ok (
            some (record {
              balance = account.balance;
              nonce = account.nonce;
              code_hash = p.hash_slow code;
              code = some code;
            }))
        | none ↦ ok (
            some (record {
              balance = account.balance;
              nonce = account.nonce;
              code_hash = p.keccak_empty;
              code = some p.new_bytecode;
            }))
      ]

  unfoldable pub basic : Address → Outcome (Option AccountInfo)
  basic address = basic_ref address

  unfoldable pub code_by_hash_ref : ℕ → Outcome Bytecode
  code_by_hash_ref code_hash = panic

  unfoldable pub code_by_hash : ℕ → Outcome Bytecode
  code_by_hash code_hash = panic

  unfoldable pub storage_ref : Address → U256 → Outcome U256
  storage_ref address index = elim (p.account_storage address index) [
    | none ↦ err library
    | some none ↦ ok 0
    | some (some value) ↦ ok value
  ]

  unfoldable pub storage : Address → U256 → Outcome U256
  storage address index = storage_ref address index

  unfoldable pub block_hash_ref : ℕ → Outcome ℕ
  block_hash_ref number = elim (found (p.hash_of_block number)) [
    | some hash ↦ ok hash
    | none ↦ ok p.keccak_empty
  ]

  unfoldable pub block_hash : ℕ → Outcome ℕ
  block_hash number = block_hash_ref number
