-- ===== src/StateDb/Types.antt =====
-- The data of src/state_db/blockstate_db.rs, and what it takes from its provider and from revm.
use base_buster.Prelude.{ℕ, List, Option, HashMap}
use base_buster.Pool.{Address, U256, Pool}

-- A bytecode is represented by its bytes.
abbrev pub Bytecode : Type 0
Bytecode = List ℕ

-- revm's `AccountInfo`.
pub record AccountInfo : Type 0 where
  pub balance : U256
  pub nonce : ℕ
  pub code_hash : ℕ
  pub code : Option Bytecode

-- revm's `AccountState`; `untouched` is its variant `None`.
pub data AccountState : Type 0 where
  not_existing touched storage_cleared untouched : AccountState

pub data InsertionType : Type 0 where
  custom on_chain : InsertionType

pub record BlockStateDbSlot : Type 0 where
  pub value : U256
  pub insertion_type : InsertionType

pub record BlockStateDbAccount : Type 0 where
  pub info : AccountInfo
  pub state : AccountState
  pub storage : HashMap BlockStateDbSlot
  pub insertion_type : InsertionType

-- The provider and the runtime handle are arguments of the operations that call them.
pub record BlockStateDb : Type 0 where
  pub accounts : HashMap BlockStateDbAccount
  pub contracts : HashMap Bytecode
  pub block_hashes : HashMap ℕ
  pub pools : List Address
  pub pool_info : HashMap Pool

-- The answers of the RPC provider at one moment; `none` is a transport error. The inner option
-- of `get_block_hash` is that of `get_block_by_number`.
pub record Provider : Type 0 where
  pub get_transaction_count : Address → Option ℕ
  pub get_balance : Address → Option U256
  pub get_code_at : Address → Option Bytecode
  pub get_storage_at : Address → U256 → Option U256
  pub get_block_hash : ℕ → Option (Option ℕ)

-- What is taken from revm and alloy: hashing, and the default account information.
pub record Evm : Type 0 where
  pub hash_slow : Bytecode → ℕ
  pub keccak_empty : ℕ
  pub keccak256 : List ℕ → ℕ
  pub default_info : AccountInfo
