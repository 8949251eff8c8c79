-- ===== src/StateDb/Database.antt =====
-- The read-through operations of src/state_db/blockstate_db.rs: `DatabaseRef`, `Database`, and the
-- insertions. A method on `&mut self` returns the new database beside its result.
use base_buster.Prelude.{
  ℕ, Bool, List, [], ◌∷◌, Option, none, some, ◌==◌, contains, lookup, insert, Outcome, ok, err,
  panic, transport, unwrap, expect_ok, ◌>>=◌,
}
use base_buster.Pool.{Address, U256, Pool}
use base_buster.StateDb.Types.{
  Bytecode, AccountInfo, not_existing, untouched, InsertionType, custom, on_chain, BlockStateDbSlot,
  BlockStateDbAccount, BlockStateDb, Provider, Evm,
}

-- `BlockStateDbAccount::new`
abbrev pub new_account : Evm → InsertionType → BlockStateDbAccount
new_account evm t = record {
  info = evm.default_info;
  state = not_existing;
  storage = [];
  insertion_type = t;
}

-- The stored slot, through both maps.
unfoldable pub slot_at : BlockStateDb → Address → U256 → Option BlockStateDbSlot
slot_at db address index = elim (lookup address db.accounts) [
  | none ↦ none
  | some account ↦ lookup index account.storage
]

-- `account.storage.insert(index, slot)` through the reference that `get_mut` returned.
unfoldable pub write_slot :
    BlockStateDb → Address → BlockStateDbAccount → U256 → BlockStateDbSlot → BlockStateDb
write_slot db address account index slot = record db {
  accounts =
      insert address (record account { storage = insert index slot account.storage }) db.accounts;
}

unfoldable pub insert_account_info :
    Evm → BlockStateDb → Address → AccountInfo → InsertionType → BlockStateDb
insert_account_info evm db address info t = record db {
  accounts = insert address (record (new_account evm t) { info = info }) db.accounts;
}

-- The three joined requests of `basic_ref`.
abbrev pub fetch_info : Evm → Option ℕ → Option U256 → Option Bytecode → Option AccountInfo
fetch_info evm (some nonce) (some balance) (some code) =
    some (record {
      balance = balance;
      nonce = nonce;
      code_hash = evm.hash_slow code;
      code = some code;
    })
fetch_info evm _ _ _ = none

unfoldable pub basic_ref : Evm → Provider → BlockStateDb → Address → Outcome (Option AccountInfo)
basic_ref evm p db address = elim (lookup address db.accounts) [
  | some account ↦ ok (some account.info)
  | none ↦ ok (
      fetch_info evm (p.get_transaction_count address) (p.get_balance address)
        (p.get_code_at address))
]

unfoldable pub storage_ref : Provider → BlockStateDb → Address → U256 → Outcome U256
storage_ref p db address index = elim (slot_at db address index) [
  | some slot ↦ ok slot.value
  | none ↦ elim (p.get_storage_at address index) [ some v ↦ ok v | none ↦ err transport ]
]

unfoldable pub code_by_hash_ref : BlockStateDb → ℕ → Outcome Bytecode
code_by_hash_ref db code_hash = elim (lookup code_hash db.contracts) [
  | some code ↦ ok code
  | none ↦ panic
]

unfoldable pub block_hash_ref : Provider → BlockStateDb → ℕ → Outcome ℕ
block_hash_ref p db number = elim (lookup number db.block_hashes) [
  | some hash ↦ ok hash
  | none ↦ elim (p.get_block_hash number) [
    | none ↦ err transport
    | some (some hash) ↦ ok hash
    | some none ↦ ok 0
  ]
]

-- The `match self.accounts.get_mut(&address)` of `basic`.
abbrev pub store_info : Evm → BlockStateDb → Address → AccountInfo → BlockStateDb
store_info evm db address info = elim (lookup address db.accounts) [
  | some account ↦ record db {
    accounts = insert address (record account { info = info }) db.accounts;
  }
  | none ↦ insert_account_info evm db address info on_chain
]

unfoldable pub basic :
    Evm → Provider → BlockStateDb → Address → Outcome (Option AccountInfo × BlockStateDb)
basic evm p db address = elim (lookup address db.accounts) [
  | some account ↦ ok (some account.info, db)
  | none ↦ do
    fetched ← basic_ref evm p db address
    info ← unwrap fetched
    ok (some info, store_info evm db address info)
]

-- `code_by_hash_ref` panics on an unknown hash, so the arm for its error is never taken.
unfoldable pub code_by_hash : BlockStateDb → ℕ → Outcome (Bytecode × BlockStateDb)
code_by_hash db code_hash = elim (lookup code_hash db.contracts) [
  | some code ↦ ok (code, db)
  | none ↦ elim (code_by_hash_ref db code_hash) [
    | ok code ↦ ok (code, record db { contracts = insert code_hash code db.contracts })
    | err _ ↦ ok ([], record db { contracts = insert code_hash [] db.contracts })
    | panic ↦ panic
  ]
]

abbrev pub chain_slot : U256 → BlockStateDbSlot
chain_slot v = record { value = v; insertion_type = on_chain }

abbrev pub custom_slot : U256 → BlockStateDbSlot
custom_slot v = record { value = v; insertion_type = custom }

-- The `match self.accounts.get_mut(&address)` of `storage`, after the value is known.
unfoldable pub store_slot :
    Evm → Provider → BlockStateDb → Address → U256 → U256 → Outcome BlockStateDb
store_slot evm p db address index v = elim (lookup address db.accounts) [
  | some account ↦ ok (write_slot db address account index (chain_slot v))
  | none ↦ do
    (_, db') ← basic evm p db address
    account ← unwrap (lookup address db'.accounts)
    ok (write_slot db' address account index (chain_slot v))
]

unfoldable pub storage :
    Evm → Provider → BlockStateDb → Address → U256 → Outcome (U256 × BlockStateDb)
storage evm p db address index = elim (slot_at db address index) [
  | some slot ↦ ok (slot.value, db)
  | none ↦ do
    v ← storage_ref p db address index
    db' ← store_slot evm p db address index v
    ok (v, db')
]

unfoldable pub block_hash : Provider → BlockStateDb → ℕ → Outcome (ℕ × BlockStateDb)
block_hash p db number = elim (lookup number db.block_hashes) [
  | some hash ↦ ok (hash, db)
  | none ↦ do
    hash ← block_hash_ref p db number
    ok (hash, record db { block_hashes = insert number hash db.block_hashes })
]

unfoldable pub insert_account_storage :
    Evm → Provider → BlockStateDb → Address → U256 → U256 → InsertionType → Outcome BlockStateDb
insert_account_storage evm p db address slot v t = elim (lookup address db.accounts) [
  | some account ↦ ok (write_slot db address account slot (custom_slot v))
  | none ↦ do
    (fetched, db₁) ← basic evm p db address
    info ← unwrap fetched
    let db₂ = insert_account_info evm db₁ address info t
    account ← unwrap (lookup address db₂.accounts)
    ok (write_slot db₂ address account slot (custom_slot v))
]

-- One turn of the loop of `update_all_slots`.
unfoldable pub update_slot : BlockStateDb → Address → U256 → U256 → BlockStateDb
update_slot db address slot v = elim (lookup address db.accounts) [
  | some account ↦ write_slot db address account slot (custom_slot v)
  | none ↦ db
]

-- `storage` is the account's part of the block trace.
unfoldable pub update_all_slots : BlockStateDb → Address → List (U256 × U256) → BlockStateDb
update_all_slots db address [] = db
update_all_slots db address ((slot, v) ∷ storage) =
    update_all_slots (update_slot db address slot v) address storage

-- `BlockStateDbAccount::default()`
abbrev pub default_account : Evm → BlockStateDbAccount
default_account evm = record {
  info = evm.default_info;
  state = untouched;
  storage = [];
  insertion_type = on_chain;
}

unfoldable pub add_pool : Evm → Provider → BlockStateDb → Pool → Outcome BlockStateDb
add_pool evm p db pool =
    let tracked : BlockStateDb = record db {
      pools = pool.address ∷ db.pools;
      pool_info = insert pool.address pool db.pool_info;
    } in
    do
      fetched ← expect_ok (basic_ref evm p tracked pool.address)
      info ← unwrap fetched
      ok (record tracked {
        accounts =
            insert pool.address
              (record (default_account evm) { info = info; insertion_type = on_chain })
              tracked.accounts;
      })

unfoldable pub get_pool : BlockStateDb → Address → Outcome Pool
get_pool db address = unwrap (lookup address db.pool_info)

unfoldable pub tracking_pool : BlockStateDb → Address → Bool
tracking_pool db address = contains address db.pools

unfoldable pub zero_to_one : BlockStateDb → Address → Address → Option Bool
zero_to_one db pool token_in = elim (lookup pool db.pool_info) [
  | none ↦ none
  | some info ↦ some (info.token0_address == token_in)
]
