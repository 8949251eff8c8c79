-- ===== src/StateDb/New.antt =====
-- `BlockStateDB::new` of src/state_db/blockstate_db.rs.
use base_buster.Prelude.{[], Option, none, some, insert}
use base_buster.StateDb.Types.{BlockStateDb, Bytecode, Evm}

-- What `Handle::try_current` and `runtime_flavor` find.
pub data Runtime : Type 0 where
  no_runtime current_thread multi_thread : Runtime

-- `code` is `Bytecode::default()`, filed under `KECCAK_EMPTY` and under zero. A runtime of one thread is
-- refused, since the reads block on it.
unfoldable pub new : Evm → Bytecode → Runtime → Option BlockStateDb
new evm code no_runtime = none
new evm code current_thread = none
new evm code multi_thread = some (record {
  accounts = [];
  contracts = insert 0 code (insert evm.keccak_empty code []);
  block_hashes = [];
  pools = [];
  pool_info = [];
})
