-- ===== src/Quoter/Stores.antt =====
-- What the EVM run of `quote_path` in src/quoter.rs does to the shared database, which it has by
-- `&mut`: each thing that it reads through revm's `Database` is stored.
use base_buster.Prelude.{ℕ, List, [], ◌∷◌, Outcome, ok, ◌>>=◌}
use base_buster.Pool.{Address, U256}
use base_buster.StateDb.Types.{BlockStateDb, Provider, Evm}
use base_buster.StateDb.Database.{basic, code_by_hash, storage, block_hash}

-- The calls of `Database`.
pub data Read : Type 0 where
  of_account : Address → Read
  of_code : ℕ → Read
  of_slot : Address → U256 → Read
  of_block : ℕ → Read

module _ (evm : Evm) where
  unfoldable pub store_read : Provider → BlockStateDb → Read → Outcome BlockStateDb
  store_read p db (of_account address) = basic evm p db address >>= λ r. ok r.1
  store_read p db (of_code code_hash) = code_by_hash db code_hash >>= λ r. ok r.1
  store_read p db (of_slot address index) = storage evm p db address index >>= λ r. ok r.1
  store_read p db (of_block number) = block_hash p db number >>= λ r. ok r.1

  -- The reads of a run, each with the provider as it answers at that moment.
  unfoldable pub store_reads : BlockStateDb → List (Provider × Read) → Outcome BlockStateDb
  store_reads db [] = ok db
  store_reads db ((p, read) ∷ reads) = store_read p db read >>= λ after. store_reads after reads
