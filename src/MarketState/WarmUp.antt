-- ===== src/MarketState/WarmUp.antt =====
-- src/market_state.rs: the balances, the quoter and the first quotes that prime the database.
use base_buster.Prelude.{
  ℕ, List, [], ◌∷◌, Option, none, some, Outcome, ok, unwrap, expect_ok, ◌>>=◌, if◌then◌else◌,
}
use base_buster.Pool.{Address, U256, Pool}
use base_buster.Swap.{SwapParams, amount}
use base_buster.Quoter.{TxEnv, ExecutionResult}
use base_buster.StateDb.Types.{BlockStateDb, Provider, Evm, AccountInfo, Bytecode, custom, on_chain}
use base_buster.StateDb.Database.{insert_account_info, insert_account_storage}
use base_buster.MarketState.{populate_db_with_pools}

abbrev pub caller_account : Address
caller_account = 0xd8da6bf26964af9d7eed9e03e53415d37aa96045

abbrev pub quoter_address : Address
quoter_address = 0x1000

abbrev pub ten_units : U256
ten_units = 10_000_000_000_000_000_000

-- revm over the database, alloy's encodings, and the generated bytecode with its hash.
pub record WarmEvm : Type 0 where
  pub transact_commit : BlockStateDb → TxEnv → Option BlockStateDb
  pub transact : BlockStateDb → TxEnv → Option (BlockStateDb × ExecutionResult)
  pub encode_approve : Address → U256 → List ℕ
  pub encode_quote : SwapParams → List ℕ
  pub deployed_bytecode : Bytecode
  pub bytecode_hash : ℕ

abbrev pub warm_call : Address → List ℕ → TxEnv
warm_call to calldata = record {
  caller = caller_account;
  value = 0;
  gas_limit = none;
  transact_to = to;
  tx_data = calldata;
}

abbrev pub one_pool_path : Pool → SwapParams
one_pool_path pool = record {
  pools = pool.address ∷ [];
  pool_versions = (if pool.is_v3 then 1 else 0) ∷ [];
  amount_in = amount;
}

module _ (evm : Evm) (p : Provider) (w : WarmEvm) where
  abbrev pub balance_slot : U256
  balance_slot = evm.keccak256 (caller_account ∷ 3 ∷ [])

  abbrev pub quoter_acc_info : AccountInfo
  quoter_acc_info = record {
    balance = 0;
    nonce = 0;
    code_hash = w.bytecode_hash;
    code = some w.deployed_bytecode;
  }

  -- A pool's turn: a balance, an approval that is committed, and a quote that is not.
  unfoldable pub warm_up_pool : BlockStateDb → Pool → Outcome BlockStateDb
  warm_up_pool db pool = do
    db₁ ←
        expect_ok
          (insert_account_storage evm p db pool.token0_address balance_slot ten_units on_chain)
    db₂ ← unwrap (
        w.transact_commit db₁ (
          warm_call pool.token0_address
            (w.encode_approve quoter_address 1_000_000_000_000_000_000)))
    (db₃, result) ←
        unwrap (w.transact db₂ (warm_call quoter_address (w.encode_quote (one_pool_path pool))))
    ok db₃

  unfoldable pub warm_up_pools : BlockStateDb → List Pool → Outcome BlockStateDb
  warm_up_pools db [] = ok db
  warm_up_pools db (pool ∷ pools) = do after ← warm_up_pool db pool; warm_up_pools after pools

  unfoldable pub warm_up_database : List Pool → BlockStateDb → Outcome BlockStateDb
  warm_up_database pools db =
      warm_up_pools (insert_account_info evm db quoter_address quoter_acc_info custom) pools

  -- The database of a new market state, from the one that `BlockStateDB::new` makes.
  unfoldable pub init_state : BlockStateDb → List Pool → Outcome BlockStateDb
  init_state new_db pools = do
    warm ← warm_up_database pools new_db
    populate_db_with_pools evm p warm pools
