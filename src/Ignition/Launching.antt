-- ===== src/Ignition/Launching.antt =====
-- `start_workers` up to the start of the workers.
use base_buster.Prelude.{ℕ, List, Option, none, some, Outcome, ok, unwrap, ◌>>=◌, if◌then◌else◌}
use base_buster.Pool.{Address, Pool}
use base_buster.Swap.{SwapStep}
use base_buster.Graph.Library.{UnGraph}
use base_buster.Graph.Build.{generate_cycles}
use base_buster.Filter.{Response, filter_pools}
use base_buster.Filter.Routers.{Abi}
use base_buster.Filter.SlotMap.{AccessListItem}
use base_buster.Filter.BySwap.{NodeEvm}
use base_buster.StateDb.Types.{Bytecode, Provider, Evm}
use base_buster.StateDb.New.{Runtime, new}
use base_buster.MarketState.{Updates, catch_up}
use base_buster.MarketState.WarmUp.{WarmEvm, init_state}
use base_buster.TxSender.{TransactionSender}
use base_buster.Ignition.{Launch}

-- The outside of the start-up: the service of the filter with its cache file, the node's database, the
-- EVM and the provider of the market state, the trace of a block, petgraph, and the default hasher.
pub record Outside (Token Json S G : Type 0) : Type 0 where
  pub request : ℕ → ℕ → Response Token
  pub from_str : Token → Option Address
  pub to_json : List Address → Json
  pub from_json : Json → Outcome (List Address)
  pub node : NodeEvm S
  pub abi : Abi
  pub access_list : S → Address → S × List AccessListItem
  pub node_db : S
  pub evm : Evm
  pub provider : Provider
  pub warm : WarmEvm
  pub default_code : Bytecode
  pub runtime : Runtime
  pub trace : ℕ → Updates
  pub graph : UnGraph G
  pub hash : List SwapStep → ℕ
  pub weth : Address

module _ {Token Json S G : Type 0} (out : Outside Token Json S G) where
  -- `heads` are the answers of `get_block_number`, the first one apart; without an end of the catching
  -- up among them there is no launch. `sender` is what `TransactionSender::new` returns.
  unfoldable pub start_workers :
      Option Json → List Pool → ℕ → ℕ → List ℕ → TransactionSender → Outcome (Option Launch)
  start_workers file pools last_synced_block current heads sender = do
    (kept, file') ←
        filter_pools out.request out.from_str out.to_json out.from_json out.node out.abi
          out.access_list out.node_db file pools 4000
    new_db ← unwrap (new out.evm out.default_code out.runtime)
    db ← init_state out.evm out.provider out.warm new_db kept
    let (caught, last, caught_up) = catch_up out.trace db last_synced_block current heads
    cycles ← generate_cycles out.graph out.hash out.weth kept
    ok (
        if caught_up
        then some (record {
          pools = kept;
          cycles = cycles;
          db = caught;
          last_synced = last;
          sender = sender;
        })
        else none)
