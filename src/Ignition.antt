-- ===== src/Ignition.antt =====
-- src/ignition.rs and src/events.rs: the workers, the channels between them, and what they share.
pub mod Workers
pub mod Steps
pub mod Turns
pub mod Channels
pub mod Progress
pub mod Drains
pub mod Chains
pub mod Origin
pub mod Traced
pub mod Posted
pub mod Rising
pub mod Order
pub mod Replay
pub mod Headers
pub mod Launching
pub mod EndToEnd
use base_buster.Prelude.{
  ℕ, ◌≡◌, Bool, List, [], ◌∷◌, Option, Outcome, ◌==◌, ◌&&◌, if◌then◌else◌, some, In,
}
use base_buster.Pool.{Address, U256, Pool, PoolType}
use base_buster.Swap.{SwapPath, SwapParams}
use base_buster.StateDb.Types.{BlockStateDb, Evm}
use base_buster.Cache.{Cache, get}
use base_buster.Estimator.{Estimator}
use base_buster.Searcher.{Searchoor, PathSet}
use base_buster.MarketState.{Updates}
use base_buster.Quoter.{ExecutionResult}
use base_buster.TxSender.{GasHeader, TransactionRequest, TransactionSender}

-- `Header`, as far as the workers read it.
pub record Header : Type 0 where
  pub number : ℕ
  pub gas : GasHeader

pub data Event : Type 0 where
  arb_path : SwapPath → U256 → ℕ → Event
  valid_path : SwapParams → U256 → ℕ → Event
  pools_touched : List Address → ℕ → Event
  new_block : Header → Event

-- What the workers call outside this file: the node's trace of a block, the calculator and the quoter
-- contract over a database, the EVM's defaults, the missing `Cache::set`, the libraries, the sequencer, and the
-- environment's `SIM` and `WETH`.
pub record Services : Type 0 where
  pub trace : ℕ → Updates
  pub amount_out : BlockStateDb → U256 → Address → Address → PoolType → ℕ → Outcome U256
  pub set : Cache → U256 → Address → U256 → Cache
  pub get-set :
      (c : Cache) (a : U256) (p : Address) (v : U256) (b : U256) (q : Address)
      → get (set c a p v) b q ≡ (if (b == a) && (q == p) then some v else get c b q)
  pub evm : Evm
  pub transact : BlockStateDb → SwapParams → Outcome ExecutionResult
  pub path_set : PathSet
  pub is_v3 : PoolType → Bool
  pub abi_decode : List ℕ → Option (List U256)
  pub calc_next_block_base_fee : ℕ → ℕ → ℕ → ℕ
  pub send : TransactionRequest → Outcome ℕ
  pub sim : Bool
  pub weth : Address

-- What `start_workers` has made when the state updater has caught up.
pub record Launch : Type 0 where
  pub pools : List Pool
  pub cycles : List SwapPath
  pub db : BlockStateDb
  pub last_synced : ℕ
  pub sender : TransactionSender

-- The searcher's thread.
pub record Searching : Type 0 where
  pub searcher : Searchoor
  pub estimator : Estimator
  pub cache : Cache

-- `past` are the databases before each update and each quote, which a read of a turn that began earlier
-- may have found; `posted` are the requests that were sent, each with the block of its path.
pub record State : Type 0 where
  pub db : BlockStateDb
  pub past : List BlockStateDb
  pub last_synced : ℕ
  pub addresses : List Event  -- the channel of `address_sender`
  pub searching : Option Searching
  pub paths : List Event  -- the channel of `paths_sender`
  pub blacklisted : List ℕ
  pub profitable : List Event  -- the channel of `profitable_sender`
  pub base_fee : ℕ
  pub sender : TransactionSender
  pub posted : List (ℕ × TransactionRequest)

abbrev pub versions : State → List BlockStateDb
versions s = s.db ∷ s.past

-- The database that each read of a turn finds: the updater and the simulator may write between two
-- reads.
pub record View : Type 0 where
  pub swap_db : U256 → Address → Address → PoolType → ℕ → BlockStateDb
  pub quote_db : SwapParams → BlockStateDb

pub record Sees (dbs : List BlockStateDb) (v : View) : Type 0 where
  pub swaps_in : (i : U256) (a t : Address) (k : PoolType) (f : ℕ) → In (v.swap_db i a t k f) dbs
  pub quotes_in : (q : SwapParams) → In (v.quote_db q) dbs
