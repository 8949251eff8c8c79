-- ===== src/Ignition/Workers.antt =====
-- One turn of the loop of each worker.
use base_buster.Prelude.{
  ℕ, true, false, List, [], ◌∷◌, ◌++◌, map, Option, none, some, Outcome, ok, err, panic, ◌>>=◌, leb,
}
use base_buster.Pool.{Address, U256, PoolType}
use base_buster.Swap.{SwapPath, SwapParams}
use base_buster.StateDb.Types.{BlockStateDb}
use base_buster.Cache.{empty_cache}
use base_buster.Calculation.Calculator.{Swaps, invalidate_cache}
use base_buster.Estimator.{empty_estimator, estimate_output_amount, process_pools, update_rates}
use base_buster.Searcher.{new, search_paths}
use base_buster.MarketState.{update_state}
use base_buster.Simulator.{ArbPath, SimulatedPath, simulate_path}
use base_buster.TxSender.{ValidPath, update_gas, send_transactions}
use base_buster.Ignition.{
  Header, Event, arb_path, valid_path, pools_touched, new_block, Services, Launch, Searching, State,
  View,
}

-- A worker's turn: the next state, no event to receive, an event of another kind, which ends the
-- loop, or a panic.
pub data Turn : Type 0 where
  next : State → Turn
  waits ended panics : Turn

abbrev pub finish : Outcome State → Turn
finish (ok s) = next s
finish (err e) = panics
finish panic = panics

abbrev pub receive : List Event → (Event → List Event → Turn) → Turn
receive [] handle = waits
receive (event ∷ rest) handle = handle event rest

module _ (o : Services) where
  abbrev pub compute_pool_output : View → Address → Address → PoolType → ℕ → U256 → Outcome U256
  compute_pool_output v pool token kind fee input =
      o.amount_out (v.swap_db input pool token kind fee) input pool token kind fee

  abbrev pub swaps_of : View → Swaps
  swaps_of v = record {
    amount_out = λ input pool token kind fee. compute_pool_output v pool token kind fee input;
    set = o.set;
    get-set = o.get-set;
  }

  -- A header that the state updater receives.
  unfoldable pub block_turn : State → Header → State
  block_turn s header = elim (leb header.number s.last_synced) [
    | true ↦ s
    | false ↦
        let (after, updated_pools) = update_state o.trace s.db header.number in
        record s {
          db = after;
          past = s.db ∷ s.past;
          last_synced = header.number;
          addresses = s.addresses ++ pools_touched updated_pools header.number ∷ [];
        }
  ]

  -- A header that the gas station receives.
  unfoldable pub gas_turn : State → Header → Turn
  gas_turn s header = finish (
      update_gas o.calc_next_block_base_fee s.base_fee (header.gas ∷ []) >>= λ next_base_fee.
      ok (record s { base_fee = next_base_fee }))

  -- The estimator and the searcher are made once, after the catching up.
  unfoldable pub start_searcher : Launch → View → State → Turn
  start_searcher l v s = elim s.searching [
    | none ↦ finish (
        process_pools (compute_pool_output v) o.weth l.pools empty_estimator >>= λ estimator.
        ok (record s {
          searching =
              some (record { searcher = new l.cycles; estimator = estimator; cache = empty_cache });
        }))
    | some w ↦ ended
  ]

  -- The body of the searcher's loop: the thread's state, and the path with its calculated output.
  unfoldable pub search :
      View
      → BlockStateDb
      → Searching
      → List Address
      → Outcome (Searching × Option (SwapPath × U256))
  search v db w pools = do
    let cache = invalidate_cache w.cache pools
    estimator ← update_rates (compute_pool_output v) o.weth db pools w.estimator
    (after, found) ←
        search_paths o.path_set (swaps_of v) (estimate_output_amount estimator) w.searcher cache
          pools
    ok (record w { estimator = estimator; cache = after }, found)

  abbrev pub found_events : ℕ → Option (SwapPath × U256) → List Event
  found_events block none = []
  found_events block (some (path, out)) = arb_path path out block ∷ []

  abbrev pub searched : State → List Event → ℕ → Searching × Option (SwapPath × U256) → State
  searched s rest block (after, found) = record s {
    addresses = rest;
    searching = some after;
    paths = s.paths ++ found_events block found;
  }

  abbrev pub search_event : View → State → Searching → Event → List Event → Turn
  search_event v s w (pools_touched pools block) rest =
      finish (search v s.db w pools >>= λ r. ok (searched s rest block r))
  search_event v s w (arb_path p out block) rest = ended
  search_event v s w (valid_path p profit block) rest = ended
  search_event v s w (new_block h) rest = ended

  unfoldable pub search_turn : View → State → Turn
  search_turn v s = elim s.searching [
    | none ↦ waits
    | some w ↦ receive s.addresses (search_event v s w)
  ]

  -- The event as the simulator handles it, with what its reads find.
  abbrev pub simulated : View → SwapPath → U256 → ℕ → ArbPath
  simulated v path out block = record {
    arb_path = path;
    expected_out = out;
    block_number = block;
    transact = λ params. o.transact (v.quote_db params) params;
    swaps = swaps_of v;
  }

  abbrev pub valid_events : Option SimulatedPath → List Event
  valid_events none = []
  valid_events (some p) = valid_path p.converted_path p.profit p.block_number ∷ []

  abbrev pub vetted : State → List Event → List ℕ × Option SimulatedPath → State
  vetted s rest (blacklisted, sent) = record s {
    blacklisted = blacklisted;
    paths = rest;
    profitable = s.profitable ++ valid_events sent;
  }

  abbrev pub simulate_event : View → State → Event → List Event → Turn
  simulate_event v s (arb_path path out block) rest = finish (
      simulate_path o.is_v3 o.abi_decode o.sim s.blacklisted (simulated v path out block) >>= λ r.
      ok (vetted s rest r))
  simulate_event v s (pools_touched pools block) rest = ended
  simulate_event v s (valid_path p profit block) rest = ended
  simulate_event v s (new_block h) rest = ended

  unfoldable pub simulate_turn : View → State → Turn
  simulate_turn v s = receive s.paths (simulate_event v s)

  abbrev pub priced : State → SwapParams → U256 → ValidPath
  priced s params profit = record { arb_path = params; profit = profit; base_fee = s.base_fee }

  abbrev pub send_event : State → Event → List Event → Turn
  send_event s (valid_path params profit block) rest = finish (
      send_transactions o.send s.sender (priced s params profit ∷ []) >>= λ (sender, txs).
      ok (record s {
        profitable = rest;
        sender = sender;
        posted = s.posted ++ map (λ tx. (block, tx)) txs;
      }))
  send_event s (arb_path p out block) rest = ended
  send_event s (pools_touched pools block) rest = ended
  send_event s (new_block h) rest = ended

  unfoldable pub send_turn : State → Turn
  send_turn s = receive s.profitable (send_event s)
