-- ===== src/Ignition/Steps.antt =====
-- The workers together: any worker may take the next turn.
use base_buster.Prelude.{◌≡◌, List, [], ◌∷◌, none, ok, ℕ}
use base_buster.Pool.{U256}
use base_buster.Swap.{SwapPath}
use base_buster.StateDb.Types.{BlockStateDb, Provider}
use base_buster.Quoter.Stores.{Read, store_reads}
use base_buster.Ignition.{Header, Event, arb_path, Services, Launch, State, View, Sees, versions}
use base_buster.Ignition.Workers.{
  next, block_turn, gas_turn, start_searcher, search_turn, simulate_turn, send_turn,
}

-- When the state updater has caught up.
abbrev pub initial : Launch → State
initial l = record {
  db = l.db;
  past = [];
  last_synced = l.last_synced;
  addresses = [];
  searching = none;
  paths = [];
  blacklisted = [];
  profitable = [];
  base_fee = 0;
  sender = l.sender;
  posted = [];
}

-- What a run of the quoter contract leaves.
abbrev pub quoted_on : State → BlockStateDb → State
quoted_on s after = record s { db = after; past = s.db ∷ s.past }

-- A quote of the simulator's turn for its next event stores what the contract reads, in a step of its
-- own before the turn's, since the updater may write between two quotes of a turn. Which headers the two receivers of blocks get, and when, is left open, as is whether they still get
-- any; a worker that waits, that panicked or whose loop has ended takes no turn.
pub data Step (o : Services) (l : Launch) (s : State) : State → Type 0 where
  block : (header : Header) → Step o l s (block_turn o s header)
  gas : {t : State} (header : Header) → gas_turn o s header ≡ next t → Step o l s t
  start :
      {t : State} (v : View) → Sees (versions s) v → start_searcher o l v s ≡ next t → Step o l s t
  search : {t : State} (v : View) → Sees (versions s) v → search_turn o v s ≡ next t → Step o l s t
  quote :
      {path : SwapPath} {out : U256} {block_number : ℕ} {rest : List Event} {after : BlockStateDb}
      (reads : List (Provider × Read))
      → s.paths ≡ arb_path path out block_number ∷ rest
      → store_reads o.evm s.db reads ≡ ok after
      → Step o l s (quoted_on s after)
  simulate :
      {t : State} (v : View) → Sees (versions s) v → simulate_turn o v s ≡ next t → Step o l s t
  send : {t : State} → send_turn o s ≡ next t → Step o l s t

pub data Reach (o : Services) (l : Launch) : State → Type 0 where
  here : Reach o l (initial l)
  later : {s t : State} → Reach o l s → Step o l s t → Reach o l t
