-- ===== src/Ignition/Progress.antt =====
-- The turns of the searcher, the simulator and the sender use up the events of the channels.
use mathlib.Core.Path.{subst}
use base_buster.Prelude.{
  ℕ, suc, ◌+◌, ◌*◌, ◌≤◌, ◌<◌, ◌≡◌, refl, sym, ap, ◌⊎◌, inl, inr, List, [], ◌∷◌, Option, none, some,
  Outcome, ok, err, panic, ◌>>=◌, All, length, length-append, arith,
}
use base_buster.Pool.{U256}
use base_buster.Swap.{SwapPath}
use base_buster.Simulator.{SimulatedPath, simulate_path}
use base_buster.TxSender.{send_transactions}
use base_buster.Ignition.{
  Event, arb_path, valid_path, pools_touched, new_block, Services, State, View, Sees, versions,
  Searching,
}
use base_buster.Ignition.Workers.{
  Turn, next, waits, panics, finish, receive, found_events, valid_events, search, search_event,
  search_turn, simulate_event, simulate_turn, send_event, send_turn, simulated, priced,
}
use base_buster.StateDb.Types.{BlockStateDb, Provider}
use base_buster.Quoter.Stores.{Read, store_reads}
use base_buster.Ignition.Steps.{quoted_on}
use base_buster.Ignition.Turns.{search_turn-next, simulate_turn-next, send_turn-next}
use base_buster.Ignition.Channels.{IsTouched, IsFound, IsValid, Typed}

-- A worker's turn that is no step for a reason other than a panic finds its channel empty.
abbrev pub Serves : List Event → Turn → Type 0
Serves channel r = ((channel ≡ []) × (r ≡ waits)) ⊎ ((r ≡ panics) ⊎ ((t : State) × (r ≡ next t)))

-- A turn on an event of the right kind.
abbrev Goes : Turn → Type 0
Goes r = (r ≡ panics) ⊎ ((t : State) × (r ≡ next t))

finish-Goes : (m : Outcome State) → Goes (finish m)
finish-Goes (ok s) = inr (s, refl)
finish-Goes (err e) = inl refl
finish-Goes panic = inl refl

module _ (o : Services) (v : View) (s : State) where
  search_event-Goes :
      (w : Searching) (events : List Event)
      → All IsTouched events
      → Serves events (receive events (search_event o v s w))
  search_event-Goes w [] h = inl (refl, refl)
  search_event-Goes w (pools_touched pools b ∷ rest) h =
      inr (finish-Goes (search o v s.db w pools >>= λ r. ok _))
  search_event-Goes w (arb_path p out b ∷ rest) h = absurd h.0
  search_event-Goes w (valid_path p profit b ∷ rest) h = absurd h.0
  search_event-Goes w (new_block x ∷ rest) h = absurd h.0

  simulate_event-Goes :
      (events : List Event)
      → All IsFound events
      → Serves events (receive events (simulate_event o v s))
  simulate_event-Goes [] h = inl (refl, refl)
  simulate_event-Goes (arb_path p out b ∷ rest) h = inr (
      finish-Goes (
        simulate_path o.is_v3 o.abi_decode o.sim s.blacklisted (simulated o v p out b) >>= λ r.
        ok _))
  simulate_event-Goes (pools_touched pools b ∷ rest) h = absurd h.0
  simulate_event-Goes (valid_path p profit b ∷ rest) h = absurd h.0
  simulate_event-Goes (new_block x ∷ rest) h = absurd h.0

module _ (o : Services) (s : State) where
  send_event-Goes :
      (events : List Event) → All IsValid events → Serves events (receive events (send_event o s))
  send_event-Goes [] h = inl (refl, refl)
  send_event-Goes (valid_path params profit b ∷ rest) h = inr (
      finish-Goes (send_transactions o.send s.sender (priced o s params profit ∷ []) >>= λ r. ok _))
  send_event-Goes (arb_path p out b ∷ rest) h = absurd h.0
  send_event-Goes (pools_touched pools b ∷ rest) h = absurd h.0
  send_event-Goes (new_block x ∷ rest) h = absurd h.0

module _ (o : Services) where
  pub search_turn-Serves :
      (v : View) (s : State) (w : Searching)
      → Typed s
      → s.searching ≡ some w
      → Serves s.addresses (search_turn o v s)
  unfolding search_turn
  search_turn-Serves v s w h e =
      rw (e, search_turn) (search_event-Goes o v s w s.addresses h.touched)

  pub simulate_turn-Serves : (v : View) (s : State) → Typed s → Serves s.paths (simulate_turn o v s)
  unfolding simulate_turn
  simulate_turn-Serves v s h = simulate_event-Goes o v s s.paths h.found

  pub send_turn-Serves : (s : State) → Typed s → Serves s.profitable (send_turn o s)
  unfolding send_turn
  send_turn-Serves s h = send_event-Goes o s s.profitable h.valid

  pub data WorkTurn (s : State) : State → Type 0 where
    searches :
        {t : State} (v : View) → Sees (versions s) v → search_turn o v s ≡ next t → WorkTurn s t
    simulates :
        {t : State} (v : View) → Sees (versions s) v → simulate_turn o v s ≡ next t → WorkTurn s t
    sends : {t : State} → send_turn o s ≡ next t → WorkTurn s t

  -- k turns of the three workers, in any order, with what the quotes store in between.
  pub data Works (s : State) : ℕ → State → Type 0 where
    idle : Works s 0 s
    works : {k : ℕ} {t u : State} → Works s k t → WorkTurn t u → Works s (suc k) u
    stores :
        {k : ℕ} {t : State} {path : SwapPath} {out : U256} {b : ℕ} {rest : List Event}
        {after : BlockStateDb} (reads : List (Provider × Read))
        → Works s k t
        → t.paths ≡ arb_path path out b ∷ rest
        → store_reads o.evm t.db reads ≡ ok after
        → Works s k (quoted_on t after)

-- How many turns the events of the channels can cost.
abbrev pub load : State → ℕ
load s = 3 * length s.addresses + 2 * length s.paths + length s.profitable

module _ (o : Services) where
  length-found_events : (b : ℕ) (f : Option (SwapPath × U256)) → length (found_events o b f) ≤ 1
  length-found_events b none = omega arith
  length-found_events b (some (p, out)) = omega arith

  length-valid_events : (f : Option SimulatedPath) → length (valid_events o f) ≤ 1
  length-valid_events none = omega arith
  length-valid_events (some p) = omega arith

  pub WorkTurn-load : {s t : State} → WorkTurn o s t → load t < load s
  WorkTurn-load {s} (searches v sees g) =
      let (w, pools, b, rest, (after, found), _, q, _, e) = search_turn-next o v s g in
      let a = length-append s.paths (found_events o b found) in
      let c = length-found_events b found in
      let d = ap length q in subst (λ z. load z < load s) (sym e) (omega (arith, a, c, d))
  WorkTurn-load {s} (simulates v sees g) =
      let (path, out, b, rest, (after, sent), q, _, e) = simulate_turn-next o v s g in
      let a = length-append s.profitable (valid_events o sent) in
      let c = length-valid_events sent in
      let d = ap length q in subst (λ z. load z < load s) (sym e) (omega (arith, a, c, d))
  WorkTurn-load {s} (sends g) =
      let (params, profit, b, rest, r, q, _, e) = send_turn-next o s g in
      let d = ap length q in subst (λ z. load z < load s) (sym e) (omega (arith, d))

  -- Between two headers the three workers take at most as many turns as the load of the state, in
  -- whatever order they take them: each turn lowers the load.
  pub Works-load : {s : State} {k : ℕ} {t : State} → Works o s k t → k + load t ≤ load s
  Works-load idle = omega arith
  Works-load (stores reads r q e) = Works-load r
  Works-load (works r st) = omega (arith, Works-load r, WorkTurn-load st)
