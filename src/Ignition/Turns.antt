-- ===== src/Ignition/Turns.antt =====
-- What a turn that goes on has done: the event it took, and the call that it made.
use base_buster.Prelude.{
  ℕ, ◌≡◌, refl, sym, ap, inl, inr, List, [], ◌∷◌, ◌++◌, map, Option, none, some, Outcome, ok, err,
  panic, ◌>>=◌, Option-cases,
}
use base_buster.Pool.{Address, U256}
use base_buster.Swap.{SwapPath, SwapParams}
use base_buster.Estimator.{Estimator, empty_estimator, process_pools}
use base_buster.Cache.{empty_cache}
use base_buster.Searcher.{new}
use base_buster.Simulator.{SimulatedPath, simulate_path}
use base_buster.TxSender.{TransactionRequest, TransactionSender, send_transactions}
use base_buster.Ignition.{
  Header, Event, arb_path, valid_path, pools_touched, new_block, Services, Launch, Searching, State,
  View,
}
use base_buster.Ignition.Workers.{
  Turn, next, finish, receive, compute_pool_output, gas_turn, start_searcher, search, searched,
  search_event, search_turn, simulated, vetted, simulate_event, simulate_turn, priced, send_event,
  send_turn,
}

abbrev state_or : State → Turn → State
state_or s (next t) = t
state_or s _ = s

pub next-injective : {s t : State} → next s ≡ next t → s ≡ t
next-injective {s} {t} e = ap (state_or s) e

pub finish-next :
    {A : Type 0} (m : Outcome A) (f : A → State) {t : State}
    → finish (m >>= λ r. ok (f r)) ≡ next t
    → (r : A) × (m ≡ ok r) × (t ≡ f r)
finish-next (ok r) f h = (r, refl, sym (next-injective h))
finish-next (err e) f h = cc
finish-next panic f h = cc

module _ (o : Services) where
  pub gas_turn-next :
      (s : State) (header : Header) {t : State}
      → gas_turn o s header ≡ next t
      → (fee : ℕ) × (t ≡ record s { base_fee = fee })
  unfolding gas_turn
  gas_turn-next s header h = let (fee, _, e) = finish-next _ _ h in (fee, e)

  abbrev pub Searches : View → State → State → Type 0
  Searches v s t =
      (w : Searching) × (pools : List Address) × (block : ℕ) × (rest : List Event) × (r : Searching
        × Option (SwapPath × U256))
      × (s.searching ≡ some w)
      × (s.addresses ≡ pools_touched pools block ∷ rest)
      × (search o v s.db w pools ≡ ok r)
      × (t ≡ searched o s rest block r)

  search_event-next :
      (v : View) (s : State) (w : Searching) (events : List Event) {t : State}
      → s.searching ≡ some w
      → s.addresses ≡ events
      → receive events (search_event o v s w) ≡ next t
      → Searches v s t
  search_event-next v s w [] p q h = cc
  search_event-next v s w (pools_touched pools block ∷ rest) p q h =
      let (r, e, f) = finish-next (search o v s.db w pools) _ h in
      (w, pools, block, rest, r, p, q, e, f)
  search_event-next v s w (arb_path _ _ _ ∷ rest) p q h = cc
  search_event-next v s w (valid_path _ _ _ ∷ rest) p q h = cc
  search_event-next v s w (new_block _ ∷ rest) p q h = cc

  pub search_turn-next :
      (v : View) (s : State) {t : State} → search_turn o v s ≡ next t → Searches v s t
  unfolding search_turn
  search_turn-next v s h = elim (Option-cases s.searching) [
    | inl e ↦ let bad = rw (e, search_turn) at h in cc
    | inr (w, e) ↦ search_event-next v s w s.addresses e refl (rw (e, search_turn) at h)
  ]

  abbrev pub Simulates : View → State → State → Type 0
  Simulates v s t =
      (path : SwapPath) × (out : U256) × (block : ℕ) × (rest : List Event) × (r : List ℕ
        × Option SimulatedPath)
      × (s.paths ≡ arb_path path out block ∷ rest)
      × (simulate_path o.is_v3 o.abi_decode o.sim s.blacklisted (simulated o v path out block)
          ≡ ok r)
      × (t ≡ vetted o s rest r)

  simulate_event-next :
      (v : View) (s : State) (events : List Event) {t : State}
      → s.paths ≡ events
      → receive events (simulate_event o v s) ≡ next t
      → Simulates v s t
  simulate_event-next v s [] q h = cc
  simulate_event-next v s (arb_path path out block ∷ rest) q h =
      let (r, e, f) = finish-next (simulate_path _ _ _ _ (simulated o v path out block)) _ h in
      (path, out, block, rest, r, q, e, f)
  simulate_event-next v s (pools_touched _ _ ∷ rest) q h = cc
  simulate_event-next v s (valid_path _ _ _ ∷ rest) q h = cc
  simulate_event-next v s (new_block _ ∷ rest) q h = cc

  pub simulate_turn-next :
      (v : View) (s : State) {t : State} → simulate_turn o v s ≡ next t → Simulates v s t
  unfolding simulate_turn
  simulate_turn-next v s h = simulate_event-next v s s.paths refl h

  abbrev pub sent_on : State → List Event → ℕ → TransactionSender × List TransactionRequest → State
  sent_on s rest block (sender, txs) = record s {
    profitable = rest;
    sender = sender;
    posted = s.posted ++ map (λ tx. (block, tx)) txs;
  }

  abbrev pub Posts : State → State → Type 0
  Posts s t =
      (params : SwapParams) × (profit : U256) × (block : ℕ) × (rest : List Event)
      × (r : TransactionSender × List TransactionRequest) × (s.profitable
          ≡ valid_path params profit block ∷ rest)
      × (send_transactions o.send s.sender (priced o s params profit ∷ []) ≡ ok r)
      × (t ≡ sent_on s rest block r)

  send_event-next :
      (s : State) (events : List Event) {t : State}
      → s.profitable ≡ events
      → receive events (send_event o s) ≡ next t
      → Posts s t
  send_event-next s [] q h = cc
  send_event-next s (valid_path params profit block ∷ rest) q h =
      let (r, e, f) =
        finish-next (send_transactions o.send s.sender (priced o s params profit ∷ [])) _ h in
      (params, profit, block, rest, r, q, e, f)
  send_event-next s (pools_touched _ _ ∷ rest) q h = cc
  send_event-next s (arb_path _ _ _ ∷ rest) q h = cc
  send_event-next s (new_block _ ∷ rest) q h = cc

  pub send_turn-next : (s : State) {t : State} → send_turn o s ≡ next t → Posts s t
  unfolding send_turn
  send_turn-next s h = send_event-next s s.profitable refl h

  abbrev pub started : Launch → Estimator → State → State
  started l e s = record s {
    searching = some (record { searcher = new l.cycles; estimator = e; cache = empty_cache });
  }

  pub start_searcher-next :
      (l : Launch) (v : View) (s : State) {t : State}
      → start_searcher o l v s ≡ next t
      → (s.searching ≡ none) × ((e : Estimator) × (t ≡ started l e s))
  unfolding start_searcher
  start_searcher-next l v s h = elim (Option-cases s.searching) [
    | inl e ↦
        let (r, _, f) =
          finish-next (process_pools (compute_pool_output o v) o.weth l.pools empty_estimator)
            (λ r. started l r s) (rw (e, start_searcher) at h) in
        (e, (r, f))
    | inr (w, e) ↦ let bad = rw (e, start_searcher) at h in cc
  ]
