-- ===== src/Ignition/Posted.antt =====
-- Every transaction that is posted comes from a cycle of the searcher.
use mathlib.Core.Path.{subst}
use base_buster.Prelude.{
  ap, ◌∙◌, ℕ, ◌≡◌, refl, sym, inl, inr, List, [], ◌∷◌, map, Option, none, some, ok, All, All-imp,
  All-append, In→All, contains, leb, Bool-cases, some-injective,
}
use base_buster.Pool.{U256}
use base_buster.Swap.{SwapPath, SwapParams}
use base_buster.Simulator.{SimulatedPath, simulate_path}
use base_buster.Simulator.Laws.{Vetted, simulate_path-Vetted}
use base_buster.StateDb.Types.{BlockStateDb}
use base_buster.MarketState.{update_state}
use base_buster.MarketState.Updates.{update_state-Reports}
use base_buster.StateDb.Database.{tracking_pool}
use base_buster.TxSender.{TransactionRequest, TransactionSender}
use base_buster.TxSender.Laws.{Sends, send_transactions-Sends}
use base_buster.Quoter.Extends.{store_reads-Extends}
use base_buster.Ignition.{Header, Services, Launch, View, Sees, Searching, State, versions}
use base_buster.Ignition.Workers.{simulated, valid_events, priced, block_turn}
use base_buster.Ignition.Steps.{
  Step, Reach, block, gas, start, search, quote, simulate, send, here, later,
}
use base_buster.Ignition.Turns.{
  gas_turn-next, start_searcher-next, search_turn-next, simulate_turn-next, send_turn-next,
}
use base_buster.Ignition.Chains.{Known-nil}
use base_buster.Ignition.Origin.{ChangedIn, Found, Optimised, EventOk, PostOk, SearchingOk}
use base_buster.Ignition.Traced.{search-Ok, EventOk-newer, PostOk-newer, SearchingOk-newer}

module _ (o : Services) (l : Launch) (dbs : List BlockStateDb) where
  valid_events-Ok :
      (v : View) (b : List ℕ) (path : SwapPath) (out : U256) (n : ℕ) (after : List ℕ)
      (sent : Option SimulatedPath)
      → Sees dbs v
      → Found o l dbs path out n
      → simulate_path o.is_v3 o.abi_decode o.sim b (simulated o v path out n) ≡ ok (after, sent)
      → All (EventOk o l dbs) (valid_events o sent)
  valid_events-Ok v b path out n after none sees found h = tt
  valid_events-Ok v b path out n after (some p) sees found h =
      let vetted =
        simulate_path-Vetted o.is_v3 o.abi_decode o.sim b (simulated o v path out n) after p h in
      let (_, _, (_, _, _, _, optimized)) = vetted in
      let same_block = optimized.same_block in
      (
        record {
          path = path;
          out = out;
          found = subst (Found o l dbs path out) (sym same_block) found;
          view = v;
          sees = sees;
          blacklisted = b;
          vetted =
              subst (λ z. Vetted o.is_v3 o.abi_decode o.sim b (simulated o v path out z) p)
                (sym same_block) vetted;
        },
        tt,
      )

  posts-Ok :
      (sender : TransactionSender) (params : SwapParams) (profit : U256) (fee n : ℕ)
      (txs : List TransactionRequest)
      → Optimised o l dbs params profit n
      → Sends sender.nonce (record { arb_path = params; profit = profit; base_fee = fee } ∷ []) txs
      → All (PostOk o l dbs) (map (λ tx. (n, tx)) txs)
  posts-Ok sender params profit fee n [] h sends = absurd sends
  posts-Ok sender params profit fee n (tx ∷ []) h (_, input, _, cost, _) =
      (record { params = params; profit = profit; optimised = h; input = input; fee = cost }, tt)
  posts-Ok sender params profit fee n (tx ∷ tx' ∷ txs) h (_, _, _, _, bad) = absurd bad

-- The cache, the queued events and the posted transactions come from the cycles and the versions of
-- the database.
pub record Traced (o : Services) (l : Launch) (s : State) : Type 0 where
  pub same_pools : s.db.pools ≡ l.db.pools
  pub touched : All (EventOk o l (versions s)) s.addresses
  pub searcher : (w : Searching) → s.searching ≡ some w → SearchingOk o l (versions s) w
  pub found : All (EventOk o l (versions s)) s.paths
  pub optimised : All (EventOk o l (versions s)) s.profitable
  pub earned : All (PostOk o l (versions s)) s.posted

module _ (o : Services) (l : Launch) where
  touched-Ok :
      (s : State) (n : ℕ)
      → s.db.pools ≡ l.db.pools
      → All (ChangedIn o l (versions s) n) (update_state o.trace s.db n).1
  unfolding tracking_pool
  touched-Ok s n same =
      let (_, iff, _) = update_state-Reports o.trace s.db n in
      In→All (ChangedIn o l (versions s) n) _ (λ q m. elim ((iff q).0 m) [
        | inl none_given ↦ absurd none_given
        | inr (there, tracked) ↦ (there, sym (ap (contains q) same) ∙ tracked)
      ])

  block_turn-Traced :
      (s : State) (header : Header) → Traced o l s → Traced o l (block_turn o s header)
  unfolding block_turn
  block_turn-Traced s header h = elim (Bool-cases (leb header.number s.last_synced)) [
    | inl e ↦ rw (e, block_turn) h
    | inr e ↦
        let newer = (update_state o.trace s.db header.number).0 in
        rw (e, block_turn)
          (record {
            same_pools = (update_state-Reports o.trace s.db header.number).0 ∙ h.same_pools;
            touched =
                All-append (EventOk o l (newer ∷ versions s)) s.addresses _
                  (All-imp s.addresses (EventOk-newer o l (versions s) newer) h.touched)
                  (touched-Ok s header.number h.same_pools, tt);
            searcher = λ w g. SearchingOk-newer o l (versions s) newer w (h.searcher w g);
            found = All-imp s.paths (EventOk-newer o l (versions s) newer) h.found;
            optimised = All-imp s.profitable (EventOk-newer o l (versions s) newer) h.optimised;
            earned = All-imp s.posted (PostOk-newer o l (versions s) newer) h.earned;
          })
  ]

  Step-Traced : {s t : State} → Step o l s t → Traced o l s → Traced o l t
  Step-Traced {s} (block header) h = block_turn-Traced s header h
  Step-Traced {s} (gas header g) h =
      let (fee, e) = gas_turn-next o s header g in
      subst (Traced o l) (sym e) (record {
        same_pools = h.same_pools;
        touched = h.touched;
        searcher = h.searcher;
        found = h.found;
        optimised = h.optimised;
        earned = h.earned;
      })
  Step-Traced {s} (start v sees g) h =
      let (_, (est, e)) = start_searcher-next o l v s g in
      subst (Traced o l) (sym e) (record {
        same_pools = h.same_pools;
        touched = h.touched;
        searcher = λ w q.
            subst (SearchingOk o l (versions s)) (some-injective q)
              (refl, Known-nil o (versions s));
        found = h.found;
        optimised = h.optimised;
        earned = h.earned;
      })
  Step-Traced {s} (search v sees g) h =
      let (w, pools, b, rest, (after, sent), p, q, run, e) = search_turn-next o v s g in
      let m = subst (All (EventOk o l (versions s))) q h.touched in
      let (kept, all) =
        search-Ok o l (versions s) v s.db w pools b after sent sees (h.searcher w p) m.0 run in
      subst (Traced o l) (sym e) (record {
        same_pools = h.same_pools;
        touched = m.1;
        searcher = λ w' g'. subst (SearchingOk o l (versions s)) (some-injective g') kept;
        found = All-append (EventOk o l (versions s)) s.paths _ h.found all;
        optimised = h.optimised;
        earned = h.earned;
      })
  Step-Traced {s} (quote {after = newer} reads q stored) h = record {
    same_pools = (store_reads-Extends o.evm s.db reads stored).same_pools ∙ h.same_pools;
    touched = All-imp s.addresses (EventOk-newer o l (versions s) newer) h.touched;
    searcher = λ w g. SearchingOk-newer o l (versions s) newer w (h.searcher w g);
    found = All-imp s.paths (EventOk-newer o l (versions s) newer) h.found;
    optimised = All-imp s.profitable (EventOk-newer o l (versions s) newer) h.optimised;
    earned = All-imp s.posted (PostOk-newer o l (versions s) newer) h.earned;
  }
  Step-Traced {s} (simulate v sees g) h =
      let (path, out, b, rest, (after, sent), q, run, e) = simulate_turn-next o v s g in
      let m = subst (All (EventOk o l (versions s))) q h.found in
      let all =
        valid_events-Ok o l (versions s) v s.blacklisted path out b after sent sees m.0 run in
      subst (Traced o l) (sym e) (record {
        same_pools = h.same_pools;
        touched = h.touched;
        searcher = h.searcher;
        found = m.1;
        optimised = All-append (EventOk o l (versions s)) s.profitable _ h.optimised all;
        earned = h.earned;
      })
  Step-Traced {s} (send g) h =
      let (params, profit, b, rest, (sender, txs), q, run, e) = send_turn-next o s g in
      let m = subst (All (EventOk o l (versions s))) q h.optimised in
      let sends =
        send_transactions-Sends o.send s.sender sender (priced o s params profit ∷ []) txs run in
      subst (Traced o l) (sym e) (record {
        same_pools = h.same_pools;
        touched = h.touched;
        searcher = h.searcher;
        found = h.found;
        optimised = m.1;
        earned =
            All-append (PostOk o l (versions s)) s.posted _ h.earned
              (posts-Ok o l (versions s) s.sender params profit s.base_fee b txs m.0 sends);
      })

  Reach-Traced : {s : State} → Reach o l s → Traced o l s
  Reach-Traced here = record {
    same_pools = refl;
    touched = tt;
    searcher = λ w g. cc;
    found = tt;
    optimised = tt;
    earned = tt;
  }
  Reach-Traced (later r st) = Step-Traced st (Reach-Traced r)

  -- However the workers take turns and whatever versions of the database their reads find, every
  -- posted transaction carries one of the cycles: the cycle has a tracked pool that the trace of its
  -- block changed, its output is at least the least profit and is calculated swap by swap on versions of the database, the simulator vetted the cycle with
  -- SIM off and optimised its input, and 350,000 gas at the priority fee cost at most half of the
  -- calculated profit.
  pub posted-Earned : {s : State} → Reach o l s → All (PostOk o l (versions s)) s.posted
  posted-Earned r = (Reach-Traced r).earned
