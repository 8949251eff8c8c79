-- ===== src/Ignition/Traced.antt =====
-- A turn of the searcher, and the facts about events when the database changes.
use mathlib.Core.Path.{subst}
use base_buster.Prelude.{
  All→In, ℕ, ◌≡◌, sym, inl, inr, List, ◌∷◌, Option, none, some, ok, All, >>=-eq-ok, ok-injective,
}
use base_buster.Pool.{Address, U256}
use base_buster.Swap.{SwapPath, SwapParams, amount}
use base_buster.Cache.{Cache}
use base_buster.Calculation.Calculator.{calculate_output, invalidate_cache}
use base_buster.Estimator.{Estimator, update_rates, estimate_output_amount}
use base_buster.Searcher.{new, search_paths}
use base_buster.Searcher.Sent.{search_paths-Sent}
use base_buster.StateDb.Types.{BlockStateDb}
use base_buster.TxSender.{TransactionRequest}
use base_buster.Ignition.{
  Event, arb_path, valid_path, pools_touched, new_block, Services, Launch, View, Sees, Searching,
}
use base_buster.Ignition.Workers.{compute_pool_output, swaps_of, search, found_events}
use base_buster.Ignition.Chains.{
  Chain, Known, invalidate_cache-Known, calculate_steps-Chain, Chain-newer, Answer-newer,
}
use base_buster.Ignition.Origin.{
  ChangedIn, Found, Optimised, EventOk, PostOk, SearchingOk, answers, search_paths-cache,
}

module _ (o : Services) (l : Launch) (dbs : List BlockStateDb) where
  calculate_output-Chain :
      (v : View) (cache : Cache) (path : SwapPath) (after : Cache) (out : U256)
      → Sees dbs v
      → Known o dbs cache
      → calculate_output (swaps_of o v) cache path ≡ ok (after, out)
      → Known o dbs after × Chain o dbs amount path.steps out
  unfolding calculate_output
  calculate_output-Chain v cache path after out sees known h =
      calculate_steps-Chain o dbs (swaps_of o v) (answers o l dbs v sees) path.steps cache amount
        after out known h

  module _ (v : View) (sees : Sees dbs v) (e : Estimator) (cache : Cache)
      (known : Known o dbs cache) (pools : List Address) (after : Cache) where
    found_events-Ok :
        (found : Option (SwapPath × U256)) (block : ℕ)
        → All (ChangedIn o l dbs block) pools
        → search_paths o.path_set
            (swaps_of o v)
            (estimate_output_amount e)
            (new l.cycles)
            cache
            pools
          ≡ ok (after, found)
        → All (EventOk o l dbs) (found_events o block found)
    found_events-Ok none block all h = tt
    found_events-Ok (some (path, out)) block all h =
        let ((q, j, in_q, at_j, touches, _, _), _, calc, enough) =
          search_paths-Sent o.path_set (swaps_of o v) (estimate_output_amount e) l.cycles cache
            pools after path out h in
        let (_, chain) = calculate_output-Chain v cache path after out sees known calc in
        (
          record {
            position = j;
            in_cycles = at_j;
            pool = q;
            touches = touches;
            pool_changed = All→In (ChangedIn o l dbs block) pools q all in_q;
            chain = chain;
            enough = enough;
          },
          tt,
        )

    after-Known :
        (found : Option (SwapPath × U256))
        → search_paths o.path_set
            (swaps_of o v)
            (estimate_output_amount e)
            (new l.cycles)
            cache
            pools
          ≡ ok (after, found)
        → Known o dbs after
    after-Known found h =
        elim (search_paths-cache o.path_set (swaps_of o v) (estimate_output_amount e) (new l.cycles)
          cache pools after found h) [
            | inl same ↦ subst (Known o dbs) (sym same) known
            | inr (path, out, calc) ↦
                (calculate_output-Chain v cache path after out sees known calc).0
          ]

  -- A turn of the searcher keeps its cache known, and what it sends is found.
  pub search-Ok :
      (v : View) (db : BlockStateDb) (w : Searching) (pools : List Address) (block : ℕ)
      (w' : Searching) (found : Option (SwapPath × U256))
      → Sees dbs v
      → SearchingOk o l dbs w
      → All (ChangedIn o l dbs block) pools
      → search o v db w pools ≡ ok (w', found)
      → SearchingOk o l dbs w' × All (EventOk o l dbs) (found_events o block found)
  unfolding search
  search-Ok v db w pools block w' found sees (same, known) all h =
      let (e, _, h1) =
        >>=-eq-ok (update_rates (compute_pool_output o v) o.weth db pools w.estimator) _ h in
      let ((after, f), h2, h3) =
        >>=-eq-ok
          (search_paths o.path_set (swaps_of o v) (estimate_output_amount e) w.searcher
            (invalidate_cache w.cache pools) pools)
          _ h1 in
      let known' = invalidate_cache-Known o dbs w.cache pools known in
      let run =
        subst
          (λ z.
            search_paths o.path_set (swaps_of o v) (estimate_output_amount e) z
              (invalidate_cache w.cache pools) pools
            ≡ ok (after, f))
          same h2 in
      let result = ok-injective h3 in
      subst (λ z. SearchingOk o l dbs z.0 × All (EventOk o l dbs) (found_events o block z.1)) result
        (
          (same, after-Known v sees e _ known' pools after f run),
          found_events-Ok v sees e _ known' pools after f block all run,
        )

-- A newer database leaves all of this true.
module _ (o : Services) (l : Launch) (dbs : List BlockStateDb) (newer : BlockStateDb) where
  Found-newer :
      {path : SwapPath} {out : U256} {block : ℕ}
      → Found o l dbs path out block
      → Found o l (newer ∷ dbs) path out block
  Found-newer {path} {out} f = record {
    position = f.position;
    in_cycles = f.in_cycles;
    pool = f.pool;
    touches = f.touches;
    pool_changed = f.pool_changed;
    chain = Chain-newer o dbs newer amount path.steps out f.chain;
    enough = f.enough;
  }

  Optimised-newer :
      {params : SwapParams} {profit : U256} {block : ℕ}
      → Optimised o l dbs params profit block
      → Optimised o l (newer ∷ dbs) params profit block
  Optimised-newer f = record {
    path = f.path;
    out = f.out;
    found = Found-newer f.found;
    view = f.view;
    sees = record {
      swaps_in = λ i a t k g. inr (f.sees.swaps_in i a t k g);
      quotes_in = λ q. inr (f.sees.quotes_in q);
    };
    blacklisted = f.blacklisted;
    vetted = f.vetted;
  }

  pub EventOk-newer : (e : Event) → EventOk o l dbs e → EventOk o l (newer ∷ dbs) e
  EventOk-newer (arb_path path out block) h = Found-newer h
  EventOk-newer (valid_path params profit block) h = Optimised-newer h
  EventOk-newer (pools_touched pools block) h = h
  EventOk-newer (new_block header) h = tt

  pub PostOk-newer :
      (post : ℕ × TransactionRequest) → PostOk o l dbs post → PostOk o l (newer ∷ dbs) post
  PostOk-newer (block, tx) h = record {
    params = h.params;
    profit = h.profit;
    optimised = Optimised-newer h.optimised;
    input = h.input;
    fee = h.fee;
  }

  pub SearchingOk-newer : (w : Searching) → SearchingOk o l dbs w → SearchingOk o l (newer ∷ dbs) w
  SearchingOk-newer w (same, known) =
      (same, λ a p out g. Answer-newer o dbs newer (known a p out g))
