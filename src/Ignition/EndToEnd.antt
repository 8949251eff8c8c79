-- ===== src/Ignition/EndToEnd.antt =====
-- From the pools that the program is given to the transactions that it posts.
use mathlib.Core.Path.{subst}
use base_buster.Prelude.{
  ℕ, ◌≡◌, ap, ◌∙◌, inl, inr, List, [], ◌∷◌, map, Option, some, some-injective, ok, get_elem?-In,
  All, All-imp, All→In, Bool-cases, >>=-eq-ok, ok-injective, unwrap,
}
use base_buster.Pool.{Address, Pool}
use base_buster.Swap.{to_flash_swap}
use base_buster.Swap.Laws.{to_flash_swap-to_swap_params}
use base_buster.Filter.{get_top_volume_tokens, filter_pools}
use base_buster.Filter.Vetted.{Vetted, filter_pools-Vetted}
use base_buster.Graph.Build.{generate_cycles}
use base_buster.Graph.Build.Generated.{RoundTrip, generate_cycles-RoundTrip}
use base_buster.StateDb.New.{new}
use base_buster.MarketState.{catch_up}
use base_buster.MarketState.WarmUp.{init_state}
use base_buster.StateDb.Types.{BlockStateDb}
use base_buster.TxSender.{TransactionRequest, TransactionSender}
use base_buster.Ignition.{Services, Launch, State, versions}
use base_buster.Ignition.Launching.{Outside, start_workers}
use base_buster.Ignition.Steps.{Reach}
use base_buster.Ignition.Origin.{Earned, PostOk}
use base_buster.Ignition.Posted.{posted-Earned}

module _ {Token Json S G : Type 0} (out : Outside Token Json S G) where
  -- A pool that the filter keeps.
  abbrev pub Kept : List Address → List Pool → Pool → Type 0
  Kept top pools pool =
      Vetted out.request out.from_str out.to_json out.from_json out.node out.abi out.access_list
        out.node_db top pools pool

  -- What the launch is made of.
  pub record Launched (file : Option Json) (pools : List Pool) (l : Launch) : Type 0 where
    pub top_volume_tokens : List Address
    pub file' : Option Json
    pub listed :
        get_top_volume_tokens out.request out.from_str out.to_json out.from_json file 4000
        ≡ ok (top_volume_tokens, file')
    pub kept : All (Kept top_volume_tokens pools) l.pools
    pub cycles : All (λ path. RoundTrip l.pools out.weth path.steps) l.cycles

  start_workers-Launched :
      (file : Option Json) (pools : List Pool) (last current : ℕ) (heads : List ℕ)
      (sender : TransactionSender) (l : Launch)
      → start_workers out file pools last current heads sender ≡ ok (some l)
      → Launched file pools l
  unfolding start_workers
  start_workers-Launched file pools last current heads sender l h =
      let ((kept, file'), h1, r1) =
        >>=-eq-ok
          (filter_pools out.request out.from_str out.to_json out.from_json out.node out.abi
            out.access_list out.node_db file pools 4000)
          _ h in
      let (new_db, _, r1') = >>=-eq-ok (unwrap (new out.evm out.default_code out.runtime)) _ r1 in
      let (db, h2, r2) = >>=-eq-ok (init_state out.evm out.provider out.warm new_db kept) _ r1' in
      let (cycles, h3, r3) = >>=-eq-ok (generate_cycles out.graph out.hash out.weth kept) _ r2 in
      let (top, listed, vetted) =
        filter_pools-Vetted out.request out.from_str out.to_json out.from_json out.node out.abi
          out.access_list out.node_db file pools 4000 kept file' h1 in
      let trips = generate_cycles-RoundTrip out.graph kept out.weth out.hash cycles h3 in
      elim (Bool-cases (catch_up out.trace db last current heads).2) [
        | inl e ↦
            let same = some-injective (ok-injective (simp e at r3)) in
            subst (Launched file pools) same (record {
              top_volume_tokens = top;
              file' = file';
              listed = listed;
              kept = vetted;
              cycles = All-imp cycles (λ p t. t.0) trips;
            })
        | inr e ↦ let bad = ok-injective (simp e at r3) in cc
      ]

  -- A posted transaction of a launch: it is earned, its cycle is a round trip over two kept pools, and
  -- it asks the contract to swap over these two pools.
  pub record Traded (o : Services) (pools : List Pool) (l : Launch) (dbs : List BlockStateDb)
      (top : List Address) (post : ℕ × TransactionRequest) : Type 0 where
    pub earned : Earned o l dbs post.0 post.1
    pub trip : RoundTrip l.pools out.weth earned.optimised.path.steps
    pub first_kept : Kept top pools trip.first
    pub second_kept : Kept top pools trip.second
    pub pools_sent : post.1.input.pools ≡ trip.first.address ∷ trip.second.address ∷ []

  module _ (o : Services) (pools : List Pool) (l : Launch) (dbs : List BlockStateDb) where
    path_pools :
        (tx : TransactionRequest) (block : ℕ) (e : Earned o l dbs block tx)
        → tx.input.pools ≡ map (λ step. step.pool_address) e.optimised.path.steps
    unfolding to_flash_swap
    path_pools tx block e =
        let (_, _, (_, _, _, _, optimized)) = e.optimised.vetted in
        ap (λ z. z.pools) e.input
        ∙ ap (λ z. z.pools) optimized.same_path
        ∙ ap (λ z. z.pools) (to_flash_swap-to_swap_params o.is_v3 e.optimised.path)

    Earned-Traded :
        (file : Option Json) (launched : Launched file pools l) (post : ℕ × TransactionRequest)
        → PostOk o l dbs post
        → Traded o pools l dbs launched.top_volume_tokens post
    Earned-Traded file launched (block, tx) e =
        let found = e.optimised.found in
        let path = e.optimised.path in
        let trip =
          All→In (λ path. RoundTrip l.pools out.weth path.steps) l.cycles path launched.cycles
            (get_elem?-In l.cycles found.position path found.in_cycles) in
        let keeps = All→In (Kept launched.top_volume_tokens pools) l.pools in
        record {
          earned = e;
          trip = trip;
          first_kept = keeps trip.first launched.kept trip.first_in;
          second_kept = keeps trip.second launched.kept trip.second_in;
          pools_sent =
              path_pools tx block e ∙ ap (map (λ step. step.pool_address)) trip.there_and_back;
        }

  -- From the pools given to a transaction posted: when the start-up ends with a launch, then in every
  -- state that the workers reach from it, each posted transaction asks the contract to swap over two
  -- pools, of different types, that the filter kept from the given ones by the cached or fetched top
  -- volume tokens, from WETH to another token and
  -- back; and this round trip is a cycle of the searcher through a tracked pool that the trace of its
  -- block changed, has a calculated output of at least the least profit, chained from swaps on versions
  -- of the database, was vetted by the simulator with SIM off, and pays its priority fee from half of
  -- the profit.
  pub posted-Traded :
      (o : Services) (file : Option Json) (pools : List Pool) (last current : ℕ) (heads : List ℕ)
      (sender : TransactionSender) (l : Launch) (s : State)
      → start_workers out file pools last current heads sender ≡ ok (some l)
      → Reach o l s
      → (top : List Address) × (file' : Option Json) × (get_top_volume_tokens out.request
            out.from_str out.to_json out.from_json file 4000
          ≡ ok (top, file'))
        × All (Traded o pools l (versions s) top) s.posted
  posted-Traded o file pools last current heads sender l s h r =
      let launched = start_workers-Launched file pools last current heads sender l h in
      (
        launched.top_volume_tokens,
        launched.file',
        launched.listed,
        All-imp s.posted (Earned-Traded o pools l (versions s) file launched) (posted-Earned o l r),
      )
