-- ===== src/Ignition/Origin.antt =====
-- Where the events and the transactions come from.
use base_buster.Prelude.{
  ℕ, ◌*◌, ◌≤◌, ◌≡◌, sym, ap, ◌∙◌, ◌⊎◌, inl, inr, List, Option, none, some, ok, Bool-cases,
  >>=-eq-ok, ok-injective, leb, true, All, In, get_elem?,
}
use base_buster.Pool.{Address, U256, PoolType}
use base_buster.Swap.{SwapPath, SwapParams, amount, to_flash_swap}
use base_buster.Cache.{Cache}
use base_buster.Calculation.Calculator.{Swaps, calculate_output}
use base_buster.Searcher.{
  Searchoor, PathSet, new, paths_at, touched_indices, confirm, search_paths, min_profit_of,
}
use base_buster.Simulator.Laws.{Vetted}
use base_buster.StateDb.Types.{BlockStateDb}
use base_buster.StateDb.Database.{tracking_pool}
use base_buster.MarketState.Updates.{changed}
use base_buster.Searcher.Index.{Touches}
use base_buster.TxSender.{TransactionRequest}
use base_buster.Ignition.{
  Event, arb_path, valid_path, pools_touched, new_block, Services, Launch, View, Sees, Searching,
}
use base_buster.Ignition.Workers.{swaps_of, simulated}
use base_buster.Ignition.Chains.{Answer, Chain, Known}

module _ (o : Services) (l : Launch) (dbs : List BlockStateDb) where
  -- A pool that the bot follows and that the block changed.
  abbrev pub ChangedIn : ℕ → Address → Type 0
  ChangedIn block pool = In pool (changed (o.trace block)) × (tracking_pool l.db pool ≡ true)

  -- A path with its calculated output: a cycle of the searcher, through a pool that the block changed,
  -- whose output is a chain of swaps and is at least the least profit.
  pub record Found (path : SwapPath) (out : U256) (block : ℕ) : Type 0 where
    pub position : ℕ
    pub in_cycles : get_elem? l.cycles position ≡ some path
    pub pool : Address
    pub touches : Touches pool path.steps
    pub pool_changed : ChangedIn block pool
    pub chain : Chain o dbs amount path.steps out
    pub enough : min_profit_of amount ≤ out

  -- Parameters with their profit: the simulator made them of a found path.
  pub record Optimised (params : SwapParams) (profit : U256) (block : ℕ) : Type 0 where
    pub path : SwapPath
    pub out : U256
    pub found : Found path out block
    pub view : View
    pub sees : Sees dbs view
    pub blacklisted : List ℕ
    pub vetted :
        Vetted o.is_v3 o.abi_decode o.sim blacklisted
          (simulated o view path out block)
          (record { converted_path = params; profit = profit; block_number = block })

  -- A transaction: it carries optimised parameters, and 350,000 gas at its priority fee cost at most
  -- half of the profit.
  pub record Earned (block : ℕ) (tx : TransactionRequest) : Type 0 where
    pub params : SwapParams
    pub profit : U256
    pub optimised : Optimised params profit block
    pub input : tx.input ≡ to_flash_swap params
    pub fee : tx.max_priority_fee_per_gas * 700_000 ≤ profit

  abbrev pub EventOk : Event → Type 0
  EventOk (arb_path path out block) = Found path out block
  EventOk (valid_path params profit block) = Optimised params profit block
  EventOk (pools_touched pools block) = All (ChangedIn block) pools
  EventOk (new_block header) = Unit

  abbrev pub PostOk : ℕ × TransactionRequest → Type 0
  PostOk (block, tx) = Earned block tx

  abbrev pub SearchingOk : Searching → Type 0
  SearchingOk w = (w.searcher ≡ new l.cycles) × Known o dbs w.cache

  pub answers :
      (v : View)
      → Sees dbs v
      → (i : U256) (a t : Address) (k : PoolType) (f : ℕ) (out : U256)
      → (swaps_of o v).amount_out i a t k f ≡ ok out
      → Answer o dbs i a out
  answers v sees i a t k f out e = record {
    db = v.swap_db i a t k f;
    db_in = sees.swaps_in i a t k f;
    token_in = t;
    protocol = k;
    fee = f;
    calculated = e;
  }

-- The cache after a search is that before it, or that of the one calculation.
module _ (set : PathSet) (swaps : Swaps) (estimate : SwapPath → U256) where
  confirm-cache :
      (s : Searchoor) (cache : Cache) (best : Option (SwapPath × U256)) (after : Cache)
      (found : Option (SwapPath × U256))
      → confirm set swaps estimate s cache best ≡ ok (after, found)
      → (after ≡ cache)
        ⊎ ((path : SwapPath) × (out : U256) × (calculate_output swaps cache path ≡ ok (after, out)))
  unfolding confirm
  confirm-cache s cache none after found h = inl (sym (ap (λ z. z.0) (ok-injective h)))
  confirm-cache s cache (some (path, v)) after found h =
      let ((c, out), h1, h2) = >>=-eq-ok (calculate_output swaps cache path) _ h in
      let same : c ≡ after = elim (Bool-cases (leb s.min_profit out)) [
        | inl e ↦ ap (λ z. z.0) (ok-injective (simp e at h2))
        | inr e ↦ ap (λ z. z.0) (ok-injective (simp e at h2))
      ] in
      inr (path, out, h1 ∙ ap (λ z. ok (z, out)) same)

  pub search_paths-cache :
      (s : Searchoor) (cache : Cache) (pools : List Address) (after : Cache)
      (found : Option (SwapPath × U256))
      → search_paths set swaps estimate s cache pools ≡ ok (after, found)
      → (after ≡ cache)
        ⊎ ((path : SwapPath) × (out : U256) × (calculate_output swaps cache path ≡ ok (after, out)))
  unfolding search_paths
  search_paths-cache s cache pools after found h =
      let (touched, h1, h2) = >>=-eq-ok (paths_at s.cycles (touched_indices s pools)) _ h in
      confirm-cache s cache _ after found h2
