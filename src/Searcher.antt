-- ===== src/Searcher.antt =====
-- src/searcher.rs: the index of paths by pool, and the search after a block.
pub mod Index
pub mod Search
pub mod Sent
use base_buster.Prelude.{
  ℕ, suc, ◌+◌, ◌*◌, ◌/◌, Bool, true, false, List, [], ◌∷◌, ◌++◌, map, Option, none, some, Outcome,
  ok, unwrap, ◌>>=◌, ◌&&◌, leb, ltb, if◌then◌else◌, HashMap, lookup, insert, get_elem?, length, In,
  ◌↔◌,
}
use base_buster.Pool.{Address, U256}
use base_buster.Swap.{SwapPath, SwapStep, amount}
use base_buster.Cache.{Cache}
use base_buster.Calculation.Calculator.{Swaps, calculate_output}

-- `entry(pool).or_default()`, or no paths for a pool without an entry.
unfoldable pub paths_of : Address → HashMap (List ℕ) → List ℕ
paths_of pool index = elim (lookup pool index) [ none ↦ [] | some paths ↦ paths ]

unfoldable pub index_steps : ℕ → List SwapStep → HashMap (List ℕ) → HashMap (List ℕ)
index_steps path_index [] index = index
index_steps path_index (step ∷ steps) index =
    index_steps path_index steps
      (insert step.pool_address (paths_of step.pool_address index ++ path_index ∷ []) index)

unfoldable pub index_paths : ℕ → List SwapPath → HashMap (List ℕ) → HashMap (List ℕ)
index_paths path_index [] index = index
index_paths path_index (path ∷ paths) index =
    index_paths (suc path_index) paths (index_steps path_index path.steps index)

unfoldable pub min_profit_of : U256 → U256
min_profit_of initial_amount =
    let flash_loan_fee = initial_amount * 9 / 10000 in
    let repayment_amount = initial_amount + flash_loan_fee in
    let min_profit_percentage = initial_amount * 1 / 100 in repayment_amount + min_profit_percentage

pub record Searchoor : Type 0 where
  pub path_index : HashMap (List ℕ)
  pub cycles : List SwapPath
  pub min_profit : U256

unfoldable pub new : List SwapPath → Searchoor
new cycles = record {
  path_index = index_paths 0 cycles [];
  cycles = cycles;
  min_profit = min_profit_of amount;
}

-- `1e18`, the bound on an estimate that is believed
abbrev pub estimate_limit : U256
estimate_limit = 1_000_000_000_000_000_000

-- `&self.cycles[index]` panics out of range.
unfoldable pub paths_at : List SwapPath → List ℕ → Outcome (List SwapPath)
paths_at cycles [] = ok []
paths_at cycles (i ∷ indices) = do
  path ← unwrap (get_elem? cycles i)
  paths ← paths_at cycles indices
  ok (path ∷ paths)

unfoldable pub touched_indices : Searchoor → List Address → List ℕ
touched_indices s [] = []
touched_indices s (pool ∷ pools) = paths_of pool s.path_index ++ touched_indices s pools

-- `filter_map` over the affected paths, with the estimate of each.
unfoldable pub profitable : U256 → (SwapPath → U256) → List SwapPath → List (SwapPath × U256)
profitable min_profit estimate [] = []
profitable min_profit estimate (path ∷ paths) =
    let rest = profitable min_profit estimate paths in
    if leb min_profit (estimate path) && ltb (estimate path) estimate_limit
    then (path, estimate path) ∷ rest
    else rest

-- `max_by_key` returns the last of the greatest.
unfoldable pub max_by_amount : List (SwapPath × U256) → Option (SwapPath × U256)
max_by_amount [] = none
max_by_amount (x ∷ xs) = elim (max_by_amount xs) [
  | none ↦ some x
  | some best ↦ if ltb best.1 x.1 then some x else some best
]

-- The set that `collect` builds visits its paths in some order.
pub record PathSet : Type 0 where
  pub collect : List SwapPath → List SwapPath
  pub collect-In : (xs : List SwapPath) (x : SwapPath) → In x (collect xs) ↔ In x xs

-- One event: the cache after the search, and the path that is sent, if any. `estimate` is the
-- estimator after `update_rates`, `cache` the cache after `invalidate_cache`.
module _ (set : PathSet) (swaps : Swaps) (estimate : SwapPath → U256) where
  unfoldable pub confirm :
      Searchoor → Cache → Option (SwapPath × U256) → Outcome (Cache × Option (SwapPath × U256))
  confirm s cache none = ok (cache, none)
  confirm s cache (some (path, estimated)) = do
    (after, calculated_out) ← calculate_output swaps cache path
    if leb s.min_profit calculated_out
        then ok (after, some (path, calculated_out))
        else ok (after, none)

  unfoldable pub search_paths :
      Searchoor → Cache → List Address → Outcome (Cache × Option (SwapPath × U256))
  search_paths s cache pools = do
    touched ← paths_at s.cycles (touched_indices s pools)
    let affected_paths = set.collect touched
    confirm s cache (max_by_amount (profitable s.min_profit estimate affected_paths))
