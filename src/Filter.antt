-- ===== src/Filter.antt =====
-- src/filter.rs: the working set of pools.
pub mod Routers
pub mod SlotMap
pub mod BySwap
pub mod Kept
pub mod Keys
pub mod Slots
pub mod Vetted
use base_buster.Prelude.{
  ℕ, zero, suc, ◌+◌, ◌-◌, ◌/◌, Bool, true, false, not, ◌&&◌, List, [], ◌∷◌, ◌++◌, Option, none,
  some, Outcome, ok, err, panic, unwrap, expect_ok, ◌>>=◌, ltb, if◌then◌else◌, contains,
}
use base_buster.Pool.{Address, U256, Pool}
use base_buster.Filter.Routers.{Abi}
use base_buster.Filter.SlotMap.{AccessListItem, construct_slot_map}
use base_buster.Filter.BySwap.{NodeEvm, filter_by_swap}

abbrev pub blacklist : List Address
blacklist = 0xbe5614875952b1683cb0a2c20e6509be46d353a4 ∷ []

-- The test on a pool's tokens.
abbrev pub token_match : List Address → Pool → Bool
token_match top_volume_tokens pool =
    contains pool.token0_address top_volume_tokens
    && contains pool.token1_address top_volume_tokens
    && not (contains pool.token0_address blacklist)
    && not (contains pool.token1_address blacklist)

unfoldable pub match_tokens : List Address → List Pool → List Pool
match_tokens top_volume_tokens [] = []
match_tokens top_volume_tokens (pool ∷ pools) =
    let rest = match_tokens top_volume_tokens pools in
    if token_match top_volume_tokens pool then pool ∷ rest else rest

-- `(0..num_results).step_by(50)`, from an offset and for a number of steps, with the limit 50.
unfoldable pub offsets : ℕ → ℕ → List (ℕ × ℕ)
offsets offset zero = []
offsets offset (suc steps) = (offset, 50) ∷ offsets (offset + 50) steps

-- The offset and the limit of each request.
unfoldable pub query_params : ℕ → List (ℕ × ℕ)
query_params num_results =
    if ltb num_results 50 then (0, num_results) ∷ [] else offsets 0 ((num_results + 49) / 50)

-- The answer of birdeye to a request, with addresses as `Token` text.
pub data Response (Token : Type 0) : Type 0 where
  unsent refused malformed : Response Token
  listed : List Token → Response Token

module _ {Token : Type 0} (request : ℕ → ℕ → Response Token)
    (from_str : Token → Option Address) where
  unfoldable pub fetch_lists : List (ℕ × ℕ) → Outcome (List Token)
  fetch_lists [] = ok []
  fetch_lists ((offset, num) ∷ params) = do
    results ← elim (request offset num) [
      | unsent ↦ panic
      | refused ↦ ok []
      | malformed ↦ panic
      | listed tokens ↦ ok tokens
    ]
    rest ← fetch_lists params
    ok (results ++ rest)

  unfoldable pub parse_all : List Token → Outcome (List Address)
  parse_all [] = ok []
  parse_all (text ∷ texts) = do
    address ← unwrap (from_str text)
    rest ← parse_all texts
    ok (address ∷ rest)

  unfoldable pub fetch_top_volume_tokens : ℕ → Outcome (List Address)
  fetch_top_volume_tokens num_results = do
    addresses ← fetch_lists (query_params num_results)
    parse_all addresses

  -- The cache file, if there is one, with serde's two functions; then the file afterwards. Writing
  -- it is taken to succeed.
  module _ {Json : Type 0} (to_json : List Address → Json)
      (from_json : Json → Outcome (List Address)) where
    unfoldable pub get_top_volume_tokens : Option Json → ℕ → Outcome (List Address × Option Json)
    get_top_volume_tokens (some file) num_results =
        from_json file >>= λ tokens. ok (tokens, some file)
    get_top_volume_tokens none num_results =
        fetch_top_volume_tokens num_results >>= λ tokens. ok (tokens, some (to_json tokens))

    -- `new_db` is the node's database as it is opened, once for the slots and once for the swaps.
    module _ {S : Type 0} (node : NodeEvm S) (abi : Abi)
        (access_list : S → Address → S × List AccessListItem) (new_db : S) where
      unfoldable pub filter_pools : Option Json → List Pool → ℕ → Outcome (List Pool × Option Json)
      filter_pools file pools num_results = do
        (top_volume_tokens, file') ← expect_ok (get_top_volume_tokens file num_results)
        let matched = match_tokens top_volume_tokens pools
        let slot_map = construct_slot_map access_list new_db matched
        kept ← filter_by_swap node abi slot_map new_db matched
        ok (kept, file')
