-- ===== src/Cache.antt =====
-- src/cache.rs: the outputs of swaps, by pool and input amount.
pub mod Laws
use base_buster.Prelude.{ℕ, Bool, List, [], ◌∷◌, Option, none, some, ◌==◌, ◌&&◌, if◌then◌else◌}
use base_buster.Pool.{Address, U256}

pub record CacheKey : Type 0 where
  pub pool_address : Address
  pub amount_in : U256

abbrev pub same_key : CacheKey → CacheKey → Bool
same_key a b = (a.pool_address == b.pool_address) && (a.amount_in == b.amount_in)

pub record CacheEntry : Type 0 where
  pub output_amount : U256

-- The `DashMap`, as the list of its entries.
abbrev pub Cache : Type 0
Cache = List (CacheKey × CacheEntry)

abbrev pub empty_cache : Cache
empty_cache = []

unfoldable pub find_entry : CacheKey → Cache → Option U256
find_entry key [] = none
find_entry key ((k, entry) ∷ entries) =
    if same_key key k then some entry.output_amount else find_entry key entries

unfoldable pub get : Cache → U256 → Address → Option U256
get entries amount_in pool_address =
    find_entry (record { pool_address = pool_address; amount_in = amount_in }) entries

-- `retain` drops the pool's entries.
unfoldable pub invalidate : Cache → Address → Cache
invalidate [] pool_address = []
invalidate ((key, entry) ∷ entries) pool_address =
    let rest = invalidate entries pool_address in
    if key.pool_address == pool_address then rest else (key, entry) ∷ rest
