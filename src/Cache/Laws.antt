-- ===== src/Cache/Laws.antt =====
-- Lookups in the cache after an invalidation.
use base_buster.Prelude.{◌≡◌, [], ◌∷◌, none, ◌==◌, if◌then◌else◌, arith}
use base_buster.Pool.{Address, U256}
use base_buster.Cache.{Cache, find_entry, get, invalidate}

-- An invalidated pool has no entry, and every other pool keeps its entries.
pub get-invalidate :
    (c : Cache) (a : U256) (p q : Address)
    → get (invalidate c q) a p ≡ (if p == q then none else get c a p)
unfolding get find_entry invalidate
get-invalidate [] a p q = ground arith
get-invalidate ((k, e) ∷ c) a p q = ground (arith, get-invalidate c a p q)
