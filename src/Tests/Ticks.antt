-- ===== src/Tests/Ticks.antt =====
-- A run of a Uniswap V3 pool through the database.
use base_buster.Prelude.{
  ℕ, ◌^◌, ◌<◌, ◌≡◌, ◌≢◌, refl, sym, ap, ◌∙◌, true, false, List, [], ◌∷◌, ◌++◌, none, some, ok,
  arith, All,
}
use base_buster.Prelude.Maps.{lookup}
use base_buster.Prelude.Int.{ℤ, pos, negsuc}
use base_buster.Prelude.Signed.{of_bits, FitsSigned, of_bits-to_bits}
use base_buster.Pool.{Pool, V3Pool, uniswap_v3}
use base_buster.StateDb.Types.{BlockStateDb, Provider}
use base_buster.StateDb.Database.{basic_ref}
use base_buster.StateDb.V3.{
  insert_v3, slot0, liquidity, tick_spacing, ticks_liquidity_net, tick_bitmap, tick_word,
  hashed_slot,
}
use base_buster.StateDb.V3.Entries.{NoCollision, FitsTypes}
use base_buster.StateDb.V3.RoundTrip.{insert_v3-get}
use base_buster.Tests.Data.{test_evm, node, empty_db, test_pool, some_info}

wide : (t : ℤ) → FitsSigned (2 ^ 31) t → FitsSigned (2 ^ 255) t
wide (pos n) f = omega arith
wide (negsuc n) f = omega arith

tick_word-injective :
    (t u : ℤ) → FitsSigned (2 ^ 31) t → FitsSigned (2 ^ 31) u → tick_word t ≡ tick_word u → t ≡ u
tick_word-injective t u f g e =
    sym (of_bits-to_bits (2 ^ 255) t (omega arith) (wide t f))
    ∙ ap (of_bits (2 ^ 255)) e
    ∙ of_bits-to_bits (2 ^ 255) u (omega arith) (wide u g)

apart :
    (t u : ℤ) (o r : ℕ)
    → FitsSigned (2 ^ 31) t
    → FitsSigned (2 ^ 31) u
    → o < 8
    → r < 8
    → hashed_slot test_evm (tick_word t) o ≡ hashed_slot test_evm (tick_word u) r
    → (t ≡ u) × (o ≡ r)
apart t u o r f g a b e =
    let same : tick_word t ≡ tick_word u = omega arith in
    (tick_word-injective t u f g same, omega arith)

no_collision : NoCollision test_evm
no_collision = record { apart = apart; high = λ t o f h. omega arith }

abbrev test_v3 : V3Pool
test_v3 = record {
  sqrt_price = 1000;
  tick = negsuc 4;
  liquidity = 77;
  tick_spacing = pos 10;
  ticks = (negsuc 19, pos 5) ∷ (pos 20, negsuc 4) ∷ [];
  tick_bitmap = (negsuc 0, 6) ∷ [];
  fee = 500;
}

fits : FitsTypes test_v3 10
fits = record {
  sqrt_price = omega arith;
  tick = omega arith;
  liquidity = omega arith;
  spacing_is = refl;
  spacing_small = omega arith;
  ticks = ((omega arith, omega arith), ((omega arith, omega arith), tt));
  words = (omega arith, tt);
}

abbrev v3_pool : Pool
v3_pool = record test_pool {
  pool_type = uniswap_v3;
  is_v2 = false;
  is_v3 = true;
  get_v2 = none;
  get_v3 = some test_v3;
}

info_new : basic_ref test_evm node empty_db 1 ≡ ok (some some_info)
unfolding basic_ref lookup
info_new = refl

insert_v3-get_example :
    (db' : BlockStateDb) × (insert_v3 test_evm node empty_db v3_pool ≡ ok db')
    × (slot0 db' 1
        ≡ ok (record {
          sqrt_price_x96 = 1000;
          tick = negsuc 4;
          observation_index = 0;
          observation_cardinality = 0;
          observation_cardinality_next = 0;
          fee_protocol = 0;
          unlocked = true;
        }))
    × (liquidity db' 1 ≡ ok 77)
    × (tick_spacing db' 1 ≡ ok 10)
    × ((q : Provider) (before : List (ℤ × ℤ)) (t net : ℤ) (after : List (ℤ × ℤ))
        → test_v3.ticks ≡ before ++ (t, net) ∷ after
        → All (λ y. t ≢ y.0) after
        → ticks_liquidity_net test_evm q db' 1 t ≡ ok net)
    × ((q : Provider) (before : List (ℤ × ℕ)) (t : ℤ) (bitmap : ℕ) (after : List (ℤ × ℕ))
        → test_v3.tick_bitmap ≡ before ++ (t, bitmap) ∷ after
        → All (λ y. t ≢ y.0) after
        → tick_bitmap test_evm q db' 1 t ≡ ok bitmap)
insert_v3-get_example =
    insert_v3-get test_evm no_collision node empty_db v3_pool some_info info_new test_v3 refl 10
      fits
