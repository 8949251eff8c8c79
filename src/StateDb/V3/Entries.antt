-- ===== src/StateDb/V3/Entries.antt =====
-- The slots that `insert_v3` of src/state_db/v3_db.rs writes, and which of them each read finds.
use base_buster.Prelude.{
  ℕ, ◌^◌, ◌≤◌, ◌<◌, ◌≡◌, ◌≢◌, refl, List, [], ◌∷◌, ◌++◌, map, Option, none, some, All, All-imp,
  arith, eq_self,
}
use base_buster.Prelude.Int.{ℤ, pos}
use base_buster.Prelude.Signed.{FitsSigned}
use base_buster.Pool.{U256, V3Pool}
use base_buster.StateDb.Types.{Evm}
use base_buster.StateDb.Insertions.{last_entry}
use base_buster.StateDb.V3.{hashed_slot, tick_word, slot0_word}
use base_buster.StateDb.V3.Writes.{tick_change, bitmap_change}

-- What is assumed of keccak: over ticks of 32 bits and the mapping offsets below 8, no two entries
-- share a slot, and none has one of the slots 0 to 14.
pub record NoCollision (evm : Evm) : Type 0 where
  pub apart :
      (t u : ℤ) (o r : ℕ)
      → FitsSigned (2 ^ 31) t
      → FitsSigned (2 ^ 31) u
      → o < 8
      → r < 8
      → hashed_slot evm (tick_word t) o ≡ hashed_slot evm (tick_word u) r
      → (t ≡ u) × (o ≡ r)
  pub high : (t : ℤ) (o : ℕ) → FitsSigned (2 ^ 31) t → o < 8 → 14 < hashed_slot evm (tick_word t) o

-- The pool's values fit the types that the program gives them; the tick fits 24 bits and the
-- spacing is positive, as in every Uniswap V3 pool.
pub record FitsTypes (v3 : V3Pool) (spacing : ℕ) : Type 0 where
  pub sqrt_price : v3.sqrt_price < 2 ^ 160
  pub tick : FitsSigned (2 ^ 23) v3.tick
  pub liquidity : v3.liquidity < 2 ^ 128
  pub spacing_is : v3.tick_spacing ≡ pos spacing
  pub spacing_small : spacing < 2 ^ 31
  pub ticks : All (λ e. FitsSigned (2 ^ 31) e.0 × FitsSigned (2 ^ 127) e.1) v3.ticks
  pub words : All (λ e. FitsSigned (2 ^ 31) e.0) v3.tick_bitmap

last_entry-append :
    (xs ys : List (U256 × U256)) (j : U256)
    → last_entry (xs ++ ys) j ≡ elim (last_entry ys j) [ some w ↦ some w | none ↦ last_entry xs j ]
last_entry-append [] ys j = ground arith
last_entry-append (x ∷ xs) ys j = ground (arith, last_entry-append xs ys j)

last_entry_absent :
    {A : Type 0} (f : A → U256 × U256) (xs : List A) (j : U256)
    → All (λ x. j ≢ (f x).0) xs
    → last_entry (map f xs) j ≡ none
last_entry_absent f [] j h = refl
last_entry_absent f (x ∷ xs) j h = ground (arith, last_entry_absent f xs j h.1, h.0)

-- The entry of a list that no later entry has the key of.
last_entry_middle :
    {A : Type 0} (f : A → U256 × U256) (before : List A) (x : A) (after : List A)
    → All (λ y. (f x).0 ≢ (f y).0) after
    → last_entry (map f (before ++ x ∷ after)) (f x).0 ≡ some (f x).1
last_entry_middle f [] x after h =
    ground (arith, last_entry_absent f after (f x).0 h, eq_self (f x).0)
last_entry_middle f (y ∷ before) x after h = rw (last_entry_middle f before x after h)

module _ (evm : Evm) (nc : NoCollision evm) (v3 : V3Pool) (spacing : ℕ)
    (fits : FitsTypes v3 spacing) where
  abbrev pub mapped : List (U256 × U256)
  mapped = map (tick_change evm) v3.ticks ++ map (bitmap_change evm) v3.tick_bitmap

  -- Everything that `insert_v3` writes, in order.
  abbrev pub changes : List (U256 × U256)
  changes = (0, slot0_word v3.sqrt_price v3.tick) ∷ (4, v3.liquidity) ∷ (14, spacing) ∷ mapped

  pub mapped_low : (j : U256) → j ≤ 14 → last_entry mapped j ≡ none
  mapped_low j h =
      let ticks : All (λ e. j ≢ (tick_change evm e).0) v3.ticks =
        All-imp v3.ticks (λ e f same. omega (arith, nc.high e.0 5 f.0 (omega arith))) fits.ticks in
      let words : All (λ e. j ≢ (bitmap_change evm e).0) v3.tick_bitmap =
        All-imp v3.tick_bitmap (λ e f same. omega (arith, nc.high e.0 6 f (omega arith)))
          fits.words in
      rw
        (last_entry-append (map (tick_change evm) v3.ticks) (map (bitmap_change evm) v3.tick_bitmap)
          j)
        (rw (last_entry_absent (bitmap_change evm) v3.tick_bitmap j words)
          (last_entry_absent (tick_change evm) v3.ticks j ticks))

  -- A mapping slot is none of the three fixed ones.
  changes_high :
      (j : U256) {o : Option U256} → 14 < j → last_entry mapped j ≡ o → last_entry changes j ≡ o
  changes_high j {o} h e = ground arith

  pub tick_entry :
      (before : List (ℤ × ℤ)) (t net : ℤ) (after : List (ℤ × ℤ))
      → v3.ticks ≡ before ++ (t, net) ∷ after
      → FitsSigned (2 ^ 31) t
      → All (λ y. (t ≢ y.0) × FitsSigned (2 ^ 31) y.0) after
      → last_entry changes (tick_change evm (t, net)).0 ≡ some (tick_change evm (t, net)).1
  tick_entry before t net after split ft later =
      let key = (tick_change evm (t, net)).0 in
      let distinct : All (λ y. key ≢ (tick_change evm y).0) after =
        All-imp after
          (λ y h same. h.0 (nc.apart t y.0 5 5 ft h.1 (omega arith) (omega arith) same).0) later in
      let words : All (λ e. key ≢ (bitmap_change evm e).0) v3.tick_bitmap =
        All-imp v3.tick_bitmap
          (λ e f same. omega (arith, (nc.apart t e.0 5 6 ft f (omega arith) (omega arith) same).1))
          fits.words in
      changes_high key (nc.high t 5 ft (omega arith)) (
        rw
          (last_entry-append (map (tick_change evm) v3.ticks)
            (map (bitmap_change evm) v3.tick_bitmap) key)
          (rw (last_entry_absent (bitmap_change evm) v3.tick_bitmap key words)
            (rw split (last_entry_middle (tick_change evm) before (t, net) after distinct))))

  pub word_entry :
      (before : List (ℤ × U256)) (t : ℤ) (bitmap : U256) (after : List (ℤ × U256))
      → v3.tick_bitmap ≡ before ++ (t, bitmap) ∷ after
      → FitsSigned (2 ^ 31) t
      → All (λ y. (t ≢ y.0) × FitsSigned (2 ^ 31) y.0) after
      → last_entry changes (bitmap_change evm (t, bitmap)).0 ≡ some bitmap
  word_entry before t bitmap after split ft later =
      let key = (bitmap_change evm (t, bitmap)).0 in
      let distinct : All (λ y. key ≢ (bitmap_change evm y).0) after =
        All-imp after
          (λ y h same. h.0 (nc.apart t y.0 6 6 ft h.1 (omega arith) (omega arith) same).0) later in
      changes_high key (nc.high t 6 ft (omega arith)) (
        rw
          (last_entry-append (map (tick_change evm) v3.ticks)
            (map (bitmap_change evm) v3.tick_bitmap) key)
          (rw split (rw (last_entry_middle (bitmap_change evm) before (t, bitmap) after distinct))))
