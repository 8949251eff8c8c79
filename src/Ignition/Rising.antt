-- ===== src/Ignition/Rising.antt =====
-- Strictly ascending lists of block numbers between two bounds.
use base_buster.Prelude.{ℕ, ◌≤◌, ◌<◌, ◌≡◌, ◌⊎◌, inl, inr, List, [], ◌∷◌, ◌++◌, arith}

abbrev pub Rising : ℕ → ℕ → List ℕ → Type 0
Rising lo hi [] = lo ≤ hi
Rising lo hi (x ∷ xs) = (lo < x) × Rising x hi xs

Rising-lower : (lo mid hi : ℕ) (xs : List ℕ) → lo ≤ mid → Rising mid hi xs → Rising lo hi xs
Rising-lower lo mid hi [] le h = omega arith
Rising-lower lo mid hi (x ∷ xs) le (lt, h) = (omega arith, h)

pub Rising-snoc :
    (lo hi n : ℕ) (xs : List ℕ) → hi < n → Rising lo hi xs → Rising lo n (xs ++ n ∷ [])
Rising-snoc lo hi n [] lt h = (omega arith, omega arith)
Rising-snoc lo hi n (x ∷ xs) lt (a, h) = (a, Rising-snoc x hi n xs lt h)

pub Rising-under :
    (hi : ℕ) (before xs ys : List ℕ) (lo : ℕ)
    → ((z : ℕ) → Rising z hi xs → Rising z hi ys)
    → Rising lo hi (before ++ xs)
    → Rising lo hi (before ++ ys)
Rising-under hi [] xs ys lo f h = f lo h
Rising-under hi (x ∷ before) xs ys lo f (a, h) = (a, Rising-under hi before xs ys x f h)

-- A block leaves one channel, and passes to the one before it or is dropped.
pub Rising-pass :
    (hi b : ℕ) (before moved rest : List ℕ) (lo : ℕ)
    → (moved ≡ []) ⊎ (moved ≡ b ∷ [])
    → Rising lo hi (before ++ b ∷ rest)
    → Rising lo hi ((before ++ moved) ++ rest)
Rising-pass hi b [] moved rest lo (inl e) (lt, h) = rw e (Rising-lower lo b hi rest (omega arith) h)
Rising-pass hi b [] moved rest lo (inr e) h = rw e h
Rising-pass hi b (x ∷ before) moved rest lo m (lt, h) =
    (lt, Rising-pass hi b before moved rest x m h)
