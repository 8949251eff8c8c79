-- ===== src/Prelude/Results.antt =====
-- The outcome of a Rust call: a value, an `Err`, or a panic (`unwrap` on nothing, `panic!`,
-- `todo!`, an index out of range, a division by zero).
use mathlib.Core.Path.{◌≡◌, refl}
use mathlib.Core.Option.{Option, none, some}

pub data Error : Type 0 where
  transport library insufficient_liquidity liquidity_overflow reverted : Error

pub data Outcome {ℓ} (A : Type ℓ) : Type ℓ where
  ok : A → Outcome A
  err : Error → Outcome A
  panic : Outcome A

-- The `?` operator: an error or a panic ends the function.
infixl 5 ◌>>=◌
abbrev pub ◌>>=◌ {κ μ} : {V : Type κ} {W : Type μ} → Outcome V → (V → Outcome W) → Outcome W
panic >>= next = panic
err problem >>= next = err problem
ok v >>= next = next v

-- `Option::unwrap`.
abbrev pub unwrap {ℓ} : {A : Type ℓ} → Option A → Outcome A
unwrap none = panic
unwrap (some a) = ok a

-- `Result::unwrap`: an `Err` is a panic.
abbrev pub expect_ok {ℓ} : {A : Type ℓ} → Outcome A → Outcome A
expect_ok (ok a) = ok a
expect_ok (err e) = panic
expect_ok panic = panic

-- A chain that succeeds succeeded at its first step, and from that value on.
pub >>=-eq-ok {κ μ} :
    {V : Type κ} {W : Type μ} (first : Outcome V) (next : V → Outcome W) {w : W}
    → (first >>= next) ≡ ok w
    → (v : V) × (first ≡ ok v) × (next v ≡ ok w)
>>=-eq-ok panic next success = cc
>>=-eq-ok (err problem) next success = cc
>>=-eq-ok (ok v) next success = (v, refl, success)

pub >>=-assoc {ℓ κ μ} :
    {A : Type ℓ} {B : Type κ} {C : Type μ} (m : Outcome A) (f : A → Outcome B) (g : B → Outcome C)
    → ((m >>= f) >>= g) ≡ (m >>= λ a. f a >>= g)
>>=-assoc (ok a) f g = refl
>>=-assoc (err e) f g = refl
>>=-assoc panic f g = refl

-- Continuations that agree everywhere make equal chains.
pub >>=-ext {ℓ κ} :
    {A : Type ℓ} {B : Type κ} (m : Outcome A) (f g : A → Outcome B)
    → ((a : A) → f a ≡ g a)
    → (m >>= f) ≡ (m >>= g)
>>=-ext (ok a) f g h = h a
>>=-ext (err e) f g h = refl
>>=-ext panic f g h = refl

pub ok-injective {ℓ} : {A : Type ℓ} {a b : A} → ok a ≡ ok b → a ≡ b
ok-injective h = cc

pub some-injective {ℓ} : {A : Type ℓ} {a b : A} → some a ≡ some b → a ≡ b
some-injective h = cc

pub unwrap-some {ℓ} : {A : Type ℓ} (o : Option A) (a : A) → unwrap o ≡ ok a → o ≡ some a
unwrap-some none a h = cc
unwrap-some (some b) a h = cc

pub expect_ok-ok {ℓ} : {A : Type ℓ} (m : Outcome A) (a : A) → expect_ok m ≡ ok a → m ≡ ok a
expect_ok-ok (ok b) a h = h
expect_ok-ok (err e) a h = cc
expect_ok-ok panic a h = cc
