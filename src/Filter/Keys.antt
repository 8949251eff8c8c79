-- ===== src/Filter/Keys.antt =====
-- src/filter.rs: the key that each of the three cases takes, and the entry that it leaves.
use mathlib.Core.Path.{subst}
use base_buster.Prelude.{
  ℕ, ◌≡◌, ◌≢◌, sym, ap, ◌∙◌, ◌⊎◌, inl, inr, true, List, [], ◌∷◌, Option, none, some, some-injective,
  ◌==◌, ==_iff, contains, In, In→contains, contains→In, lookup, insert, lookup-insert, HashMap,
  Bool-cases, Option-cases,
}
use base_buster.Pool.{U256}
use base_buster.Filter.SlotMap.{
  known_slots, implementation_slot, first_known, first_other, insert_some, insert_absent, only_key,
}

-- A key of the list that is not the slot of a proxy's implementation.
abbrev pub OwnKey : U256 → List U256 → Type 0
OwnKey slot storage_keys = In slot storage_keys × (slot ≢ implementation_slot)

pub only_key-OwnKey :
    (keys : List U256) (slot : U256) → only_key keys ≡ some slot → OwnKey slot keys
unfolding only_key
only_key-OwnKey [] slot h = cc
only_key-OwnKey (key ∷ []) slot h = elim (Bool-cases (key == implementation_slot)) [
  | inl e ↦ let bad = rw e at h in cc
  | inr e ↦
      let same = some-injective (rw e at h) in
      (inl (sym same), λ i. let c = ap (λ z. z == implementation_slot) (same ∙ i) in cc)
]
only_key-OwnKey (key ∷ key' ∷ keys) slot h = cc

pub first_other-OwnKey :
    (keys : List U256) (slot : U256) → first_other keys ≡ some slot → OwnKey slot keys
unfolding first_other
first_other-OwnKey [] slot h = cc
first_other-OwnKey (key ∷ keys) slot h = elim (Bool-cases (key == implementation_slot)) [
  | inl e ↦
      let (there, other) = first_other-OwnKey keys slot (rw (e, first_other) at h) in
      (inr there, other)
  | inr e ↦
      let same = some-injective (rw (e, first_other) at h) in
      (inl (sym same), λ i. let c = ap (λ z. z == implementation_slot) (same ∙ i) in cc)
]

first_known-In :
    (known keys : List U256) (slot : U256)
    → first_known known keys ≡ some slot
    → In slot known × In slot keys
unfolding first_known
first_known-In [] keys slot h = cc
first_known-In (key ∷ known) keys slot h = elim (Bool-cases (contains key keys)) [
  | inl e ↦
      let same = some-injective (rw (e, first_known) at h) in
      (inl (sym same), subst (λ z. In z keys) same (contains→In key keys e))
  | inr e ↦
      let (there, among) = first_known-In known keys slot (rw (e, first_known) at h) in
      (inr there, among)
]

pub first_known-OwnKey :
    (keys : List U256) (slot : U256) → first_known known_slots keys ≡ some slot → OwnKey slot keys
first_known-OwnKey keys slot h =
    let (known, among) = first_known-In known_slots keys slot h in
    (
      among,
      λ i.
          let c = In→contains slot known_slots known in
          let d : contains implementation_slot known_slots ≡ true =
            subst (λ z. contains z known_slots ≡ true) i c in
          cc,
    )

-- An entry of a map after an insertion was there or is the new one.
pub lookup-insert_cases :
    (other token slot slot' : ℕ) (m : HashMap U256)
    → lookup other (insert token slot m) ≡ some slot'
    → (lookup other m ≡ some slot') ⊎ ((other ≡ token) × (slot ≡ slot'))
lookup-insert_cases other token slot slot' m h = elim (Bool-cases (other == token)) [
  | inl e ↦ inr (
    (==_iff other token).0 e,
    some-injective (rw e at (sym (lookup-insert other token slot m) ∙ h)),
  )
  | inr e ↦ inl (rw e at (sym (lookup-insert other token slot m) ∙ h))
]

pub insert_some-lookup :
    (other token slot' : ℕ) (found : Option U256) (m : HashMap U256)
    → lookup other (insert_some token found m) ≡ some slot'
    → (lookup other m ≡ some slot') ⊎ ((other ≡ token) × (found ≡ some slot'))
unfolding insert_some
insert_some-lookup other token slot' none m h = inl h
insert_some-lookup other token slot' (some slot) m h =
    elim (lookup-insert_cases other token slot slot' m h) [
      | inl old ↦ inl old
      | inr (e, same) ↦ inr (e, ap some same)
    ]

pub insert_absent-lookup :
    (other token slot' : ℕ) (found : Option U256) (m : HashMap U256)
    → lookup other (insert_absent token found m) ≡ some slot'
    → (lookup other m ≡ some slot') ⊎ ((other ≡ token) × (found ≡ some slot'))
unfolding insert_absent
insert_absent-lookup other token slot' found m h = elim (Option-cases (lookup token m)) [
  | inl e ↦ insert_some-lookup other token slot' found m (rw (e, insert_absent) at h)
  | inr (v, e) ↦ inl (rw (e, insert_absent) at h)
]
