-- ===== src/Graph/Build/Nodes.antt =====
-- The nodes that `find_node` finds, and lists of nodes without a repetition.
use mathlib.Core.Path.{subst}
use base_buster.Prelude.{
  ℕ, zero, suc, ◌+◌, ◌≡◌, refl, sym, ap, ◌∙◌, ◌⊎◌, inl, inr, List, [], ◌∷◌, ◌++◌, length, some,
  some-injective, ◌==◌, get_elem?, get_elem?-In, arith, Bool-cases, In, ==_iff,
}
use base_buster.Pool.{Address}
use base_buster.Graph.Build.{find_node}

find_node-get :
    (token : Address) (weights : List Address) (k i : ℕ)
    → find_node token weights k ≡ some i
    → (j : ℕ) × (i ≡ k + j) × (get_elem? weights j ≡ some token)
unfolding find_node
find_node-get token [] k i h = cc
find_node-get token (w ∷ weights) k i h = elim (Bool-cases (w == token)) [
  | inl e ↦
      let same = some-injective (rw (e, find_node) at h) in
      (0, omega (arith, same), ap some ((==_iff w token).0 e))
  | inr e ↦
      let (j, p, q) = find_node-get token weights (suc k) i (rw (e, find_node) at h) in
      (suc j, omega (arith, p), q)
]

pub find_node_first :
    (token : Address) (weights : List Address) (i : ℕ)
    → find_node token weights 0 ≡ some i
    → get_elem? weights i ≡ some token
find_node_first token weights i h =
    let (j, p, q) = find_node-get token weights 0 i h in
    let same : j ≡ i = omega (arith, p) in subst (λ z. get_elem? weights z ≡ some token) same q

pub get-append :
    (xs ys : List Address) (i : ℕ) (a : Address)
    → get_elem? xs i ≡ some a
    → get_elem? (xs ++ ys) i ≡ some a
get-append [] ys i a h = cc
get-append (x ∷ xs) ys zero a h = h
get-append (x ∷ xs) ys (suc i) a h = get-append xs ys i a h

get-snoc :
    (xs : List Address) (a b : Address) (i : ℕ)
    → get_elem? (xs ++ a ∷ []) i ≡ some b
    → (get_elem? xs i ≡ some b) ⊎ ((i ≡ length xs) × (b ≡ a))
get-snoc [] a b zero h = inr (refl, sym (some-injective h))
get-snoc [] a b (suc i) h = cc
get-snoc (x ∷ xs) a b zero h = inl h
get-snoc (x ∷ xs) a b (suc i) h = elim (get-snoc xs a b i h) [
  | inl e ↦ inl e
  | inr (p, q) ↦ inr (ap suc p, q)
]

-- No token has two nodes.
abbrev pub Distinct : List Address → Type 0
Distinct xs = (i j : ℕ) (a : Address) → get_elem? xs i ≡ some a → get_elem? xs j ≡ some a → i ≡ j

pub Distinct-snoc :
    (xs : List Address) (a : Address) → (In a xs → ⊥) → Distinct xs → Distinct (xs ++ a ∷ [])
Distinct-snoc xs a fresh h i j b p q = elim (get-snoc xs a b i p) [
  | inl p' ↦ elim (get-snoc xs a b j q) [
    | inl q' ↦ h i j b p' q'
    | inr (_, e) ↦ absurd (fresh (subst (λ z. In z xs) e (get_elem?-In xs i b p')))
  ]
  | inr (m, e) ↦ elim (get-snoc xs a b j q) [
    | inl q' ↦ absurd (fresh (subst (λ z. In z xs) e (get_elem?-In xs j b q')))
    | inr (n, _) ↦ m ∙ sym n
  ]
]
