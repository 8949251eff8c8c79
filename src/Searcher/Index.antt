-- ===== src/Searcher/Index.antt =====
-- The index of paths: what it lists for a pool.
use mathlib.Core.Path.{subst}
use base_buster.Prelude.{
  ◌≢◌, ℕ, zero, suc, ◌+◌, ◌≡◌, refl, sym, ◌⊎◌, inl, inr, ◌↔◌, List, [], ◌∷◌, ◌++◌, map, none, some,
  ◌==◌, if◌then◌else◌, arith, HashMap, insert, lookup-insert, lookup-nil, get_elem?, In, In-append,
  In-append_left, In-append_right, Bool-cases, ==_iff,
}
use base_buster.Pool.{Address}
use base_buster.Swap.{SwapPath, SwapStep}
use base_buster.Searcher.{new, paths_of, index_steps, index_paths}

abbrev pub Touches : Address → List SwapStep → Type 0
Touches q steps = In q (map (λ step. step.pool_address) steps)

paths_of-insert :
    (q p : Address) (v : List ℕ) (index : HashMap (List ℕ))
    → paths_of q (insert p v index) ≡ (if q == p then v else paths_of q index)
unfolding paths_of
paths_of-insert q p v index =
    let e = lookup-insert q p v index in
    elim (Bool-cases (q == p)) [
      | inl h ↦ rw (e, h, paths_of) refl
      | inr h ↦ rw (e, h, paths_of) refl
    ]

-- What the index lists after one push.
push-In :
    (j i : ℕ) (q p : Address) (index : HashMap (List ℕ))
    → In j (paths_of q (insert p (paths_of p index ++ i ∷ []) index))
      ↔ (In j (paths_of q index) ⊎ ((j ≡ i) × (q ≡ p)))
push-In j i q p index =
    let e = paths_of-insert q p (paths_of p index ++ i ∷ []) index in
    elim (Bool-cases (q == p)) [
      | inl h ↦
          let same : q ≡ p = (==_iff q p).0 h in
          let there = In-append j (paths_of p index) (i ∷ []) in
          let left = In-append_left j (paths_of p index) (i ∷ []) in
          let right = In-append_right j (paths_of p index) (i ∷ []) in
          rw (e, h, same)
            (
              λ m. elim (there m) [
                | inl l ↦ inl l
                | inr r ↦ elim r [ inl x ↦ inr (x, refl) | inr b ↦ absurd b ]
              ],
              λ m. elim m [ inl l ↦ left l | inr x ↦ right (inl x.0) ],
            )
      | inr h ↦
          let differ : q ≢ p = ground arith in
          rw (e, h) (inl, λ m. elim m [ inl l ↦ l | inr x ↦ absurd (differ x.1) ])
    ]

index_steps-In :
    (j i : ℕ) (q : Address) (steps : List SwapStep) (index : HashMap (List ℕ))
    → In j (paths_of q (index_steps i steps index))
      ↔ (In j (paths_of q index) ⊎ ((j ≡ i) × Touches q steps))
unfolding index_steps
index_steps-In j i q [] index = (inl, λ m. elim m [ inl l ↦ l | inr x ↦ absurd x.1 ])
index_steps-In j i q (step ∷ steps) index =
    let after = insert step.pool_address (paths_of step.pool_address index ++ i ∷ []) index in
    let ih = index_steps-In j i q steps after in
    let one = push-In j i q step.pool_address index in
    (
      λ m. elim (ih.0 m) [
        | inl l ↦ elim (one.0 l) [ inl k ↦ inl k | inr x ↦ inr (x.0, inl x.1) ]
        | inr x ↦ inr (x.0, inr x.1)
      ],
      λ m. elim m [
        | inl l ↦ ih.1 (inl (one.1 (inl l)))
        | inr (e, inl x) ↦ ih.1 (inl (one.1 (inr (e, x))))
        | inr (e, inr x) ↦ ih.1 (inr (e, x))
      ],
    )

-- A path of the list that touches q, with its number.
abbrev pub Indexed : ℕ → Address → ℕ → List SwapPath → Type 0
Indexed j q i paths =
    (k : ℕ) × (path : SwapPath) × (j ≡ i + k)
    × (get_elem? paths k ≡ some path)
    × Touches q path.steps

Indexed-tail :
    (j i : ℕ) (q : Address) (path : SwapPath) (paths : List SwapPath)
    → Indexed j q i (path ∷ paths)
    → ((j ≡ i) × Touches q path.steps) ⊎ Indexed j q (suc i) paths
Indexed-tail j i q path paths (zero, p, e, g, t) = inl (
  omega arith,
  subst (λ o. elim o [ none ↦ Touches q p.steps | some r ↦ Touches q r.steps ]) (sym g) t,
)
Indexed-tail j i q path paths (suc k, p, e, g, t) = inr (k, p, omega arith, g, t)

index_paths-In :
    (j i : ℕ) (q : Address) (paths : List SwapPath) (index : HashMap (List ℕ))
    → In j (paths_of q (index_paths i paths index))
      ↔ (In j (paths_of q index) ⊎ Indexed j q i paths)
unfolding index_paths
index_paths-In j i q [] index = (inl, λ m. elim m [ inl l ↦ l | inr (k, p, e, g, t) ↦ cc ])
index_paths-In j i q (path ∷ paths) index =
    let ih = index_paths-In j (suc i) q paths (index_steps i path.steps index) in
    let one = index_steps-In j i q path.steps index in
    (
      λ m. elim (ih.0 m) [
        | inl l ↦ elim (one.0 l) [
          | inl k ↦ inl k
          | inr (e, t) ↦ inr (0, path, omega arith, refl, t)
        ]
        | inr (k, p, e, g, t) ↦ inr (suc k, p, omega arith, g, t)
      ],
      λ m. elim m [
        | inl l ↦ ih.1 (inl (one.1 (inl l)))
        | inr x ↦ elim (Indexed-tail j i q path paths x) [
          | inl h ↦ ih.1 (inl (one.1 (inr h)))
          | inr h ↦ ih.1 (inr h)
        ]
      ],
    )

paths_of-nil : (q : Address) → paths_of q [] ≡ []
unfolding paths_of
paths_of-nil q = rw (lookup-nil {0} {V = List ℕ} q, paths_of) refl

-- The index lists for a pool exactly the numbers of the paths with a step at that pool.
pub new-Indexed :
    (cycles : List SwapPath) (q : Address) (j : ℕ)
    → In j (paths_of q (new cycles).path_index)
      ↔ ((path : SwapPath) × (get_elem? cycles j ≡ some path) × Touches q path.steps)
unfolding new
new-Indexed cycles q j =
    let h = index_paths-In j 0 q cycles [] in
    (
      λ m. elim (h.0 m) [
        | inl l ↦ absurd (subst (In j) (paths_of-nil q) l)
        | inr (k, p, e, g, t) ↦ (p, subst (λ n. get_elem? cycles n ≡ some p) (omega arith) g, t)
      ],
      λ (p, g, t). h.1 (inr (j, p, omega arith, g, t)),
    )
