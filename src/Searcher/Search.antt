-- ===== src/Searcher/Search.antt =====
-- The steps of the search: the affected paths, the candidates and the best of them.
use mathlib.Core.Path.{subst}
use base_buster.Prelude.{
  ℕ, ◌≤◌, ◌<◌, ◌≡◌, refl, sym, ap, ◌∙◌, inl, inr, true, List, [], ◌∷◌, Option, none, some, ok,
  unwrap, >>=-eq-ok, ok-injective, some-injective, unwrap-some, ◌↔◌, ◌&&◌, leb, ltb, leb→le, ltb→lt,
  arith, get_elem?, In, In-append, In-append_left, In-append_right, Bool-cases, Option-cases,
}
use base_buster.Pool.{Address, U256}
use base_buster.Swap.{SwapPath}
use base_buster.Searcher.{
  Searchoor, paths_of, paths_at, touched_indices, profitable, max_by_amount, estimate_limit,
}

-- The candidates are the affected paths whose estimate is within the bounds.
pub profitable-In :
    (m : U256) (estimate : SwapPath → U256) (paths : List SwapPath) (path : SwapPath) (v : U256)
    → In (path, v) (profitable m estimate paths)
    → In path paths × (v ≡ estimate path) × (m ≤ estimate path) × (estimate path < estimate_limit)
unfolding profitable
profitable-In m estimate [] path v h = absurd h
profitable-In m estimate (p ∷ paths) path v h = elim (Bool-cases (leb m (estimate p))) [
  | inl e ↦ elim (Bool-cases (ltb (estimate p) estimate_limit)) [
    | inl g ↦ elim (simp (e, g) at h) [
      | inl r ↦
          let same : path ≡ p = ap (λ z. z.0) r in
          (
            inl same,
            ap (λ z. z.1) r ∙ ap estimate (sym same),
            subst (λ z. m ≤ estimate z) (sym same) (leb→le _ _ e),
            subst (λ z. estimate z < estimate_limit) (sym same) (ltb→lt _ _ g),
          )
      | inr r ↦ let ih = profitable-In m estimate paths path v r in (inr ih.0, ih.1, ih.2, ih.3)
    ]
    | inr g ↦
        let ih = profitable-In m estimate paths path v (simp (e, g) at h) in
        (inr ih.0, ih.1, ih.2, ih.3)
  ]
  | inr e ↦
      let ih = profitable-In m estimate paths path v (simp e at h) in (inr ih.0, ih.1, ih.2, ih.3)
]

pub In-profitable :
    (m : U256) (estimate : SwapPath → U256) (paths : List SwapPath) (path : SwapPath)
    → In path paths
    → m ≤ estimate path
    → estimate path < estimate_limit
    → In (path, estimate path) (profitable m estimate paths)
unfolding profitable
In-profitable m estimate [] path h lo hi = absurd h
In-profitable m estimate (p ∷ paths) path (inl e) lo hi =
    let a : leb m (estimate p) ≡ true = ground (arith, ap estimate e) in
    let b : ltb (estimate p) estimate_limit ≡ true = ground (arith, ap estimate e) in
    simp (a, b) (inl (ap (λ z. (z, estimate z)) e))
In-profitable m estimate (p ∷ paths) path (inr h) lo hi =
    let ih = In-profitable m estimate paths path h lo hi in
    elim (Bool-cases (leb m (estimate p) && ltb (estimate p) estimate_limit)) [
      | inl e ↦ simp e (inr ih)
      | inr e ↦ simp e ih
    ]

-- The greatest is an element and no element is greater; without one the list is empty.
abbrev pub Best : List (SwapPath × U256) → Option (SwapPath × U256) → Type 0
Best xs none = (y : SwapPath × U256) → In y xs → ⊥
Best xs (some best) = In best xs × ((y : SwapPath × U256) → In y xs → y.1 ≤ best.1)

pub max_by_amount-Best : (xs : List (SwapPath × U256)) → Best xs (max_by_amount xs)
unfolding max_by_amount
max_by_amount-Best [] = λ y h. h
max_by_amount-Best (x ∷ xs) =
    let ih = max_by_amount-Best xs in
    elim (Option-cases (max_by_amount xs)) [
      | inl e ↦
          let none_in = subst (Best xs) e ih in
          simp (e) (
            inl refl,
            λ y m. elim m [ inl r ↦ omega (arith, ap (λ z. z.1) r) | inr r ↦ absurd (none_in y r) ],
          )
      | inr (best, e) ↦
          let (there, greatest) = subst (Best xs) e ih in
          elim (Bool-cases (ltb best.1 x.1)) [
            | inl g ↦
                let lt = ltb→lt _ _ g in
                rw (e, g, max_by_amount)
                  (
                    inl refl,
                    λ y m. elim m [
                      | inl r ↦ omega (arith, ap (λ z. z.1) r)
                      | inr r ↦ let le = greatest y r in omega arith
                    ],
                  )
            | inr g ↦
                rw (e, g, max_by_amount)
                  (
                    inr there,
                    λ y m. elim m [
                      | inl r ↦ let s = ap (λ z. z.1) r in ground arith
                      | inr r ↦ greatest y r
                    ],
                  )
          ]
    ]

pub paths_at-In :
    (cycles : List SwapPath) (indices : List ℕ) (paths : List SwapPath)
    → paths_at cycles indices ≡ ok paths
    → (path : SwapPath)
    → In path paths ↔ ((j : ℕ) × In j indices × (get_elem? cycles j ≡ some path))
unfolding paths_at
paths_at-In cycles [] paths h path =
    subst (λ ps. In path ps ↔ ((j : ℕ) × ⊥ × (get_elem? cycles j ≡ some path))) (ok-injective h)
      (absurd, λ (j, m, g). absurd m)
paths_at-In cycles (i ∷ indices) paths h path =
    let (here, got, h1) = >>=-eq-ok (unwrap (get_elem? cycles i)) _ h in
    let (rest, h2, h3) = >>=-eq-ok (paths_at cycles indices) _ h1 in
    let ih = paths_at-In cycles indices rest h2 path in
    let at_i : get_elem? cycles i ≡ some here = unwrap-some (get_elem? cycles i) here got in
    subst (λ ps. In path ps ↔ ((j : ℕ) × In j (i ∷ indices) × (get_elem? cycles j ≡ some path)))
      (ok-injective h3)
      (
        λ m. elim m [
          | inl e ↦ (i, inl refl, at_i ∙ ap some (sym e))
          | inr r ↦ let (j, k, g) = ih.0 r in (j, inr k, g)
        ],
        λ (j, k, g). elim k [
          | inl e ↦ inl (some-injective (sym g ∙ ap (get_elem? cycles) e ∙ at_i))
          | inr r ↦ inr (ih.1 (j, r, g))
        ],
      )

pub touched_indices-In :
    (s : Searchoor) (pools : List Address) (j : ℕ)
    → In j (touched_indices s pools) ↔ ((q : Address) × In q pools × In j (paths_of q s.path_index))
unfolding touched_indices
touched_indices-In s [] j = (absurd, λ (q, m, h). absurd m)
touched_indices-In s (pool ∷ pools) j =
    let ih = touched_indices-In s pools j in
    (
      λ m. elim (In-append j (paths_of pool s.path_index) (touched_indices s pools) m) [
        | inl l ↦ (pool, inl refl, l)
        | inr r ↦ let (q, k, h) = ih.0 r in (q, inr k, h)
      ],
      λ (q, k, h). elim k [
        | inl e ↦
            In-append_left j (paths_of pool s.path_index) (touched_indices s pools)
              (subst (λ z. In j (paths_of z s.path_index)) e h)
        | inr r ↦
            In-append_right j (paths_of pool s.path_index) (touched_indices s pools)
              (ih.1 (q, r, h))
      ],
    )
