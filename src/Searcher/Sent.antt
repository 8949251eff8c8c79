-- ===== src/Searcher/Sent.antt =====
-- What a search sends, and what it means that it sends nothing.
use mathlib.Core.Path.{subst}
use base_buster.Prelude.{
  ℕ, ◌≤◌, ◌<◌, ◌≡◌, refl, sym, ap, ◌∙◌, ◌⊎◌, inl, inr, List, Option, none, some, ok, >>=-eq-ok,
  ok-injective, some-injective, leb, leb→le, arith, get_elem?, In, Bool-cases,
}
use base_buster.Pool.{Address, U256}
use base_buster.Swap.{SwapPath, amount}
use base_buster.Cache.{Cache}
use base_buster.Calculation.Calculator.{Swaps, calculate_output}
use base_buster.Searcher.{
  Searchoor, PathSet, new, paths_at, touched_indices, profitable, max_by_amount, confirm,
  search_paths, estimate_limit, min_profit_of,
}
use base_buster.Searcher.Search.{
  profitable-In, In-profitable, paths_at-In, touched_indices-In, max_by_amount-Best, Best,
}
use base_buster.Searcher.Index.{Touches, new-Indexed}

-- A path of the list with a step at an updated pool and an estimate within the bounds.
abbrev pub Candidate : List SwapPath → (SwapPath → U256) → List Address → SwapPath → Type 0
Candidate cycles estimate pools path =
    (q : Address) × (j : ℕ) × In q pools
    × (get_elem? cycles j ≡ some path)
    × Touches q path.steps
    × (min_profit_of amount ≤ estimate path)
    × (estimate path < estimate_limit)

module _ (set : PathSet) (swaps : Swaps) (estimate : SwapPath → U256) (cycles : List SwapPath)
    (cache : Cache) (pools : List Address) where
  module _ (touched : List SwapPath)
      (h : paths_at cycles (touched_indices (new cycles) pools) ≡ ok touched) where
    abbrev candidates : List (SwapPath × U256)
    candidates = profitable (min_profit_of amount) estimate (set.collect touched)

    In-candidates :
        (path : SwapPath) (v : U256)
        → In (path, v) candidates
        → (v ≡ estimate path) × Candidate cycles estimate pools path
    In-candidates path v m =
        let (there, e, lo, hi) = profitable-In _ estimate (set.collect touched) path v m in
        let in_touched = (set.collect-In touched path).0 there in
        let (j, in_j, at_j) = (paths_at-In cycles _ touched h path).0 in_touched in
        let (q, in_q, listed) = (touched_indices-In (new cycles) pools j).0 in_j in
        let (p, at_p, touches) = (new-Indexed cycles q j).0 listed in
        let same : p ≡ path = some-injective (sym at_p ∙ at_j) in
        (e, (q, j, in_q, at_j, subst (λ z. Touches q z.steps) same touches, lo, hi))

    candidates-In :
        (path : SwapPath)
        → Candidate cycles estimate pools path
        → In (path, estimate path) candidates
    candidates-In path (q, j, in_q, at_j, touches, lo, hi) =
        let listed = (new-Indexed cycles q j).1 (path, at_j, touches) in
        let in_j = (touched_indices-In (new cycles) pools j).1 (q, in_q, listed) in
        let in_touched = (paths_at-In cycles _ touched h path).1 (j, in_j, at_j) in
        In-profitable _ estimate (set.collect touched) path
          ((set.collect-In touched path).1 in_touched) lo hi

    -- The best of the candidates.
    best-Candidate :
        (path : SwapPath) (v : U256)
        → max_by_amount candidates ≡ some (path, v)
        → Candidate cycles estimate pools path
          × ((other : SwapPath)
              → Candidate cycles estimate pools other
              → estimate other ≤ estimate path)
    best-Candidate path v e =
        let (there, greatest) = subst (Best candidates) e (max_by_amount-Best candidates) in
        let (same, c) = In-candidates path v there in
        (
          c,
          λ other d.
              subst (λ z. estimate other ≤ z) same
                (greatest (other, estimate other) (candidates-In other d)),
        )

    no_best :
        max_by_amount candidates ≡ none
        → (path : SwapPath) → Candidate cycles estimate pools path
        → ⊥
    no_best e path c =
        let none_in = subst (Best candidates) e (max_by_amount-Best candidates) in
        none_in (path, estimate path) (candidates-In path c)

  confirm_sent :
      (s : Searchoor) (best : Option (SwapPath × U256)) (after : Cache) (path : SwapPath)
      (out : U256)
      → confirm set swaps estimate s cache best ≡ ok (after, some (path, out))
      → (v : U256) × (best ≡ some (path, v))
        × (calculate_output swaps cache path ≡ ok (after, out))
        × (s.min_profit ≤ out)
  unfolding confirm
  confirm_sent s none after path out h = cc
  confirm_sent s (some (p, v)) after path out h =
      let ((c, o), h1, h2) = >>=-eq-ok (calculate_output swaps cache p) _ h in
      elim (Bool-cases (leb s.min_profit o)) [
        | inl e ↦
            let same = ok-injective (simp e at h2) in
            let sent = some-injective (ap (λ z. z.1) same) in
            let outs : o ≡ out = ap (λ z. z.1) sent in
            let paths : p ≡ path = ap (λ z. z.0) sent in
            (
              v,
              ap (λ z. some (z, v)) paths,
              ap (calculate_output swaps cache) (sym paths)
                  ∙ h1
                  ∙ ap ok (λ i. ((same i).0, outs i)),
              subst (λ z. s.min_profit ≤ z) outs (leb→le _ _ e),
            )
        | inr e ↦ let bad = ap (λ z. z.1) (ok-injective (simp e at h2)) in cc
      ]

  confirm_silent :
      (s : Searchoor) (best : Option (SwapPath × U256)) (after : Cache)
      → confirm set swaps estimate s cache best ≡ ok (after, none)
      → (best ≡ none)
        ⊎ ((path : SwapPath) × (v : U256) × (out : U256) × (best ≡ some (path, v))
            × (calculate_output swaps cache path ≡ ok (after, out))
            × (out < s.min_profit))
  unfolding confirm
  confirm_silent s none after h = inl refl
  confirm_silent s (some (p, v)) after h =
      let ((c, o), h1, h2) = >>=-eq-ok (calculate_output swaps cache p) _ h in
      elim (Bool-cases (leb s.min_profit o)) [
        | inl e ↦ let bad = ap (λ z. z.1) (ok-injective (simp e at h2)) in cc
        | inr e ↦
            let same : c ≡ after = ap (λ z. z.0) (ok-injective (simp e at h2)) in
            inr (p, v, o, refl, h1 ∙ ap (λ z. ok (z, o)) same, ground arith)
      ]

-- What a search that sends a path has found: the path is a candidate, no candidate has a greater
-- estimate, and the calculated output is at least the least profit.
abbrev pub Sent :
    Swaps
    → (SwapPath → U256)
    → List SwapPath
    → Cache
    → List Address
    → Cache
    → SwapPath
    → U256
    → Type 0
Sent swaps estimate cycles cache pools after path out =
    Candidate cycles estimate pools path
    × ((other : SwapPath) → Candidate cycles estimate pools other → estimate other ≤ estimate path)
    × (calculate_output swaps cache path ≡ ok (after, out))
    × (min_profit_of amount ≤ out)

-- A search over an index built from the cycles that sends a path sends a candidate of greatest
-- estimate, with its calculated output, which is at least the least profit.
pub search_paths-Sent :
    (set : PathSet) (swaps : Swaps) (estimate : SwapPath → U256) (cycles : List SwapPath)
    (cache : Cache) (pools : List Address) (after : Cache) (path : SwapPath) (out : U256)
    → search_paths set swaps estimate (new cycles) cache pools ≡ ok (after, some (path, out))
    → Sent swaps estimate cycles cache pools after path out
unfolding search_paths new
search_paths-Sent set swaps estimate cycles cache pools after path out h =
    let (touched, h1, h2) = >>=-eq-ok (paths_at cycles (touched_indices (new cycles) pools)) _ h in
    let (v, e, calc, enough) =
      confirm_sent set swaps estimate cycles cache pools _ _ after path out h2 in
    let (c, greatest) = best-Candidate set swaps estimate cycles cache pools touched h1 path v e in
    (c, greatest, calc, enough)

-- What a search that sends nothing has found: no candidate, or one of greatest estimate whose
-- calculated output is below the least profit.
abbrev pub Silent :
    Swaps → (SwapPath → U256) → List SwapPath → Cache → List Address → Cache → Type 0
Silent swaps estimate cycles cache pools after =
    ((path : SwapPath) → Candidate cycles estimate pools path → ⊥)
    ⊎ ((best : SwapPath) × (out : U256) × Candidate cycles estimate pools best
        × ((other : SwapPath)
            → Candidate cycles estimate pools other
            → estimate other ≤ estimate best)
        × (calculate_output swaps cache best ≡ ok (after, out))
        × (out < min_profit_of amount))

-- A search over an index built from the cycles that sends nothing has no candidate, or a candidate of
-- greatest estimate has a calculated output below the least profit.
pub search_paths-Silent :
    (set : PathSet) (swaps : Swaps) (estimate : SwapPath → U256) (cycles : List SwapPath)
    (cache : Cache) (pools : List Address) (after : Cache)
    → search_paths set swaps estimate (new cycles) cache pools ≡ ok (after, none)
    → Silent swaps estimate cycles cache pools after
unfolding search_paths new
search_paths-Silent set swaps estimate cycles cache pools after h =
    let (touched, h1, h2) = >>=-eq-ok (paths_at cycles (touched_indices (new cycles) pools)) _ h in
    elim (confirm_silent set swaps estimate cycles cache pools _ _ after h2) [
      | inl e ↦ inl (no_best set swaps estimate cycles cache pools touched h1 e)
      | inr (best, v, out, e, calc, low) ↦
          let (c, greatest) =
            best-Candidate set swaps estimate cycles cache pools touched h1 best v e in
          inr (best, out, c, greatest, calc, low)
    ]
