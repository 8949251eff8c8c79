-- ===== src/Calculation/Balancer/Body.antt =====
-- The results of `exp` on the exponents that are not negative.
use mathlib.Core.Path.{subst}
use base_buster.Prelude.{
  ℕ, ◌-◌, ◌*◌, ◌≤◌, ◌<◌, ◌≡◌, refl, ap, ◌∙◌, ◌⊎◌, inl, inr, List, [], ◌∷◌, ltb, arith, Bool-cases,
  ltb→lt,
}
use base_buster.Prelude.Int.{ℤ, pos, ◌+ℤ◌, ◌-ℤ◌, ◌*ℤ◌}
use base_buster.Prelude.I256.{i256_add, i256_mul, quot}
use base_buster.Prelude.Signed.{to_bits, of_bits}
use base_buster.Calculation.Balancer.LogExp.{
  exp_terms, exp_series, exp_body, first_term, reduce, geb_ℤ, one_20, x0, x1, a0, a1,
}
use base_buster.Calculation.Balancer.Decompose.{i256_sub-pos, Halving, reduce-Decomposed}
use base_buster.Calculation.Balancer.Factors.{grow, Fits, reduce-range, reduce_skip}
use base_buster.Calculation.Balancer.Factored.{exp_body-parts}

halving : Halving exp_terms 6_400_000_000_000_000_000_000 25_000_000_000_000_000_000
halving = (
  omega arith,
  (
    omega arith,
    (omega arith, (omega arith, (omega arith, (omega arith, (omega arith, (omega arith, refl)))))),
  ),
)

exp_terms-Fits : Fits exp_terms 100_000_000_000_000_000_000
exp_terms-Fits = (
  omega arith,
  omega arith,
  (
    omega arith,
    omega arith,
    (
      omega arith,
      omega arith,
      (
        omega arith,
        omega arith,
        (
          omega arith,
          omega arith,
          (omega arith, omega arith, (omega arith, omega arith, (omega arith, omega arith, tt))),
        ),
      ),
    ),
  ),
)

-- The terms that are left for a rest below x6.
abbrev last_terms : List (ℤ × ℤ)
last_terms =
    (pos 100_000_000_000_000_000_000, pos 271_828_182_845_904_523_536)
    ∷ (pos 50_000_000_000_000_000_000, pos 164_872_127_070_012_814_685)
    ∷ (pos 25_000_000_000_000_000_000, pos 128_402_541_668_774_148_407)
    ∷ []

last_terms-Fits : Fits last_terms 100_000_000_000_000_000_000
last_terms-Fits =
    (omega arith, omega arith, (omega arith, omega arith, (omega arith, omega arith, tt)))

reduce-last_terms :
    (n : ℕ)
    → n < 200_000_000_000_000_000_000
    → reduce exp_terms (pos n, one_20) ≡ reduce last_terms (pos n, one_20)
reduce-last_terms n h =
    reduce_skip 3_200_000_000_000_000_000_000 _ _ n one_20 (omega arith)
    ∙ reduce_skip 1_600_000_000_000_000_000_000 _ _ n one_20 (omega arith)
    ∙ reduce_skip 800_000_000_000_000_000_000 _ _ n one_20 (omega arith)
    ∙ reduce_skip 400_000_000_000_000_000_000 _ _ n one_20 (omega arith)
    ∙ reduce_skip 200_000_000_000_000_000_000 _ _ n one_20 (omega arith)

-- The first term that is taken off.
first_term_cases :
    (x : ℕ)
    → x ≤ 130_000_000_000_000_000_000
    → ((x < 64_000_000_000_000_000_000) × (first_term (pos x) ≡ (pos x, pos 1)))
      ⊎ ((64_000_000_000_000_000_000 ≤ x)
          × (x < 128_000_000_000_000_000_000)
          × (first_term (pos x) ≡ (pos (x - 64_000_000_000_000_000_000), a1)))
      ⊎ ((128_000_000_000_000_000_000 ≤ x)
          × (first_term (pos x) ≡ (pos (x - 128_000_000_000_000_000_000), a0)))
unfolding first_term
first_term_cases x h = elim (Bool-cases (geb_ℤ (pos x) x0)) [
  | inl e ↦
      let reached : 128_000_000_000_000_000_000 ≤ x = ground arith in
      inr (
        inr
          (reached, rw (e, i256_sub-pos x 128_000_000_000_000_000_000 (omega arith) reached) refl))
  | inr e ↦ elim (Bool-cases (geb_ℤ (pos x) x1)) [
    | inl e' ↦
        let reached : 64_000_000_000_000_000_000 ≤ x = ground arith in
        inr (
          inl (
            reached,
            ground arith,
            rw (e, e', i256_sub-pos x 64_000_000_000_000_000_000 (omega arith) reached) refl,
          ))
    | inr e' ↦ inl (ground arith, rw (e, e') refl)
  ]
]

abbrev pub AtLeastOne : ℤ → Type 0
AtLeastOne z = (r : ℕ) × (z ≡ pos r) × (1_000_000_000_000_000_000 ≤ r)

exp_body-parts_lower :
    (x y first : ℕ)
    → first_term (pos x) ≡ (pos y, pos first)
    → y < 64_000_000_000_000_000_000
    → 1 ≤ first
    → first ≤ 6_235_149_080_811_616_882_910_000_000
    → AtLeastOne (exp_body (pos x))
exp_body-parts_lower x y first e small f1 f2 =
    let (rest, is_rest, short, parts) =
      reduce-Decomposed exp_terms (100 * y) 6_400_000_000_000_000_000_000 25_000_000_000_000_000_000
        one_20 halving (omega arith) (omega arith) in
    let (q, is_q, q1, q2) =
      reduce-range exp_terms (pos (100 * y)) 100_000_000_000_000_000_000 100_000_000_000_000_000_000
        exp_terms-Fits (omega arith) in
    exp_body-parts x y first rest q (grow exp_terms 100_000_000_000_000_000_000) (ap (λ z. z.0) e)
      (ap (λ z. z.1) e) small f1 is_rest is_q short q1 q2 (omega arith) (omega arith)

exp_body-parts_upper :
    (x y : ℕ)
    → first_term (pos x) ≡ (pos y, a0)
    → y < 2_000_000_000_000_000_000
    → AtLeastOne (exp_body (pos x))
exp_body-parts_upper x y e small =
    let (rest, is_rest, short, parts) =
      reduce-Decomposed exp_terms (100 * y) 6_400_000_000_000_000_000_000 25_000_000_000_000_000_000
        one_20 halving (omega arith) (omega arith) in
    let (q, is_q, q1, q2) =
      reduce-range last_terms (pos (100 * y)) 100_000_000_000_000_000_000
        100_000_000_000_000_000_000 last_terms-Fits (omega arith) in
    let same = reduce-last_terms (100 * y) (omega arith) in
    exp_body-parts x y 38_877_084_059_945_950_922_200_000_000_000_000_000_000_000_000_000_000_000
      rest q (grow last_terms 100_000_000_000_000_000_000) (ap (λ z. z.0) e) (ap (λ z. z.1) e)
      (omega arith) (omega arith) is_rest (ap (λ z. z.1) same ∙ is_q) short q1 q2 (omega arith)
      (omega arith)

-- The largest exponent, by its value.
at_max : AtLeastOne (exp_body (pos 130_000_000_000_000_000_000))
unfolding exp_body first_term reduce exp_series i256_mul i256_add quot to_bits of_bits ◌+ℤ◌ ◌-ℤ◌
    ◌*ℤ◌
at_max = (
  287_264_955_081_783_193_326_519_143_742_863_858_051_506_000_000_000_000_000_000_000_000_000_000_000,
  refl,
  omega arith,
)

-- `exp` of an exponent that is not negative is at least one.
pub body_range : (x : ℕ) → x ≤ 130_000_000_000_000_000_000 → AtLeastOne (exp_body (pos x))
body_range x h = elim (first_term_cases x h) [
  | inl (small, e) ↦ exp_body-parts_lower x x 1 e small (omega arith) (omega arith)
  | inr (inl (low, high, e)) ↦
      exp_body-parts_lower x (x - 64_000_000_000_000_000_000) 6_235_149_080_811_616_882_910_000_000
        e (omega arith) (omega arith) (omega arith)
  | inr (inr (low, e)) ↦ elim (Bool-cases (ltb x 130_000_000_000_000_000_000)) [
    | inl below ↦
        exp_body-parts_upper x (x - 128_000_000_000_000_000_000) e
          (let less = ltb→lt x 130_000_000_000_000_000_000 below in omega arith)
    | inr top ↦
        let is_top : 130_000_000_000_000_000_000 ≡ x = ground arith in
        subst (λ z. AtLeastOne (exp_body (pos z))) is_top at_max
  ]
]
