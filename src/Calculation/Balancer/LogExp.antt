-- ===== src/Calculation/Balancer/LogExp.antt =====
-- src/calculation/balancer.rs: `LogExpMath`, the logarithm and the exponential in fixed point.
use base_buster.Prelude.{
  ◌/◌, ◌^◌, Bool, true, false, not, ◌&&◌, List, [], ◌∷◌, Outcome, ok, panic, ◌>>=◌, ◌==◌, ltb,
  if◌then◌else◌,
}
use base_buster.Prelude.Int.{ℤ, pos, negsuc, ltb_ℤ}
use base_buster.Prelude.I256.{
  i256_from_raw, i256_neg, i256_abs, i256_add, i256_sub, i256_mul, i256_div, neg_ℤ, quot, rem,
}
use base_buster.Pool.{U256}

abbrev pub one_18 : ℤ
one_18 = pos 1_000_000_000_000_000_000

abbrev pub one_20 : ℤ
one_20 = pos 100_000_000_000_000_000_000

abbrev pub one_36 : ℤ
one_36 = pos 1_000_000_000_000_000_000_000_000_000_000_000_000

abbrev pub max_natural_exponent : ℤ
max_natural_exponent = pos 130_000_000_000_000_000_000

abbrev pub min_natural_exponent : ℤ
min_natural_exponent = neg_ℤ (pos 41_000_000_000_000_000_000)

abbrev pub ln_36_lower_bound : ℤ
ln_36_lower_bound = pos 900_000_000_000_000_000

abbrev pub ln_36_upper_bound : ℤ
ln_36_upper_bound = pos 1_100_000_000_000_000_000

abbrev pub mild_exponent_bound : U256
mild_exponent_bound = 2 ^ 254 / 100_000_000_000_000_000_000

abbrev pub x0 : ℤ
x0 = pos 128_000_000_000_000_000_000

abbrev pub a0 : ℤ
a0 = pos 38_877_084_059_945_950_922_200_000_000_000_000_000_000_000_000_000_000_000

abbrev pub x1 : ℤ
x1 = pos 64_000_000_000_000_000_000

abbrev pub a1 : ℤ
a1 = pos 6_235_149_080_811_616_882_910_000_000

-- (x2, a2) to (x9, a9), which `exp` uses, and (x10, a10) and (x11, a11) with them in `_ln`.
abbrev pub exp_terms : List (ℤ × ℤ)
exp_terms =
    (pos 3_200_000_000_000_000_000_000, pos 7_896_296_018_268_069_516_100_000_000_000_000)
    ∷ (pos 1_600_000_000_000_000_000_000, pos 888_611_052_050_787_263_676_000_000)
    ∷ (pos 800_000_000_000_000_000_000, pos 298_095_798_704_172_827_474_000)
    ∷ (pos 400_000_000_000_000_000_000, pos 5_459_815_003_314_423_907_810)
    ∷ (pos 200_000_000_000_000_000_000, pos 738_905_609_893_065_022_723)
    ∷ (pos 100_000_000_000_000_000_000, pos 271_828_182_845_904_523_536)
    ∷ (pos 50_000_000_000_000_000_000, pos 164_872_127_070_012_814_685)
    ∷ (pos 25_000_000_000_000_000_000, pos 128_402_541_668_774_148_407)
    ∷ []

abbrev pub ln_terms : List (ℤ × ℤ)
ln_terms =
    (pos 3_200_000_000_000_000_000_000, pos 7_896_296_018_268_069_516_100_000_000_000_000)
    ∷ (pos 1_600_000_000_000_000_000_000, pos 888_611_052_050_787_263_676_000_000)
    ∷ (pos 800_000_000_000_000_000_000, pos 298_095_798_704_172_827_474_000)
    ∷ (pos 400_000_000_000_000_000_000, pos 5_459_815_003_314_423_907_810)
    ∷ (pos 200_000_000_000_000_000_000, pos 738_905_609_893_065_022_723)
    ∷ (pos 100_000_000_000_000_000_000, pos 271_828_182_845_904_523_536)
    ∷ (pos 50_000_000_000_000_000_000, pos 164_872_127_070_012_814_685)
    ∷ (pos 25_000_000_000_000_000_000, pos 128_402_541_668_774_148_407)
    ∷ (pos 12_500_000_000_000_000_000, pos 113_314_845_306_682_631_683)
    ∷ (pos 6_250_000_000_000_000_000, pos 106_449_445_891_785_942_956)
    ∷ []

-- `a >= b`
abbrev pub geb_ℤ : ℤ → ℤ → Bool
geb_ℤ a b = not (ltb_ℤ a b)

-- The first test of `exp`: the rest and the first factor.
unfoldable pub first_term : ℤ → ℤ × ℤ
first_term x =
    if geb_ℤ x x0
    then (i256_sub x x0, a0)
    else (if geb_ℤ x x1 then (i256_sub x x1, a1) else (x, pos 1))

-- The tests of `exp` that follow, one for each term, on the rest and the product.
unfoldable pub reduce : List (ℤ × ℤ) → ℤ × ℤ → ℤ × ℤ
reduce [] state = state
reduce ((x_n, a_n) ∷ terms) (x, product) =
    reduce terms
      (if geb_ℤ x x_n then (i256_sub x x_n, quot (i256_mul product a_n) one_20) else (x, product))

-- The Taylor series, over the divisors of its terms, from a term and a sum.
unfoldable pub exp_series : ℤ → List ℤ → ℤ → ℤ → ℤ
exp_series x [] term series_sum = series_sum
exp_series x (n ∷ ns) term series_sum =
    let next = quot (quot (i256_mul term x) one_20) n in
    exp_series x ns next (i256_add series_sum next)

abbrev pub exp_divisors : List ℤ
exp_divisors =
    pos 2 ∷ pos 3 ∷ pos 4 ∷ pos 5 ∷ pos 6 ∷ pos 7 ∷ pos 8 ∷ pos 9 ∷ pos 10 ∷ pos 11 ∷ pos 12 ∷ []

-- The body of `exp` on an exponent that is not negative.
unfoldable pub exp_body : ℤ → ℤ
exp_body exponent =
    let (rest, first_an) = first_term exponent in
    let (x, product) = reduce exp_terms (i256_mul rest (pos 100), one_20) in
    let series_sum = exp_series x exp_divisors x (i256_add one_20 x) in
    quot (i256_mul (quot (i256_mul product series_sum) one_20) first_an) (pos 100)

abbrev pub valid_exponent : ℤ → Bool
valid_exponent x = geb_ℤ x min_natural_exponent && geb_ℤ max_natural_exponent x

-- The call of `exp` on the negated exponent is not negative, so it is its body.
unfoldable pub exp : ℤ → Outcome ℤ
exp x = elim (valid_exponent x) [
  | false ↦ panic
  | true ↦
      if ltb_ℤ x (pos 0)
      then (elim (valid_exponent (i256_neg x)) [
        | false ↦ panic
        | true ↦ i256_div (i256_mul one_18 one_18) (exp_body (i256_neg x))
      ])
      else ok (exp_body x)
]

-- The two tests of `_ln` whose constants are plain integers.
unfoldable pub ln_first : ℤ → ℤ → ℤ × ℤ → ℤ × ℤ
ln_first x_n a_n (a, sum) =
    if geb_ℤ a (i256_mul a_n one_18) then (quot a a_n, i256_add sum x_n) else (a, sum)

unfoldable pub ln_reduce : List (ℤ × ℤ) → ℤ × ℤ → ℤ × ℤ
ln_reduce [] state = state
ln_reduce ((x_n, a_n) ∷ terms) (a, sum) =
    ln_reduce terms
      (if geb_ℤ a a_n then (quot (i256_mul a one_20) a_n, i256_add sum x_n) else (a, sum))

-- The series of both logarithms, over the divisors of its terms.
unfoldable pub ln_series : ℤ → ℤ → List ℤ → ℤ → ℤ → ℤ
ln_series one z_squared [] num series_sum = series_sum
ln_series one z_squared (n ∷ ns) num series_sum =
    let next = quot (i256_mul num z_squared) one in
    ln_series one z_squared ns next (i256_add series_sum (quot next n))

-- The body of `_ln` on an argument of at least one.
unfoldable pub ln_body : ℤ → Outcome ℤ
ln_body argument = do
  let (a, sum) = ln_first x1 a1 (ln_first x0 a0 (argument, pos 0))
  let (a', sum') = ln_reduce ln_terms (i256_mul a (pos 100), i256_mul sum (pos 100))
  z ← i256_div (i256_mul (i256_sub a' one_20) one_20) (i256_add a' one_20)
  let z_squared = quot (i256_mul z z) one_20
  let series_sum = ln_series one_20 z_squared (pos 3 ∷ pos 5 ∷ pos 7 ∷ pos 9 ∷ pos 11 ∷ []) z z
  ok (quot (i256_add sum' (i256_mul series_sum (pos 2))) (pos 100))

-- `_ln`: an argument from 1 to below `one_18` has an inverse of at least `one_18`.
unfoldable pub ln : ℤ → Outcome ℤ
ln a =
    if ltb_ℤ a one_18
    then (i256_div (i256_mul one_18 one_18) a >>= λ inverse.
        ln_body inverse >>= λ l. ok (i256_neg l))
    else ln_body a

unfoldable pub ln_36 : ℤ → Outcome ℤ
ln_36 argument = do
  let x = i256_mul argument one_18
  z ← i256_div (i256_mul (i256_sub x one_36) one_36) (i256_add x one_36)
  let z_squared = quot (i256_mul z z) one_36
  let series_sum =
      ln_series one_36 z_squared (pos 3 ∷ pos 5 ∷ pos 7 ∷ pos 9 ∷ pos 11 ∷ pos 13 ∷ pos 15 ∷ []) z z
  ok (i256_mul series_sum (pos 2))

-- `logx_times_y` before the last division.
unfoldable pub log_times : ℤ → ℤ → Outcome ℤ
log_times x y = elim (ltb_ℤ ln_36_lower_bound x && ltb_ℤ x ln_36_upper_bound) [
  | true ↦ ln_36 x >>= λ ln_36_x.
      ok (
        i256_add (i256_mul (quot ln_36_x one_18) y) (quot (i256_mul (rem ln_36_x one_18) y) one_18))
  | false ↦ ln x >>= λ ln_x. ok (i256_mul ln_x y)
]

-- `U256::try_from`, unwrapped.
unfoldable pub to_u256 : ℤ → Outcome U256
to_u256 (pos n) = ok n
to_u256 (negsuc n) = panic

unfoldable pub pow : U256 → U256 → Outcome U256
pow x y = elim (y == 0) [
  | true ↦ ok 1_000_000_000_000_000_000
  | false ↦ elim (x == 0) [
    | true ↦ ok 0
    | false ↦ elim (ltb x (2 ^ 255) && ltb y mild_exponent_bound) [
      | false ↦ panic
      | true ↦ do
        product ← log_times (i256_from_raw x) (i256_from_raw y)
        let logx_times_y = quot product one_18
        exp_result ← if valid_exponent logx_times_y then exp logx_times_y else panic
        to_u256 (i256_abs exp_result)
    ]
  ]
]
