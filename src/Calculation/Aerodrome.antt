-- ===== src/Calculation/Aerodrome.antt =====
-- src/calculation/aerodrome.rs: the output of the volatile and the stable pools.
pub mod Laws
use base_buster.Prelude.{
  ℕ, zero, suc, true, false, err, ◌^◌, ◌/◌, ◌%◌, Bool, Outcome, ok, panic, ◌>>=◌, ◌==◌, ◌||◌, ltb,
  if◌then◌else◌,
}
use base_buster.Prelude.Words.{u256_mod, wrapping_add, wrapping_sub, wrapping_mul}
use base_buster.Pool.{Address, U256}
use base_buster.StateDb.Types.{BlockStateDb, Provider}
use base_buster.StateDb.V2.{get_reserves, get_token0}

abbrev pub wad : ℕ
wad = 1_000_000_000_000_000_000

-- Products and sums wrap around; a quotient by one of the program's constants cannot panic.
abbrev pub wad_mul : U256 → U256 → U256
wad_mul a b = wrapping_mul a b / wad

-- A division by zero panics.
abbrev pub div : U256 → U256 → Outcome U256
div a b = if b == 0 then panic else ok (a / b)

unfoldable pub f : U256 → U256 → U256
f x0 y = let a = wad_mul x0 y in let b = wrapping_add (wad_mul x0 x0) (wad_mul y y) in wad_mul a b

unfoldable pub d : U256 → U256 → U256
d x0 y = wrapping_add (wad_mul (wrapping_mul 3 x0) (wad_mul y y)) (wad_mul (wad_mul x0 x0) x0)

unfoldable pub k : U256 → U256 → Bool → U256 → U256 → Outcome U256
k x y stable decimals0 decimals1 = elim stable [
  | true ↦ div (wrapping_mul x wad) decimals0 >>= λ x1. div (wrapping_mul y wad) decimals1 >>= λ y1.
      ok (wad_mul (wad_mul x1 y1) (wrapping_add (wad_mul x1 x1) (wad_mul y1 y1)))
  | false ↦ ok (wrapping_mul x y)
]

-- What a pass of the loop of `_get_y` does: it returns, or goes on with a new y.
pub data Pass : Type 0 where
  return next : U256 → Pass

module _ (x0 xy : U256) (stable : Bool) (decimals0 decimals1 : U256) where
  -- A pass where the derivative is not zero.
  unfoldable pub get_y_pass : U256 → Outcome Pass
  get_y_pass y =
      let k0 = f x0 y in
      let step = wrapping_mul (wrapping_sub xy k0) wad / d x0 y in
      let back = wrapping_mul (wrapping_sub k0 xy) wad / d x0 y in
      if ltb k0 xy
      then (if step == 0
          then (k x0 (wrapping_add y 1) stable decimals0 decimals1 >>= λ above.
              if ltb xy above then ok (return (wrapping_add y 1)) else ok (next (wrapping_add y 1)))
          else ok (next (wrapping_add y step)))
      else (if back == 0
          then (if (k0 == xy) || ltb (f x0 (wrapping_sub y 1)) xy
              then ok (return y)
              else ok (next (wrapping_sub y 1)))
          else ok (next (wrapping_sub y back)))

  -- The loop, with the passes that are left; the source runs 255 passes.
  unfoldable pub get_y_loop : ℕ → U256 → Outcome U256
  get_y_loop zero y = ok 0
  get_y_loop (suc passes) y = elim (d x0 y == 0) [
    | true ↦ ok 0
    | false ↦ elim (get_y_pass y) [
      | ok (return out) ↦ ok out
      | ok (next after) ↦ get_y_loop passes after
      | err e ↦ err e
      | panic ↦ panic
    ]
  ]

  unfoldable pub get_y : U256 → Outcome U256
  get_y y = get_y_loop 255 y

-- `get_fee`, `get_decimals` and `get_stable`, which src/state_db does not declare.
pub record PoolFacts : Type 0 where
  pub get_fee : Address → U256
  pub get_decimals : Address → ℕ × ℕ
  pub get_stable : Address → Bool

unfoldable pub volatile_out : U256 → U256 → U256 → Outcome U256
volatile_out amount_in reserve_a reserve_b =
    div (wrapping_mul amount_in reserve_b) (wrapping_add reserve_a amount_in)

unfoldable pub stable_out : Bool → U256 → U256 → U256 → U256 → U256 → Outcome U256
stable_out token0_in amount_in reserve0 reserve1 decimals0 decimals1 = do
  xy ← k reserve0 reserve1 true decimals0 decimals1
  scaled0 ← div (wrapping_mul reserve0 wad) decimals0
  scaled1 ← div (wrapping_mul reserve1 wad) decimals1
  let reserve_a = if token0_in then scaled0 else scaled1
  let reserve_b = if token0_in then scaled1 else scaled0
  scaled_in ← div (wrapping_mul amount_in wad) (if token0_in then decimals0 else decimals1)
  y ← get_y (wrapping_add scaled_in reserve_a) xy true decimals0 decimals1 reserve_b
  ok (wad_mul (wrapping_sub reserve_b y) (if token0_in then decimals1 else decimals0))

unfoldable pub aerodrome_out :
    PoolFacts → Provider → BlockStateDb → U256 → Address → Address → Outcome U256
aerodrome_out facts p db amount token_in pool_address = do
  (reserve0, reserve1) ← get_reserves p db pool_address
  let (dec0, dec1) = facts.get_decimals pool_address
  token0 ← get_token0 p db pool_address
  let amount_in = wrapping_sub amount (wrapping_mul amount (facts.get_fee pool_address) / 10000)
  let token0_in = token_in == token0
  if facts.get_stable pool_address
      then stable_out token0_in amount_in reserve0 reserve1 (10 ^ dec0 % u256_mod)
          (10 ^ dec1 % u256_mod)
      else if token0_in
      then volatile_out amount_in reserve0 reserve1
      else volatile_out amount_in reserve1 reserve0
