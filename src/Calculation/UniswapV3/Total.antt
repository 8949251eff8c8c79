-- ===== src/Calculation/UniswapV3/Total.antt =====
-- The swap loop ends.
use mathlib.Core.Path.{subst}
use base_buster.Prelude.{
  ℕ, zero, suc, ◌+◌, ◌-◌, ◌^◌, ◌≤◌, ◌<◌, ◌≡◌, refl, ap, ◌∙◌, ◌⊎◌, inl, inr, Bool, true, false, some,
  Outcome, ok, err, panic, ◌>>=◌, >>=-eq-ok, unwrap, ok-injective, ◌==◌, eq_self, arith, Bool-cases,
}
use base_buster.Prelude.Int.{ℤ, pos, negsuc, ◌-ℤ◌, ◌≤ℤ◌, pos_part, is_zero}
use base_buster.Prelude.Signed.{of_bits, FitsSigned}
use base_buster.Pool.{Address, U256}
use base_buster.Quoter.Laws.{Outcome-cases}
use base_buster.StateDb.Types.{BlockStateDb, Provider, Evm}
use base_buster.StateDb.Database.{zero_to_one}
use base_buster.StateDb.V3.{slot0, slot0_fields, stored_value, liquidity, tick_spacing}
use base_buster.Prelude.I256.{i256_from_raw}
use base_buster.Calculation.UniswapV3.{
  UniswapMath, CurrentState, amount_received, sqrt_price_limit, swap_pass, swap_done, swap_loop,
  swap_start, swap_result, uniswap_v3_out,
}
use base_buster.Calculation.UniswapV3.Math.{MathLaws}
use base_buster.Calculation.UniswapV3.Ticks.{ticks_left}
use base_buster.Calculation.UniswapV3.Progress.{swap_pass-Progress}

of_bits-FitsSigned : (half w : ℕ) → 0 < half → FitsSigned half (of_bits half w)
unfolding of_bits
of_bits-FitsSigned half w h = ground arith

distance-le : (a b : ℤ) → negsuc (2 ^ 23 - 1) ≤ℤ a → b ≤ℤ pos (2 ^ 23) → pos_part (b -ℤ a) ≤ 2 ^ 24
unfolding ◌-ℤ◌
distance-le a b h k = ground arith

FitsSigned-le : (t : ℤ) → FitsSigned (2 ^ 23) t → (negsuc (2 ^ 23 - 1) ≤ℤ t) × (t ≤ℤ pos (2 ^ 23))
FitsSigned-le (pos n) h = (omega arith, omega arith)
FitsSigned-le (negsuc n) h = (omega arith, omega arith)

-- The test of the loop is true once nothing remains or the price is at the limit.
swap_done-true :
    (math : UniswapMath) (zto : Bool) (s : CurrentState)
    → (s.amount_specified_remaining ≡ pos 0) ⊎ (s.sqrt_price_x_96 ≡ sqrt_price_limit math zto)
    → swap_done math zto s ≡ true
unfolding swap_done
swap_done-true math zto s (inl e) = rw e refl
swap_done-true math zto s (inr e) = elim (Bool-cases (is_zero s.amount_specified_remaining)) [
  | inl z ↦ rw z refl
  | inr z ↦ rw z (rw e (eq_self _))
]

module _ (math : UniswapMath) (laws : MathLaws math) (evm : Evm) (p : Provider) (db : BlockStateDb)
    (pool : Address) where
  ticks_left-le :
      (zto : Bool) (tick : ℤ) → FitsSigned (2 ^ 23) tick → ticks_left math zto tick ≤ 2 ^ 24
  ticks_left-le true tick h =
      distance-le math.min_tick tick laws.tick_bounds.0 (FitsSigned-le tick h).1
  ticks_left-le false tick h =
      distance-le tick math.max_tick (FitsSigned-le tick h).0 laws.tick_bounds.2

  last_pass :
      (fuel spacing : ℕ) (zto : Bool) (fee : ℕ) (s : CurrentState)
      → (s.amount_specified_remaining ≡ pos 0) ⊎ (s.sqrt_price_x_96 ≡ sqrt_price_limit math zto)
      → 1 ≤ fuel
      → (run : Outcome CurrentState) × (swap_loop math evm p db pool fuel spacing zto fee s
          ≡ some run)
  unfolding swap_loop
  last_pass zero spacing zto fee s d h = absurd (omega arith)
  last_pass (suc fuel) spacing zto fee s d h =
      (ok s, rw (swap_done-true math zto s d, swap_loop) refl)

  swap_loop_ends :
      (fuel spacing : ℕ) (zto : Bool) (fee : ℕ) (s : CurrentState) (r : ℕ)
      → s.amount_specified_remaining ≡ pos r
      → r < 2 ^ 255
      → fee < 1_000_000
      → ticks_left math zto s.tick + 2 ≤ fuel
      → (run : Outcome CurrentState) × (swap_loop math evm p db pool fuel spacing zto fee s
          ≡ some run)
  unfolding swap_loop
  swap_loop_ends zero spacing zto fee s r e small fair h = absurd (omega arith)
  swap_loop_ends (suc fuel) spacing zto fee s r e small fair h =
      elim (Bool-cases (swap_done math zto s)) [
        | inl d ↦ (ok s, rw (d, swap_loop) refl)
        | inr d ↦ elim (Outcome-cases (swap_pass math evm p db pool spacing zto fee s)) [
          | inr (inl k) ↦ (panic, rw (d, k, swap_loop) refl)
          | inr (inr (x, k)) ↦ (err x, rw (d, k, swap_loop) refl)
          | inl (s', k) ↦
              let (rest, left, fewer, next) =
                swap_pass-Progress math laws evm p db pool spacing zto fee s s' r e small fair k in
              let later : (run : Outcome CurrentState) × (swap_loop math evm p db pool fuel spacing
                      zto fee s'
                    ≡ some run) =
                elim next [
                  | inl z ↦ last_pass fuel spacing zto fee s' (inl (left ∙ ap pos z)) (omega arith)
                  | inr (inl z) ↦ last_pass fuel spacing zto fee s' (inr z) (omega arith)
                  | inr (inr l) ↦
                      swap_loop_ends fuel spacing zto fee s' rest left (omega arith) fair
                        (omega arith)
                ] in
              (later.0, rw (d, k, swap_loop) later.1)
        ]
      ]

  swap_start-ok :
      (amount_in : U256) (token_in : Address) (zto : Bool) (s : CurrentState) (spacing : ℕ)
      → swap_start math evm p db pool amount_in token_in ≡ ok (zto, s, spacing)
      → (s.amount_specified_remaining ≡ i256_from_raw amount_in) × FitsSigned (2 ^ 23) s.tick
  unfolding swap_start slot0 slot0_fields
  swap_start-ok amount_in token_in zto s spacing h =
      let (direction, _, h1) = >>=-eq-ok (unwrap (zero_to_one db pool token_in)) _ h in
      let (first, f, h2) = >>=-eq-ok (slot0 db pool) _ h1 in
      let (cell, _, f2) = >>=-eq-ok (stored_value db pool 0) _ f in
      let (l, _, h3) = >>=-eq-ok (liquidity db pool) _ h2 in
      let (sp, _, h4) = >>=-eq-ok (tick_spacing db pool) _ h3 in
      let fits =
        subst (λ z. FitsSigned (2 ^ 23) z.tick) (ok-injective f2)
          (of_bits-FitsSigned (2 ^ 23) _ (omega arith)) in
      subst
        (λ z.
          (z.1.amount_specified_remaining ≡ i256_from_raw amount_in) × FitsSigned (2 ^ 23) z.1.tick)
        (ok-injective h4) (refl, fits)

  small_amount : (amount_in : U256) → amount_in < 2 ^ 255 → i256_from_raw amount_in ≡ pos amount_in
  unfolding of_bits
  small_amount amount_in h = ground arith

  -- More fuel changes nothing.
  swap_loop-le :
      (n m spacing : ℕ) (zto : Bool) (fee : ℕ) (s : CurrentState) (run : Outcome CurrentState)
      → n ≤ m
      → swap_loop math evm p db pool n spacing zto fee s ≡ some run
      → swap_loop math evm p db pool m spacing zto fee s ≡ some run
  unfolding swap_loop
  swap_loop-le zero m spacing zto fee s run l h = cc
  swap_loop-le (suc n) zero spacing zto fee s run l h = absurd (omega arith)
  swap_loop-le (suc n) (suc m) spacing zto fee s run l h =
      elim (Bool-cases (swap_done math zto s)) [
        | inl d ↦ rw (d, swap_loop) (rw (d, swap_loop) at h)
        | inr d ↦ elim (Outcome-cases (swap_pass math evm p db pool spacing zto fee s)) [
          | inr (inl k) ↦ rw (d, k, swap_loop) (rw (d, k, swap_loop) at h)
          | inr (inr (x, k)) ↦ rw (d, k, swap_loop) (rw (d, k, swap_loop) at h)
          | inl (s', k) ↦
              rw (d, k, swap_loop)
                (swap_loop-le n m spacing zto fee s' run (omega arith) (rw (d, k, swap_loop) at h))
        ]
      ]

  -- Where the library's documented laws hold, a swap of an amount below 2 ^ 255 with a fee below
  -- 1_000_000 ends, with an output, an error or a panic: the loop makes at most 2 ^ 24 + 2 passes,
  -- and more fuel does not change the result.
  pub uniswap_v3_out_total :
      (fuel : ℕ) (amount_in : U256) (token_in : Address) (fee : ℕ)
      → amount_in < 2 ^ 255
      → fee < 1_000_000
      → 2 ^ 24 + 2 ≤ fuel
      → (out : Outcome U256) × (uniswap_v3_out math evm p db pool
            (2 ^ 24 + 2)
            amount_in
            token_in
            fee
          ≡ some out)
        × (uniswap_v3_out math evm p db pool fuel amount_in token_in fee ≡ some out)
  unfolding uniswap_v3_out swap_result
  uniswap_v3_out_total fuel amount_in token_in fee h fair enough =
      elim (Bool-cases (amount_in == 0)) [
        | inl z ↦ (ok 0, rw z refl, rw z refl)
        | inr z ↦ elim (Outcome-cases (swap_start math evm p db pool amount_in token_in)) [
          | inl ((zto, s, spacing), e) ↦
              let (left, fits) = swap_start-ok amount_in token_in zto s spacing e in
              let bound = ticks_left-le zto s.tick fits in
              let (run, ends) =
                swap_loop_ends (2 ^ 24 + 2) spacing zto fee s amount_in
                  (left ∙ small_amount amount_in h) h fair (omega arith) in
              let more = swap_loop-le (2 ^ 24 + 2) fuel spacing zto fee s run enough ends in
              (run >>= λ end. ok (amount_received end), rw (z, e, ends) refl, rw (z, e, more) refl)
          | inr (inl e) ↦ (panic, rw (z, e) refl, rw (z, e) refl)
          | inr (inr (x, e)) ↦ (err x, rw (z, e) refl, rw (z, e) refl)
        ]
      ]
