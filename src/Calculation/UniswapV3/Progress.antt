-- ===== src/Calculation/UniswapV3/Progress.antt =====
-- A pass of the swap loop spends all of the input, reaches the price limit, or comes nearer to the
-- last tick.
use mathlib.Core.Path.{subst}
use base_buster.Prelude.{
  ℕ, ◌+◌, ◌-◌, ◌^◌, ◌≤◌, ◌<◌, ◌≡◌, ◌≢◌, refl, sym, ap, ◌∙◌, ◌⊎◌, inl, inr, Bool, true, false, ok,
  >>=-eq-ok, ok-injective, ◌==◌, ltb, if◌then◌else◌, arith, Bool-cases,
}
use base_buster.Prelude.Words.{wrapping_add, wrapping_sub, wrapping_add-exact, wrapping_sub-exact}
use base_buster.Prelude.Int.{ℤ, pos, ◌-ℤ◌}
use base_buster.Prelude.Signed.{to_bits, of_bits}
use base_buster.Pool.{Address, U256}
use base_buster.StateDb.Types.{BlockStateDb, Provider, Evm}
use base_buster.Prelude.I256.{i256_sub, i256_from_raw}
use base_buster.Calculation.UniswapV3.{
  UniswapMath, CurrentState, swap_target, div_trunc, read_bitmaps, window, position,
  sqrt_price_limit, next_tick, move_tick, swap_pass,
}
use base_buster.Calculation.UniswapV3.Math.{MathLaws}
use base_buster.Calculation.UniswapV3.Ticks.{
  ticks_left, NextNear, last_tick, clamp_down, clamp_up, ticks_left-lt,
}

-- The remaining input after a step that takes `taken`.
pub i256_sub-pos :
    (r taken : ℕ)
    → r < 2 ^ 255
    → taken ≤ r
    → i256_sub (pos r) (i256_from_raw taken) ≡ pos (r - taken)
unfolding of_bits to_bits ◌-ℤ◌
i256_sub-pos r taken h l = ground arith

remaining-after :
    (z : ℤ) (r amount_in fee_amount : ℕ)
    → z ≡ pos r
    → r < 2 ^ 255
    → amount_in + fee_amount ≤ r
    → i256_sub z (i256_from_raw (wrapping_add amount_in fee_amount))
      ≡ pos (r - (amount_in + fee_amount))
remaining-after z r amount_in fee_amount e small h =
    subst
      (λ y.
        i256_sub y (i256_from_raw (wrapping_add amount_in fee_amount))
        ≡ pos (r - (amount_in + fee_amount)))
      (sym e)
      (rw (wrapping_add-exact amount_in fee_amount (omega arith))
        (i256_sub-pos r (amount_in + fee_amount) small h))

module _ (math : UniswapMath) (laws : MathLaws math) (evm : Evm) (p : Provider) (db : BlockStateDb)
    (pool : Address) where
  next_tick-NextNear :
      (spacing : ℕ) (zto : Bool) (tick next : ℤ) (initialized : Bool)
      → next_tick math evm p db pool spacing zto tick ≡ ok (next, initialized)
      → NextNear math zto tick next
  unfolding next_tick
  next_tick-NextNear spacing true tick next initialized h =
      let (compressed, _, h1) = >>=-eq-ok (div_trunc tick spacing) _ h in
      let (bitmaps, _, h2) =
        >>=-eq-ok (read_bitmaps math evm p db pool (window (position compressed).0)) _ h1 in
      let ((n, i), h3, h4) =
        >>=-eq-ok (math.next_initialized_tick_within_one_word bitmaps tick spacing true) _ h2 in
      subst (λ z. NextNear math true tick z.0) (ok-injective h4)
        (clamp_down math.min_tick math.max_tick tick n laws.tick_bounds.1
          (laws.next_le bitmaps tick spacing n i h3))
  next_tick-NextNear spacing false tick next initialized h =
      let (compressed, _, h1) = >>=-eq-ok (div_trunc tick spacing) _ h in
      let (bitmaps, _, h2) =
        >>=-eq-ok (read_bitmaps math evm p db pool (window (position compressed).0)) _ h1 in
      let ((n, i), h3, h4) =
        >>=-eq-ok (math.next_initialized_tick_within_one_word bitmaps tick spacing false) _ h2 in
      subst (λ z. NextNear math false tick z.0) (ok-injective h4)
        (clamp_up math.min_tick math.max_tick tick n laws.tick_bounds.1
          (laws.next_gt bitmaps tick spacing n i h3))

  -- The target of a step is the price limit, or the price at a tick that is not the last one.
  target_cases :
      (zto : Bool) (next : ℤ) (next_price : U256)
      → math.get_sqrt_ratio_at_tick next ≡ ok next_price
      → (swap_target zto (sqrt_price_limit math zto) next_price ≡ sqrt_price_limit math zto)
        ⊎ ((swap_target zto (sqrt_price_limit math zto) next_price ≡ next_price)
            × (next ≢ last_tick math zto))
  unfolding swap_target
  target_cases true next np h = elim (Bool-cases (ltb np (wrapping_add math.min_sqrt_ratio 1))) [
    | inl e ↦ inl (rw e refl)
    | inr e ↦ inr (
      rw e refl,
      λ same.
          let at_min =
            ok-injective (sym h ∙ ap math.get_sqrt_ratio_at_tick same ∙ laws.ratio_at_min) in
          let limit = wrapping_add-exact math.min_sqrt_ratio 1 laws.ratio_bounds.0 in ground arith,
    )
  ]
  target_cases false next np h = elim (Bool-cases (ltb (wrapping_sub math.max_sqrt_ratio 1) np)) [
    | inl e ↦ inl (rw e refl)
    | inr e ↦ inr (
      rw e refl,
      λ same.
          let at_max =
            ok-injective (sym h ∙ ap math.get_sqrt_ratio_at_tick same ∙ laws.ratio_at_max) in
          let limit =
            wrapping_sub-exact math.max_sqrt_ratio 1 laws.ratio_bounds.2 laws.ratio_bounds.1 in
          ground arith,
    )
  ]

  -- A step that ends at the price of the next tick moves to that tick, or below it.
  move_tick-arrived :
      (zto : Bool) (s : CurrentState) (next : ℤ) (initialized : Bool) (next_price price : U256)
      (tick : ℤ) (l : ℕ)
      → price ≡ next_price
      → move_tick math evm p db pool zto s next initialized next_price price ≡ ok (tick, l)
      → tick ≡ (if zto then next -ℤ pos 1 else next)
  unfolding move_tick
  move_tick-arrived zto s next initialized next_price price tick l e h =
      let there : (price == next_price) ≡ true = ground arith in
      let (l', _, h2) = >>=-eq-ok (if initialized then _ else _) _ (rw (there, move_tick) at h) in
      sym (ap (λ z. z.0) (ok-injective h2))

  -- What a pass leaves of the input, and that it ends the loop or comes nearer to the last tick.
  abbrev pub Progress : Bool → CurrentState → ℕ → CurrentState → Type 0
  Progress zto s r s' =
      (rest : ℕ) × (s'.amount_specified_remaining ≡ pos rest)
      × (rest ≤ r)
      × ((rest ≡ 0)
          ⊎ (s'.sqrt_price_x_96 ≡ sqrt_price_limit math zto)
          ⊎ (ticks_left math zto s'.tick < ticks_left math zto s.tick))

  pub swap_pass-Progress :
      (spacing : ℕ) (zto : Bool) (fee : ℕ) (s s' : CurrentState) (r : ℕ)
      → s.amount_specified_remaining ≡ pos r
      → r < 2 ^ 255
      → fee < 1_000_000
      → swap_pass math evm p db pool spacing zto fee s ≡ ok s'
      → Progress zto s r s'
  unfolding swap_pass
  swap_pass-Progress spacing zto fee s s' r e small fair h =
      let ((next, initialized), h1, k1) =
        >>=-eq-ok (next_tick math evm p db pool spacing zto s.tick) _ h in
      let (next_price, h2, k2) = >>=-eq-ok (math.get_sqrt_ratio_at_tick next) _ k1 in
      let ((price, amount_in, amount_out, fee_amount), h3, k3) =
        >>=-eq-ok
          (math.compute_swap_step s.sqrt_price_x_96
            (swap_target zto (sqrt_price_limit math zto) next_price) s.liquidity
            s.amount_specified_remaining fee)
          _ k2 in
      let ((tick, l), h4, k4) =
        >>=-eq-ok (move_tick math evm p db pool zto s next initialized next_price price) _ k3 in
      let target = swap_target zto (sqrt_price_limit math zto) next_price in
      let (takes, ends) =
        laws.step_takes s.sqrt_price_x_96 target s.liquidity r fee price amount_in amount_out
          fee_amount small fair
          (subst
            (λ z.
              math.compute_swap_step s.sqrt_price_x_96 target s.liquidity z fee
              ≡ ok (price, amount_in, amount_out, fee_amount))
            e h3) in
      let left =
        remaining-after s.amount_specified_remaining r amount_in fee_amount e small takes in
      subst (Progress zto s r) (ok-injective k4) (
        r - (amount_in + fee_amount),
        left,
        omega arith,
        elim ends [
          | inr all ↦ inl (omega arith)
          | inl arrived ↦ elim (target_cases zto next next_price h2) [
            | inl limit ↦ inr (inl (arrived ∙ limit))
            | inr (at_next, not_last) ↦
                let moved =
                  move_tick-arrived zto s next initialized next_price price tick l
                    (arrived ∙ at_next) h4 in
                inr (
                  inr (
                    subst (λ z. ticks_left math zto z < ticks_left math zto s.tick) (sym moved)
                      (ticks_left-lt math zto s.tick next
                        (next_tick-NextNear spacing zto s.tick next initialized h1) not_last)))
          ]
        ],
      )
