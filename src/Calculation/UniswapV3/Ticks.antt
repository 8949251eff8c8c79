-- ===== src/Calculation/UniswapV3/Ticks.antt =====
-- The distance of a tick from the last one, and the clamped next tick.
use mathlib.Core.Path.{subst}
use base_buster.Prelude.{
  ℕ, ◌<◌, ◌≡◌, ◌≢◌, sym, ◌⊎◌, inl, inr, Bool, true, false, if◌then◌else◌, arith,
}
use base_buster.Prelude.Int.{ℤ, pos, ◌+ℤ◌, ◌-ℤ◌, ◌≤ℤ◌, pos_part, int_laws}
use base_buster.Calculation.UniswapV3.{UniswapMath, clamp}

-- The ticks left until the last one in the direction of the swap.
abbrev pub ticks_left : UniswapMath → Bool → ℤ → ℕ
ticks_left math true tick = pos_part (tick -ℤ math.min_tick)
ticks_left math false tick = pos_part (math.max_tick -ℤ tick)

clamp_cases :
    (min max t : ℤ)
    → min ≤ℤ max
    → ((clamp min max t ≡ min) × (t ≤ℤ min))
      ⊎ ((clamp min max t ≡ max) × (max ≤ℤ t))
      ⊎ ((clamp min max t ≡ t) × (min ≤ℤ t) × (t ≤ℤ max))
unfolding clamp
clamp_cases min max t b = ground arith

ℤ_split : (a b : ℤ) → a ≤ℤ b → (a ≡ b) ⊎ (a +ℤ pos 1 ≤ℤ b)
unfolding ◌+ℤ◌
ℤ_split a b h = ground arith

-- The next tick clamped: the last one in the direction of the swap, or between it and `tick`.
pub clamp_down :
    (min max tick next : ℤ)
    → min ≤ℤ max
    → next ≤ℤ tick
    → (clamp min max next ≡ min)
      ⊎ ((min +ℤ pos 1 ≤ℤ clamp min max next) × (clamp min max next ≤ℤ tick))
clamp_down min max tick next b h =
    let Near : ℤ → Type 0 = λ c. (c ≡ min) ⊎ ((min +ℤ pos 1 ≤ℤ c) × (c ≤ℤ tick)) in
    elim (clamp_cases min max next b) [
      | inl (e, _) ↦ inl e
      | inr (inl (e, l)) ↦
          subst Near (sym e)
            (elim (ℤ_split min max b) [ inl k ↦ inl (sym k) | inr k ↦ inr (k, omega arith) ])
      | inr (inr (e, l, m)) ↦
          subst Near (sym e)
            (elim (ℤ_split min next l) [ inl k ↦ inl (sym k) | inr k ↦ inr (k, h) ])
    ]

pub clamp_up :
    (min max tick next : ℤ)
    → min ≤ℤ max
    → tick +ℤ pos 1 ≤ℤ next
    → (clamp min max next ≡ max)
      ⊎ ((clamp min max next +ℤ pos 1 ≤ℤ max) × (tick +ℤ pos 1 ≤ℤ clamp min max next))
clamp_up min max tick next b h =
    let Near : ℤ → Type 0 = λ c. (c ≡ max) ⊎ ((c +ℤ pos 1 ≤ℤ max) × (tick +ℤ pos 1 ≤ℤ c)) in
    elim (clamp_cases min max next b) [
      | inr (inl (e, l)) ↦ inl e
      | inl (e, l) ↦
          subst Near (sym e)
            (elim (ℤ_split min max b) [ inl k ↦ inl k | inr k ↦ inr (k, omega (int_laws, arith)) ])
      | inr (inr (e, l, m)) ↦
          subst Near (sym e) (elim (ℤ_split next max m) [ inl k ↦ inl k | inr k ↦ inr (k, h) ])
    ]

-- What is known of the clamped next tick.
abbrev pub NextNear : UniswapMath → Bool → ℤ → ℤ → Type 0
NextNear math true tick next =
    (next ≡ math.min_tick) ⊎ ((math.min_tick +ℤ pos 1 ≤ℤ next) × (next ≤ℤ tick))
NextNear math false tick next =
    (next ≡ math.max_tick) ⊎ ((next +ℤ pos 1 ≤ℤ math.max_tick) × (tick +ℤ pos 1 ≤ℤ next))

abbrev pub last_tick : UniswapMath → Bool → ℤ
last_tick math true = math.min_tick
last_tick math false = math.max_tick

distance-lt :
    (max tick next : ℤ)
    → next +ℤ pos 1 ≤ℤ max
    → tick +ℤ pos 1 ≤ℤ next
    → pos_part (max -ℤ next) < pos_part (max -ℤ tick)
unfolding ◌+ℤ◌ ◌-ℤ◌
distance-lt max tick next l m = ground arith

distance_step :
    (min tick next : ℤ)
    → min ≤ℤ next
    → next +ℤ pos 1 ≤ℤ tick
    → pos_part (next -ℤ min) < pos_part (tick -ℤ min)
unfolding ◌+ℤ◌ ◌-ℤ◌
distance_step min tick next l m = ground arith

distance_down :
    (min tick next : ℤ)
    → min +ℤ pos 1 ≤ℤ next
    → next ≤ℤ tick
    → pos_part (next -ℤ pos 1 -ℤ min) < pos_part (tick -ℤ min)
distance_down min tick next l m =
    distance_step min tick (next -ℤ pos 1) (omega (int_laws, arith)) (omega (int_laws, arith))

pub ticks_left-lt :
    (math : UniswapMath) (zto : Bool) (tick next : ℤ)
    → NextNear math zto tick next
    → next ≢ last_tick math zto
    → ticks_left math zto (if zto then next -ℤ pos 1 else next) < ticks_left math zto tick
ticks_left-lt math true tick next (inl e) n = absurd (n e)
ticks_left-lt math false tick next (inl e) n = absurd (n e)
ticks_left-lt math true tick next (inr (l, m)) n = distance_down math.min_tick tick next l m
ticks_left-lt math false tick next (inr (l, m)) n = distance-lt math.max_tick tick next l m
