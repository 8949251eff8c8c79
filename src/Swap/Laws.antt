-- ===== src/Swap/Laws.antt =====
-- The conversion of a path keeps its pools in order and marks each V3 step.
use base_buster.Prelude.{ℕ, ◌≡◌, Bool, List, [], ◌∷◌, ◌++◌, map, if◌then◌else◌}
use mathlib.Core.List.{append_assoc, append-nil}
use base_buster.Pool.{PoolType, Address}
use base_buster.Swap.{SwapStep, SwapPath, amount, push_steps, to_swap_params, to_flash_swap}

module _ (is_v3 : PoolType → Bool) where
  abbrev pub version : SwapStep → ℕ
  version step = if is_v3 step.protocol then 1 else 0

  push_steps-map :
      (steps : List SwapStep) (pools : List Address) (protocol : List ℕ)
      → push_steps is_v3 steps pools protocol
        ≡ (pools ++ map (λ s. s.pool_address) steps, protocol ++ map version steps)
  unfolding push_steps
  push_steps-map [] pools protocol = rw (append-nil, append-nil)
  push_steps-map (step ∷ steps) pools protocol =
      rw (push_steps-map steps (pools ++ step.pool_address ∷ []) (protocol ++ version step ∷ []))
        (λ i. (
          append_assoc pools (step.pool_address ∷ []) (map (λ s. s.pool_address) steps) i,
          append_assoc protocol (version step ∷ []) (map version steps) i,
        ))

  -- The parameters sent to the contract, through both conversions, are the pools of the path in
  -- order, 1 for each V3 step and 0 for each other, and the fixed input amount.
  pub to_flash_swap-to_swap_params :
      (path : SwapPath)
      → to_flash_swap (to_swap_params is_v3 path) ≡ record {
        pools = map (λ s. s.pool_address) path.steps;
        pool_versions = map version path.steps;
        amount_in = amount;
      }
  unfolding to_flash_swap to_swap_params
  to_flash_swap-to_swap_params path = rw (push_steps-map path.steps [] [])
