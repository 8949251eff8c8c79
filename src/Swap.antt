-- ===== src/Swap.antt =====
-- src/swap.rs: swap paths and their conversion into the parameters of the contracts.
pub mod Laws
use base_buster.Prelude.{ℕ, Bool, List, [], ◌∷◌, ◌++◌, if◌then◌else◌}
use base_buster.Pool.{Address, U256, PoolType}

pub record SwapStep : Type 0 where
  pub pool_address : Address
  pub token_in : Address
  pub token_out : Address
  pub protocol : PoolType
  pub fee : ℕ

pub record SwapPath : Type 0 where
  pub steps : List SwapStep
  pub hash : ℕ

-- `AMOUNT` of src/main.rs
abbrev pub amount : U256
amount = 1_000_000_000_000_000

-- `FlashQuoter::SwapParams`; `FlashSwap::SwapParams` has the same fields.
pub record SwapParams : Type 0 where
  pub pools : List Address
  pub pool_versions : List ℕ
  pub amount_in : U256

abbrev pub FlashSwapParams : Type 0
FlashSwapParams = SwapParams

unfoldable pub to_flash_swap : SwapParams → FlashSwapParams
to_flash_swap params = record {
  pools = params.pools;
  pool_versions = params.pool_versions;
  amount_in = params.amount_in;
}

-- `is_v3` is pool_sync's test on pool types.
module _ (is_v3 : PoolType → Bool) where
  -- The loop of `From<SwapPath>`, with its two vectors.
  unfoldable pub push_steps : List SwapStep → List Address → List ℕ → List Address × List ℕ
  push_steps [] pools protocol = (pools, protocol)
  push_steps (step ∷ steps) pools protocol =
      push_steps steps (pools ++ step.pool_address ∷ [])
        (protocol ++ (if is_v3 step.protocol then 1 else 0) ∷ [])

  unfoldable pub to_swap_params : SwapPath → SwapParams
  to_swap_params path =
      let (pools, protocol) = push_steps path.steps [] [] in
      record { pools = pools; pool_versions = protocol; amount_in = amount }
