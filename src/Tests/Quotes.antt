-- ===== src/Tests/Quotes.antt =====
-- A run of the scan for a better input.
use base_buster.Prelude.{
  ℕ, ◌+◌, ◌≡◌, refl, List, [], ◌∷◌, Option, some, Outcome, ok, ltb, if◌then◌else◌,
}
use base_buster.Prelude.Words.{wrapping_add}
use base_buster.Pool.{U256}
use base_buster.Swap.{SwapParams, amount}
use base_buster.Quoter.{
  ExecutionResult, success, revert, quote_path, decode_result, optimize_steps, optimize_input,
}

-- Inputs up to 1.3e15 return 2e15 more than they cost; others revert.
abbrev pub quoter : SwapParams → Outcome ExecutionResult
quoter params =
    if ltb params.amount_in 1_300_000_000_000_000
    then ok (success ((params.amount_in + 2_000_000_000_000_000) ∷ []))
    else ok (revert [])

abbrev pub as_words : List ℕ → Option (List U256)
as_words words = some words

abbrev any_path : SwapParams
any_path = record { pools = 7 ∷ []; pool_versions = 0 ∷ []; amount_in = amount }

scanned :
    optimize_input quoter as_words any_path 5 ≡ ok (1_200_000_000_000_000, 3_200_000_000_000_000)
unfolding optimize_input optimize_steps quote_path decode_result wrapping_add
scanned = refl
