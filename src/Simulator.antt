-- ===== src/Simulator.antt =====
-- src/simulator.rs: quoting the paths that the searcher found, and the blacklist.
pub mod Laws
use base_buster.Prelude.{
  ℕ, Bool, true, false, List, [], ◌∷◌, last?, Option, none, some, Outcome, ok, err, panic, unwrap,
  ◌>>=◌, ◌==◌, ltb, if◌then◌else◌, contains,
}
use base_buster.Prelude.Words.{wrapping_sub}
use base_buster.Pool.{U256, PoolType}
use base_buster.Swap.{SwapPath, SwapParams, amount, to_swap_params}
use base_buster.Calculation.Calculator.{Swaps, debug_calculation}
use base_buster.Quoter.{ExecutionResult, quote_path, optimize_input}

-- `Event::ArbPath`, with what the database answers while the event is handled: `transact` is the result
-- of the quoter contract's run, over the version of the database that it finds, and `swaps` calculates
-- swaps.
pub record ArbPath : Type 0 where
  pub arb_path : SwapPath
  pub expected_out : U256
  pub block_number : ℕ
  pub transact : SwapParams → Outcome ExecutionResult
  pub swaps : Swaps

-- `Event::ValidPath`
pub record SimulatedPath : Type 0 where
  pub converted_path : SwapParams
  pub profit : U256
  pub block_number : ℕ

-- `1e18`: a larger quote is not believed.
abbrev pub quote_limit : U256
quote_limit = 1_000_000_000_000_000_000

-- `sim` is the flag of the environment; `is_v3` and `abi_decode` are pool_sync's and alloy's.
abbrev pub converted : (PoolType → Bool) → ArbPath → SwapParams
converted is_v3 event = to_swap_params is_v3 event.arb_path

module _ (is_v3 : PoolType → Bool) (abi_decode : List ℕ → Option (List U256)) (sim : Bool) where
  -- A simulation compares the quote with the calculation, and sends nothing.
  unfoldable pub compare_quote : ArbPath → U256 → Outcome (Option SimulatedPath)
  compare_quote event quoted =
      if quoted == event.expected_out
      then ok none
      else (debug_calculation event.swaps event.arb_path >>= λ _. ok none)

  unfoldable pub send_optimized : ArbPath → U256 → Outcome (Option SimulatedPath)
  send_optimized event quoted =
      if ltb quote_limit quoted
      then ok none
      else (optimize_input event.transact abi_decode (converted is_v3 event) quoted >>= λ optimized.
          let path = converted is_v3 event in
          ok (
            some (record {
              converted_path = record path { amount_in = optimized.0 };
              profit = wrapping_sub event.expected_out amount;
              block_number = event.block_number;
            })))

  -- The arm for a successful quote.
  unfoldable pub handle_quote : ArbPath → List U256 → Outcome (Option SimulatedPath)
  handle_quote event quote = do
    quoted ← unwrap (last? quote)
    if sim then compare_quote event quoted else send_optimized event quoted

  -- One turn of the loop: the blacklist after it, and what is sent.
  unfoldable pub simulate_path : List ℕ → ArbPath → Outcome (List ℕ × Option SimulatedPath)
  simulate_path blacklisted_paths event = elim (contains event.arb_path.hash blacklisted_paths) [
    | true ↦ ok (blacklisted_paths, none)
    | false ↦ elim (quote_path event.transact abi_decode (converted is_v3 event)) [
      | ok quote ↦ handle_quote event quote >>= λ sent. ok (blacklisted_paths, sent)
      | err e ↦ ok (event.arb_path.hash ∷ blacklisted_paths, none)
      | panic ↦ panic
    ]
  ]

  -- The loop, with what each event sends.
  unfoldable pub simulate_paths :
      List ℕ → List ArbPath → Outcome (List ℕ × List (Option SimulatedPath))
  simulate_paths blacklisted_paths [] = ok (blacklisted_paths, [])
  simulate_paths blacklisted_paths (event ∷ events) = do
    (after, sent) ← simulate_path blacklisted_paths event
    (end, rest) ← simulate_paths after events
    ok (end, sent ∷ rest)
