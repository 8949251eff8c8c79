-- ===== src/Tests/Simulating.antt =====
-- Runs of the simulator: a path that is sent, and one that is blacklisted.
use base_buster.Prelude.{
  ◌≡◌, refl, Bool, true, false, [], ◌∷◌, none, some, Outcome, ok, err, reverted,
}
use base_buster.Prelude.Words.{wrapping_add, wrapping_sub}
use base_buster.Pool.{PoolType}
use base_buster.Swap.{SwapParams, to_swap_params, push_steps}
use base_buster.Quoter.{
  ExecutionResult, revert, quote_path, decode_result, optimize_steps, optimize_input,
}
use base_buster.Simulator.{
  ArbPath, SimulatedPath, simulate_path, simulate_paths, handle_quote, send_optimized,
}
use base_buster.Simulator.Laws.{Vetted, Silenced, simulate_path-Vetted, simulate_paths-failed}
use base_buster.Tests.Pricing.{fixed_swaps}
use base_buster.Tests.Quotes.{quoter, as_words}

abbrev reverting : SwapParams → Outcome ExecutionResult
reverting params = ok (revert [])

abbrev v3_test : PoolType → Bool
v3_test t = false

abbrev found : (SwapParams → Outcome ExecutionResult) → ArbPath
found transact = record {
  arb_path = record { steps = []; hash = 9 };
  expected_out = 1_500_000_000_000_000;
  block_number = 4;
  transact = transact;
  swaps = fixed_swaps 5;
}

abbrev sent_path : SimulatedPath
sent_path = record {
  converted_path = record { pools = []; pool_versions = []; amount_in = 1_200_000_000_000_000 };
  profit = 500_000_000_000_000;
  block_number = 4;
}

sends : simulate_path v3_test as_words false [] (found quoter) ≡ ok ([], some sent_path)
unfolding simulate_path handle_quote send_optimized optimize_input optimize_steps quote_path
    decode_result wrapping_add wrapping_sub to_swap_params push_steps
sends = refl

simulate_path-Vetted_example : Vetted v3_test as_words false [] (found quoter) sent_path
simulate_path-Vetted_example =
    simulate_path-Vetted v3_test as_words false [] (found quoter) [] sent_path sends

-- The second event has the same hash, and a quote that would succeed.
silenced :
    simulate_paths v3_test as_words false [] (found reverting ∷ found quoter ∷ [])
    ≡ ok (9 ∷ [], none ∷ none ∷ [])
unfolding simulate_paths simulate_path quote_path decode_result
silenced = refl

reverts :
    quote_path reverting as_words (to_swap_params v3_test (record { steps = []; hash = 9 }))
    ≡ err reverted
unfolding quote_path decode_result
reverts = refl

simulate_paths-failed_example :
    Silenced v3_test as_words false 9 (found reverting ∷ found quoter ∷ []) (none ∷ none ∷ [])
    × (true ≡ true)
simulate_paths-failed_example =
    simulate_paths-failed v3_test as_words false [] (found reverting) (found quoter ∷ []) (9 ∷ [])
      (none ∷ none ∷ []) reverted refl reverts silenced
