-- ===== src/Tracing.antt =====
-- src/tracing.rs: the post states of a block's transactions.
use base_buster.Prelude.{ℕ, List, [], ◌∷◌, ◌++◌, Option, Outcome, ok, unwrap, ◌>>=◌}
use base_buster.MarketState.{Updates}

-- A transaction's trace: an error, a state diff with its post state, or another kind of frame.
pub data TraceResult : Type 0 where
  failed other_frame : TraceResult
  diff : Updates → TraceResult

-- The loop over the results: what is not a diff is left out.
unfoldable pub post_states : List TraceResult → List Updates
post_states [] = []
post_states (failed ∷ results) = post_states results
post_states (other_frame ∷ results) = post_states results
post_states (diff post ∷ results) = post ∷ post_states results

-- `trace_by_number` is the node's answer for a block; `none` is a transport error.
unfoldable pub debug_trace_block : (ℕ → Option (List TraceResult)) → ℕ → Outcome (List Updates)
debug_trace_block trace_by_number block = do
  results ← unwrap (trace_by_number block)
  ok (post_states results)

-- `updates.iter().flat_map(…)` of `update_state`
unfoldable pub flat : List Updates → Updates
flat [] = []
flat (updates ∷ rest) = updates ++ flat rest
