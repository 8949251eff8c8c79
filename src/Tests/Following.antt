-- ===== src/Tests/Following.antt =====
-- Runs of the search, of the market state and of the sender.
use base_buster.Prelude.{ℕ, ◌≡◌, refl, List, [], ◌∷◌, none, some, Outcome, ok}
use base_buster.Prelude.Maps.{lookup, insert}
use base_buster.Swap.{SwapPath, amount, SwapParams, to_flash_swap}
use base_buster.Cache.{Cache, get, find_entry}
use base_buster.Calculation.Calculator.{calculate_output, calculate_steps, cached_step}
use base_buster.Searcher.{
  PathSet, paths_of, new, search_paths, paths_at, touched_indices, profitable, max_by_amount,
  confirm, index_paths, index_steps, min_profit_of,
}
use base_buster.Searcher.Sent.{Sent, Silent, search_paths-Sent, search_paths-Silent}
use base_buster.MarketState.{Updates, update_state, catch_up}
use base_buster.MarketState.Updates.{Reports, update_state-Reports}
use base_buster.MarketState.Blocks.{Followed, catch_up_blocks}
use base_buster.TxSender.{
  TransactionRequest, TransactionSender, ValidPath, request, get_gas_fees, send_transactions,
}
use base_buster.TxSender.Laws.{Sends, send_transactions-Sends}
use base_buster.Tests.Pricing.{one_path, put_first, fixed_swaps}
use base_buster.Tests.Data.{bare_db}

abbrev as_listed : PathSet
as_listed = record { collect = λ xs. xs; collect-In = λ xs x. (λ m. m, λ m. m) }

abbrev high : SwapPath → ℕ
high path = 2_000_000_000_000_000

abbrev low : SwapPath → ℕ
low path = 1

abbrev after_search : Cache
after_search = put_first (put_first [] amount 7 (high one_path)) (high one_path) 8 (high one_path)

searched :
    search_paths as_listed
      (fixed_swaps 2_000_000_000_000_000)
      high
      (new (one_path ∷ []))
      []
      (8 ∷ [])
    ≡ ok (after_search, some (one_path, 2_000_000_000_000_000))
unfolding search_paths confirm new index_paths index_steps paths_of paths_at touched_indices
    profitable max_by_amount min_profit_of calculate_output calculate_steps cached_step get
    find_entry lookup insert
searched = refl

search_paths-Sent_example :
    Sent
      (fixed_swaps 2_000_000_000_000_000)
      high
      (one_path ∷ [])
      []
      (8 ∷ [])
      after_search
      one_path
      2_000_000_000_000_000
search_paths-Sent_example =
    search_paths-Sent as_listed (fixed_swaps 2_000_000_000_000_000) high (one_path ∷ []) [] (8 ∷ [])
      after_search one_path 2_000_000_000_000_000 searched

silent :
    search_paths as_listed (fixed_swaps 2) low (new (one_path ∷ [])) [] (8 ∷ []) ≡ ok ([], none)
unfolding search_paths confirm new index_paths index_steps paths_of paths_at touched_indices
    profitable max_by_amount min_profit_of lookup insert
silent = refl

search_paths-Silent_example : Silent (fixed_swaps 2) low (one_path ∷ []) [] (8 ∷ []) []
search_paths-Silent_example =
    search_paths-Silent as_listed (fixed_swaps 2) low (one_path ∷ []) [] (8 ∷ []) [] silent

-- Every block writes slot 8 of the accounts 1 and 2.
abbrev test_trace : ℕ → Updates
test_trace block = (1, (8, block) ∷ []) ∷ (2, (8, block) ∷ []) ∷ []

update_state-Reports_example : Reports bare_db [] (test_trace 5) (update_state test_trace bare_db 5)
update_state-Reports_example = update_state-Reports test_trace bare_db 5

catch_up_blocks_example :
    Followed test_trace bare_db 3 (5 ∷ 6 ∷ 6 ∷ []) (catch_up test_trace bare_db 3 5 (6 ∷ 6 ∷ []))
catch_up_blocks_example = catch_up_blocks test_trace bare_db 3 5 (6 ∷ 6 ∷ [])

abbrev path_params : SwapParams
path_params = record { pools = 7 ∷ []; pool_versions = 0 ∷ []; amount_in = amount }

abbrev events : List ValidPath
events =
    record { arb_path = path_params; profit = 7_000_000; base_fee = 3 }
    ∷ record { arb_path = path_params; profit = 1_400_000; base_fee = 4 }
    ∷ []

abbrev sender : ℕ → TransactionSender
sender n = record { contract_address = 99; nonce = n }

abbrev sent_request : ℕ → ℕ → ℕ → TransactionRequest
sent_request n max priority = record {
  to = 99;
  nonce = n;
  gas_limit = 2_000_000;
  chain_id = 8453;
  max_fee_per_gas = max;
  max_priority_fee_per_gas = priority;
  input = path_params;
}

abbrev accept : TransactionRequest → Outcome ℕ
accept tx = ok 0

both_sent :
    send_transactions accept (sender 5) events
    ≡ ok (sender 7, sent_request 5 13 10 ∷ sent_request 6 6 2 ∷ [])
unfolding send_transactions request get_gas_fees to_flash_swap
both_sent = refl

send_transactions-Sends_example : Sends 5 events (sent_request 5 13 10 ∷ sent_request 6 6 2 ∷ [])
send_transactions-Sends_example =
    send_transactions-Sends accept (sender 5) (sender 7) events _ both_sent
