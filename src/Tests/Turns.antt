-- ===== src/Tests/Turns.antt =====
-- The turns of the workers, from a header to a transaction.
use base_buster.Prelude.{ℕ, ◌≡◌, ◌+◌, refl, false, [], ◌∷◌, none, some, ok, Outcome, List}
use base_buster.Prelude.Maps.{lookup, insert}
use base_buster.Prelude.Words.{wrapping_add, wrapping_sub, wrapping_mul, checked_mul, checked_div}
use base_buster.Swap.{to_swap_params, push_steps, SwapParams, SwapPath}
use base_buster.StateDb.Database.{
  get_pool, tracking_pool, update_all_slots, update_slot, write_slot, basic_ref, basic,
  insert_account_info, insert_account_storage, add_pool, storage, storage_ref, store_slot, slot_at,
}
use base_buster.StateDb.Types.{BlockStateDb, Provider}
use base_buster.Quoter.Stores.{Read, of_account, of_slot, store_read, store_reads}
use base_buster.Tests.Data.{node}
use base_buster.Ignition.{Event, arb_path, Header, Services, State, Searching, valid_path}
use base_buster.Cache.{get, find_entry, invalidate}
use base_buster.Calculation.Calculator.{
  calculate_output, calculate_steps, cached_step, invalidate_cache,
}
use base_buster.Estimator.{
  empty_estimator, apply_rate, rate_of, estimate_steps, estimate_output_amount, process_pools,
  process_eth_pools, process_eth_pool, process_nonweth_pools, aggregate, average_rates,
  calculate_rate, scale_to_rate, store_rate, get_pools, update_rates,
}
use base_buster.Searcher.{
  PathSet, paths_of, index_paths, index_steps, new, min_profit_of, search_paths, paths_at,
  touched_indices, profitable, max_by_amount, confirm,
}
use base_buster.MarketState.{
  update_pools, update_state, populate_db_with_pools, update_range, catch_up,
}
use base_buster.Quoter.{quote_path, decode_result, optimize_steps, optimize_input}
use base_buster.Simulator.{simulate_path, handle_quote, send_optimized}
use base_buster.TxSender.{request, get_gas_fees, send_transactions, TransactionRequest}
use base_buster.Ignition.Workers.{
  Turn, next, block_turn, start_searcher, search, search_turn, simulate_turn, send_turn, priced,
}
use base_buster.Ignition.Steps.{initial}
use base_buster.TxSender.Laws.{after}
use base_buster.Ignition.Turns.{sent_on}
use base_buster.Pool.{PoolType-discrete}
use base_buster.Ignition.Drains.{now}
use base_buster.Filter.Routers.{router_of, setup_router_calldata, decode_swap_return}
use base_buster.Filter.SlotMap.{
  add_token, pool_tokens, first_known, first_other, insert_some, insert_absent, only_key, find_slot,
  find_slots, construct_slot_map,
}
use base_buster.Filter.BySwap.{
  first_direction, lower_bound, router_swap, fund, enough, swap_back, round_trip, try_pool,
  filter_by_swap,
}
use base_buster.Filter.{match_tokens, get_top_volume_tokens, filter_pools}
use base_buster.Graph.Build.{
  add_token as add_node_of, find_node, join, add_simple_pool_to_graph, add_pool_to_graph,
  build_pools, build_graph, generate_cycles,
}
use base_buster.Graph.Cycles.{
  closes, follow_edge, follow_edges, construct_cycles, find_all_arbitrage_paths,
}
use base_buster.StateDb.PutSlot.{put_slot}
use base_buster.StateDb.V2.{insert_v2, insert_reserves, insert_token0, insert_token1}
use base_buster.MarketState.WarmUp.{warm_up_pool, warm_up_pools, warm_up_database, init_state}
use base_buster.StateDb.New.{new as new_db}
use base_buster.Ignition.Launching.{start_workers}
use base_buster.Tests.Starting.{outside, launch}
use base_buster.Tests.Pricing.{put_first, get-put_first}
use base_buster.Tests.Quotes.{quoter, as_words}

abbrev listed : PathSet
listed = record { collect = λ xs. xs; collect-In = λ xs x. (λ m. m, λ m. m) }

-- Every swap returns 2e15.
abbrev pub services : Services
services = record {
  trace = outside.trace;
  evm = outside.evm;
  amount_out = λ db input pool token_in protocol fee. ok 2_000_000_000_000_000;
  set = put_first;
  get-set = get-put_first;
  transact = λ db. quoter;
  path_set = listed;
  is_v3 = λ t. false;
  abi_decode = as_words;
  calc_next_block_base_fee = λ used limit fee. fee;
  send = λ tx. ok 0;
  sim = false;
  weth = 10;
}

abbrev pub header : Header
header = record {
  number = 5;
  gas = record { base_fee_per_gas = some 3; gas_used = 1; gas_limit = 2 };
}

abbrev after_turn : State → Turn → State
after_turn s (next t) = t
after_turn s _ = s

abbrev idle_thread : Searching
idle_thread = record { searcher = new []; estimator = empty_estimator; cache = [] }

abbrev searching_or : State → Searching
searching_or s = elim s.searching [ none ↦ idle_thread | some w ↦ w ]

abbrev pub launched : State
launched = initial launch

abbrev started : State
started = after_turn launched (start_searcher services launch (now launched) launched)

abbrev pub heard : State
heard = block_turn services started header

abbrev pub searched : State
searched = after_turn heard (search_turn services (now heard) heard)

abbrev simulated : State
simulated = after_turn searched (simulate_turn services (now searched) searched)

pub starts : start_searcher services launch (now launched) launched ≡ next started
unfolding start_searcher process_pools process_eth_pools process_eth_pool process_nonweth_pools
    aggregate average_rates calculate_rate scale_to_rate store_rate lookup insert wrapping_add
    wrapping_mul checked_mul checked_div start_workers new_db filter_pools get_top_volume_tokens
    match_tokens construct_slot_map find_slots find_slot only_key insert_absent insert_some
    first_other first_known pool_tokens add_token filter_by_swap try_pool round_trip swap_back
    enough fund router_swap lower_bound first_direction router_of setup_router_calldata
    decode_swap_return init_state warm_up_database warm_up_pools warm_up_pool basic_ref basic
    insert_account_info insert_account_storage write_slot add_pool populate_db_with_pools insert_v2
    insert_reserves insert_token0 insert_token1 put_slot update_all_slots update_slot tracking_pool
    update_pools update_state update_range catch_up find_node add_node_of join
    add_simple_pool_to_graph add_pool_to_graph build_pools build_graph generate_cycles closes
    follow_edge follow_edges construct_cycles find_all_arbitrage_paths PoolType-discrete
starts = refl

pub searches : search_turn services (now heard) heard ≡ next searched
unfolding start_searcher process_pools process_eth_pools process_eth_pool process_nonweth_pools
    aggregate average_rates calculate_rate scale_to_rate store_rate lookup insert wrapping_add
    wrapping_mul checked_mul checked_div block_turn update_state update_pools tracking_pool
    update_all_slots update_slot write_slot search_turn search invalidate_cache invalidate
    update_rates get_pools get_pool search_paths new index_paths index_steps paths_of paths_at
    touched_indices profitable max_by_amount confirm min_profit_of estimate_output_amount
    estimate_steps rate_of apply_rate calculate_output calculate_steps cached_step get find_entry
    start_workers new_db filter_pools get_top_volume_tokens match_tokens construct_slot_map
    find_slots find_slot only_key insert_absent insert_some first_other first_known pool_tokens
    add_token filter_by_swap try_pool round_trip swap_back enough fund router_swap lower_bound
    first_direction router_of setup_router_calldata decode_swap_return init_state warm_up_database
    warm_up_pools warm_up_pool basic_ref basic insert_account_info insert_account_storage add_pool
    populate_db_with_pools insert_v2 insert_reserves insert_token0 insert_token1 put_slot
    update_range catch_up find_node add_node_of join add_simple_pool_to_graph add_pool_to_graph
    build_pools build_graph generate_cycles closes follow_edge follow_edges construct_cycles
    find_all_arbitrage_paths PoolType-discrete
searches = refl

pub simulates : simulate_turn services (now searched) searched ≡ next simulated
unfolding start_searcher process_pools process_eth_pools process_eth_pool process_nonweth_pools
    aggregate average_rates calculate_rate scale_to_rate store_rate lookup insert wrapping_add
    wrapping_mul checked_mul checked_div block_turn update_state update_pools tracking_pool
    update_all_slots update_slot write_slot search_turn search invalidate_cache invalidate
    update_rates get_pools get_pool search_paths new index_paths index_steps paths_of paths_at
    touched_indices profitable max_by_amount confirm min_profit_of estimate_output_amount
    estimate_steps rate_of apply_rate calculate_output calculate_steps cached_step get find_entry
    simulate_turn simulate_path handle_quote send_optimized optimize_input optimize_steps quote_path
    decode_result wrapping_sub to_swap_params push_steps start_workers new_db filter_pools
    get_top_volume_tokens match_tokens construct_slot_map find_slots find_slot only_key
    insert_absent insert_some first_other first_known pool_tokens add_token filter_by_swap try_pool
    round_trip swap_back enough fund router_swap lower_bound first_direction router_of
    setup_router_calldata decode_swap_return init_state warm_up_database warm_up_pools warm_up_pool
    basic_ref basic insert_account_info insert_account_storage add_pool populate_db_with_pools
    insert_v2 insert_reserves insert_token0 insert_token1 put_slot update_range catch_up find_node
    add_node_of join add_simple_pool_to_graph add_pool_to_graph build_pools build_graph
    generate_cycles closes follow_edge follow_edges construct_cycles find_all_arbitrage_paths
    PoolType-discrete
simulates = refl

-- What the simulator sends.
abbrev best_params : SwapParams
best_params = record {
  pools = 1 ∷ 2 ∷ [];
  pool_versions = 0 ∷ 0 ∷ [];
  amount_in = 1_200_000_000_000_000;
}

simulated_profitable : simulated.profitable ≡ valid_path best_params 1_000_000_000_000_000 5 ∷ []
unfolding start_searcher process_pools process_eth_pools process_eth_pool process_nonweth_pools
    aggregate average_rates calculate_rate scale_to_rate store_rate lookup insert wrapping_add
    wrapping_mul checked_mul checked_div block_turn update_state update_pools tracking_pool
    update_all_slots update_slot write_slot search_turn search invalidate_cache invalidate
    update_rates get_pools get_pool search_paths new index_paths index_steps paths_of paths_at
    touched_indices profitable max_by_amount confirm min_profit_of estimate_output_amount
    estimate_steps rate_of apply_rate calculate_output calculate_steps cached_step get find_entry
    simulate_turn simulate_path handle_quote send_optimized optimize_input optimize_steps quote_path
    decode_result wrapping_sub to_swap_params push_steps start_workers new_db filter_pools
    get_top_volume_tokens match_tokens construct_slot_map find_slots find_slot only_key
    insert_absent insert_some first_other first_known pool_tokens add_token filter_by_swap try_pool
    round_trip swap_back enough fund router_swap lower_bound first_direction router_of
    setup_router_calldata decode_swap_return init_state warm_up_database warm_up_pools warm_up_pool
    basic_ref basic insert_account_info insert_account_storage add_pool populate_db_with_pools
    insert_v2 insert_reserves insert_token0 insert_token1 put_slot update_range catch_up find_node
    add_node_of join add_simple_pool_to_graph add_pool_to_graph build_pools build_graph
    generate_cycles closes follow_edge follow_edges construct_cycles find_all_arbitrage_paths
    PoolType-discrete
simulated_profitable = refl

abbrev fees : ℕ × ℕ
fees = (simulated.base_fee + 1_428_571_428, 1_428_571_428)

abbrev request_sent : TransactionRequest
request_sent =
    request simulated.sender (priced services simulated best_params 1_000_000_000_000_000) fees

abbrev pub posted : State
posted = sent_on services simulated [] 5 (after simulated.sender, request_sent ∷ [])

pub sends : send_turn services simulated ≡ next posted
unfolding send_turn send_transactions get_gas_fees
sends = rw (simulated_profitable, send_turn) refl

-- The searcher's thread once the estimator has its rates.
abbrev pub thread : Searching
thread = searching_or heard

pub heard_searching : heard.searching ≡ some thread
unfolding start_searcher process_pools process_eth_pools process_eth_pool process_nonweth_pools
    aggregate average_rates calculate_rate scale_to_rate store_rate lookup insert wrapping_add
    wrapping_mul checked_mul checked_div block_turn update_state update_pools tracking_pool
    update_all_slots update_slot write_slot search_turn search invalidate_cache invalidate
    update_rates get_pools get_pool search_paths new index_paths index_steps paths_of paths_at
    touched_indices profitable max_by_amount confirm min_profit_of estimate_output_amount
    estimate_steps rate_of apply_rate calculate_output calculate_steps cached_step get find_entry
    start_workers new_db filter_pools get_top_volume_tokens match_tokens construct_slot_map
    find_slots find_slot only_key insert_absent insert_some first_other first_known pool_tokens
    add_token filter_by_swap try_pool round_trip swap_back enough fund router_swap lower_bound
    first_direction router_of setup_router_calldata decode_swap_return init_state warm_up_database
    warm_up_pools warm_up_pool basic_ref basic insert_account_info insert_account_storage add_pool
    populate_db_with_pools insert_v2 insert_reserves insert_token0 insert_token1 put_slot
    update_range catch_up find_node add_node_of join add_simple_pool_to_graph add_pool_to_graph
    build_pools build_graph generate_cycles closes follow_edge follow_edges construct_cycles
    find_all_arbitrage_paths PoolType-discrete
heard_searching = refl

-- Before that turn a quote reads an account and a slot that the database does not have.
abbrev pub reads : List (Provider × Read)
reads = (node, of_account 77) ∷ (node, of_slot 77 3) ∷ []

abbrev stored_of : Outcome BlockStateDb → BlockStateDb
stored_of (ok db) = db
stored_of _ = searched.db

abbrev pub stored : BlockStateDb
stored = stored_of (store_reads services.evm searched.db reads)

pub stores : store_reads services.evm searched.db reads ≡ ok stored
unfolding store_reads store_read storage storage_ref store_slot slot_at start_searcher process_pools
    process_eth_pools process_eth_pool process_nonweth_pools aggregate average_rates calculate_rate
    scale_to_rate store_rate lookup insert wrapping_add wrapping_mul checked_mul checked_div
    block_turn update_state update_pools tracking_pool update_all_slots update_slot write_slot
    search_turn search invalidate_cache invalidate update_rates get_pools get_pool search_paths new
    index_paths index_steps paths_of paths_at touched_indices profitable max_by_amount confirm
    min_profit_of estimate_output_amount estimate_steps rate_of apply_rate calculate_output
    calculate_steps cached_step get find_entry simulate_turn simulate_path handle_quote
    send_optimized optimize_input optimize_steps quote_path decode_result wrapping_sub
    to_swap_params push_steps start_workers new_db filter_pools get_top_volume_tokens match_tokens
    construct_slot_map find_slots find_slot only_key insert_absent insert_some first_other
    first_known pool_tokens add_token filter_by_swap try_pool round_trip swap_back enough fund
    router_swap lower_bound first_direction router_of setup_router_calldata decode_swap_return
    init_state warm_up_database warm_up_pools warm_up_pool basic_ref basic insert_account_info
    insert_account_storage add_pool populate_db_with_pools insert_v2 insert_reserves insert_token0
    insert_token1 put_slot update_range catch_up find_node add_node_of join add_simple_pool_to_graph
    add_pool_to_graph build_pools build_graph generate_cycles closes follow_edge follow_edges
    construct_cycles find_all_arbitrage_paths PoolType-discrete
stores = refl

pub searched_paths :
    (path : SwapPath) × (out : ℕ) × (block : ℕ) × (rest : List Event) × (searched.paths
      ≡ arb_path path out block ∷ rest)
unfolding start_searcher process_pools process_eth_pools process_eth_pool process_nonweth_pools
    aggregate average_rates calculate_rate scale_to_rate store_rate lookup insert wrapping_add
    wrapping_mul checked_mul checked_div block_turn update_state update_pools tracking_pool
    update_all_slots update_slot write_slot search_turn search invalidate_cache invalidate
    update_rates get_pools get_pool search_paths new index_paths index_steps paths_of paths_at
    touched_indices profitable max_by_amount confirm min_profit_of estimate_output_amount
    estimate_steps rate_of apply_rate calculate_output calculate_steps cached_step get find_entry
    simulate_turn simulate_path handle_quote send_optimized optimize_input optimize_steps quote_path
    decode_result wrapping_sub to_swap_params push_steps start_workers new_db filter_pools
    get_top_volume_tokens match_tokens construct_slot_map find_slots find_slot only_key
    insert_absent insert_some first_other first_known pool_tokens add_token filter_by_swap try_pool
    round_trip swap_back enough fund router_swap lower_bound first_direction router_of
    setup_router_calldata decode_swap_return init_state warm_up_database warm_up_pools warm_up_pool
    basic_ref basic insert_account_info insert_account_storage add_pool populate_db_with_pools
    insert_v2 insert_reserves insert_token0 insert_token1 put_slot update_range catch_up find_node
    add_node_of join add_simple_pool_to_graph add_pool_to_graph build_pools build_graph
    generate_cycles closes follow_edge follow_edges construct_cycles find_all_arbitrage_paths
    PoolType-discrete
searched_paths = (_, _, _, _, refl)
