-- ===== src/Tests/Starting.antt =====
-- A run of the start-up.
use base_buster.Prelude.{ℕ, ◌≡◌, refl, List, [], ◌∷◌, Option, some, Outcome, ok, All, In, ◌↔◌, inl}
use base_buster.Prelude.Maps.{lookup, insert}
use base_buster.Prelude.Words.{checked_mul, checked_div}
use base_buster.Pool.{Address, Pool, PoolType-discrete}
use base_buster.Quoter.{success}
use base_buster.Filter.Routers.{router_of, setup_router_calldata, decode_swap_return}
use base_buster.Filter.SlotMap.{
  add_token, pool_tokens, first_known, first_other, insert_some, insert_absent, only_key, find_slot,
  find_slots, construct_slot_map,
}
use base_buster.Filter.BySwap.{
  first_direction, lower_bound, router_swap, fund, enough, swap_back, round_trip, try_pool,
  filter_by_swap,
}
use base_buster.Filter.{match_tokens, get_top_volume_tokens, filter_pools}
use base_buster.Graph.Build.{
  add_token as add_node_of, find_node, join, add_simple_pool_to_graph, add_pool_to_graph,
  build_pools, build_graph, generate_cycles,
}
use base_buster.Graph.Cycles.{
  closes, follow_edge, follow_edges, construct_cycles, find_all_arbitrage_paths,
}
use base_buster.StateDb.Database.{
  basic_ref, basic, insert_account_info, insert_account_storage, write_slot, add_pool,
  update_all_slots, update_slot, tracking_pool,
}
use base_buster.StateDb.PutSlot.{put_slot}
use base_buster.StateDb.V2.{insert_v2, insert_reserves, insert_token0, insert_token1}
use base_buster.StateDb.New.{multi_thread, new}
use base_buster.MarketState.{
  populate_db_with_pools, update_pools, update_state, update_range, catch_up,
}
use base_buster.MarketState.WarmUp.{
  WarmEvm, warm_up_pool, warm_up_pools, warm_up_database, init_state,
}
use base_buster.Ignition.{Launch}
use base_buster.StateDb.Types.{BlockStateDb}
use base_buster.MarketState.Tracked.{Described, TracksExactly, populate_db_with_pools-Tracked}
use base_buster.Graph.Build.Generated.{RoundTrip}
use base_buster.Graph.Build.Exact.{generate_cycles_exact}
use base_buster.Graph.Build.Growth.{IsSimple}
use base_buster.Swap.{SwapPath}
use base_buster.Ignition.Launching.{Outside, start_workers}
use base_buster.TxSender.{TransactionSender}
use base_buster.Tests.Data.{empty_db, test_evm, test_pool, node}
use base_buster.Tests.Cycles.{EdgeList, edge_list, other_pool}
use base_buster.Tests.Filtering.{
  test_abi, test_node, proxy_list, no_request, as_address, plain_json,
}

abbrev warm_evm : WarmEvm
warm_evm = record {
  transact_commit = λ db tx. some db;
  transact = λ db tx. some (db, success []);
  encode_approve = λ a n. [];
  encode_quote = λ p. [];
  deployed_bytecode = 1 ∷ [];
  bytecode_hash = 5;
}

-- Blocks write slot 8 of account 1.
abbrev pub outside : Outside ℕ (List Address) ℕ EdgeList
outside = record {
  request = no_request;
  from_str = as_address;
  to_json = λ tokens. tokens;
  from_json = plain_json;
  node = test_node;
  abi = test_abi;
  access_list = proxy_list;
  node_db = 0;
  evm = test_evm;
  provider = node;
  warm = warm_evm;
  default_code = 0 ∷ [];
  runtime = multi_thread;
  trace = λ block. (1, (8, block) ∷ []) ∷ [];
  graph = edge_list;
  hash = λ steps. 9;
  weth = 10;
}

abbrev pub first_sender : TransactionSender
first_sender = record { contract_address = 99; nonce = 7 }

abbrev pub top_tokens : List Address
top_tokens = 10 ∷ 11 ∷ []

abbrev pub given_pools : List Pool
given_pools = test_pool ∷ other_pool ∷ []

abbrev nothing : Launch
nothing = record { pools = []; cycles = []; db = empty_db; last_synced = 0; sender = first_sender }

abbrev launch_of : Outcome (Option Launch) → Launch
launch_of (ok (some l)) = l
launch_of _ = nothing

abbrev pub launch : Launch
launch = launch_of (start_workers outside (some top_tokens) given_pools 3 4 (4 ∷ []) first_sender)

pub launches :
    start_workers outside (some top_tokens) given_pools 3 4 (4 ∷ []) first_sender ≡ ok (some launch)
unfolding start_workers new filter_pools get_top_volume_tokens match_tokens construct_slot_map
    find_slots find_slot only_key insert_absent insert_some first_other first_known pool_tokens
    add_token lookup insert filter_by_swap try_pool round_trip swap_back enough fund router_swap
    lower_bound first_direction router_of setup_router_calldata decode_swap_return checked_mul
    checked_div init_state warm_up_database warm_up_pools warm_up_pool basic_ref basic
    insert_account_info insert_account_storage write_slot add_pool populate_db_with_pools insert_v2
    insert_reserves insert_token0 insert_token1 put_slot update_all_slots update_slot tracking_pool
    update_pools update_state update_range catch_up find_node add_node_of join
    add_simple_pool_to_graph add_pool_to_graph build_pools build_graph generate_cycles closes
    follow_edge follow_edges construct_cycles find_all_arbitrage_paths PoolType-discrete
launches = refl

abbrev populated_of : Outcome BlockStateDb → BlockStateDb
populated_of (ok db) = db
populated_of _ = empty_db

abbrev populated : BlockStateDb
populated = populated_of (populate_db_with_pools test_evm node empty_db given_pools)

populates : populate_db_with_pools test_evm node empty_db given_pools ≡ ok populated
unfolding populate_db_with_pools insert_v2 add_pool basic_ref insert_reserves insert_token0
    insert_token1 put_slot write_slot lookup insert
populates = refl

empty_db-Described : Described empty_db
unfolding tracking_pool
empty_db-Described a t = cc

populate_db_with_pools-Tracked_example :
    TracksExactly given_pools empty_db populated × Described populated
populate_db_with_pools-Tracked_example =
    populate_db_with_pools-Tracked test_evm node empty_db populated given_pools empty_db-Described
      populates

given_pools-IsSimple : All IsSimple given_pools
unfolding PoolType-discrete
given_pools-IsSimple = ((refl, refl), ((refl, refl), tt))

generate_cycles_exact_example :
    (cycles : List SwapPath) × (generate_cycles edge_list (λ steps. 9) 10 given_pools ≡ ok cycles)
    × ((path : SwapPath) → In path cycles ↔ (RoundTrip given_pools 10 path.steps × (path.hash ≡ 9)))
generate_cycles_exact_example =
    generate_cycles_exact edge_list given_pools 10 (λ steps. 9) test_pool given_pools-IsSimple
      (inl refl) (inl refl)
