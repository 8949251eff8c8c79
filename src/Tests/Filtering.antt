-- ===== src/Tests/Filtering.antt =====
-- Runs of the filter: one pool that is kept and one whose token has no slot.
use base_buster.Prelude.{ℕ, suc, ◌≡◌, refl, All, List, [], ◌∷◌, Option, some, Outcome, ok}
use base_buster.Prelude.Maps.{lookup, insert}
use base_buster.Prelude.Words.{checked_mul, checked_div}
use base_buster.Pool.{Pool, Address}
use base_buster.Quoter.{success}
use base_buster.Filter.Routers.{
  Calldata, Abi, v2_swap, router_of, setup_router_calldata, decode_swap_return,
}
use base_buster.Filter.SlotMap.{
  AccessListItem, add_token, pool_tokens, first_known, first_other, insert_some, insert_absent,
  only_key, find_slot, find_slots, construct_slot_map,
}
use base_buster.Filter.BySwap.{
  NodeEvm, first_direction, lower_bound, router_swap, fund, enough, swap_back, round_trip, try_pool,
  filter_by_swap,
}
use base_buster.Filter.{Response, unsent, match_tokens, get_top_volume_tokens, filter_pools}
use base_buster.Filter.Vetted.{Vetted, filter_pools-Vetted}
use base_buster.Filter.Kept.{Selected, filter_by_swap-Selected}
use base_buster.Filter.Slots.{TokenOf, FromCall, construct_slot_map-FromCall}
use base_buster.Tests.Data.{test_pool}

abbrev pub encode_amount : Calldata → List ℕ
encode_amount (v2_swap params path) = params.amount_in ∷ []
encode_amount _ = []

abbrev pub test_abi : Abi
test_abi = record {
  encode = encode_amount;
  decode_vec = λ words. some words;
  decode = λ words. some 0;
}

-- A swap returns what it is given.
abbrev pub test_node : NodeEvm ℕ
test_node = record {
  insert_account_storage = λ s a k v. some (suc s);
  transact_commit = λ s tx. some s;
  transact = λ s tx. some (s, success tx.tx_data);
}

abbrev other_pool : Pool
other_pool = record test_pool { address = 2; token1_address = 12 }

filtered :
    filter_by_swap test_node test_abi ((10, 1) ∷ (11, 2) ∷ []) 0 (test_pool ∷ other_pool ∷ [])
    ≡ ok (test_pool ∷ [])
unfolding filter_by_swap try_pool round_trip swap_back enough fund router_swap lower_bound
    first_direction router_of setup_router_calldata decode_swap_return lookup checked_mul
    checked_div
filtered = refl

filter_by_swap-Selected_example :
    Selected test_node test_abi
      ((10, 1) ∷ (11, 2) ∷ [])
      (test_pool ∷ other_pool ∷ [])
      (test_pool ∷ [])
filter_by_swap-Selected_example =
    filter_by_swap-Selected test_node test_abi ((10, 1) ∷ (11, 2) ∷ []) 0
      (test_pool ∷ other_pool ∷ []) (test_pool ∷ []) filtered

-- A proxy, whose access list begins with the slot of its implementation.
abbrev pub proxy_list : ℕ → Address → ℕ × List AccessListItem
proxy_list s token = (
  s,
  record {
    address = token;
    storage_keys = 0x360894a13ba1a3210667c828492db98dca3e2076cc3735a920a3ca505d382bbc ∷ 77 ∷ [];
  }
      ∷ [],
)

found : lookup 11 (construct_slot_map proxy_list 0 (test_pool ∷ [])) ≡ some 77
unfolding construct_slot_map find_slots find_slot only_key insert_absent insert_some first_other
    first_known pool_tokens add_token lookup insert
found = refl

construct_slot_map-FromCall_example : TokenOf 11 (test_pool ∷ []) × FromCall proxy_list 11 77
construct_slot_map-FromCall_example =
    construct_slot_map-FromCall proxy_list 0 (test_pool ∷ []) 11 77 found

-- The whole filter, with the tokens 10 and 11 in the cache file.
abbrev pub no_request : ℕ → ℕ → Response ℕ
no_request offset num = unsent

abbrev pub as_address : ℕ → Option Address
as_address text = some text

abbrev pub plain_json : List Address → Outcome (List Address)
plain_json tokens = ok tokens

working_set :
    filter_pools no_request as_address
      (λ tokens. tokens)
      plain_json
      test_node
      test_abi
      proxy_list
      0
      (some (10 ∷ 11 ∷ []))
      (other_pool ∷ test_pool ∷ [])
      20
    ≡ ok (test_pool ∷ [], some (10 ∷ 11 ∷ []))
unfolding filter_pools get_top_volume_tokens match_tokens construct_slot_map find_slots find_slot
    only_key insert_absent insert_some first_other first_known pool_tokens add_token lookup insert
    filter_by_swap try_pool round_trip swap_back enough fund router_swap lower_bound first_direction
    router_of setup_router_calldata decode_swap_return checked_mul checked_div
working_set = refl

filter_pools-Vetted_example :
    (top_volume_tokens : List Address) × (get_top_volume_tokens no_request as_address
        (λ tokens. tokens)
        plain_json
        (some (10 ∷ 11 ∷ []))
        20
      ≡ ok (top_volume_tokens, some (10 ∷ 11 ∷ [])))
    × All
        (Vetted no_request as_address
          (λ tokens. tokens)
          plain_json
          test_node
          test_abi
          proxy_list
          0
          top_volume_tokens
          (other_pool ∷ test_pool ∷ []))
        (test_pool ∷ [])
filter_pools-Vetted_example =
    filter_pools-Vetted no_request as_address (λ tokens. tokens) plain_json test_node test_abi
      proxy_list 0 (some (10 ∷ 11 ∷ [])) (other_pool ∷ test_pool ∷ []) 20 (test_pool ∷ [])
      (some (10 ∷ 11 ∷ [])) working_set
