-- ===== src/Filter/Vetted.antt =====
-- src/filter.rs: what is known of every pool of the working set.
use base_buster.Prelude.{
  ℕ, ◌≡◌, refl, sym, inl, inr, true, List, [], ◌∷◌, Option, Outcome, ok, expect_ok, expect_ok-ok,
  >>=-eq-ok, ok-injective, In, All, All-imp, HashMap, Bool-cases,
}
use mathlib.Core.Path.{subst}
use base_buster.Pool.{Address, U256, Pool}
use base_buster.Filter.{Response, token_match, match_tokens, get_top_volume_tokens, filter_pools}
use base_buster.Filter.Routers.{Abi}
use base_buster.Filter.SlotMap.{AccessListItem, construct_slot_map}
use base_buster.Filter.BySwap.{NodeEvm, filter_by_swap}
use base_buster.Filter.Kept.{Passed, Selected, filter_by_swap-Selected}

-- The pools whose tokens match are pools of the list.
match_tokens-In :
    (tokens : List Address) (pools : List Pool) (pool : Pool)
    → In pool (match_tokens tokens pools)
    → In pool pools × (token_match tokens pool ≡ true)
unfolding match_tokens
match_tokens-In tokens [] pool h = absurd h
match_tokens-In tokens (p ∷ pools) pool h = elim (Bool-cases (token_match tokens p)) [
  | inr e ↦
      let (there, m) = match_tokens-In tokens pools pool (rw (e, match_tokens) at h) in
      (inr there, m)
  | inl e ↦ elim (rw (e, match_tokens) at h) [
    | inl same ↦ (inl same, subst (λ z. token_match tokens z ≡ true) (sym same) e)
    | inr later ↦ let (there, m) = match_tokens-In tokens pools pool later in (inr there, m)
  ]
]

module _ {S : Type 0} (node : NodeEvm S) (abi : Abi) (slot_map : HashMap U256) where
  Selected-All :
      (pools kept : List Pool)
      → Selected node abi slot_map pools kept
      → All (λ pool. In pool pools × Passed node abi slot_map pool) kept
  Selected-All [] kept h = subst (All _) (sym h) tt
  Selected-All (pool ∷ pools) kept (inl (rest, e, passed, h)) =
      subst (All _) (sym e)
        ((inl refl, passed), All-imp rest (λ p c. (inr c.0, c.1)) (Selected-All pools rest h))
  Selected-All (pool ∷ pools) kept (inr (failed, h)) =
      All-imp kept (λ p c. (inr c.0, c.1)) (Selected-All pools kept h)

module _ {Token Json S : Type 0} (request : ℕ → ℕ → Response Token)
    (from_str : Token → Option Address) (to_json : List Address → Json)
    (from_json : Json → Outcome (List Address)) (node : NodeEvm S) (abi : Abi)
    (access_list : S → Address → S × List AccessListItem) (new_db : S) where
  -- A pool of the working set: tokens of the service's list, and a swap there and back with balance
  -- slots that come from the tokens' own calls.
  abbrev pub Vetted : List Address → List Pool → Pool → Type 0
  Vetted top_volume_tokens pools pool =
      In pool pools
      × (token_match top_volume_tokens pool ≡ true)
      × Passed node abi
          (construct_slot_map access_list new_db (match_tokens top_volume_tokens pools)) pool

  -- A run of the whole filter that ends without a panic returns only pools of its input, whose two
  -- tokens are among the top volume tokens of the cache file or the service and not on the blacklist,
  -- and which pass the swap there and back with the slot map of the pools whose tokens match.
  pub filter_pools-Vetted :
      (file : Option Json) (pools : List Pool) (num_results : ℕ) (kept : List Pool)
      (file' : Option Json)
      → filter_pools request from_str to_json from_json node abi access_list new_db file pools
          num_results
        ≡ ok (kept, file')
      → (top_volume_tokens : List Address) × (get_top_volume_tokens request from_str to_json
            from_json file num_results
          ≡ ok (top_volume_tokens, file'))
        × All (Vetted top_volume_tokens pools) kept
  unfolding filter_pools
  filter_pools-Vetted file pools num_results kept file' h =
      let ((tokens, file''), t, h1) =
        >>=-eq-ok
          (expect_ok (get_top_volume_tokens request from_str to_json from_json file num_results)) _
          h in
      let matched = match_tokens tokens pools in
      let slot_map = construct_slot_map access_list new_db matched in
      let (kept', f, h2) = >>=-eq-ok (filter_by_swap node abi slot_map new_db matched) _ h1 in
      let all =
        Selected-All node abi slot_map matched kept'
          (filter_by_swap-Selected node abi slot_map new_db matched kept' f) in
      let vetted : All (Vetted tokens pools) kept' =
        All-imp kept'
          (λ p c. let (there, m) = match_tokens-In tokens pools p c.0 in (there, m, c.1)) all in
      subst
        (λ z.
          (top : List Address) × (get_top_volume_tokens request from_str to_json from_json file
              num_results
            ≡ ok (top, z.1))
          × All (Vetted top pools) z.0)
        (ok-injective h2) (tokens, expect_ok-ok _ _ t, vetted)
