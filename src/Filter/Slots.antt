-- ===== src/Filter/Slots.antt =====
-- src/filter.rs: where the balance slots come from.
use mathlib.Core.Path.{subst}
use base_buster.Prelude.{
  ℕ, ◌≡◌, refl, sym, ap, ◌∙◌, ◌⊎◌, inl, inr, List, [], ◌∷◌, Option, some, ◌==◌, ==_iff, contains,
  In, In-append, lookup, lookup-nil, HashMap, Bool-cases, Option-cases,
}
use base_buster.Pool.{Address, U256, Pool}
use base_buster.Filter.SlotMap.{
  known_slots, AccessListItem, add_token, pool_tokens, first_known, first_other, insert_some,
  insert_absent, only_key, find_slot, find_slots, construct_slot_map,
}
use base_buster.Filter.Keys.{
  OwnKey, only_key-OwnKey, first_other-OwnKey, first_known-OwnKey, lookup-insert_cases,
  insert_some-lookup, insert_absent-lookup,
}

-- A key of an item for the token itself.
abbrev pub Listed : Address → U256 → List AccessListItem → Type 0
Listed token slot items =
    (item : AccessListItem) × In item items × (item.address ≡ token) × OwnKey slot item.storage_keys

-- An entry that was in the map, or is the token's.
abbrev Found : HashMap U256 → ℕ → Address → U256 → List AccessListItem → Type 0
Found m other token slot items =
    (lookup other m ≡ some slot) ⊎ ((other ≡ token) × Listed token slot items)

Found-later :
    (m : HashMap U256) (other token slot : ℕ) (item : AccessListItem) (items : List AccessListItem)
    → Found m other token slot items
    → Found m other token slot (item ∷ items)
Found-later m other token slot item items (inl old) = inl old
Found-later m other token slot item items (inr (e, (i, there, a, own))) =
    inr (e, (i, inr there, a, own))

-- The entry that one item of the token leaves.
Found-here :
    (m : HashMap U256) (other token slot : ℕ) (item : AccessListItem) (items : List AccessListItem)
    (found : Option U256)
    → item.address ≡ token
    → (found ≡ some slot → OwnKey slot item.storage_keys)
    → (lookup other m ≡ some slot) ⊎ ((other ≡ token) × (found ≡ some slot))
    → Found m other token slot (item ∷ items)
Found-here m other token slot item items found a own (inl old) = inl old
Found-here m other token slot item items found a own (inr (e, g)) =
    inr (e, (item, inl refl, a, own g))

-- Cases 2 and 3 of an item.
Found-several :
    (m : HashMap U256) (other token slot : ℕ) (item : AccessListItem) (items : List AccessListItem)
    → item.address ≡ token
    → Found
        (insert_absent token
          (first_other item.storage_keys)
          (insert_some token (first_known known_slots item.storage_keys) m))
        other
        token
        slot
        items
    → Found m other token slot (item ∷ items)
Found-several m other token slot item items a (inr late) =
    Found-later m other token slot item items (inr late)
Found-several m other token slot item items a (inl old) =
    let known = first_known known_slots item.storage_keys in
    elim (insert_absent-lookup other token slot (first_other item.storage_keys)
      (insert_some token known m) old) [
        | inr (e, g) ↦
            Found-here m other token slot item items (first_other item.storage_keys) a
              (first_other-OwnKey item.storage_keys slot) (inr (e, g))
        | inl older ↦
            Found-here m other token slot item items known a
              (first_known-OwnKey item.storage_keys slot)
              (insert_some-lookup other token slot known m older)
      ]

find_slot-Found :
    (token : Address) (items : List AccessListItem) (m : HashMap U256) (other slot : ℕ)
    → lookup other (find_slot token items m) ≡ some slot
    → Found m other token slot items
unfolding find_slot
find_slot-Found token [] m other slot h = inl h
find_slot-Found token (item ∷ items) m other slot h = elim (Bool-cases (item.address == token)) [
  | inr n ↦
      Found-later m other token slot item items
        (find_slot-Found token items m other slot (rw (n, find_slot) at h))
  | inl y ↦
      let a = (==_iff item.address token).0 y in
      elim (Option-cases (only_key item.storage_keys)) [
        | inr (key, k) ↦
            elim (lookup-insert_cases other token key slot m (rw (y, k, find_slot) at h)) [
              | inl old ↦ inl old
              | inr (e, same) ↦ inr (
                e,
                (item, inl refl, a, only_key-OwnKey item.storage_keys slot (k ∙ ap some same)),
              )
            ]
        | inl k ↦
            Found-several m other token slot item items a
              (find_slot-Found token items _ other slot (rw (y, k, find_slot) at h))
      ]
]

-- A token of a pool.
abbrev pub TokenOf : Address → List Pool → Type 0
TokenOf token pools =
    (pool : Pool) × In pool pools × ((token ≡ pool.token0_address) ⊎ (token ≡ pool.token1_address))

add_token-In :
    (t token : Address) (tokens : List Address)
    → In t (add_token token tokens)
    → In t tokens ⊎ (t ≡ token)
unfolding add_token
add_token-In t token tokens h = elim (Bool-cases (contains token tokens)) [
  | inl e ↦ inl (rw e at h)
  | inr e ↦ elim (In-append t tokens (token ∷ []) (rw e at h)) [
    | inl old ↦ inl old
    | inr (inl new) ↦ inr new
    | inr (inr none_left) ↦ absurd none_left
  ]
]

pool_tokens-TokenOf :
    (token : Address) (seen : List Address) (pools : List Pool)
    → In token (pool_tokens seen pools)
    → In token seen ⊎ TokenOf token pools
unfolding pool_tokens
pool_tokens-TokenOf token seen [] h = inl h
pool_tokens-TokenOf token seen (pool ∷ pools) h =
    elim (pool_tokens-TokenOf token
      (add_token pool.token1_address (add_token pool.token0_address seen)) pools h) [
        | inr (q, there, e) ↦ inr (q, inr there, e)
        | inl new ↦
            elim (add_token-In token pool.token1_address (add_token pool.token0_address seen) new) [
              | inr e ↦ inr (pool, inl refl, inr e)
              | inl newer ↦ elim (add_token-In token pool.token0_address seen newer) [
                | inl old ↦ inl old
                | inr e ↦ inr (pool, inl refl, inl e)
              ]
            ]
      ]

module _ {S : Type 0} (access_list : S → Address → S × List AccessListItem) where
  -- The slot is a key, for the token, of an access list of the token's call.
  abbrev pub FromCall : Address → U256 → Type 0
  FromCall token slot = (s : S) × Listed token slot (access_list s token).1

  find_slots-FromCall :
      (s : S) (tokens : List Address) (m : HashMap U256) (other slot : ℕ)
      → lookup other (find_slots access_list s tokens m) ≡ some slot
      → (lookup other m ≡ some slot) ⊎ (In other tokens × FromCall other slot)
  unfolding find_slots
  find_slots-FromCall s [] m other slot h = inl h
  find_slots-FromCall s (token ∷ tokens) m other slot h =
      let items = (access_list s token).1 in
      elim (find_slots-FromCall (access_list s token).0 tokens (find_slot token items m) other slot
        h) [
          | inr (there, from) ↦ inr (inr there, from)
          | inl old ↦ elim (find_slot-Found token items m other slot old) [
            | inl older ↦ inl older
            | inr (e, listed) ↦ inr (inl e, subst (λ z. FromCall z slot) (sym e) (s, listed))
          ]
        ]

  -- Every slot that the map gives is for a token of one of the pools, and is a storage key that the
  -- token's own entry lists in the access list of a call of `balanceOf`; it is never the slot of a
  -- proxy's implementation.
  pub construct_slot_map-FromCall :
      (s : S) (pools : List Pool) (token : Address) (slot : U256)
      → lookup token (construct_slot_map access_list s pools) ≡ some slot
      → TokenOf token pools × FromCall token slot
  unfolding construct_slot_map
  construct_slot_map-FromCall s pools token slot h =
      elim (find_slots-FromCall s (pool_tokens [] pools) [] token slot h) [
        | inl old ↦ let nothing = lookup-nil {V = U256} token in cc
        | inr (there, from) ↦ elim (pool_tokens-TokenOf token [] pools there) [
          | inl seen ↦ absurd seen
          | inr of_pool ↦ (of_pool, from)
        ]
      ]
