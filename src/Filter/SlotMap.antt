-- ===== src/Filter/SlotMap.antt =====
-- src/filter.rs: the balance slot of each token, from the access list of a call of `balanceOf`.
use base_buster.Prelude.{
  true, false, List, [], ◌∷◌, ◌++◌, Option, none, some, ◌==◌, if◌then◌else◌, contains, lookup,
  insert, HashMap,
}
use base_buster.Pool.{Address, U256, Pool}

abbrev pub known_slots : List U256
known_slots =
    0xbbc70db1b6c7afd11e79c0fb0051300458f1a3acb8ee9789d9b6b26c61ad9bc7
    ∷ 0x3b19ce585aeabdba87215c3de2f24f560a092ab3ca77d32c61679d43ab8fcc47
    ∷ 0x8ba0ed1f62da1d3048614c2c1feb566f041c8467eb00fb8294776a9179dc1643
    ∷ 0xad67d757c34507f157cacfa2e3153e9f260a2244f30428821be7be64587ac55f
    ∷ 0x1471eb6eb2c5e789fc3de43f8ce62938c7d1836ec861730447e2ada8fd81017b
    ∷ 0xa3f0ad74e5423aebfd80d3ef4346578335a9a72aeaee59ff6cb3582b35133d50
    ∷ 0x10f6f77027d502f219862b0303542eb5dd005b06fa23ff4d1775aaa45bbf9477
    ∷ 0xcc69885fda6bcc1a4ace058b4a62bf5e179ea78fd58a1ccd71c22cc9b688792f ∷ []

abbrev pub implementation_slot : U256
implementation_slot = 0x360894a13ba1a3210667c828492db98dca3e2076cc3735a920a3ca505d382bbc

-- alloy's `AccessListItem`
pub record AccessListItem : Type 0 where
  pub address : Address
  pub storage_keys : List U256

-- Both tokens of every pool, each once. The source's `HashSet` yields them in no fixed order; here
-- they stand in the order of their first pool.
unfoldable pub add_token : Address → List Address → List Address
add_token token tokens = if contains token tokens then tokens else tokens ++ token ∷ []

unfoldable pub pool_tokens : List Address → List Pool → List Address
pool_tokens seen [] = seen
pool_tokens seen (pool ∷ pools) =
    pool_tokens (add_token pool.token1_address (add_token pool.token0_address seen)) pools

-- Case 2: the first known slot among the keys.
unfoldable pub first_known : List U256 → List U256 → Option U256
first_known [] storage_keys = none
first_known (known_slot ∷ slots) storage_keys =
    let rest = first_known slots storage_keys in
    if contains known_slot storage_keys then some known_slot else rest

-- Case 3: the first key that is not the implementation slot.
unfoldable pub first_other : List U256 → Option U256
first_other [] = none
first_other (slot ∷ slots) =
    let rest = first_other slots in if slot == implementation_slot then rest else some slot

unfoldable pub insert_some : Address → Option U256 → HashMap U256 → HashMap U256
insert_some token none slot_map = slot_map
insert_some token (some slot) slot_map = insert token slot slot_map

unfoldable pub insert_absent : Address → Option U256 → HashMap U256 → HashMap U256
insert_absent token slot slot_map = elim (lookup token slot_map) [
  | some _ ↦ slot_map
  | none ↦ insert_some token slot slot_map
]

-- Case 1: the only key, if it is not the implementation slot.
unfoldable pub only_key : List U256 → Option U256
only_key (slot ∷ []) = if slot == implementation_slot then none else some slot
only_key _ = none

-- The loop over the access list; only case 1 leaves it early.
unfoldable pub find_slot : Address → List AccessListItem → HashMap U256 → HashMap U256
find_slot token [] slot_map = slot_map
find_slot token (item ∷ items) slot_map = elim (item.address == token) [
  | false ↦ find_slot token items slot_map
  | true ↦ elim (only_key item.storage_keys) [
    | some slot ↦ insert token slot slot_map
    | none ↦ find_slot token items (
        insert_absent token (first_other item.storage_keys)
          (insert_some token (first_known known_slots item.storage_keys) slot_map))
  ]
]

-- `access_list` runs `balanceOf` of a token on the node's database, which may cache what it reads.
module _ {S : Type 0} (access_list : S → Address → S × List AccessListItem) where
  unfoldable pub find_slots : S → List Address → HashMap U256 → HashMap U256
  find_slots nodedb [] slot_map = slot_map
  find_slots nodedb (token ∷ tokens) slot_map =
      let (nodedb', items) = access_list nodedb token in
      find_slots nodedb' tokens (find_slot token items slot_map)

  unfoldable pub construct_slot_map : S → List Pool → HashMap U256
  construct_slot_map nodedb pools = find_slots nodedb (pool_tokens [] pools) []
