-- ===== src/MarketState/Updates.antt =====
-- Which pools a block updates.
use mathlib.Core.Path.{subst}
use base_buster.Prelude.{
  ℕ, ◌≡◌, ◌≢◌, refl, sym, ap, ◌∙◌, ◌⊎◌, inl, inr, ◌↔◌, true, false, List, [], ◌∷◌, map, ◌==◌,
  Bool-cases, Option-cases, contains, In, contains→In, eq_false, lookup,
}
use base_buster.Pool.{Address, U256}
use base_buster.StateDb.Types.{BlockStateDb, Provider}
use base_buster.StateDb.Database.{
  tracking_pool, update_all_slots, update_slot, write_slot, storage_ref,
}
use base_buster.StateDb.Insertions.{update_all_slots-storage_ref, update_all_slots_unknown}
use base_buster.MarketState.{Updates, add_address, update_pools, update_state}

-- Changing slots changes no tracking.
pub update_all_slots-pools :
    (db : BlockStateDb) (a : Address) (changes : List (U256 × U256))
    → (update_all_slots db a changes).pools ≡ db.pools
unfolding update_all_slots update_slot write_slot
update_all_slots-pools db a [] = refl
update_all_slots-pools db a ((i, v) ∷ changes) =
    let ih = update_all_slots-pools (update_slot db a i v) a changes in
    elim (Option-cases (lookup a db.accounts)) [
      | inl e ↦ ih ∙ rw (e, update_slot, write_slot) refl
      | inr (acc, e) ↦ ih ∙ rw (e, update_slot, write_slot) refl
    ]

add_address-In :
    (a b : Address) (addresses : List Address)
    → In b (add_address a addresses) ↔ ((b ≡ a) ⊎ In b addresses)
add_address-In a b addresses = elim (Bool-cases (contains a addresses)) [
  | inl e ↦
      let there = contains→In a addresses e in
      simp e (inr, λ m. elim m [ inl p ↦ subst (λ z. In z addresses) (sym p) there | inr k ↦ k ])
  | inr e ↦ simp e (λ m. m, λ m. m)
]

abbrev pub changed : Updates → List Address
changed updates = map (λ u. u.0) updates

tracking_pool-update :
    (db : BlockStateDb) (a : Address) (changes : List (U256 × U256)) (b : Address)
    → tracking_pool (update_all_slots db a changes) b ≡ tracking_pool db b
unfolding tracking_pool
tracking_pool-update db a changes b = ap (contains b) (update_all_slots-pools db a changes)

-- The updated pools are those given and the tracked ones of the updates; every other account reads
-- as before.
abbrev pub Reports : BlockStateDb → List Address → Updates → BlockStateDb × List Address → Type 0
Reports db given updates (after, updated) =
    (after.pools ≡ db.pools)
    × ((b : Address)
        → In b updated ↔ (In b given ⊎ (In b (changed updates) × (tracking_pool db b ≡ true))))
    × ((q : Provider) (b : Address) (j : U256)
        → (In b updated → ⊥)
        → storage_ref q after b j ≡ storage_ref q db b j)

-- Slots of another account.
other_slots :
    (db : BlockStateDb) (a : Address) (changes : List (U256 × U256)) (q : Provider) (b : Address)
    (j : U256)
    → b ≢ a
    → storage_ref q (update_all_slots db a changes) b j ≡ storage_ref q db b j
other_slots db a changes q b j differ = elim (Option-cases (lookup a db.accounts)) [
  | inl e ↦ ap (λ z. storage_ref q z b j) (update_all_slots_unknown a db changes e)
  | inr (acc, e) ↦
      let h = update_all_slots-storage_ref a db changes acc e q b j in
      let f : (b == a) ≡ false = eq_false b a differ in simp f at h
]

update_pools-Reports :
    (db : BlockStateDb) (given : List Address) (updates : Updates)
    → Reports db given updates (update_pools db given updates)
unfolding update_pools
update_pools-Reports db given [] =
    (refl, λ b. (inl, λ m. elim m [ inl k ↦ k | inr x ↦ absurd x.0 ]), λ q b j n. refl)
update_pools-Reports db given ((a, changes) ∷ updates) = elim (Bool-cases (tracking_pool db a)) [
  | inl e ↦
      let mid = update_all_slots db a changes in
      let (same, iff, frame) = update_pools-Reports mid (add_address a given) updates in
      let pools = update_all_slots-pools db a changes in
      let tracked : (b : Address) → tracking_pool mid b ≡ tracking_pool db b =
        λ b. tracking_pool-update db a changes b in
      rw (e, update_pools)
        (
          same ∙ pools,
          λ b. (
            λ m. elim ((iff b).0 m) [
              | inl k ↦ elim ((add_address-In a b given).0 k) [
                | inl p ↦ inr (inl p, ap (tracking_pool db) p ∙ e)
                | inr l ↦ inl l
              ]
              | inr (k, t) ↦ inr (inr k, sym (tracked b) ∙ t)
            ],
            λ m. elim m [
              | inl k ↦ (iff b).1 (inl ((add_address-In a b given).1 (inr k)))
              | inr (inl p, t) ↦ (iff b).1 (inl ((add_address-In a b given).1 (inl p)))
              | inr (inr k, t) ↦ (iff b).1 (inr (k, tracked b ∙ t))
            ],
          ),
          λ q b j n.
              let differ : b ≢ a =
                λ p. n ((iff b).1 (inl ((add_address-In a b given).1 (inl p)))) in
              frame q b j n ∙ other_slots db a changes q b j differ,
        )
  | inr e ↦
      let (same, iff, frame) = update_pools-Reports db given updates in
      rw (e, update_pools)
        (
          same,
          λ b. (
            λ m. elim ((iff b).0 m) [ inl k ↦ inl k | inr (k, t) ↦ inr (inr k, t) ],
            λ m. elim m [
              | inl k ↦ (iff b).1 (inl k)
              | inr (inl p, t) ↦ let c = ap (tracking_pool db) p in cc
              | inr (inr k, t) ↦ (iff b).1 (inr (k, t))
            ],
          ),
          frame,
        )
]

-- A block's update reports exactly the tracked accounts of its trace, keeps the tracking, and leaves
-- every slot of every account it does not report as it was.
pub update_state-Reports :
    (trace : ℕ → Updates) (db : BlockStateDb) (block_num : ℕ)
    → Reports db [] (trace block_num) (update_state trace db block_num)
unfolding update_state
update_state-Reports trace db block_num = update_pools-Reports db [] (trace block_num)
