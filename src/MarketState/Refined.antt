-- ===== src/MarketState/Refined.antt =====
-- A block updates a database that stores more in the same way.
use mathlib.Core.Path.{subst}
use base_buster.Prelude.{
  ℕ, ◌≡◌, refl, sym, ap, ◌∙◌, inl, inr, ◌==◌, true, List, [], ◌∷◌, none, some, lookup,
  lookup-insert, Option-cases, Bool-cases, contains, if◌then◌else◌, arith,
}
use base_buster.Pool.{Address, U256}
use base_buster.StateDb.Types.{BlockStateDbSlot, BlockStateDbAccount, BlockStateDb}
use base_buster.StateDb.Database.{
  slot_at, write_slot, custom_slot, update_slot, update_all_slots, tracking_pool,
}
use base_buster.StateDb.Slots.{slot_at-write_slot}
use base_buster.MarketState.{Updates, update_pools, update_state}
use base_buster.Quoter.Extends.{Extends, write_slot-stays}

-- The accounts after a slot is written.
lookup-write_slot :
    (db : BlockStateDb) (a b : Address) (account : BlockStateDbAccount) (i : U256)
    (slot : BlockStateDbSlot)
    → (written : BlockStateDbAccount) × (lookup b (write_slot db a account i slot).accounts
        ≡ (if b == a then some written else lookup b db.accounts))
unfolding write_slot
lookup-write_slot db a b account i slot = (_, lookup-insert b a _ db.accounts)

absent-slot :
    (db : BlockStateDb) (a b : Address) (j : U256)
    → lookup a db.accounts ≡ none
    → (b == a) ≡ true
    → slot_at db b j ≡ none
unfolding slot_at
absent-slot db a b j new e =
    let same : b ≡ a = ground arith in
    subst (λ z. slot_at db z j ≡ none) (sym same) (rw (new, slot_at) refl)

module _ (db more : BlockStateDb) (a : Address) (i v : U256) (h : Extends db more) where
  write_slot-Extends :
      (account account' : BlockStateDbAccount)
      → lookup a db.accounts ≡ some account
      → lookup a more.accounts ≡ some account'
      → Extends
          (write_slot db a account i (custom_slot v))
          (write_slot more a account' i (custom_slot v))
  write_slot-Extends account account' e e' = record {
    same_pools =
        (write_slot-stays more a account' i (custom_slot v)).0
        ∙ h.same_pools
        ∙ sym (write_slot-stays db a account i (custom_slot v)).0;
    accounts_stay = λ b known k.
        let (_, old) = lookup-write_slot db a b account i (custom_slot v) in
        let (written, new) = lookup-write_slot more a b account' i (custom_slot v) in
        elim (Bool-cases (b == a)) [
          | inl s ↦ (written, simp s at new)
          | inr s ↦
              let (mid, m) = h.accounts_stay b known (sym (simp s at old) ∙ k) in
              (mid, simp s at new ∙ m)
        ];
    slots_stay = λ b j slot k.
        let kept = h.slots_stay b j slot in
        let same = h.slots_stay a j slot in
        ground (
          arith,
          slot_at-write_slot db a b j account i (custom_slot v) e,
          slot_at-write_slot more a b j account' i (custom_slot v) e',
        );
  }

  -- An account that only the second database has.
  write_slot-more :
      (account : BlockStateDbAccount)
      → lookup a db.accounts ≡ none
      → lookup a more.accounts ≡ some account
      → Extends db (write_slot more a account i (custom_slot v))
  write_slot-more account new e =
      let (pools, stays) = write_slot-stays more a account i (custom_slot v) in
      record {
        same_pools = pools ∙ h.same_pools;
        accounts_stay = λ b known k. let (mid, m) = h.accounts_stay b known k in stays b mid m;
        slots_stay = λ b j slot k.
            let kept = h.slots_stay b j slot k in
            elim (Bool-cases (b == a)) [
              | inl same ↦ let nothing = absent-slot db a b j new same in cc
              | inr s ↦ simp s at (slot_at-write_slot more a b j account i (custom_slot v) e) ∙ kept
            ];
      }

  update_slot-Extends : Extends (update_slot db a i v) (update_slot more a i v)
  unfolding update_slot
  update_slot-Extends = elim (Option-cases (lookup a db.accounts)) [
    | inr (account, e) ↦
        let (account', e') = h.accounts_stay a account e in
        rw (e, e', update_slot) (write_slot-Extends account account' e e')
    | inl e ↦ elim (Option-cases (lookup a more.accounts)) [
      | inr (account, e') ↦ rw (e, e', update_slot) (write_slot-more account e e')
      | inl e' ↦ rw (e, e', update_slot) h
    ]
  ]

update_all_slots-Extends :
    (db more : BlockStateDb) (a : Address) (changes : List (U256 × U256))
    → Extends db more
    → Extends (update_all_slots db a changes) (update_all_slots more a changes)
unfolding update_all_slots
update_all_slots-Extends db more a [] h = h
update_all_slots-Extends db more a ((i, v) ∷ changes) h =
    update_all_slots-Extends (update_slot db a i v) (update_slot more a i v) a changes
      (update_slot-Extends db more a i v h)

update_pools-Extends :
    (db more : BlockStateDb) (given given' : List Address) (updates : Updates)
    → Extends db more
    → Extends (update_pools db given updates).0 (update_pools more given' updates).0
unfolding update_pools
update_pools-Extends db more given given' [] h = h
update_pools-Extends db more given given' ((a, changes) ∷ updates) h =
    let same : tracking_pool more a ≡ tracking_pool db a =
      unfold tracking_pool in ap (contains a) h.same_pools in
    elim (Bool-cases (tracking_pool db a)) [
      | inl e ↦
          rw (e, same ∙ e, update_pools)
            (update_pools-Extends (update_all_slots db a changes) (update_all_slots more a changes)
              _ _ updates (update_all_slots-Extends db more a changes h))
      | inr e ↦ rw (e, same ∙ e, update_pools) (update_pools-Extends db more given given' updates h)
    ]

-- What a database stores of the slots of a block is stored likewise by one that stores more.
pub update_state-Extends :
    (trace : ℕ → Updates) (db more : BlockStateDb) (n : ℕ)
    → Extends db more
    → Extends (update_state trace db n).0 (update_state trace more n).0
unfolding update_state
update_state-Extends trace db more n h = update_pools-Extends db more [] [] (trace n) h
