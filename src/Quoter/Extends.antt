-- ===== src/Quoter/Extends.antt =====
-- What the stored reads of a quote keep of the database.
use mathlib.Core.Path.{subst}
use base_buster.Prelude.{
  ℕ, ◌≡◌, refl, ◌∙◌, inl, inr, ◌==◌, ◌&&◌, List, [], ◌∷◌, none, some, ok, lookup, insert,
  lookup-insert, Option-cases, Bool-cases, >>=-eq-ok, ok-injective, unwrap, arith,
}
use base_buster.Pool.{Address, U256}
use base_buster.StateDb.Types.{
  AccountInfo, BlockStateDbSlot, BlockStateDbAccount, BlockStateDb, Bytecode, Provider, Evm,
}
use base_buster.StateDb.Database.{
  slot_at, write_slot, insert_account_info, store_info, chain_slot, basic_ref, basic, code_by_hash,
  code_by_hash_ref, store_slot, storage, block_hash, block_hash_ref, storage_ref,
}
use base_buster.StateDb.Slots.{slot_at-store_info}
use base_buster.StateDb.ReadThrough.{slot_at-store_slot}
use base_buster.Quoter.Stores.{
  Read, of_account, of_code, of_slot, of_block, store_read, store_reads,
}

-- The second database tracks the same pools, and has each account and each slot that the first one
-- stores.
pub record Extends (db after : BlockStateDb) : Type 0 where
  pub same_pools : after.pools ≡ db.pools
  pub accounts_stay :
      (a : Address) (account : BlockStateDbAccount)
      → lookup a db.accounts ≡ some account
      → (account' : BlockStateDbAccount) × (lookup a after.accounts ≡ some account')
  pub slots_stay :
      (a : Address) (i : U256) (slot : BlockStateDbSlot)
      → slot_at db a i ≡ some slot
      → slot_at after a i ≡ some slot

pub Extends-refl : (db : BlockStateDb) → Extends db db
Extends-refl db = record {
  same_pools = refl;
  accounts_stay = λ a account e. (account, e);
  slots_stay = λ a i slot e. e;
}

pub Extends-trans : {a b c : BlockStateDb} → Extends a b → Extends b c → Extends a c
Extends-trans x y = record {
  same_pools = y.same_pools ∙ x.same_pools;
  accounts_stay =
      λ a account e. let (mid, e') = x.accounts_stay a account e in y.accounts_stay a mid e';
  slots_stay = λ a i slot e. y.slots_stay a i slot (x.slots_stay a i slot e);
}

pub known-insert :
    (db : BlockStateDb) (a b : Address) (put account : BlockStateDbAccount)
    → lookup b db.accounts ≡ some account
    → (account' : BlockStateDbAccount) × (lookup b (insert a put db.accounts) ≡ some account')
known-insert db a b put account e = elim (Bool-cases (b == a)) [
  | inl k ↦ (put, simp k at (lookup-insert b a put db.accounts))
  | inr k ↦ (account, simp k at (lookup-insert b a put db.accounts) ∙ e)
]

module _ (evm : Evm) (p : Provider) (db : BlockStateDb) where
  store_info-Extends : (a : Address) (info : AccountInfo) → Extends db (store_info evm db a info)
  unfolding insert_account_info
  store_info-Extends a info = elim (Option-cases (lookup a db.accounts)) [
    | inl new ↦ record {
      same_pools = rw (new, store_info) refl;
      accounts_stay = λ b account e. rw (new, store_info) (known-insert db a b _ account e);
      slots_stay = λ b i slot e. slot_at-store_info db a b i evm info ∙ e;
    }
    | inr (known, h) ↦ record {
      same_pools = rw (h, store_info) refl;
      accounts_stay = λ b account e. rw (h, store_info) (known-insert db a b _ account e);
      slots_stay = λ b i slot e. slot_at-store_info db a b i evm info ∙ e;
    }
  ]

  basic-Extends : (a : Address) {r : _} → basic evm p db a ≡ ok r → Extends db r.1
  unfolding basic
  basic-Extends a {r} h = elim (Option-cases (lookup a db.accounts)) [
    | inr (account, e) ↦
        subst (λ z. Extends db z.1) (ok-injective (rw (e, basic) at h)) (Extends-refl db)
    | inl e ↦
        let (fetched, _, h1) = >>=-eq-ok (basic_ref evm p db a) _ (rw (e, basic) at h) in
        let (info, _, h2) = >>=-eq-ok (unwrap fetched) _ h1 in
        subst (λ z. Extends db z.1) (ok-injective h2) (store_info-Extends a info)
  ]

pub write_slot-stays :
    (db : BlockStateDb) (a : Address) (account : BlockStateDbAccount) (i : U256)
    (slot : BlockStateDbSlot)
    → ((write_slot db a account i slot).pools ≡ db.pools)
      × ((b : Address) (known : BlockStateDbAccount)
          → lookup b db.accounts ≡ some known
          → (known' : BlockStateDbAccount) × (lookup b (write_slot db a account i slot).accounts
              ≡ some known'))
unfolding write_slot
write_slot-stays db a account i slot = (refl, λ b known e. known-insert db a b _ known e)

module _ (evm : Evm) (p : Provider) (db : BlockStateDb) where
  -- A slot that is stored was not there.
  store_slot-Extends :
      (a : Address) (i v : U256) {db' : BlockStateDb}
      → slot_at db a i ≡ none
      → store_slot evm p db a i v ≡ ok db'
      → Extends db db'
  unfolding store_slot
  store_slot-Extends a i v {db'} miss h =
      let slots : (b : Address) (j : U256) (slot : BlockStateDbSlot)
          → slot_at db b j ≡ some slot
          → slot_at db' b j ≡ some slot =
        λ b j slot e.
          let after = slot_at-store_slot evm db a p i v b j h in
          elim (Bool-cases (b == a && j == i)) [
            | inl k ↦ ground arith
            | inr k ↦ simp k at after ∙ e
          ] in
      elim (Option-cases (lookup a db.accounts)) [
        | inr (account, e) ↦
            let same = ok-injective (rw (e, store_slot) at h) in
            let (pools, stays) = write_slot-stays db a account i (chain_slot v) in
            record {
              same_pools = subst (λ z. z.pools ≡ db.pools) same pools;
              accounts_stay = λ b known k.
                  subst (λ z. (known' : BlockStateDbAccount) × (lookup b z.accounts ≡ some known'))
                    same (stays b known k);
              slots_stay = slots;
            }
        | inl e ↦
            let (r, read, h1) = >>=-eq-ok (basic evm p db a) _ (rw (e, store_slot) at h) in
            let (account, _, h2) = >>=-eq-ok (unwrap (lookup a r.1.accounts)) _ h1 in
            let same = ok-injective h2 in
            let (pools, stays) = write_slot-stays r.1 a account i (chain_slot v) in
            let before = basic-Extends evm p db a read in
            record {
              same_pools = subst (λ z. z.pools ≡ db.pools) same (pools ∙ before.same_pools);
              accounts_stay = λ b known k.
                  let (mid, k') = before.accounts_stay b known k in
                  subst (λ z. (known' : BlockStateDbAccount) × (lookup b z.accounts ≡ some known'))
                    same (stays b mid k');
              slots_stay = slots;
            }
      ]

  storage-Extends :
      (a : Address) (i : U256) {r : U256 × BlockStateDb}
      → storage evm p db a i ≡ ok r
      → Extends db r.1
  unfolding storage
  storage-Extends a i {r} h = elim (Option-cases (slot_at db a i)) [
    | inr (slot, e) ↦
        subst (λ z. Extends db z.1) (ok-injective (rw (e, storage) at h)) (Extends-refl db)
    | inl e ↦
        let (v, _, h1) = >>=-eq-ok (storage_ref p db a i) _ (rw (e, storage) at h) in
        let (db', stored, h2) = >>=-eq-ok (store_slot evm p db a i v) _ h1 in
        subst (λ z. Extends db z.1) (ok-injective h2) (store_slot-Extends a i v e stored)
  ]

  code_by_hash-Extends :
      (hash : ℕ) {r : Bytecode × BlockStateDb} → code_by_hash db hash ≡ ok r → Extends db r.1
  unfolding code_by_hash code_by_hash_ref
  code_by_hash-Extends hash {r} h = elim (Option-cases (lookup hash db.contracts)) [
    | inr (code, e) ↦
        subst (λ z. Extends db z.1) (ok-injective (rw (e, code_by_hash) at h)) (Extends-refl db)
    | inl e ↦ let bad = rw (e, code_by_hash, code_by_hash_ref) at h in cc
  ]

  block_hash-Extends :
      (number : ℕ) {r : ℕ × BlockStateDb} → block_hash p db number ≡ ok r → Extends db r.1
  unfolding block_hash slot_at
  block_hash-Extends number {r} h = elim (Option-cases (lookup number db.block_hashes)) [
    | inr (hash, e) ↦
        subst (λ z. Extends db z.1) (ok-injective (rw (e, block_hash) at h)) (Extends-refl db)
    | inl e ↦
        let (hash, _, h1) = >>=-eq-ok (block_hash_ref p db number) _ (rw (e, block_hash) at h) in
        subst (λ z. Extends db z.1) (ok-injective h1)
          (record {
            same_pools = refl;
            accounts_stay = λ a account k. (account, k);
            slots_stay = λ a i slot k. k;
          })
  ]

  store_read-Extends :
      (read : Read) {after : BlockStateDb} → store_read evm p db read ≡ ok after → Extends db after
  unfolding store_read
  store_read-Extends (of_account a) h =
      let (r, e, h1) = >>=-eq-ok (basic evm p db a) _ h in
      subst (Extends db) (ok-injective h1) (basic-Extends evm p db a e)
  store_read-Extends (of_code hash) h =
      let (r, e, h1) = >>=-eq-ok (code_by_hash db hash) _ h in
      subst (Extends db) (ok-injective h1) (code_by_hash-Extends hash e)
  store_read-Extends (of_slot a i) h =
      let (r, e, h1) = >>=-eq-ok (storage evm p db a i) _ h in
      subst (Extends db) (ok-injective h1) (storage-Extends a i e)
  store_read-Extends (of_block number) h =
      let (r, e, h1) = >>=-eq-ok (block_hash p db number) _ h in
      subst (Extends db) (ok-injective h1) (block_hash-Extends number e)

pub store_reads-Extends :
    (evm : Evm) (db : BlockStateDb) (reads : List (Provider × Read)) {after : BlockStateDb}
    → store_reads evm db reads ≡ ok after
    → Extends db after
unfolding store_reads
store_reads-Extends evm db [] h = subst (Extends db) (ok-injective h) (Extends-refl db)
store_reads-Extends evm db ((p, read) ∷ reads) h =
    let (mid, e, h1) = >>=-eq-ok (store_read evm p db read) _ h in
    Extends-trans (store_read-Extends evm p db read e) (store_reads-Extends evm mid reads h1)
