-- ===== src/MarketState/Tracked.antt =====
-- Which pools the populated database tracks.
use mathlib.Core.Path.{subst}
use base_buster.Prelude.{
  some, ◌≡◌, refl, sym, ap, ◌∙◌, ◌⊎◌, inl, inr, ◌↔◌, true, false, List, [], ◌∷◌, Outcome, ok,
  unwrap, expect_ok, expect_ok-ok, >>=-eq-ok, ok-injective, ◌==◌, ==_iff, if◌then◌else◌, Bool-cases,
  In, contains→In, In→contains, lookup, lookup-insert, some-injective,
}
use base_buster.Pool.{Address, Pool}
use base_buster.StateDb.Types.{BlockStateDb, Provider, Evm, Bytecode}
use base_buster.StateDb.Database.{get_pool, tracking_pool}
use base_buster.StateDb.V2.{insert_v2}
use base_buster.StateDb.V3.{insert_v3}
use base_buster.StateDb.New.{Runtime, no_runtime, current_thread, multi_thread, new}
use base_buster.MarketState.Insertions.{Tracks, insert_v2-Tracks, insert_v3-Tracks}
use base_buster.MarketState.{populate_db_with_pools}

-- The pools that are inserted.
abbrev pub Inserted : Pool → Type 0
Inserted pool = (pool.is_v2 ≡ true) ⊎ (pool.is_v3 ≡ true)

-- Not inserted: neither kind.
abbrev pub Passed : Pool → Type 0
Passed pool = (pool.is_v2 ≡ false) × (pool.is_v3 ≡ false)

-- Each tracked address has a description that is a pool at this address.
abbrev pub Described : BlockStateDb → Type 0
Described db =
    (a : Address)
    → tracking_pool db a ≡ true
    → (pool : Pool) × (get_pool db a ≡ ok pool) × (pool.address ≡ a)

Tracks-Described :
    (pool : Pool) (db db' : BlockStateDb) → Tracks pool db db' → Described db → Described db'
unfolding tracking_pool get_pool
Tracks-Described pool db db' (p, q) h a t = elim (Bool-cases (a == pool.address)) [
  | inl e ↦
      let found = lookup-insert a pool.address pool db.pool_info in
      let kept = ap (λ m. unwrap (lookup a m)) q ∙ ap unwrap (simp e at found) in
      (pool, kept, sym ((==_iff a pool.address).0 e))
  | inr e ↦
      let found = lookup-insert a pool.address pool db.pool_info in
      let kept = ap (λ m. unwrap (lookup a m)) q ∙ ap unwrap (simp e at found) in
      let before : In a db.pools = elim (subst (In a) p (contains→In a db'.pools t)) [
        | inl same ↦ let c = (==_iff a pool.address).1 same in cc
        | inr m ↦ m
      ] in
      let (x, g, s) = h a (In→contains a db.pools before) in (x, kept ∙ g, s)
]

tracking-Tracks :
    (pool : Pool) (db db' : BlockStateDb) (a : Address)
    → Tracks pool db db'
    → (tracking_pool db' a ≡ true) ↔ ((pool.address ≡ a) ⊎ (tracking_pool db a ≡ true))
unfolding tracking_pool
tracking-Tracks pool db db' a (p, q) = (
  λ t. elim (subst (In a) p (contains→In a db'.pools t)) [
    | inl same ↦ inl (sym same)
    | inr m ↦ inr (In→contains a db.pools m)
  ],
  λ t. In→contains a db'.pools (
      subst (In a) (sym p)
        (elim t [ inl same ↦ inl (sym same) | inr k ↦ inr (contains→In a db.pools k) ])),
)

-- One pool's turn.
abbrev Turned : Pool → BlockStateDb → BlockStateDb → Type 0
Turned pool db after = (Inserted pool × Tracks pool db after) ⊎ (Passed pool × (after ≡ db))

-- An address that one of the pools to be inserted has.
abbrev pub Asked : List Pool → Address → Type 0
Asked pools a = (pool : Pool) × In pool pools × Inserted pool × (pool.address ≡ a)

abbrev pub TracksExactly : List Pool → BlockStateDb → BlockStateDb → Type 0
TracksExactly pools db db' =
    (a : Address) → (tracking_pool db' a ≡ true) ↔ ((tracking_pool db a ≡ true) ⊎ Asked pools a)

module _ (evm : Evm) (p : Provider) where
  abbrev insertion : BlockStateDb → Pool → Outcome BlockStateDb
  insertion db pool =
      if pool.is_v2
      then insert_v2 evm p db pool
      else if pool.is_v3
      then expect_ok (insert_v3 evm p db pool)
      else ok db

  insertion-Turned :
      (db after : BlockStateDb) (pool : Pool) → insertion db pool ≡ ok after → Turned pool db after
  insertion-Turned db after pool e = elim (Bool-cases pool.is_v2) [
    | inl v2 ↦ inl (inl v2, insert_v2-Tracks evm p db after pool (simp v2 at e))
    | inr not_v2 ↦ elim (Bool-cases pool.is_v3) [
      | inl v3 ↦
          inl (
            inr v3,
            insert_v3-Tracks evm p db after pool (expect_ok-ok _ _ (simp (not_v2, v3) at e)),
          )
      | inr not_v3 ↦ inr ((not_v2, not_v3), sym (ok-injective (simp (not_v2, not_v3) at e)))
    ]
  ]

  Turned-exactly :
      (pool : Pool) (pools : List Pool) (db after db' : BlockStateDb)
      → Turned pool db after
      → TracksExactly pools after db'
      → TracksExactly (pool ∷ pools) db db'
  Turned-exactly pool pools db after db' (inl (inserted, tracks)) rest a =
      let one = tracking-Tracks pool db after a tracks in
      (
        λ t. elim ((rest a).0 t) [
          | inl k ↦ elim (one.0 k) [
            | inl same ↦ inr (pool, inl refl, inserted, same)
            | inr old ↦ inl old
          ]
          | inr (x, m, i, s) ↦ inr (x, inr m, i, s)
        ],
        λ t. (rest a).1 (elim t [
          | inl old ↦ inl (one.1 (inr old))
          | inr (x, inl is_pool, i, s) ↦ inl (one.1 (inl (ap (λ z. z.address) (sym is_pool) ∙ s)))
          | inr (x, inr m, i, s) ↦ inr (x, m, i, s)
        ]),
      )
  Turned-exactly pool pools db after db' (inr ((not_v2, not_v3), same)) rest a = (
    λ t. elim ((rest a).0 t) [
      | inl k ↦ inl (ap (λ z. tracking_pool z a) (sym same) ∙ k)
      | inr (x, m, i, s) ↦ inr (x, inr m, i, s)
    ],
    λ t. (rest a).1 (elim t [
      | inl old ↦ inl (ap (λ z. tracking_pool z a) same ∙ old)
      | inr (x, inl is_pool, inl v2, s) ↦ let bad = ap (λ z. z.is_v2) is_pool in cc
      | inr (x, inl is_pool, inr v3, s) ↦ let bad = ap (λ z. z.is_v3) is_pool in cc
      | inr (x, inr m, i, s) ↦ inr (x, m, i, s)
    ]),
  )

  -- Populating a database tracks, besides what was tracked, exactly the addresses of the given V2 and
  -- V3 pools; and if every tracked address had a description before, every one has one after.
  pub populate_db_with_pools-Tracked :
      (db db' : BlockStateDb) (pools : List Pool)
      → Described db
      → populate_db_with_pools evm p db pools ≡ ok db'
      → TracksExactly pools db db' × Described db'
  unfolding populate_db_with_pools
  populate_db_with_pools-Tracked db db' [] described e =
      let same = ok-injective e in
      (
        λ a. (
          λ t. inl (ap (λ z. tracking_pool z a) same ∙ t),
          λ t. elim t [
            | inl k ↦ ap (λ z. tracking_pool z a) (sym same) ∙ k
            | inr (x, m, i, s) ↦ absurd m
          ],
        ),
        subst Described same described,
      )
  populate_db_with_pools-Tracked db db' (pool ∷ pools) described e =
      let (after, e1, e2) = >>=-eq-ok (insertion db pool) _ e in
      let turned = insertion-Turned db after pool e1 in
      let described' : Described after = elim turned [
        | inl (_, tracks) ↦ Tracks-Described pool db after tracks described
        | inr (_, same) ↦ subst Described (sym same) described
      ] in
      let (exactly, all) = populate_db_with_pools-Tracked after db' pools described' e2 in
      (Turned-exactly pool pools db after db' turned exactly, all)

-- A new database tracks nothing.
new-Described :
    (evm : Evm) (code : Bytecode) (runtime : Runtime) (db : BlockStateDb)
    → new evm code runtime ≡ some db
    → Described db
unfolding new tracking_pool
new-Described evm code no_runtime db e a t = cc
new-Described evm code current_thread db e a t = cc
new-Described evm code multi_thread db e a t = subst Described (some-injective e) (λ b u. cc) a t
