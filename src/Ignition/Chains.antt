-- ===== src/Ignition/Chains.antt =====
-- The outputs that the searcher calculates, traced to versions of the database. An entry of the cache
-- may be older than the event that uses it.
use mathlib.Core.Path.{subst}
use base_buster.Prelude.{
  ℕ, ◌≡◌, ◌≢◌, sym, ap, ◌∙◌, ◌⊎◌, inl, inr, List, [], ◌∷◌, some, ok, ◌==◌, ==_iff, In, Bool-cases,
  Option-cases, >>=-eq-ok, ok-injective, some-injective,
}
use base_buster.Pool.{Address, U256, PoolType}
use base_buster.Swap.{SwapStep}
use base_buster.StateDb.Types.{BlockStateDb}
use base_buster.Cache.{Cache, get, find_entry, invalidate}
use base_buster.Cache.Laws.{get-invalidate}
use base_buster.Calculation.Calculator.{
  Swaps, step_amount_out, cached_step, calculate_steps, invalidate_cache,
}
use base_buster.Ignition.{Services}

-- The pool's output for the input, calculated on one of the databases.
pub record Answer (o : Services) (dbs : List BlockStateDb) (input : U256) (pool : Address)
    (out : U256) : Type 0 where
  pub db : BlockStateDb
  pub db_in : In db dbs
  pub token_in : Address
  pub protocol : PoolType
  pub fee : ℕ
  pub calculated : o.amount_out db input pool token_in protocol fee ≡ ok out

module _ (o : Services) (dbs : List BlockStateDb) where
  -- Each step's output is the next step's input; an output of zero ends the path with zero.
  abbrev pub Chain : U256 → List SwapStep → U256 → Type 0
  Chain input [] out = input ≡ out
  Chain input (step ∷ steps) out =
      (mid : U256) × Answer o dbs input step.pool_address mid
      × (((mid ≡ 0) × (out ≡ 0)) ⊎ ((mid ≢ 0) × Chain mid steps out))

  abbrev pub Known : Cache → Type 0
  Known cache =
      (a : U256) (pool : Address) (out : U256)
      → get cache a pool ≡ some out
      → Answer o dbs a pool out

  moved :
      {i j : U256} {a p : Address} {out w : U256}
      → j ≡ i
      → p ≡ a
      → out ≡ w
      → Answer o dbs i a out
      → Answer o dbs j p w
  moved {i} {j} {a} {p} {out} {w} e f g answer =
      subst (λ z. Answer o dbs j p z) g
        (subst (λ z. Answer o dbs j z out) (sym f)
          (subst (λ z. Answer o dbs z a out) (sym e) answer))

  pub Known-nil : Known []
  unfolding get find_entry
  Known-nil a pool out h = cc

  pub invalidate_cache-Known :
      (cache : Cache) (pools : List Address) → Known cache → Known (invalidate_cache cache pools)
  unfolding invalidate_cache
  invalidate_cache-Known cache [] h = h
  invalidate_cache-Known cache (pool ∷ pools) h =
      invalidate_cache-Known (invalidate cache pool) pools (λ a p out g.
        let e = get-invalidate cache a p pool in
        elim (Bool-cases (p == pool)) [
          | inl q ↦ let bad = simp q at e in cc
          | inr q ↦ let same = simp q at e in h a p out (sym same ∙ g)
        ])

  module _ (swaps : Swaps)
      (answers : (i : U256) (a t : Address) (k : PoolType) (f : ℕ) (out : U256)
        → swaps.amount_out i a t k f ≡ ok out
        → Answer o dbs i a out) where
    set-Known :
        (cache : Cache) (i : U256) (a : Address) (out : U256)
        → Known cache
        → Answer o dbs i a out
        → Known (swaps.set cache i a out)
    set-Known cache i a out known answer j p w g =
        let e = swaps.get-set cache i a out j p in
        elim (Bool-cases (j == i)) [
          | inr q ↦ let same = simp q at e in known j p w (sym same ∙ g)
          | inl q ↦ elim (Bool-cases (p == a)) [
            | inr r ↦ let same = simp (q, r) at e in known j p w (sym same ∙ g)
            | inl r ↦
                let same = simp (q, r) at e in
                let found : out ≡ w = some-injective (sym same ∙ g) in
                moved ((==_iff j i).0 q) ((==_iff p a).0 r) found answer
          ]
        ]

    cached_step-Known :
        (cache : Cache) (i : U256) (step : SwapStep) (after : Cache) (out : U256)
        → Known cache
        → cached_step swaps cache i step ≡ ok (after, out)
        → Known after × Answer o dbs i step.pool_address out
    unfolding cached_step
    cached_step-Known cache i step after out known h =
        elim (Option-cases (get cache i step.pool_address)) [
          | inr (v, e) ↦
              let same = ok-injective (rw (e, cached_step) at h) in
              let there = known i step.pool_address v e in
              (
                subst (λ z. Known z.0) same known,
                subst (λ z. Answer o dbs i step.pool_address z.1) same there,
              )
          | inl e ↦
              let (v, h1, h2) =
                >>=-eq-ok (step_amount_out swaps i step) _ (rw (e, cached_step) at h) in
              let answer = answers i step.pool_address step.token_in step.protocol step.fee v h1 in
              let known' = set-Known cache i step.pool_address v known answer in
              let same = ok-injective h2 in
              (
                subst (λ z. Known z.0) same known',
                subst (λ z. Answer o dbs i step.pool_address z.1) same answer,
              )
        ]

    -- Calculating a path keeps the cache known, and its output is a chain of answers.
    pub calculate_steps-Chain :
        (steps : List SwapStep) (cache : Cache) (i : U256) (after : Cache) (out : U256)
        → Known cache
        → calculate_steps swaps cache i steps ≡ ok (after, out)
        → Known after × Chain i steps out
    unfolding calculate_steps
    calculate_steps-Chain [] cache i after out known h =
        let same = ok-injective h in (subst (λ z. Known z.0) same known, ap (λ z. z.1) same)
    calculate_steps-Chain (step ∷ steps) cache i after out known h =
        let ((c, mid), h1, h2) = >>=-eq-ok (cached_step swaps cache i step) _ h in
        let (known', answer) = cached_step-Known cache i step c mid known h1 in
        elim (Bool-cases (mid == 0)) [
          | inl e ↦
              let same = ok-injective (simp e at h2) in
              let ends : out ≡ 0 = sym (ap (λ z. z.1) same) in
              (subst (λ z. Known z.0) same known', (mid, answer, inl ((==_iff mid 0).0 e, ends)))
          | inr e ↦
              let (known'', chain) =
                calculate_steps-Chain steps c mid after out known' (simp e at h2) in
              (known'', (mid, answer, inr (λ q. let c = (==_iff mid 0).1 q in cc, chain)))
        ]

module _ (o : Services) (dbs : List BlockStateDb) (newer : BlockStateDb) where
  pub Answer-newer :
      {i : U256} {a : Address} {out : U256} → Answer o dbs i a out → Answer o (newer ∷ dbs) i a out
  Answer-newer answer = record {
    db = answer.db;
    db_in = inr answer.db_in;
    token_in = answer.token_in;
    protocol = answer.protocol;
    fee = answer.fee;
    calculated = answer.calculated;
  }

  pub Chain-newer :
      (i : U256) (steps : List SwapStep) (out : U256)
      → Chain o dbs i steps out
      → Chain o (newer ∷ dbs) i steps out
  Chain-newer i [] out h = h
  Chain-newer i (step ∷ steps) out (mid, answer, inl zero) = (mid, Answer-newer answer, inl zero)
  Chain-newer i (step ∷ steps) out (mid, answer, inr (more, rest)) =
      (mid, Answer-newer answer, inr (more, Chain-newer mid steps out rest))
