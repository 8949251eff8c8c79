-- ===== src/Estimator/Rated.antt =====
-- Which pools have rates after `process_pools`.
use mathlib.Core.Path.{subst}
use base_buster.Prelude.{
  ℕ, ◌≡◌, sym, ap, ◌∙◌, inl, inr, true, List, [], ◌∷◌, Option, none, some, Outcome, ok, >>=-eq-ok,
  ok-injective, ◌==◌, ◌&&◌, if◌then◌else◌, arith, Bool-cases, Option-cases, lookup, insert,
  lookup-insert, lookup-nil, HashMap, In, eq_self,
}
use base_buster.Pool.{Address, U256, Pool, PoolType}
use base_buster.Swap.{amount}
use base_buster.Estimator.{
  Estimator, Progress, calculate_rate, store_rate, aggregate, has_weth, process_eth_pool,
  process_nonweth_pool, process_eth_pools, process_nonweth_pools, process_pools, average_rates,
}

abbrev pub lookup_rate : HashMap (HashMap U256) → Address → Address → Option U256
lookup_rate rates pool token = elim (lookup pool rates) [ none ↦ none | some r ↦ lookup token r ]

-- Both tokens of a pool have a rate.
abbrev pub Rated : Pool → Estimator → Type 0
Rated pool e =
    ((r : U256) × (lookup_rate e.rates pool.address pool.token0_address ≡ some r))
    × ((r : U256) × (lookup_rate e.rates pool.address pool.token1_address ≡ some r))

lookup_rate-store :
    (p t q u : Address) (r : U256) (e : Estimator)
    → lookup_rate (store_rate p t r e).rates q u
      ≡ (if (q == p) && (u == t) then some r else lookup_rate e.rates q u)
unfolding store_rate
lookup_rate-store p t q u r e =
    let old : HashMap U256 = elim (lookup p e.rates) [ none ↦ [] | some m ↦ m ] in
    let outer = lookup-insert q p (insert t r old) e.rates in
    let inner = lookup-insert u t r old in
    let nil = lookup-nil {0} {V = U256} u in ground (arith, outer, inner, nil)

-- Every rate that e has, d has too, perhaps another one.
abbrev Keeps : Estimator → Estimator → Type 0
Keeps e d =
    (q u : Address) (r : U256)
    → lookup_rate e.rates q u ≡ some r
    → (s : U256) × (lookup_rate d.rates q u ≡ some s)

store_rate-Keeps : (p t : Address) (r : U256) (e : Estimator) → Keeps e (store_rate p t r e)
store_rate-Keeps p t r e q u s h =
    let g = lookup_rate-store p t q u r e in
    elim (Bool-cases ((q == p) && (u == t))) [
      | inl b ↦ (r, simp b at g)
      | inr b ↦ (s, (simp b at g) ∙ h)
    ]

Keeps-trans : (e d f : Estimator) → Keeps e d → Keeps d f → Keeps e f
Keeps-trans e d f h k q u r m = let (s, g) = h q u r m in k q u s g

Rated-Keeps : (pool : Pool) (e d : Estimator) → Keeps e d → Rated pool e → Rated pool d
Rated-Keeps pool e d h ((r, a), (s, b)) = (h _ _ r a, h _ _ s b)

-- Storing a pool's two rates rates it.
two-Rated :
    (pool : Pool) (r s : U256) (e : Estimator)
    → Rated pool (
        store_rate pool.address pool.token1_address s
          (store_rate pool.address pool.token0_address r e))
two-Rated pool r s e =
    let d = store_rate pool.address pool.token0_address r e in
    let g =
      lookup_rate-store pool.address pool.token0_address pool.address pool.token0_address r e in
    let k =
      lookup_rate-store pool.address pool.token1_address pool.address pool.token1_address s d in
    let a = eq_self pool.address in
    let b = eq_self pool.token0_address in
    let c = eq_self pool.token1_address in
    (
      store_rate-Keeps pool.address pool.token1_address s d _ _ r (simp (a, b) at g),
      (s, simp (a, c) at k),
    )

-- The states that the first pass works on.
abbrev with_decimals : Pool → Estimator → Estimator
with_decimals pool e = record e {
  token_decimals =
      insert pool.token1_address pool.token1_decimals
        (insert pool.token0_address pool.token0_decimals e.token_decimals);
}

abbrev marked : Pool → Progress → Progress
marked pool s =
    let e = s.estimator in
    let after : Estimator = record e { weth_based = insert pool.address true e.weth_based } in
    record s { estimator = after }

module _ (output : Address → Address → PoolType → ℕ → U256 → Outcome U256) where
  eth_pool-Rated :
      (pool : Pool) (weth : Address) (input : U256) (s t : Progress)
      → process_eth_pool output pool weth input s ≡ ok t
      → Rated pool t.estimator × Keeps s.estimator t.estimator
  unfolding process_eth_pool aggregate
  eth_pool-Rated pool weth input s t h =
      let (alt_output, _, h1) =
        >>=-eq-ok (output pool.address _ pool.pool_type pool.fee input) _ h in
      let (other_output, _, h2) =
        >>=-eq-ok (output pool.address _ pool.pool_type pool.fee alt_output) _ h1 in
      let (r, _, h3) = >>=-eq-ok (calculate_rate input alt_output _ _) _ h2 in
      let (q, _, h4) = >>=-eq-ok (calculate_rate alt_output other_output _ _) _ h3 in
      let e = with_decimals pool s.estimator in
      let d = store_rate pool.address pool.token0_address r e in
      subst (λ z. Rated pool z.estimator × Keeps s.estimator z.estimator) (ok-injective h4)
        (
          two-Rated pool r q e,
          Keeps-trans e d (store_rate pool.address pool.token1_address q d)
              (store_rate-Keeps pool.address pool.token0_address r e)
              (store_rate-Keeps pool.address pool.token1_address q d),
        )

  nonweth_pool-Keeps :
      (pool : Pool) (e t : Estimator) → process_nonweth_pool output pool e ≡ ok t → Keeps e t
  unfolding process_nonweth_pool
  nonweth_pool-Keeps pool e t h =
      elim (Option-cases (lookup pool.token0_address e.aggregated_weth_rate)) [
        | inl g ↦
            subst (Keeps e) (ok-injective (rw (g, process_nonweth_pool) at h)) (λ q u r m. (r, m))
        | inr (v, g) ↦
            let k = rw (g, process_nonweth_pool) at h in
            let (out, _, h1) =
              >>=-eq-ok (output pool.address pool.token0_address pool.pool_type pool.fee v) _ k in
            let (other, _, h2) =
              >>=-eq-ok (output pool.address pool.token1_address pool.pool_type pool.fee out) _
                h1 in
            let (r, _, h3) = >>=-eq-ok (calculate_rate v out _ _) _ h2 in
            let (q, _, h4) = >>=-eq-ok (calculate_rate out other _ _) _ h3 in
            let d = store_rate pool.address pool.token0_address r e in
            subst (Keeps e) (ok-injective h4) (
              Keeps-trans e d (store_rate pool.address pool.token1_address q d)
                (store_rate-Keeps pool.address pool.token0_address r e)
                (store_rate-Keeps pool.address pool.token1_address q d))
      ]

  eth_pools-Rated :
      (weth : Address) (pools : List Pool) (s t : Progress)
      → process_eth_pools output weth pools s ≡ ok t
      → ((pool : Pool) → In pool pools → has_weth output weth pool ≡ true → Rated pool t.estimator)
        × Keeps s.estimator t.estimator
  unfolding process_eth_pools
  eth_pools-Rated weth [] s t h = (
    λ pool m. absurd m,
    subst (λ z. Keeps s.estimator z.estimator) (ok-injective h) (λ q u r m. (r, m)),
  )
  eth_pools-Rated weth (p ∷ pools) s t h = elim (Bool-cases (has_weth output weth p)) [
    | inl b ↦
        let (mid, h1, h2) =
          >>=-eq-ok (process_eth_pool output p weth amount (marked p s)) _
            (rw (b, process_eth_pools) at h) in
        let (rated, kept) = eth_pool-Rated p weth amount (marked p s) mid h1 in
        let (all, rest) = eth_pools-Rated weth pools mid t h2 in
        (
          λ pool m w. elim m [
            | inl e ↦
                subst (λ z. Rated z t.estimator) (sym e)
                  (Rated-Keeps p mid.estimator t.estimator rest rated)
            | inr k ↦ all pool k w
          ],
          Keeps-trans (marked p s).estimator mid.estimator t.estimator kept rest,
        )
    | inr b ↦
        let (all, rest) = eth_pools-Rated weth pools s t (rw (b, process_eth_pools) at h) in
        (
          λ pool m w. elim m [
            | inl e ↦ let c = ap (has_weth output weth) e in cc
            | inr k ↦ all pool k w
          ],
          rest,
        )
  ]

  nonweth_pools-Keeps :
      (weth : Address) (pools : List Pool) (e t : Estimator)
      → process_nonweth_pools output weth pools e ≡ ok t
      → Keeps e t
  unfolding process_nonweth_pools
  nonweth_pools-Keeps weth [] e t h = subst (Keeps e) (ok-injective h) (λ q u r m. (r, m))
  nonweth_pools-Keeps weth (p ∷ pools) e t h = elim (Bool-cases (has_weth output weth p)) [
    | inl b ↦ nonweth_pools-Keeps weth pools e t (rw (b, process_nonweth_pools) at h)
    | inr b ↦
        let (d, h1, h2) =
          >>=-eq-ok (process_nonweth_pool output p e) _ (rw (b, process_nonweth_pools) at h) in
        Keeps-trans e d t (nonweth_pool-Keeps p e d h1) (nonweth_pools-Keeps weth pools d t h2)
  ]

-- After a successful `process_pools` every given pool with WETH has a rate for both of its tokens.
pub process_pools-Rated :
    (output : Address → Address → PoolType → ℕ → U256 → Outcome U256) (weth : Address)
    (pools : List Pool) (e t : Estimator)
    → process_pools output weth pools e ≡ ok t
    → (pool : Pool) → In pool pools
    → has_weth output weth pool ≡ true
    → Rated pool t
unfolding process_pools
process_pools-Rated output weth pools e t h pool m w =
    let (s, h1, h2) = >>=-eq-ok (process_eth_pools output weth pools _) _ h in
    let (all, _) = eth_pools-Rated output weth pools _ s h1 in
    let e1 = s.estimator in
    let averaged : Estimator = record e1 {
      aggregated_weth_rate = average_rates s.weth_alt_cnt s.alt_tokens e1.aggregated_weth_rate;
    } in
    Rated-Keeps pool averaged t (nonweth_pools-Keeps output weth pools averaged t h2) (all pool m w)
