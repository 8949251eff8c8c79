-- ===== src/Simulator/Laws.antt =====
-- What the simulator sends, and what the blacklist keeps it from sending.
use mathlib.Core.Path.{subst}
use base_buster.Prelude.{
  ℕ, ◌≤◌, ◌≡◌, ◌≢◌, ◌⊎◌, refl, sym, ap, ◌∙◌, inl, inr, Bool, true, false, List, [], ◌∷◌, last?,
  Option, none, some, ok, err, panic, unwrap, unwrap-some, some-injective, ok-injective, >>=-eq-ok,
  ◌==◌, ltb, contains, arith, Bool-cases, eq_self, Error,
}
use base_buster.Prelude.Words.{wrapping_sub}
use base_buster.Pool.{U256, PoolType}
use base_buster.Swap.{amount}
use base_buster.Calculation.Calculator.{debug_calculation}
use base_buster.Quoter.{quote_path, optimize_input}
use base_buster.Quoter.Laws.{Scanned, optimize_input-Scanned, Outcome-cases}
use base_buster.Simulator.{
  ArbPath, SimulatedPath, quote_limit, converted, compare_quote, send_optimized, handle_quote,
  simulate_path, simulate_paths,
}

module _ (is_v3 : PoolType → Bool) (abi_decode : List ℕ → Option (List U256)) (sim : Bool) where
  -- A sent path: the first quote was believed, and the input is the one at which the scan ended.
  pub record Optimized (event : ArbPath) (quoted : U256) (sent : SimulatedPath) : Type 0 where
    pub believed : quoted ≤ quote_limit
    pub same_path :
        sent.converted_path
        ≡ record (converted is_v3 event) { amount_in = sent.converted_path.amount_in }
    pub same_block : sent.block_number ≡ event.block_number
    pub same_profit : sent.profit ≡ wrapping_sub event.expected_out amount
    pub best_output : U256
    pub scanned :
        Scanned event.transact abi_decode
          (converted is_v3 event)
          50
          amount
          quoted
          sent.converted_path.amount_in
          best_output

  send_optimized-Optimized :
      (event : ArbPath) (quoted : U256) (sent : SimulatedPath)
      → send_optimized is_v3 abi_decode sim event quoted ≡ ok (some sent)
      → Optimized event quoted sent
  unfolding send_optimized
  send_optimized-Optimized event quoted sent h = elim (Bool-cases (ltb quote_limit quoted)) [
    | inl e ↦ let bad = rw (e, send_optimized) at h in cc
    | inr e ↦
        let ((input, best), h1, h2) =
          >>=-eq-ok (optimize_input event.transact abi_decode (converted is_v3 event) quoted) _
            (rw (e, send_optimized) at h) in
        let better =
          optimize_input-Scanned event.transact abi_decode (converted is_v3 event) quoted input best
            h1 in
        subst (Optimized event quoted) (some-injective (ok-injective h2)) (record {
          believed = ground arith;
          same_path = refl;
          same_block = refl;
          same_profit = refl;
          best_output = best;
          scanned = better;
        })
  ]

  -- What is known of a path that is sent.
  abbrev pub Vetted : List ℕ → ArbPath → SimulatedPath → Type 0
  Vetted blacklisted event sent =
      (contains event.arb_path.hash blacklisted ≡ false)
      × (sim ≡ false)
      × ((quote : List U256) × (quoted : U256) × (quote_path event.transact abi_decode
              (converted is_v3 event)
            ≡ ok quote)
          × (last? quote ≡ some quoted)
          × Optimized event quoted sent)

  compare_quote-none :
      (event : ArbPath) (quoted : U256) (sent : SimulatedPath)
      → compare_quote is_v3 abi_decode sim event quoted ≡ ok (some sent)
      → ⊥
  unfolding compare_quote
  compare_quote-none event quoted sent h = elim (Bool-cases (quoted == event.expected_out)) [
    | inl e ↦ let bad = rw (e, compare_quote) at h in cc
    | inr e ↦
        let (_, _, bad) =
          >>=-eq-ok (debug_calculation event.swaps event.arb_path) _ (rw (e, compare_quote) at h) in
        cc
  ]

  handle_quote-sends :
      (event : ArbPath) (quote : List U256) (sent : SimulatedPath)
      → handle_quote is_v3 abi_decode sim event quote ≡ ok (some sent)
      → (sim ≡ false)
        × ((quoted : U256) × (last? quote ≡ some quoted)
            × (send_optimized is_v3 abi_decode sim event quoted ≡ ok (some sent)))
  unfolding handle_quote compare_quote send_optimized
  handle_quote-sends event quote sent h =
      let (quoted, u, h1) = >>=-eq-ok (unwrap (last? quote)) _ h in
      elim (Bool-cases sim) [
        | inl e ↦ absurd (compare_quote-none event quoted sent (simp e at h1))
        | inr e ↦ (e, (quoted, unwrap-some (last? quote) quoted u, simp e at h1))
      ]

  simulate_path-sends :
      (b : List ℕ) (event : ArbPath) (after : List ℕ) (sent : SimulatedPath)
      → simulate_path is_v3 abi_decode sim b event ≡ ok (after, some sent)
      → (contains event.arb_path.hash b ≡ false)
        × ((quote : List U256) × (quote_path event.transact abi_decode (converted is_v3 event)
              ≡ ok quote)
            × (handle_quote is_v3 abi_decode sim event quote ≡ ok (some sent)))
  unfolding simulate_path
  simulate_path-sends b event after sent h = elim (Bool-cases (contains event.arb_path.hash b)) [
    | inl e ↦
        let bad =
          ap (λ o. elim o [ ok (_, s) ↦ s | err _ ↦ none | panic ↦ none ])
            (rw (e, simulate_path) at h) in
        cc
    | inr fresh ↦
        elim (Outcome-cases (quote_path event.transact abi_decode (converted is_v3 event))) [
          | inr (inl p) ↦ let bad = rw (fresh, p, simulate_path) at h in cc
          | inr (inr (x, p)) ↦ let bad = rw (fresh, p, simulate_path) at h in cc
          | inl (quote, p) ↦
              let (s, h1, h2) =
                >>=-eq-ok (handle_quote is_v3 abi_decode sim event quote) _
                  (rw (fresh, p, simulate_path) at h) in
              (fresh, (quote, p, h1 ∙ ap (λ z. ok z.1) (ok-injective h2)))
        ]
  ]

  -- A path that the simulator sends was not blacklisted, its flag `SIM` was off, the first quote of
  -- the path succeeded and was at most 1e18, and what is sent is the same path with the block of the
  -- event, with the calculated output less AMOUNT as profit, and with the input at which the scan
  -- ended: the scan goes up from AMOUNT, with the first quote as its output, by 2e14 at a time, for as
  -- long as each next input is quoted an output above the input and above the output before, and for 50
  -- inputs at most.
  pub simulate_path-Vetted :
      (b : List ℕ) (event : ArbPath) (after : List ℕ) (sent : SimulatedPath)
      → simulate_path is_v3 abi_decode sim b event ≡ ok (after, some sent)
      → Vetted b event sent
  simulate_path-Vetted b event after sent h =
      let (fresh, (quote, p, handled)) = simulate_path-sends b event after sent h in
      let (off, (quoted, ends, sends)) = handle_quote-sends event quote sent handled in
      (fresh, off, (quote, quoted, p, ends, send_optimized-Optimized event quoted sent sends))

  -- A blacklisted hash stays, and its event sends nothing.
  simulate_path-blacklist :
      (b : List ℕ) (event : ArbPath) (after : List ℕ) (sent : Option SimulatedPath) (hash : ℕ)
      → simulate_path is_v3 abi_decode sim b event ≡ ok (after, sent)
      → contains hash b ≡ true
      → (contains hash after ≡ true) × ((event.arb_path.hash ≢ hash) ⊎ (sent ≡ none))
  unfolding simulate_path
  simulate_path-blacklist b event after sent hash h m =
      elim (Bool-cases (contains event.arb_path.hash b)) [
        | inl e ↦
            let same = ok-injective (rw (e, simulate_path) at h) in
            (subst (λ z. contains hash z.0 ≡ true) same m, inr (sym (ap (λ z. z.1) same)))
        | inr fresh ↦
            let new : (event.arb_path.hash ≢ hash) ⊎ (sent ≡ none) =
              inl (λ e. let c = ap (λ z. contains z b) e in cc) in
            elim (Outcome-cases (quote_path event.transact abi_decode (converted is_v3 event))) [
              | inr (inl p) ↦ let bad = rw (fresh, p, simulate_path) at h in cc
              | inr (inr (x, p)) ↦
                  let same = ok-injective (rw (fresh, p, simulate_path) at h) in
                  (subst (λ z. contains hash z.0 ≡ true) same (ground arith), new)
              | inl (quote, p) ↦
                  let (s, h1, h2) =
                    >>=-eq-ok (handle_quote is_v3 abi_decode sim event quote) _
                      (rw (fresh, p, simulate_path) at h) in
                  (subst (λ z. contains hash z.0 ≡ true) (ok-injective h2) m, new)
            ]
      ]

  -- No event with the hash sends anything.
  abbrev pub Silenced : ℕ → List ArbPath → List (Option SimulatedPath) → Type 0
  Silenced hash [] outs = Unit
  Silenced hash (event ∷ events) [] = ⊥
  Silenced hash (event ∷ events) (sent ∷ outs) =
      ((event.arb_path.hash ≢ hash) ⊎ (sent ≡ none)) × Silenced hash events outs

  simulate_paths-Silenced :
      (b : List ℕ) (events : List ArbPath) (end : List ℕ) (outs : List (Option SimulatedPath))
      (hash : ℕ)
      → simulate_paths is_v3 abi_decode sim b events ≡ ok (end, outs)
      → contains hash b ≡ true
      → Silenced hash events outs × (contains hash end ≡ true)
  unfolding simulate_paths
  simulate_paths-Silenced b [] end outs hash h m =
      (tt, subst (λ z. contains hash z.0 ≡ true) (ok-injective h) m)
  simulate_paths-Silenced b (event ∷ events) end outs hash h m =
      let ((after, sent), h1, h2) = >>=-eq-ok (simulate_path is_v3 abi_decode sim b event) _ h in
      let ((last, rest), h3, h4) =
        >>=-eq-ok (simulate_paths is_v3 abi_decode sim after events) _ h2 in
      let (kept, silent) = simulate_path-blacklist b event after sent hash h1 m in
      let (all, there) = simulate_paths-Silenced after events last rest hash h3 kept in
      subst (λ z. Silenced hash (event ∷ events) z.1 × (contains hash z.0 ≡ true)) (ok-injective h4)
        ((silent, all), there)

  -- An event whose path is new to the blacklist and whose first quote fails sends nothing, and its
  -- hash is then blacklisted: over any later events of a run that ends without a panic, no event with
  -- this hash sends anything, and the hash is still blacklisted at the end.
  pub simulate_paths-failed :
      (b : List ℕ) (event : ArbPath) (events : List ArbPath) (end : List ℕ)
      (outs : List (Option SimulatedPath)) (e : Error)
      → contains event.arb_path.hash b ≡ false
      → quote_path event.transact abi_decode (converted is_v3 event) ≡ err e
      → simulate_paths is_v3 abi_decode sim b (event ∷ events) ≡ ok (end, outs)
      → Silenced event.arb_path.hash (event ∷ events) outs
        × (contains event.arb_path.hash end ≡ true)
  unfolding simulate_path simulate_paths
  simulate_paths-failed b event events end outs e fresh failed h =
      let ((after, sent), h1, h2) = >>=-eq-ok (simulate_path is_v3 abi_decode sim b event) _ h in
      let ((last, rest), h3, h4) =
        >>=-eq-ok (simulate_paths is_v3 abi_decode sim after events) _ h2 in
      let same = ok-injective (rw (fresh, failed, simulate_path) at h1) in
      let there : contains event.arb_path.hash after ≡ true =
        subst (λ z. contains event.arb_path.hash z.0 ≡ true) same
          (let refl_hash = eq_self event.arb_path.hash in ground arith) in
      let (silent, kept) =
        simulate_paths-Silenced after events last rest event.arb_path.hash h3 there in
      subst
        (λ z.
          Silenced event.arb_path.hash (event ∷ events) z.1
          × (contains event.arb_path.hash z.0 ≡ true))
        (ok-injective h4) ((inr (sym (ap (λ z. z.1) same)), silent), kept)
