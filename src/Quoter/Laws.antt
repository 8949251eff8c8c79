-- ===== src/Quoter/Laws.antt =====
-- What the scan for a better input returns.
use mathlib.Core.Path.{subst}
use base_buster.Prelude.{
  Error, ℕ, zero, suc, ◌+◌, ◌*◌, ◌<◌, ◌≤◌, ◌∙◌, ap, ◌≡◌, refl, sym, ◌⊎◌, inl, inr, ◌&&◌, List,
  last?, Option, some, Outcome, ok, err, panic, ok-injective, ltb, arith, Bool-cases, Option-cases,
}
use base_buster.Prelude.Words.{u256_mod, wrapping_add, wrapping_add-exact}
use base_buster.Pool.{U256}
use base_buster.Swap.{SwapParams, amount}
use base_buster.Quoter.{ExecutionResult, input_step, quote_path, optimize_steps, optimize_input}

pub Outcome-cases :
    {A : Type 0} (m : Outcome A)
    → ((a : A) × (m ≡ ok a)) ⊎ ((m ≡ panic) ⊎ ((e : Error) × (m ≡ err e)))
Outcome-cases (ok a) = inl (a, refl)
Outcome-cases panic = inr (inl refl)
Outcome-cases (err e) = inr (inr (e, refl))

module _ (transact : SwapParams → Outcome ExecutionResult)
    (abi_decode : List ℕ → Option (List U256)) where
  -- The quote of the path at an input ends with the output.
  abbrev pub Quotes : SwapParams → U256 → U256 → Type 0
  Quotes path input output =
      (amounts : List U256) × (quote_path transact abi_decode (record path { amount_in = input })
        ≡ ok amounts)
      × (last? amounts ≡ some output)

  -- The quote of the path at an input fails, or ends with an output that is not more than the input or
  -- not more than the best one.
  abbrev pub Refused : SwapParams → U256 → U256 → Type 0
  Refused path input best_output =
      ((e : Error) × (quote_path transact abi_decode (record path { amount_in = input }) ≡ err e))
      ⊎ ((output : U256) × Quotes path input output × ((output ≤ input) ⊎ (output ≤ best_output)))

  -- The next input's quote succeeds, earns, and beats the one before.
  abbrev pub Better : SwapParams → U256 → (ℕ → U256) → ℕ → Type 0
  Better path first outputs i =
      Quotes path (first + suc i * input_step) (outputs (suc i))
      × (first + suc i * input_step < outputs (suc i))
      × (outputs i < outputs (suc i))

  -- A scan of at most so many turns from an input and its output: the inputs go up by a step, each one
  -- earns and beats the one before, and the scan ends after the last turn or at an input that is
  -- refused.
  pub record Scanned (path : SwapParams) (turns : ℕ) (first initial_out input output : U256)
      : Type 0 where
    pub rounds : ℕ
    pub outputs : ℕ → U256
    pub in_turns : rounds ≤ turns
    pub begins : outputs 0 ≡ initial_out
    pub last_input : input ≡ first + rounds * input_step
    pub last_output : outputs rounds ≡ output
    pub better : (i : ℕ) → i < rounds → Better path first outputs i
    pub over : (rounds ≡ turns) ⊎ Refused path (first + suc rounds * input_step) output

  Refused-Scanned :
      (turns : ℕ) (path : SwapParams) (curr out : U256)
      → Refused path (curr + input_step) out
      → Scanned path (suc turns) curr out curr out
  Refused-Scanned turns path curr out refused = record {
    rounds = 0;
    outputs = λ i. out;
    in_turns = omega arith;
    begins = refl;
    last_input = omega arith;
    last_output = refl;
    better = λ i few. absurd (omega (arith, few));
    over = inr (subst (λ z. Refused path z out) (omega arith) refused);
  }

  abbrev from_then : U256 → (ℕ → U256) → ℕ → U256
  from_then before outputs zero = before
  from_then before outputs (suc i) = outputs i

  one_more-Better :
      (path : SwapParams) (curr before : U256) (rounds : ℕ) (outputs : ℕ → U256)
      → Better path curr (from_then before (λ i. outputs i)) 0
      → ((i : ℕ) → i < rounds → Better path (curr + input_step) outputs i)
      → (i : ℕ) → i < suc rounds
      → Better path curr (from_then before outputs) i
  one_more-Better path curr before rounds outputs first h zero few = first
  one_more-Better path curr before rounds outputs first h (suc i) few =
      let there : curr + input_step + suc i * input_step ≡ curr + suc (suc i) * input_step =
        omega arith in
      let (quoted, earns, beats) = h i (omega (arith, few)) in
      (
        subst (λ z. Quotes path z (outputs (suc i))) there quoted,
        subst (λ z. z < outputs (suc i)) there earns,
        beats,
      )

  one_more :
      (turns : ℕ) (path : SwapParams) (curr before out input output : U256)
      → Quotes path (curr + input_step) out
      → curr + input_step < out
      → before < out
      → Scanned path turns (curr + input_step) out input output
      → Scanned path (suc turns) curr before input output
  one_more turns path curr before out input output quoted earns beats h =
      let here : curr + input_step ≡ curr + 1 * input_step = omega arith in
      let next_out = sym h.begins in
      let first : Better path curr (from_then before h.outputs) 0 =
        subst
          (λ z. Quotes path (curr + 1 * input_step) z × (curr + 1 * input_step < z) × (before < z))
          next_out
          (subst (λ z. Quotes path z out) here quoted, subst (λ z. z < out) here earns, beats) in
      record {
        rounds = suc h.rounds;
        outputs = from_then before h.outputs;
        in_turns = (let k = h.in_turns in omega (arith, k));
        begins = refl;
        last_input = h.last_input ∙ (omega arith);
        last_output = h.last_output;
        better = one_more-Better path curr before h.rounds h.outputs first h.better;
        over = elim h.over [
          | inl e ↦ inl (ap suc e)
          | inr r ↦ inr (subst (λ z. Refused path z output) (omega arith) r)
        ];
      }

  abbrev Ends : Outcome (U256 × U256) → U256 → U256 → Type 0
  Ends m input output = m ≡ ok (input, output)

  optimize_steps-Scanned :
      (turns : ℕ) (path : SwapParams) (curr out input output : U256)
      → curr + turns * input_step < u256_mod
      → optimize_steps transact abi_decode turns path curr curr out ≡ ok (input, output)
      → Scanned path turns curr out input output
  unfolding optimize_steps
  optimize_steps-Scanned zero path curr out input output fit h =
      subst (λ r. Scanned path zero curr out r.0 r.1) (ok-injective h)
        (record {
          rounds = 0;
          outputs = λ i. out;
          in_turns = omega arith;
          begins = refl;
          last_input = omega arith;
          last_output = refl;
          better = λ i few. absurd (omega (arith, few));
          over = inl refl;
        })
  optimize_steps-Scanned (suc turns) path curr bo input output fit h =
      let next = wrapping_add curr input_step in
      let exact : next ≡ curr + input_step = wrapping_add-exact curr input_step (omega arith) in
      let go_on : (z : U256)
          → Ends (optimize_steps transact abi_decode turns path next next z) input output
          → Scanned path turns (curr + input_step) z input output =
        λ z k. optimize_steps-Scanned turns path (curr + input_step) z input output (omega arith) (
          subst (λ y. Ends (optimize_steps transact abi_decode turns path y y z) input output) exact
            k) in
      let stop : Refused path next bo
          → Ends (ok (curr, bo)) input output
          → Scanned path (suc turns) curr bo input output =
        λ refused k.
          subst (λ r. Scanned path (suc turns) curr bo r.0 r.1) (ok-injective k)
            (Refused-Scanned turns path curr bo (subst (λ z. Refused path z bo) exact refused)) in
      elim (Outcome-cases (quote_path transact abi_decode (record path { amount_in = next }))) [
        | inr (inl p) ↦ let bad = rw (p, optimize_steps) at h in cc
        | inr (inr (e, p)) ↦ stop (inl (e, p)) (rw (p, optimize_steps) at h)
        | inl (amounts, p) ↦
            let h1 = rw (p, optimize_steps) at h in
            elim (Option-cases (last? amounts)) [
              | inl n ↦ let bad = simp n at h1 in cc
              | inr (out, o) ↦
                  let h2 = simp o at h1 in
                  elim (Bool-cases (ltb next out && ltb bo out)) [
                    | inr b ↦ stop (inr (out, (amounts, p, o), ground arith)) (simp b at h2)
                    | inl b ↦
                        let earned : next < out = ground arith in
                        let better : bo < out = ground arith in
                        one_more turns path curr bo out input output
                          (subst (λ z. Quotes path z out) exact (amounts, p, o))
                          (subst (λ z. z < out) exact earned) better (go_on out (simp b at h2))
                  ]
            ]
      ]

-- A scan that returns has gone on, from the given output at the standard amount, for as long as each
-- next input was quoted an output above the input and above the output before, and 50 turns at most;
-- it returns the last of these inputs with its output.
pub optimize_input-Scanned :
    (transact : SwapParams → Outcome ExecutionResult) (abi_decode : List ℕ → Option (List U256))
    (path : SwapParams) (initial_out input output : U256)
    → optimize_input transact abi_decode path initial_out ≡ ok (input, output)
    → Scanned transact abi_decode path 50 amount initial_out input output
unfolding optimize_input
optimize_input-Scanned transact abi_decode path initial_out input output =
    optimize_steps-Scanned transact abi_decode 50 path amount initial_out input output (omega arith)
