-- ===== src/TxSender/Laws.antt =====
-- The nonces and fees of the transactions sent, and the attempts of the polling.
use mathlib.Core.Path.{subst}
use base_buster.Prelude.{
  ℕ, zero, suc, ◌+◌, ◌*◌, ◌/◌, ◌^◌, ◌≤◌, ◌<◌, ◌≡◌, refl, sym, ap, ◌∙◌, inl, inr, List, [], ◌∷◌,
  Option, none, some, Outcome, ok, >>=-eq-ok, ok-injective, ltb, expect_ok, arith, Bool-cases, ◌==◌,
  ==_iff, Option-cases,
}
use base_buster.Swap.{to_flash_swap}
use base_buster.TxSender.{
  get_gas_fees, TransactionRequest, TransactionSender, ValidPath, request, send_transactions, poll,
  send_and_monitor,
}

-- What get_gas_fees returns.
get_gas_fees-le :
    (base profit max priority : ℕ)
    → get_gas_fees base profit ≡ ok (max, priority)
    → (max ≡ base + priority) × (priority * 700_000 ≤ profit)
unfolding get_gas_fees
get_gas_fees-le base profit max priority h = elim (Bool-cases (ltb (profit / 2) (2 ^ 128))) [
  | inl e ↦
      let g = ok-injective (simp e at h) in
      let a = ap (λ z. z.0) g in let b = ap (λ z. z.1) g in (omega (arith, a, b), omega (arith, b))
  | inr e ↦ let bad = simp e at h in cc
]

-- The transactions of the events, in order, from nonce n on: each has its event's path and the next
-- nonce, and 350,000 gas at its priority fee cost at most half of its event's profit.
abbrev pub Sends : ℕ → List ValidPath → List TransactionRequest → Type 0
Sends n [] [] = Unit
Sends n [] (tx ∷ txs) = ⊥
Sends n (event ∷ events) [] = ⊥
Sends n (event ∷ events) (tx ∷ txs) =
    (tx.nonce ≡ n)
    × (tx.input ≡ to_flash_swap event.arb_path)
    × (tx.max_fee_per_gas ≡ event.base_fee + tx.max_priority_fee_per_gas)
    × (tx.max_priority_fee_per_gas * 700_000 ≤ event.profit)
    × Sends (suc n) events txs

abbrev pub after : TransactionSender → TransactionSender
after s = record s { nonce = suc s.nonce }

-- Where every event is sent, there is one transaction per event, in order, with consecutive nonces,
-- the event's path, and a priority fee that 350,000 gas pay from half of the profit.
pub send_transactions-Sends :
    (send : TransactionRequest → Outcome ℕ) (s end : TransactionSender) (events : List ValidPath)
    (sent : List TransactionRequest)
    → send_transactions send s events ≡ ok (end, sent)
    → Sends s.nonce events sent
unfolding send_transactions request
send_transactions-Sends send s end [] sent h = subst (λ z. Sends s.nonce [] z.1) (ok-injective h) tt
send_transactions-Sends send s end (event ∷ events) sent h =
    let ((max, priority), h1, h2) = >>=-eq-ok (get_gas_fees event.base_fee event.profit) _ h in
    let (tx_hash, h3, h4) = >>=-eq-ok (expect_ok (send (request s event (max, priority)))) _ h2 in
    let ((last, rest), h5, h6) = >>=-eq-ok (send_transactions send (after s) events) _ h4 in
    let ih = send_transactions-Sends send (after s) last events rest h5 in
    let (a, b) = get_gas_fees-le event.base_fee event.profit max priority h1 in
    subst (λ z. Sends s.nonce (event ∷ events) z.1) (ok-injective h6) (refl, refl, a, b, ih)

-- One event: one transaction, with the sender's nonce, and the sender with the next nonce.
pub send_transactions_one :
    (send : TransactionRequest → Outcome ℕ) (s end : TransactionSender) (event : ValidPath)
    (sent : List TransactionRequest)
    → send_transactions send s (event ∷ []) ≡ ok (end, sent)
    → (tx : TransactionRequest) × (sent ≡ tx ∷ []) × (end ≡ after s) × (tx.nonce ≡ s.nonce)
unfolding send_transactions request
send_transactions_one send s end event sent h =
    let (fees, _, h1) = >>=-eq-ok (get_gas_fees event.base_fee event.profit) _ h in
    let (_, _, h2) = >>=-eq-ok (expect_ok (send (request s event fees))) _ h1 in
    let same = ok-injective h2 in
    (request s event fees, sym (ap (λ z. z.1) same), sym (ap (λ z. z.0) same), refl)

-- The outcome of polling from an attempt on: a receipt that came first at attempt k, or none at any.
abbrev Polled : (ℕ → Option ℕ) → ℕ → ℕ → ℕ × Option ℕ → Type 0
Polled receipt left from (k, some block) =
    (from ≤ k)
    × (k < from + left)
    × (receipt k ≡ some block)
    × ((i : ℕ) → from ≤ i → i < k → receipt i ≡ none)
Polled receipt left from (k, none) =
    (k ≡ from + left) × ((i : ℕ) → from ≤ i → i < k → receipt i ≡ none)

Polled-next :
    (receipt : ℕ → Option ℕ) (left from : ℕ) (r : ℕ × Option ℕ)
    → receipt from ≡ none
    → Polled receipt left (suc from) r
    → Polled receipt (suc left) from r
Polled-next receipt left from (k, some block) e (a, b, c, d) = (
  omega arith,
  omega arith,
  c,
  λ i lo hi. elim (Bool-cases (i == from)) [
    | inl p ↦ ap receipt ((==_iff i from).0 p) ∙ e
    | inr p ↦ d i (ground arith) hi
  ],
)
Polled-next receipt left from (k, none) e (a, d) = (
  omega arith,
  λ i lo hi. elim (Bool-cases (i == from)) [
    | inl p ↦ ap receipt ((==_iff i from).0 p) ∙ e
    | inr p ↦ d i (ground arith) hi
  ],
)

poll-Polled :
    (receipt : ℕ → Option ℕ) (left from : ℕ) → Polled receipt left from (poll receipt left from)
unfolding poll
poll-Polled receipt zero from = (omega arith, λ i lo hi. absurd {0} (omega arith))
poll-Polled receipt (suc left) from = elim (Option-cases (receipt from)) [
  | inl e ↦ rw (e, poll) (Polled-next receipt left from _ e (poll-Polled receipt left (suc from)))
  | inr (block, e) ↦ rw (e, poll) (omega arith, omega arith, e, λ i lo hi. absurd {0} (omega arith))
]

-- The polling ends at the first receipt within ten attempts, or after ten attempts without one.
send_and_monitor-Polled : (receipt : ℕ → Option ℕ) → Polled receipt 10 0 (send_and_monitor receipt)
unfolding send_and_monitor
send_and_monitor-Polled receipt = poll-Polled receipt 10 0
