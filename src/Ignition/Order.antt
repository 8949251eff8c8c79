-- ===== src/Ignition/Order.antt =====
-- The order of the blocks through the channels, and the nonces of the transactions.
use mathlib.Core.Path.{subst}
use mathlib.Core.List.{map-append, append_assoc}
use base_buster.Prelude.{
  ℕ, suc, ◌+◌, ◌≡◌, refl, sym, ap, ◌∙◌, ◌⊎◌, inl, inr, List, [], ◌∷◌, ◌++◌, map, Option, none, some,
  ok, leb, Bool-cases, length, length-append, arith,
}
use base_buster.Pool.{Address, U256}
use base_buster.Swap.{SwapPath, SwapParams}
use base_buster.Simulator.{SimulatedPath, simulate_path}
use base_buster.Simulator.Laws.{simulate_path-Vetted}
use base_buster.TxSender.{TransactionRequest}
use base_buster.TxSender.Laws.{send_transactions_one, after}
use base_buster.Ignition.{
  Header, Event, arb_path, valid_path, pools_touched, new_block, Services, Launch, View, State,
}
use base_buster.Ignition.Workers.{simulated, found_events, valid_events, priced, block_turn}
use base_buster.Ignition.Steps.{
  Step, Reach, block, gas, start, search, quote, simulate, send, here, later,
}
use base_buster.Ignition.Turns.{
  gas_turn-next, start_searcher-next, search_turn-next, simulate_turn-next, send_turn-next, sent_on,
}
use base_buster.Ignition.Rising.{Rising, Rising-snoc, Rising-under, Rising-pass}

abbrev pub block_of : Event → ℕ
block_of (arb_path path out n) = n
block_of (valid_path params profit n) = n
block_of (pools_touched pools n) = n
block_of (new_block header) = header.number

abbrev pub posted_blocks : State → List ℕ
posted_blocks s = map (λ post. post.0) s.posted

-- The blocks of the posted transactions and of the queued events, from the last channel to the first.
abbrev pub blocks_of : State → List ℕ
blocks_of s =
    posted_blocks s
    ++ (map block_of s.profitable ++ (map block_of s.paths ++ map block_of s.addresses))

-- Consecutive nonces from n on.
abbrev pub Numbered : ℕ → List (ℕ × TransactionRequest) → Type 0
Numbered n [] = Unit
Numbered n ((b, tx) ∷ posted) = (tx.nonce ≡ n) × Numbered (suc n) posted

pub record Ordered (l : Launch) (s : State) : Type 0 where
  pub rising : Rising l.last_synced s.last_synced (blocks_of s)
  pub numbered : Numbered l.sender.nonce s.posted
  pub next_nonce : s.sender.nonce ≡ l.sender.nonce + length s.posted

Numbered-snoc :
    (n b : ℕ) (posted : List (ℕ × TransactionRequest)) (tx : TransactionRequest)
    → Numbered n posted
    → tx.nonce ≡ n + length posted
    → Numbered n (posted ++ (b, tx) ∷ [])
Numbered-snoc n b [] tx h e = (omega (arith, e), tt)
Numbered-snoc n b (post ∷ posted) tx (a, h) e =
    (a, Numbered-snoc (suc n) b posted tx h (omega (arith, e)))

module _ (o : Services) where
  found_blocks :
      (b : ℕ) (found : Option (SwapPath × U256))
      → (map block_of (found_events o b found) ≡ [])
        ⊎ (map block_of (found_events o b found) ≡ b ∷ [])
  found_blocks b none = inl refl
  found_blocks b (some (path, out)) = inr refl

  valid_blocks :
      (v : View) (black : List ℕ) (path : SwapPath) (out : U256) (b : ℕ) (rest : List ℕ)
      (sent : Option SimulatedPath)
      → simulate_path o.is_v3 o.abi_decode o.sim black (simulated o v path out b) ≡ ok (rest, sent)
      → (map block_of (valid_events o sent) ≡ []) ⊎ (map block_of (valid_events o sent) ≡ b ∷ [])
  valid_blocks v black path out b rest none h = inl refl
  valid_blocks v black path out b rest (some p) h =
      let (_, _, (_, _, _, _, optimized)) =
        simulate_path-Vetted o.is_v3 o.abi_decode o.sim black (simulated o v path out b) rest p h in
      inr (ap (λ z. z ∷ []) optimized.same_block)

  module _ (l : Launch) where
    abbrev lo : ℕ
    lo = l.last_synced

    block_turn-Ordered :
        (s : State) (header : Header) → Ordered l s → Ordered l (block_turn o s header)
    unfolding block_turn
    block_turn-Ordered s header h = elim (Bool-cases (leb header.number s.last_synced)) [
      | inl e ↦ rw (e, block_turn) h
      | inr e ↦
          let n = header.number in
          let p = posted_blocks s in
          let v = map block_of s.profitable in
          let a = map block_of s.paths in
          let t = map block_of s.addresses in
          let snoc = Rising-snoc lo s.last_synced n (blocks_of s) (ground arith) h.rising in
          let moved : blocks_of s ++ n ∷ [] ≡ p ++ (v ++ (a ++ (t ++ n ∷ []))) =
            append_assoc p _ _
            ∙ ap (λ z. p ++ z) (append_assoc v _ _ ∙ ap (λ z. v ++ z) (append_assoc a _ _)) in
          let mapped = map-append block_of s.addresses (pools_touched _ n ∷ []) in
          rw (e, block_turn)
            (record {
              rising =
                  subst (λ z. Rising lo n (p ++ (v ++ (a ++ z)))) (sym mapped)
                    (subst (Rising lo n) moved snoc);
              numbered = h.numbered;
              next_nonce = h.next_nonce;
            })
    ]

    search-Rising :
        (s : State) (pools : List Address) (b : ℕ) (rest : List Event)
        (found : Option (SwapPath × U256))
        → s.addresses ≡ pools_touched pools b ∷ rest
        → Ordered l s
        → Rising lo s.last_synced (
            posted_blocks s
            ++ (map block_of s.profitable
                ++ (map block_of (s.paths ++ found_events o b found) ++ map block_of rest)))
    search-Rising s pools b rest found q h =
        let hi = s.last_synced in
        let p = posted_blocks s in
        let v = map block_of s.profitable in
        let a = map block_of s.paths in
        let r = subst (λ z. Rising lo hi (p ++ (v ++ (a ++ map block_of z)))) q h.rising in
        subst (λ z. Rising lo hi (p ++ (v ++ (z ++ map block_of rest))))
          (sym (map-append block_of s.paths (found_events o b found)))
          (Rising-under hi p _ _ lo
            (λ z.
              Rising-under hi v _ _ z
                (λ z'. Rising-pass hi b a _ (map block_of rest) z' (found_blocks b found)))
            r)

    simulate-Rising :
        (s : State) (path : SwapPath) (out : U256) (b : ℕ) (rest : List Event)
        (sent : Option SimulatedPath)
        → (map block_of (valid_events o sent) ≡ []) ⊎ (map block_of (valid_events o sent) ≡ b ∷ [])
        → s.paths ≡ arb_path path out b ∷ rest
        → Ordered l s
        → Rising lo s.last_synced (
            posted_blocks s
            ++ (map block_of (s.profitable ++ valid_events o sent)
                ++ (map block_of rest ++ map block_of s.addresses)))
    simulate-Rising s path out b rest sent one q h =
        let hi = s.last_synced in
        let p = posted_blocks s in
        let v = map block_of s.profitable in
        let t = map block_of s.addresses in
        let r = subst (λ z. Rising lo hi (p ++ (v ++ (map block_of z ++ t)))) q h.rising in
        subst (λ z. Rising lo hi (p ++ (z ++ (map block_of rest ++ t))))
          (sym (map-append block_of s.profitable (valid_events o sent)))
          (Rising-under hi p _ _ lo (λ z. Rising-pass hi b v _ (map block_of rest ++ t) z one) r)

    send-Ordered :
        (s : State) (params : SwapParams) (profit : U256) (b : ℕ) (rest : List Event)
        (tx : TransactionRequest)
        → s.profitable ≡ valid_path params profit b ∷ rest
        → tx.nonce ≡ s.sender.nonce
        → Ordered l s
        → Ordered l (sent_on o s rest b (after s.sender, tx ∷ []))
    send-Ordered s params profit b rest tx q nonce h =
        let hi = s.last_synced in
        let p = posted_blocks s in
        let behind = map block_of s.paths ++ map block_of s.addresses in
        let r = subst (λ z. Rising lo hi (p ++ (map block_of z ++ behind))) q h.rising in
        let first = h.next_nonce in
        record {
          rising =
              subst (λ z. Rising lo hi (z ++ (map block_of rest ++ behind)))
                (sym (map-append (λ post. post.0) s.posted ((b, tx) ∷ [])))
                (Rising-pass hi b p (b ∷ []) (map block_of rest ++ behind) lo (inr refl) r);
          numbered = Numbered-snoc l.sender.nonce b s.posted tx h.numbered (nonce ∙ first);
          next_nonce = omega (arith, first, length-append s.posted ((b, tx) ∷ []));
        }

    Step-Ordered : {s t : State} → Step o l s t → Ordered l s → Ordered l t
    Step-Ordered {s} (block header) h = block_turn-Ordered s header h
    Step-Ordered {s} (gas header g) h =
        let (fee, e) = gas_turn-next o s header g in
        subst (Ordered l) (sym e)
          (record { rising = h.rising; numbered = h.numbered; next_nonce = h.next_nonce })
    Step-Ordered {s} (start v sees g) h =
        let (_, (est, e)) = start_searcher-next o l v s g in
        subst (Ordered l) (sym e)
          (record { rising = h.rising; numbered = h.numbered; next_nonce = h.next_nonce })
    Step-Ordered {s} (search v sees g) h =
        let (w, pools, b, rest, (w', found), p, q, run, e) = search_turn-next o v s g in
        subst (Ordered l) (sym e) (record {
          rising = search-Rising s pools b rest found q h;
          numbered = h.numbered;
          next_nonce = h.next_nonce;
        })
    Step-Ordered (quote reads q stored) h = record {
      rising = h.rising;
      numbered = h.numbered;
      next_nonce = h.next_nonce;
    }
    Step-Ordered {s} (simulate v sees g) h =
        let (path, out, b, rest, (black, sent), q, run, e) = simulate_turn-next o v s g in
        let one = valid_blocks v s.blacklisted path out b black sent run in
        subst (Ordered l) (sym e) (record {
          rising = simulate-Rising s path out b rest sent one q h;
          numbered = h.numbered;
          next_nonce = h.next_nonce;
        })
    Step-Ordered {s} (send g) h =
        let (params, profit, b, rest, (sender, txs), q, run, e) = send_turn-next o s g in
        let (tx, one, same, nonce) =
          send_transactions_one o.send s.sender sender (priced o s params profit) txs run in
        let both : (sender, txs) ≡ (after s.sender, tx ∷ []) = λ i. (same i, one i) in
        subst (Ordered l) (sym (e ∙ ap (sent_on o s rest b) both))
          (send-Ordered s params profit b rest tx q nonce h)

    -- In every reachable state, the blocks of the posted transactions and of the queued events, from the
    -- sender's channel back to the state updater's, are strictly ascending, above the block that was
    -- caught up with and up to the last block: a block leads to one transaction at most, and
    -- transactions are posted in the order of their blocks. Their nonces count up from the sender's
    -- first nonce with no gap, and the sender's nonce is the next one.
    pub Reach-Ordered : {s : State} → Reach o l s → Ordered l s
    Reach-Ordered here = record { rising = omega arith; numbered = tt; next_nonce = omega arith }
    Reach-Ordered (later r st) = Step-Ordered st (Reach-Ordered r)
