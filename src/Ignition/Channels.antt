-- ===== src/Ignition/Channels.antt =====
-- Which events each channel carries: no worker's loop meets an event of another kind.
use mathlib.Core.Path.{subst}
use base_buster.Pool.{U256}
use base_buster.Swap.{SwapPath}
use base_buster.Simulator.{SimulatedPath}
use base_buster.Prelude.{ℕ, sym, inl, inr, Option, none, some, leb, All, All-append, Bool-cases}
use base_buster.Ignition.{
  Header, Event, arb_path, valid_path, pools_touched, new_block, Services, Launch, State,
}
use base_buster.Ignition.Workers.{found_events, valid_events, block_turn}
use base_buster.Ignition.Steps.{
  Step, Reach, block, gas, start, search, quote, simulate, send, here, later,
}
use base_buster.Ignition.Turns.{
  gas_turn-next, start_searcher-next, search_turn-next, simulate_turn-next, send_turn-next,
}

abbrev pub IsTouched : Event → Type 0
IsTouched (pools_touched pools b) = Unit
IsTouched (arb_path p out b) = ⊥
IsTouched (valid_path p profit b) = ⊥
IsTouched (new_block h) = ⊥

abbrev pub IsFound : Event → Type 0
IsFound (arb_path p out b) = Unit
IsFound (pools_touched pools b) = ⊥
IsFound (valid_path p profit b) = ⊥
IsFound (new_block h) = ⊥

abbrev pub IsValid : Event → Type 0
IsValid (valid_path p profit b) = Unit
IsValid (arb_path p out b) = ⊥
IsValid (pools_touched pools b) = ⊥
IsValid (new_block h) = ⊥

pub record Typed (s : State) : Type 0 where
  pub touched : All IsTouched s.addresses
  pub found : All IsFound s.paths
  pub valid : All IsValid s.profitable

module _ (o : Services) (l : Launch) where
  found_events-IsFound : (b : ℕ) (f : Option (SwapPath × U256)) → All IsFound (found_events o b f)
  found_events-IsFound b none = tt
  found_events-IsFound b (some (p, out)) = (tt, tt)

  valid_events-IsValid : (f : Option SimulatedPath) → All IsValid (valid_events o f)
  valid_events-IsValid none = tt
  valid_events-IsValid (some p) = (tt, tt)

  block_turn-Typed : (s : State) (header : Header) → Typed s → Typed (block_turn o s header)
  unfolding block_turn
  block_turn-Typed s header h = elim (Bool-cases (leb header.number s.last_synced)) [
    | inl e ↦ rw (e, block_turn) h
    | inr e ↦
        rw (e, block_turn)
          (record {
            touched = All-append IsTouched s.addresses _ h.touched (tt, tt);
            found = h.found;
            valid = h.valid;
          })
  ]

  pub Step-Typed : {s t : State} → Step o l s t → Typed s → Typed t
  Step-Typed {s} (block header) h = block_turn-Typed s header h
  Step-Typed {s} (gas header g) h =
      let (fee, e) = gas_turn-next o s header g in
      subst Typed (sym e) (record { touched = h.touched; found = h.found; valid = h.valid })
  Step-Typed {s} (start v sees g) h =
      let (_, (est, e)) = start_searcher-next o l v s g in
      subst Typed (sym e) (record { touched = h.touched; found = h.found; valid = h.valid })
  Step-Typed {s} (search v sees g) h =
      let (w, pools, b, rest, (after, found), _, q, _, e) = search_turn-next o v s g in
      let m = subst (All IsTouched) q h.touched in
      subst Typed (sym e) (record {
        touched = m.1;
        found = All-append IsFound s.paths _ h.found (found_events-IsFound b found);
        valid = h.valid;
      })
  Step-Typed (quote reads q stored) h = record {
    touched = h.touched;
    found = h.found;
    valid = h.valid;
  }
  Step-Typed {s} (simulate v sees g) h =
      let (path, out, b, rest, (after, sent), q, _, e) = simulate_turn-next o v s g in
      let m = subst (All IsFound) q h.found in
      subst Typed (sym e) (record {
        touched = h.touched;
        found = m.1;
        valid = All-append IsValid s.profitable _ h.valid (valid_events-IsValid sent);
      })
  Step-Typed {s} (send g) h =
      let (params, profit, b, rest, r, q, _, e) = send_turn-next o s g in
      let m = subst (All IsValid) q h.valid in
      subst Typed (sym e) (record { touched = h.touched; found = h.found; valid = m.1 })

  pub Reach-Typed : {s : State} → Reach o l s → Typed s
  Reach-Typed here = record { touched = tt; found = tt; valid = tt }
  Reach-Typed (later r st) = Step-Typed st (Reach-Typed r)
