-- ===== src/Ignition/Headers.antt =====
-- The turns of the state updater, header by header, are the stream of MarketState.
use mathlib.Core.List.{append_assoc, append-nil}
use base_buster.Prelude.{
  ℕ, ◌≡◌, refl, sym, ◌∙◌, inl, inr, List, [], ◌∷◌, ◌++◌, map, leb, Bool-cases,
}
use base_buster.Pool.{Address}
use base_buster.MarketState.{update_state, stream_blocks}
use base_buster.Ignition.{Header, Event, pools_touched, Services, State}
use base_buster.Ignition.Workers.{block_turn}

abbrev touched_event : ℕ × List Address → Event
touched_event (block, pools) = pools_touched pools block

module _ (o : Services) where
  unfoldable hear : State → List Header → State
  hear s [] = s
  hear s (header ∷ headers) = hear (block_turn o s header) headers

  -- Receiving headers one by one ends with the database and the last block of `stream_blocks`, and
  -- puts its events behind those of the channel, in their order.
  hear-stream_blocks :
      (s : State) (headers : List Header)
      → let (db, last, sent) =
          stream_blocks o.trace s.db s.last_synced (map (λ h. h.number) headers) in
        ((hear s headers).db ≡ db)
        × ((hear s headers).last_synced ≡ last)
        × ((hear s headers).addresses ≡ s.addresses ++ map touched_event sent)
  unfolding hear stream_blocks block_turn
  hear-stream_blocks s [] = (refl, refl, sym (append-nil s.addresses))
  hear-stream_blocks s (header ∷ headers) = elim (Bool-cases (leb header.number s.last_synced)) [
    | inl e ↦ rw (e, stream_blocks, hear, block_turn) (hear-stream_blocks s headers)
    | inr e ↦
        let n = header.number in
        let after = update_state o.trace s.db n in
        let t : State = record s {
          db = after.0;
          past = s.db ∷ s.past;
          last_synced = n;
          addresses = s.addresses ++ pools_touched after.1 n ∷ [];
        } in
        let (d, l, a) = hear-stream_blocks t headers in
        rw (e, stream_blocks, hear, block_turn) (d, l, a ∙ append_assoc s.addresses _ _)
  ]
