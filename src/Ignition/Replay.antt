-- ===== src/Ignition/Replay.antt =====
-- The database of the workers is that of the launch with the blocks since then applied, and more.
use mathlib.Core.Path.{subst}
use mathlib.Core.List.{append_assoc, append-nil}
use base_buster.Prelude.{
  ℕ, ◌≡◌, refl, sym, ap, ◌∙◌, inl, inr, List, [], ◌∷◌, ◌++◌, leb, Bool-cases, arith, All, All-imp,
}
use base_buster.StateDb.Types.{BlockStateDb}
use base_buster.MarketState.{Updates, update_state}
use base_buster.MarketState.Refined.{update_state-Extends}
use base_buster.Quoter.Extends.{Extends, Extends-refl, Extends-trans, store_reads-Extends}
use base_buster.Ignition.{Header, Services, Launch, State}
use base_buster.Ignition.Workers.{block_turn}
use base_buster.Ignition.Steps.{
  Step, Reach, block, gas, start, search, quote, simulate, send, here, later,
}
use base_buster.Ignition.Turns.{
  gas_turn-next, start_searcher-next, search_turn-next, simulate_turn-next, send_turn-next,
}
use base_buster.Ignition.Rising.{Rising, Rising-snoc}

-- The database after the blocks, with no quote in between.
abbrev pub replay : (ℕ → Updates) → BlockStateDb → List ℕ → BlockStateDb
replay trace db [] = db
replay trace db (n ∷ blocks) = replay trace (update_state trace db n).0 blocks

replay-snoc :
    (trace : ℕ → Updates) (db : BlockStateDb) (blocks : List ℕ) (n : ℕ)
    → replay trace db (blocks ++ n ∷ []) ≡ (update_state trace (replay trace db blocks) n).0
replay-snoc trace db [] n = refl
replay-snoc trace db (m ∷ blocks) n = replay-snoc trace (update_state trace db m).0 blocks n

-- A database that stores at least what the first ones of the blocks make of that of the launch.
abbrev pub Version : (ℕ → Updates) → BlockStateDb → List ℕ → BlockStateDb → Type 0
Version trace db blocks version =
    (before : List ℕ) × (later : List ℕ) × (before ++ later ≡ blocks)
    × Extends (replay trace db before) version

Version-snoc :
    (trace : ℕ → Updates) (db : BlockStateDb) (blocks : List ℕ) (n : ℕ) (version : BlockStateDb)
    → Version trace db blocks version
    → Version trace db (blocks ++ n ∷ []) version
Version-snoc trace db blocks n version (before, after, e, h) =
    (before, after ++ n ∷ [], sym (append_assoc before after (n ∷ [])) ∙ ap (λ z. z ++ n ∷ []) e, h)

-- The blocks that were applied since the launch.
pub record Replayed (o : Services) (l : Launch) (s : State) : Type 0 where
  pub blocks : List ℕ
  pub ascending : Rising l.last_synced s.last_synced blocks
  pub replays : Extends (replay o.trace l.db blocks) s.db
  pub earlier : All (Version o.trace l.db blocks) s.past

module _ (o : Services) (l : Launch) where
  same_databases :
      {s t : State}
      → t.db ≡ s.db
      → t.past ≡ s.past
      → t.last_synced ≡ s.last_synced
      → Replayed o l s
      → Replayed o l t
  same_databases {s} {t} d p n h = record {
    blocks = h.blocks;
    ascending = subst (λ z. Rising l.last_synced z h.blocks) (sym n) h.ascending;
    replays = subst (Extends (replay o.trace l.db h.blocks)) (sym d) h.replays;
    earlier = subst (All (Version o.trace l.db h.blocks)) (sym p) h.earlier;
  }

  block_turn-Replayed :
      (s : State) (header : Header) → Replayed o l s → Replayed o l (block_turn o s header)
  unfolding block_turn
  block_turn-Replayed s header h = elim (Bool-cases (leb header.number s.last_synced)) [
    | inl e ↦ rw (e, block_turn) h
    | inr e ↦
        let n = header.number in
        rw (e, block_turn)
          (record {
            blocks = h.blocks ++ n ∷ [];
            ascending =
                Rising-snoc l.last_synced s.last_synced n h.blocks (ground arith) h.ascending;
            replays =
                subst (λ z. Extends z (update_state o.trace s.db n).0)
                  (sym (replay-snoc o.trace l.db h.blocks n))
                  (update_state-Extends o.trace (replay o.trace l.db h.blocks) s.db n h.replays);
            earlier = (
              (h.blocks, n ∷ [], refl, h.replays),
              All-imp s.past (λ v. Version-snoc o.trace l.db h.blocks n v) h.earlier,
            );
          })
  ]

  Step-Replayed : {s t : State} → Step o l s t → Replayed o l s → Replayed o l t
  Step-Replayed {s} (block header) h = block_turn-Replayed s header h
  Step-Replayed {s} (gas header g) h =
      let (_, e) = gas_turn-next o s header g in
      same_databases (ap (λ z. z.db) e) (ap (λ z. z.past) e) (ap (λ z. z.last_synced) e) h
  Step-Replayed {s} (start v sees g) h =
      let (_, (_, e)) = start_searcher-next o l v s g in
      same_databases (ap (λ z. z.db) e) (ap (λ z. z.past) e) (ap (λ z. z.last_synced) e) h
  Step-Replayed {s} (search v sees g) h =
      let (_, _, _, _, _, _, _, _, e) = search_turn-next o v s g in
      same_databases (ap (λ z. z.db) e) (ap (λ z. z.past) e) (ap (λ z. z.last_synced) e) h
  Step-Replayed {s} (quote reads q stored) h = record {
    blocks = h.blocks;
    ascending = h.ascending;
    replays = Extends-trans h.replays (store_reads-Extends o.evm s.db reads stored);
    earlier = ((h.blocks, [], append-nil h.blocks, h.replays), h.earlier);
  }
  Step-Replayed {s} (simulate v sees g) h =
      let (_, _, _, _, _, _, _, e) = simulate_turn-next o v s g in
      same_databases (ap (λ z. z.db) e) (ap (λ z. z.past) e) (ap (λ z. z.last_synced) e) h
  Step-Replayed {s} (send g) h =
      let (_, _, _, _, _, _, _, e) = send_turn-next o s g in
      same_databases (ap (λ z. z.db) e) (ap (λ z. z.past) e) (ap (λ z. z.last_synced) e) h

  -- In every reachable state there is a strictly ascending list of blocks, from above the block that was
  -- caught up with up to the last one, such that the database refines that of the launch with each of
  -- these blocks applied once and no quote in between: it tracks the same pools, has each account of it,
  -- and each slot that it stores with the same content, whatever the quotes stored meanwhile. The
  -- databases that a read of an earlier turn may find refine in the same way that of the launch with
  -- the first ones of these blocks applied.
  pub Reach-Replayed : {s : State} → Reach o l s → Replayed o l s
  Reach-Replayed here = record {
    blocks = [];
    ascending = omega arith;
    replays = Extends-refl l.db;
    earlier = tt;
  }
  Reach-Replayed (later r st) = Step-Replayed st (Reach-Replayed r)
