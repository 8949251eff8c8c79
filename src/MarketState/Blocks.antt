-- ===== src/MarketState/Blocks.antt =====
-- Which blocks the database has followed.
use base_buster.Prelude.{
  ℕ, zero, suc, ◌+◌, ◌-◌, ◌≤◌, ◌<◌, ◌≡◌, refl, ap, ◌∙◌, inl, inr, Bool, List, [], ◌∷◌, leb, ltb,
  arith, Bool-cases, leb→le, In, true, inl, inr, refl, ltb→lt,
}
use base_buster.Pool.{Address}
use base_buster.StateDb.Types.{BlockStateDb}
use base_buster.MarketState.{Updates, update_state, update_range, catch_up, stream_blocks}

module _ (trace : ℕ → Updates) where
  update_range-append :
      (db : BlockStateDb) (first k m n t : ℕ)
      → k ≡ first + m
      → t ≡ m + n
      → update_range trace (update_range trace db first m) k n ≡ update_range trace db first t
  unfolding update_range
  update_range-append db first k zero n t p q =
      let a : k ≡ first = omega arith in
      let b : n ≡ t = omega arith in
      ap (λ z. update_range trace db z n) a ∙ ap (update_range trace db first) b
  update_range-append db first k (suc m) n t p q =
      let ih =
        update_range-append (update_state trace db first).0 (suc first) k m n (m + n) (omega arith)
          refl in
      let e : suc (m + n) ≡ t = omega arith in ih ∙ ap (update_range trace db first) e

  no_blocks : (db : BlockStateDb) (last : ℕ) → db ≡ update_range trace db (suc last) (last - last)
  unfolding update_range
  no_blocks db last =
      let e : 0 ≡ last - last = omega arith in ap (update_range trace db (suc last)) e

  -- The database at end is that at last with each block after last up to end applied once, in order;
  -- a loop that ended has reached one of the heads.
  abbrev pub Followed : BlockStateDb → ℕ → List ℕ → BlockStateDb × ℕ × Bool → Type 0
  Followed db last heads (after, end, done) =
      (last ≤ end)
      × (after ≡ update_range trace db (suc last) (end - last))
      × (done ≡ true → (head : ℕ) × In head heads × (head ≤ end))

  catch_up-Followed :
      (db : BlockStateDb) (last current : ℕ) (heads : List ℕ)
      → Followed db last (current ∷ heads) (catch_up trace db last current heads)
  unfolding catch_up
  catch_up-Followed db last current [] =
      (omega arith, no_blocks db last, λ h. (current, inl refl, leb→le _ _ h))
  catch_up-Followed db last current (head ∷ heads) = elim (Bool-cases (ltb last current)) [
    | inl e ↦
        let lt = ltb→lt _ _ e in
        let mid = update_range trace db (suc last) (current - last) in
        let (le, ih, reached) = catch_up-Followed mid current head heads in
        let appended =
          update_range-append db (suc last) (suc current) (current - last) _ _ (omega arith)
            (omega arith) in
        rw (e, catch_up)
          (omega arith, ih ∙ appended, λ h. let (top, m, k) = reached h in (top, inr m, k))
    | inr e ↦
        rw (e, catch_up) (omega arith, no_blocks db last, λ h. (current, inl refl, ground arith))
  ]

  -- The blocks sent are above last and ascend.
  abbrev Ascends : ℕ → List (ℕ × List Address) → Type 0
  Ascends last [] = Unit
  Ascends last ((block, pools) ∷ sent) = (last < block) × Ascends block sent

  stream_blocks-Ascends :
      (db : BlockStateDb) (last : ℕ) (blocks : List ℕ)
      → Ascends last (stream_blocks trace db last blocks).2
  unfolding stream_blocks
  stream_blocks-Ascends db last [] = tt
  stream_blocks-Ascends db last (block ∷ blocks) = elim (Bool-cases (leb block last)) [
    | inl e ↦ rw (e, stream_blocks) (stream_blocks-Ascends db last blocks)
    | inr e ↦
        rw (e, stream_blocks)
          (ground arith, stream_blocks-Ascends (update_state trace db block).0 block blocks)
  ]

-- The catch-up loop applies each block after the last synced one exactly once and in order, up to the
-- block it ends with, whatever the heads are; where it ends by its condition, it has reached a head.
pub catch_up_blocks :
    (trace : ℕ → Updates) (db : BlockStateDb) (last current : ℕ) (heads : List ℕ)
    → Followed trace db last (current ∷ heads) (catch_up trace db last current heads)
catch_up_blocks = catch_up-Followed

-- The events sent for streamed blocks have ascending block numbers above the last synced block.
stream_blocks_ascend :
    (trace : ℕ → Updates) (db : BlockStateDb) (last : ℕ) (blocks : List ℕ)
    → Ascends trace last (stream_blocks trace db last blocks).2
stream_blocks_ascend = stream_blocks-Ascends
