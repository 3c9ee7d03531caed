-- ===== src/Book/State/Replay.antt =====
-- src/infrastructure/gektor_l2/nd_orderbook.py: `ingest_snapshot`, and the deltas buffered before a
-- snapshot.
use gektor.Base.{
  ℕ, zero, suc, ◌+◌, ◌-◌, ◌≤◌, ◌<◌, ◌≡◌, refl, ◌∙◌, ap, false, some, List, [], ◌∷◌, if◌then◌else◌,
  leb, arith, ◌⊎◌, inl, inr, Bool-cases,
}
use gektor.Book.Side.{Side, Numpy, IsNumpy}
use gektor.Book.Sizing.{Factors}
use gektor.Book.Ring.{Ring, Frame, Rows, Delta, decode, slot}
use gektor.Book.Ring.Queue.{IsRing, contents, slots, read-outcome, read-empty}
use gektor.Book.Ring.Splice.{fast_forward_splice_lem}
use gektor.Book.State.Updates.{AreSides, advance-sides}
use gektor.Book.State.{
  Book, Reject, absorb, drain, hard_reset, is_gap, advance, ingest_snapshot, recalculate_factors,
  anchor,
}

-- The buffer replaced by another one.
abbrev pub with_buffer : {R : Type 0} → Ring → Book R → Book R
with_buffer r b = record b { delta_buffer = r }

module _ {R : Type 0} (np : Numpy) where
  -- The frames in turn, up to the first gap: an old one is skipped, a new one applied.
  unfoldable pub replay : List Frame → Book R → Book R
  replay [] b = b
  replay (x ∷ xs) b =
      let d = decode x in
      let skipped = replay xs b in
      let applied = replay xs (advance np d b) in
      if leb d.u_id b.u
      then skipped
      else if is_gap d.range_start b.u
      then hard_reset (record b { last_reject = some Reject.sequence_gap })
      else applied

  replay-with_buffer :
      (r s : Ring) (xs : List Frame) (b : Book R)
      → with_buffer s (replay xs (with_buffer r b)) ≡ with_buffer s (replay xs b)
  unfolding replay hard_reset
  replay-with_buffer r s [] b = refl
  replay-with_buffer r s (x ∷ xs) b = elim (Bool-cases (leb (decode x).u_id b.u)) [
    | inl old ↦ rw old (replay-with_buffer r s xs b)
    | inr new ↦ elim (Bool-cases (is_gap (decode x).range_start b.u)) [
      | inl gap ↦ rw (new, gap) refl
      | inr joins ↦ rw (new, joins) (replay-with_buffer r s xs (advance np (decode x) b))
    ]
  ]

  -- With fuel for every buffered frame, the loop empties the buffer and does to the rest of the book
  -- what replaying the frames does.
  pub drain_lem :
      (fuel n : ℕ) (b : Book R) (r : Ring)
      → IsRing b.delta_buffer
      → b.delta_buffer.head - b.delta_buffer.tail ≡ n
      → n < fuel
      → let c = drain np fuel b in
        (with_buffer r c ≡ with_buffer r (replay (contents b.delta_buffer) b))
        × IsRing c.delta_buffer
        × (c.delta_buffer.head ≡ c.delta_buffer.tail)
  unfolding drain replay absorb hard_reset
  drain_lem zero n b r h e f = absurd (omega arith)
  drain_lem (suc fuel) zero b r h e f =
      rw (e, read-empty b.delta_buffer h e) (refl, h, omega (arith, h.ordered))
  drain_lem (suc fuel) (suc n) b r h e f =
      let t : Ring = record b.delta_buffer { tail = b.delta_buffer.tail + 1 } in
      let d : Delta = decode (b.delta_buffer.frames (slot b.delta_buffer.tail)) in
      let k : b.delta_buffer.head - (b.delta_buffer.tail + 1) ≡ n = omega arith in
      let ring : IsRing t = ground arith in
      rw (e, read-outcome b.delta_buffer n h e)
        (elim (Bool-cases (leb d.u_id b.u)) [
          | inl old ↦
              let (same, i, j) = drain_lem fuel n (with_buffer t b) r ring k (omega arith) in
              rw old ((rw k at same) ∙ replay-with_buffer t r (slots t.frames t.tail n) b, i, j)
          | inr new ↦ elim (Bool-cases (is_gap d.range_start b.u)) [
            | inl gap ↦ rw (new, gap) (refl, ground arith, refl)
            | inr joins ↦
                let (same, i, j) =
                  drain_lem fuel n (with_buffer t (advance np d b)) r ring k (omega arith) in
                rw (new, joins)
                  (
                    (rw k at same)
                        ∙ replay-with_buffer t r (slots t.frames t.tail n) (advance np d b),
                    i,
                    j,
                  )
          ]
        ])

  -- What replaying leaves of a book that was consistent: the book further on, or invalidated.
  pub replay-outcome :
      (xs : List Frame) (b : Book R)
      → let c = replay xs b in
        ((c.consistency_ok ≡ b.consistency_ok)
          × (b.u ≤ c.u)
          × (c.read_epoch ≡ b.read_epoch)
          × (c.last_reject ≡ b.last_reject))
        ⊎ ((c.consistency_ok ≡ false)
            × (c.u ≡ 0)
            × (c.bids ≡ [])
            × (c.asks ≡ [])
            × (c.read_epoch ≡ b.read_epoch + 1)
            × (c.last_reject ≡ some Reject.sequence_gap))
  unfolding replay hard_reset
  replay-outcome [] b = inl (refl, omega arith, refl, refl)
  replay-outcome (x ∷ xs) b =
      ground (arith, replay-outcome xs b, replay-outcome xs (advance np (decode x) b))

  pub replay-sides :
      (xs : List Frame) (b : Book R) → IsNumpy np → AreSides b → AreSides (replay xs b)
  unfolding replay hard_reset
  replay-sides [] b h v = v
  replay-sides (x ∷ xs) b h v = ground (
    arith,
    replay-sides xs b h v,
    replay-sides xs (advance np (decode x) b) h (advance-sides np (decode x) b h v),
  )

-- The same sides and counters.
pub record Agrees {R : Type 0} (c d : Book R) : Type 0 where
  pub same_bids : c.bids ≡ d.bids
  pub same_asks : c.asks ≡ d.asks
  pub same_u : c.u ≡ d.u
  pub same_levels : c.max_levels ≡ d.max_levels
  pub same_consistency : c.consistency_ok ≡ d.consistency_ok
  pub same_epoch : c.read_epoch ≡ d.read_epoch
  pub same_reject : c.last_reject ≡ d.last_reject

module _ {R : Type 0} (np : Numpy) (recalc : Side → Side → Factors → Factors) where
  recalculate-Agrees :
      (r : Ring) (c d : Book R)
      → with_buffer r c ≡ with_buffer r d
      → let e = recalculate_factors np recalc c in (e.delta_buffer ≡ c.delta_buffer) × Agrees e d
  unfolding recalculate_factors
  recalculate-Agrees r c d h = ground (
    arith,
    ap Book.bids h,
    ap Book.asks h,
    ap Book.u h,
    ap Book.max_levels h,
    ap Book.consistency_ok h,
    ap Book.read_epoch h,
    ap Book.last_reject h,
  )

  -- With a sound buffer, a snapshot leaves no delta in the buffer, and the book agrees with the
  -- snapshot's on which the frames kept by the splice have been replayed, up to the first gap.
  pub ingest_snapshot-replay :
      (update_id : ℕ) (bids asks : Rows) (now : R) (b : Book R)
      → IsRing b.delta_buffer
      → let c = ingest_snapshot np recalc update_id bids asks now b in
        let a = anchor np recalc update_id bids asks now b in
        (c.delta_buffer.head ≡ c.delta_buffer.tail)
        × IsRing c.delta_buffer
        × Agrees c (replay np (contents a.delta_buffer) a)
  unfolding ingest_snapshot
  ingest_snapshot-replay update_id bids asks now b h =
      let a = anchor np recalc update_id bids asks now b in
      let n = a.delta_buffer.head - a.delta_buffer.tail in
      let (ring, _, _, _) = fast_forward_splice_lem update_id b.delta_buffer h in
      let (same, i, e) = drain_lem np (n + 1) n a a.delta_buffer ring refl (omega arith) in
      let (keeps, agrees) = recalculate-Agrees a.delta_buffer (drain np (n + 1) a) _ same in
      (rw keeps e, rw keeps i, agrees)
