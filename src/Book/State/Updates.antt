-- ===== src/Book/State/Updates.antt =====
-- src/infrastructure/gektor_l2/nd_orderbook.py: `ingest_delta`, when a delta is applied and what a
-- refusal leaves behind.
use gektor.Base.{
  ℕ, ◌+◌, ◌^◌, ◌≤◌, ◌<◌, ◌≡◌, ◌↔◌, ◌⊎◌, true, false, none, some, [], ◌∷◌, length, arith, pos,
  opposite, is_some,
}
use gektor.Book.Side.{Side, Numpy, IsNumpy, keys, apply_row_bid, apply_row_ask}
use gektor.Book.Side.Update.{IsIncreasing, lookup-apply_row}
use gektor.Book.Ring.{Rows, Delta, write_frame}
use gektor.Book.Ring.Queue.{IsRing, write_frame_lem}
use gektor.Book.State.{
  Book, Reject, apply_bids, apply_asks, ingest_delta, hard_reset, is_gap, is_inverted, is_old_seq,
  advance,
}

-- A delta fits the book: it is anchored, its range is in order and joins the present id, the id is
-- new and the sequence number too.
abbrev pub Fits : {R : Type 0} → Delta → Book R → Type 0
Fits d b =
    (0 < b.u)
    × (is_inverted d.range_start d.u_id ≡ false)
    × (b.u < d.u_id)
    × (is_gap d.range_start b.u ≡ false)
    × (is_old_seq d.seq b.last_seq ≡ false)

module _ {R : Type 0} (np : Numpy) where
  -- A delta is applied exactly when it fits; then the id is its id, above the old one, its rows
  -- have been applied to the two sides, no rejection is left and the time is noted.
  pub ingest_delta_iff :
      (d : Delta) (now : R) (b : Book R)
      → let (c, applied) = ingest_delta np d now b in
        ((applied ≡ true) ↔ Fits d b)
        × (applied ≡ true
            → (b.u < c.u)
              × (c.u ≡ d.u_id)
              × (c.bids ≡ apply_bids np b.max_levels d.bids b.bids)
              × (c.asks ≡ apply_asks np b.max_levels d.asks b.asks)
              × (c.last_reject ≡ none)
              × (c.last_update_mono ≡ now))
  unfolding ingest_delta
  ingest_delta_iff d now b = ((λ h. ground arith, λ h. ground arith), λ h. ground arith)

  -- A refused delta is reported and moves neither side: a gap or an inverted range invalidates the
  -- book, which is then empty, unanchored and in a new read epoch; any other refusal leaves all but
  -- the report, and before the first snapshot the buffer, as it was.
  pub ingest_delta_refused :
      (d : Delta) (now : R) (b : Book R)
      → let (c, applied) = ingest_delta np d now b in
        applied ≡ false
        → (is_some c.last_reject ≡ true)
          × ((c.last_reject ≡ some Reject.sequence_gap)
                ⊎ (c.last_reject ≡ some Reject.invalid_u_range)
              → (c.u ≡ 0)
                × (c.consistency_ok ≡ false)
                × (c.bids ≡ [])
                × (c.asks ≡ [])
                × (c.read_epoch ≡ b.read_epoch + 1))
          × (c.last_reject ≡ some Reject.no_snapshot_anchor
              → c ≡ record b {
                delta_buffer = write_frame d b.delta_buffer;
                last_reject = c.last_reject;
              })
          × ((c.last_reject ≡ some Reject.stale_or_duplicate_u)
                ⊎ (c.last_reject ≡ some Reject.stale_or_duplicate_seq)
              → c ≡ record b { last_reject = c.last_reject })
  unfolding ingest_delta hard_reset
  ingest_delta_refused d now b h = ground arith

module _ (np : Numpy) where
  apply_bids-keeps :
      (m : ℕ) (rows : Rows) (s : Side)
      → IsNumpy np
      → length s ≤ m
      → IsIncreasing (keys s)
      → IsIncreasing (keys (apply_bids np m rows s)) × (length (apply_bids np m rows s) ≤ m)
  unfolding apply_bids apply_row_bid
  apply_bids-keeps m [] s h l a = (a, l)
  apply_bids-keeps m ((price, q) ∷ rows) s h l a =
      let (a', l', _, _) = lookup-apply_row np m (opposite price) (opposite price) q s h l a in
      apply_bids-keeps m rows _ h l' a'

  apply_asks-keeps :
      (m : ℕ) (rows : Rows) (s : Side)
      → IsNumpy np
      → length s ≤ m
      → IsIncreasing (keys s)
      → IsIncreasing (keys (apply_asks np m rows s)) × (length (apply_asks np m rows s) ≤ m)
  unfolding apply_asks apply_row_ask
  apply_asks-keeps m [] s h l a = (a, l)
  apply_asks-keeps m ((price, q) ∷ rows) s h l a =
      let (a', l', _, _) = lookup-apply_row np m (pos price) (pos price) q s h l a in
      apply_asks-keeps m rows _ h l' a'

-- Both sides are ordered with no price twice and within capacity.
pub record AreSides {R : Type 0} (b : Book R) : Type 0 where
  pub bids_ordered : IsIncreasing (keys b.bids)
  pub asks_ordered : IsIncreasing (keys b.asks)
  pub bids_fit : length b.bids ≤ b.max_levels
  pub asks_fit : length b.asks ≤ b.max_levels

-- The sides are sound, and so is the buffer.
pub record IsBook {R : Type 0} (b : Book R) : Type 0 where
  pub sides : AreSides b
  pub buffer : IsRing b.delta_buffer

pub advance-sides :
    {R : Type 0} (np : Numpy) (d : Delta) (b : Book R)
    → IsNumpy np
    → AreSides b
    → AreSides (advance np d b)
advance-sides np d b h v =
    let (p, p') = apply_bids-keeps np b.max_levels d.bids b.bids h v.bids_fit v.bids_ordered in
    let (q, q') = apply_asks-keeps np b.max_levels d.asks b.asks h v.asks_fit v.asks_ordered in
    record { bids_ordered = p; asks_ordered = q; bids_fit = p'; asks_fit = q' }

-- With numpy as documented and the buffer's head two short of its wrap-around, every delta,
-- applied or refused, keeps the book well formed.
pub ingest_delta-IsBook :
    {R : Type 0} (np : Numpy) (d : Delta) (now : R) (b : Book R)
    → IsNumpy np
    → b.delta_buffer.head + 2 < 2 ^ 64
    → IsBook b
    → IsBook (ingest_delta np d now b).0
unfolding ingest_delta hard_reset
ingest_delta-IsBook np d now b h w v =
    ground
      (arith, v.sides, advance-sides np d b h v.sides, write_frame_lem d b.delta_buffer v.buffer w)
