-- ===== src/Book/State/Snapshots.antt =====
-- src/infrastructure/gektor_l2/nd_orderbook.py: `ingest_snapshot`, and what a book is after a
-- snapshot.
use gektor.Base.{ℕ, ◌+◌, ◌≤◌, ◌≡◌, true, false, none, some, [], arith, ◌⊎◌, pos, opposite}
use mathlib.Core.List.{Nodup}
use gektor.Book.Side.{Side, Numpy, IsNumpy, keys, live_rows}
use gektor.Book.Side.Snapshot.{fill_side-IsIncreasing}
use gektor.Book.Sizing.{Factors}
use gektor.Book.Ring.{Rows}
use gektor.Book.Ring.Queue.{IsRing, contents}
use gektor.Book.State.{Book, Reject, ingest_snapshot, anchor}
use gektor.Book.State.Updates.{AreSides, IsBook}
use gektor.Book.State.Replay.{ingest_snapshot-replay, replay-outcome, replay-sides}

module _ {R : Type 0} (np : Numpy) (recalc : Side → Side → Factors → Factors) where
  -- With a sound buffer, after a snapshot the book is consistent at an update id no older than
  -- the snapshot's, one read epoch on; or a buffered delta did not join it, and the book is
  -- invalidated, two read epochs on.
  pub ingest_snapshot-outcome :
      (update_id : ℕ) (bids asks : Rows) (now : R) (b : Book R)
      → IsRing b.delta_buffer
      → let c = ingest_snapshot np recalc update_id bids asks now b in
        ((c.consistency_ok ≡ true)
          × (update_id ≤ c.u)
          × (c.read_epoch ≡ b.read_epoch + 1)
          × (c.last_reject ≡ none))
        ⊎ ((c.consistency_ok ≡ false)
            × (c.u ≡ 0)
            × (c.bids ≡ [])
            × (c.asks ≡ [])
            × (c.read_epoch ≡ b.read_epoch + 2)
            × (c.last_reject ≡ some Reject.sequence_gap))
  ingest_snapshot-outcome update_id bids asks now b h =
      let a = anchor np recalc update_id bids asks now b in
      let (_, _, agrees) = ingest_snapshot-replay np recalc update_id bids asks now b h in
      ground (arith, agrees, replay-outcome np (contents a.delta_buffer) a)

  -- With numpy as documented and a sound buffer, a snapshot whose rows with a quantity, as many
  -- as fit, list no price twice on a side makes the book well formed, whatever its sides were
  -- before.
  pub ingest_snapshot-IsBook :
      (update_id : ℕ) (bids asks : Rows) (now : R) (b : Book R)
      → IsNumpy np
      → IsRing b.delta_buffer
      → Nodup (keys (live_rows opposite b.max_levels bids))
      → Nodup (keys (live_rows pos b.max_levels asks))
      → IsBook (ingest_snapshot np recalc update_id bids asks now b)
  ingest_snapshot-IsBook update_id bids asks now b h ring nb na =
      let a = anchor np recalc update_id bids asks now b in
      let (p, p') = fill_side-IsIncreasing np opposite b.max_levels bids h nb in
      let (q, q') = fill_side-IsIncreasing np pos b.max_levels asks h na in
      let s : AreSides a = record {
        bids_ordered = p;
        asks_ordered = q;
        bids_fit = p';
        asks_fit = q';
      } in
      let (_, i, agrees) = ingest_snapshot-replay np recalc update_id bids asks now b ring in
      let v = replay-sides np (contents a.delta_buffer) a h s in
      record {
        sides = record {
          bids_ordered = rw agrees.same_bids v.bids_ordered;
          asks_ordered = rw agrees.same_asks v.asks_ordered;
          bids_fit = rw (agrees.same_bids, agrees.same_levels) v.bids_fit;
          asks_fit = rw (agrees.same_asks, agrees.same_levels) v.asks_fit;
        };
        buffer = i;
      }
