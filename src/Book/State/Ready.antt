-- ===== src/Book/State/Ready.antt =====
-- src/infrastructure/gektor_l2/nd_orderbook.py: `readiness`, `try_occ_msq` and
-- `get_cumulative_depth`, the readers of a book.
use gektor.Base.{◌<◌, ◌≡◌, ◌↔◌, Bool, true, false, ◌&&◌, length, arith, Float, ◌⊖◌, ◌≺◌, nought}
use gektor.Book.State.{Book, BookState, BookReadiness, readiness}

module _ {R : Type 0} ⦃f : Float R⦄ where
  -- The book is too old: it was updated, and longer ago than allowed.
  abbrev pub is_aged : R → Book R → Bool
  is_aged now b = nought ≺ b.last_update_mono && b.max_age_sec ≺ (now ⊖ b.last_update_mono)

  -- A book is ready exactly when no breaker is open, its feed is in step, it is consistent, anchored
  -- and not too old, and it has levels on both sides.
  pub readiness_iff :
      (state : BookState) (breaker : Bool) (now : R) (b : Book R)
      → (readiness state breaker now b ≡ BookReadiness.ready) ↔ (
          (breaker ≡ false)
          × (state ≡ BookState.synced)
          × (b.consistency_ok ≡ true)
          × (0 < b.u)
          × (is_aged now b ≡ false)
          × (0 < length b.bids)
          × (0 < length b.asks))
  unfolding readiness
  readiness_iff BookState.synced breaker now b = ground arith
  readiness_iff BookState.desynced breaker now b = ground arith
  readiness_iff BookState.recovering breaker now b = ground arith
