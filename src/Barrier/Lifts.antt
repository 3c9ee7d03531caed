-- ===== src/Barrier/Lifts.antt =====
-- src/domain/triple_barrier.py: from one scan of the barriers to the loop of `on_bars_closed`.
use gektor.Base.{ℕ, zero, suc, ◌+◌, Option, none, some, is_some, ◌&&◌, ◌==◌, Bool-cases, inl, inr}
use gektor.Bars.{Engine, Row, get_bar_row}
use gektor.Barrier.{Labeler}
use gektor.Barrier.Steps.{scan_barriers, scan_row, scan_range, on_bars_closed}

module _ (P : Labeler → Type 0)
    (scanned : (h w c i : ℕ) (l : Labeler) → P l → P (scan_barriers h w c i l)) where
  scan_row-keeps : (o : Option Row) (i : ℕ) (l : Labeler) → P l → P (scan_row o i l)
  unfolding scan_row
  scan_row-keeps none i l k = k
  scan_row-keeps (some r) i l k = scanned r.high r.low r.close i l k

  scan_range-keeps : (n i : ℕ) (e : Engine) (l : Labeler) → P l → P (scan_range n i e l)
  unfolding scan_range
  scan_range-keeps zero i e l k = k
  scan_range-keeps (suc n) i e l k =
      let next = scan_row (get_bar_row i e) i l in
      let k2 = scan_row-keeps (get_bar_row i e) i l k in
      elim (Bool-cases (is_some (get_bar_row i e) && next.open_count == 0)) [
        | inl z ↦ rw z k2
        | inr z ↦ rw z (scan_range-keeps n (i + 1) e next k2)
      ]

  pub on_bars_closed-keeps : (n i : ℕ) (e : Engine) (l : Labeler) → P l → P (on_bars_closed n i e l)
  unfolding on_bars_closed
  on_bars_closed-keeps n i e l k = elim (Bool-cases (l.open_count == 0)) [
    | inl z ↦ rw z k
    | inr z ↦ rw z (scan_range-keeps n i e l k)
  ]
