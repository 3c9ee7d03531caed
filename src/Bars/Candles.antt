-- ===== src/Bars/Candles.antt =====
-- src/domain/dollar_bars.py: what a closed bar looks like.
use gektor.Base.{
  ℕ, zero, suc, ◌+◌, ◌-◌, ◌*◌, ◌/◌, ◌≤◌, ◌<◌, ◌≡◌, refl, subst, ◌||◌, leb, ◌==◌, arith, All,
  All-append, Bool-cases, inl, inr,
}
use gektor.Bars.{
  Row, OpenBar, Engine, Split, close_bar, start_bar, touch, split_round, split, ingest_trade,
}
use gektor.Bars.Loop.{
  IsSound, opened_lem, split_round_lem, round_rows, written, trade_rows, entering,
}

-- A closed bar of exactly the threshold, with its prices in order.
pub record IsCandle (threshold : ℕ) (r : Row) : Type 0 where
  pub whole : r.dollar_vol ≡ threshold
  pub low-open : r.low ≤ r.open_px
  pub open-high : r.open_px ≤ r.high
  pub low-close : r.low ≤ r.close
  pub close-high : r.close ≤ r.high

-- The prices of an open bar with trades are in order.
pub record IsOpen (b : OpenBar) : Type 0 where
  pub ordered :
      0 < b.trade_count
      → (b.low ≤ b.open_px) × (b.open_px ≤ b.high) × (b.low ≤ b.close) × (b.close ≤ b.high)

opened-IsOpen :
    (ts price n : ℕ) (e : Engine)
    → IsOpen e.bar
    → let b = (touch price (start_bar ts price n e)).bar in
      (b.low ≤ b.open_px) × (b.open_px ≤ b.high) × (b.low ≤ b.close) × (b.close ≤ b.high)
unfolding touch start_bar
opened-IsOpen ts price n e h = ground (arith, h.ordered)

round-IsCandle :
    (ts price : ℕ) (s : Split)
    → IsSound s.engine
    → IsOpen s.engine.bar
    → All (IsCandle s.engine.threshold) (round_rows ts price s)
      × IsOpen (split_round ts price s).engine.bar
unfolding split_round round_rows close_bar
round-IsCandle ts price s h o =
    let e = touch price (start_bar ts price s.bars_produced s.engine) in
    let f = opened_lem ts price s.bars_produced s.engine in
    let p = opened-IsOpen ts price s.bars_produced s.engine o in
    let (th, c, hd, b, d, v) = f in
    elim (Bool-cases (leb (e.threshold - e.bar.dollar_acc) s.remaining_dollar)) [
      | inl z ↦ rw z (ground (arith, f, p, h.short))
      | inr z ↦ rw z (ground (arith, f, p))
    ]

split-IsCandle :
    (fuel ts price : ℕ) (s : Split)
    → IsSound s.engine
    → IsOpen s.engine.bar
    → All (IsCandle s.engine.threshold) (written fuel ts price s)
      × IsOpen (split fuel ts price s).engine.bar
unfolding split written
split-IsCandle zero ts price s h o = (tt, o)
split-IsCandle (suc fuel) ts price s h o = elim (Bool-cases (s.remaining_dollar == 0)) [
  | inl z ↦ rw z (tt, o)
  | inr z ↦
      let (h2, _, th, _, _) = split_round_lem ts price s h (ground arith) in
      let (rows, o2) = round-IsCandle ts price s h o in
      let (more, o3) = split-IsCandle fuel ts price (split_round ts price s) h2 o2 in
      rw z (
        All-append _ (round_rows ts price s) _ rows (
            subst (λ (t : ℕ). All (IsCandle t) (written fuel ts price (split_round ts price s))) th
              more),
        o3,
      )
]

split-settings :
    (fuel ts price : ℕ) (s : Split)
    → ((split fuel ts price s).engine.threshold ≡ s.engine.threshold)
      × ((split fuel ts price s).engine.capacity ≡ s.engine.capacity)
unfolding split split_round close_bar
split-settings zero ts price s = (refl, refl)
split-settings (suc fuel) ts price s = ground (
  arith,
  split-settings fuel ts price (split_round ts price s),
  opened_lem ts price s.bars_produced s.engine,
)

pub ingest-IsCandle :
    (price qty ts : ℕ) (e : Engine)
    → IsSound e
    → IsOpen e.bar
    → All (IsCandle e.threshold) (trade_rows price qty ts e)
      × IsOpen (ingest_trade price qty ts e).0.bar
      × ((ingest_trade price qty ts e).0.threshold ≡ e.threshold)
      × ((ingest_trade price qty ts e).0.capacity ≡ e.capacity)
unfolding ingest_trade trade_rows
ingest-IsCandle price qty ts e h o =
    let fuel = price * qty / e.scale + 1 in
    let s = entering price qty e in
    let a = split-IsCandle fuel ts price s h o in
    let b = split-settings fuel ts price s in
    elim (Bool-cases (price == 0 || qty == 0)) [
      | inl z ↦ rw z (tt, o, refl, refl)
      | inr z ↦ elim (Bool-cases (price * qty / e.scale == 0)) [
        | inl y ↦ rw (z, y) (tt, o, refl, refl)
        | inr y ↦ rw (z, y) (a.0, a.1, b.0, b.1)
      ]
    ]
