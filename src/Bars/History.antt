-- ===== src/Bars/History.antt =====
-- src/domain/dollar_bars.py: the bars of a whole history of trades of a new engine.
use gektor.Base.{
  ℕ, zero, suc, ◌+◌, ◌-◌, ◌%◌, ◌≤◌, ◌<◌, ◌≡◌, refl, sym, ◌∙◌, ap, subst, false, none, some, List,
  [], ◌∷◌, ◌++◌, ltb, leb, ◌==◌, arith, length, get_or, replicate, length-replicate, ring_behind,
  All, All-append,
}
use native.Mathlib.Nat.{zero-mod, add-mod_right}
use mathlib.Core.Option.{some-injective}
use mathlib.Core.List.{append_assoc, append-nil}
use gektor.Bars.{Row, blank_row, Engine, new, ingest_trade, get_bar_row}
use gektor.Bars.Loop.{IsSound, trade_rows, ingest_trade_lem}
use gektor.Bars.Candles.{IsCandle, IsOpen, ingest-IsCandle}
use gektor.Bars.Rows.{IsLog, ingest_trade-IsLog}

-- A trade: price, quantity and exchange time.
abbrev pub Trade : Type 0
Trade = ℕ × ℕ × ℕ

unfoldable pub run : List Trade → Engine → Engine
run [] e = e
run ((price, qty, ts) ∷ trades) e = run trades (ingest_trade price qty ts e).0

-- The rows that the trades close, in order.
unfoldable pub log_of : List Trade → Engine → List Row
log_of [] e = []
log_of ((price, qty, ts) ∷ trades) e =
    trade_rows price qty ts e ++ log_of trades (ingest_trade price qty ts e).0

record Reached (threshold capacity : ℕ) (log : List Row) (e : Engine) : Type 0 where
  sound : IsSound e
  logged : IsLog log e
  opened : IsOpen e.bar
  candles : All (IsCandle threshold) log
  same_threshold : e.threshold ≡ threshold
  same_capacity : e.capacity ≡ capacity

run-Reached :
    (trades : List Trade) (threshold capacity : ℕ) (log : List Row) (e : Engine)
    → Reached threshold capacity log e
    → Reached threshold capacity (log ++ log_of trades e) (run trades e)
unfolding run log_of
run-Reached [] threshold capacity log e h = rw (append-nil log) h
run-Reached ((price, qty, ts) ∷ trades) threshold capacity log e h =
    let (rows, o, th, c) = ingest-IsCandle price qty ts e h.sound h.opened in
    let r : Reached threshold capacity (log ++ trade_rows price qty ts e)
        (ingest_trade price qty ts e).0 =
      record {
        sound = (ingest_trade_lem price qty ts e h.sound).0;
        logged = ingest_trade-IsLog price qty ts e log h.logged;
        opened = o;
        candles =
            All-append _ log _ h.candles (
              subst (λ (t : ℕ). All (IsCandle t) (trade_rows price qty ts e)) h.same_threshold
                rows);
        same_threshold = th ∙ h.same_threshold;
        same_capacity = c ∙ h.same_capacity;
      } in
    rw
      (← append_assoc log (trade_rows price qty ts e)
        (log_of trades (ingest_trade price qty ts e).0))
      (run-Reached trades threshold capacity (log ++ trade_rows price qty ts e)
        (ingest_trade price qty ts e).0 r)

get_or-replicate : (n i : ℕ) → get_or (replicate n blank_row) i blank_row ≡ blank_row
get_or-replicate zero i = refl
get_or-replicate (suc n) zero = refl
get_or-replicate (suc n) (suc i) = get_or-replicate n i

new-Reached :
    (threshold capacity period scale : ℕ) (e : Engine)
    → 0 < capacity
    → new threshold capacity period scale ≡ some e
    → Reached threshold capacity [] e
unfolding new
new-Reached zero capacity period scale e p h = absurd (cc)
new-Reached (suc t) capacity period scale e p h =
    let z : (suc t == 0) ≡ false = ground arith in
    subst (Reached (suc t) capacity []) (some-injective _ _ (rw z at h)) (record {
      sound = record { positive = omega arith; short = omega arith };
      logged = record {
        room = p;
        filled = length-replicate capacity blank_row;
        counted = refl;
        at_head = sym (zero-mod capacity);
        cleared = ap (λ (r : Row). r.dollar_vol) (get_or-replicate capacity 0);
        kept = λ i l u. absurd (omega arith);
      };
      opened = record { ordered = λ q. absurd (omega arith) };
      candles = tt;
      same_threshold = refl;
      same_capacity = refl;
    })

-- What `get_bar_row` makes of an index.
row_at :
    (log : List Row) (e : Engine) (i : ℕ)
    → IsLog log e
    → (e.bar_count ≤ i → get_bar_row i e ≡ none)
      × (i + e.capacity < e.bar_count → get_bar_row i e ≡ none)
      × (i < e.bar_count
          → e.bar_count < i + e.capacity
          → get_bar_row i e ≡ some (get_or log i blank_row))
      × (e.bar_count ≡ i + e.capacity → get_bar_row i e ≡ some (get_or e.buf e.head blank_row))
unfolding get_bar_row
row_at log e i h =
    let c = e.capacity in
    let at : i ≤ e.bar_count → e.bar_count ≤ i + c → (e.head + c - (e.bar_count - i)) % c ≡ i % c =
      λ a b. rw h.at_head (ring_behind i e.bar_count c a b h.room) in
    (
      λ a. ground arith,
      λ a. ground arith,
      λ a b.
          let x : leb e.bar_count i ≡ false = ground arith in
          let y : ltb i (e.bar_count - c) ≡ false = ground arith in
          rw (x, y, at (omega arith) (omega arith)) (ap some (h.kept i a b)),
      λ a.
          let x : leb e.bar_count i ≡ false = ground (arith, h.room) in
          let y : ltb i (e.bar_count - c) ≡ false = ground arith in
          let z : i % c ≡ e.head =
            sym (add-mod_right i c) ∙ ap (λ (t : ℕ). t % c) (sym a) ∙ sym h.at_head in
          rw (x, y, at (omega arith) (omega arith), z),
    )

-- Over every history of trades of a new engine, each closed bar has exactly the threshold's dollars and
-- its prices in order, and `get_bar_row` gives back the bar of an index among the newest
-- `capacity - 1` ones; an index not yet closed, or older than `capacity` bars, is an error.
pub get_bar_row_lem :
    (trades : List Trade) (threshold capacity period scale i : ℕ) (e : Engine)
    → 0 < capacity
    → new threshold capacity period scale ≡ some e
    → let t = run trades e in
      let log = log_of trades e in
      (t.bar_count ≡ length log)
      × All (IsCandle threshold) log
      × (i < t.bar_count
          → t.bar_count < i + capacity
          → get_bar_row i t ≡ some (get_or log i blank_row))
      × (t.bar_count ≤ i → get_bar_row i t ≡ none)
      × (i + capacity < t.bar_count → get_bar_row i t ≡ none)
get_bar_row_lem trades threshold capacity period scale i e p h =
    let r =
      run-Reached trades threshold capacity [] e
        (new-Reached threshold capacity period scale e p h) in
    let (late, early, here, _) = row_at (log_of trades e) (run trades e) i r.logged in
    (
      r.logged.counted,
      r.candles,
      λ a b. here a (omega (arith, r.same_capacity)),
      late,
      λ a. early (omega (arith, r.same_capacity)),
    )

-- The oldest bar that `get_bar_row` still answers for, `capacity` bars back, is lost: the row that it returns
-- has no dollars.
pub oldest_row_lost :
    (trades : List Trade) (threshold capacity period scale i : ℕ) (e : Engine)
    → 0 < capacity
    → new threshold capacity period scale ≡ some e
    → (run trades e).bar_count ≡ i + capacity
    → (r : Row) × (get_bar_row i (run trades e) ≡ some r) × (r.dollar_vol ≡ 0)
oldest_row_lost trades threshold capacity period scale i e p h n =
    let r =
      run-Reached trades threshold capacity [] e
        (new-Reached threshold capacity period scale e p h) in
    let t = run trades e in
    (
      get_or t.buf t.head blank_row,
      (row_at (log_of trades e) t i r.logged).3 (omega (arith, r.same_capacity)),
      r.logged.cleared,
    )
