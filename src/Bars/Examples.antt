-- ===== src/Bars/Examples.antt =====
-- Runs of the bar engine, and the instances of its theorems.
use gektor.Base.{
  ℕ, ◌+◌, ◌<◌, ◌≤◌, ◌≡◌, ◌%◌, ◌/◌, ◌*◌, none, some, List, [], ◌∷◌, refl, arith, length, get_or, All,
}
use gektor.Bars.{
  Row, blank_row, Engine, new, next_ema, welford, close_bar, start_bar, touch, split_round, split,
  ingest_trade, get_bar_row, get_bars_view, current_variance,
}
use gektor.Bars.Loop.{IsSound, split_ends, entering, ingest_trade_lem, trade_rows, volumes}
use gektor.Bars.Candles.{IsCandle}
use gektor.Bars.History.{Trade, run, log_of, get_bar_row_lem, oldest_row_lost}

-- A threshold of 100 dollars and room for 3 bars.
abbrev small : Engine
small = record {
  threshold = 100;
  capacity = 3;
  scale = 1;
  ema_alpha_num = 2_000_000;
  ema_alpha_den = 15_000_000;
  head = 0;
  bar_count = 0;
  buf = blank_row ∷ blank_row ∷ blank_row ∷ [];
  bar = record {
    dollar_acc = 0;
    vol_acc = 0;
    trade_count = 0;
    open_ts = 0;
    open_px = 0;
    high = 0;
    low = 0;
    close = 0;
  };
  stats = record { ema = 0; var_count = 0; var_mean = 0; var_m2 = 0 };
}

small_built : new 100 3 14 1 ≡ some small
unfolding new
small_built = refl

small-IsSound : IsSound small
small-IsSound = record { positive = omega arith; short = omega arith }

-- 7 units at 50 make three bars and leave 50 dollars.
elephant : (ingest_trade 50 7 11 small).1 ≡ 3
unfolding ingest_trade split split_round close_bar start_bar touch next_ema welford
elephant = refl

abbrev trades : List Trade
trades = (50, 7, 11) ∷ (40, 3, 12) ∷ []

four_bars : (run trades small).bar_count ≡ 4
unfolding run ingest_trade split split_round close_bar start_bar touch next_ema welford
four_bars = refl

view_of_two : length (get_bars_view 2 5 (run trades small)) ≡ 2
unfolding get_bars_view run ingest_trade split split_round close_bar start_bar touch next_ema
    welford
view_of_two = refl

flat_variance : current_variance (ingest_trade 50 7 11 small).0 ≡ 0
unfolding current_variance ingest_trade split split_round close_bar start_bar touch next_ema welford
flat_variance = refl

split_ends_example :
    let s = entering 50 7 small in
    ((split 350 11 50 s).remaining_dollar ≡ 0)
    × ((split 350 11 50 s).remaining_qty ≡ 0)
    × ((k : ℕ) → split (350 + k) 11 50 s ≡ split 350 11 50 s)
split_ends_example =
    split_ends 350 11 50 (entering 50 7 small) small-IsSound (λ z. absurd (omega arith))
      (omega arith)

ingest_trade_lem_example :
    let (t, n) = ingest_trade 50 7 11 small in
    let rows = trade_rows 50 7 11 small in
    IsSound t
    × (n ≡ (0 + 50 * 7 / 1) / 100)
    × (t.bar.dollar_acc ≡ (0 + 50 * 7 / 1) % 100)
    × (t.bar_count ≡ 0 + n)
    × (length rows ≡ n)
    × (0 < 50 * 7 / 1 → volumes rows + t.bar.vol_acc ≡ 0 + 7)
ingest_trade_lem_example = ingest_trade_lem 50 7 11 small small-IsSound

get_bar_row_lem_example :
    let t = run trades small in
    let log = log_of trades small in
    (t.bar_count ≡ length log)
    × All (IsCandle 100) log
    × (2 < t.bar_count → t.bar_count < 2 + 3 → get_bar_row 2 t ≡ some (get_or log 2 blank_row))
    × (t.bar_count ≤ 2 → get_bar_row 2 t ≡ none)
    × (2 + 3 < t.bar_count → get_bar_row 2 t ≡ none)
get_bar_row_lem_example = get_bar_row_lem trades 100 3 14 1 2 small (omega arith) small_built

-- Of four bars in a ring of three, bar 1 is said to be available.
oldest_row_lost_example :
    (r : Row) × (get_bar_row 1 (run trades small) ≡ some r) × (r.dollar_vol ≡ 0)
oldest_row_lost_example =
    oldest_row_lost trades 100 3 14 1 1 small (omega arith) small_built four_bars
