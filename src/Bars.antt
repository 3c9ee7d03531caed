-- ===== src/Bars.antt =====
-- src/domain/dollar_bars.py: `ZeroAllocationDollarBarEngine`. The accumulators of the open bar and the
-- indicators are records of their own; a row of the int64 array is a record with a field for each
-- column. Prices, quantities and sums are assumed to fit an int64. Listeners are left out: an
-- exception of theirs is swallowed, and what they are passed is the result of `ingest_trade` and the
-- bar count before it.
pub mod Loop
pub mod Rows
pub mod Candles
pub mod History
mod Examples
use gektor.Base.{
  ℕ, zero, suc, ◌+◌, ◌-◌, ◌*◌, ◌/◌, ◌%◌, ◌≤◌, ◌<◌, ◌≡◌, min, max, Bool, true, false, ◌||◌, Option,
  none, some, List, [], ◌∷◌, ◌++◌, if◌then◌else◌, ltb, leb, ◌==◌, get_or, set, replicate, take,
  drop,
}

pub record Row : Type 0 where
  pub ts_open : ℕ
  pub ts_close : ℕ
  pub open_px : ℕ
  pub high : ℕ
  pub low : ℕ
  pub close : ℕ
  pub volume : ℕ
  pub dollar_vol : ℕ
  pub ema : ℕ
  pub bar_idx : ℕ
  pub is_synthetic : ℕ

abbrev pub blank_row : Row
blank_row = record {
  ts_open = 0;
  ts_close = 0;
  open_px = 0;
  high = 0;
  low = 0;
  close = 0;
  volume = 0;
  dollar_vol = 0;
  ema = 0;
  bar_idx = 0;
  is_synthetic = 0;
}

pub record OpenBar : Type 0 where
  pub dollar_acc : ℕ
  pub vol_acc : ℕ
  pub trade_count : ℕ
  pub open_ts : ℕ
  pub open_px : ℕ
  pub high : ℕ
  pub low : ℕ
  pub close : ℕ

pub record Stats : Type 0 where
  pub ema : ℕ
  pub var_count : ℕ
  pub var_mean : ℕ
  pub var_m2 : ℕ

pub record Engine : Type 0 where
  pub threshold : ℕ
  pub capacity : ℕ
  pub scale : ℕ
  pub ema_alpha_num : ℕ
  pub ema_alpha_den : ℕ
  pub head : ℕ
  pub bar_count : ℕ
  pub buf : List Row
  pub bar : OpenBar
  pub stats : Stats

abbrev pub alpha_scale : ℕ
alpha_scale = 1_000_000

-- `__init__`; a threshold of 0 is a `ValueError`.
unfoldable pub new : ℕ → ℕ → ℕ → ℕ → Option Engine
new threshold capacity ema_period scale =
    if threshold == 0
    then none
    else some (record {
      threshold = threshold;
      capacity = capacity;
      scale = scale;
      ema_alpha_num = 2 * alpha_scale;
      ema_alpha_den = (ema_period + 1) * alpha_scale;
      head = 0;
      bar_count = 0;
      buf = replicate capacity blank_row;
      bar = record {
        dollar_acc = 0;
        vol_acc = 0;
        trade_count = 0;
        open_ts = 0;
        open_px = 0;
        high = 0;
        low = 0;
        close = 0;
      };
      stats = record { ema = 0; var_count = 0; var_mean = 0; var_m2 = 0 };
    })

-- The incremental EMA of `_close_bar`. (The weights add up to the denominator for a period of 1 or
-- more.)
unfoldable pub next_ema : ℕ → ℕ → ℕ → ℕ → ℕ
next_ema num den px ema = if ema == 0 then px else (px * num + ema * (den - num)) / den

-- Welford's step of `_close_bar`. `delta` may be negative: then `delta // n` rounds away from 0, and
-- `delta * delta2` is the product of two numbers that are not positive.
unfoldable pub welford : ℕ → Stats → Stats
welford px s =
    let n = s.var_count + 1 in
    let up = s.var_mean + (px - s.var_mean) / n in
    let down = s.var_mean - (s.var_mean - px + s.var_count) / n in
    if leb s.var_mean px
    then record s {
      var_count = n;
      var_mean = up;
      var_m2 = s.var_m2 + (px - s.var_mean) * (px - up);
    }
    else record s {
      var_count = n;
      var_mean = down;
      var_m2 = s.var_m2 + (s.var_mean - px) * (down - px);
    }

-- The row that `_close_bar` writes; the synthetic mark is in the slot already.
abbrev pub closed_row : ℕ → ℕ → Engine → Row
closed_row ts_close ema e = record {
  ts_open = e.bar.open_ts;
  ts_close = ts_close;
  open_px = e.bar.open_px;
  high = e.bar.high;
  low = e.bar.low;
  close = e.bar.close;
  volume = e.bar.vol_acc;
  dollar_vol = e.bar.dollar_acc;
  ema = ema;
  bar_idx = e.bar_count;
  is_synthetic = (get_or e.buf e.head blank_row).is_synthetic;
}

-- `_close_bar`
unfoldable pub close_bar : ℕ → Engine → Engine
unfolding next_ema welford
close_bar ts_close e =
    let ema = next_ema e.ema_alpha_num e.ema_alpha_den e.bar.close e.stats.ema in
    let next = (e.head + 1) % e.capacity in
    record e {
      stats = welford e.bar.close (record e.stats { ema = ema });
      buf = set (set e.buf e.head (closed_row ts_close ema e)) next blank_row;
      bar_count = e.bar_count + 1;
      head = next;
      bar = record e.bar { dollar_acc = 0; vol_acc = 0; trade_count = 0 };
    }

-- A bar without trades starts with this one; the mark tells the continuation of a split trade.
unfoldable pub start_bar : ℕ → ℕ → ℕ → Engine → Engine
start_bar ts price bars_produced e =
    if e.bar.trade_count == 0
    then record e {
      bar = record e.bar { open_ts = ts; open_px = price; high = price; low = price };
      buf = set e.buf e.head (record (get_or e.buf e.head blank_row) {
        is_synthetic = if ltb 0 bars_produced then 1 else 0;
      });
    }
    else e

-- The running high, low and close.
unfoldable pub touch : ℕ → Engine → Engine
touch price e = record e {
  bar = record e.bar {
    high = max e.bar.high price;
    low = min e.bar.low price;
    close = price;
    trade_count = e.bar.trade_count + 1;
  };
}

abbrev pub add_to_bar : ℕ → ℕ → Engine → Engine
add_to_bar dollar qty e = record e {
  bar = record e.bar { dollar_acc = e.bar.dollar_acc + dollar; vol_acc = e.bar.vol_acc + qty };
}

-- The variables of the loop in `ingest_trade`.
pub record Split : Type 0 where
  pub engine : Engine
  pub remaining_dollar : ℕ
  pub remaining_qty : ℕ
  pub bars_produced : ℕ

-- One round.
unfoldable pub split_round : ℕ → ℕ → Split → Split
split_round ts price s =
    let e = touch price (start_bar ts price s.bars_produced s.engine) in
    let needed = e.threshold - e.bar.dollar_acc in
    let chunk_qty = s.remaining_qty * needed / s.remaining_dollar in
    if leb needed s.remaining_dollar
    then record {
      engine = close_bar ts (add_to_bar needed chunk_qty e);
      remaining_dollar = s.remaining_dollar - needed;
      remaining_qty = s.remaining_qty - chunk_qty;
      bars_produced = s.bars_produced + 1;
    }
    else record s {
      engine = add_to_bar s.remaining_dollar s.remaining_qty e;
      remaining_dollar = 0;
      remaining_qty = 0;
    }

-- `while remaining_dollar > 0`
unfoldable pub split : ℕ → ℕ → ℕ → Split → Split
split zero ts price s = s
split (suc fuel) ts price s =
    let next = split fuel ts price (split_round ts price s) in
    if s.remaining_dollar == 0 then s else next

-- `ingest_trade`, with the number of bars closed: each round takes a dollar unit off at least.
unfoldable pub ingest_trade : ℕ → ℕ → ℕ → Engine → Engine × ℕ
ingest_trade price_scaled qty_scaled ts_exchange e =
    let dollar_value = price_scaled * qty_scaled / e.scale in
    let s = split (dollar_value + 1) ts_exchange price_scaled (record {
      engine = e;
      remaining_dollar = dollar_value;
      remaining_qty = qty_scaled;
      bars_produced = 0;
    }) in
    if price_scaled == 0 || qty_scaled == 0
    then (e, 0)
    else if dollar_value == 0
    then (e, 0)
    else (s.engine, s.bars_produced)

-- The slot of a bar: `(head - (bar_count - bar_index)) % capacity`, where the difference may be
-- negative but not below `-capacity`.
abbrev pub ring_pos : ℕ → Engine → ℕ
ring_pos bar_index e = (e.head + e.capacity - (e.bar_count - bar_index)) % e.capacity

-- `get_bar_row`; `none` is the `IndexError`.
unfoldable pub get_bar_row : ℕ → Engine → Option Row
get_bar_row bar_index e =
    if leb e.bar_count bar_index
    then none
    else if ltb bar_index (e.bar_count - e.capacity)
    then none
    else some (get_or e.buf (ring_pos bar_index e) blank_row)

-- `get_bars_view`: one slice of the buffer, or the two parts of a range that wraps.
unfoldable pub get_bars_view : ℕ → ℕ → Engine → List Row
get_bars_view start_index count e =
    let start = max start_index (e.bar_count - e.capacity) in
    let actual_count = min count (e.bar_count - start) in
    let ring_start = ring_pos start e in
    let ring_end = ring_start + actual_count in
    if actual_count == 0
    then []
    else if leb ring_end e.capacity
    then take actual_count (drop ring_start e.buf)
    else drop ring_start e.buf ++ take (ring_end - e.capacity) e.buf

-- `current_variance`
unfoldable pub current_variance : Engine → ℕ
current_variance e = if ltb e.stats.var_count 2 then 0 else e.stats.var_m2 / (e.stats.var_count - 1)
