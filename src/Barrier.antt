-- ===== src/Barrier.antt =====
-- src/domain/triple_barrier.py: `TripleBarrierLabeler`. The parallel arrays are one list of slots. Prices are
-- natural numbers, and both distances of an intent are taken to be at most 10000 basis points; the
-- numbers are taken to fit an int64. Callbacks and logs are left out.
pub mod Steps
pub mod Lifts
pub mod Counts
pub mod Ids
pub mod Admission
pub mod Outcomes
pub mod History
mod Examples
use gektor.Base.{
  ℕ, zero, suc, ◌+◌, ◌-◌, ◌*◌, ◌/◌, ◌%◌, min, max, ℤ, pos, negsuc, opposite, Bool, true, false, not,
  ◌&&◌, ◌||◌, Option, none, some, List, [], ◌∷◌, if◌then◌else◌, ltb, leb, ◌==◌, get_or, set,
  replicate,
}
use gektor.Bars.{Engine, Row, get_bar_row}

pub record Slot : Type 0 where
  pub active : Bool
  pub intent_id : ℕ
  pub entry_px : ℕ
  pub tp_px : ℕ
  pub sl_px : ℕ
  pub entry_bar : ℕ
  pub max_bars : ℕ
  pub side : ℤ
  pub running_high : ℕ
  pub running_low : ℕ

-- A row of the results: `label` is 1 for the take-profit, -1 for the stop-loss, 0 for the vertical
-- barrier.
pub record Result : Type 0 where
  pub intent_id : ℕ
  pub label : ℤ
  pub entry_px : ℕ
  pub exit_px : ℕ
  pub entry_bar : ℕ
  pub exit_bar : ℕ
  pub side : ℤ
  pub bars_held : ℤ
  pub mfe : ℕ
  pub mae : ℕ
  pub pnl_bps : ℤ

pub record Labeler : Type 0 where
  pub slots : List Slot
  pub res : List Result
  pub res_cap : ℕ
  pub res_head : ℕ
  pub res_count : ℕ
  pub open_count : ℕ
  pub next_id : ℕ

abbrev pub empty_slot : Slot
empty_slot = record {
  active = false;
  intent_id = 0;
  entry_px = 0;
  tp_px = 0;
  sl_px = 0;
  entry_bar = 0;
  max_bars = 0;
  side = pos 0;
  running_high = 0;
  running_low = 0;
}

abbrev pub empty_result : Result
empty_result = record {
  intent_id = 0;
  label = pos 0;
  entry_px = 0;
  exit_px = 0;
  entry_bar = 0;
  exit_bar = 0;
  side = pos 0;
  bars_held = pos 0;
  mfe = 0;
  mae = 0;
  pnl_bps = pos 0;
}

unfoldable pub new : ℕ → ℕ → Labeler
new max_open results_capacity = record {
  slots = replicate max_open empty_slot;
  res = replicate results_capacity empty_result;
  res_cap = results_capacity;
  res_head = 0;
  res_count = 0;
  open_count = 0;
  next_id = 0;
}

-- side > 0
abbrev pub is_long : ℤ → Bool
is_long (pos n) = ltb 0 n
is_long (negsuc n) = false

-- side < 0
abbrev pub is_short : ℤ → Bool
is_short (pos n) = false
is_short (negsuc n) = true

-- `(exit - entry) * 10_000 // entry`, and 0 for an entry price of 0: `//` rounds down.
unfoldable pub gain_bps : ℕ → ℕ → ℕ → ℤ
gain_bps low high entry =
    if ltb 0 entry
    then (if leb low high
        then pos ((high - low) * 10_000 / entry)
        else opposite (((low - high) * 10_000 + (entry - 1)) / entry))
    else pos 0

-- What the slot loses or gains at an exit price.
unfoldable pub pnl_of : Slot → ℕ → ℤ
unfolding gain_bps
pnl_of s exit_px =
    if is_long s.side
    then gain_bps s.entry_px exit_px s.entry_px
    else gain_bps exit_px s.entry_px s.entry_px

-- The watermarks start at the entry price, so that neither difference is negative.
unfoldable pub mfe_of : Slot → ℕ
mfe_of s = if is_long s.side then s.running_high - s.entry_px else s.entry_px - s.running_low

unfoldable pub mae_of : Slot → ℕ
mae_of s = if is_long s.side then s.entry_px - s.running_low else s.running_high - s.entry_px

-- A row at the head of the results.
unfoldable pub write_result : Result → Labeler → Labeler
write_result r l = record l {
  res = set l.res l.res_head r;
  res_head = (l.res_head + 1) % l.res_cap;
  res_count = l.res_count + 1;
}

-- The watermarks of an active slot after a bar.
unfoldable pub watch : ℕ → ℕ → Slot → Slot
watch bar_high bar_low s =
    if s.active
    then record s {
      running_high = max s.running_high bar_high;
      running_low = min s.running_low bar_low;
    }
    else s

unfoldable pub hits_tp : ℕ → ℕ → Slot → Bool
hits_tp bar_high bar_low s =
    (is_long s.side && s.active && leb s.tp_px bar_high)
    || (is_short s.side && s.active && leb bar_low s.tp_px)

unfoldable pub hits_sl : ℕ → ℕ → Slot → Bool
hits_sl bar_high bar_low s =
    (is_long s.side && s.active && leb bar_low s.sl_px)
    || (is_short s.side && s.active && leb s.sl_px bar_high)

-- `bars_held >= max_bars`; the age of an intent that was registered after the bar is negative.
unfoldable pub hits_vb : ℕ → Slot → Bool
hits_vb bar_idx s = s.active && leb (s.entry_bar + s.max_bars) bar_idx

-- The label and the exit price of a slot that a barrier resolves: the stop-loss comes first.
unfoldable pub resolution : ℕ → ℕ → ℕ → ℕ → Slot → Option (ℤ × ℕ)
unfolding hits_tp hits_sl hits_vb
resolution bar_high bar_low bar_close bar_idx s =
    if hits_sl bar_high bar_low s
    then some (negsuc 0, (if is_long s.side then min s.sl_px bar_low else max s.sl_px bar_high))
    else if hits_tp bar_high bar_low s
    then some (pos 1, s.tp_px)
    else if hits_vb bar_idx s
    then some (pos 0, bar_close)
    else none

abbrev pub row_of : ℕ → ℤ × ℕ → Slot → Result
row_of bar_idx (label, exit_px) s = record {
  intent_id = s.intent_id;
  label = label;
  entry_px = s.entry_px;
  exit_px = exit_px;
  entry_bar = s.entry_bar;
  exit_bar = bar_idx;
  side = s.side;
  bars_held =
      if leb s.entry_bar bar_idx
      then pos (bar_idx - s.entry_bar)
      else opposite (s.entry_bar - bar_idx);
  mfe = mfe_of s;
  mae = mae_of s;
  pnl_bps = pnl_of s exit_px;
}
