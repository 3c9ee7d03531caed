-- ===== src/Barrier/Steps.antt =====
-- src/domain/triple_barrier.py: the operations of `TripleBarrierLabeler`.
use gektor.Base.{
  ℕ, zero, suc, ◌+◌, ◌-◌, ◌*◌, ◌/◌, ◌%◌, min, ℤ, pos, negsuc, eqb_ℤ, Bool, true, false, ◌&&◌,
  Option, none, some, is_some, List, [], ◌∷◌, map, if◌then◌else◌, ltb, ◌==◌, get_or, set,
}
use gektor.Bars.{Engine, Row, get_bar_row}
use gektor.Barrier.{
  Slot, Result, Labeler, empty_result, is_long, write_result, watch, resolution, row_of,
}

-- One slot of the loop over the resolved ones.
unfoldable pub resolve_slot : Option (ℤ × ℕ) → ℕ → Slot → Labeler → Slot × Labeler
unfolding write_result
resolve_slot none bar_idx s l = (s, l)
resolve_slot (some r) bar_idx s l = (
  record s { active = false },
  record (write_result (row_of bar_idx r s) l) { open_count = l.open_count - 1 },
)

unfoldable pub resolve_all : ℕ → ℕ → ℕ → ℕ → List Slot → Labeler → List Slot × Labeler
unfolding resolve_slot resolution
resolve_all bar_high bar_low bar_close bar_idx [] l = ([], l)
resolve_all bar_high bar_low bar_close bar_idx (s ∷ rest) l =
    let (t, m) = resolve_slot (resolution bar_high bar_low bar_close bar_idx s) bar_idx s l in
    let (ts, n) = resolve_all bar_high bar_low bar_close bar_idx rest m in (t ∷ ts, n)

-- np.any(active)
unfoldable pub any_active : List Slot → Bool
any_active [] = false
any_active (s ∷ rest) = let later = any_active rest in if s.active then true else later

unfoldable pub scan_barriers : ℕ → ℕ → ℕ → ℕ → Labeler → Labeler
unfolding any_active resolve_all watch
scan_barriers bar_high bar_low bar_close bar_idx l =
    let (slots, m) =
      resolve_all bar_high bar_low bar_close bar_idx (map (watch bar_high bar_low) l.slots) l in
    if any_active l.slots then record m { slots = slots } else l

-- A bar that the engine no longer has is skipped.
unfoldable pub scan_row : Option Row → ℕ → Labeler → Labeler
unfolding scan_barriers
scan_row none bar_idx l = l
scan_row (some r) bar_idx l = scan_barriers r.high r.low r.close bar_idx l

unfoldable pub scan_range : ℕ → ℕ → Engine → Labeler → Labeler
unfolding scan_row
scan_range zero bar_idx e l = l
scan_range (suc n) bar_idx e l =
    let next = scan_row (get_bar_row bar_idx e) bar_idx l in
    let rest = scan_range n (bar_idx + 1) e next in
    if is_some (get_bar_row bar_idx e) && next.open_count == 0 then next else rest

unfoldable pub on_bars_closed : ℕ → ℕ → Engine → Labeler → Labeler
unfolding scan_range
on_bars_closed bars_produced first_bar_index e l =
    if l.open_count == 0 then l else scan_range bars_produced first_bar_index e l

abbrev pub shifted : Option ℕ → Option ℕ
shifted none = none
shifted (some i) = some (suc i)

-- The first free slot.
unfoldable pub first_free : List Slot → Option ℕ
first_free [] = none
first_free (s ∷ rest) = let later = shifted (first_free rest) in if s.active then later else some 0

-- The older of a slot and the oldest of those behind it; the earlier slot if they are of one age.
abbrev pub elder : Slot → Option (ℕ × Slot) → Option (ℕ × Slot)
elder s none = if s.active then some (0, s) else none
elder s (some (i, t)) =
    if s.active
    then (if ltb t.entry_bar s.entry_bar then some (suc i, t) else some (0, s))
    else some (suc i, t)

-- The active slot with the lowest entry bar.
unfoldable pub oldest : List Slot → Option (ℕ × Slot)
oldest [] = none
oldest (s ∷ rest) = elder s (oldest rest)

-- The end of `_evict_oldest`.
unfoldable pub evict_slot : Option (ℕ × Slot) → ℕ → Labeler → Labeler
unfolding write_result
evict_slot none bar_count l = l
evict_slot (some (i, s)) bar_count l =
    record (write_result (record (row_of bar_count (pos 0, s.entry_px) s) { pnl_bps = pos 0 }) l) {
      slots = set l.slots i (record s { active = false });
      open_count = l.open_count - 1;
    }

unfoldable pub evict_oldest : ℕ → Labeler → Labeler
unfolding evict_slot oldest
evict_oldest bar_count l = evict_slot (oldest l.slots) bar_count l

-- The slot of a new intent.
unfoldable pub opened : ℕ → ℕ → ℤ → ℕ → ℕ → ℕ → ℕ → Slot
opened iid entry_price side tp_bps sl_bps max_bars bar_count =
    let above = λ (bps : ℕ). entry_price * (10_000 + bps) / 10_000 in
    let below = λ (bps : ℕ). entry_price * (10_000 - bps) / 10_000 in
    record {
      active = true;
      intent_id = iid;
      entry_px = entry_price;
      tp_px = if is_long side then above tp_bps else below tp_bps;
      sl_px = if is_long side then below sl_bps else above sl_bps;
      entry_bar = bar_count;
      max_bars = max_bars;
      side = side;
      running_high = entry_price;
      running_low = entry_price;
    }

-- The end of `register_intent`; `none` is the -1 of a failed allocation.
unfoldable pub occupy : Option ℕ → ℕ → ℤ → ℕ → ℕ → ℕ → ℕ → Labeler → Labeler × Option ℕ
unfolding opened
occupy none entry_price side tp_bps sl_bps max_bars bar_count l = (l, none)
occupy (some i) entry_price side tp_bps sl_bps max_bars bar_count l = (
  record l {
    slots = set l.slots i (opened l.next_id entry_price side tp_bps sl_bps max_bars bar_count);
    next_id = l.next_id + 1;
    open_count = l.open_count + 1;
  },
  some l.next_id,
)

unfoldable pub register_intent : ℕ → ℤ → ℕ → ℕ → ℕ → ℕ → Labeler → Labeler × Option ℕ
unfolding occupy first_free evict_oldest
register_intent entry_price side tp_bps sl_bps max_bars bar_count l =
    let m = if is_some (first_free l.slots) then l else evict_oldest bar_count l in
    occupy (first_free m.slots) entry_price side tp_bps sl_bps max_bars bar_count m

-- The loop of `get_label` and `get_pnl`: the results from the newest one back.
unfoldable pub find_result : ℕ → ℕ → ℕ → Labeler → Option Result
find_result zero i intent_id l = none
find_result (suc n) i intent_id l =
    let r = get_or l.res ((l.res_head + l.res_cap - 1 - i) % l.res_cap) empty_result in
    let older = find_result n (i + 1) intent_id l in
    if r.intent_id == intent_id then some r else older

abbrev pub label_of : Option Result → Option ℤ
label_of none = none
label_of (some r) = some r.label

abbrev pub pnl_in : Option Result → Option ℤ
pnl_in none = none
pnl_in (some r) = some r.pnl_bps

unfoldable pub get_label : ℕ → Labeler → Option ℤ
unfolding find_result
get_label intent_id l = label_of (find_result (min l.res_count l.res_cap) 0 intent_id l)

unfoldable pub get_pnl : ℕ → Labeler → Option ℤ
unfolding find_result
get_pnl intent_id l = pnl_in (find_result (min l.res_count l.res_cap) 0 intent_id l)

-- The loop of `get_win_rate`: wins, losses and timeouts.
unfoldable pub tally : ℕ → ℕ → Labeler → ℕ × ℕ × ℕ
tally zero i l = (0, 0, 0)
tally (suc n) i l =
    let r = get_or l.res ((l.res_head + l.res_cap - 1 - i) % l.res_cap) empty_result in
    let (w, b, t) = tally n (i + 1) l in
    if eqb_ℤ r.label (pos 1)
    then (w + 1, b, t)
    else if eqb_ℤ r.label (negsuc 0)
    then (w, b + 1, t)
    else (w, b, t + 1)

unfoldable pub get_win_rate : ℕ → Labeler → ℕ × ℕ × ℕ
unfolding tally
get_win_rate last_n l = tally (min last_n (min l.res_count l.res_cap)) 0 l
