-- ===== src/Barrier/Examples.antt =====
-- An intent that a bar stops, and the instances of the theorems.
use gektor.Base.{◌+◌, ◌≤◌, ◌&&◌, ltb, leb, ◌≡◌, refl, pos, negsuc, some, List, [], ◌∷◌, All}
use gektor.Barrier.{
  Slot, Result, Labeler, empty_result, write_result, watch, resolution, hits_sl, hits_tp, hits_vb,
  pnl_of, gain_bps, mfe_of, mae_of,
}
use gektor.Barrier
use gektor.Barrier.Steps.{
  resolve_slot, resolve_all, any_active, scan_barriers, first_free, opened, evict_oldest,
  evict_slot, oldest, occupy, register_intent, find_result, get_label, get_pnl, tally, get_win_rate,
}
use gektor.Barrier.Counts.{active_count}
use gektor.Barrier.Ids.{one_if, open_of, rows_of}
use gektor.Barrier.Outcomes.{IsFair, Untouched, scan_barriers-Untouched}
use gektor.Barrier.History.{Call, step, run, results-IsFair}

-- A long intent at 1000, 1 % up and down, for 5 bars.
abbrev opening : List Call
opening = Call.register 1000 (pos 1) 100 100 5 0 ∷ []

one_open : (run opening (Barrier.new 2 4)).open_count ≡ 1
unfolding run step register_intent occupy first_free opened Barrier.new
one_open = refl

-- A bar that touches both barriers is a loss, at the low of the bar.
collision :
    (get_label 0 (scan_barriers 1020 980 1000 0 (run opening (Barrier.new 2 4))) ≡ some (negsuc 0))
    × (get_pnl 0 (scan_barriers 1020 980 1000 0 (run opening (Barrier.new 2 4)))
        ≡ some (negsuc 199))
    × (get_win_rate 10 (scan_barriers 1020 980 1000 0 (run opening (Barrier.new 2 4))) ≡ (0, 1, 0))
unfolding get_label get_pnl get_win_rate tally find_result scan_barriers resolve_all resolve_slot
    resolution hits_sl hits_tp hits_vb write_result watch any_active run step register_intent occupy
    first_free opened Barrier.new pnl_of gain_bps
collision = (refl, refl, refl)

scan_barriers-Untouched_example :
    All (Untouched 1020 980 0) (scan_barriers 1020 980 1000 0 (run opening (Barrier.new 2 4))).slots
scan_barriers-Untouched_example =
    scan_barriers-Untouched 1020 980 1000 0 (run opening (Barrier.new 2 4))

-- Three intents in two slots: the third one evicts the first.
abbrev crowded : List Call
crowded =
    Call.register 1000 (pos 1) 100 100 5 0
    ∷ Call.register 1000 (pos 1) 100 100 5 1
    ∷ Call.register 1000 (negsuc 0) 100 100 5 2
    ∷ []

first_evicted :
    let l = run crowded (Barrier.new 2 4) in
    (open_of 0 l.slots ≡ 0) × (rows_of 0 l.res_count l.res ≡ 1) × (open_of 2 l.slots ≡ 1)
unfolding open_of rows_of run step register_intent occupy first_free opened Barrier.new evict_oldest
    evict_slot oldest write_result
first_evicted = (refl, refl, refl)

results-IsFair_example :
    let l = run crowded (Barrier.new 2 4) in
    let places = open_of 0 l.slots + rows_of 0 l.res_count l.res in
    (one_if (ltb 0 l.next_id && leb l.res_count l.res_cap) ≤ places)
    × (places ≤ one_if (ltb 0 l.next_id))
    × (l.open_count ≡ active_count l.slots)
    × (l.next_id ≡ l.open_count + l.res_count)
    × All IsFair l.res
results-IsFair_example = results-IsFair crowded 2 4 0
