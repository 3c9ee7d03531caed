-- ===== src/Barrier/History.antt =====
-- src/domain/triple_barrier.py: histories of calls on `TripleBarrierLabeler`.
use gektor.Base.{
  ℕ, zero, suc, ◌+◌, ◌≡◌, refl, sym, ℤ, Bool, true, false, ◌&&◌, ◌≤◌, leb, Option, none, some,
  is_some, List, [], ◌∷◌, map, if◌then◌else◌, ltb, arith, set, replicate, Bool-cases, inl, inr, All,
}
use gektor.Bars.{Engine}
use gektor.Barrier.{
  Slot, Labeler, new, empty_slot, empty_result, write_result, watch, resolution, row_of,
}
use gektor.Barrier.Steps.{
  resolve_slot, resolve_all, any_active, scan_barriers, on_bars_closed, first_free, elder, oldest,
  evict_slot, evict_oldest, occupy, register_intent,
}
use gektor.Barrier.Counts.{
  IsLabeler, active_count, register_intent-IsLabeler, scan_barriers-IsLabeler,
}
use gektor.Barrier.Lifts.{on_bars_closed-keeps}
use gektor.Barrier.Ids.{AllPlaced, one_if, open_of, rows_of, scan_barriers-AllPlaced}
use gektor.Barrier.Admission.{register_intent-AllPlaced, new-AllPlaced}
use gektor.Barrier.Outcomes.{
  IsIntent, IsFair, FairAt, opened-IsIntent, watch-IsIntent, resolution-FairAt,
}

module _ {A : Type 0} where
  All-set : (P : A → Type 0) (xs : List A) (i : ℕ) (v : A) → P v → All P xs → All P (set xs i v)
  All-set P [] i v p h = h
  All-set P (x ∷ xs) zero v p h = (p, h.1)
  All-set P (x ∷ xs) (suc i) v p h = (h.0, All-set P xs i v p h.1)

  All-replicate : (P : A → Type 0) (n : ℕ) (v : A) → P v → All P (replicate n v)
  All-replicate P zero v p = tt
  All-replicate P (suc n) v p = (p, All-replicate P n v p)

record AllFair (l : Labeler) : Type 0 where
  intents : All IsIntent l.slots
  results : All IsFair l.res

closed-IsIntent : (s : Slot) → IsIntent s → IsIntent (record s { active = false })
closed-IsIntent s k = record {
  long_sl = k.long_sl;
  long_tp = k.long_tp;
  short_sl = k.short_sl;
  short_tp = k.short_tp;
  high = k.high;
  low = k.low;
}

resolve_slot-Fair :
    (o : Option (ℤ × ℕ)) (i : ℕ) (s : Slot) (l : Labeler)
    → FairAt i s o
    → IsIntent s
    → All IsFair l.res
    → IsIntent (resolve_slot o i s l).0 × All IsFair (resolve_slot o i s l).1.res
unfolding resolve_slot write_result
resolve_slot-Fair none i s l f k h = (k, h)
resolve_slot-Fair (some r) i s l f k h =
    (closed-IsIntent s k, All-set IsFair l.res l.res_head (row_of i r s) f h)

resolve_all-Fair :
    (h w c i : ℕ) (slots : List Slot) (l : Labeler)
    → All IsIntent slots
    → All IsFair l.res
    → All IsIntent (resolve_all h w c i slots l).0 × All IsFair (resolve_all h w c i slots l).1.res
unfolding resolve_all
resolve_all-Fair h w c i [] l k f = (tt, f)
resolve_all-Fair h w c i (s ∷ rest) l k f =
    let o = resolution h w c i s in
    let (a, b) = resolve_slot-Fair o i s l (resolution-FairAt h w c i s k.0) k.0 f in
    let (x, y) = resolve_all-Fair h w c i rest (resolve_slot o i s l).1 k.1 b in ((a, x), y)

watched-IsIntent :
    (h w : ℕ) (slots : List Slot) → All IsIntent slots → All IsIntent (map (watch h w) slots)
watched-IsIntent h w [] k = tt
watched-IsIntent h w (s ∷ rest) k = (watch-IsIntent h w s k.0, watched-IsIntent h w rest k.1)

scan_barriers-AllFair : (h w c i : ℕ) (l : Labeler) → AllFair l → AllFair (scan_barriers h w c i l)
unfolding scan_barriers
scan_barriers-AllFair h w c i l k =
    let watched = map (watch h w) l.slots in
    let (a, b) =
      resolve_all-Fair h w c i watched l (watched-IsIntent h w l.slots k.intents) k.results in
    elim (Bool-cases (any_active l.slots)) [
      | inl e ↦ rw e (record { intents = a; results = b })
      | inr e ↦ rw e k
    ]

-- The slot to evict is one of the list.
abbrev Kept : Option (ℕ × Slot) → Type 0
Kept none = Unit
Kept (some (i, s)) = IsIntent s

either-Kept : (b : Bool) (x y : Option (ℕ × Slot)) → Kept x → Kept y → Kept (if b then x else y)
either-Kept true x y h k = h
either-Kept false x y h k = k

elder-Kept : (s : Slot) (r : Option (ℕ × Slot)) → IsIntent s → Kept r → Kept (elder s r)
elder-Kept s none k h = either-Kept s.active (some (0, s)) none k tt
elder-Kept s (some (i, t)) k h =
    either-Kept s.active _ (some (suc i, t))
      (either-Kept (ltb t.entry_bar s.entry_bar) (some (suc i, t)) (some (0, s)) h k) h

oldest-Kept : (slots : List Slot) → All IsIntent slots → Kept (oldest slots)
unfolding oldest
oldest-Kept [] k = tt
oldest-Kept (s ∷ rest) k = elder-Kept s (oldest rest) k.0 (oldest-Kept rest k.1)

evict_slot-AllFair :
    (o : Option (ℕ × Slot)) (n : ℕ) (l : Labeler) → Kept o → AllFair l → AllFair (evict_slot o n l)
unfolding evict_slot write_result
evict_slot-AllFair none n l h k = k
evict_slot-AllFair (some (i, s)) n l h k = record {
  intents =
      All-set IsIntent l.slots i (record s { active = false }) (closed-IsIntent s h) k.intents;
  results =
      All-set IsFair l.res l.res_head _
        (record { stopped = λ z. absurd (ground arith); taken = λ z. absurd (ground arith) })
        k.results;
}

occupy-AllFair :
    (o : Option ℕ) (price : ℕ) (side : ℤ) (tp sl bars n : ℕ) (l : Labeler)
    → AllFair l
    → AllFair (occupy o price side tp sl bars n l).0
unfolding occupy
occupy-AllFair none price side tp sl bars n l k = k
occupy-AllFair (some i) price side tp sl bars n l k = record {
  intents =
      All-set IsIntent l.slots i _ (opened-IsIntent l.next_id price side tp sl bars n) k.intents;
  results = k.results;
}

register_intent-AllFair :
    (price : ℕ) (side : ℤ) (tp sl bars n : ℕ) (l : Labeler)
    → AllFair l
    → AllFair (register_intent price side tp sl bars n l).0
unfolding register_intent evict_oldest
register_intent-AllFair price side tp sl bars n l k =
    elim (Bool-cases (is_some (first_free l.slots))) [
      | inl e ↦ rw e (occupy-AllFair (first_free l.slots) price side tp sl bars n l k)
      | inr e ↦
          let m = evict_slot (oldest l.slots) n l in
          rw e (
            occupy-AllFair (first_free m.slots) price side tp sl bars n m
              (evict_slot-AllFair (oldest l.slots) n l (oldest-Kept l.slots k.intents) k))
    ]

-- The calls of a labeler.
pub data Call : Type 0 where
  register : ℕ → ℤ → ℕ → ℕ → ℕ → ℕ → Call
  bars : ℕ → ℕ → Engine → Call

unfoldable pub step : Call → Labeler → Labeler
unfolding register_intent on_bars_closed
step (Call.register price side tp sl max_bars n) l =
    (register_intent price side tp sl max_bars n l).0
step (Call.bars n i e) l = on_bars_closed n i e l

unfoldable pub run : List Call → Labeler → Labeler
run [] l = l
run (c ∷ cs) l = run cs (step c l)

record Sound (l : Labeler) : Type 0 where
  labels : IsLabeler l
  fair : AllFair l
  placed : AllPlaced l

step-Sound : (c : Call) (l : Labeler) → Sound l → Sound (step c l)
unfolding step
step-Sound (Call.register price side tp sl max_bars n) l k = record {
  labels = register_intent-IsLabeler price side tp sl max_bars n l k.labels;
  fair = register_intent-AllFair price side tp sl max_bars n l k.fair;
  placed = register_intent-AllPlaced price side tp sl max_bars n l k.placed;
}
step-Sound (Call.bars n i e) l k = record {
  labels = on_bars_closed-keeps IsLabeler scan_barriers-IsLabeler n i e l k.labels;
  fair = on_bars_closed-keeps AllFair scan_barriers-AllFair n i e l k.fair;
  placed = on_bars_closed-keeps AllPlaced scan_barriers-AllPlaced n i e l k.placed;
}

run-Sound : (cs : List Call) (l : Labeler) → Sound l → Sound (run cs l)
unfolding run
run-Sound [] l k = k
run-Sound (c ∷ cs) l k = run-Sound cs (step c l) (step-Sound c l k)

idle-count : (n : ℕ) → active_count (replicate n empty_slot) ≡ 0
unfolding active_count
idle-count zero = refl
idle-count (suc n) = omega (arith, idle-count n)

new-Sound : (max_open capacity : ℕ) → Sound (new max_open capacity)
unfolding new
new-Sound max_open capacity = record {
  labels = record { counted = sym (idle-count max_open); settled = refl };
  placed = new-AllPlaced max_open capacity;
  fair = record {
    intents = All-replicate IsIntent max_open empty_slot (record {
      long_sl = λ z. absurd (ground arith);
      long_tp = λ z. absurd (ground arith);
      short_sl = λ z. omega arith;
      short_tp = λ z. omega arith;
      high = omega arith;
      low = omega arith;
    });
    results =
        All-replicate IsFair capacity empty_result
          (record { stopped = λ z. absurd (ground arith); taken = λ z. absurd (ground arith) });
  };
}

-- Over every history of a new labeler, of intents that are registered and bars that are closed by
-- whatever engine: an id that was given out stands in exactly one active slot or one of the rows written
-- to the results, as long as no more rows were written than the results hold, and afterwards in at most
-- one; an id that was not given out stands in none. The number of open intents is that of the active
-- slots, and with the number of rows written it is the number of ids. No result hallucinates a win: a
-- stop-loss never shows a gain and a take-profit never a loss.
pub results-IsFair :
    (cs : List Call) (max_open capacity iid : ℕ)
    → let l = run cs (new max_open capacity) in
      let places = open_of iid l.slots + rows_of iid l.res_count l.res in
      (one_if (ltb iid l.next_id && leb l.res_count l.res_cap) ≤ places)
      × (places ≤ one_if (ltb iid l.next_id))
      × (l.open_count ≡ active_count l.slots)
      × (l.next_id ≡ l.open_count + l.res_count)
      × All IsFair l.res
results-IsFair cs max_open capacity iid =
    let k = run-Sound cs (new max_open capacity) (new-Sound max_open capacity) in
    let p = k.placed iid in (p.kept, p.once, k.labels.counted, k.labels.settled, k.fair.results)
