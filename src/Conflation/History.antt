-- ===== src/Conflation/History.antt =====
-- src/domain/conflation.py: histories of ticks and resyncs.
use gektor.Base.{
  ◌≡◌, refl, ap, Bool, true, Option, none, some, List, [], ◌∷◌, ◌++◌, String, str_eq, eq_iff,
  if◌then◌else◌, Bool-cases, inl, inr, Float, ◌≼◌, nought,
}
use mathlib.Core.Option.{some-injective}
use gektor.Base.Dicts.{
  lookup, insert, IsDict, lookup-insert, lookup-erase, insert-IsDict, erase-IsDict,
}
use gektor.Conflation.{
  DollarBar, BarTick, Provided, DollarBarEngine, new, threshold_for, bar_or, touched, handle_resync,
  process_tick,
}
use gektor.Conflation.Summary.{bar_of, usd, sum_of, touched-bar_of}

pub data Event (R : Type 0) : Type 0 where
  tick : BarTick R → Provided R → Event R
  resync : Event R

module _ {R : Type 0} ⦃f : Float R⦄ where
  unfoldable pub run : List (Event R) → DollarBarEngine R → DollarBarEngine R
  unfolding process_tick handle_resync
  run [] e = e
  run (tick t provided ∷ es) e = run es (process_tick t provided e).0
  run (resync ∷ es) e = run es (handle_resync e)

  -- The ticks reach the threshold.
  abbrev pub is_full : R → Provided R → List (BarTick R) → Bool
  is_full threshold provided ts = threshold_for threshold provided ≼ sum_of usd nought ts

  -- The ticks of the symbol since the last resync and the last tick that made the threshold.
  abbrev pub since_bar : String → R → List (Event R) → List (BarTick R) → List (BarTick R)
  since_bar s threshold [] ts = ts
  since_bar s threshold (tick t provided ∷ es) ts =
      let more = ts ++ (t ∷ []) in
      since_bar s threshold es
        (if str_eq t.symbol s then (if is_full threshold provided more then [] else more) else ts)
  since_bar s threshold (resync ∷ es) ts = since_bar s threshold es []

  -- The open bar of the symbol is that of the ticks.
  record Holds (s : String) (threshold : R) (ts : List (BarTick R)) (e : DollarBarEngine R)
      : Type 0 where
    base : e.threshold_usd ≡ threshold
    distinct : IsDict e.current_bars
    bar : lookup s e.current_bars ≡ bar_of ts

  -- The bar of an engine's tick, and whether it is full.
  abbrev next_bar : BarTick R → DollarBarEngine R → DollarBar R
  next_bar t e = touched t (bar_or (lookup t.symbol e.current_bars) t)

  next-lem :
      (t : BarTick R) (ts : List (BarTick R)) (e : DollarBarEngine R)
      → lookup t.symbol e.current_bars ≡ bar_of ts
      → some (next_bar t e) ≡ bar_of (ts ++ (t ∷ []))
  next-lem t ts e h = rw h (touched-bar_of t ts)

  bar-volume :
      (b : DollarBar R) (ts : List (BarTick R))
      → some b ≡ bar_of ts
      → b.volume_usd ≡ sum_of usd nought ts
  bar-volume b [] h = absurd (cc)
  bar-volume b (t ∷ ts) h = ap (λ (c : DollarBar R). c.volume_usd) (some-injective b _ h)

  tick-Holds :
      (s : String) (threshold : R) (ts : List (BarTick R)) (t : BarTick R) (provided : Provided R)
      (e : DollarBarEngine R)
      → Holds s threshold ts e
      → Holds s threshold
          (if str_eq t.symbol s
            then (if is_full threshold provided (ts ++ (t ∷ [])) then [] else ts ++ (t ∷ []))
            else ts)
          (process_tick t provided e).0
  unfolding process_tick
  tick-Holds s threshold ts t provided e h =
      let full = threshold_for e.threshold_usd provided ≼ (next_bar t e).volume_usd in
      let bars = insert t.symbol (next_bar t e) e.current_bars in
      let d = insert-IsDict t.symbol (next_bar t e) e.current_bars h.distinct in
      elim (Bool-cases (str_eq t.symbol s)) [
        | inl same ↦
            let z : t.symbol ≡ s = (eq_iff t.symbol s).0 same in
            let b = next-lem t ts e (rw z h.bar) in
            let v = bar-volume (next_bar t e) (ts ++ (t ∷ [])) b in
            let w : is_full threshold provided (ts ++ (t ∷ [])) ≡ full = rw (← h.base, ← v) refl in
            elim (Bool-cases full) [
              | inl y ↦
                  rw (same, w, y)
                    (record {
                      base = h.base;
                      distinct = erase-IsDict t.symbol bars d;
                      bar = rw (lookup-erase t.symbol s bars d, same) refl;
                    })
              | inr y ↦
                  rw (same, w, y)
                    (record {
                      base = h.base;
                      distinct = d;
                      bar = rw (lookup-insert t.symbol s (next_bar t e) e.current_bars, same) b;
                    })
            ]
        | inr other ↦ elim (Bool-cases full) [
          | inl y ↦
              rw (other, y)
                (record {
                  base = h.base;
                  distinct = erase-IsDict t.symbol bars d;
                  bar =
                      rw
                        (
                          lookup-erase t.symbol s bars d,
                          other,
                          lookup-insert t.symbol s (next_bar t e) e.current_bars,
                          other,
                        )
                        h.bar;
                })
          | inr y ↦
              rw (other, y)
                (record {
                  base = h.base;
                  distinct = d;
                  bar = rw (lookup-insert t.symbol s (next_bar t e) e.current_bars, other) h.bar;
                })
        ]
      ]

  run-Holds :
      (s : String) (threshold : R) (es : List (Event R)) (ts : List (BarTick R))
      (e : DollarBarEngine R)
      → Holds s threshold ts e
      → Holds s threshold (since_bar s threshold es ts) (run es e)
  unfolding run handle_resync lookup
  run-Holds s threshold [] ts e h = h
  run-Holds s threshold (tick t provided ∷ es) ts e h =
      run-Holds s threshold es _ (process_tick t provided e).0
        (tick-Holds s threshold ts t provided e h)
  run-Holds s threshold (resync ∷ es) ts e h =
      run-Holds s threshold es [] (handle_resync e)
        (record { base = h.base; distinct = tt; bar = refl })

  built-Holds :
      (s : String) (threshold : R) (e : DollarBarEngine R)
      → new threshold ≡ some e
      → Holds s threshold [] e
  unfolding new lookup
  built-Holds s threshold e h = elim (Bool-cases (threshold ≼ nought)) [
    | inl y ↦ absurd (let z = rw y at h in cc)
    | inr y ↦
        let z = some-injective _ e (rw y at h) in
        rw (← z) (record { base = refl; distinct = tt; bar = refl })
  ]

  -- The bar with the time of its last tick.
  abbrev pub closed_at : R → Option (DollarBar R) → Option (DollarBar R)
  closed_at now none = none
  closed_at now (some bar) = some (record bar { end_ts = now })

  tick-closes :
      (threshold : R) (ts : List (BarTick R)) (t : BarTick R) (provided : Provided R)
      (e : DollarBarEngine R)
      → Holds t.symbol threshold ts e
      → (process_tick t provided e).1 ≡ (
          if is_full threshold provided (ts ++ (t ∷ []))
          then closed_at t.exchange_ts (bar_of (ts ++ (t ∷ [])))
          else none)
  unfolding process_tick
  tick-closes threshold ts t provided e h =
      let full = threshold_for e.threshold_usd provided ≼ (next_bar t e).volume_usd in
      let b = next-lem t ts e h.bar in
      let v = bar-volume (next_bar t e) (ts ++ (t ∷ [])) b in
      let w : is_full threshold provided (ts ++ (t ∷ [])) ≡ full = rw (← h.base, ← v) refl in
      elim (Bool-cases full) [ inl y ↦ rw (w, y, ← b) refl | inr y ↦ rw (w, y) refl ]

  open-after :
      (threshold : R) (ts : List (BarTick R)) (t : BarTick R) (provided : Provided R)
      (e : DollarBarEngine R)
      → Holds t.symbol threshold ts e
      → lookup t.symbol (process_tick t provided e).0.current_bars
        ≡ (if is_full threshold provided (ts ++ (t ∷ [])) then none else bar_of (ts ++ (t ∷ [])))
  open-after threshold ts t provided e h =
      let same : str_eq t.symbol t.symbol ≡ true = (eq_iff t.symbol t.symbol).1 refl in
      let k = (tick-Holds t.symbol threshold ts t provided e h).bar in
      let full = is_full threshold provided (ts ++ (t ∷ [])) in
      let z = rw same at k in
      elim (Bool-cases full) [ inl y ↦ rw y (rw y at z) | inr y ↦ rw y (rw y at z) ]

  -- Over every history of a new engine, whatever its provider answers: a tick closes a bar exactly if
  -- the ticks of its symbol since the last bar or resync, with this one, reach the threshold; that bar
  -- is the summary of these ticks, and else the symbol's open bar is the summary of them.
  pub process_tick_lem :
      (threshold : R) (es : List (Event R)) (t : BarTick R) (provided : Provided R)
      (e : DollarBarEngine R)
      → new threshold ≡ some e
      → let ts = since_bar t.symbol threshold es [] ++ (t ∷ []) in
        let (after, bar) = process_tick t provided (run es e) in
        let full = is_full threshold provided ts in
        (bar ≡ (if full then closed_at t.exchange_ts (bar_of ts) else none))
        × (lookup t.symbol after.current_bars ≡ (if full then none else bar_of ts))
  process_tick_lem threshold es t provided e h =
      let ts = since_bar t.symbol threshold es [] in
      let k = run-Holds t.symbol threshold es [] e (built-Holds t.symbol threshold e h) in
      (
        tick-closes threshold ts t provided (run es e) k,
        open-after threshold ts t provided (run es e) k,
      )
