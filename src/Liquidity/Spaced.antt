-- ===== src/Liquidity/Spaced.antt =====
-- src/domain/liquidity_detectors.py: the three detectors as instances of `Spacing`.
use gektor.Base.{
  ◌≡◌, refl, false, ◌&&◌, Option, none, some, List, String, Bool-cases, inl, inr, Float, ◌≺◌, ◌≼◌,
  leb, ◌⊗◌, ℕ,
}
use gektor.Base.Dicts.{lookup, insert}
use gektor.Liquidity.Alerts.{Tick, cooling}
use gektor.Liquidity.Spacing.{Quiet, Detector, Spaced, alerts_of, alerts-Spaced}
use gektor.Liquidity.Sweep.{SweepDetector, SweepState, accumulate, is_stale, grown}
use gektor.Liquidity.Print.{LargePrintDetector, large_share, print_alert}
use gektor.Liquidity.Pulse.{PulseDetector, Bucket, pulse_of, pulse_alert, with_trade}
use gektor.Liquidity.Sweep
use gektor.Liquidity.Print
use gektor.Liquidity.Pulse

module _ {R : Type 0} ⦃f : Float R⦄ where
  accumulate-Quiet :
      (o : Option (SweepState R)) (t : Tick R) (d : SweepDetector R)
      → cooling (lookup t.symbol d.last_alert_ts) t.ts d.cooldown_sec ≡ false
      → Quiet d.cooldown_sec t d.last_alert_ts
          (accumulate o t d).0.last_alert_ts
          (accumulate o t d).1
        × ((accumulate o t d).0.cooldown_sec ≡ d.cooldown_sec)
  unfolding accumulate
  accumulate-Quiet none t d h = (refl, refl)
  accumulate-Quiet (some st) t d h = elim (Bool-cases (is_stale t d.window_sec (some st))) [
    | inl e ↦ rw e (refl, refl)
    | inr e ↦
        elim (Bool-cases
          (leb d.min_trades (grown t st).count && d.min_notional_usd ≼ (grown t st).notional_usd)) [
            | inl y ↦ rw (e, y) ((refl, refl, h, refl), refl)
            | inr y ↦ rw (e, y) (refl, refl)
          ]
  ]

  print-Quiet :
      (o : Option R) (turnover : R) (t : Tick R) (d : LargePrintDetector R)
      → cooling (lookup t.symbol d.last_alert_ts) t.ts d.cooldown_sec ≡ false
      → Quiet d.cooldown_sec t d.last_alert_ts
          (print_alert o turnover t d).0.last_alert_ts
          (print_alert o turnover t d).1
        × ((print_alert o turnover t d).0.cooldown_sec ≡ d.cooldown_sec)
  unfolding print_alert
  print-Quiet none turnover t d h = (refl, refl)
  print-Quiet (some pct) turnover t d h = ((refl, refl, h, refl), refl)

  pulse-Quiet :
      (o : Option (R × R × R × ℕ)) (t : Tick R) (d : PulseDetector R)
      → Quiet d.cooldown_sec t d.last_alert_ts
          (pulse_alert o t d).0.last_alert_ts
          (pulse_alert o t d).1
        × ((pulse_alert o t d).0.cooldown_sec ≡ d.cooldown_sec)
  unfolding pulse_alert
  pulse-Quiet none t d = (refl, refl)
  pulse-Quiet (some (o, r, m, n)) t d =
      elim (Bool-cases (cooling (lookup t.symbol d.last_alert_ts) t.ts d.cooldown_sec)) [
        | inl e ↦ rw e (refl, refl)
        | inr e ↦ rw e ((refl, refl, e, refl), refl)
      ]

  pub sweep-Quiet :
      (t : Tick R) (d : SweepDetector R)
      → Quiet d.cooldown_sec t d.last_alert_ts
          (Sweep.process_tick t d).0.last_alert_ts
          (Sweep.process_tick t d).1
        × ((Sweep.process_tick t d).0.cooldown_sec ≡ d.cooldown_sec)
  unfolding Sweep.process_tick
  sweep-Quiet t d =
      elim (Bool-cases (cooling (lookup t.symbol d.last_alert_ts) t.ts d.cooldown_sec)) [
        | inl e ↦ rw e (refl, refl)
        | inr e ↦ rw e (accumulate-Quiet (lookup t.symbol d.states) t d e)
      ]

  pub print_tick-Quiet :
      (nan : R) (turnover : String → R) (t : Tick R) (d : LargePrintDetector R)
      → let (e, o) = Print.process_tick nan turnover t d in
        Quiet d.cooldown_sec t d.last_alert_ts e.last_alert_ts o × (e.cooldown_sec ≡ d.cooldown_sec)
  unfolding Print.process_tick
  print_tick-Quiet nan turnover t d = elim (Bool-cases (t.price ⊗ t.size ≺ d.min_notional_usd)) [
    | inl e ↦ rw e (refl, refl)
    | inr e ↦ elim (Bool-cases (cooling (lookup t.symbol d.last_alert_ts) t.ts d.cooldown_sec)) [
      | inl y ↦ rw (e, y) (refl, refl)
      | inr y ↦
          rw (e, y)
            (print-Quiet (large_share nan (turnover t.symbol) (t.price ⊗ t.size) d)
              (turnover t.symbol) t d y)
    ]
  ]

  pub pulse_tick-Quiet :
      (modulo : R → R → R) (infinity : R) (t : Tick R) (d : PulseDetector R)
      → let (e, o) = Pulse.process_tick modulo infinity t d in
        Quiet d.cooldown_sec t d.last_alert_ts e.last_alert_ts o × (e.cooldown_sec ≡ d.cooldown_sec)
  unfolding Pulse.process_tick
  pulse_tick-Quiet modulo infinity t d =
      let bq = with_trade modulo t d in
      pulse-Quiet (pulse_of infinity bq d) t (record d { buckets = insert t.symbol bq d.buckets })

  abbrev pub sweeps : Detector R (SweepDetector R)
  sweeps = record {
    process = Sweep.process_tick;
    last = λ d. d.last_alert_ts;
    cooldown = λ d. d.cooldown_sec;
    steady = λ t d. (sweep-Quiet t d).1;
    quiet = λ t d. (sweep-Quiet t d).0;
  }

  abbrev pub prints : R → (String → R) → Detector R (LargePrintDetector R)
  prints nan turnover = record {
    process = Print.process_tick nan turnover;
    last = λ d. d.last_alert_ts;
    cooldown = λ d. d.cooldown_sec;
    steady = λ t d. (print_tick-Quiet nan turnover t d).1;
    quiet = λ t d. (print_tick-Quiet nan turnover t d).0;
  }

  abbrev pub pulses : (R → R → R) → R → Detector R (PulseDetector R)
  pulses modulo infinity = record {
    process = Pulse.process_tick modulo infinity;
    last = λ d. d.last_alert_ts;
    cooldown = λ d. d.cooldown_sec;
    steady = λ t d. (pulse_tick-Quiet modulo infinity t d).1;
    quiet = λ t d. (pulse_tick-Quiet modulo infinity t d).0;
  }

  -- Over every run of ticks, whatever their times, no detector raises an alert for a symbol that is less
  -- than its cooldown after its previous alert for that symbol, also where that one came before the run.
  pub alerts_apart :
      (symbol : String) (ts : List (Tick R)) (nan infinity : R) (turnover : String → R)
      (modulo : R → R → R) (s : SweepDetector R) (p : LargePrintDetector R) (o : PulseDetector R)
      → Spaced s.cooldown_sec (lookup symbol s.last_alert_ts) (alerts_of sweeps symbol ts s)
        × Spaced p.cooldown_sec
            (lookup symbol p.last_alert_ts)
            (alerts_of (prints nan turnover) symbol ts p)
        × Spaced o.cooldown_sec
            (lookup symbol o.last_alert_ts)
            (alerts_of (pulses modulo infinity) symbol ts o)
  alerts_apart symbol ts nan infinity turnover modulo s p o = (
    alerts-Spaced sweeps symbol ts s,
    alerts-Spaced (prints nan turnover) symbol ts p,
    alerts-Spaced (pulses modulo infinity) symbol ts o,
  )
