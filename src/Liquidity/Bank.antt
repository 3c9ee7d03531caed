-- ===== src/Liquidity/Bank.antt =====
-- src/domain/liquidity_detectors.py: `LiquidityDetectorBank`.
use gektor.Base.{
  Bool, ◌||◌, Option, none, some, is_some, List, [], ◌∷◌, ◌++◌, String, if◌then◌else◌, Float,
}
use gektor.Liquidity.Alerts.{LiquidityAlert, Tick}
use gektor.Liquidity.Sweep.{SweepDetector}
use gektor.Liquidity.Print.{LargePrintDetector}
use gektor.Liquidity.Pulse.{PulseDetector}
use gektor.Liquidity.Sweep
use gektor.Liquidity.Print
use gektor.Liquidity.Pulse

pub record Bank (R : Type 0) : Type 0 where
  pub sweep : Option (SweepDetector R)
  pub large_print : Option (LargePrintDetector R)
  pub ofi_pulse : Option (PulseDetector R)

module _ {A : Type 0} where
  abbrev pub listed : Option A → List A
  listed none = []
  listed (some a) = a ∷ []

module _ {D A : Type 0} where
  -- What a tick does to a detector that may be missing.
  abbrev pub offer : (D → D × Option A) → Option D → Option D × List A
  offer process none = (none, [])
  offer process (some d) = (some (process d).0, listed (process d).1)

module _ {R : Type 0} ⦃f : Float R⦄ where
  unfoldable pub is_enabled : Bank R → Bool
  is_enabled b = is_some b.sweep || is_some b.large_print || is_some b.ofi_pulse

  unfoldable pub process_tick :
      (String → R) → R → (R → R → R) → R → Tick R → Bank R → Bank R × List (LiquidityAlert R)
  process_tick turnover nan modulo infinity t b =
      let (s, a1) = offer (Sweep.process_tick t) b.sweep in
      let (p, a2) = offer (Print.process_tick nan turnover t) b.large_print in
      let (o, a3) = offer (Pulse.process_tick modulo infinity t) b.ofi_pulse in
      if is_enabled b
      then (record { sweep = s; large_print = p; ofi_pulse = o }, a1 ++ (a2 ++ a3))
      else (b, [])

  -- A run of ticks, with the alerts in order.
  unfoldable pub run :
      (String → R) → R → (R → R → R) → R → List (Tick R) → Bank R → Bank R × List (LiquidityAlert R)
  run turnover nan modulo infinity [] b = (b, [])
  run turnover nan modulo infinity (t ∷ ts) b =
      let (c, alerts) = process_tick turnover nan modulo infinity t b in
      let (e, later) = run turnover nan modulo infinity ts c in (e, alerts ++ later)
