-- ===== src/Liquidity/Spacing.antt =====
-- src/domain/liquidity_detectors.py: what is asked of a detector so that its alerts of one symbol
-- are a cooldown apart.
use gektor.Base.{
  ◌≡◌, false, Option, none, some, List, [], ◌∷◌, String, str_eq, eq_iff, if◌then◌else◌, Bool-cases,
  inl, inr, Float,
}
use gektor.Base.Dicts.{Dict, lookup, insert, lookup-insert}
use gektor.Liquidity.Alerts.{LiquidityAlert, Tick, cooling}

module _ {R : Type 0} ⦃f : Float R⦄ where
  -- One tick leaves the times of the last alerts alone, or it raises an alert for the tick, which is out
  -- of the cooldown, and notes its time.
  abbrev pub Quiet : R → Tick R → Dict R → Dict R → Option (LiquidityAlert R) → Type 0
  Quiet cooldown t last next none = next ≡ last
  Quiet cooldown t last next (some a) =
      (a.symbol ≡ t.symbol)
      × (a.timestamp ≡ t.ts)
      × (cooling (lookup t.symbol last) t.ts cooldown ≡ false)
      × (next ≡ insert t.symbol t.ts last)

  abbrev pub of_symbol :
      String → Option (LiquidityAlert R) → List (LiquidityAlert R) → List (LiquidityAlert R)
  of_symbol symbol none later = later
  of_symbol symbol (some a) later = if str_eq a.symbol symbol then a ∷ later else later

  -- Each alert is out of the cooldown of the one before.
  abbrev pub Spaced : R → Option R → List (LiquidityAlert R) → Type 0
  Spaced cooldown before [] = Unit
  Spaced cooldown before (a ∷ rest) =
      (cooling before a.timestamp cooldown ≡ false) × Spaced cooldown (some a.timestamp) rest

  of_symbol-Spaced :
      (symbol : String) (cooldown : R) (t : Tick R) (last next : Dict R)
      (o : Option (LiquidityAlert R)) (later : List (LiquidityAlert R))
      → Quiet cooldown t last next o
      → Spaced cooldown (lookup symbol next) later
      → Spaced cooldown (lookup symbol last) (of_symbol symbol o later)
  of_symbol-Spaced symbol cooldown t last next none later q h = rw (← q) h
  of_symbol-Spaced symbol cooldown t last next (some a) later (s, w, c, e) h =
      elim (Bool-cases (str_eq t.symbol symbol)) [
        | inl y ↦
            let same : t.symbol ≡ symbol = (eq_iff t.symbol symbol).0 y in
            let l : lookup symbol next ≡ some a.timestamp =
              rw (e, lookup-insert t.symbol symbol t.ts last, y, w) in
            rw (s, y) (rw (w, ← same) c, rw l at h)
        | inr y ↦
            let l : lookup symbol next ≡ lookup symbol last =
              rw (e, lookup-insert t.symbol symbol t.ts last, y) in
            rw (s, y) (rw l at h)
      ]

-- A detector as its clients see it.
pub record Detector (R : Type 0) ⦃f : Float R⦄ (D : Type 0) : Type 0 where
  pub process : Tick R → D → D × Option (LiquidityAlert R)
  pub last : D → Dict R
  pub cooldown : D → R
  pub steady : (t : Tick R) (d : D) → cooldown (process t d).0 ≡ cooldown d
  pub quiet :
      (t : Tick R) (d : D) → Quiet (cooldown d) t (last d) (last (process t d).0) (process t d).1

module _ {R : Type 0} ⦃f : Float R⦄ {D : Type 0} (det : Detector R D) where
  unfoldable pub alerts_of : String → List (Tick R) → D → List (LiquidityAlert R)
  alerts_of symbol [] d = []
  alerts_of symbol (t ∷ ts) d =
      of_symbol symbol (det.process t d).1 (alerts_of symbol ts (det.process t d).0)

  -- Over every run of ticks, the alerts of a symbol keep the cooldown.
  pub alerts-Spaced :
      (symbol : String) (ts : List (Tick R)) (d : D)
      → Spaced (det.cooldown d) (lookup symbol (det.last d)) (alerts_of symbol ts d)
  unfolding alerts_of
  alerts-Spaced symbol [] d = tt
  alerts-Spaced symbol (t ∷ ts) d =
      of_symbol-Spaced symbol (det.cooldown d) t (det.last d) (det.last (det.process t d).0)
        (det.process t d).1 (alerts_of symbol ts (det.process t d).0) (det.quiet t d)
        (rw (← det.steady t d) (alerts-Spaced symbol ts (det.process t d).0))
