-- ===== src/Liquidity/Sweep/Alarms.antt =====
-- src/domain/liquidity_detectors.py: the alerts of `SweepDetector` over its histories.
use gektor.Base.{
  ℕ, ◌+◌, ◌≤◌, ◌≡◌, refl, sym, ◌∙◌, subst, true, false, ◌&&◌, Option, none, some, List, [], ◌∷◌,
  ◌++◌, String, str_eq, eq_iff, Bool-cases, inl, inr, leb, arith, Float, ◌⊖◌, ◌≼◌,
}
use mathlib.Core.List.{append_assoc, append-nil}
use gektor.Base.Dicts.{
  Dict, lookup, insert, erase, IsDict, lookup-insert, lookup-erase, insert-IsDict, erase-IsDict,
}
use gektor.Liquidity.Alerts.{
  Direction, same_direction, Extra, LiquidityAlert, Tick, aggressor, cooling,
}
use gektor.Liquidity.Sweep.{
  SweepState, SweepDetector, is_stale, started, grown, accumulate, process_tick, new,
}
use gektor.Liquidity.Sweep.Runs.{IsRun, Joins, keeps-IsRun, starts-IsRun, grows-IsRun}
use mathlib.Core.Option.{some-injective}

same_direction_eq : (a b : Direction) → same_direction a b ≡ true → a ≡ b
same_direction_eq Direction.buy Direction.buy h = refl
same_direction_eq Direction.buy Direction.sell h = absurd (cc)
same_direction_eq Direction.sell Direction.buy h = absurd (cc)
same_direction_eq Direction.sell Direction.sell h = refl

module _ {R : Type 0} ⦃f : Float R⦄ where
  abbrev pub Sums : R → List (Tick R) → String → SweepState R → Type 0
  Sums window history symbol st =
      IsRun history window symbol st.direction st.notional_usd st.count st.first_ts

  record Tracks (window : R) (history : List (Tick R)) (states : Dict (SweepState R)) : Type 0 where
    once : IsDict states
    sums :
        (symbol : String) (st : SweepState R)
        → lookup symbol states ≡ some st
        → Sums window history symbol st

  module _ (window : R) (history : List (Tick R)) (t : Tick R) where
    insert-Tracks :
        (states : Dict (SweepState R)) (s : SweepState R)
        → Tracks window history states
        → Sums window (history ++ (t ∷ [])) t.symbol s
        → Tracks window (history ++ (t ∷ [])) (insert t.symbol s states)
    insert-Tracks states s h n = record {
      once = insert-IsDict t.symbol s states h.once;
      sums = λ symbol st e. elim (Bool-cases (str_eq t.symbol symbol)) [
        | inl y ↦
            let k : t.symbol ≡ symbol = (eq_iff t.symbol symbol).0 y in
            let v : s ≡ st =
              some-injective s st (rw (lookup-insert t.symbol symbol s states, y) at e) in
            subst (λ (x : SweepState R). Sums window (history ++ (t ∷ [])) symbol x) v
              (subst (λ (x : String). Sums window (history ++ (t ∷ [])) x s) k n)
        | inr y ↦
            keeps-IsRun history t window symbol st.direction st.notional_usd st.count st.first_ts y
              (h.sums symbol st (rw (lookup-insert t.symbol symbol s states, y) at e))
      ];
    }

    erase-Tracks :
        (states : Dict (SweepState R))
        → Tracks window history states
        → Tracks window (history ++ (t ∷ [])) (erase t.symbol states)
    erase-Tracks states h = record {
      once = erase-IsDict t.symbol states h.once;
      sums = λ symbol st e. elim (Bool-cases (str_eq t.symbol symbol)) [
        | inl y ↦ absurd (let z = rw (lookup-erase t.symbol symbol states h.once, y) at e in cc)
        | inr y ↦
            keeps-IsRun history t window symbol st.direction st.notional_usd st.count st.first_ts y
              (h.sums symbol st (rw (lookup-erase t.symbol symbol states h.once, y) at e))
      ];
    }

  -- What an alert says of the history that ends in its tick.
  abbrev pub Justified : SweepDetector R → List (Tick R) → Option (LiquidityAlert R) → Type 0
  Justified d history none = Unit
  Justified d history (some a) =
      (n : ℕ) × (first : R) × (a.extra
        ≡ Extra.swept n (a.timestamp ⊖ first) d.min_trades d.min_notional_usd)
      × (d.min_trades ≤ n)
      × (d.min_notional_usd ≼ a.notional_usd ≡ true)
      × IsRun history d.window_sec a.symbol a.direction a.notional_usd n first

  record Sound (d : SweepDetector R) (history : List (Tick R)) (e : SweepDetector R)
      (o : Option (LiquidityAlert R)) : Type 0 where
    tracks : Tracks d.window_sec history e.states
    same_trades : e.min_trades ≡ d.min_trades
    same_window : e.window_sec ≡ d.window_sec
    same_notional : e.min_notional_usd ≡ d.min_notional_usd
    justified : Justified d history o

  fresh-Joins :
      (t : Tick R) (window : R) (st : SweepState R)
      → is_stale t window (some st) ≡ false
      → Joins st.direction st.first_ts window t
  fresh-Joins t window st h = ground arith

  accumulate-Sound :
      (o : Option (SweepState R)) (t : Tick R) (d : SweepDetector R) (history : List (Tick R))
      → lookup t.symbol d.states ≡ o
      → Tracks d.window_sec history d.states
      → Sound d (history ++ (t ∷ [])) (accumulate o t d).0 (accumulate o t d).1
  unfolding accumulate
  accumulate-Sound none t d history h k = record {
    tracks =
        insert-Tracks d.window_sec history t d.states (started t) k
          (starts-IsRun history t d.window_sec);
    same_trades = refl;
    same_window = refl;
    same_notional = refl;
    justified = tt;
  }
  accumulate-Sound (some st) t d history h k =
      let was = k.sums t.symbol st h in
      let fire =
        leb d.min_trades (grown t st).count && d.min_notional_usd ≼ (grown t st).notional_usd in
      elim (Bool-cases (is_stale t d.window_sec (some st))) [
        | inl e ↦ rw e (record {
          tracks =
              insert-Tracks d.window_sec history t d.states (started t) k
                (starts-IsRun history t d.window_sec);
          same_trades = refl;
          same_window = refl;
          same_notional = refl;
          justified = tt;
        })
        | inr e ↦
            let j = fresh-Joins t d.window_sec st e in
            let run =
              grows-IsRun history t d.window_sec st.direction st.notional_usd st.count st.first_ts j
                was in
            elim (Bool-cases fire) [
              | inl y ↦
                  rw (e, y)
                    (record {
                      tracks = erase-Tracks d.window_sec history t d.states k;
                      same_trades = refl;
                      same_window = refl;
                      same_notional = refl;
                      justified = (
                        st.count + 1,
                        st.first_ts,
                        refl,
                        ground arith,
                        ground arith,
                        subst
                            (λ (x : Direction).
                              IsRun (history ++ (t ∷ [])) d.window_sec t.symbol x
                                (grown t st).notional_usd (st.count + 1) st.first_ts)
                            (same_direction_eq st.direction (aggressor t.is_buyer_maker) j.0) run,
                      );
                    })
              | inr y ↦
                  rw (e, y)
                    (record {
                      tracks = insert-Tracks d.window_sec history t d.states (grown t st) k run;
                      same_trades = refl;
                      same_window = refl;
                      same_notional = refl;
                      justified = tt;
                    })
            ]
      ]

  tick-Sound :
      (t : Tick R) (d : SweepDetector R) (history : List (Tick R))
      → Tracks d.window_sec history d.states
      → Sound d (history ++ (t ∷ [])) (process_tick t d).0 (process_tick t d).1
  unfolding process_tick
  tick-Sound t d history k =
      elim (Bool-cases (cooling (lookup t.symbol d.last_alert_ts) t.ts d.cooldown_sec)) [
        | inl e ↦ rw e (record {
          tracks = erase-Tracks d.window_sec history t d.states k;
          same_trades = refl;
          same_window = refl;
          same_notional = refl;
          justified = tt;
        })
        | inr e ↦ rw e (accumulate-Sound (lookup t.symbol d.states) t d history refl k)
      ]

  unfoldable pub run : List (Tick R) → SweepDetector R → SweepDetector R
  run [] d = d
  run (t ∷ ts) d = run ts (process_tick t d).0

  record Follows (d : SweepDetector R) (history : List (Tick R)) (e : SweepDetector R)
      : Type 0 where
    tracks : Tracks d.window_sec history e.states
    same_trades : e.min_trades ≡ d.min_trades
    same_window : e.window_sec ≡ d.window_sec
    same_notional : e.min_notional_usd ≡ d.min_notional_usd

  run-Follows :
      (ts history : List (Tick R)) (d e : SweepDetector R)
      → Follows d history e
      → Follows d (history ++ ts) (run ts e)
  unfolding run
  run-Follows [] history d e h = rw (append-nil history) h
  run-Follows (t ∷ ts) history d e h =
      let s =
        tick-Sound t e history
          (subst (λ (w : R). Tracks w history e.states) (sym h.same_window) h.tracks) in
      let step : Follows d (history ++ (t ∷ [])) (process_tick t e).0 = record {
        tracks =
            subst (λ (w : R). Tracks w (history ++ (t ∷ [])) (process_tick t e).0.states)
              h.same_window s.tracks;
        same_trades = s.same_trades ∙ h.same_trades;
        same_window = s.same_window ∙ h.same_window;
        same_notional = s.same_notional ∙ h.same_notional;
      } in
      rw (← append_assoc history (t ∷ []) ts)
        (run-Follows ts (history ++ (t ∷ [])) d (process_tick t e).0 step)

  Justified-same :
      (d e : SweepDetector R) (history : List (Tick R)) (o : Option (LiquidityAlert R))
      → e.min_trades ≡ d.min_trades
      → e.window_sec ≡ d.window_sec
      → e.min_notional_usd ≡ d.min_notional_usd
      → Justified e history o
      → Justified d history o
  Justified-same d e history none p q r j = j
  Justified-same d e history (some a) p q r j = rw (← p, ← q, ← r) j

  new-empty :
      (min_trades : ℕ) (window min_notional cooldown : R) (d : SweepDetector R)
      → new min_trades window min_notional cooldown ≡ some d
      → d.states ≡ []
  unfolding new
  new-empty min_trades window min_notional cooldown d h = ground arith

  nothing-found : (symbol : String) (st : SweepState R) → lookup symbol [] ≡ some st → ⊥
  unfolding lookup
  nothing-found symbol st h = cc

  -- A sweep alert of a new detector, after any history of ticks, tells the truth: the last ticks of its symbol, as many
  -- as it counts and at least `min_trades`, are all of its side and within the window of the first of
  -- them, and their notionals add up to the alert's, which is at least the least notional.
  pub sweep-Justified :
      (ts : List (Tick R)) (t : Tick R) (min_trades : ℕ) (window min_notional cooldown : R)
      (d : SweepDetector R)
      → new min_trades window min_notional cooldown ≡ some d
      → Justified d (ts ++ (t ∷ [])) (process_tick t (run ts d)).1
  sweep-Justified ts t min_trades window min_notional cooldown d h =
      let e : d.states ≡ [] = new-empty min_trades window min_notional cooldown d h in
      let start : Follows d [] d = record {
        tracks =
            rw e (record { once = tt; sums = λ symbol st q. absurd (nothing-found symbol st q) });
        same_trades = refl;
        same_window = refl;
        same_notional = refl;
      } in
      let k = run-Follows ts [] d d start in
      let s =
        tick-Sound t (run ts d) ts
          (subst (λ (w : R). Tracks w ts (run ts d).states) (sym k.same_window) k.tracks) in
      Justified-same d (run ts d) (ts ++ (t ∷ [])) (process_tick t (run ts d)).1 k.same_trades
        k.same_window k.same_notional s.justified
