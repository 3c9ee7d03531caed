-- ===== src/Liquidity/Sweep.antt =====
-- src/domain/liquidity_detectors.py: `SweepDetector`.
pub mod Runs
pub mod Alarms
use gektor.Base.{
  ℕ, ◌+◌, Bool, true, false, not, ◌&&◌, ◌||◌, Option, none, some, List, [], ◌∷◌, String,
  if◌then◌else◌, ltb, leb, Float, ◌⊕◌, ◌⊖◌, ◌⊗◌, ◌≺◌, ◌≼◌, nought,
}
use gektor.Base.Dicts.{Dict, lookup, insert, erase}
use gektor.Liquidity.Alerts.{
  Direction, same_direction, Kind, Extra, LiquidityAlert, Tick, aggressor, cooling,
}

pub record SweepState (R : Type 0) : Type 0 where
  pub direction : Direction
  pub notional_usd : R
  pub count : ℕ
  pub first_ts : R
  pub last_ts : R

pub record SweepDetector (R : Type 0) : Type 0 where
  pub min_trades : ℕ
  pub window_sec : R
  pub min_notional_usd : R
  pub cooldown_sec : R
  pub states : Dict (SweepState R)
  pub last_alert_ts : Dict R

module _ {R : Type 0} ⦃f : Float R⦄ where
  -- `__init__`; `none` is the `ValueError`.
  unfoldable pub new : ℕ → R → R → R → Option (SweepDetector R)
  new min_trades window_sec min_notional_usd cooldown_sec =
      if ltb min_trades 2
      then none
      else if window_sec ≼ nought
      then none
      else if min_notional_usd ≼ nought
      then none
      else if cooldown_sec ≺ nought
      then none
      else some (record {
        min_trades = min_trades;
        window_sec = window_sec;
        min_notional_usd = min_notional_usd;
        cooldown_sec = cooldown_sec;
        states = [];
        last_alert_ts = [];
      })

  -- The accumulator that a tick finds cannot take it.
  abbrev pub is_stale : Tick R → R → Option (SweepState R) → Bool
  is_stale t window_sec none = true
  is_stale t window_sec (some st) =
      not (same_direction st.direction (aggressor t.is_buyer_maker))
      || window_sec ≺ t.ts ⊖ st.first_ts

  abbrev pub started : Tick R → SweepState R
  started t = record {
    direction = aggressor t.is_buyer_maker;
    notional_usd = t.price ⊗ t.size;
    count = 1;
    first_ts = t.ts;
    last_ts = t.ts;
  }

  abbrev pub grown : Tick R → SweepState R → SweepState R
  grown t st = record st {
    notional_usd = st.notional_usd ⊕ t.price ⊗ t.size;
    count = st.count + 1;
    last_ts = t.ts;
  }

  -- `process_tick` past the cooldown, by the accumulator found.
  unfoldable pub accumulate :
      Option (SweepState R) → Tick R → SweepDetector R → SweepDetector R × Option (LiquidityAlert R)
  unfolding aggressor
  accumulate none t d = (record d { states = insert t.symbol (started t) d.states }, none)
  accumulate (some st) t d =
      let s = grown t st in
      let alert : LiquidityAlert R = record {
        symbol = t.symbol;
        timestamp = t.ts;
        kind = Kind.sweep;
        direction = aggressor t.is_buyer_maker;
        price = t.price;
        notional_usd = s.notional_usd;
        extra = Extra.swept s.count (t.ts ⊖ st.first_ts) d.min_trades d.min_notional_usd;
      } in
      if is_stale t d.window_sec (some st)
      then (record d { states = insert t.symbol (started t) d.states }, none)
      else if leb d.min_trades s.count && d.min_notional_usd ≼ s.notional_usd
      then (
        record d {
          states = erase t.symbol d.states;
          last_alert_ts = insert t.symbol t.ts d.last_alert_ts;
        },
        some alert,
      )
      else (record d { states = insert t.symbol s d.states }, none)

  unfoldable pub process_tick :
      Tick R → SweepDetector R → SweepDetector R × Option (LiquidityAlert R)
  unfolding accumulate
  process_tick t d =
      if cooling (lookup t.symbol d.last_alert_ts) t.ts d.cooldown_sec
      then (record d { states = erase t.symbol d.states }, none)
      else accumulate (lookup t.symbol d.states) t d
