-- ===== src/Liquidity/Print.antt =====
-- src/domain/liquidity_detectors.py: `LargePrintDetector`. The provider of turnovers and the float `nan`
-- are arguments.
use gektor.Base.{Option, none, some, [], String, if◌then◌else◌, Float, ◌⊗◌, ◌⊘◌, ◌≺◌, ◌≼◌, nought}
use gektor.Base.Dicts.{Dict, lookup, insert}
use gektor.Liquidity.Alerts.{Kind, Extra, LiquidityAlert, Tick, aggressor, cooling}

pub record LargePrintDetector (R : Type 0) : Type 0 where
  pub pct_threshold : R
  pub min_notional_usd : R
  pub cooldown_sec : R
  pub last_alert_ts : Dict R

module _ {R : Type 0} ⦃f : Float R⦄ where
  -- `__init__`; `none` is the `ValueError`.
  unfoldable pub new : R → R → R → Option (LargePrintDetector R)
  new pct_threshold min_notional_usd cooldown_sec =
      if pct_threshold ≼ nought
      then none
      else if min_notional_usd ≼ nought
      then none
      else if cooldown_sec ≺ nought
      then none
      else some (record {
        pct_threshold = pct_threshold;
        min_notional_usd = min_notional_usd;
        cooldown_sec = cooldown_sec;
        last_alert_ts = [];
      })

  -- The share of the turnover that the alert carries, for a print that is large enough.
  unfoldable pub large_share : R → R → R → LargePrintDetector R → Option R
  large_share nan turnover_24h notional d =
      let pct = notional ⊘ turnover_24h in
      if turnover_24h ≼ nought
      then (if notional ≺ f.lit 100 1 ⊗ d.min_notional_usd then none else some nan)
      else if pct ≺ d.pct_threshold
      then none
      else some pct

  -- `process_tick` past the cooldown, by the share found.
  unfoldable pub print_alert :
      Option R
      → R
      → Tick R
      → LargePrintDetector R
      → LargePrintDetector R × Option (LiquidityAlert R)
  unfolding aggressor
  print_alert none turnover_24h t d = (d, none)
  print_alert (some pct) turnover_24h t d = (
    record d { last_alert_ts = insert t.symbol t.ts d.last_alert_ts },
    some (record {
      symbol = t.symbol;
      timestamp = t.ts;
      kind = Kind.large_print;
      direction = aggressor t.is_buyer_maker;
      price = t.price;
      notional_usd = t.price ⊗ t.size;
      extra = Extra.printed pct turnover_24h d.pct_threshold;
    }),
  )

  unfoldable pub process_tick :
      R
      → (String → R)
      → Tick R
      → LargePrintDetector R
      → LargePrintDetector R × Option (LiquidityAlert R)
  unfolding large_share print_alert
  process_tick nan turnover_provider t d =
      let notional = t.price ⊗ t.size in
      let turnover_24h = turnover_provider t.symbol in
      if notional ≺ d.min_notional_usd
      then (d, none)
      else if cooling (lookup t.symbol d.last_alert_ts) t.ts d.cooldown_sec
      then (d, none)
      else print_alert (large_share nan turnover_24h notional d) turnover_24h t d
