-- ===== src/Liquidity/Alerts.antt =====
-- src/domain/liquidity_detectors.py: `LiquidityAlert`, and what the detectors share.
use gektor.Base.{ℕ, Bool, true, false, String, Option, none, some, if◌then◌else◌, Float, ◌⊖◌, ◌≺◌}

pub data Direction : Type 0 where
  buy : Direction
  sell : Direction

abbrev pub same_direction : Direction → Direction → Bool
same_direction Direction.buy Direction.buy = true
same_direction Direction.buy Direction.sell = false
same_direction Direction.sell Direction.buy = false
same_direction Direction.sell Direction.sell = true

pub data Kind : Type 0 where
  sweep : Kind
  large_print : Kind
  ofi_pulse : Kind

-- The `extra` dict, by the kind of the alert.
pub data Extra (R : Type 0) : Type 0 where
  swept : ℕ → R → ℕ → R → Extra R  -- trade_count, duration_sec, min_trades, min_notional_usd
  printed : R → R → R → Extra R  -- pct_of_24h_turnover, turnover_24h_usd, pct_threshold
  pulsed : R → R → R → R → ℕ → Extra R  -- ratio_to_median, k_threshold, median_abs_ofi_usd, bucket_sec, history_buckets_used

pub record LiquidityAlert (R : Type 0) : Type 0 where
  pub symbol : String
  pub timestamp : R
  pub kind : Kind
  pub direction : Direction
  pub price : R
  pub notional_usd : R
  pub extra : Extra R

-- The arguments of `process_tick`.
pub record Tick (R : Type 0) : Type 0 where
  pub symbol : String
  pub is_buyer_maker : Bool
  pub price : R
  pub size : R
  pub ts : R

-- The side of the aggressor.
unfoldable pub aggressor : Bool → Direction
aggressor is_buyer_maker = if is_buyer_maker then Direction.sell else Direction.buy

module _ {R : Type 0} ⦃f : Float R⦄ where
  -- `last_alert is not None and (ts - last_alert) < self._cooldown_sec`
  abbrev pub cooling : Option R → R → R → Bool
  cooling none ts cooldown_sec = false
  cooling (some last_alert) ts cooldown_sec = ts ⊖ last_alert ≺ cooldown_sec
