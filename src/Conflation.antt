-- ===== src/Conflation.antt =====
-- src/domain/conflation.py: `DollarBarEngine`, which collects the ticks of each symbol into bars. A
-- `Decimal` is a number of the type `R`; what the provider of thresholds answers to a tick is an
-- argument, and the closed bar is the result, which the source hands to its callback.
pub mod Summary
pub mod History
mod Examples
use gektor.Base.{
  ℕ, ◌+◌, Bool, Option, none, some, List, [], ◌∷◌, String, if◌then◌else◌, Float, ◌⊕◌, ◌⊗◌, ◌≼◌,
  nought, min_of, max_of,
}
use gektor.Base.Dicts.{Dict, lookup, insert, erase}

pub record DollarBar (R : Type 0) : Type 0 where
  pub symbol : String
  pub first : R  -- `open`
  pub high : R
  pub low : R
  pub close : R
  pub volume_crypto : R
  pub volume_usd : R
  pub buy_volume_usd : R
  pub sell_volume_usd : R
  pub tick_count : ℕ
  pub start_ts : R
  pub end_ts : R

pub record BarTick (R : Type 0) : Type 0 where
  pub symbol : String
  pub price : R
  pub size : R
  pub is_buyer_maker : Bool
  pub exchange_ts : R

-- What asking the provider of thresholds comes to.
pub data Provided (R : Type 0) : Type 0 where
  no_provider : Provided R
  raises : Provided R
  answers : Option R → Provided R

pub record DollarBarEngine (R : Type 0) : Type 0 where
  pub threshold_usd : R
  pub current_bars : Dict (DollarBar R)

module _ {R : Type 0} ⦃f : Float R⦄ where
  -- `none` is the `ValueError`.
  unfoldable pub new : R → Option (DollarBarEngine R)
  new threshold_usd =
      if threshold_usd ≼ nought
      then none
      else some (record { threshold_usd = threshold_usd; current_bars = [] })

  unfoldable pub threshold_for : R → Provided R → R
  threshold_for threshold_usd no_provider = threshold_usd
  threshold_for threshold_usd raises = threshold_usd
  threshold_for threshold_usd (answers none) = threshold_usd
  threshold_for threshold_usd (answers (some val)) = if val ≼ nought then threshold_usd else val

  -- The bar that a tick opens, before the tick is added.
  unfoldable pub opening_bar : BarTick R → DollarBar R
  opening_bar t = record {
    symbol = t.symbol;
    first = t.price;
    high = t.price;
    low = t.price;
    close = t.price;
    volume_crypto = nought;
    volume_usd = nought;
    buy_volume_usd = nought;
    sell_volume_usd = nought;
    tick_count = 0;
    start_ts = t.exchange_ts;
    end_ts = nought;
  }

  abbrev pub bar_or : Option (DollarBar R) → BarTick R → DollarBar R
  bar_or none t = opening_bar t
  bar_or (some bar) t = bar

  -- The tick in the bar.
  unfoldable pub touched : BarTick R → DollarBar R → DollarBar R
  touched t bar =
      let tick_usd = t.price ⊗ t.size in
      record bar {
        high = max_of bar.high t.price;
        low = min_of bar.low t.price;
        close = t.price;
        volume_crypto = bar.volume_crypto ⊕ t.size;
        volume_usd = bar.volume_usd ⊕ tick_usd;
        tick_count = bar.tick_count + 1;
        sell_volume_usd =
            if t.is_buyer_maker then bar.sell_volume_usd ⊕ tick_usd else bar.sell_volume_usd;
        buy_volume_usd =
            if t.is_buyer_maker then bar.buy_volume_usd else bar.buy_volume_usd ⊕ tick_usd;
      }

  unfoldable pub handle_resync : DollarBarEngine R → DollarBarEngine R
  handle_resync e = record e { current_bars = [] }

  unfoldable pub process_tick :
      BarTick R → Provided R → DollarBarEngine R → DollarBarEngine R × Option (DollarBar R)
  unfolding threshold_for touched opening_bar
  process_tick t provided e =
      let bar = touched t (bar_or (lookup t.symbol e.current_bars) t) in
      let bars = insert t.symbol bar e.current_bars in
      if threshold_for e.threshold_usd provided ≼ bar.volume_usd
      then (
        record e { current_bars = erase t.symbol bars },
        some (record bar { end_ts = t.exchange_ts }),
      )
      else (record e { current_bars = bars }, none)
