-- ===== src/Liquidity/Examples.antt =====
-- Ticks that sweep, print and pulse, and the instances of the theorems.
use gektor.Base.{
  ℕ, ◌%◌, ◌≡◌, refl, true, false, none, some, is_some, [], ◌∷◌, String, length, milli,
}
use gektor.Base.Dicts.{lookup, insert, erase}
use gektor.Liquidity.Alerts.{Tick}
use gektor.Liquidity.Spacing.{Spaced, alerts_of}
use gektor.Liquidity.Spaced.{sweeps, prints, pulses, alerts_apart}
use gektor.Liquidity.Sweep.{SweepDetector, accumulate}
use gektor.Liquidity.Sweep.Alarms.{Justified, sweep-Justified}
use gektor.Liquidity.Print.{LargePrintDetector, large_share, print_alert}
use gektor.Liquidity.Pulse.{
  PulseDetector, add_trade, with_trade, sort_values, sort_into, median, pulse_ratio, pulse_of,
  pulse_alert,
}
use gektor.Liquidity.Bank.{Bank, is_enabled}
use gektor.Liquidity.Sweep.Alarms
use gektor.Liquidity.Sweep
use gektor.Liquidity.Print
use gektor.Liquidity.Pulse
use gektor.Liquidity.Bank

abbrev buy_at : ℕ → Tick ℕ
buy_at ts = record { symbol = "BTC"; is_buyer_maker = false; price = 100_000; size = 2000; ts = ts }

-- Two trades of 200 or more in all, within 30.
abbrev sweeper : SweepDetector ℕ
sweeper = record {
  min_trades = 2;
  window_sec = 30_000;
  min_notional_usd = 200_000;
  cooldown_sec = 60_000;
  states = [];
  last_alert_ts = [];
}

sweeper_built : Sweep.new 2 30_000 200_000 60_000 ≡ some sweeper
unfolding Sweep.new
sweeper_built = refl

abbrev printer : LargePrintDetector ℕ
printer = record {
  pct_threshold = 5;
  min_notional_usd = 25_000;
  cooldown_sec = 60_000;
  last_alert_ts = [];
}

printer_built : Print.new 5 25_000 60_000 ≡ some printer
unfolding Print.new
printer_built = refl

abbrev pulser : PulseDetector ℕ
pulser = record {
  bucket_sec = 60_000;
  history_buckets = 4;
  k = 3000;
  min_notional_usd = 50_000;
  min_history = 2;
  cooldown_sec = 120_000;
  buckets = [];
  last_alert_ts = [];
}

pulser_built : Pulse.new 60_000 4 3000 50_000 2 120_000 ≡ some pulser
unfolding Pulse.new
pulser_built = refl

second_trade_sweeps :
    is_some (Sweep.process_tick (buy_at 2000) (Alarms.run (buy_at 1000 ∷ []) sweeper)).1 ≡ true
unfolding Alarms.run Sweep.process_tick accumulate lookup insert
second_trade_sweeps = refl

abbrev turnover : String → ℕ
turnover symbol = 1_000_000

large : is_some (Print.process_tick 0 turnover (buy_at 1000) printer).1 ≡ true
unfolding Print.process_tick large_share print_alert lookup
large = refl

abbrev modulo : ℕ → ℕ → ℕ
modulo a b = a % b

abbrev bank : Bank ℕ
bank = record { sweep = some sweeper; large_print = some printer; ofi_pulse = none }

two_alerts : length (Bank.run turnover 0 modulo 0 (buy_at 1000 ∷ buy_at 2000 ∷ []) bank).1 ≡ 2
unfolding Bank.run Bank.process_tick is_enabled Sweep.process_tick accumulate lookup insert erase
    Print.process_tick large_share print_alert
two_alerts = refl

even_median : median {R = ℕ} (4000 ∷ 1000 ∷ 3000 ∷ 2000 ∷ []) ≡ 2500
unfolding median sort_values sort_into
even_median = refl

alerts_apart_example :
    let ts = buy_at 1000 ∷ buy_at 2000 ∷ buy_at 70_000 ∷ buy_at 71_000 ∷ [] in
    Spaced 60_000 (lookup "BTC" []) (alerts_of sweeps "BTC" ts sweeper)
    × Spaced 60_000 (lookup "BTC" []) (alerts_of (prints 0 turnover) "BTC" ts printer)
    × Spaced 120_000 (lookup "BTC" []) (alerts_of (pulses modulo 0) "BTC" ts pulser)
alerts_apart_example =
    alerts_apart "BTC" (buy_at 1000 ∷ buy_at 2000 ∷ buy_at 70_000 ∷ buy_at 71_000 ∷ []) 0 0 turnover
      modulo sweeper printer pulser

sweep-Justified_example :
    Justified sweeper
      (buy_at 1000 ∷ buy_at 2000 ∷ [])
      (Sweep.process_tick (buy_at 2000) (Alarms.run (buy_at 1000 ∷ []) sweeper)).1
sweep-Justified_example =
    sweep-Justified (buy_at 1000 ∷ []) (buy_at 2000) 2 30_000 200_000 60_000 sweeper sweeper_built
