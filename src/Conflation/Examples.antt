-- ===== src/Conflation/Examples.antt =====
-- Three ticks of one symbol, the third of which closes the bar.
use gektor.Base.{ℕ, ◌≡◌, refl, false, none, some, List, [], ◌∷◌, ◌++◌, if◌then◌else◌, milli}
use gektor.Base.Dicts.{lookup, insert, erase}
use gektor.Conflation.{BarTick, Provided, DollarBarEngine, new, process_tick}
use gektor.Conflation.Summary.{bar_of}
use gektor.Conflation.History.{Event, run, since_bar, is_full, closed_at, process_tick_lem}

-- A tick of one coin.
abbrev tick_at : ℕ → ℕ → BarTick ℕ
tick_at price now = record {
  symbol = "BTC";
  price = price;
  size = 1000;
  is_buyer_maker = false;
  exchange_ts = now;
}

abbrev engine : DollarBarEngine ℕ
engine = record { threshold_usd = 250; current_bars = [] }

engine_built : new {R = ℕ} 250 ≡ some engine
unfolding new
engine_built = refl

-- A bar that a resync discards, and two ticks of the next one.
abbrev ticks : List (Event ℕ)
ticks =
    Event.tick (tick_at 90 1) Provided.no_provider
    ∷ Event.resync
    ∷ Event.tick (tick_at 100 2) Provided.no_provider
    ∷ Event.tick (tick_at 80 3) (Provided.answers none)
    ∷ []

third_closes :
    (process_tick (tick_at 95 4) Provided.raises (run ticks engine)).1
    ≡ some (record {
      symbol = "BTC";
      first = 100;
      high = 100;
      low = 80;
      close = 95;
      volume_crypto = 3000;
      volume_usd = 275;
      buy_volume_usd = 275;
      sell_volume_usd = 0;
      tick_count = 3;
      start_ts = 2;
      end_ts = 4;
    })
unfolding run process_tick lookup insert erase
third_closes = refl

process_tick_lem_example :
    let ts = since_bar {R = ℕ} "BTC" 250 ticks [] ++ (tick_at 95 4 ∷ []) in
    let (after, bar) = process_tick (tick_at 95 4) Provided.raises (run ticks engine) in
    let full = is_full {R = ℕ} 250 Provided.raises ts in
    (bar ≡ (if full then closed_at {R = ℕ} 4 (bar_of ts) else none))
    × (lookup "BTC" after.current_bars ≡ (if full then none else bar_of ts))
process_tick_lem_example =
    process_tick_lem 250 ticks (tick_at 95 4) Provided.raises engine engine_built
