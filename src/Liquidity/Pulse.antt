-- ===== src/Liquidity/Pulse.antt =====
-- src/domain/liquidity_detectors.py: `OFIPulseDetector`. A deque is a list with its newest bucket first.
-- The remainder of two floats and the float `inf` are arguments.
pub mod History
use gektor.Base.{
  ℕ, ◌+◌, ◌-◌, ◌/◌, ◌%◌, Bool, true, false, not, ◌&&◌, ◌||◌, Option, none, some, List, [], ◌∷◌, map,
  String, if◌then◌else◌, ltb, leb, ◌==◌, length, take, get_or, Float, ◌⊕◌, ◌⊖◌, ◌⊗◌, ◌⊘◌, ◌≺◌, ◌≼◌,
  ◌≐◌, nought,
}
use gektor.Base.Dicts.{Dict, lookup, insert}
use gektor.Liquidity.Alerts.{Direction, Kind, Extra, LiquidityAlert, Tick, cooling}

pub record Bucket (R : Type 0) : Type 0 where
  pub bucket_start_ts : R
  pub buy_usd : R
  pub sell_usd : R

pub record PulseDetector (R : Type 0) : Type 0 where
  pub bucket_sec : R
  pub history_buckets : ℕ
  pub k : R
  pub min_notional_usd : R
  pub min_history : ℕ
  pub cooldown_sec : R
  pub buckets : Dict (List (Bucket R))
  pub last_alert_ts : Dict R

module _ {R : Type 0} ⦃f : Float R⦄ where
  -- `__init__`; `none` is the `ValueError`.
  unfoldable pub new : R → ℕ → R → R → ℕ → R → Option (PulseDetector R)
  new bucket_sec history_buckets k min_notional_usd min_history cooldown_sec =
      if bucket_sec ≼ nought
      then none
      else if ltb history_buckets 2
      then none
      else if k ≼ f.lit 10 1
      then none
      else if ltb min_history 2
      then none
      else some (record {
        bucket_sec = bucket_sec;
        history_buckets = history_buckets;
        k = k;
        min_notional_usd = min_notional_usd;
        min_history = min_history;
        cooldown_sec = cooldown_sec;
        buckets = [];
        last_alert_ts = [];
      })

  -- The trade on the bucket's side.
  abbrev pub put : Bool → R → Bucket R → Bucket R
  put is_buyer_maker notional b =
      if is_buyer_maker
      then record b { sell_usd = b.sell_usd ⊕ notional }
      else record b { buy_usd = b.buy_usd ⊕ notional }

  -- The deque after the trade: its newest bucket if that is the current one, or else a new bucket, which
  -- pushes the oldest one out of a full deque.
  unfoldable pub add_trade : ℕ → R → Bool → R → List (Bucket R) → List (Bucket R)
  add_trade maxlen bucket_start is_buyer_maker notional [] = take maxlen (
      put is_buyer_maker notional
        (record { bucket_start_ts = bucket_start; buy_usd = nought; sell_usd = nought })
      ∷ [])
  add_trade maxlen bucket_start is_buyer_maker notional (b ∷ older) =
      let opened =
        put is_buyer_maker notional
          (record { bucket_start_ts = bucket_start; buy_usd = nought; sell_usd = nought }) in
      if b.bucket_start_ts ≐ bucket_start
      then put is_buyer_maker notional b ∷ older
      else take maxlen (opened ∷ b ∷ older)

  -- `list.sort`
  unfoldable pub sort_into : R → List R → List R
  sort_into x [] = x ∷ []
  sort_into x (y ∷ ys) = let rest = sort_into x ys in if x ≺ y then x ∷ y ∷ ys else y ∷ rest

  unfoldable pub sort_values : List R → List R
  unfolding sort_into
  sort_values [] = []
  sort_values (x ∷ xs) = sort_into x (sort_values xs)

  unfoldable pub median : List R → R
  unfolding sort_values
  median values =
      let prior_abs = sort_values values in
      let n = length prior_abs in
      if n % 2 == 1
      then get_or prior_abs (n / 2) nought
      else f.lit 5 1 ⊗ (get_or prior_abs (n / 2 - 1) nought ⊕ get_or prior_abs (n / 2) nought)

  -- |buy - sell|
  abbrev pub abs_ofi : Bucket R → R
  abs_ofi b = f.magnitude (b.buy_usd ⊖ b.sell_usd)

  -- The ratio to the median, where it is large enough.
  unfoldable pub pulse_ratio : R → R → R → PulseDetector R → Option R
  pulse_ratio infinity cur_abs median_abs d =
      let ratio = cur_abs ⊘ median_abs in
      if median_abs ≼ nought
      then (if cur_abs ≺ f.lit 50 1 ⊗ d.min_notional_usd then none else some infinity)
      else if ratio ≺ d.k
      then none
      else some ratio

  abbrev pub with_ratio : R → R → ℕ → Option R → Option (R × R × R × ℕ)
  with_ratio cur_ofi median_abs n none = none
  with_ratio cur_ofi median_abs n (some ratio) = some (cur_ofi, ratio, median_abs, n)

  -- The tests of the current bucket against the older ones, up to the cooldown.
  unfoldable pub pulse_of : R → List (Bucket R) → PulseDetector R → Option (R × R × R × ℕ)
  unfolding median pulse_ratio
  pulse_of infinity [] d = none
  pulse_of infinity (cur ∷ older) d =
      let cur_ofi = cur.buy_usd ⊖ cur.sell_usd in
      let cur_abs = f.magnitude cur_ofi in
      let median_abs = median (map abs_ofi older) in
      let found =
        with_ratio cur_ofi median_abs (length older) (pulse_ratio infinity cur_abs median_abs d) in
      if ltb (length (cur ∷ older)) (d.min_history + 1)
      then none
      else if cur_abs ≺ d.min_notional_usd
      then none
      else if length older == 0
      then none
      else found

  -- The end of `process_tick`, by the pulse found.
  unfoldable pub pulse_alert :
      Option (R × R × R × ℕ)
      → Tick R
      → PulseDetector R
      → PulseDetector R × Option (LiquidityAlert R)
  pulse_alert none t d = (d, none)
  pulse_alert (some (cur_ofi, ratio, median_abs, n)) t d =
      let alert : LiquidityAlert R = record {
        symbol = t.symbol;
        timestamp = t.ts;
        kind = Kind.ofi_pulse;
        direction = if nought ≺ cur_ofi then Direction.buy else Direction.sell;
        price = t.price;
        notional_usd = f.magnitude cur_ofi;
        extra = Extra.pulsed ratio d.k median_abs d.bucket_sec n;
      } in
      if cooling (lookup t.symbol d.last_alert_ts) t.ts d.cooldown_sec
      then (d, none)
      else (record d { last_alert_ts = insert t.symbol t.ts d.last_alert_ts }, some alert)

  abbrev pub deque_or : Option (List (Bucket R)) → List (Bucket R)
  deque_or none = []
  deque_or (some bq) = bq

  -- The detector with the trade in its bucket.
  unfoldable pub with_trade : (R → R → R) → Tick R → PulseDetector R → List (Bucket R)
  unfolding add_trade
  with_trade modulo t d =
      add_trade d.history_buckets (t.ts ⊖ modulo t.ts d.bucket_sec) t.is_buyer_maker
        (t.price ⊗ t.size) (deque_or (lookup t.symbol d.buckets))

  unfoldable pub process_tick :
      (R → R → R) → R → Tick R → PulseDetector R → PulseDetector R × Option (LiquidityAlert R)
  unfolding with_trade pulse_of pulse_alert
  process_tick modulo infinity t d =
      let bq = with_trade modulo t d in
      pulse_alert (pulse_of infinity bq d) t (record d { buckets = insert t.symbol bq d.buckets })
