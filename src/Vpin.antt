-- ===== src/Vpin.antt =====
-- src/domain/vpin_engine.py: `O1VPINEngine`. The monotonic clock, `math.exp` and `math.sqrt` are arguments;
-- so are the two settings of the time decay. Numpy arrays of floats are lists.
pub mod Prices
pub mod Window
pub mod Sums
mod Examples
use gektor.Base.{
  ℕ, ◌+◌, ◌-◌, Bool, true, false, not, ◌&&◌, Option, none, some, List, [], ◌∷◌, map, if◌then◌else◌,
  ltb, leb, ◌==◌, get_or, set, replicate, Float, ◌⊕◌, ◌⊖◌, ◌⊗◌, ◌⊘◌, ◌≺◌, ◌≼◌, nought, max_of,
}

pub data Lean : Type 0 where
  long : Lean
  short : Lean
  neutral : Lean

pub record Signal (R : Type 0) : Type 0 where
  pub vpin_value : R
  pub z_score : R
  pub is_anomaly : Bool
  pub absorption_detected : Bool
  pub direction : Lean

-- What `process_bar` reads of a bar.
pub record Bar (R : Type 0) : Type 0 where
  pub buy_volume_usd : R
  pub sell_volume_usd : R
  pub close : R

-- What the engine takes from outside: the settings of the decay, and the two functions of `math`.
pub record Surroundings (R : Type 0) : Type 0 where
  pub time_gap_sec : R
  pub decay_tau_hours : R
  pub exp_minus : R → R  -- `math.exp(-x)`
  pub sqrt : R → R

pub record Vpin (R : Type 0) : Type 0 where
  pub window_size : ℕ
  pub z_history_size : ℕ
  pub volume_threshold : R
  pub anomaly_threshold_z : R
  pub rebuild_interval : ℕ
  pub imbalances : List R
  pub price_history : List R
  pub vpin_history : List R
  pub index : ℕ
  pub is_filled : Bool
  pub running_imbalance_sum : R
  pub z_index : ℕ
  pub z_count : ℕ
  pub vpin_sum : R
  pub vpin_sq_sum : R
  pub last_update_time : R
  pub bars_since_rebuild : ℕ

module _ {R : Type 0} ⦃f : Float R⦄ where
  unfoldable pub reset_o1 : R → Vpin R → Vpin R
  reset_o1 now v = record v {
    index = 0;
    is_filled = false;
    running_imbalance_sum = nought;
    z_index = 0;
    z_count = 0;
    vpin_sum = nought;
    vpin_sq_sum = nought;
    last_update_time = now;
    bars_since_rebuild = 0;
  }

  -- `__init__`; `none` is the `ValueError`.
  unfoldable pub new : ℕ → R → R → ℕ → ℕ → R → Option (Vpin R)
  unfolding reset_o1
  new window_size volume_threshold z_threshold z_history_size rebuild_interval now =
      if ltb window_size 2
      then none
      else if ltb z_history_size window_size
      then none
      else some (
          reset_o1 now (record {
            window_size = window_size;
            z_history_size = z_history_size;
            volume_threshold = volume_threshold;
            anomaly_threshold_z = z_threshold;
            rebuild_interval = rebuild_interval;
            imbalances = replicate window_size nought;
            price_history = replicate window_size nought;
            vpin_history = replicate z_history_size nought;
            index = 0;
            is_filled = false;
            running_imbalance_sum = nought;
            z_index = 0;
            z_count = 0;
            vpin_sum = nought;
            vpin_sq_sum = nought;
            last_update_time = now;
            bars_since_rebuild = 0;
          }))

  -- The sum of an array. (The order in which numpy adds is not modelled.)
  unfoldable pub sum : List R → R
  sum [] = nought
  sum (x ∷ xs) = x ⊕ sum xs

  -- Both sums of the arrays as they are.
  abbrev pub with_sums : Vpin R → Vpin R
  with_sums v = record v {
    running_imbalance_sum = sum v.imbalances;
    vpin_sum = sum v.vpin_history;
    vpin_sq_sum = sum (map (λ (x : R). x ⊗ x) v.vpin_history);
  }

  unfoldable pub apply_time_decay : R → Vpin R → Vpin R
  unfolding sum
  apply_time_decay decay v = with_sums (record v {
    imbalances = map (λ (x : R). x ⊗ decay) v.imbalances;
    vpin_history = map (λ (x : R). x ⊗ decay) v.vpin_history;
  })

  unfoldable pub rebuild_sums : Vpin R → Vpin R
  unfolding sum
  rebuild_sums v = record (with_sums v) { bars_since_rebuild = 0 }

  -- The guard against time gaps at the start of `process_bar`.
  unfoldable pub decayed : Surroundings R → R → Vpin R → Vpin R
  unfolding apply_time_decay
  decayed o now v =
      let time_delta = now ⊖ v.last_update_time in
      let w = record v { last_update_time = now } in
      let tau = f.lit 3600 0 ⊗ max_of o.decay_tau_hours (f.lit 1 0) in
      if o.time_gap_sec ≺ time_delta then apply_time_decay (o.exp_minus (time_delta ⊘ tau)) w else w

  -- The bar in the window.
  unfoldable pub push_bar : R → R → Vpin R → Vpin R
  push_bar abs_imbalance price v =
      let i = v.index + 1 in
      let lapped = leb v.window_size i in
      record v {
        running_imbalance_sum =
            v.running_imbalance_sum ⊕ (abs_imbalance ⊖ get_or v.imbalances v.index nought);
        imbalances = set v.imbalances v.index abs_imbalance;
        price_history = set v.price_history v.index price;
        index = if lapped then 0 else i;
        is_filled = if lapped then true else v.is_filled;
      }

  -- The clamped VPIN of the window.
  unfoldable pub vpin_of : Vpin R → R
  vpin_of v =
      let current_vpin = v.running_imbalance_sum ⊘ (v.volume_threshold ⊗ f.of_int v.window_size) in
      if current_vpin ≺ nought
      then nought
      else if f.lit 1 0 ≺ current_vpin
      then f.lit 1 0
      else current_vpin

  -- The VPIN in the history of the z-score.
  unfoldable pub push_vpin : R → Vpin R → Vpin R
  push_vpin current_vpin v =
      let old_vpin = get_or v.vpin_history v.z_index nought in
      record v {
        vpin_sum = v.vpin_sum ⊕ (current_vpin ⊖ old_vpin);
        vpin_sq_sum = v.vpin_sq_sum ⊕ (current_vpin ⊗ current_vpin ⊖ old_vpin ⊗ old_vpin);
        vpin_history = set v.vpin_history v.z_index current_vpin;
        z_index = if leb v.z_history_size (v.z_index + 1) then 0 else v.z_index + 1;
        z_count = if ltb v.z_count v.z_history_size then v.z_count + 1 else v.z_count;
      }

  unfoldable pub z_score_of : (R → R) → R → Vpin R → R
  z_score_of sqrt current_vpin v =
      let n = f.of_int (if ltb 0 v.z_count then v.z_count else 1) in
      let mean_vpin = v.vpin_sum ⊘ n in
      let variance = v.vpin_sq_sum ⊘ n ⊖ mean_vpin ⊗ mean_vpin in
      (current_vpin ⊖ mean_vpin) ⊘ sqrt (max_of variance (f.lit 1 12))

  -- The periodic rebuild.
  unfoldable pub counted_bar : Vpin R → Vpin R
  unfolding rebuild_sums
  counted_bar v =
      let w = record v { bars_since_rebuild = v.bars_since_rebuild + 1 } in
      if leb v.rebuild_interval w.bars_since_rebuild then rebuild_sums w else w

  unfoldable pub signal_of : R → R → Bool → R → R → Signal R
  signal_of current_vpin z_score is_anomaly imbalance price_return =
      let up = nought ≺ imbalance in
      let down = imbalance ≺ nought in
      record {
        vpin_value = current_vpin;
        z_score = z_score;
        is_anomaly = is_anomaly;
        absorption_detected =
            is_anomaly
            && (if up
                then price_return ≼ nought
                else if down
                then nought ≼ price_return
                else false);
        direction =
            if is_anomaly
            then (if up then Lean.long else if down then Lean.short else Lean.neutral)
            else Lean.neutral;
      }

  -- `process_bar` behind the window, which is filled or still warming up.
  unfoldable pub assess : Bool → (R → R) → R → R → Vpin R → Vpin R × Option (Signal R)
  unfolding vpin_of push_vpin z_score_of counted_bar signal_of
  assess false sqrt imbalance price v = (v, none)
  assess true sqrt imbalance price v =
      let price_start_window = get_or v.price_history v.index nought in
      let current_vpin = vpin_of v in
      let w = push_vpin current_vpin v in
      let z_score = z_score_of sqrt current_vpin w in
      let is_anomaly = v.anomaly_threshold_z ≺ z_score in
      (
        counted_bar w,
        some (signal_of current_vpin z_score is_anomaly imbalance (price ⊖ price_start_window)),
      )

  unfoldable pub process_bar : Surroundings R → R → Bar R → Vpin R → Vpin R × Option (Signal R)
  unfolding decayed push_bar assess
  process_bar o now bar v =
      let imbalance = bar.buy_volume_usd ⊖ bar.sell_volume_usd in
      let w = push_bar (f.magnitude imbalance) bar.close (decayed o now v) in
      assess w.is_filled o.sqrt imbalance bar.close w
