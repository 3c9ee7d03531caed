-- ===== src/Tilt/Trackers.antt =====
-- src/domain/tilt_breaker.py: the three trackers that the sentinel feeds.
use gektor.Base.{
  ℕ, zero, suc, ◌+◌, ◌-◌, ◌%◌, min, max, Bool, not, ◌&&◌, List, if◌then◌else◌, ltb, get_or, set,
  replicate, Float, ◌⊕◌, ◌⊖◌, ◌⊗◌, ◌⊘◌, ◌≺◌, ◌≼◌, ◌≐◌, nought, min_of, max_of,
}

-- `ReactionTimeTracker`. Only `__init__`'s defaults are used: 20 slots, alpha 0.15, 5 samples.
pub record Reaction (R : Type 0) : Type 0 where
  pub buffer : List R
  pub head : ℕ
  pub count : ℕ
  pub ewma : R

abbrev pub capacity : ℕ
capacity = 20

abbrev pub min_samples : ℕ
min_samples = 5

-- `ClickEntropyDetector`, with its defaults: 5 tokens, 1 token a second, 10 burst slots.
pub record Clicks (R : Type 0) : Type 0 where
  pub tokens : R
  pub last_refill_mono : R
  pub burst_buffer : List R
  pub burst_head : ℕ
  pub burst_count : ℕ
  pub rapid_fire_count : ℕ
  pub rapid_fire_window_start : R

abbrev pub burst_capacity : ℕ
burst_capacity = 10

-- `ErrorStreakTracker`
pub record Errors : Type 0 where
  pub streak : ℕ
  pub max_streak_observed : ℕ

module _ {R : Type 0} ⦃f : Float R⦄ where
  open f use {of_int, lit, magnitude}

  unfoldable pub new_reaction : Reaction R
  new_reaction = record { buffer = replicate capacity nought; head = 0; count = 0; ewma = nought }

  -- `0.0 < reaction_ms < 30_000.0`
  abbrev pub is_plausible : R → Bool
  is_plausible ms = (nought ≺ ms) && (ms ≺ lit 30_000 0)

  -- `record`
  unfoldable pub record_reaction : R → Reaction R → Reaction R
  record_reaction ms s = if not (is_plausible ms) then s else record s {
    buffer = set s.buffer s.head ms;
    head = (s.head + 1) % capacity;
    count = min (s.count + 1) capacity;
    ewma = if s.ewma ≐ nought then ms else (lit 15 2 ⊗ ms ⊕ (lit 1 0 ⊖ lit 15 2) ⊗ s.ewma);
  }

  -- The sample that `get_drift` looks at, `_buffer[(_head - 1) % _capacity]`.
  abbrev pub last_sample : Reaction R → R
  last_sample s = get_or s.buffer ((s.head + capacity - 1) % capacity) nought

  unfoldable pub get_drift : Reaction R → R
  get_drift s =
      if ltb s.count min_samples
      then nought
      else if s.ewma ≼ nought
      then nought
      else (magnitude (last_sample s ⊖ s.ewma) ⊘ s.ewma)

  abbrev pub max_tokens : R
  max_tokens = lit 5 0

  unfoldable pub new_clicks : Clicks R
  new_clicks = record {
    tokens = max_tokens;
    last_refill_mono = nought;
    burst_buffer = replicate burst_capacity nought;
    burst_head = 0;
    burst_count = 0;
    rapid_fire_count = 0;
    rapid_fire_window_start = nought;
  }

  -- The clock that the caller uses is adopted at the first click.
  abbrev calibrate : R → R → R
  calibrate now t = if t ≐ nought then now else t

  -- `record_click`
  unfoldable pub record_click : R → Clicks R → Clicks R
  record_click now s =
      let last = calibrate now s.last_refill_mono in
      let start = calibrate now s.rapid_fire_window_start in
      let elapsed = max_of nought (now ⊖ last) in
      let refilled = min_of max_tokens (s.tokens ⊕ elapsed ⊗ lit 1 0) in
      let over = lit 10 0 ≺ now ⊖ start in
      record {
        tokens = max_of nought (refilled ⊖ lit 1 0);
        last_refill_mono = now;
        burst_buffer = set s.burst_buffer s.burst_head now;
        burst_head = (s.burst_head + 1) % burst_capacity;
        burst_count = min (s.burst_count + 1) burst_capacity;
        rapid_fire_count = (if over then 0 else s.rapid_fire_count) + 1;
        rapid_fire_window_start = if over then now else start;
      }

  -- The loop over the burst buffer, newest click first: `rounds` are left, `i` are done.
  count_burst : ℕ → ℕ → R → Clicks R → ℕ
  count_burst zero i now s = 0
  count_burst (suc rounds) i now s =
      let rest = count_burst rounds (i + 1) now s in
      if now
          ⊖ get_or s.burst_buffer ((s.burst_head + burst_capacity - 1 - i) % burst_capacity) nought
        ≼ lit 5 1
      then rest + 1
      else 0

  unfoldable pub get_spam_intensity : R → Clicks R → R
  unfolding count_burst
  get_spam_intensity now s =
      let depletion = lit 1 0 ⊖ s.tokens ⊘ max_tokens in
      let burst = count_burst s.burst_count 0 now s in
      let burst_factor = max_of nought (of_int (burst - 2)) ⊘ lit 3 0 in
      let window = max_of (lit 1 1) (now ⊖ s.rapid_fire_window_start) in
      let rate = of_int s.rapid_fire_count ⊘ window in
      let rapid_factor = max_of nought (rate ⊖ lit 5 1) ⊘ lit 1 0 in
      depletion ⊗ lit 2 0 ⊕ burst_factor ⊗ lit 3 0 ⊕ rapid_factor

  -- `reset`: the burst buffer and its head stay.
  unfoldable pub reset_clicks : Clicks R → Clicks R
  reset_clicks s = record s {
    tokens = max_tokens;
    burst_count = 0;
    rapid_fire_count = 0;
    last_refill_mono = nought;
    rapid_fire_window_start = nought;
  }

unfoldable pub new_errors : Errors
new_errors = record { streak = 0; max_streak_observed = 0 }

unfoldable pub record_bad_decision : Errors → Errors
record_bad_decision s = record {
  streak = s.streak + 1;
  max_streak_observed = max s.max_streak_observed (s.streak + 1);
}

-- `max(0, streak - 2)`
unfoldable pub record_good_decision : Errors → Errors
record_good_decision s = record s { streak = s.streak - 2 }

unfoldable pub reset_errors : Errors → Errors
reset_errors s = record s { streak = 0 }
