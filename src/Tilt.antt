-- ===== src/Tilt.antt =====
-- src/domain/tilt_breaker.py: `CognitiveSentinel`. A method returns the new state; the monotonic
-- clock is an argument.
pub mod Trackers
pub mod Lockout
pub mod Blind
pub mod Samples
mod Examples
use gektor.Base.{
  ℕ, zero, suc, ◌+◌, min, Bool, true, false, not, ◌&&◌, ◌||◌, if◌then◌else◌, Float, ◌⊕◌, ◌⊖◌, ◌⊗◌,
  ◌⊘◌, ◌≺◌, ◌≼◌, nought, min_of, max_of,
}
use Trackers.{
  Reaction, Clicks, Errors, new_reaction, record_reaction, get_drift, new_clicks, record_click,
  get_spam_intensity, reset_clicks, new_errors, record_bad_decision, record_good_decision,
  reset_errors,
}

pub data TiltState : Type 0 where
  clear elevated critical locked cooldown blind : TiltState

pub record TiltMetrics (R : Type 0) : Type 0 where
  pub reaction_drift : R
  pub error_streak : ℕ
  pub spam_intensity : R
  pub composite_score : R
  pub state : TiltState
  pub locked_until_mono : R
  pub generation : ℕ

pub record Sentinel (R : Type 0) : Type 0 where
  pub reaction : Reaction R
  pub clicks : Clicks R
  pub errors : Errors
  pub state : TiltState
  pub generation : ℕ
  pub locked_until_mono : R
  pub cooldown_sec : R
  pub last_heartbeat_mono : R
  pub heartbeat_timeout_sec : R
  pub weight_reaction : R
  pub weight_errors : R
  pub weight_spam : R

-- `state in (CLEAR, ELEVATED)`
abbrev pub is_open : TiltState → Bool
is_open TiltState.clear = true
is_open TiltState.elevated = true
is_open _ = false

abbrev pub is_locked : TiltState → Bool
is_locked TiltState.locked = true
is_locked _ = false

abbrev pub is_cooldown : TiltState → Bool
is_cooldown TiltState.cooldown = true
is_cooldown _ = false

abbrev pub is_blind : TiltState → Bool
is_blind TiltState.blind = true
is_blind _ = false

-- `for _ in range(n): s = body(s)`
pub repeat : {S : Type 0} → ℕ → (S → S) → S → S
repeat zero body s = s
repeat (suc n) body s = repeat n body (body s)

module _ {R : Type 0} ⦃f : Float R⦄ where
  open f use {of_int, lit, round}

  -- `__init__`
  pub new : R → R → R → R → R → R → Sentinel R
  new cooldown_sec heartbeat_timeout_sec weight_reaction weight_errors weight_spam now = record {
    reaction = new_reaction;
    clicks = new_clicks;
    errors = new_errors;
    state = TiltState.clear;
    generation = 0;
    locked_until_mono = nought;
    cooldown_sec = cooldown_sec;
    last_heartbeat_mono = now;
    heartbeat_timeout_sec = heartbeat_timeout_sec;
    weight_reaction = weight_reaction;
    weight_errors = weight_errors;
    weight_spam = weight_spam;
  }

  -- The trackers start over: in phase 1 and in `force_unlock`.
  abbrev restart : Sentinel R → Sentinel R
  restart s = record s {
    reaction = new_reaction;
    clicks = reset_clicks s.clicks;
    errors = reset_errors s.errors;
  }

  -- `_evaluate`, phase 1: a lock becomes a cooldown, and a cooldown that is over becomes clear.
  pub resolve : R → Sentinel R → Sentinel R
  resolve now s =
      let t = record s { state = if is_locked s.state then TiltState.cooldown else s.state } in
      if is_cooldown t.state && (t.locked_until_mono ≼ now)
      then record (restart t) { state = TiltState.clear; locked_until_mono = nought }
      else t

  -- `_evaluate`, phase 2: the weighted score, clamped to [0, 1].
  pub composite : R → Sentinel R → R
  composite now s =
      let raw =
        s.weight_reaction ⊗ min_of (get_drift s.reaction ⊘ lit 2 0) (lit 1 0)
        ⊕ s.weight_errors ⊗ min_of (of_int s.errors.streak ⊘ lit 4 0) (lit 1 0)
        ⊕ s.weight_spam ⊗ min_of (get_spam_intensity now s.clicks ⊘ lit 5 0) (lit 1 0) in
      min_of (lit 1 0) (max_of nought raw)

  abbrev pub threshold_critical : R
  threshold_critical = lit 7 1

  abbrev pub threshold_elevated : R
  threshold_elevated = lit 4 1

  abbrev pub threshold_clear_hysteresis : R
  threshold_clear_hysteresis = lit 35 2

  -- `_evaluate`, phase 3: only an open state moves.
  pub transition : R → R → Sentinel R → Sentinel R
  transition now score s =
      if is_open s.state
      then if threshold_critical ≼ score
        then record s { state = TiltState.locked; locked_until_mono = now ⊕ s.cooldown_sec }
        else if threshold_elevated ≼ score
        then record s { state = TiltState.elevated }
        else if score ≺ threshold_clear_hysteresis
        then record s { state = TiltState.clear }
        else s
      else s

  abbrev metrics : R → R → Sentinel R → TiltMetrics R
  metrics now score s = record {
    reaction_drift = round (get_drift s.reaction) 4;
    error_streak = s.errors.streak;
    spam_intensity = round (get_spam_intensity now s.clicks) 4;
    composite_score = round score 4;
    state = s.state;
    locked_until_mono = s.locked_until_mono;
    generation = s.generation;
  }

  -- `_evaluate`
  unfoldable pub evaluate : R → Sentinel R → Sentinel R × TiltMetrics R
  unfolding resolve transition
  evaluate now s =
      let r = resolve now s in
      let score = composite now r in
      let t = transition now score r in
      let u = record t { generation = t.generation + 1 } in (u, metrics now score u)

  -- What `ingest_heartbeat` feeds to the trackers before it evaluates.
  pub feed : R → ℕ → ℕ → ℕ → R → Sentinel R → Sentinel R
  feed reaction_ms click_count error_delta success_delta now s = record s {
    last_heartbeat_mono = now;
    reaction = if nought ≺ reaction_ms then record_reaction reaction_ms s.reaction else s.reaction;
    clicks = repeat (min 1000 click_count) (record_click now) s.clicks;
    errors =
        repeat success_delta record_good_decision (repeat error_delta record_bad_decision s.errors);
  }

  -- `ingest_heartbeat`. The counts are numbers: a negative one makes no round of its loop.
  unfoldable pub ingest_heartbeat : R → ℕ → ℕ → ℕ → R → Sentinel R → Sentinel R × TiltMetrics R
  unfolding feed evaluate
  ingest_heartbeat reaction_ms click_count error_delta success_delta now s =
      evaluate now (feed reaction_ms click_count error_delta success_delta now s)

  -- `check_blind`
  unfoldable pub check_blind : R → Sentinel R → Sentinel R × Bool
  check_blind now s =
      if s.heartbeat_timeout_sec ≺ now ⊖ s.last_heartbeat_mono
      then (
        if is_blind s.state
            then s
            else record s { state = TiltState.blind; generation = s.generation + 1 },
        true,
      )
      else (s, false)

  -- `is_execution_allowed`
  unfoldable pub is_execution_allowed : Sentinel R → Bool
  is_execution_allowed s = is_open s.state

  -- `force_unlock`
  unfoldable pub force_unlock : Sentinel R → Sentinel R × TiltMetrics R
  force_unlock s =
      let t = record (restart s) {
        state = TiltState.clear;
        locked_until_mono = nought;
        generation = s.generation + 1;
      } in
      (
        t,
        record {
          reaction_drift = nought;
          error_streak = 0;
          spam_intensity = nought;
          composite_score = nought;
          state = TiltState.clear;
          locked_until_mono = nought;
          generation = t.generation;
        },
      )
