-- ===== src/Tilt/Blind.antt =====
-- src/domain/tilt_breaker.py: the states that the sentinel can reach, over histories of heartbeats
-- and silence checks.
use gektor.Base.{ℕ, ◌+◌, ◌≡◌, ◌≢◌, refl, true, false, List, [], ◌∷◌, Float, arith, ◌⊖◌, ◌≺◌}
use gektor.Tilt.{
  TiltState, Sentinel, new, ingest_heartbeat, check_blind, is_execution_allowed, force_unlock,
}

-- What happens to a sentinel: a frame of the frontend, or the periodic check for silence.
pub data Event (R : Type 0) : Type 0 where
  heartbeat : R → ℕ → ℕ → ℕ → R → Event R
  check : R → Event R

module _ {R : Type 0} ⦃f : Float R⦄ where
  abbrev pub time_of : Event R → R
  time_of (Event.heartbeat ms clicks errors successes now) = now
  time_of (Event.check now) = now

  unfoldable pub step : Event R → Sentinel R → Sentinel R
  unfolding ingest_heartbeat check_blind
  step (Event.heartbeat ms clicks errors successes now) s =
      (ingest_heartbeat ms clicks errors successes now s).0
  step (Event.check now) s = (check_blind now s).0

  unfoldable pub run : List (Event R) → Sentinel R → Sentinel R
  run [] s = s
  run (e ∷ es) s = run es (step e s)

  step-blind :
      (e : Event R) (s : Sentinel R)
      → s.state ≡ TiltState.blind
      → (step e s).state ≡ TiltState.blind
  unfolding step
  step-blind (Event.heartbeat ms clicks errors successes now) s h = ground arith
  step-blind (Event.check now) s h = ground arith

  run-blind :
      (es : List (Event R)) (s : Sentinel R)
      → s.state ≡ TiltState.blind
      → (run es s).state ≡ TiltState.blind
  unfolding run
  run-blind [] s h = h
  run-blind (e ∷ es) s h = run-blind es (step e s) (step-blind e s h)

  -- A sentinel that has gone blind stays blind and forbids execution, whatever heartbeats come back,
  -- until `force_unlock`, which allows execution at once.
  pub blind_until_unlock :
      (es : List (Event R)) (s : Sentinel R)
      → s.state ≡ TiltState.blind
      → ((run es s).state ≡ TiltState.blind)
        × (is_execution_allowed (run es s) ≡ false)
        × (is_execution_allowed (force_unlock (run es s)).0 ≡ true)
  unfolding is_execution_allowed force_unlock
  blind_until_unlock es s h = (run-blind es s h, rw (run-blind es s h), refl)

  step-never_critical :
      (e : Event R) (s : Sentinel R)
      → s.state ≢ TiltState.critical
      → (step e s).state ≢ TiltState.critical
  unfolding step
  step-never_critical (Event.heartbeat ms clicks errors successes now) s h = ground arith
  step-never_critical (Event.check now) s h = ground arith

  run-never_critical :
      (es : List (Event R)) (s : Sentinel R)
      → s.state ≢ TiltState.critical
      → (run es s).state ≢ TiltState.critical
  unfolding run
  run-never_critical [] s h = h
  run-never_critical (e ∷ es) s h = run-never_critical es (step e s) (step-never_critical e s h)

  -- No history of a new sentinel brings it into the state CRITICAL.
  pub never_critical :
      (es : List (Event R)) (cooldown timeout wr we ws now : R)
      → (run es (new cooldown timeout wr we ws now)).state ≢ TiltState.critical
  unfolding new
  never_critical es cooldown timeout wr we ws now = run-never_critical es _ (ground arith)

  -- A check reports silence exactly when the last heartbeat is older than the timeout, and the
  -- sentinel is then blind; otherwise nothing changes. Only the passage into blindness bumps the
  -- generation.
  pub check_blind_lem :
      (now : R) (s : Sentinel R)
      → let (t, silent) = check_blind now s in
        let late = s.heartbeat_timeout_sec ≺ now ⊖ s.last_heartbeat_mono in
        (silent ≡ late)
        × (late ≡ false → t ≡ s)
        × (late ≡ true → (t.state ≡ TiltState.blind) × (t.locked_until_mono ≡ s.locked_until_mono))
        × (late ≡ true → s.state ≡ TiltState.blind → t ≡ s)
        × (late ≡ true → s.state ≢ TiltState.blind → t.generation ≡ s.generation + 1)
  unfolding check_blind
  check_blind_lem now s = ground arith

  -- Every heartbeat gives the state a new generation, and the metrics that go to the frontend carry
  -- the state and the generation that the sentinel ends in.
  pub heartbeat_generation :
      (ms : R) (clicks errors successes : ℕ) (now : R) (s : Sentinel R)
      → let (t, m) = ingest_heartbeat ms clicks errors successes now s in
        (t.generation ≡ s.generation + 1)
        × (m.generation ≡ t.generation)
        × (m.state ≡ t.state)
        × (m.locked_until_mono ≡ t.locked_until_mono)
  unfolding ingest_heartbeat
  heartbeat_generation ms clicks errors successes now s = ground arith
