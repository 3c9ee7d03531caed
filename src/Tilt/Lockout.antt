-- ===== src/Tilt/Lockout.antt =====
-- src/domain/tilt_breaker.py: how the sentinel enters the lock, and what ends it.
use gektor.Base.{
  ℕ, ◌≡◌, ◌≢◌, ◌⊎◌, true, false, not, List, [], ◌∷◌, Float, arith, ◌⊕◌, ◌≺◌, ◌≼◌, All,
}
use gektor.Tilt.{
  TiltState, Sentinel, evaluate, ingest_heartbeat, is_execution_allowed, transition, composite,
  is_open, threshold_critical, threshold_elevated, threshold_clear_hysteresis,
}
use gektor.Tilt.Trackers.{reset_clicks, reset_errors}
use gektor.Tilt.Blind.{Event, time_of, step, run}

module _ {R : Type 0} ⦃f : Float R⦄ where
  -- Locked until `u`, or blind meanwhile.
  abbrev IsShut : R → Sentinel R → Type 0
  IsShut u s =
      ((((s.state ≡ TiltState.locked) ⊎ (s.state ≡ TiltState.cooldown))
        × (s.locked_until_mono ≡ u)))
      ⊎ (s.state ≡ TiltState.blind)

  step-IsShut :
      (u : R) (e : Event R) (s : Sentinel R)
      → (u ≼ time_of e) ≡ false
      → IsShut u s
      → IsShut u (step e s)
  unfolding step
  step-IsShut u (Event.heartbeat ms clicks errors successes now) s h k = ground arith
  step-IsShut u (Event.check now) s h k = ground arith

  run-IsShut :
      (u : R) (es : List (Event R)) (s : Sentinel R)
      → All (λ e. (u ≼ time_of e) ≡ false) es
      → IsShut u s
      → IsShut u (run es s)
  unfolding run
  run-IsShut u [] s h k = k
  run-IsShut u (e ∷ es) s h k = run-IsShut u es (step e s) h.1 (step-IsShut u e s h.0 k)

  evaluate-IsShut :
      (now : R) (s : Sentinel R)
      → is_open s.state ≡ true
      → (threshold_critical ≼ composite now s) ≡ true
      → IsShut (now ⊕ s.cooldown_sec) (evaluate now s).0
  unfolding evaluate
  evaluate-IsShut now s o c = ground arith

  shut-forbids : (u : R) (s : Sentinel R) → IsShut u s → is_execution_allowed s ≡ false
  unfolding is_execution_allowed
  shut-forbids u s h = ground arith

  -- After a heartbeat whose score locks an open sentinel, execution is forbidden after every history
  -- of heartbeats and checks that all come before the end of the cooldown.
  pub lock_holds :
      (es : List (Event R)) (now : R) (s : Sentinel R)
      → is_open s.state ≡ true
      → (threshold_critical ≼ composite now s) ≡ true
      → All (λ e. ((now ⊕ s.cooldown_sec) ≼ time_of e) ≡ false) es
      → is_execution_allowed (run es (evaluate now s).0) ≡ false
  lock_holds es now s o c h =
      let u = now ⊕ s.cooldown_sec in
      shut-forbids u _ (run-IsShut u es (evaluate now s).0 h (evaluate-IsShut now s o c))

  -- The first heartbeat at or after the end of a lock clears it: the streak and the burst count
  -- are 0 afterwards, and the state is open again unless that very score locks anew, for a full
  -- cooldown.
  pub lock_ends :
      (ms : R) (clicks errors successes : ℕ) (now : R) (s : Sentinel R)
      → (s.state ≡ TiltState.locked) ⊎ (s.state ≡ TiltState.cooldown)
      → (s.locked_until_mono ≼ now) ≡ true
      → let t = (ingest_heartbeat ms clicks errors successes now s).0 in
        (t.errors.streak ≡ 0)
        × (t.clicks.burst_count ≡ 0)
        × (is_execution_allowed t ≡ true
            ⊎ (t.state ≡ TiltState.locked) × (t.locked_until_mono ≡ now ⊕ s.cooldown_sec))
  unfolding ingest_heartbeat is_execution_allowed reset_clicks reset_errors
  lock_ends ms clicks errors successes now s l h = ground arith

  -- How an open sentinel moves under a score: it locks from the critical threshold on, is elevated
  -- from the elevated one on, clears only under the lower hysteresis bound, and keeps its state in
  -- the band between; execution stays allowed exactly below the critical threshold.
  pub hysteresis :
      (now score : R) (s : Sentinel R)
      → is_open s.state ≡ true
      → let t = transition now score s in
        (is_execution_allowed t ≡ not (threshold_critical ≼ score))
        × ((threshold_critical ≼ score) ≡ true
            → (t.state ≡ TiltState.locked) × (t.locked_until_mono ≡ now ⊕ s.cooldown_sec))
        × ((threshold_critical ≼ score) ≡ false
            → (threshold_elevated ≼ score) ≡ true
            → t.state ≡ TiltState.elevated)
        × (s.state ≡ TiltState.elevated
            → (score ≺ threshold_clear_hysteresis) ≡ false
            → t.state ≢ TiltState.clear)
        × (s.state ≡ TiltState.clear
            → (threshold_elevated ≼ score) ≡ false
            → (threshold_critical ≼ score) ≡ false
            → t ≡ s)
  unfolding transition is_execution_allowed
  hysteresis now score s o = ground arith
