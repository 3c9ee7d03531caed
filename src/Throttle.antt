-- ===== src/Throttle.antt =====
-- src/infrastructure/gektor_l2/resync_gate.py: `RestResyncGate`, and reconnect_throttle.py beside it:
-- `AsyncReconnectTokenBucket`. The clock and the jitter are arguments. A coroutine is cut at its
-- awaits; asyncio's semaphore and locks are left out.
pub mod Circuit
pub mod Rate
mod Examples
use gektor.Base.{
  ℕ, ◌+◌, ◌^◌, min, Bool, true, false, Option, none, some, List, [], ◌∷◌, if◌then◌else◌, ltb, leb,
  Float, ◌⊕◌, ◌⊖◌, ◌⊗◌, ◌⊘◌, ◌≺◌, ◌≼◌, nought, min_of,
}

pub record Gate (R : Type 0) : Type 0 where
  pub max_concurrent : ℕ
  pub min_interval : R
  pub next_allowed_mono : R
  pub failures : ℕ
  pub circuit_open_until : R
  pub circuit_fail_threshold : ℕ
  pub circuit_cooldown : R
  pub backoff_base : R
  pub backoff_max : R

-- How a request ends, with the clock after it; of a rate limit also the jitter and the clock at which
-- the circuit would open.
pub data Ending (R : Type 0) : Type 0 where
  answered : R → Ending R
  rate_limited : R → R → R → Ending R
  broken : R → Ending R

pub record TokenBucket (R : Type 0) : Type 0 where
  pub rate : R
  pub capacity : R
  pub tokens : R
  pub updated_monotonic : R

module _ {R : Type 0} ⦃f : Float R⦄ where
  -- `none` is the `ValueError`.
  unfoldable pub new_gate : ℕ → R → ℕ → R → R → R → Option (Gate R)
  new_gate max_concurrent min_interval threshold cooldown base maximum =
      if ltb max_concurrent 1
      then none
      else some (record {
        max_concurrent = max_concurrent;
        min_interval = min_interval;
        next_allowed_mono = nought;
        failures = 0;
        circuit_open_until = nought;
        circuit_fail_threshold = threshold;
        circuit_cooldown = cooldown;
        backoff_base = base;
        backoff_max = maximum;
      })

  unfoldable pub is_circuit_open : R → Gate R → Bool
  is_circuit_open now g = now ≺ g.circuit_open_until

  -- The two sleeps of `run_throttled` before the request.
  unfoldable pub circuit_wait : R → Gate R → R
  unfolding is_circuit_open
  circuit_wait now g = if is_circuit_open now g then g.circuit_open_until ⊖ now else nought

  unfoldable pub spacing_wait : R → Gate R → R
  spacing_wait now g = let gap = g.next_allowed_mono ⊖ now in if nought ≺ gap then gap else nought

  -- The backoff after so many failures.
  unfoldable pub backoff : ℕ → R → Gate R → R
  backoff failures jitter g =
      min_of g.backoff_max (g.backoff_base ⊗ f.of_int (2 ^ min failures 8)) ⊕ jitter

  -- `_on_rate_limit`, up to its sleep.
  unfoldable pub on_rate_limit : R → R → R → Gate R → Gate R
  unfolding backoff
  on_rate_limit jitter opened now g =
      let failures = g.failures + 1 in
      let sleep_s = backoff failures jitter g in
      let opens = leb g.circuit_fail_threshold failures in
      record g {
        failures = if opens then 0 else failures;
        circuit_open_until = if opens then opened ⊕ g.circuit_cooldown else g.circuit_open_until;
        next_allowed_mono = now ⊕ g.min_interval ⊕ sleep_s;
      }

  -- `run_throttled` behind the request.
  unfoldable pub finish : Ending R → Gate R → Gate R
  unfolding on_rate_limit
  finish (Ending.answered now) g = record g {
    next_allowed_mono = now ⊕ g.min_interval;
    failures = 0;
  }
  finish (Ending.rate_limited jitter opened now) g = on_rate_limit jitter opened now g
  finish (Ending.broken now) g = record g { next_allowed_mono = now ⊕ g.min_interval }

  unfoldable pub finish_all : List (Ending R) → Gate R → Gate R
  unfolding finish
  finish_all [] g = g
  finish_all (e ∷ es) g = finish_all es (finish e g)

  -- `none` is the `ValueError`.
  unfoldable pub new_bucket : R → R → R → Option (TokenBucket R)
  new_bucket tokens_per_second burst now =
      if tokens_per_second ≼ nought
      then none
      else if burst ≼ nought
      then none
      else some (record {
        rate = tokens_per_second;
        capacity = burst;
        tokens = burst;
        updated_monotonic = now;
      })

  unfoldable pub refill : R → TokenBucket R → TokenBucket R
  refill now b = record b {
    updated_monotonic = now;
    tokens = min_of b.capacity (b.tokens ⊕ (now ⊖ b.updated_monotonic) ⊗ b.rate);
  }

  -- One round of `acquire`, under the lock: `some` is the wait before the next round.
  unfoldable pub try_acquire : R → R → TokenBucket R → TokenBucket R × Option R
  unfolding refill
  try_acquire cost now b =
      let filled = refill now b in
      if cost ≼ filled.tokens ⊕ f.lit 1 12
      then (record filled { tokens = filled.tokens ⊖ cost }, none)
      else (filled, some ((cost ⊖ filled.tokens) ⊘ filled.rate))

  abbrev pub granted_with : Option R → R → List R → List R
  granted_with none cost granted = cost ∷ granted
  granted_with (some wait) cost granted = granted

  -- Rounds of any calls, each with its cost and its clock; the costs of those that were granted.
  unfoldable pub acquire_all : List (R × R) → TokenBucket R → TokenBucket R × List R
  unfolding try_acquire
  acquire_all [] b = (b, [])
  acquire_all ((cost, now) ∷ rest) b =
      let (c, wait) = try_acquire cost now b in
      let (d, granted) = acquire_all rest c in (d, granted_with wait cost granted)
