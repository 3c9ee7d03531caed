-- ===== src/Tilt/Samples.antt =====
-- src/domain/tilt_breaker.py: the ring buffers and the streak behind the tilt score.
use gektor.Base.{
  ℕ, zero, suc, ◌+◌, ◌-◌, ◌*◌, ◌≤◌, ◌<◌, ◌≡◌, min, max, true, false, Float, arith, length,
  length-set, nought, get_or-set_self, ring_back,
}
use gektor.Tilt.Trackers.{
  Reaction, Errors, Clicks, capacity, burst_capacity, new_reaction, record_reaction, last_sample,
  is_plausible, record_bad_decision, record_good_decision, record_click,
}
use gektor.Tilt.{repeat, Sentinel, feed}

module _ {R : Type 0} ⦃f : Float R⦄ where
  pub record IsRing (s : Reaction R) : Type 0 where
    pub slots : length s.buffer ≡ capacity
    pub in_range : s.head < capacity
    pub counted : s.count ≤ capacity

  pub new_reaction-IsRing : IsRing new_reaction
  unfolding new_reaction
  new_reaction-IsRing = ground arith

  -- A plausible reaction time is the sample that `get_drift` reads next, the ring stays well formed
  -- and the count rises up to the capacity; an implausible one changes nothing.
  pub record_reaction_last :
      (ms : R) (s : Reaction R)
      → IsRing s
      → let t = record_reaction ms s in
        IsRing t
        × (is_plausible ms ≡ true → (last_sample t ≡ ms) × (t.count ≡ min (s.count + 1) capacity))
        × (is_plausible ms ≡ false → t ≡ s)
  unfolding record_reaction
  record_reaction_last ms s h = ground (
    arith,
    length-set s.buffer s.head ms,
    ring_back s.head capacity,
    get_or-set_self s.buffer s.head ms nought,
  )

repeat-bad :
    (n : ℕ) (s : Errors)
    → s.streak ≤ s.max_streak_observed
    → let t = repeat n record_bad_decision s in
      (t.streak ≡ s.streak + n) × (t.max_streak_observed ≡ max s.max_streak_observed (s.streak + n))
unfolding repeat record_bad_decision
repeat-bad zero s h = ground arith
repeat-bad (suc n) s h = ground (arith, repeat-bad n (record_bad_decision s))

repeat-good :
    (n : ℕ) (s : Errors)
    → let t = repeat n record_good_decision s in
      (t.streak ≡ s.streak - 2 * n) × (t.max_streak_observed ≡ s.max_streak_observed)
unfolding repeat record_good_decision
repeat-good zero s = ground arith
repeat-good (suc n) s = ground (arith, repeat-good n (record_good_decision s))

module _ {R : Type 0} ⦃f : Float R⦄ where
  -- From a streak within the longest one seen, a frame with `bad` and `good` decisions moves the
  -- streak up by `bad`, then down by twice `good` but not below 0; the longest streak seen takes
  -- the peak between the two into account.
  pub feed_streak :
      (ms : R) (clicks bad good : ℕ) (now : R) (s : Sentinel R)
      → s.errors.streak ≤ s.errors.max_streak_observed
      → let t = (feed ms clicks bad good now s).errors in
        (t.streak ≡ s.errors.streak + bad - 2 * good)
        × (t.max_streak_observed ≡ max s.errors.max_streak_observed (s.errors.streak + bad))
        × (t.streak ≤ t.max_streak_observed)
  unfolding feed
  feed_streak ms clicks bad good now s h =
      ground
        (arith, repeat-bad bad s.errors, repeat-good good (repeat bad record_bad_decision s.errors))

  pub record IsBurst (s : Clicks R) : Type 0 where
    pub slots : length s.burst_buffer ≡ burst_capacity
    pub in_range : s.burst_head < burst_capacity
    pub counted : s.burst_count ≤ burst_capacity

  record_click-IsBurst :
      (now : R) (s : Clicks R)
      → IsBurst s
      → IsBurst (record_click now s)
        × ((record_click now s).burst_count ≡ min (s.burst_count + 1) burst_capacity)
  unfolding record_click
  record_click-IsBurst now s h = ground (arith, length-set s.burst_buffer s.burst_head now)

  repeat-click :
      (n : ℕ) (now : R) (s : Clicks R)
      → IsBurst s
      → let t = repeat n (record_click now) s in
        IsBurst t × (t.burst_count ≡ min (s.burst_count + n) burst_capacity)
  unfolding repeat
  repeat-click zero now s h = ground arith
  repeat-click (suc n) now s h =
      ground (arith, record_click-IsBurst now s h, repeat-click n now (record_click now s))

  -- A frame with any number of clicks keeps a well-formed burst ring well formed: 1000 clicks at
  -- most are recorded, and the burst count rises by them up to the capacity.
  pub feed-IsBurst :
      (ms : R) (clicks bad good : ℕ) (now : R) (s : Sentinel R)
      → IsBurst s.clicks
      → let t = (feed ms clicks bad good now s).clicks in
        IsBurst t × (t.burst_count ≡ min (s.clicks.burst_count + min 1000 clicks) burst_capacity)
  unfolding feed
  feed-IsBurst ms clicks bad good now s h = repeat-click (min 1000 clicks) now s.clicks h
