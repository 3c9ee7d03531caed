-- ===== src/Throttle/Circuit.antt =====
-- src/infrastructure/gektor_l2/resync_gate.py: how the circuit breaker counts rate limits.
use gektor.Base.{
  ℕ, ◌+◌, ◌%◌, ◌<◌, ◌≡◌, refl, sym, some, List, [], ◌∷◌, if◌then◌else◌, leb, ltb, ◌==◌, arith,
  wrapped, Bool-cases, inl, inr, Float, ◌⊕◌,
}
use native.Mathlib.Nat.{zero-mod}
use mathlib.Core.Option.{some-injective}
use gektor.Throttle.{Gate, Ending, new_gate, on_rate_limit, finish, finish_all}

-- The counter is full exactly when the streak is a multiple of the threshold.
full_at : (n k : ℕ) → 0 < k → leb k (n % k + 1) ≡ (((n + 1) % k) == 0)
full_at n k p =
    let w = wrapped n k p in
    elim (Bool-cases (leb k (n % k + 1))) [
      | inl y ↦ let z = rw y at w in rw (y, ← z) refl
      | inr y ↦ let z = rw y at w in rw (y, ← z) (ground arith)
    ]

module _ {R : Type 0} ⦃f : Float R⦄ where
  -- The rate limits since the last answer, those before the list included.
  abbrev pub streak : List (Ending R) → ℕ → ℕ
  streak [] n = n
  streak (Ending.answered now ∷ es) n = streak es 0
  streak (Ending.rate_limited jitter opened now ∷ es) n = streak es (n + 1)
  streak (Ending.broken now ∷ es) n = streak es n

  -- The gate counts the streak, and starts again at its threshold.
  record CountsTo (threshold n : ℕ) (g : Gate R) : Type 0 where
    limit : g.circuit_fail_threshold ≡ threshold
    count : g.failures ≡ n % threshold

  finish-CountsTo :
      (k n : ℕ) (e : Ending R) (g : Gate R)
      → 0 < k
      → CountsTo k n g
      → CountsTo k (streak (e ∷ []) n) (finish e g)
  unfolding finish on_rate_limit
  finish-CountsTo k n (Ending.answered now) g p h = record {
    limit = h.limit;
    count = sym (zero-mod k);
  }
  finish-CountsTo k n (Ending.rate_limited jitter opened now) g p h = record {
    limit = h.limit;
    count = rw (h.limit, h.count) (wrapped n k p);
  }
  finish-CountsTo k n (Ending.broken now) g p h = record { limit = h.limit; count = h.count }

  finish_all-CountsTo :
      (k n : ℕ) (es : List (Ending R)) (g : Gate R)
      → 0 < k
      → CountsTo k n g
      → CountsTo k (streak es n) (finish_all es g)
  unfolding finish_all
  finish_all-CountsTo k n [] g p h = h
  finish_all-CountsTo k n (Ending.answered now ∷ es) g p h =
      finish_all-CountsTo k 0 es _ p (finish-CountsTo k n (Ending.answered now) g p h)
  finish_all-CountsTo k n (Ending.rate_limited jitter opened now ∷ es) g p h =
      finish_all-CountsTo k (n + 1) es _ p
        (finish-CountsTo k n (Ending.rate_limited jitter opened now) g p h)
  finish_all-CountsTo k n (Ending.broken now ∷ es) g p h =
      finish_all-CountsTo k n es _ p (finish-CountsTo k n (Ending.broken now) g p h)

  built-CountsTo :
      (concurrent k : ℕ) (interval cooldown base maximum : R) (g : Gate R)
      → new_gate concurrent interval k cooldown base maximum ≡ some g
      → CountsTo k 0 g
  unfolding new_gate
  built-CountsTo concurrent k interval cooldown base maximum g e =
      elim (Bool-cases (ltb concurrent 1)) [
        | inl y ↦ absurd (let q = rw y at e in cc)
        | inr y ↦
            let q = some-injective _ g (rw y at e) in
            rw (← q) (record { limit = refl; count = sym (zero-mod k) })
      ]

  -- After every history of a new gate whose threshold is positive, a further rate limit opens the
  -- circuit for the cooldown exactly if the number of rate limits since the last answer, with this
  -- one, is a multiple of the threshold; else the circuit stays as it was. Requests that fail
  -- otherwise count neither way.
  pub circuit_opens :
      (concurrent threshold : ℕ) (interval cooldown base maximum : R) (es : List (Ending R))
      (jitter opened now : R) (g : Gate R)
      → 0 < threshold
      → new_gate concurrent interval threshold cooldown base maximum ≡ some g
      → let h = finish_all es g in
        let t = finish (Ending.rate_limited jitter opened now) h in
        t.circuit_open_until ≡ (
          if ((streak es 0 + 1) % threshold) == 0
          then opened ⊕ h.circuit_cooldown
          else h.circuit_open_until)
  unfolding finish on_rate_limit
  circuit_opens concurrent k interval cooldown base maximum es jitter opened now g p e =
      let c =
        finish_all-CountsTo k 0 es g p
          (built-CountsTo concurrent k interval cooldown base maximum g e) in
      rw (c.limit, c.count, full_at (streak es 0) k p) refl
