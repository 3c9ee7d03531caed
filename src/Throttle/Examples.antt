-- ===== src/Throttle/Examples.antt =====
-- A gate and a bucket on whole numbers, and the instances of their theorems.
use gektor.Base.{
  ℕ, ◌+◌, ◌*◌, ◌%◌, ◌≤◌, ◌≺◌, ◌≡◌, refl, ap, ◌∙◌, ℤ, pos, negsuc, pos_part, neg_part, eq_of_parts,
  true, some, List, [], ◌∷◌, if◌then◌else◌, ◌==◌, arith, ◌⊕◌, ◌⊖◌, ◌⊗◌, ◌≼◌, nought,
}
use gektor.Base.Wholes.{whole, plus, minus, times, of_parts, plus_lem, minus_lem, times_lem}
use gektor.Throttle.{
  Gate, Ending, TokenBucket, new_gate, finish, finish_all, new_bucket, acquire_all, circuit_wait,
}
use gektor.Throttle.Circuit.{streak, circuit_opens}
use gektor.Throttle.Rate.{IsLinear, spent, granted_bound, costly_waits}

abbrev gate : Gate ℤ
gate = record {
  max_concurrent = 2;
  min_interval = pos 1;
  next_allowed_mono = pos 0;
  failures = 0;
  circuit_open_until = pos 0;
  circuit_fail_threshold = 2;
  circuit_cooldown = pos 30;
  backoff_base = pos 1;
  backoff_max = pos 12;
}

gate_built : new_gate {R = ℤ} 2 (pos 1) 2 (pos 30) (pos 1) (pos 12) ≡ some gate
unfolding new_gate
gate_built = refl

-- Two rate limits with another failure between them.
abbrev endings : List (Ending ℤ)
endings =
    Ending.rate_limited (pos 0) (pos 5) (pos 6)
    ∷ Ending.broken (pos 9)
    ∷ Ending.rate_limited (pos 0) (pos 10) (pos 11)
    ∷ []

second_limit_opens :
    let g = finish_all endings gate in
    (g.circuit_open_until ≡ pos 40)
    × (g.failures ≡ 0)
    × (g.next_allowed_mono ≡ pos 16)
    × (circuit_wait (pos 38) g ≡ pos 2)
unfolding finish_all plus minus of_parts times circuit_wait
second_limit_opens = (refl, refl, refl, refl)

abbrev first_ending : List (Ending ℤ)
first_ending = Ending.rate_limited (pos 0) (pos 5) (pos 6) ∷ Ending.broken (pos 9) ∷ []

circuit_opens_example :
    let h = finish_all first_ending gate in
    let t = finish (Ending.rate_limited (pos 0) (pos 10) (pos 11)) h in
    t.circuit_open_until ≡ (
      if ((streak first_ending 0 + 1) % 2) == 0
      then pos 10 ⊕ h.circuit_cooldown
      else h.circuit_open_until)
circuit_opens_example =
    circuit_opens 2 2 (pos 1) (pos 30) (pos 1) (pos 12) first_ending (pos 0) (pos 10) (pos 11) gate
      (omega arith) gate_built

-- (u - s) + (n - u) = n - s, by parts.
minus_sum :
    (s u n : ℤ)
    → pos_part (minus u s) + pos_part (minus n u) + neg_part (minus n s)
      ≡ neg_part (minus u s) + neg_part (minus n u) + pos_part (minus n s)
minus_sum s u n = omega (arith, minus_lem u s, minus_lem n u, minus_lem n s)

-- (u - s) * r + (n - u) * r = (n - s) * r
times_spread :
    (s u n r : ℤ) → plus (times (minus u s) r) (times (minus n u) r) ≡ times (minus n s) r
times_spread s u n r =
    let p = pos_part r in
    let q = neg_part r in
    eq_of_parts _ _ (
      omega (
        arith,
        plus_lem (times (minus u s) r) (times (minus n u) r),
        times_lem (minus u s) r,
        times_lem (minus n u) r,
        times_lem (minus n s) r,
        ap (λ (t : ℕ). t * p) (minus_sum s u n),
        ap (λ (t : ℕ). t * q) (minus_sum s u n),
      ))

plus_spread :
    (c s u n r : ℤ)
    → plus (plus c (times (minus u s) r)) (times (minus n u) r) ≡ plus c (times (minus n s) r)
plus_spread c s u n r =
    let a = times (minus u s) r in
    let b = times (minus n u) r in
    eq_of_parts (plus (plus c a) b) (plus c (plus a b))
      (omega (arith, plus_lem c a, plus_lem a b, plus_lem (plus c a) b, plus_lem c (plus a b)))
    ∙ ap (λ (t : ℤ). plus c t) (times_spread s u n r)

-- The product of two numbers that are not negative is none.
plus_grows :
    (t s n r : ℤ) → (s ≼ n) ≡ true → (nought ≼ r) ≡ true → (t ≼ plus t (times (minus n s) r)) ≡ true
plus_grows t s n (pos r) p q =
    let d = minus_lem n s in
    let m = times_lem (minus n s) (pos r) in
    let e : neg_part (minus n s) ≤ pos_part (minus n s) = ground arith in
    let f : neg_part (minus n s) * r ≤ pos_part (minus n s) * r = grind arith in
    ground (arith, plus_lem t (times (minus n s) (pos r)))
plus_grows t s n (negsuc r) p q = absurd (ground arith)

whole-IsLinear : IsLinear ℤ
whole-IsLinear = record {
  chain = λ a b c p q. ground arith;
  weaken = λ a b p. ground arith;
  slack = λ a. ground (arith, plus_lem a (pos 0));
  self = λ a. ground arith;
  left_mono = λ a b c p. ground (arith, plus_lem a c, plus_lem b c);
  right_mono = λ a b c p. ground (arith, plus_lem a b, plus_lem a c);
  assoc = λ a b c.
      eq_of_parts (plus a (plus b c)) (plus (plus a b) c)
        (omega (arith, plus_lem b c, plus_lem a b, plus_lem a (plus b c), plus_lem (plus a b) c));
  zero_plus = λ a. eq_of_parts (plus (pos 0) a) a (omega (arith, plus_lem (pos 0) a));
  move_over = λ g c t.
      eq_of_parts (plus (plus g c) (minus t c)) (plus g t)
        (omega (arith, plus_lem g c, minus_lem t c, plus_lem (plus g c) (minus t c), plus_lem g t));
  left_over = λ c t e p. ground (arith, plus_lem t e, minus_lem t c, plus_lem (minus t c) e);
  spread = λ c s u n r. plus_spread c s u n r;
  grows = λ t s n r p q. plus_grows t s n r p q;
}

abbrev bucket : TokenBucket ℤ
bucket = record { rate = pos 2; capacity = pos 3; tokens = pos 3; updated_monotonic = pos 0 }

bucket_built : new_bucket {R = ℤ} (pos 2) (pos 3) (pos 0) ≡ some bucket
unfolding new_bucket
bucket_built = refl

-- Four requests at once, and one a second later.
abbrev burst_of_four : List (ℤ × ℤ)
burst_of_four =
    (pos 1, pos 0) ∷ (pos 1, pos 0) ∷ (pos 1, pos 0) ∷ (pos 1, pos 0) ∷ (pos 1, pos 1) ∷ []

four_granted : (acquire_all burst_of_four bucket).1 ≡ pos 1 ∷ pos 1 ∷ pos 1 ∷ pos 1 ∷ []
unfolding acquire_all plus minus times of_parts
four_granted = refl

granted_bound_example :
    let (d, granted) = acquire_all burst_of_four bucket in
    (spent nought granted ⊕ d.tokens ≼ pos 3 ⊕ (d.updated_monotonic ⊖ pos 0) ⊗ pos 2 ≡ true)
    × (nought ≼ d.tokens ⊕ pos 0 ≡ true)
granted_bound_example =
    granted_bound (pos 3) (pos 2) (pos 0) burst_of_four bucket whole-IsLinear bucket_built
      (refl, (refl, (refl, (refl, (refl, tt)))))

costly : (plus (pos 3) (pos 0) ≺ pos 4) ≡ true
unfolding plus of_parts
costly = refl

costly_waits_example : (acquire_all ((pos 4, pos 1) ∷ (pos 4, pos 100) ∷ []) bucket).1 ≡ []
costly_waits_example =
    costly_waits ((pos 4, pos 1) ∷ (pos 4, pos 100) ∷ []) bucket whole-IsLinear
      (costly, (costly, tt))
