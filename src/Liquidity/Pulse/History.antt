-- ===== src/Liquidity/Pulse/History.antt =====
-- src/domain/liquidity_detectors.py: how many buckets an `OFIPulseDetector` has behind a pulse.
use gektor.Base.{
  ℕ, ◌+◌, ◌≤◌, ◌<◌, ◌≡◌, refl, Bool, Option, none, some, List, [], ◌∷◌, map, String, str_eq,
  Bool-cases, inl, inr, ltb, ◌==◌, arith, length, length-take, Float, ◌⊖◌, ◌⊗◌, ◌≺◌, ◌≐◌, nought,
}
use gektor.Base.Dicts.{Dict, lookup, insert, lookup-insert}
use gektor.Liquidity.Alerts.{Extra, LiquidityAlert, Tick, cooling}
use gektor.Liquidity.Pulse.{
  Bucket, PulseDetector, new, put, add_trade, abs_ofi, median, pulse_ratio, with_ratio, pulse_of,
  pulse_alert, deque_or, with_trade, process_tick,
}

module _ {R : Type 0} ⦃f : Float R⦄ where
  add_trade-bounded :
      (m : ℕ) (start : R) (maker : Bool) (notional : R) (bq : List (Bucket R))
      → length bq ≤ m
      → length (add_trade m start maker notional bq) ≤ m
  unfolding add_trade
  add_trade-bounded m start maker notional [] h =
      let opened : Bucket R =
        put maker notional
          (record { bucket_start_ts = start; buy_usd = nought; sell_usd = nought }) in
      omega (arith, length-take m (opened ∷ []))
  add_trade-bounded m start maker notional (b ∷ older) h =
      let opened : Bucket R =
        put maker notional
          (record { bucket_start_ts = start; buy_usd = nought; sell_usd = nought }) in
      elim (Bool-cases (b.bucket_start_ts ≐ start)) [
        | inl e ↦ rw e h
        | inr e ↦ rw e (omega (arith, length-take m (opened ∷ b ∷ older)))
      ]

  -- No deque is longer than its `maxlen`.
  abbrev pub Short : ℕ → Dict (List (Bucket R)) → Type 0
  Short m d = (symbol : String) → length (deque_or (lookup symbol d)) ≤ m

  insert-Short :
      (m : ℕ) (symbol : String) (bq : List (Bucket R)) (d : Dict (List (Bucket R)))
      → Short m d
      → length bq ≤ m
      → Short m (insert symbol bq d)
  insert-Short m symbol bq d h l other = elim (Bool-cases (str_eq symbol other)) [
    | inl e ↦ rw (lookup-insert symbol other bq d, e) l
    | inr e ↦ rw (lookup-insert symbol other bq d, e) (h other)
  ]

  -- The number of older buckets that an alert reports.
  abbrev pub Backed : PulseDetector R → Option (LiquidityAlert R) → Type 0
  Backed d none = Unit
  Backed d (some a) =
      (ratio : R) × (median_abs : R) × (n : ℕ) × (a.extra
        ≡ Extra.pulsed ratio d.k median_abs d.bucket_sec n)
      × (d.min_history ≤ n)
      × (n < d.history_buckets)

  -- The number of older buckets that a pulse has.
  abbrev pub Enough : ℕ → List (Bucket R) → Option (R × R × R × ℕ) → Type 0
  Enough least bq none = Unit
  Enough least bq (some (o, r, m, n)) = (least ≤ n) × (n < length bq)

  with_ratio-Enough :
      (cur : Bucket R) (older : List (Bucket R)) (least : ℕ) (o m : R) (r : Option R)
      → least ≤ length older
      → Enough least (cur ∷ older) (with_ratio o m (length older) r)
  with_ratio-Enough cur older least o m none h = tt
  with_ratio-Enough cur older least o m (some r) h = (h, omega arith)

  pulse_of-Enough :
      (infinity : R) (bq : List (Bucket R)) (d : PulseDetector R)
      → Enough d.min_history bq (pulse_of infinity bq d)
  unfolding pulse_of
  pulse_of-Enough infinity [] d = tt
  pulse_of-Enough infinity (cur ∷ older) d =
      let cur_ofi = cur.buy_usd ⊖ cur.sell_usd in
      let median_abs = median (map abs_ofi older) in
      elim (Bool-cases (ltb (length (cur ∷ older)) (d.min_history + 1))) [
        | inl e ↦ rw e tt
        | inr e ↦ elim (Bool-cases (f.magnitude cur_ofi ≺ d.min_notional_usd)) [
          | inl x ↦ rw (e, x) tt
          | inr x ↦ elim (Bool-cases (length older == 0)) [
            | inl y ↦ rw (e, x, y) tt
            | inr y ↦
                rw (e, x, y)
                  (with_ratio-Enough cur older d.min_history cur_ofi median_abs
                    (pulse_ratio infinity (f.magnitude cur_ofi) median_abs d) (ground arith))
          ]
        ]
      ]

  pulse_alert-Backed :
      (o : Option (R × R × R × ℕ)) (t : Tick R) (d : PulseDetector R) (bq : List (Bucket R))
      → Enough d.min_history bq o
      → length bq ≤ d.history_buckets
      → Backed d (pulse_alert o t d).1
  unfolding pulse_alert
  pulse_alert-Backed none t d bq h l = tt
  pulse_alert-Backed (some (o, r, m, n)) t d bq h l =
      elim (Bool-cases (cooling (lookup t.symbol d.last_alert_ts) t.ts d.cooldown_sec)) [
        | inl e ↦ rw e tt
        | inr e ↦ rw e (r, m, n, refl, h.0, omega (arith, h.1))
      ]

  Backed-same :
      (d e : PulseDetector R) (o : Option (LiquidityAlert R))
      → e.history_buckets ≡ d.history_buckets
      → e.min_history ≡ d.min_history
      → e.k ≡ d.k
      → e.bucket_sec ≡ d.bucket_sec
      → Backed e o
      → Backed d o
  Backed-same d e none p q r s b = b
  Backed-same d e (some a) p q r s b = rw (← p, ← q, ← r, ← s) b

  Backed-none :
      (d : PulseDetector R) (o : Option (LiquidityAlert R))
      → d.history_buckets ≤ d.min_history
      → Backed d o
      → o ≡ none
  Backed-none d none l b = refl
  Backed-none d (some a) l (r, m, n, e, p, q) = absurd (omega arith)

  new-empty :
      (bucket_sec : R) (history_buckets : ℕ) (k min_notional : R) (min_history : ℕ) (cooldown : R)
      (d : PulseDetector R)
      → new bucket_sec history_buckets k min_notional min_history cooldown ≡ some d
      → d.buckets ≡ []
  unfolding new
  new-empty bucket_sec history_buckets k min_notional min_history cooldown d h = ground arith

module _ {R : Type 0} ⦃f : Float R⦄ (modulo : R → R → R) (infinity : R) where
  unfoldable pub run : List (Tick R) → PulseDetector R → PulseDetector R
  run [] d = d
  run (t ∷ ts) d = run ts (process_tick modulo infinity t d).0

  record Keeps (d e : PulseDetector R) : Type 0 where
    short : Short d.history_buckets e.buckets
    same_buckets : e.history_buckets ≡ d.history_buckets
    same_history : e.min_history ≡ d.min_history
    same_k : e.k ≡ d.k
    same_bucket_sec : e.bucket_sec ≡ d.bucket_sec

  pulse_alert-Keeps :
      (o : Option (R × R × R × ℕ)) (t : Tick R) (d e : PulseDetector R)
      → Keeps d e
      → Keeps d (pulse_alert o t e).0
  unfolding pulse_alert
  pulse_alert-Keeps none t d e h = h
  pulse_alert-Keeps (some (o, r, m, n)) t d e h =
      elim (Bool-cases (cooling (lookup t.symbol e.last_alert_ts) t.ts e.cooldown_sec)) [
        | inl y ↦ rw y h
        | inr y ↦ rw y (record {
          short = h.short;
          same_buckets = h.same_buckets;
          same_history = h.same_history;
          same_k = h.same_k;
          same_bucket_sec = h.same_bucket_sec;
        })
      ]

  traded-bounded :
      (t : Tick R) (d e : PulseDetector R)
      → Keeps d e
      → length (with_trade modulo t e) ≤ d.history_buckets
  unfolding with_trade
  traded-bounded t d e h = rw h.same_buckets (
      add_trade-bounded d.history_buckets (t.ts ⊖ modulo t.ts e.bucket_sec) t.is_buyer_maker
        (t.price ⊗ t.size) (deque_or (lookup t.symbol e.buckets)) (h.short t.symbol))

  tick-Keeps :
      (t : Tick R) (d e : PulseDetector R)
      → Keeps d e
      → Keeps d (process_tick modulo infinity t e).0 × Backed d (process_tick modulo infinity t e).1
  unfolding process_tick
  tick-Keeps t d e h =
      let bq = with_trade modulo t e in
      let e2 = record e { buckets = insert t.symbol bq e.buckets } in
      let l = traded-bounded t d e h in
      let l2 : length bq ≤ e2.history_buckets = omega (arith, h.same_buckets, l) in
      let k : Keeps d e2 = record {
        short = insert-Short d.history_buckets t.symbol bq e.buckets h.short l;
        same_buckets = h.same_buckets;
        same_history = h.same_history;
        same_k = h.same_k;
        same_bucket_sec = h.same_bucket_sec;
      } in
      (
        pulse_alert-Keeps (pulse_of infinity bq e) t d e2 k,
        Backed-same d e2 (pulse_alert (pulse_of infinity bq e) t e2).1 h.same_buckets h.same_history
            h.same_k h.same_bucket_sec
            (pulse_alert-Backed (pulse_of infinity bq e) t e2 bq (pulse_of-Enough infinity bq e)
              l2),
      )

  nothing-Short : (m : ℕ) → Short {R = R} m []
  unfolding lookup
  nothing-Short m symbol = omega arith

  run-Keeps : (ts : List (Tick R)) (d e : PulseDetector R) → Keeps d e → Keeps d (run ts e)
  unfolding run
  run-Keeps [] d e h = h
  run-Keeps (t ∷ ts) d e h =
      run-Keeps ts d (process_tick modulo infinity t e).0 (tick-Keeps t d e h).0

  -- After any history of ticks of a new detector, a pulse alert rests on at least `min_history` older buckets and on fewer than
  -- `history_buckets`, and says on how many; so a detector that was made with `min_history` at or above
  -- `history_buckets` never raises one.
  pub pulse_history :
      (ts : List (Tick R)) (t : Tick R) (bucket_sec : R) (history_buckets : ℕ) (k min_notional : R)
      (min_history : ℕ) (cooldown : R) (d : PulseDetector R)
      → new bucket_sec history_buckets k min_notional min_history cooldown ≡ some d
      → let o = (process_tick modulo infinity t (run ts d)).1 in
        Backed d o × (d.history_buckets ≤ d.min_history → o ≡ none)
  pulse_history ts t bucket_sec history_buckets k min_notional min_history cooldown d h =
      let e : d.buckets ≡ [] =
        new-empty bucket_sec history_buckets k min_notional min_history cooldown d h in
      let start : Keeps d d = record {
        short = rw e (nothing-Short d.history_buckets);
        same_buckets = refl;
        same_history = refl;
        same_k = refl;
        same_bucket_sec = refl;
      } in
      let b = (tick-Keeps t d (run ts d) (run-Keeps ts d d start)).1 in
      (b, λ l. Backed-none d (process_tick modulo infinity t (run ts d)).1 l b)
