-- ===== src/Vpin/Window.antt =====
-- src/domain/vpin_engine.py: the warm-up of the engine, and the price that the return is taken from.
use gektor.Base.{
  ℕ, ◌-◌, ◌≤◌, ◌<◌, ◌≡◌, refl, sym, ◌∙◌, subst, Bool, true, false, ◌&&◌, Option, none, some, List,
  [], ◌∷◌, ◌++◌, if◌then◌else◌, ltb, leb, arith, length, get_or, length-replicate, leb→le,
  Bool-cases, inl, inr, Float, ◌⊖◌, ◌≺◌, ◌≼◌, nought,
}
use native.Mathlib.Nat.{zero-mod}
use mathlib.Core.List.{append_assoc, append-nil}
use mathlib.Core.Option.{some-injective}
use gektor.Vpin.{
  Signal, Bar, Surroundings, Vpin, reset_o1, decayed, push_bar, vpin_of, signal_of, assess,
  process_bar, new,
}
use gektor.Vpin.Prices.{
  IsWindow, rest-IsWindow, oldest_price, pushed-IsWindow, pushed-size, rest-size,
}

module _ {R : Type 0} ⦃f : Float R⦄ where
  -- What an engine with these closes in its window says of the next bar.
  abbrev pub Says : List R → Bar R → ℕ → Option (Signal R) → Type 0
  Says closes bar w none = length closes < w
  Says closes bar w (some s) =
      (w ≤ length closes)
      × (s.absorption_detected ≡ (
          s.is_anomaly
          && (if nought ≺ bar.buy_volume_usd ⊖ bar.sell_volume_usd
              then bar.close ⊖ get_or closes (length closes - w) nought ≼ nought
              else if bar.buy_volume_usd ⊖ bar.sell_volume_usd ≺ nought
              then nought ≼ bar.close ⊖ get_or closes (length closes - w) nought
              else false)))

  assess-size :
      (b : Bool) (sqrt : R → R) (imbalance price : R) (w : Vpin R)
      → (assess b sqrt imbalance price w).0.window_size ≡ w.window_size
  unfolding assess
  assess-size false sqrt imbalance price w = refl
  assess-size true sqrt imbalance price w = rest-size (vpin_of w) w

  process-size :
      (o : Surroundings R) (now : R) (bar : Bar R) (v : Vpin R)
      → (process_bar o now bar v).0.window_size ≡ v.window_size
  unfolding process_bar
  process-size o now bar v =
      let w =
        push_bar (f.magnitude (bar.buy_volume_usd ⊖ bar.sell_volume_usd)) bar.close
          (decayed o now v) in
      assess-size w.is_filled o.sqrt (bar.buy_volume_usd ⊖ bar.sell_volume_usd) bar.close w
      ∙ pushed-size o now (f.magnitude (bar.buy_volume_usd ⊖ bar.sell_volume_usd)) bar.close v

  assess-IsWindow :
      (b : Bool) (sqrt : R → R) (bar : Bar R) (log : List R) (w : Vpin R)
      → IsWindow log w
      → w.is_filled ≡ b
      → let (t, s) = assess b sqrt (bar.buy_volume_usd ⊖ bar.sell_volume_usd) bar.close w in
        IsWindow log t × Says log bar w.window_size s
  unfolding assess signal_of
  assess-IsWindow false sqrt bar log w k e =
      let z : leb w.window_size (length log) ≡ false = sym k.full ∙ e in (k, ground arith)
  assess-IsWindow true sqrt bar log w k e =
      let l : w.window_size ≤ length log = leb→le w.window_size (length log) (sym k.full ∙ e) in
      (rest-IsWindow (vpin_of w) log w k, (l, rw (oldest_price log w k l) refl))

  process_bar-IsWindow :
      (o : Surroundings R) (now : R) (bar : Bar R) (closes : List R) (v : Vpin R)
      → IsWindow closes v
      → IsWindow (closes ++ (bar.close ∷ [])) (process_bar o now bar v).0
        × Says (closes ++ (bar.close ∷ [])) bar v.window_size (process_bar o now bar v).1
  unfolding process_bar
  process_bar-IsWindow o now bar closes v h =
      let log = closes ++ (bar.close ∷ []) in
      let w =
        push_bar (f.magnitude (bar.buy_volume_usd ⊖ bar.sell_volume_usd)) bar.close
          (decayed o now v) in
      let k = pushed-IsWindow o now bar closes v h in
      let size : w.window_size ≡ v.window_size =
        pushed-size o now (f.magnitude (bar.buy_volume_usd ⊖ bar.sell_volume_usd)) bar.close v in
      let (a, s) = assess-IsWindow w.is_filled o.sqrt bar log w k refl in
      (
        a,
        subst
            (λ (n : ℕ).
              Says log bar n
                (assess w.is_filled o.sqrt (bar.buy_volume_usd ⊖ bar.sell_volume_usd) bar.close
                  w).1)
            size s,
      )

module _ {R : Type 0} ⦃f : Float R⦄ (o : Surroundings R) where
  -- Bars, each with the time at which it comes.
  unfoldable pub run : List (R × Bar R) → Vpin R → Vpin R
  run [] v = v
  run ((now, bar) ∷ bars) v = run bars (process_bar o now bar v).0

  abbrev pub closes_of : List (R × Bar R) → List R
  closes_of [] = []
  closes_of ((now, bar) ∷ bars) = bar.close ∷ closes_of bars

  run-IsWindow :
      (bars : List (R × Bar R)) (closes : List R) (v : Vpin R)
      → IsWindow closes v
      → IsWindow (closes ++ closes_of bars) (run bars v)
        × ((run bars v).window_size ≡ v.window_size)
  unfolding run
  run-IsWindow [] closes v h = (rw (append-nil closes) h, refl)
  run-IsWindow ((now, bar) ∷ bars) closes v h =
      let (k, _) = process_bar-IsWindow o now bar closes v h in
      let (a, b) = run-IsWindow bars (closes ++ (bar.close ∷ [])) (process_bar o now bar v).0 k in
      (rw (← append_assoc closes (bar.close ∷ []) (closes_of bars)) a, b ∙ process-size o now bar v)

  reset-IsWindow :
      (now : R) (closes : List R) (v : Vpin R) → IsWindow closes v → IsWindow [] (reset_o1 now v)
  unfolding reset_o1
  reset-IsWindow now closes v h = record {
    wide = h.wide;
    held = h.held;
    at_index = sym (zero-mod v.window_size);
    full = let w = h.wide in ground arith;
    kept = λ i l u. absurd (omega arith);
  }

  reset-size : (now : R) (v : Vpin R) → (reset_o1 now v).window_size ≡ v.window_size
  unfolding reset_o1
  reset-size now v = refl

  new-IsWindow :
      (w : ℕ) (volume z : R) (zs rebuild : ℕ) (now : R) (v : Vpin R)
      → new w volume z zs rebuild now ≡ some v
      → IsWindow [] v × (v.window_size ≡ w)
  unfolding new reset_o1
  new-IsWindow w volume z zs rebuild now v h = elim (Bool-cases (ltb w 2)) [
    | inl e ↦ absurd (let q = rw e at h in cc)
    | inr e ↦ elim (Bool-cases (ltb zs w)) [
      | inl y ↦ absurd (let q = rw (e, y) at h in cc)
      | inr y ↦
          subst (λ (t : Vpin R). IsWindow [] t × (t.window_size ≡ w))
            (some-injective _ _ (rw (e, y) at h))
            (
              record {
                wide = ground arith;
                held = length-replicate w nought;
                at_index = sym (zero-mod w);
                full = ground arith;
                kept = λ i l u. absurd (omega arith);
              },
              refl,
            )
    ]
  ]

  -- Whatever an engine has seen before a reset, after it the engine is silent until its window is full
  -- again, and then every signal takes the price return from the oldest of the newest `window_size`
  -- closes since the reset: an anomaly is absorbed exactly when that return does not follow the imbalance.
  pub process_bar-Says :
      (before after : List (R × Bar R)) (w : ℕ) (volume z : R) (zs rebuild : ℕ) (made reset now : R)
      (bar : Bar R) (v : Vpin R)
      → new w volume z zs rebuild made ≡ some v
      → let t = run after (reset_o1 reset (run before v)) in
        Says (closes_of after ++ (bar.close ∷ [])) bar w (process_bar o now bar t).1
  process_bar-Says before after w volume z zs rebuild made reset now bar v h =
      let (k, size) = new-IsWindow w volume z zs rebuild made v h in
      let (a, p) = run-IsWindow before [] v k in
      let r = reset-IsWindow reset (closes_of before) (run before v) a in
      let (b, q) = run-IsWindow after [] (reset_o1 reset (run before v)) r in
      let t = run after (reset_o1 reset (run before v)) in
      subst
        (λ (n : ℕ). Says (closes_of after ++ (bar.close ∷ [])) bar n (process_bar o now bar t).1)
        (q ∙ reset-size reset (run before v) ∙ p ∙ size)
        (process_bar-IsWindow o now bar (closes_of after) t b).1
