-- ===== src/Vpin/Sums.antt =====
-- src/domain/vpin_engine.py: the running sum of the imbalances against the array, in arithmetic
-- without rounding.
use gektor.Base.{
  ℕ, zero, suc, ◌+◌, ◌<◌, ◌≡◌, refl, sym, ◌∙◌, ap, subst, Bool, true, false, some, List, [], ◌∷◌,
  map, ltb, leb, arith, length, get_or, set, length-set, length-replicate, replicate, Bool-cases,
  inl, inr, Float, ◌⊕◌, ◌⊖◌, ◌⊗◌, ◌≺◌, ◌⊘◌, max_of, nought,
}
use mathlib.Core.Option.{some-injective}
use gektor.Vpin.{
  Bar, Surroundings, Vpin, new, reset_o1, sum, apply_time_decay, rebuild_sums, decayed, push_bar,
  vpin_of, push_vpin, counted_bar, assess, process_bar,
}
use gektor.Vpin.Window.{run}

-- Addition and subtraction do not round.
pub record IsExact {R : Type 0} (f : Float R) : Type 0 where
  pub replace : (a x s : R) → f.plus a s ≡ f.plus (f.plus x s) (f.minus a x)
  pub assoc : (a b c : R) → f.plus a (f.plus b c) ≡ f.plus (f.plus a b) c
  pub swap : (a b c : R) → f.plus (f.plus a b) c ≡ f.plus (f.plus a c) b
  pub left_zero : (a : R) → f.plus (f.lit 0 0) a ≡ a
  pub right_zero : (a : R) → f.plus a (f.lit 0 0) ≡ a

module _ {R : Type 0} ⦃f : Float R⦄ where
  sum-set :
      (xs : List R) (i : ℕ) (a : R)
      → IsExact f
      → i < length xs
      → sum (set xs i a) ≡ sum xs ⊕ (a ⊖ get_or xs i nought)
  unfolding sum
  sum-set [] i a x h = elim h [ ]
  sum-set (y ∷ ys) zero a x h = x.replace a y (sum ys)
  sum-set (y ∷ ys) (suc i) a x h =
      ap (λ (t : R). y ⊕ t) (sum-set ys i a x (omega arith))
      ∙ x.assoc y (sum ys) (a ⊖ get_or ys i nought)

  sum-replicate : (n : ℕ) → IsExact f → sum {R = R} (replicate n nought) ≡ nought
  unfolding sum
  sum-replicate zero x = refl
  sum-replicate (suc n) x = x.left_zero (sum (replicate n nought)) ∙ sum-replicate n x

  -- The running sum is short of the array's by the debt; the index stands in the window.
  pub record Owes (debt : R) (v : Vpin R) : Type 0 where
    pub short : v.running_imbalance_sum ⊕ debt ≡ sum v.imbalances
    pub sized : length v.imbalances ≡ v.window_size
    pub inside : v.index < v.window_size

  length-map : (g : R → R) (xs : List R) → length (map g xs) ≡ length xs
  length-map g [] = refl
  length-map g (x ∷ xs) = ap suc (length-map g xs)

  push_bar-Owes : (a p debt : R) (v : Vpin R) → IsExact f → Owes debt v → Owes debt (push_bar a p v)
  unfolding push_bar
  push_bar-Owes a p debt v x h =
      let d = a ⊖ get_or v.imbalances v.index nought in
      record {
        short =
            x.swap v.running_imbalance_sum d debt
            ∙ ap (λ (t : R). t ⊕ d) h.short
            ∙ sym (sum-set v.imbalances v.index a x (omega (arith, h.sized, h.inside)));
        sized = length-set v.imbalances v.index a ∙ h.sized;
        inside = let i = h.inside in ground arith;
      }

  -- Without a time gap the guard leaves the sums alone; with one it makes them right.
  decayed-Owes :
      (o : Surroundings R) (now debt : R) (v : Vpin R)
      → o.time_gap_sec ≺ now ⊖ v.last_update_time ≡ false
      → Owes debt v
      → Owes debt (decayed o now v)
  unfolding decayed
  decayed-Owes o now debt v e h =
      rw e (record { short = h.short; sized = h.sized; inside = h.inside })

  decay-Owes :
      (decay : R) (v : Vpin R) → IsExact f → Owes nought v → Owes nought (apply_time_decay decay v)
  unfolding apply_time_decay
  decay-Owes decay v x h = record {
    short = x.right_zero _;
    sized = length-map _ v.imbalances ∙ h.sized;
    inside = h.inside;
  }

  guard-Owes :
      (o : Surroundings R) (now : R) (v : Vpin R)
      → IsExact f
      → Owes nought v
      → Owes nought (decayed o now v)
  unfolding decayed
  guard-Owes o now v x h = elim (Bool-cases (o.time_gap_sec ≺ now ⊖ v.last_update_time)) [
    | inl e ↦
        let tau = f.lit 3600 0 ⊗ max_of o.decay_tau_hours (f.lit 1 0) in
        rw e (
          decay-Owes (o.exp_minus ((now ⊖ v.last_update_time) ⊘ tau))
            (record v { last_update_time = now }) x
            (record { short = h.short; sized = h.sized; inside = h.inside }))
    | inr e ↦ rw e (record { short = h.short; sized = h.sized; inside = h.inside })
  ]

  -- The rebuild makes the running sum right.
  counted-Owes :
      (y debt : R) (v : Vpin R)
      → leb v.rebuild_interval (v.bars_since_rebuild + 1) ≡ false
      → Owes debt v
      → Owes debt (counted_bar (push_vpin y v))
  unfolding counted_bar push_vpin
  counted-Owes y debt v e h = rw e (record { short = h.short; sized = h.sized; inside = h.inside })

  rebuilt-Owes :
      (y : R) (v : Vpin R) → IsExact f → Owes nought v → Owes nought (counted_bar (push_vpin y v))
  unfolding counted_bar push_vpin rebuild_sums
  rebuilt-Owes y v x h = elim (Bool-cases (leb v.rebuild_interval (v.bars_since_rebuild + 1))) [
    | inl e ↦ rw e (record { short = x.right_zero _; sized = h.sized; inside = h.inside })
    | inr e ↦ rw e (record { short = h.short; sized = h.sized; inside = h.inside })
  ]

  assess-Owes :
      (b : Bool) (sqrt : R → R) (i p : R) (v : Vpin R)
      → IsExact f
      → Owes nought v
      → Owes nought (assess b sqrt i p v).0
  unfolding assess
  assess-Owes false sqrt i p v x h = h
  assess-Owes true sqrt i p v x h = rebuilt-Owes (vpin_of v) v x h

  assess-Owes_same :
      (b : Bool) (sqrt : R → R) (i p debt : R) (v : Vpin R)
      → leb v.rebuild_interval (v.bars_since_rebuild + 1) ≡ false
      → Owes debt v
      → Owes debt (assess b sqrt i p v).0
  unfolding assess
  assess-Owes_same false sqrt i p debt v e h = h
  assess-Owes_same true sqrt i p debt v e h = counted-Owes (vpin_of v) debt v e h

  reset-Owes :
      (now : R) (v : Vpin R) → IsExact f → Owes nought v → Owes (sum v.imbalances) (reset_o1 now v)
  unfolding reset_o1
  reset-Owes now v x h = record {
    short = x.left_zero (sum v.imbalances);
    sized = h.sized;
    inside = let i = h.inside in omega arith;
  }

  new-Owes :
      (w : ℕ) (volume z : R) (zs rebuild : ℕ) (now : R) (v : Vpin R)
      → IsExact f
      → new w volume z zs rebuild now ≡ some v
      → Owes nought v
  unfolding new reset_o1
  new-Owes w volume z zs rebuild now v x h = elim (Bool-cases (ltb w 2)) [
    | inl e ↦ absurd (let q = rw e at h in cc)
    | inr e ↦ elim (Bool-cases (ltb zs w)) [
      | inl y ↦ absurd (let q = rw (e, y) at h in cc)
      | inr y ↦
          subst (λ (t : Vpin R). Owes nought t) (some-injective _ _ (rw (e, y) at h))
            (record {
              short = x.left_zero nought ∙ sym (sum-replicate w x);
              sized = length-replicate w nought;
              inside = ground arith;
            })
    ]
  ]

module _ {R : Type 0} ⦃f : Float R⦄ (o : Surroundings R) where
  run-Owes :
      (bars : List (R × Bar R)) (v : Vpin R)
      → IsExact f
      → Owes nought v
      → Owes nought (run o bars v)
  unfolding run process_bar
  run-Owes [] v x h = h
  run-Owes ((now, bar) ∷ bars) v x h =
      let i = bar.buy_volume_usd ⊖ bar.sell_volume_usd in
      let w = push_bar (f.magnitude i) bar.close (decayed o now v) in
      run-Owes bars (process_bar o now bar v).0 x (
        assess-Owes w.is_filled o.sqrt i bar.close w x (
          push_bar-Owes (f.magnitude i) bar.close nought (decayed o now v) x
            (guard-Owes o now v x h)))

  -- No bar comes after a time gap, and none makes the sums be rebuilt.
  abbrev pub Calm : List (R × Bar R) → Vpin R → Type 0
  Calm [] v = Unit
  Calm ((now, bar) ∷ bars) v =
      (o.time_gap_sec ≺ now ⊖ v.last_update_time ≡ false)
      × (leb v.rebuild_interval (v.bars_since_rebuild + 1) ≡ false)
      × Calm bars (process_bar o now bar v).0

  calm-rebuild :
      (now a p : R) (v : Vpin R)
      → o.time_gap_sec ≺ now ⊖ v.last_update_time ≡ false
      → let w = push_bar a p (decayed o now v) in
        (w.rebuild_interval ≡ v.rebuild_interval) × (w.bars_since_rebuild ≡ v.bars_since_rebuild)
  unfolding push_bar decayed
  calm-rebuild now a p v e = rw e (refl, refl)

  quiet-Owes :
      (bars : List (R × Bar R)) (debt : R) (v : Vpin R)
      → IsExact f
      → Calm bars v
      → Owes debt v
      → Owes debt (run o bars v)
  unfolding run process_bar
  quiet-Owes [] debt v x c h = h
  quiet-Owes ((now, bar) ∷ bars) debt v x (e, r, c) h =
      let i = bar.buy_volume_usd ⊖ bar.sell_volume_usd in
      let w = push_bar (f.magnitude i) bar.close (decayed o now v) in
      let (p, q) = calm-rebuild now (f.magnitude i) bar.close v e in
      quiet-Owes bars debt (process_bar o now bar v).0 x c (
        assess-Owes_same w.is_filled o.sqrt i bar.close debt w (rw (p, q) r) (
          push_bar-Owes (f.magnitude i) bar.close debt (decayed o now v) x
            (decayed-Owes o now debt v e h)))

  -- Without rounding, the running sum of a new engine is the sum of its array after every history of
  -- bars, decays and rebuilds included.
  pub sum_agrees :
      (bars : List (R × Bar R)) (w : ℕ) (volume z : R) (zs rebuild : ℕ) (now : R) (v : Vpin R)
      → IsExact f
      → new w volume z zs rebuild now ≡ some v
      → (run o bars v).running_imbalance_sum ≡ sum (run o bars v).imbalances
  sum_agrees bars w volume z zs rebuild now v x h =
      let k = run-Owes bars v x (new-Owes w volume z zs rebuild now v x h) in
      sym (x.right_zero (run o bars v).running_imbalance_sum) ∙ k.short

  -- A reset breaks this: the array keeps its old values, and without rounding the running sum stays
  -- short of the array's by their whole sum, until a time gap or a rebuild repairs it.
  pub reset_drifts :
      (before after : List (R × Bar R)) (w : ℕ) (volume z : R) (zs rebuild : ℕ) (made reset : R)
      (v : Vpin R)
      → IsExact f
      → new w volume z zs rebuild made ≡ some v
      → Calm after (reset_o1 reset (run o before v))
      → let s = run o before v in
        let t = run o after (reset_o1 reset s) in
        t.running_imbalance_sum ⊕ sum s.imbalances ≡ sum t.imbalances
  reset_drifts before after w volume z zs rebuild made reset v x h c =
      let s = run o before v in
      let k = run-Owes before v x (new-Owes w volume z zs rebuild made v x h) in
      (quiet-Owes after (sum s.imbalances) (reset_o1 reset s) x c (reset-Owes reset s x k)).short
