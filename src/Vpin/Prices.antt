-- ===== src/Vpin/Prices.antt =====
-- src/domain/vpin_engine.py: the window of closes in `price_history`.
use gektor.Base.{
  ℕ, zero, suc, ◌+◌, ◌-◌, ◌%◌, ◌≤◌, ◌<◌, ◌≡◌, refl, sym, ◌∙◌, ap, subst, true, List, [], ◌∷◌, ◌++◌,
  if◌then◌else◌, leb, arith, length, length-append, get_or, set, length-set, get_or-set_self,
  get_or-set_other, slots-apart, wrapped, Bool-cases, inl, inr, Float, ◌⊖◌, ◌≺◌, nought,
}
use native.Mathlib.Nat.{mod-lt, mod-eq_of_lt, add-mod_right}
use native.Mathlib.Decide.{dec_lt}
use gektor.Vpin.{
  Bar, Surroundings, Vpin, apply_time_decay, rebuild_sums, decayed, push_bar, push_vpin,
  counted_bar,
}

module _ {R : Type 0} ⦃f : Float R⦄ where
  -- The window holds the newest closes of those since the last reset.
  pub record IsWindow (closes : List R) (v : Vpin R) : Type 0 where
    pub wide : 2 ≤ v.window_size
    pub held : length v.price_history ≡ v.window_size
    pub at_index : v.index ≡ length closes % v.window_size
    pub full : v.is_filled ≡ leb v.window_size (length closes)
    pub kept :
        (i : ℕ)
        → i < length closes
        → length closes ≤ i + v.window_size
        → get_or v.price_history (i % v.window_size) nought ≡ get_or closes i nought

  get_or-left :
      (xs ys : List R) (i : ℕ) → i < length xs → get_or (xs ++ ys) i nought ≡ get_or xs i nought
  get_or-left [] ys i h = elim h [ ]
  get_or-left (x ∷ xs) ys zero h = refl
  get_or-left (x ∷ xs) ys (suc i) h = get_or-left xs ys i (omega arith)

  get_or-last : (xs : List R) (x : R) → get_or (xs ++ (x ∷ [])) (length xs) nought ≡ x
  get_or-last [] x = refl
  get_or-last (y ∷ xs) x = get_or-last xs x

filled_next : (n w : ℕ) → 0 < w → (if leb w (n % w + 1) then true else leb w n) ≡ leb w (n + 1)
filled_next n w p = elim (dec_lt n w) [
  | yes l ↦ rw (mod-eq_of_lt l) (ground arith)
  | no l ↦
      let a : leb w n ≡ true = ground arith in
      let b : leb w (n + 1) ≡ true = ground arith in rw (a, b) (ground arith)
]

module _ {R : Type 0} ⦃f : Float R⦄ where
  push_bar-IsWindow :
      (abs_imbalance price : R) (closes : List R) (v : Vpin R)
      → IsWindow closes v
      → IsWindow (closes ++ (price ∷ [])) (push_bar abs_imbalance price v)
  unfolding push_bar
  push_bar-IsWindow a price closes v h =
      let n = length closes in
      let w = v.window_size in
      let p : 0 < w = omega (arith, h.wide) in
      let m : length (closes ++ (price ∷ [])) ≡ n + 1 = length-append closes (price ∷ []) in
      let inside : v.index < length v.price_history =
        omega (arith, mod-lt n p, h.held, h.at_index) in
      record {
        wide = h.wide;
        held = length-set v.price_history v.index price ∙ h.held;
        at_index = rw (h.at_index, m) (wrapped n w p);
        full = rw (h.at_index, h.full, m) (filled_next n w p);
        kept = λ i l u. elim (dec_lt i n) [
          | yes k ↦
              get_or-set_other v.price_history v.index (i % w) price nought
                (λ s. slots-apart i n w k (omega (arith, m)) (sym s ∙ h.at_index))
              ∙ h.kept i k (omega (arith, m))
              ∙ sym (get_or-left closes (price ∷ []) i k)
          | no k ↦
              let z : i ≡ n = omega (arith, m) in
              let at : get_or (set v.price_history v.index price) (i % w) nought ≡ price =
                subst (λ (t : ℕ). get_or (set v.price_history v.index price) t nought ≡ price)
                  (h.at_index ∙ ap (λ (t : ℕ). t % w) (sym z))
                  (get_or-set_self v.price_history v.index price nought inside) in
              let last : get_or (closes ++ (price ∷ [])) i nought ≡ price =
                subst (λ (t : ℕ). get_or (closes ++ (price ∷ [])) t nought ≡ price) (sym z)
                  (get_or-last closes price) in
              at ∙ sym last
        ];
      }

  decayed-IsWindow :
      (o : Surroundings R) (now : R) (closes : List R) (v : Vpin R)
      → IsWindow closes v
      → IsWindow closes (decayed o now v)
  unfolding decayed apply_time_decay
  decayed-IsWindow o now closes v h =
      elim (Bool-cases (o.time_gap_sec ≺ now ⊖ v.last_update_time)) [
        | inl e ↦ rw e (record {
          wide = h.wide;
          held = h.held;
          at_index = h.at_index;
          full = h.full;
          kept = h.kept;
        })
        | inr e ↦ rw e (record {
          wide = h.wide;
          held = h.held;
          at_index = h.at_index;
          full = h.full;
          kept = h.kept;
        })
      ]

  pub rest-IsWindow :
      (x : R) (closes : List R) (v : Vpin R)
      → IsWindow closes v
      → IsWindow closes (counted_bar (push_vpin x v))
  unfolding counted_bar push_vpin rebuild_sums
  rest-IsWindow x closes v h =
      elim (Bool-cases (leb v.rebuild_interval (v.bars_since_rebuild + 1))) [
        | inl e ↦ rw e (record {
          wide = h.wide;
          held = h.held;
          at_index = h.at_index;
          full = h.full;
          kept = h.kept;
        })
        | inr e ↦ rw e (record {
          wide = h.wide;
          held = h.held;
          at_index = h.at_index;
          full = h.full;
          kept = h.kept;
        })
      ]

  -- The slot behind the newest close holds the oldest one of a full window.
  pub oldest_price :
      (closes : List R) (v : Vpin R)
      → IsWindow closes v
      → v.window_size ≤ length closes
      → get_or v.price_history v.index nought ≡ get_or closes (length closes - v.window_size) nought
  oldest_price closes v h l =
      let i = length closes - v.window_size in
      let e : length closes ≡ i + v.window_size = omega arith in
      let s : v.index ≡ i % v.window_size =
        h.at_index ∙ ap (λ (t : ℕ). t % v.window_size) e ∙ add-mod_right i v.window_size in
      rw s (h.kept i (omega (arith, h.wide)) (omega arith))

  pub pushed-IsWindow :
      (o : Surroundings R) (now : R) (bar : Bar R) (closes : List R) (v : Vpin R)
      → IsWindow closes v
      → IsWindow (closes ++ (bar.close ∷ [])) (
          push_bar
            (f.magnitude (bar.buy_volume_usd ⊖ bar.sell_volume_usd))
            bar.close
            (decayed o now v))
  pushed-IsWindow o now bar closes v h =
      push_bar-IsWindow _ bar.close closes (decayed o now v) (decayed-IsWindow o now closes v h)

  pub pushed-size :
      (o : Surroundings R) (now a p : R) (v : Vpin R)
      → (push_bar a p (decayed o now v)).window_size ≡ v.window_size
  unfolding push_bar decayed apply_time_decay
  pushed-size o now a p v = elim (Bool-cases (o.time_gap_sec ≺ now ⊖ v.last_update_time)) [
    | inl e ↦ rw e refl
    | inr e ↦ rw e refl
  ]

  pub rest-size : (x : R) (v : Vpin R) → (counted_bar (push_vpin x v)).window_size ≡ v.window_size
  unfolding counted_bar push_vpin rebuild_sums
  rest-size x v = elim (Bool-cases (leb v.rebuild_interval (v.bars_since_rebuild + 1))) [
    | inl e ↦ rw e refl
    | inr e ↦ rw e refl
  ]
