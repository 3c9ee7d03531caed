-- ===== src/Barrier/Outcomes.antt =====
-- src/domain/triple_barrier.py: which slots a scan resolves, how, and with which result.
use gektor.Base.{
  ℕ, ◌+◌, ◌-◌, ◌*◌, ◌/◌, ◌≤◌, ◌<◌, ◌≡◌, refl, subst, min, max, ℤ, pos, negsuc, true, false, Option,
  none, some, List, [], ◌∷◌, map, if◌then◌else◌, arith, Bool-cases, inl, inr, All, opposite_parts,
  pos_part, neg_part,
}
use native.Mathlib.Nat.{zero-div}
use gektor.Barrier.{
  Slot, Result, Labeler, watch, is_long, is_short, hits_tp, hits_sl, hits_vb, resolution, row_of,
  gain_bps, pnl_of,
}
use gektor.Barrier.Steps.{resolve_slot, resolve_all, any_active, scan_barriers, opened}

-- The barriers lie on their sides of the entry price, and so do the watermarks.
pub record IsIntent (s : Slot) : Type 0 where
  pub long_sl : is_long s.side ≡ true → s.sl_px ≤ s.entry_px
  pub long_tp : is_long s.side ≡ true → s.entry_px ≤ s.tp_px
  pub short_sl : is_long s.side ≡ false → s.entry_px ≤ s.sl_px
  pub short_tp : is_long s.side ≡ false → s.tp_px ≤ s.entry_px
  pub high : s.entry_px ≤ s.running_high
  pub low : s.running_low ≤ s.entry_px

above-entry : (p b : ℕ) → p ≤ p * (10_000 + b) / 10_000
above-entry p b = let h : p * (10_000 + b) ≡ p * 10_000 + p * b = omega arith in omega arith

part-le : (p c d : ℕ) → p * c ≤ p * (c + d)
part-le p c d = omega arith

below-entry : (p b : ℕ) → p * (10_000 - b) / 10_000 ≤ p
below-entry p b =
    let c = 10_000 - b in
    let e : c + (10_000 - c) ≡ 10_000 = omega arith in
    let h : p * c ≤ p * 10_000 = subst (λ (t : ℕ). p * c ≤ p * t) e (part-le p c (10_000 - c)) in
    omega arith

pub opened-IsIntent :
    (iid price : ℕ) (side : ℤ) (tp sl bars n : ℕ) → IsIntent (opened iid price side tp sl bars n)
unfolding opened
opened-IsIntent iid price side tp sl bars n =
    ground (
      arith,
      above-entry price tp,
      below-entry price sl,
      above-entry price sl,
      below-entry price tp,
    )

pub watch-IsIntent : (h w : ℕ) (s : Slot) → IsIntent s → IsIntent (watch h w s)
unfolding watch
watch-IsIntent h w s k = ground (arith, k)

-- No result is a win that the prices do not bear out: a stop-loss never shows a gain, a take-profit
-- never a loss, and the excursions are those of the watermarks.
pub record IsFair (r : Result) : Type 0 where
  pub stopped : r.label ≡ negsuc 0 → pos_part r.pnl_bps ≡ 0
  pub taken : r.label ≡ pos 1 → neg_part r.pnl_bps ≡ 0

gain-up : (a b e : ℕ) → a ≤ b → neg_part (gain_bps a b e) ≡ 0
unfolding gain_bps
gain-up a b e h = ground arith

gain-down : (a b e : ℕ) → b ≤ a → pos_part (gain_bps a b e) ≡ 0
unfolding gain_bps
gain-down a b e h =
    let z : (b - a) * 10_000 / e ≡ 0 =
      let y : (b - a) * 10_000 ≡ 0 = omega arith in rw y (zero-div e) in
    ground (arith, opposite_parts (((a - b) * 10_000 + (e - 1)) / e))

stop-exact :
    (h w : ℕ) (s : Slot)
    → IsIntent s
    → pos_part (pnl_of s (if is_long s.side then min s.sl_px w else max s.sl_px h)) ≡ 0
unfolding pnl_of
stop-exact h w s k = elim (Bool-cases (is_long s.side)) [
  | inl e ↦
      let l = k.long_sl e in rw e (gain-down s.entry_px (min s.sl_px w) s.entry_px (omega arith))
  | inr e ↦
      let l = k.short_sl e in rw e (gain-down (max s.sl_px h) s.entry_px s.entry_px (omega arith))
]

take-exact : (s : Slot) → IsIntent s → neg_part (pnl_of s s.tp_px) ≡ 0
unfolding pnl_of
take-exact s k = elim (Bool-cases (is_long s.side)) [
  | inl e ↦ rw e (gain-up s.entry_px s.tp_px s.entry_px (k.long_tp e))
  | inr e ↦ rw e (gain-up s.tp_px s.entry_px s.entry_px (k.short_tp e))
]

-- A fair result, if any.
abbrev pub FairAt : ℕ → Slot → Option (ℤ × ℕ) → Type 0
FairAt i s none = Unit
FairAt i s (some r) = IsFair (row_of i r s)

pub resolution-FairAt : (h w c i : ℕ) (s : Slot) → IsIntent s → FairAt i s (resolution h w c i s)
unfolding resolution
resolution-FairAt h w c i s k = elim (Bool-cases (hits_sl h w s)) [
  | inl e ↦ rw e (record { stopped = λ z. stop-exact h w s k; taken = λ z. absurd (cc) })
  | inr e ↦ elim (Bool-cases (hits_tp h w s)) [
    | inl x ↦
        rw (e, x) (record { stopped = λ z. absurd (ground arith); taken = λ z. take-exact s k })
    | inr x ↦ elim (Bool-cases (hits_vb i s)) [
      | inl y ↦
          rw (e, x, y)
            (record { stopped = λ z. absurd (ground arith); taken = λ z. absurd (ground arith) })
      | inr y ↦ rw (e, x, y) tt
    ]
  ]
]

-- No barrier is touched by a slot that stays open.
abbrev pub Untouched : ℕ → ℕ → ℕ → Slot → Type 0
Untouched h w i s =
    s.active ≡ true
    → (is_long s.side ≡ true → (h < s.tp_px) × (s.sl_px < w))
      × (is_short s.side ≡ true → (s.tp_px < w) × (h < s.sl_px))
      × (i < s.entry_bar + s.max_bars)

spared-Untouched :
    (h w i : ℕ) (s : Slot)
    → hits_sl h w s ≡ false
    → hits_tp h w s ≡ false
    → hits_vb i s ≡ false
    → Untouched h w i s
unfolding hits_sl hits_tp hits_vb
spared-Untouched h w i s e x y a =
    (λ z. (ground arith, ground arith), λ z. (ground arith, ground arith), ground arith)

open-Untouched : (h w c i : ℕ) (s : Slot) → resolution h w c i s ≡ none → Untouched h w i s
unfolding resolution
open-Untouched h w c i s n = elim (Bool-cases (hits_sl h w s)) [
  | inl e ↦ absurd (let z = rw e at n in cc)
  | inr e ↦ elim (Bool-cases (hits_tp h w s)) [
    | inl x ↦ absurd (let z = rw (e, x) at n in cc)
    | inr x ↦ elim (Bool-cases (hits_vb i s)) [
      | inl y ↦ absurd (let z = rw (e, x, y) at n in cc)
      | inr y ↦ spared-Untouched h w i s e x y
    ]
  ]
]

resolve_slot-Untouched :
    (o : Option (ℤ × ℕ)) (h w c i : ℕ) (s : Slot) (l : Labeler)
    → resolution h w c i s ≡ o
    → Untouched h w i (resolve_slot o i s l).0
unfolding resolve_slot
resolve_slot-Untouched none h w c i s l e = open-Untouched h w c i s e
resolve_slot-Untouched (some r) h w c i s l e = λ a. absurd (cc)

resolve_all-Untouched :
    (h w c i : ℕ) (slots : List Slot) (l : Labeler)
    → All (Untouched h w i) (resolve_all h w c i slots l).0
unfolding resolve_all
resolve_all-Untouched h w c i [] l = tt
resolve_all-Untouched h w c i (s ∷ rest) l =
    let o = resolution h w c i s in
    (
      resolve_slot-Untouched o h w c i s l refl,
      resolve_all-Untouched h w c i rest (resolve_slot o i s l).1,
    )

idle-Untouched :
    (h w i : ℕ) (slots : List Slot) → any_active slots ≡ false → All (Untouched h w i) slots
unfolding any_active
idle-Untouched h w i [] e = tt
idle-Untouched h w i (s ∷ rest) e =
    (λ a. absurd (ground arith), idle-Untouched h w i rest (ground arith))

-- After the scan of a bar no open intent touches a barrier: a long one has its take-profit above the
-- bar and its stop-loss below it, a short one the other way round, and none is as old as its vertical
-- barrier.
pub scan_barriers-Untouched :
    (h w c i : ℕ) (l : Labeler) → All (Untouched h w i) (scan_barriers h w c i l).slots
unfolding scan_barriers
scan_barriers-Untouched h w c i l = elim (Bool-cases (any_active l.slots)) [
  | inl e ↦ rw e (resolve_all-Untouched h w c i (map (watch h w) l.slots) l)
  | inr e ↦ rw e (idle-Untouched h w i l.slots e)
]
