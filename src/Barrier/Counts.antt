-- ===== src/Barrier/Counts.antt =====
-- src/domain/triple_barrier.py: the counters of `TripleBarrierLabeler` against its slots.
use gektor.Base.{
  ℕ, suc, ◌+◌, ◌≡◌, refl, ◌∙◌, ℤ, Bool, true, false, Option, none, some, is_some, List, [], ◌∷◌,
  map, if◌then◌else◌, ltb, arith, set, Bool-cases, inl, inr,
}
use gektor.Barrier.{Slot, Labeler, write_result, watch, hits_tp, hits_sl, hits_vb, resolution}
use gektor.Barrier.Steps.{
  resolve_slot, resolve_all, any_active, scan_barriers, first_free, elder, oldest, evict_slot,
  evict_oldest, opened, shifted, occupy, register_intent,
}

-- The number of active slots.
unfoldable pub active_count : List Slot → ℕ
active_count [] = 0
active_count (s ∷ rest) = (if s.active then 1 else 0) + active_count rest

-- The count of open intents is right, and as many ids were given out as are open and were resolved.
pub record IsLabeler (l : Labeler) : Type 0 where
  pub counted : l.open_count ≡ active_count l.slots
  pub settled : l.next_id ≡ l.open_count + l.res_count

idle-resolution : (h w c i : ℕ) (s : Slot) → s.active ≡ false → resolution h w c i s ≡ none
unfolding resolution hits_sl hits_tp hits_vb
idle-resolution h w c i s e = ground arith

active_count-watch :
    (h w : ℕ) (slots : List Slot) → active_count (map (watch h w) slots) ≡ active_count slots
unfolding active_count watch
active_count-watch h w [] = refl
active_count-watch h w (s ∷ rest) = ground (arith, active_count-watch h w rest)

-- One resolution closes an intent and writes a row.
resolve_slot-count :
    (o : Option (ℤ × ℕ)) (i : ℕ) (s : Slot) (l : Labeler)
    → (is_some o ≡ true → s.active ≡ true)
    → let (t, m) = resolve_slot o i s l in
      (m.next_id ≡ l.next_id)
      × (m.slots ≡ l.slots)
      × ((n : ℕ)
          → l.open_count ≡ n + active_count (s ∷ [])
          → (m.open_count ≡ n + active_count (t ∷ []))
            × (m.open_count + m.res_count ≡ l.open_count + l.res_count))
unfolding resolve_slot write_result active_count
resolve_slot-count none i s l h = (refl, refl, λ n e. (e, refl))
resolve_slot-count (some r) i s l h =
    let a : s.active ≡ true = h refl in (refl, refl, λ n e. ground arith)

pub resolution-active :
    (h w c i : ℕ) (s : Slot) → is_some (resolution h w c i s) ≡ true → s.active ≡ true
resolution-active h w c i s e = elim (Bool-cases s.active) [
  | inl a ↦ a
  | inr a ↦ absurd (let z = rw (idle-resolution h w c i s a) at e in cc)
]

resolve_all-count :
    (h w c i : ℕ) (slots : List Slot) (l : Labeler) (n : ℕ)
    → l.open_count ≡ n + active_count slots
    → let (ts, m) = resolve_all h w c i slots l in
      (m.open_count ≡ n + active_count ts)
      × (m.open_count + m.res_count ≡ l.open_count + l.res_count)
      × (m.next_id ≡ l.next_id)
unfolding resolve_all active_count
resolve_all-count h w c i [] l n e = (e, refl, refl)
resolve_all-count h w c i (s ∷ rest) l n e =
    let o = resolution h w c i s in
    let m = (resolve_slot o i s l).1 in
    let t = (resolve_slot o i s l).0 in
    let (d, sl, k) = resolve_slot-count o i s l (resolution-active h w c i s) in
    let (a, b) = k (n + active_count rest) (omega arith) in
    let (x, y, z) = resolve_all-count h w c i rest m (n + active_count (t ∷ [])) (omega arith) in
    (omega arith, y ∙ b, z ∙ d)

pub scan_barriers-IsLabeler :
    (h w c i : ℕ) (l : Labeler) → IsLabeler l → IsLabeler (scan_barriers h w c i l)
unfolding scan_barriers
scan_barriers-IsLabeler h w c i l k =
    let watched = map (watch h w) l.slots in
    let (a, b, d) =
      resolve_all-count h w c i watched l 0
        (omega (arith, k.counted, active_count-watch h w l.slots)) in
    elim (Bool-cases (any_active l.slots)) [
      | inl e ↦
          rw e (record { counted = omega (arith, a); settled = omega (arith, b, d, k.settled) })
      | inr e ↦ rw e k
    ]

-- The slot that `first_free` names is free.
abbrev Frees : Slot → List Slot → Option ℕ → Type 0
Frees t slots none = Unit
Frees t slots (some i) = active_count (set slots i t) ≡ suc (active_count slots)

shifted-Frees :
    (t s : Slot) (rest : List Slot) (r : Option ℕ) → Frees t rest r → Frees t (s ∷ rest) (shifted r)
unfolding active_count
shifted-Frees t s rest none h = tt
shifted-Frees t s rest (some i) h = omega (arith, h)

chosen-Frees :
    (t s : Slot) (rest : List Slot) (b : Bool) (r : Option ℕ)
    → s.active ≡ b
    → t.active ≡ true
    → Frees t (s ∷ rest) r
    → Frees t (s ∷ rest) (if b then r else some 0)
unfolding active_count
chosen-Frees t s rest true r e a h = h
chosen-Frees t s rest false r e a h = ground arith

first_free-Frees :
    (t : Slot) (slots : List Slot) → t.active ≡ true → Frees t slots (first_free slots)
unfolding first_free active_count
first_free-Frees t [] a = tt
first_free-Frees t (s ∷ rest) a =
    chosen-Frees t s rest s.active (shifted (first_free rest)) refl a
      (shifted-Frees t s rest (first_free rest) (first_free-Frees t rest a))

-- The slot that `oldest` names is active.
abbrev Ages : List Slot → Option (ℕ × Slot) → Type 0
Ages slots none = Unit
Ages slots (some (i, s)) =
    suc (active_count (set slots i (record s { active = false }))) ≡ active_count slots

elder-Ages :
    (s : Slot) (rest : List Slot) (r : Option (ℕ × Slot))
    → Ages rest r
    → Ages (s ∷ rest) (elder s r)
unfolding active_count
elder-Ages s rest none h = elim (Bool-cases s.active) [
  | inl e ↦ rw e (ground arith)
  | inr e ↦ rw e tt
]
elder-Ages s rest (some (i, t)) h = elim (Bool-cases s.active) [
  | inl e ↦ elim (Bool-cases (ltb t.entry_bar s.entry_bar)) [
    | inl y ↦ rw (e, y) (omega (arith, h))
    | inr y ↦ rw (e, y) (ground arith)
  ]
  | inr e ↦ rw e (omega (arith, h))
]

oldest-Ages : (slots : List Slot) → Ages slots (oldest slots)
unfolding oldest
oldest-Ages [] = tt
oldest-Ages (s ∷ rest) = elder-Ages s rest (oldest rest) (oldest-Ages rest)

evict_slot-IsLabeler :
    (o : Option (ℕ × Slot)) (n : ℕ) (l : Labeler)
    → Ages l.slots o
    → IsLabeler l
    → IsLabeler (evict_slot o n l)
unfolding evict_slot write_result
evict_slot-IsLabeler none n l h k = k
evict_slot-IsLabeler (some (i, s)) n l h k = record {
  counted = omega (arith, h, k.counted);
  settled = omega (arith, h, k.counted, k.settled);
}

occupy-IsLabeler :
    (o : Option ℕ) (price : ℕ) (side : ℤ) (tp sl bars n : ℕ) (l : Labeler)
    → ((t : Slot) → t.active ≡ true → Frees t l.slots o)
    → IsLabeler l
    → IsLabeler (occupy o price side tp sl bars n l).0
unfolding occupy
occupy-IsLabeler none price side tp sl bars n l h k = k
occupy-IsLabeler (some i) price side tp sl bars n l h k = record {
  counted = omega (arith, h (opened l.next_id price side tp sl bars n) refl, k.counted);
  settled = omega (arith, k.settled);
}

pub register_intent-IsLabeler :
    (price : ℕ) (side : ℤ) (tp sl bars n : ℕ) (l : Labeler)
    → IsLabeler l
    → IsLabeler (register_intent price side tp sl bars n l).0
unfolding register_intent evict_oldest
register_intent-IsLabeler price side tp sl bars n l k =
    let occupied = λ (m : Labeler) (j : IsLabeler m).
      occupy-IsLabeler (first_free m.slots) price side tp sl bars n m
        (λ t a. first_free-Frees t m.slots a) j in
    elim (Bool-cases (is_some (first_free l.slots))) [
      | inl e ↦ rw e (occupied l k)
      | inr e ↦ rw e (
          occupied (evict_slot (oldest l.slots) n l)
            (evict_slot-IsLabeler (oldest l.slots) n l (oldest-Ages l.slots) k))
    ]
