-- ===== src/Barrier/Admission.antt =====
-- src/domain/triple_barrier.py: the ids of intents that `register_intent` admits and evicts.
use gektor.Base.{
  ℕ, zero, suc, ◌+◌, ◌-◌, ◌≡◌, refl, ℤ, pos, Bool, true, false, ◌&&◌, Option, none, some, is_some,
  List, [], ◌∷◌, if◌then◌else◌, ltb, ◌==◌, arith, set, replicate, length, Bool-cases, inl, inr,
}
use gektor.Barrier.{Slot, Result, Labeler, new, empty_slot, empty_result, write_result, row_of}
use gektor.Barrier.Steps.{
  first_free, elder, oldest, evict_slot, evict_oldest, opened, shifted, occupy, register_intent,
}
use gektor.Barrier.Ids.{
  one_if, open_of, rows_of, IsPlaced, AllPlaced, write_result-IsPlaced, same-IsPlaced,
  relaid-IsPlaced,
}

-- The slot that `first_free` names holds no intent, and the one that `oldest` names holds its own.
abbrev Places : ℕ → Slot → List Slot → Option ℕ → Type 0
Places j t slots none = Unit
Places j t slots (some i) =
    open_of j (set slots i t) ≡ one_if (t.active && t.intent_id == j) + open_of j slots

shifted-Places :
    (j : ℕ) (t s : Slot) (rest : List Slot) (r : Option ℕ)
    → Places j t rest r
    → Places j t (s ∷ rest) (shifted r)
unfolding open_of
shifted-Places j t s rest none h = tt
shifted-Places j t s rest (some i) h = omega (arith, h)

chosen-Places :
    (j : ℕ) (t s : Slot) (rest : List Slot) (b : Bool) (r : Option ℕ)
    → s.active ≡ b
    → Places j t (s ∷ rest) r
    → Places j t (s ∷ rest) (if b then r else some 0)
unfolding open_of
chosen-Places j t s rest true r e h = h
chosen-Places j t s rest false r e h = rw e (omega arith)

first_free-Places : (j : ℕ) (t : Slot) (slots : List Slot) → Places j t slots (first_free slots)
unfolding first_free
first_free-Places j t [] = tt
first_free-Places j t (s ∷ rest) =
    chosen-Places j t s rest s.active (shifted (first_free rest)) refl
      (shifted-Places j t s rest (first_free rest) (first_free-Places j t rest))

abbrev Vacates : ℕ → List Slot → Option (ℕ × Slot) → Type 0
Vacates j slots none = Unit
Vacates j slots (some (i, s)) =
    open_of j (set slots i (record s { active = false })) + one_if (s.intent_id == j)
    ≡ open_of j slots

elder-Vacates :
    (j : ℕ) (s : Slot) (rest : List Slot) (r : Option (ℕ × Slot))
    → Vacates j rest r
    → Vacates j (s ∷ rest) (elder s r)
unfolding open_of
elder-Vacates j s rest none h = elim (Bool-cases s.active) [
  | inl e ↦ rw e (omega arith)
  | inr e ↦ rw e tt
]
elder-Vacates j s rest (some (i, t)) h = elim (Bool-cases s.active) [
  | inl e ↦ elim (Bool-cases (ltb t.entry_bar s.entry_bar)) [
    | inl y ↦ rw (e, y) (omega (arith, h))
    | inr y ↦ rw (e, y) (omega arith)
  ]
  | inr e ↦ rw e (omega (arith, h))
]

oldest-Vacates : (j : ℕ) (slots : List Slot) → Vacates j slots (oldest slots)
unfolding oldest
oldest-Vacates j [] = tt
oldest-Vacates j (s ∷ rest) = elder-Vacates j s rest (oldest rest) (oldest-Vacates j rest)

evict_slot-IsPlaced :
    (j n : ℕ) (o : Option (ℕ × Slot)) (l : Labeler)
    → Vacates j l.slots o
    → IsPlaced j (open_of j l.slots) l
    → IsPlaced j (open_of j (evict_slot o n l).slots) (evict_slot o n l)
unfolding evict_slot
evict_slot-IsPlaced j n none l v h = h
evict_slot-IsPlaced j n (some (i, s)) l v h =
    let slots = set l.slots i (record s { active = false }) in
    let k =
      same-IsPlaced j _ (open_of j slots + one_if (s.intent_id == j)) l (omega (arith, v)) h in
    let r = record (row_of n (pos 0, s.entry_px) s) { pnl_bps = pos 0 } in
    relaid-IsPlaced j (open_of j slots) (l.open_count - 1) slots (write_result r l)
      (write_result-IsPlaced j (open_of j slots) r l k)

occupy-IsPlaced :
    (j : ℕ) (o : Option ℕ) (price : ℕ) (side : ℤ) (tp sl bars n : ℕ) (l : Labeler)
    → ((t : Slot) → Places j t l.slots o)
    → IsPlaced j (open_of j l.slots) l
    → let m = (occupy o price side tp sl bars n l).0 in IsPlaced j (open_of j m.slots) m
unfolding occupy opened
occupy-IsPlaced j none price side tp sl bars n l p h = h
occupy-IsPlaced j (some i) price side tp sl bars n l p h =
    let q = p (opened l.next_id price side tp sl bars n) in
    let a = h.kept in
    let b = h.once in
    record { kept = ground arith; once = ground arith; size = h.size; head = h.head }

pub register_intent-AllPlaced :
    (price : ℕ) (side : ℤ) (tp sl bars n : ℕ) (l : Labeler)
    → AllPlaced l
    → AllPlaced (register_intent price side tp sl bars n l).0
unfolding register_intent evict_oldest
register_intent-AllPlaced price side tp sl bars n l k j =
    let occupied = λ (m : Labeler) (h : IsPlaced j (open_of j m.slots) m).
      occupy-IsPlaced j (first_free m.slots) price side tp sl bars n m
        (λ t. first_free-Places j t m.slots) h in
    elim (Bool-cases (is_some (first_free l.slots))) [
      | inl e ↦ rw e (occupied l (k j))
      | inr e ↦ rw e (
          occupied (evict_slot (oldest l.slots) n l)
            (evict_slot-IsPlaced j n (oldest l.slots) l (oldest-Vacates j l.slots) (k j)))
    ]

idle-open : (j n : ℕ) → open_of j (replicate n empty_slot) ≡ 0
unfolding open_of
idle-open j zero = refl
idle-open j (suc n) = omega (arith, idle-open j n)

length-replicate : (n : ℕ) (r : Result) → length (replicate n r) ≡ n
length-replicate zero r = refl
length-replicate (suc n) r = omega (arith, length-replicate n r)

pub new-AllPlaced : (max_open capacity : ℕ) → AllPlaced (new max_open capacity)
unfolding new rows_of
new-AllPlaced max_open capacity j =
    let z = idle-open j max_open in
    record {
      kept = ground arith;
      once = ground arith;
      size = length-replicate capacity empty_result;
      head = λ p. refl;
    }
