-- ===== src/Book/Side/Update.antt =====
-- src/infrastructure/gektor_l2/nd_orderbook.py: one row of a delta against a side, in the array and
-- in an ordered map.
use gektor.Base.{
  ℕ, zero, suc, ◌+◌, ◌≤◌, ◌<◌, ◌≡◌, ◌⊎◌, refl, ap, true, false, ◌&&◌, not, Option, some, none, List,
  [], ◌∷◌, if◌then◌else◌, leb, ◌==◌, length, is_some, ℤ, ltb_ℤ, eqb_ℤ, All, ◌≤ℤ◌, ◌<ℤ◌, arith,
  Bool-cases, inl, inr,
}
use gektor.Book.Side.{Numpy, IsNumpy, IsAscending, Level, Side, keys, apply_row, apply_at}
use gektor.Book.Side.Search.{position, searchsorted-position}

-- The side as an ordered map: delete on 0, overwrite, or insert in order.
unfoldable pub upsert : ℤ → ℕ → Side → Side
upsert k q [] = if q == 0 then [] else ((k, q) ∷ [])
upsert k q ((j, r) ∷ s) =
    let rest = upsert k q s in
    if ltb_ℤ j k
    then (j, r) ∷ rest
    else if eqb_ℤ j k
    then (if q == 0 then s else ((j, q) ∷ s))
    else if q == 0
    then (j, r) ∷ s
    else (k, q) ∷ (j, r) ∷ s

unfoldable pub lookup : ℤ → Side → Option ℕ
lookup k [] = none
lookup k ((j, r) ∷ s) = if eqb_ℤ j k then some r else lookup k s

apply_at-suc :
    (m i : ℕ) (k : ℤ) (q : ℕ) (l : Level) (s : Side)
    → apply_at (suc m) (suc i) k q (l ∷ s) ≡ l ∷ apply_at m i k q s
unfolding apply_at
apply_at-suc m i k q l s = ground arith

-- Keys that ascend strictly: no price is listed twice.
abbrev pub IsIncreasing : List ℤ → Type 0
IsIncreasing [] = Unit
IsIncreasing (k ∷ ks) = All (λ j. k <ℤ j) ks × IsIncreasing ks

pub increasing-IsAscending : (ks : List ℤ) → IsIncreasing ks → IsAscending ks
increasing-IsAscending [] h = tt
increasing-IsAscending (k ∷ ks) h = (weaken ks h.0, increasing-IsAscending ks h.1)
  where
    weaken : (js : List ℤ) → All (λ j. k <ℤ j) js → All (λ j. k ≤ℤ j) js
    weaken [] a = tt
    weaken (j ∷ js) a = (omega arith, weaken js a.1)

-- What a row does to a side of at most `m` levels: a new price is dropped when the side is full.
unfoldable pub bounded_upsert : ℕ → ℤ → ℕ → Side → Side
bounded_upsert m k q s =
    if leb m (length s) && not (is_some (lookup k s)) && not (q == 0) then s else upsert k q s

lookup-above : (k : ℤ) (s : Side) → All (λ j. k <ℤ j) (keys s) → lookup k s ≡ none
unfolding lookup
lookup-above k [] a = refl
lookup-above k ((j, r) ∷ s) a = ground (arith, lookup-above k s a.1)

-- The first key is at least `k`, so that `searchsorted` stops there.
apply_at-zero :
    (m : ℕ) (k : ℤ) (q : ℕ) (j : ℤ) (r : ℕ) (s : Side)
    → suc (length s) ≤ m
    → ltb_ℤ j k ≡ false
    → lookup k s ≡ none
    → apply_at m 0 k q ((j, r) ∷ s) ≡ bounded_upsert m k q ((j, r) ∷ s)
unfolding apply_at bounded_upsert upsert lookup
apply_at-zero m k q j r s h reached fresh = ground arith

bounded_upsert-suc :
    (m : ℕ) (k : ℤ) (q : ℕ) (j : ℤ) (r : ℕ) (s : Side)
    → ltb_ℤ j k ≡ true
    → bounded_upsert (suc m) k q ((j, r) ∷ s) ≡ (j, r) ∷ bounded_upsert m k q s
unfolding bounded_upsert upsert lookup
bounded_upsert-suc m k q j r s below = ground arith

All-above :
    (k j : ℤ) (ks : List ℤ) → ltb_ℤ j k ≡ false → All (λ i. j <ℤ i) ks → All (λ i. k <ℤ i) ks
All-above k j [] h a = tt
All-above k j (i ∷ ks) h a = (ground arith, All-above k j ks h a.1)

apply_at-bounded_upsert :
    (m : ℕ) (k : ℤ) (q : ℕ) (s : Side)
    → length s ≤ m
    → IsIncreasing (keys s)
    → apply_at m (position (keys s) k) k q s ≡ bounded_upsert m k q s
unfolding position
apply_at-bounded_upsert m k q [] h a = unfold apply_at bounded_upsert upsert lookup in ground arith
apply_at-bounded_upsert zero k q ((j, r) ∷ s) h a = absurd (omega arith)
apply_at-bounded_upsert (suc m) k q ((j, r) ∷ s) h a = elim (Bool-cases (ltb_ℤ j k)) [
  | inl below ↦
      rw
        (
          below,
          apply_at-suc m (position (keys s) k) k q (j, r) s,
          bounded_upsert-suc m k q j r s below,
        )
        (ap (λ t. (j, r) ∷ t) (apply_at-bounded_upsert m k q s (omega arith) a.1))
  | inr reached ↦ rw reached (
      apply_at-zero (suc m) k q j r s (omega arith) reached
        (lookup-above k s (All-above k j (keys s) reached a.0)))
]

-- A row of a delta, applied through `searchsorted` and the slice moves to a side with no price
-- listed twice, overwrites, inserts or deletes its price in order; at full capacity a new price is
-- dropped.
pub apply_row-bounded_upsert :
    (np : Numpy) (m : ℕ) (k : ℤ) (q : ℕ) (s : Side)
    → IsNumpy np
    → length s ≤ m
    → IsIncreasing (keys s)
    → apply_row np m k q s ≡ bounded_upsert m k q s
unfolding apply_row
apply_row-bounded_upsert np m k q s h l a =
    rw (searchsorted-position np (keys s) k h (increasing-IsAscending (keys s) a))
      (apply_at-bounded_upsert m k q s l a)

upsert-above :
    (i k : ℤ) (q : ℕ) (s : Side)
    → i <ℤ k
    → All (λ j. i <ℤ j) (keys s)
    → All (λ j. i <ℤ j) (keys (upsert k q s))
unfolding upsert
upsert-above i k q [] h a = ground arith
upsert-above i k q ((j, r) ∷ s) h a = ground (arith, upsert-above i k q s h a.1)

-- Transitivity along a side.
raise-above : (i j : ℤ) (ks : List ℤ) → i <ℤ j → All (λ x. j <ℤ x) ks → All (λ x. i <ℤ x) ks
raise-above i j [] h a = tt
raise-above i j (x ∷ ks) h a = (omega arith, raise-above i j ks h a.1)

upsert-IsIncreasing :
    (k : ℤ) (q : ℕ) (s : Side) → IsIncreasing (keys s) → IsIncreasing (keys (upsert k q s))
unfolding upsert
upsert-IsIncreasing k q [] a = ground arith
upsert-IsIncreasing k q ((j, r) ∷ s) a =
    ground (arith, upsert-IsIncreasing k q s a.1, upsert-above j k q s, raise-above k j (keys s))

-- No level of the rest has a key up to the first one's.
lookup-fresh : (i j : ℤ) (s : Side) → i ≤ℤ j → All (λ x. j <ℤ x) (keys s) → lookup i s ≡ none
unfolding lookup
lookup-fresh i j [] h a = refl
lookup-fresh i j ((x, r) ∷ s) h a = ground (arith, lookup-fresh i j s h a.1)

length-upsert :
    (k : ℤ) (q : ℕ) (s : Side)
    → IsIncreasing (keys s)
    → length (upsert k q s)
      ≤ length s + (if is_some (lookup k s) then 0 else if q == 0 then 0 else 1)
unfolding upsert lookup
length-upsert k q [] a = ground arith
length-upsert k q ((j, r) ∷ s) a = ground (arith, length-upsert k q s a.1, lookup-fresh k j s)

-- Every row keeps the side ordered with no price listed twice, and within its capacity.
pub bounded_upsert-keeps :
    (m : ℕ) (k : ℤ) (q : ℕ) (s : Side)
    → length s ≤ m
    → IsIncreasing (keys s)
    → IsIncreasing (keys (bounded_upsert m k q s)) × (length (bounded_upsert m k q s) ≤ m)
unfolding bounded_upsert
bounded_upsert-keeps m k q s l a =
    ground (arith, upsert-IsIncreasing k q s a, length-upsert k q s a)

lookup-upsert :
    (k i : ℤ) (q : ℕ) (s : Side)
    → IsIncreasing (keys s)
    → lookup i (upsert k q s)
      ≡ (if eqb_ℤ k i then (if q == 0 then none else some q) else lookup i s)
unfolding upsert lookup
lookup-upsert k i q [] a = ground arith
lookup-upsert k i q ((j, r) ∷ s) a = ground (arith, lookup-upsert k i q s a.1, lookup-fresh i j s)

upsert-absent : (k : ℤ) (q : ℕ) (s : Side) → (q == 0) ≡ true → lookup k s ≡ none → upsert k q s ≡ s
unfolding upsert lookup
upsert-absent k q [] z h = ground arith
upsert-absent k q ((j, r) ∷ s) z h = ground (arith, upsert-absent k q s z)

-- On an ordered side within its capacity, with numpy as documented, a row keeps order and
-- capacity. As a map from prices to quantities: if there is room or the price is known, the price
-- then has the row's quantity, or is gone if that is 0, and every other price is as before; a new
-- price that meets a full side changes nothing.
pub lookup-apply_row :
    (np : Numpy) (m : ℕ) (k i : ℤ) (q : ℕ) (s : Side)
    → IsNumpy np
    → length s ≤ m
    → IsIncreasing (keys s)
    → let t = apply_row np m k q s in
      (IsIncreasing (keys t))
      × (length t ≤ m)
      × ((length s < m) ⊎ (is_some (lookup k s) ≡ true)
          → lookup i t ≡ (if eqb_ℤ k i then (if q == 0 then none else some q) else lookup i s))
      × (length s ≡ m → lookup k s ≡ none → t ≡ s)
lookup-apply_row np m k i q s h l a = rw (apply_row-bounded_upsert np m k q s h l a) (
  (bounded_upsert-keeps m k q s l a).0,
  (bounded_upsert-keeps m k q s l a).1,
  λ room. unfold bounded_upsert in ground (arith, lookup-upsert k i q s a),
  λ full fresh. unfold bounded_upsert in ground (arith, upsert-absent k q s),
)
