-- ===== src/Book/Side/Sorting.antt =====
-- An instance of what the book uses of numpy: a scan for `searchsorted`, an insertion sort of the
-- indices for `argsort`.
use mathlib.Core.List.{Perm}
use mathlib.Core.List.Perm
use gektor.Base.{
  ℕ, ◌≤◌, List, [], ◌∷◌, map, if◌then◌else◌, length, take, drop, get_or, ℤ, pos, All, ◌≤ℤ◌, ◌<ℤ◌,
  ltb_ℤ, arith, Bool-cases, inl, inr,
}
use gektor.Book.Side.{Numpy, IsNumpy, IsAscending, indices}
use gektor.Book.Side.Search.{position}

All-below : (k l : ℤ) (ks : List ℤ) → k ≤ℤ l → All (λ j. l ≤ℤ j) ks → All (λ j. k ≤ℤ j) ks
All-below k l [] h a = tt
All-below k l (j ∷ ks) h a = (omega (arith, a.0), All-below k l ks h a.1)

module _ (f : ℕ → ℤ) where
  unfoldable pub place : ℕ → List ℕ → List ℕ
  place i [] = i ∷ []
  place i (j ∷ js) = let rest = place i js in if ltb_ℤ (f j) (f i) then j ∷ rest else i ∷ j ∷ js

  unfoldable pub sort : List ℕ → List ℕ
  unfolding place
  sort [] = []
  sort (i ∷ is) = place i (sort is)

  place-perm : (i : ℕ) (js : List ℕ) → Perm (place i js) (i ∷ js)
  unfolding place
  place-perm i [] = Perm.refl _
  place-perm i (j ∷ js) = elim (Bool-cases (ltb_ℤ (f j) (f i))) [
    | inl e ↦ rw e (Perm.trans (Perm.cons j (place-perm i js)) (Perm.swap i j js))
    | inr e ↦ rw e (Perm.refl _)
  ]

  sort-perm : (is : List ℕ) → Perm (sort is) is
  unfolding sort
  sort-perm [] = Perm.refl _
  sort-perm (i ∷ is) = Perm.trans (place-perm i (sort is)) (Perm.cons i (sort-perm is))

  place-above :
      (k : ℤ) (i : ℕ) (js : List ℕ)
      → k ≤ℤ f i
      → All (λ j. k ≤ℤ j) (map f js)
      → All (λ j. k ≤ℤ j) (map f (place i js))
  unfolding place
  place-above k i [] h a = (h, tt)
  place-above k i (j ∷ js) h a = ground (arith, place-above k i js h a.1)

  place-IsAscending :
      (i : ℕ) (js : List ℕ) → IsAscending (map f js) → IsAscending (map f (place i js))
  unfolding place
  place-IsAscending i [] a = (tt, tt)
  place-IsAscending i (j ∷ js) a = elim (Bool-cases (ltb_ℤ (f j) (f i))) [
    | inl e ↦ rw e (place-above (f j) i js (ground arith) a.0, place-IsAscending i js a.1)
    | inr e ↦
        let h : f i ≤ℤ f j = ground arith in rw e ((h, All-below (f i) (f j) (map f js) h a.0), a)
  ]

  sort-IsAscending : (is : List ℕ) → IsAscending (map f (sort is))
  unfolding sort
  sort-IsAscending [] = tt
  sort-IsAscending (i ∷ is) = place-IsAscending i (sort is) (sort-IsAscending is)

position-within : (ks : List ℤ) (k : ℤ) → position ks k ≤ length ks
unfolding position
position-within [] k = omega arith
position-within (j ∷ ks) k = ground (arith, position-within ks k)

position-below : (ks : List ℤ) (k : ℤ) → All (λ j. j <ℤ k) (take (position ks k) ks)
unfolding position
position-below [] k = tt
position-below (j ∷ ks) k = ground (arith, position-below ks k)

position-above :
    (ks : List ℤ) (k : ℤ) → IsAscending ks → All (λ j. k ≤ℤ j) (drop (position ks k) ks)
unfolding position
position-above [] k a = tt
position-above (j ∷ ks) k a = ground (arith, position-above ks k a.1, All-below k j ks, a.0)

abbrev pub plain : Numpy
plain = record {
  searchsorted = position;
  argsort = λ ks. sort (λ i. get_or ks i (pos 0)) (indices 0 (length ks));
}

pub plain-IsNumpy : IsNumpy plain
plain-IsNumpy = record {
  within = position-within;
  below = λ ks k a. position-below ks k;
  above = position-above;
  sorts = λ ks. sort-IsAscending (λ i. get_or ks i (pos 0)) (indices 0 (length ks));
  permutes = λ ks. sort-perm (λ i. get_or ks i (pos 0)) (indices 0 (length ks));
}
