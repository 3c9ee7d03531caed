-- ===== src/Book/Side/Snapshot.antt =====
-- src/infrastructure/gektor_l2/nd_orderbook.py: a side filled from a snapshot.
use mathlib.Core.List.{Perm, Permᴰ, Mem, Nodup, Nodup-cons, mem-cons}
use mathlib.Core.Logic.Or
use native.Mathlib.Decide.{dec_lt}
use gektor.Book.Side.Update.{IsIncreasing}
use mathlib.Core.Logic.{∥∥₁_elim}
use native.Mathlib.Nat.{ℕ_set}
use mathlib.Core.List.Perm
use gektor.Base.{
  ℕ, zero, suc, ◌+◌, ◌≤◌, ◌≡◌, refl, ap, ap₂, ◌∙◌, subst, List, [], ◌∷◌, map, if◌then◌else◌, ◌==◌,
  length, get_or, ℤ, pos, All, ◌≤ℤ◌, ◌<ℤ◌, arith, pos_part, neg_part, eq_of_parts,
}
use gektor.Book.Side.{
  Numpy, IsNumpy, IsAscending, Side, key, keys, live_rows, fill_side, gather, indices,
}

-- The rows with a quantity.
unfoldable pub live : (ℕ → ℤ) → List (ℕ × ℕ) → Side
live to_key [] = []
live to_key ((price, q) ∷ rows) =
    if q == 0 then live to_key rows else ((to_key price, q) ∷ live to_key rows)

-- With room for all of them, the loop keeps the rows with a quantity.
live_rows-live :
    (to_key : ℕ → ℤ) (room : ℕ) (rows : List (ℕ × ℕ))
    → length (live to_key rows) ≤ room
    → live_rows to_key room rows ≡ live to_key rows
unfolding live live_rows
live_rows-live to_key zero [] h = refl
live_rows-live to_key (suc room) [] h = refl
live_rows-live to_key zero ((price, q) ∷ rows) h = ground (arith, live_rows-live to_key zero rows)
live_rows-live to_key (suc room) ((price, q) ∷ rows) h =
    ground (arith, live_rows-live to_key room rows, live_rows-live to_key (suc room) rows)

length-live_rows :
    (to_key : ℕ → ℤ) (room : ℕ) (rows : List (ℕ × ℕ)) → length (live_rows to_key room rows) ≤ room
unfolding live_rows
length-live_rows to_key zero rows = omega arith
length-live_rows to_key (suc room) [] = omega arith
length-live_rows to_key (suc room) ((price, q) ∷ rows) =
    ground (arith, length-live_rows to_key room rows, length-live_rows to_key (suc room) rows)

map-indices-suc {ℓ} :
    {A : Type ℓ} (g : ℕ → A) (i n : ℕ)
    → map g (indices (suc i) n) ≡ map (λ j. g (suc j)) (indices i n)
map-indices-suc g i zero = refl
map-indices-suc g i (suc n) = ap (λ t. g (suc i) ∷ t) (map-indices-suc g (suc i) n)

gather-indices : (s : Side) → gather s (indices 0 (length s)) ≡ s
gather-indices [] = refl
gather-indices (l ∷ s) =
    ap (λ t. l ∷ t)
      (map-indices-suc (λ i. get_or (l ∷ s) i (pos 0, 0)) 0 (length s) ∙ gather-indices s)

length-keys : (s : Side) → length (keys s) ≡ length s
length-keys [] = refl
length-keys (l ∷ s) = ap suc (length-keys s)

keys-get_or : (s : Side) (i : ℕ) → key (get_or s i (pos 0, 0)) ≡ get_or (keys s) i (pos 0)
keys-get_or [] i = refl
keys-get_or (l ∷ s) zero = refl
keys-get_or (l ∷ s) (suc i) = keys-get_or s i

keys-gather :
    (s : Side) (order : List ℕ) → keys (gather s order) ≡ map (λ i. get_or (keys s) i (pos 0)) order
keys-gather s [] = refl
keys-gather s (i ∷ order) = ap₂ (λ k ks. k ∷ ks) (keys-get_or s i) (keys-gather s order)

gather-argsort : (np : Numpy) (s : Side) → IsNumpy np → Perm (gather s (np.argsort (keys s))) s
gather-argsort np s h =
    subst (λ t. Perm (gather s (np.argsort (keys s))) t) (gather-indices s)
      (Perm.map (λ i. get_or s i (pos 0, 0)) (rw (length-keys s) at (h.permutes (keys s))))

length-permᴰ : {xs ys : Side} → Permᴰ xs ys → length xs ≡ length ys
length-permᴰ Permᴰ.nil = refl
length-permᴰ (Permᴰ.cons e p) = ap suc (length-permᴰ p)
length-permᴰ (Permᴰ.swap a b) = refl
length-permᴰ (Permᴰ.trans p q) = length-permᴰ p ∙ length-permᴰ q

length-perm : (xs ys : Side) → Perm xs ys → length xs ≡ length ys
length-perm xs ys p = ∥∥₁_elim p (ℕ_set _ _) length-permᴰ

-- With numpy as documented, a side filled from a snapshot ascends and holds, in some order, the
-- first rows with a quantity, as many as fit; if all of them fit, it holds exactly those.
pub fill_side_lem :
    (np : Numpy) (to_key : ℕ → ℤ) (m : ℕ) (rows : List (ℕ × ℕ))
    → IsNumpy np
    → let s = fill_side np to_key m rows in
      IsAscending (keys s)
      × Perm s (live_rows to_key m rows)
      × (length s ≤ m)
      × (length (live to_key rows) ≤ m → Perm s (live to_key rows))
unfolding fill_side
fill_side_lem np to_key m rows h =
    let s = live_rows to_key m rows in
    let p = gather-argsort np s h in
    (
      rw (keys-gather s (np.argsort (keys s))) (h.sorts (keys s)),
      p,
      omega (arith, length-perm _ s p, length-live_rows to_key m rows),
      λ fits.
          subst (λ t. Perm (fill_side np to_key m rows) t) (live_rows-live to_key m rows fits) p,
    )

strictly-above : (k : ℤ) (ks : List ℤ) → All (λ j. k ≤ℤ j) ks → ¬ Mem k ks → All (λ j. k <ℤ j) ks
strictly-above k [] a n = tt
strictly-above k (j ∷ ks) a n = (
  elim (dec_lt (pos_part k + neg_part j) (pos_part j + neg_part k)) [
    | yes p ↦ p
    | no p ↦ absurd (n (mem-cons.1 (Or.inl (eq_of_parts k j (omega arith)))))
  ],
  strictly-above k ks a.1 (λ m. n (mem-cons.1 (Or.inr m))),
)

ascending-IsIncreasing : (ks : List ℤ) → IsAscending ks → Nodup ks → IsIncreasing ks
ascending-IsIncreasing [] a n = tt
ascending-IsIncreasing (k ∷ ks) a n =
    (strictly-above k ks a.0 (Nodup-cons.0 n).0, ascending-IsIncreasing ks a.1 (Nodup-cons.0 n).1)

-- A snapshot that lists no price twice fills a side with no price listed twice.
pub fill_side-IsIncreasing :
    (np : Numpy) (to_key : ℕ → ℤ) (m : ℕ) (rows : List (ℕ × ℕ))
    → IsNumpy np
    → Nodup (keys (live_rows to_key m rows))
    → IsIncreasing (keys (fill_side np to_key m rows)) × (length (fill_side np to_key m rows) ≤ m)
fill_side-IsIncreasing np to_key m rows h n =
    let (a, p, l, _) = fill_side_lem np to_key m rows h in
    (ascending-IsIncreasing _ a (Perm.nodup (Perm.map key (Perm.symm p)) n), l)
