-- ===== src/Barrier/Ids.antt =====
-- src/domain/triple_barrier.py: where the id of an intent stands, in the slots and in the rows of
-- the results.
use gektor.Base.{
  ℕ, zero, suc, ◌+◌, ◌-◌, ◌≤◌, ◌<◌, ◌≡◌, refl, ℤ, Bool, true, ◌&&◌, Option, none, some, is_some,
  List, [], ◌∷◌, map, if◌then◌else◌, ltb, leb, ◌==◌, arith, set, length, Bool-cases, inl, inr,
}
use native.Mathlib.Nat.{mod-eq_of_lt}
use gektor.Barrier.{Slot, Result, Labeler, write_result, watch, resolution, row_of}
use gektor.Barrier.Steps.{resolve_slot, resolve_all, any_active, scan_barriers}
use gektor.Barrier.Counts.{resolution-active}

abbrev pub one_if : Bool → ℕ
one_if b = if b then 1 else 0

-- The active slots of an intent.
unfoldable pub open_of : ℕ → List Slot → ℕ
open_of j [] = 0
open_of j (s ∷ rest) = one_if (s.active && s.intent_id == j) + open_of j rest

-- The rows of an intent among the first `n`.
unfoldable pub rows_of : ℕ → ℕ → List Result → ℕ
rows_of j zero rows = 0
rows_of j (suc n) [] = 0
rows_of j (suc n) (r ∷ rest) = one_if (r.intent_id == j) + rows_of j n rest

rows-set :
    (j n : ℕ) (rows : List Result) (r : Result)
    → n < length rows
    → rows_of j (suc n) (set rows n r) ≡ rows_of j n rows + one_if (r.intent_id == j)
unfolding rows_of
rows-set j n [] r h = absurd (omega arith)
rows-set j zero (x ∷ rest) r h = omega arith
rows-set j (suc n) (x ∷ rest) r h = omega (arith, rows-set j n rest r (omega arith))

rows-overwritten :
    (j n k : ℕ) (rows : List Result) (r : Result)
    → rows_of j n (set rows k r) ≤ rows_of j n rows + one_if (r.intent_id == j)
unfolding rows_of
rows-overwritten j zero k rows r = omega arith
rows-overwritten j (suc n) k [] r = omega arith
rows-overwritten j (suc n) zero (x ∷ rest) r = omega arith
rows-overwritten j (suc n) (suc k) (x ∷ rest) r = omega (arith, rows-overwritten j n k rest r)

rows-full :
    (j n : ℕ) (rows : List Result) → length rows ≤ n → rows_of j (suc n) rows ≡ rows_of j n rows
unfolding rows_of
rows-full j zero [] h = refl
rows-full j (suc n) [] h = refl
rows-full j zero (x ∷ rest) h = absurd (omega arith)
rows-full j (suc n) (x ∷ rest) h = omega (arith, rows-full j n rest (omega arith))

length-set : (rows : List Result) (n : ℕ) (r : Result) → length (set rows n r) ≡ length rows
length-set [] n r = refl
length-set (x ∷ rest) zero r = refl
length-set (x ∷ rest) (suc n) r = omega (arith, length-set rest n r)

-- With the id in so many slots: it stands once if it was given out and no row was overwritten, and
-- else at most once, and nowhere if it was not given out. The ring is filled from its start.
pub record IsPlaced (j slots : ℕ) (l : Labeler) : Type 0 where
  pub kept :
      one_if (ltb j l.next_id && leb l.res_count l.res_cap) ≤ slots + rows_of j l.res_count l.res
  pub once : slots + rows_of j l.res_count l.res ≤ one_if (ltb j l.next_id)
  pub size : length l.res ≡ l.res_cap
  pub head : l.res_count < l.res_cap → l.res_head ≡ l.res_count

pub write_result-IsPlaced :
    (j n : ℕ) (r : Result) (l : Labeler)
    → IsPlaced j (n + one_if (r.intent_id == j)) l
    → IsPlaced j n (write_result r l)
unfolding write_result
write_result-IsPlaced j n r l h =
    let size = h.size in
    let longer = length-set l.res l.res_head r in
    elim (Bool-cases (ltb l.res_count l.res_cap)) [
      | inl y ↦
          let at : l.res_head ≡ l.res_count = h.head (ground arith) in
          let more = rows-set j l.res_count l.res r (ground arith) in
          record {
            kept = rw at (let a = h.kept in ground arith);
            once = rw at (let a = h.once in ground arith);
            size = omega arith;
            head = λ p. rw at (mod-eq_of_lt p);
          }
      | inr y ↦
          let more = rows-overwritten j (l.res_count + 1) l.res_head l.res r in
          let full = rows-full j l.res_count l.res (ground arith) in
          record {
            kept = ground arith;
            once = let a = h.once in ground arith;
            size = omega arith;
            head = λ p. absurd (ground arith);
          }
    ]

open-watch : (j h w : ℕ) (slots : List Slot) → open_of j (map (watch h w) slots) ≡ open_of j slots
unfolding open_of watch
open-watch j h w [] = refl
open-watch j h w (s ∷ rest) = ground (arith, open-watch j h w rest)

pub same-IsPlaced : (j a b : ℕ) (l : Labeler) → a ≡ b → IsPlaced j a l → IsPlaced j b l
same-IsPlaced j a b l e h = rw (← e) h

-- Neither the slots nor their count matter.
pub relaid-IsPlaced :
    (j n count : ℕ) (slots : List Slot) (l : Labeler)
    → IsPlaced j n l
    → IsPlaced j n (record l { slots = slots; open_count = count })
relaid-IsPlaced j n count slots l h = record {
  kept = h.kept;
  once = h.once;
  size = h.size;
  head = h.head;
}

resolve_slot-IsPlaced :
    (j n i : ℕ) (o : Option (ℤ × ℕ)) (s : Slot) (l : Labeler)
    → (is_some o ≡ true → s.active ≡ true)
    → IsPlaced j (n + open_of j (s ∷ [])) l
    → let (t, m) = resolve_slot o i s l in IsPlaced j (n + open_of j (t ∷ [])) m
unfolding resolve_slot open_of
resolve_slot-IsPlaced j n i none s l a h = h
resolve_slot-IsPlaced j n i (some r) s l a h =
    let b : s.active ≡ true = a refl in
    let k = same-IsPlaced j _ (n + 0 + one_if (s.intent_id == j)) l (ground arith) h in
    let m = write_result (row_of i r s) l in
    relaid-IsPlaced j (n + 0) (l.open_count - 1) m.slots m
      (write_result-IsPlaced j (n + 0) (row_of i r s) l k)

resolve_all-IsPlaced :
    (j n h w c i : ℕ) (slots : List Slot) (l : Labeler)
    → IsPlaced j (n + open_of j slots) l
    → let (ts, m) = resolve_all h w c i slots l in IsPlaced j (n + open_of j ts) m
unfolding resolve_all open_of
resolve_all-IsPlaced j n h w c i [] l k = k
resolve_all-IsPlaced j n h w c i (s ∷ rest) l k =
    let o = resolution h w c i s in
    let (t, m) = resolve_slot o i s l in
    let k1 = same-IsPlaced j _ (n + open_of j rest + open_of j (s ∷ [])) l (omega arith) k in
    let k2 =
      resolve_slot-IsPlaced j (n + open_of j rest) i o s l (resolution-active h w c i s) k1 in
    let k3 = same-IsPlaced j _ (n + open_of j (t ∷ []) + open_of j rest) m (omega arith) k2 in
    let (ts, z) = resolve_all h w c i rest m in
    same-IsPlaced j _ (n + open_of j (t ∷ ts)) z (omega arith)
      (resolve_all-IsPlaced j (n + open_of j (t ∷ [])) h w c i rest m k3)

-- Every id is placed.
abbrev pub AllPlaced : Labeler → Type 0
AllPlaced l = (j : ℕ) → IsPlaced j (open_of j l.slots) l

pub scan_barriers-AllPlaced :
    (h w c i : ℕ) (l : Labeler) → AllPlaced l → AllPlaced (scan_barriers h w c i l)
unfolding scan_barriers
scan_barriers-AllPlaced h w c i l k j =
    let watched = map (watch h w) l.slots in
    let k1 =
      same-IsPlaced j _ (0 + open_of j watched) l (omega (arith, open-watch j h w l.slots)) (k j) in
    let (ts, m) = resolve_all h w c i watched l in
    let k2 =
      same-IsPlaced j _ (open_of j ts) m (omega arith)
        (resolve_all-IsPlaced j 0 h w c i watched l k1) in
    elim (Bool-cases (any_active l.slots)) [
      | inl e ↦ rw e (relaid-IsPlaced j (open_of j ts) m.open_count ts m k2)
      | inr e ↦ rw e (k j)
    ]
