-- ===== src/Outbox/Counts.antt =====
-- src/application/outbox_relay.py: how often an id stands in the table, pending or being processed,
-- and how the operations change that.
use gektor.Base.{
  ℕ, zero, suc, ◌+◌, ◌≤◌, ◌≡◌, refl, Bool, false, ◌&&◌, List, [], ◌∷◌, ◌++◌, map, ◌==◌,
  if◌then◌else◌, take, arith, Bool-cases, inl, inr,
}
use gektor.Outbox.{Status, Event, is_pending, due, has_id, to_processing, delete_row, retry_row}

abbrev pub one_if : Bool → ℕ
one_if b = if b then 1 else 0

abbrev pub waits_as : ℕ → Event → Bool
waits_as i e = e.id == i && is_pending e.status

-- The pending rows with the id.
unfoldable pub pending_of : ℕ → List Event → ℕ
pending_of i [] = 0
pending_of i (e ∷ rest) = one_if (e.id == i && is_pending e.status) + pending_of i rest

-- The entries with the id, whatever their status.
unfoldable pub entries_of : ℕ → List Event → ℕ
entries_of i [] = 0
entries_of i (e ∷ rest) = one_if (e.id == i) + entries_of i rest

unfoldable pub times_in : ℕ → List ℕ → ℕ
times_in i [] = 0
times_in i (j ∷ rest) = one_if (j == i) + times_in i rest

pub pending-le-entries : (i : ℕ) (es : List Event) → pending_of i es ≤ entries_of i es
unfolding pending_of entries_of
pending-le-entries i [] = omega arith
pending-le-entries i (e ∷ es) = ground (arith, pending-le-entries i es)

pub pending-append :
    (i : ℕ) (xs ys : List Event) → pending_of i (xs ++ ys) ≡ pending_of i xs + pending_of i ys
unfolding pending_of
pending-append i [] ys = omega arith
pending-append i (x ∷ xs) ys = omega (arith, pending-append i xs ys)

pub entries-append :
    (i : ℕ) (xs ys : List Event) → entries_of i (xs ++ ys) ≡ entries_of i xs + entries_of i ys
unfolding entries_of
entries-append i [] ys = omega arith
entries-append i (x ∷ xs) ys = omega (arith, entries-append i xs ys)

pub entries-due : (i now : ℕ) (es : List Event) → entries_of i (due now es) ≤ pending_of i es
unfolding due entries_of pending_of
entries-due i now [] = omega arith
entries-due i now (e ∷ es) = ground (arith, entries-due i now es)

pub entries-take : (i n : ℕ) (es : List Event) → entries_of i (take n es) ≤ entries_of i es
unfolding entries_of
entries-take i zero es = omega arith
entries-take i (suc n) [] = omega arith
entries-take i (suc n) (e ∷ es) = omega (arith, entries-take i n es)

pub entries-map :
    (i : ℕ) (es : List Event)
    → entries_of i (map (λ (e : Event). record e { status = Status.processing }) es)
      ≡ entries_of i es
unfolding entries_of
entries-map i [] = refl
entries-map i (e ∷ es) = omega (arith, entries-map i es)

-- An id that is not chosen has no entry among the chosen, and one that is has.
pub has_id-entries : (i : ℕ) (es : List Event) → (if has_id i es then 1 else 0) ≤ entries_of i es
unfolding entries_of
has_id-entries i [] = omega arith
has_id-entries i (e ∷ es) = ground (arith, has_id-entries i es)

pub entries-claimed :
    (i : ℕ) (chosen es : List Event) → entries_of i (to_processing chosen es) ≡ entries_of i es
unfolding to_processing entries_of
entries-claimed i chosen [] = refl
entries-claimed i chosen (e ∷ es) = ground (arith, entries-claimed i chosen es)

pub pending-claimed :
    (i : ℕ) (chosen es : List Event)
    → pending_of i (to_processing chosen es) ≡ (if has_id i chosen then 0 else pending_of i es)
unfolding to_processing pending_of
pending-claimed i chosen [] = ground arith
pending-claimed i chosen (e ∷ es) = elim (Bool-cases (e.id == i)) [
  | inl s ↦ let z : e.id ≡ i = ground arith in rw z (ground (arith, pending-claimed i chosen es))
  | inr n ↦ ground (arith, pending-claimed i chosen es)
]

pub entries-deleted :
    (i j : ℕ) (es : List Event)
    → entries_of i (delete_row j es) ≡ (if j == i then 0 else entries_of i es)
unfolding delete_row entries_of
entries-deleted i j [] = ground arith
entries-deleted i j (e ∷ es) = ground (arith, entries-deleted i j es)

pub pending-deleted :
    (i j : ℕ) (es : List Event)
    → pending_of i (delete_row j es) ≡ (if j == i then 0 else pending_of i es)
unfolding delete_row pending_of
pending-deleted i j [] = ground arith
pending-deleted i j (e ∷ es) = ground (arith, pending-deleted i j es)

pub entries-retried :
    (i j time : ℕ) (es : List Event) → entries_of i (retry_row j time es) ≡ entries_of i es
unfolding retry_row entries_of
entries-retried i j time [] = refl
entries-retried i j time (e ∷ es) = ground (arith, entries-retried i j time es)

pub pending-retried :
    (i j time : ℕ) (es : List Event)
    → pending_of i (retry_row j time es) ≡ (if j == i then entries_of i es else pending_of i es)
unfolding retry_row entries_of pending_of
pending-retried i j time [] = ground arith
pending-retried i j time (e ∷ es) = ground (arith, pending-retried i j time es)

pub absent-entries : (i : ℕ) (es : List Event) → has_id i es ≡ false → entries_of i es ≡ 0
unfolding entries_of
absent-entries i [] h = refl
absent-entries i (e ∷ es) h = ground (arith, absent-entries i es)
