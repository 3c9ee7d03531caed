-- ===== src/Book/Ring/Splice.antt =====
-- src/infrastructure/gektor_l2/nd_orderbook.py: `fast_forward_splice`, and the frames that remain
-- after a snapshot.
use gektor.Base.{
  ℕ, zero, suc, ◌+◌, ◌-◌, ◌%◌, ◌≤◌, ◌<◌, ◌≡◌, refl, Bool, true, false, Option, none, some, List, [],
  ◌∷◌, if◌then◌else◌, ltb, leb, ◌==◌, arith, ◌⊎◌, inl, inr, Bool-cases, ◌||◌,
}
use gektor.Book.Ring.{Ring, Frame, slot, fast_forward_splice, scan, splice_spin, splice_at}
use gektor.Book.Ring.Queue.{IsRing, contents, slots}

-- The frames from the first one on whose id has reached `u`.
unfoldable pub from_id : ℕ → List Frame → List Frame
from_id u [] = []
from_id u (x ∷ xs) = let rest = from_id u xs in if leb u x.u_id then x ∷ xs else rest

-- A scan stops at the first such frame, or finds none.
scan_lem :
    (n u c : ℕ) (frames : ℕ → Frame)
    → ((t : ℕ)
        → scan n u c frames ≡ some t
        → (c ≤ t) × (t < c + n) × (slots frames t (c + n - t) ≡ from_id u (slots frames c n)))
      × (scan n u c frames ≡ none → from_id u (slots frames c n) ≡ [])
unfolding scan from_id
scan_lem zero u c frames = (λ t e. cc, λ e. refl)
scan_lem (suc n) u c frames = elim (Bool-cases (leb u (frames (slot c)).u_id)) [
  | inl hit ↦ (
    λ t e.
        let q : t ≡ c = ground arith in
        let z : c + suc n - c ≡ suc n = omega arith in
        (omega arith, omega arith, rw (hit, q, z) refl),
    λ e. ground arith,
  )
  | inr miss ↦ (
    λ t e.
        let (lo, hi, rest) = (scan_lem n u (c + 1) frames).0 t (ground arith) in
        let z : c + suc n - t ≡ c + 1 + n - t = omega arith in
        (omega arith, omega arith, rw (miss, z) rest),
    λ e. rw miss ((scan_lem n u (c + 1) frames).1 (ground arith)),
  )
]

splice_spin-settled :
    (spins u : ℕ) (r : Ring)
    → r.epoch % 2 ≡ 0
    → splice_spin (suc spins) u r ≡ (
        if◌then◌else◌ {A = Ring × Bool}
          ((r.head == r.tail)
            || ltb u (r.frames (slot r.tail)).u_id
            || ltb (r.frames (slot (r.head - 1))).u_id u)
          (r, false)
          (splice_at (scan (r.head - r.tail) u r.tail r.frames) r))
unfolding splice_spin
splice_spin-settled spins u r h = ground arith

spliced :
    (found : Option ℕ) (u : ℕ) (r : Ring)
    → IsRing r
    → scan (r.head - r.tail) u r.tail r.frames ≡ found
    → let (t, done) = splice_at found r in
      (done ≡ true → contents t ≡ from_id u (contents r)) × (done ≡ false → t ≡ r) × IsRing t
spliced none u r h e = (λ d. cc, λ d. refl, h)
spliced (some t) u r h e =
    let (lo, hi, rest) = (scan_lem (r.head - r.tail) u r.tail r.frames).0 t e in
    let z : r.tail + (r.head - r.tail) - t ≡ r.head - t = omega arith in
    (λ d. rw z at rest, λ d. cc, ground arith)

-- On a sound buffer, which stays sound, a splice that succeeds keeps exactly the buffered frames
-- from the first one on whose update id has reached the snapshot's; one that fails leaves the
-- buffer as it is. It fails on an empty buffer, on a snapshot older than the oldest frame and on
-- one newer than the newest frame.
pub fast_forward_splice_lem :
    (u : ℕ) (r : Ring)
    → IsRing r
    → let (t, done) = fast_forward_splice u r in
      IsRing t
      × (done ≡ true → contents t ≡ from_id u (contents r))
      × (done ≡ false → t ≡ r)
      × ((r.head ≡ r.tail)
            ⊎ (u < (r.frames (slot r.tail)).u_id)
            ⊎ ((r.frames (slot (r.head - 1))).u_id < u)
          → done ≡ false)
unfolding fast_forward_splice
fast_forward_splice_lem u r h =
    rw (splice_spin-settled 999 u r h.settled)
      (ground (arith, spliced (scan (r.head - r.tail) u r.tail r.frames) u r h refl))
