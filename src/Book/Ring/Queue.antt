-- ===== src/Book/Ring/Queue.antt =====
-- src/infrastructure/gektor_l2/nd_orderbook.py: the ring buffer as a queue of frames.
use gektor.Base.{
  ℕ, zero, suc, ◌+◌, ◌-◌, ◌%◌, ◌^◌, ◌≤◌, ◌<◌, ◌≡◌, refl, ◌∙◌, ap, ap₂, true, false, Option, none,
  some, List, [], ◌∷◌, ◌++◌, if◌then◌else◌, leb, ◌==◌, drop, length, arith, drop-append,
}
use native.Mathlib.Decide.{dec_lt}
use gektor.Book.Ring.{
  Ring, Frame, Delta, encode, decode, buffer_capacity, slot, write_slot, u64, write_frame,
  read_next_frame, read_spin,
}

-- The frames from position `i` on.
abbrev pub slots : (ℕ → Frame) → ℕ → ℕ → List Frame
slots frames i zero = []
slots frames i (suc n) = frames (slot i) ∷ slots frames (i + 1) n

-- The queue that a buffer stands for, oldest frame first.
abbrev pub contents : Ring → List Frame
contents r = slots r.frames r.tail (r.head - r.tail)

-- No write in progress, the counters in order and short of their wrap-around.
pub record IsRing (r : Ring) : Type 0 where
  pub settled : r.epoch % 2 ≡ 0
  pub ordered : r.tail ≤ r.head
  pub bounded : r.head - r.tail ≤ buffer_capacity
  pub no_wrap : r.head + 1 < 2 ^ 64

write_slot-other :
    (i h : ℕ) (f : Frame) (frames : ℕ → Frame)
    → i < h
    → h < i + buffer_capacity
    → write_slot (slot h) f frames (slot i) ≡ frames (slot i)
write_slot-other i h f frames a b = let ne : (slot i == slot h) ≡ false = ground arith in rw ne

-- Writing at the head leaves the frames behind it alone.
slots-write :
    (n i h : ℕ) (f : Frame) (frames : ℕ → Frame)
    → i + n ≤ h
    → h < i + buffer_capacity
    → slots (write_slot (slot h) f frames) i n ≡ slots frames i n
slots-write zero i h f frames a b = refl
slots-write (suc n) i h f frames a b =
    ap₂ (λ x xs. x ∷ xs) (write_slot-other i h f frames (omega arith) b)
      (slots-write n (i + 1) h f frames (omega arith) (omega arith))

slots-snoc :
    (n i : ℕ) (frames : ℕ → Frame)
    → slots frames i (suc n) ≡ slots frames i n ++ (frames (slot (i + n)) ∷ [])
slots-snoc zero i frames = let e : i + 0 ≡ i = omega arith in rw e
slots-snoc (suc n) i frames =
    let e : i + suc n ≡ i + 1 + n = omega arith in
    rw e (ap (λ xs. frames (slot i) ∷ xs) (slots-snoc n (i + 1) frames))

length-slots : (n i : ℕ) (frames : ℕ → Frame) → length (slots frames i n) ≡ n
length-slots zero i frames = refl
length-slots (suc n) i frames = ap suc (length-slots n (i + 1) frames)

-- `n` frames and a new one behind them.
slots-push :
    (n i h : ℕ) (f : Frame) (frames : ℕ → Frame)
    → i + n ≡ h
    → n < buffer_capacity
    → slots (write_slot (slot h) f frames) i (suc n) ≡ slots frames i n ++ (f ∷ [])
slots-push n i h f frames e l =
    let self : (slot h == slot h) ≡ true = ground arith in
    rw (
      slots-snoc n i (write_slot (slot h) f frames),
      e,
      self,
      slots-write n i h f frames (omega arith) (omega arith),
    )

-- The two ways a write can go.
write-room :
    (d : Delta) (r : Ring)
    → IsRing r
    → r.head - r.tail < buffer_capacity
    → contents (write_frame d r) ≡ contents r ++ (encode d ∷ [])
unfolding write_frame
write-room d r h room =
    let t : leb buffer_capacity (r.head - r.tail) ≡ false = ground arith in
    let e : u64 (r.head + 1) ≡ r.head + 1 = omega arith in
    let n : r.head + 1 - r.tail ≡ suc (r.head - r.tail) = omega arith in
    rw (t, e, n) (slots-push (r.head - r.tail) r.tail r.head (encode d) r.frames (omega arith) room)

write-full :
    (m : ℕ) (d : Delta) (r : Ring)
    → IsRing r
    → r.head - r.tail ≡ suc m
    → suc m ≡ buffer_capacity
    → contents (write_frame d r) ≡ drop 1 (contents r) ++ (encode d ∷ [])
unfolding write_frame
write-full m d r h k full =
    let t : leb buffer_capacity (r.head - r.tail) ≡ true = ground arith in
    let e : u64 (r.head + 1) ≡ r.head + 1 = omega arith in
    let u : u64 (r.tail + 1) ≡ r.tail + 1 = omega arith in
    let n : r.head + 1 - (r.tail + 1) ≡ suc m = omega arith in
    rw (t, e, u, n, k)
      (slots-push m (r.tail + 1) r.head (encode d) r.frames (omega arith) (omega arith))

write-IsRing : (d : Delta) (r : Ring) → IsRing r → r.head + 2 < 2 ^ 64 → IsRing (write_frame d r)
unfolding write_frame
write-IsRing d r h w = ground arith

-- On a sound buffer whose head is two short of its wrap-around, a write appends its frame; of a
-- full buffer it gives up the oldest one, so that the newest 65536 frames remain, and the buffer
-- stays sound.
pub write_frame_lem :
    (d : Delta) (r : Ring)
    → IsRing r
    → r.head + 2 < 2 ^ 64
    → (contents (write_frame d r)
        ≡ drop (length (contents r) + 1 - buffer_capacity) (contents r ++ (encode d ∷ [])))
      × IsRing (write_frame d r)
write_frame_lem d r h w = (
  elim (dec_lt (r.head - r.tail) buffer_capacity) [
    | yes room ↦
        let z : length (contents r) + 1 - buffer_capacity ≡ 0 =
          omega (arith, length-slots (r.head - r.tail) r.tail r.frames) in
        rw z (write-room d r h room)
    | no full ↦
        let o : length (contents r) + 1 - buffer_capacity ≡ 1 =
          omega (arith, length-slots (r.head - r.tail) r.tail r.frames) in
        let k : r.head - r.tail ≡ suc (r.head - r.tail - 1) = omega arith in
        rw
          (
            o,
            drop-append 1 (contents r) (encode d ∷ [])
                (omega (arith, length-slots (r.head - r.tail) r.tail r.frames)),
          )
          (write-full (r.head - r.tail - 1) d r h k (omega arith))
  ],
  write-IsRing d r h w,
)

read_spin-settled :
    (spins : ℕ) (r : Ring)
    → r.epoch % 2 ≡ 0
    → read_spin (suc spins) r ≡ (
        if◌then◌else◌ {A = Ring × Option Delta}
          (r.tail == r.head)
          (r, none)
          (record r { tail = u64 (r.tail + 1) }, some (decode (r.frames (slot r.tail)))))
unfolding read_spin
read_spin-settled spins r h = ground arith

pub read-outcome :
    (r : Ring) (n : ℕ)
    → IsRing r
    → r.head - r.tail ≡ suc n
    → read_next_frame r ≡ (record r { tail = r.tail + 1 }, some (decode (r.frames (slot r.tail))))
unfolding read_next_frame
read-outcome r n h k =
    let e : u64 (r.tail + 1) ≡ r.tail + 1 = omega arith in
    let ne : (r.tail == r.head) ≡ false = ground arith in
    read_spin-settled 999 r h.settled ∙ rw (ne, e)

pub read-empty : (r : Ring) → IsRing r → r.head - r.tail ≡ 0 → read_next_frame r ≡ (r, none)
unfolding read_next_frame
read-empty r h k =
    let eq : (r.tail == r.head) ≡ true = ground arith in read_spin-settled 999 r h.settled ∙ rw eq

-- A read of a sound buffer that holds frames returns the oldest one, removes it and keeps the
-- buffer sound; an empty buffer yields nothing and stays as it is.
pub read_next_frame_lem :
    (r : Ring)
    → IsRing r
    → ((n : ℕ)
        → r.head - r.tail ≡ suc n
        → ((read_next_frame r).1 ≡ some (decode (r.frames (slot r.tail))))
          × (contents r ≡ r.frames (slot r.tail) ∷ contents (read_next_frame r).0)
          × IsRing (read_next_frame r).0)
      × (r.head - r.tail ≡ 0 → read_next_frame r ≡ (r, none))
read_next_frame_lem r h = (
  λ n k.
      rw (read-outcome r n h k)
        (refl, (let e : r.head - (r.tail + 1) ≡ n = omega arith in rw (k, e) refl), ground arith),
  read-empty r h,
)
