-- ===== src/Book/Ring.antt =====
-- src/infrastructure/gektor_l2/nd_orderbook.py: `SHMDeltaRingBuffer`, the buffer for deltas that
-- come before a snapshot. Its counters are uint64 and wrap; update ids, prices and volumes are taken
-- to fit their fields. The book calls it from one task, so that no call meets another: the epoch
-- that a reader samples twice is the same both times.
pub mod Queue
pub mod Splice
use gektor.Base.{
  ℕ, zero, suc, ◌+◌, ◌-◌, ◌%◌, ◌^◌, ◌≤◌, ◌<◌, ◌≡◌, Bool, true, false, Option, none, some, List, [],
  ◌∷◌, if◌then◌else◌, ltb, leb, ◌==◌, take, ℤ, pos, negsuc, pos_part, eqb_ℤ,
}

abbrev pub buffer_capacity : ℕ
buffer_capacity = 65_536

abbrev pub max_frame_levels : ℕ
max_frame_levels = 50

abbrev pub max_spin : ℕ
max_spin = 1000

abbrev pub u64 : ℕ → ℕ
u64 n = n % 2 ^ 64

abbrev pub Rows : Type 0
Rows = List (ℕ × ℕ)

-- `SHMDeltaFrame`: -1 and 0 stand for a missing range start and sequence number.
pub record Frame : Type 0 where
  pub u_id : ℕ
  pub range_start : ℤ
  pub seq : ℕ
  pub bids : Rows
  pub asks : Rows

pub record Ring : Type 0 where
  pub epoch : ℕ
  pub head : ℕ
  pub tail : ℕ
  pub frames : ℕ → Frame

-- The dict that `read_next_frame` returns.
pub record Delta : Type 0 where
  pub u_id : ℕ
  pub range_start : Option ℕ
  pub seq : Option ℕ
  pub bids : Rows
  pub asks : Rows

abbrev or_minus_one : Option ℕ → ℤ
or_minus_one none = negsuc 0
or_minus_one (some n) = pos n

abbrev or_zero : Option ℕ → ℕ
or_zero none = 0
or_zero (some n) = n

-- What `write_frame` stores: 50 levels of a side at most.
abbrev pub encode : Delta → Frame
encode d = record {
  u_id = d.u_id;
  range_start = or_minus_one d.range_start;
  seq = or_zero d.seq;
  bids = take max_frame_levels d.bids;
  asks = take max_frame_levels d.asks;
}

-- What `read_next_frame` makes of a frame.
abbrev pub decode : Frame → Delta
decode f = record {
  u_id = f.u_id;
  range_start = if eqb_ℤ f.range_start (negsuc 0) then none else some (pos_part f.range_start);
  seq = if f.seq == 0 then none else some f.seq;
  bids = f.bids;
  asks = f.asks;
}

-- `frames[i & BUFFER_MASK]`
abbrev pub slot : ℕ → ℕ
slot i = i % buffer_capacity

abbrev pub write_slot : ℕ → Frame → (ℕ → Frame) → ℕ → Frame
write_slot i f frames j = if j == i then f else frames j

-- `write_frame`: on a full buffer the oldest frame is given up.
unfoldable pub write_frame : Delta → Ring → Ring
write_frame d r = record {
  epoch = u64 (u64 (r.epoch + 1) + 1);
  tail = if leb buffer_capacity (r.head - r.tail) then u64 (r.tail + 1) else r.tail;
  frames = write_slot (slot r.head) (encode d) r.frames;
  head = u64 (r.head + 1);
}

-- `read_next_frame`, with the spins that are left.
unfoldable pub read_spin : ℕ → Ring → Ring × Option Delta
read_spin zero r = (r, none)
read_spin (suc spins) r =
    let again = read_spin spins r in
    if r.epoch % 2 == 1
    then again
    else if r.tail == r.head
    then (r, none)
    else (record r { tail = u64 (r.tail + 1) }, some (decode (r.frames (slot r.tail))))

unfoldable pub read_next_frame : Ring → Ring × Option Delta
unfolding read_spin
read_next_frame r = read_spin max_spin r

-- The scan of `fast_forward_splice` from `curr` on, `rounds` frames before the head.
unfoldable pub scan : ℕ → ℕ → ℕ → (ℕ → Frame) → Option ℕ
scan zero u curr frames = none
scan (suc rounds) u curr frames =
    let on = scan rounds u (curr + 1) frames in
    if leb u (frames (slot curr)).u_id then some curr else on

abbrev pub splice_at : Option ℕ → Ring → Ring × Bool
splice_at none r = (r, false)
splice_at (some t) r = (record r { tail = t }, true)

unfoldable pub splice_spin : ℕ → ℕ → Ring → Ring × Bool
unfolding scan
splice_spin zero u r = (r, false)
splice_spin (suc spins) u r =
    let again = splice_spin spins u r in
    if r.epoch % 2 == 1
    then again
    else if r.head == r.tail
    then (r, false)
    else if ltb u (r.frames (slot r.tail)).u_id
    then (r, false)
    else if ltb (r.frames (slot (r.head - 1))).u_id u
    then (r, false)
    else splice_at (scan (r.head - r.tail) u r.tail r.frames) r

unfoldable pub fast_forward_splice : ℕ → Ring → Ring × Bool
unfolding splice_spin
fast_forward_splice u r = splice_spin max_spin u r
