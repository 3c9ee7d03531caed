-- ===== src/Book/State.antt =====
-- src/infrastructure/gektor_l2/nd_orderbook.py: `NdOrderBookStateMachine`, with
-- gektor_l2/book_state.py. Methods return the new state; `time.monotonic()` is an argument. The
-- float arithmetic of `recalculate_pessimisation_factors` is the parameter `recalc`. The symbol, which
-- no method reads, and logging are left out.
pub mod Updates
pub mod Replay
pub mod Snapshots
pub mod Ready
use gektor.Base.{
  ℕ, zero, suc, ◌+◌, ◌-◌, ◌*◌, ◌/◌, ◌≤◌, ◌<◌, ◌≡◌, Bool, true, false, not, ◌&&◌, ◌||◌, Option, none,
  some, List, [], ◌∷◌, if◌then◌else◌, ltb, leb, ◌==◌, length, Float, ◌⊖◌, ◌≺◌, nought, ℤ, pos,
  opposite, pos_part, neg_part,
}
use gektor.Book.Side.{Side, Level, Numpy, apply_row_bid, apply_row_ask, fill_side}
use gektor.Book.Sizing.{Factors, calculate_msq_unlocked, ask_depth, bid_depth}
use gektor.Book.Ring.{Ring, Rows, Delta, write_frame, read_next_frame, fast_forward_splice}

pub data Reject : Type 0 where
  no_snapshot_anchor invalid_u_range stale_or_duplicate_u sequence_gap : Reject
  stale_or_duplicate_seq : Reject

pub data BookState : Type 0 where
  synced desynced recovering : BookState

pub data BookReadiness : Type 0 where
  ready empty_but_valid recovering blind_network blind_stale : BookReadiness

pub record Book (R : Type 0) : Type 0 where
  pub max_levels : ℕ
  pub max_age_sec : R
  pub u : ℕ
  pub last_seq : ℕ
  pub last_reject : Option Reject
  pub consistency_ok : Bool
  pub read_epoch : ℕ
  pub last_update_mono : R
  pub bids : Side
  pub asks : Side
  pub delta_buffer : Ring
  pub factors : Factors

-- `if seq is not None: self._last_seq = seq`
abbrev pub next_seq : Option ℕ → ℕ → ℕ
next_seq none old = old
next_seq (some s) old = s

-- `lo is not None and u > 0 and lo > u + 1`
abbrev pub is_gap : Option ℕ → ℕ → Bool
is_gap none u = false
is_gap (some lo) u = ltb 0 u && ltb (u + 1) lo

-- `lo is not None and new_u < lo`
abbrev pub is_inverted : Option ℕ → ℕ → Bool
is_inverted none new_u = false
is_inverted (some lo) new_u = ltb new_u lo

-- `seq is not None and last_seq > 0 and seq <= last_seq`
abbrev pub is_old_seq : Option ℕ → ℕ → Bool
is_old_seq none last = false
is_old_seq (some s) last = ltb 0 last && leb s last

-- `_hard_reset`
unfoldable pub hard_reset : {R : Type 0} → Book R → Book R
hard_reset b = record b {
  bids = [];
  asks = [];
  u = 0;
  last_seq = 0;
  consistency_ok = false;
  read_epoch = b.read_epoch + 1;
  delta_buffer = record b.delta_buffer { epoch = 0; head = 0; tail = 0 };
}

module _ (np : Numpy) where
  -- `for price, qty in rows: self._apply_row_bid(price, qty)`
  unfoldable pub apply_bids : ℕ → Rows → Side → Side
  apply_bids m [] s = s
  apply_bids m ((price, q) ∷ rows) s = apply_bids m rows (apply_row_bid np m price q s)

  unfoldable pub apply_asks : ℕ → Rows → Side → Side
  apply_asks m [] s = s
  apply_asks m ((price, q) ∷ rows) s = apply_asks m rows (apply_row_ask np m price q s)

  -- Both sides and the counters move on to a delta.
  abbrev pub advance : {R : Type 0} → Delta → Book R → Book R
  advance d b = record b {
    bids = apply_bids b.max_levels d.bids b.bids;
    asks = apply_asks b.max_levels d.asks b.asks;
    u = d.u_id;
    last_seq = next_seq d.seq b.last_seq;
  }

  -- One buffered delta of the loop in `ingest_snapshot`, and whether the loop goes on.
  unfoldable pub absorb : {R : Type 0} → Delta → Book R → Book R × Bool
  unfolding hard_reset
  absorb d b =
      if leb d.u_id b.u
      then (b, true)
      else if is_gap d.range_start b.u
      then (hard_reset (record b { last_reject = some Reject.sequence_gap }), false)
      else (advance d b, true)

  -- One round: the frame is taken off the buffer, and `go` is the rest of the loop.
  abbrev pub round : {R : Type 0} → (Book R → Book R) → Ring × Option Delta → Book R → Book R
  round go (t, none) b = record b { delta_buffer = t }
  round go (t, some d) b =
      let (c, on) = absorb d (record b { delta_buffer = t }) in if on then go c else c

  -- The loop itself.
  unfoldable pub drain : {R : Type 0} → ℕ → Book R → Book R
  drain zero b = b
  drain (suc fuel) b = round (drain fuel) (read_next_frame b.delta_buffer) b

  -- `ingest_delta`
  unfoldable pub ingest_delta : {R : Type 0} → Delta → R → Book R → Book R × Bool
  unfolding hard_reset
  ingest_delta d now b =
      if b.u == 0
      then (
        record b {
          delta_buffer = write_frame d b.delta_buffer;
          last_reject = some Reject.no_snapshot_anchor;
        },
        false,
      )
      else if is_inverted d.range_start d.u_id
      then (hard_reset (record b { last_reject = some Reject.invalid_u_range }), false)
      else if leb d.u_id b.u
      then (record b { last_reject = some Reject.stale_or_duplicate_u }, false)
      else if is_gap d.range_start b.u
      then (hard_reset (record b { last_reject = some Reject.sequence_gap }), false)
      else if is_old_seq d.seq b.last_seq
      then (record b { last_reject = some Reject.stale_or_duplicate_seq }, false)
      else (advance d (record b { last_reject = none; last_update_mono = now }), true)

  module _ (recalc : Side → Side → Factors → Factors) where
    -- `recalculate_pessimisation_factors`: the guard, then the float arithmetic.
    unfoldable pub recalculate_factors : {R : Type 0} → Book R → Book R
    recalculate_factors b =
        if not b.consistency_ok || length b.asks == 0 || length b.bids == 0
        then b
        else record b { factors = recalc b.bids b.asks b.factors }

    -- `ingest_snapshot`, up to the loop over the buffered deltas.
    abbrev pub anchor : {R : Type 0} → ℕ → Rows → Rows → R → Book R → Book R
    anchor update_id bids asks now b = record b {
      last_reject = none;
      bids = fill_side np opposite b.max_levels bids;
      asks = fill_side np pos b.max_levels asks;
      u = update_id;
      last_seq = 0;
      consistency_ok = true;
      last_update_mono = now;
      read_epoch = b.read_epoch + 1;
      delta_buffer = (fast_forward_splice update_id b.delta_buffer).0;
    }

    -- `ingest_snapshot`: the loop reads each buffered frame once at most.
    unfoldable pub ingest_snapshot : {R : Type 0} → ℕ → Rows → Rows → R → Book R → Book R
    unfolding recalculate_factors
    ingest_snapshot update_id bids asks now b =
        let c = anchor update_id bids asks now b in
        recalculate_factors (drain (c.delta_buffer.head - c.delta_buffer.tail + 1) c)

-- `calculate_msq`
unfoldable pub calculate_msq : {R : Type 0} → ℕ → Book R → Option (ℕ × ℕ)
calculate_msq target b =
    if not b.consistency_ok || target == 0 || length b.asks == 0
    then none
    else calculate_msq_unlocked b.factors b.asks target

-- `try_occ_msq`
unfoldable pub try_occ_msq : {R : Type 0} → ℕ → Book R → Option (ℕ × ℕ × ℕ)
try_occ_msq target b =
    if not b.consistency_ok || target == 0 || length b.asks == 0 || b.u == 0
    then none
    else elim (calculate_msq_unlocked b.factors b.asks target) [
      | none ↦ none
      | some (qty, px) ↦ if qty == 0 && px == 0 then none else some (qty, px, b.read_epoch)
    ]

abbrev pub first_ask : Side → ℕ
first_ask [] = 0
first_ask (l ∷ s) = pos_part l.0

abbrev pub first_bid : Side → ℕ
first_bid [] = 0
first_bid (l ∷ s) = neg_part l.0

-- `get_cumulative_depth`: bids, then asks, within `depth_bps` of the mid price.
unfoldable pub get_cumulative_depth : {R : Type 0} → ℕ → Book R → Option (ℕ × ℕ)
get_cumulative_depth depth_bps b =
    if not b.consistency_ok || length b.bids == 0 || length b.asks == 0
    then none
    else let mid = (first_bid b.bids + first_ask b.asks) / 2 in
      let half = mid * depth_bps / 10_000 in
      some (bid_depth (mid - half) b.bids 0, ask_depth (mid + half) b.asks 0)

module _ {R : Type 0} ⦃f : Float R⦄ where
  -- `readiness`
  unfoldable pub readiness : BookState → Bool → R → Book R → BookReadiness
  readiness state circuit_breaker_open now b =
      if circuit_breaker_open then BookReadiness.blind_network else elim state [
        | BookState.desynced ↦ BookReadiness.blind_network
        | BookState.recovering ↦ BookReadiness.recovering
        | BookState.synced ↦
            if not b.consistency_ok || b.u == 0
            then BookReadiness.recovering
            else if nought ≺ b.last_update_mono && b.max_age_sec ≺ (now ⊖ b.last_update_mono)
            then BookReadiness.blind_stale
            else if length b.bids == 0 || length b.asks == 0
            then BookReadiness.empty_but_valid
            else BookReadiness.ready
      ]
