-- ===== src/Mux.antt =====
-- src/infrastructure/gektor_l2/ws_multiplexer.py: which book of the feed is in which state, the
-- queue of REST resyncs with its pump, and the loss of a connection. The coroutines run on one event
-- loop, so that what stands between two awaits is one step. Symbols arrive stripped and in upper
-- case and rows parsed; hot swaps, sockets and logging are left out, and `stop` is never set.
pub mod Queue
pub mod Stuck
pub mod Reply
mod Examples
use gektor.Base.{
  ℕ, ◌+◌, ◌≡◌, Bool, true, false, not, ◌||◌, Option, none, some, List, [], ◌∷◌, ◌++◌, if◌then◌else◌,
  ◌==◌, String, str_eq,
}
use gektor.Base.Dicts.{Dict, lookup, insert}
use gektor.Book.Side.{Side, Numpy}
use gektor.Book.Sizing.{Factors}
use gektor.Book.Ring.{Rows, Delta}
use gektor.Book.State.{Book, BookState, Reject, ingest_delta, ingest_snapshot}

pub data MsgType : Type 0 where
  snapshot delta other : MsgType

-- Where `_resync_pump` is: at the queue, awaiting the REST reply for an entry, or asleep after a
-- failure.
pub data Pump : Type 0 where
  idle : Pump
  fetching : String → ℕ → Pump
  asleep : String → Pump

pub record Mux (R : Type 0) : Type 0 where
  pub processors : Dict (Book R)
  pub states : Dict BookState
  pub has_source : Bool
  pub queue : List (String × ℕ)
  pub pending : List String
  pub connection_epoch : ℕ
  pub pump : Pump

-- `sym in pending`, and `pending.discard(sym)`
unfoldable pub member : String → List String → Bool
member s [] = false
member s (t ∷ ts) = let rest = member s ts in if str_eq t s then true else rest

unfoldable pub discard : String → List String → List String
discard s [] = []
discard s (t ∷ ts) = let rest = discard s ts in if str_eq t s then rest else t ∷ rest

abbrev pub set_state : {R : Type 0} → String → BookState → Mux R → Mux R
set_state sym st m = record m { states = insert sym st m.states }

-- `book_state`
unfoldable pub book_state : {R : Type 0} → String → Mux R → BookState
book_state sym m = elim (lookup sym m.states) [ none ↦ BookState.desynced | some st ↦ st ]

-- `request_resync`
unfoldable pub request_resync : {R : Type 0} → String → Mux R → Mux R
request_resync sym m =
    if not m.has_source
    then set_state sym BookState.desynced m
    else if member sym m.pending
    then m
    else record m { pending = sym ∷ m.pending; queue = m.queue ++ ((sym, m.connection_epoch) ∷ []) }

-- `for sym in initial_symbols: if sym in self._states: self._states[sym] = BookState.DESYNCED`
unfoldable pub desync : List String → Dict BookState → Dict BookState
desync [] st = st
desync (s ∷ ss) st = elim (lookup s st) [
  | none ↦ desync ss st
  | some _ ↦ desync ss (insert s BookState.desynced st)
]

-- The `finally` block of `_shard_worker`, with `_purge_resync_queue`.
unfoldable pub lose_shard : {R : Type 0} → List String → Mux R → Mux R
lose_shard initial_symbols m = record m {
  connection_epoch = m.connection_epoch + 1;
  queue = [];
  pending = [];
  states = desync initial_symbols m.states;
}

-- The rejections after which a book needs a new snapshot.
abbrev pub needs_resync : Option Reject → Bool
needs_resync none = false
needs_resync (some Reject.no_snapshot_anchor) = true
needs_resync (some Reject.invalid_u_range) = true
needs_resync (some Reject.stale_or_duplicate_u) = false
needs_resync (some Reject.sequence_gap) = true
needs_resync (some Reject.stale_or_duplicate_seq) = false

abbrev pub set_book : {R : Type 0} → String → Book R → Mux R → Mux R
set_book sym b m = record m { processors = insert sym b m.processors }

abbrev pub recover : {R : Type 0} → String → Mux R → Mux R
recover sym m = request_resync sym (set_state sym BookState.recovering m)

-- The end of `_resync_pump`'s round: back to the queue.
abbrev pub rest : {R : Type 0} → Mux R → Mux R
rest m = record m { pump = Pump.idle }

-- `entry = await queue.get()`, up to the await of the fetch.
abbrev pub begin_fetch : {R : Type 0} → String → ℕ → Mux R → Mux R
begin_fetch sym entry_epoch m =
    if not (entry_epoch == m.connection_epoch) then m else elim (lookup sym m.processors) [
      | none ↦ m
      | some _ ↦ if m.has_source then record m { pump = Pump.fetching sym entry_epoch } else m
    ]

abbrev pub pop_entry : {R : Type 0} → Pump → List (String × ℕ) → Mux R → Mux R
pop_entry Pump.idle ((sym, e) ∷ entries) m =
    begin_fetch sym e (record m { queue = entries; pending = discard sym m.pending })
pop_entry Pump.idle [] m = m
pop_entry (Pump.fetching s e) q m = m
pop_entry (Pump.asleep s) q m = m

unfoldable pub take_entry : {R : Type 0} → Mux R → Mux R
take_entry m = pop_entry m.pump m.queue m

-- `except BybitRestRateLimited`
abbrev pub limit_at : {R : Type 0} → Pump → Mux R → Mux R
limit_at (Pump.fetching sym e) m = recover sym (rest m)
limit_at Pump.idle m = m
limit_at (Pump.asleep sym) m = m

unfoldable pub rate_limited : {R : Type 0} → Mux R → Mux R
rate_limited m = limit_at m.pump m

-- `except Exception`: the state is set before the sleep, the resync requested after it.
abbrev pub fail_at : {R : Type 0} → Pump → Mux R → Mux R
fail_at (Pump.fetching sym e) m = record (set_state sym BookState.desynced m) {
  pump = Pump.asleep sym;
}
fail_at Pump.idle m = m
fail_at (Pump.asleep sym) m = m

unfoldable pub fetch_failed : {R : Type 0} → Mux R → Mux R
fetch_failed m = fail_at m.pump m

abbrev pub wake_at : {R : Type 0} → Pump → Mux R → Mux R
wake_at (Pump.asleep sym) m = request_resync sym (rest m)
wake_at Pump.idle m = m
wake_at (Pump.fetching sym e) m = m

unfoldable pub wake : {R : Type 0} → Mux R → Mux R
wake m = wake_at m.pump m

module _ (np : Numpy) (recalc : Side → Side → Factors → Factors) where
  -- A frame for a book in step.
  abbrev pub ingest_synced : {R : Type 0} → String → Book R → MsgType → Delta → R → Mux R → Mux R
  ingest_synced sym b MsgType.snapshot d now m =
      set_book sym (ingest_snapshot np recalc d.u_id d.bids d.asks now b) m
  ingest_synced sym b MsgType.delta d now m =
      let (c, applied) = ingest_delta np d now b in
      if applied
      then set_book sym c m
      else if needs_resync c.last_reject
      then recover sym (set_book sym c m)
      else set_book sym c m
  ingest_synced sym b MsgType.other d now m = m

  abbrev pub ingest_in :
      {R : Type 0} → BookState → String → Book R → MsgType → Delta → R → Mux R → Mux R
  ingest_in BookState.recovering sym b MsgType.snapshot d now m = m
  ingest_in BookState.recovering sym b MsgType.delta d now m =
      set_book sym (ingest_delta np d now b).0 m
  ingest_in BookState.recovering sym b MsgType.other d now m = m
  ingest_in BookState.desynced sym b t d now m = recover sym m
  ingest_in BookState.synced sym b t d now m = ingest_synced sym b t d now m

  -- `_ingest_ws_payload`, with what `setdefault` finds
  abbrev pub ingest_ws_payload :
      {R : Type 0} → Option BookState → String → Book R → MsgType → Delta → R → Mux R → Mux R
  ingest_ws_payload none sym b t d now m =
      ingest_in BookState.synced sym b t d now (set_state sym BookState.synced m)
  ingest_ws_payload (some st) sym b t d now m = ingest_in st sym b t d now m

  -- The end of the receive loop: a frame of a symbol without a processor is skipped.
  abbrev pub deliver : {R : Type 0} → Option (Book R) → String → MsgType → Delta → R → Mux R → Mux R
  deliver none sym t d now m = m
  deliver (some b) sym t d now m = ingest_ws_payload (lookup sym m.states) sym b t d now m

  unfoldable pub on_frame : {R : Type 0} → String → MsgType → Delta → R → Mux R → Mux R
  on_frame sym t d now m = deliver (lookup sym m.processors) sym t d now m

  -- The fetch returned: its snapshot is discarded if a connection was lost meanwhile.
  abbrev pub finish_fetch :
      {R : Type 0} → Option (Book R) → String → ℕ → Rows → Rows → R → Mux R → Mux R
  finish_fetch none sym u bids asks now m = rest m
  finish_fetch (some b) sym u bids asks now m =
      set_state sym BookState.synced
        (set_book sym (ingest_snapshot np recalc u bids asks now b) (rest m))

  abbrev pub reply_at : {R : Type 0} → Pump → ℕ → Rows → Rows → R → Mux R → Mux R
  reply_at (Pump.fetching sym entry_epoch) u bids asks now m =
      if not (m.connection_epoch == entry_epoch)
      then rest m
      else finish_fetch (lookup sym m.processors) sym u bids asks now m
  reply_at Pump.idle u bids asks now m = m
  reply_at (Pump.asleep sym) u bids asks now m = m

  unfoldable pub fetched : {R : Type 0} → ℕ → Rows → Rows → R → Mux R → Mux R
  fetched u bids asks now m = reply_at m.pump u bids asks now m
