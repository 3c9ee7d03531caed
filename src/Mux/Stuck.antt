-- ===== src/Mux/Stuck.antt =====
-- src/infrastructure/gektor_l2/ws_multiplexer.py: a book whose resync was purged by the loss of
-- another shard's connection.
use gektor.Base.{
  ℕ, ◌≡◌, refl, Bool, true, false, Option, none, some, List, [], ◌∷◌, if◌then◌else◌, String, str_eq,
  eq_iff, arith, Bool-cases, inl, inr,
}
use gektor.Base.Dicts.{Dict, lookup, insert, lookup-insert}
use gektor.Book.Side.{Side, Numpy}
use gektor.Book.Sizing.{Factors}
use gektor.Book.Ring.{Rows, Delta}
use gektor.Book.State.{Book, BookState, ingest_delta}
use gektor.Mux.{
  Mux, MsgType, Pump, member, desync, request_resync, recover, lose_shard, take_entry, pop_entry,
  rate_limited, fetch_failed, wake, on_frame, fetched, ingest_in, set_state, set_book, deliver,
  reply_at, limit_at, fail_at, wake_at, rest, book_state, ingest_ws_payload,
}
use gektor.Mux.Queue.{Event, step, run, count, count-append}

-- The pump works for the symbol.
abbrev pub is_at : String → Pump → Bool
is_at s Pump.idle = false
is_at s (Pump.fetching t e) = str_eq t s
is_at s (Pump.asleep t) = str_eq t s

-- The symbol waits for a resync that nobody has queued or is about to.
pub record IsStuck (s : String) (states : Dict BookState) (queue : List (String × ℕ)) (pump : Pump)
    : Type 0 where
  pub recovering : lookup s states ≡ some BookState.recovering
  pub unqueued : count s queue ≡ 0
  pub elsewhere : is_at s pump ≡ false

abbrev pub Stuck : {R : Type 0} → String → Mux R → Type 0
Stuck s m = IsStuck s m.states m.queue m.pump

-- The event is the loss of the connection that the symbol belongs to.
abbrev pub hits : {R : Type 0} → String → Event R → Bool
hits s (Event.frame t k d now) = false
hits s Event.taken = false
hits s (Event.reply u bids asks now) = false
hits s Event.limited = false
hits s Event.failed = false
hits s Event.woken = false
hits s (Event.lost shard) = member s shard

abbrev pub hits_any : {R : Type 0} → String → List (Event R) → Bool
hits_any s [] = false
hits_any s (e ∷ es) = if hits s e then true else hits_any s es

set_state-Stuck :
    {R : Type 0} (s t : String) (st : BookState) (m : Mux R)
    → str_eq t s ≡ false
    → Stuck s m
    → Stuck s (set_state t st m)
set_state-Stuck s t st m ne h = record {
  recovering = rw (lookup-insert t s st m.states, ne) h.recovering;
  unqueued = h.unqueued;
  elsewhere = h.elsewhere;
}

request_resync-Stuck :
    {R : Type 0} (s t : String) (m : Mux R)
    → str_eq t s ≡ false
    → Stuck s m
    → Stuck s (request_resync t m)
unfolding request_resync count
request_resync-Stuck s t m ne h = ground (
  arith,
  h,
  ne,
  set_state-Stuck s t BookState.desynced m ne h,
  count-append s m.queue ((t, m.connection_epoch) ∷ []),
)

recover-Stuck :
    {R : Type 0} (s t : String) (m : Mux R) → str_eq t s ≡ false → Stuck s m → Stuck s (recover t m)
recover-Stuck s t m ne h =
    request_resync-Stuck s t _ ne (set_state-Stuck s t BookState.recovering m ne h)

pop_entry-Stuck :
    {R : Type 0} (s : String) (p : Pump) (q : List (String × ℕ)) (m : Mux R)
    → m.queue ≡ q
    → Stuck s m
    → Stuck s (pop_entry p q m)
unfolding count
pop_entry-Stuck s Pump.idle [] m e h = h
pop_entry-Stuck s Pump.idle ((t, n) ∷ q) m e h = ground (arith, h, (rw e at h.unqueued))
pop_entry-Stuck s (Pump.fetching t n) q m e h = h
pop_entry-Stuck s (Pump.asleep t) q m e h = h

lookup-desync :
    (s : String) (shard : List String) (st : Dict BookState)
    → member s shard ≡ false
    → lookup s (desync shard st) ≡ lookup s st
unfolding desync member
lookup-desync s [] st h = refl
lookup-desync s (t ∷ ts) st h = ground (
  arith,
  lookup-desync s ts st,
  lookup-desync s ts (insert t BookState.desynced st),
  lookup-insert t s BookState.desynced st,
)

limit_at-Stuck :
    {R : Type 0} (s : String) (p : Pump) (m : Mux R)
    → m.pump ≡ p
    → Stuck s m
    → Stuck s (limit_at p m)
limit_at-Stuck s Pump.idle m e h = h
limit_at-Stuck s (Pump.asleep t) m e h = h
limit_at-Stuck s (Pump.fetching t n) m e h =
    recover-Stuck s t (rest m) (rw e at h.elsewhere)
      (record { recovering = h.recovering; unqueued = h.unqueued; elsewhere = refl })

fail_at-Stuck :
    {R : Type 0} (s : String) (p : Pump) (m : Mux R)
    → m.pump ≡ p
    → Stuck s m
    → Stuck s (fail_at p m)
fail_at-Stuck s Pump.idle m e h = h
fail_at-Stuck s (Pump.asleep t) m e h = h
fail_at-Stuck s (Pump.fetching t n) m e h =
    let ne : str_eq t s ≡ false = rw e at h.elsewhere in
    record {
      recovering = (set_state-Stuck s t BookState.desynced m ne h).recovering;
      unqueued = h.unqueued;
      elsewhere = ne;
    }

wake_at-Stuck :
    {R : Type 0} (s : String) (p : Pump) (m : Mux R)
    → m.pump ≡ p
    → Stuck s m
    → Stuck s (wake_at p m)
wake_at-Stuck s Pump.idle m e h = h
wake_at-Stuck s (Pump.fetching t n) m e h = h
wake_at-Stuck s (Pump.asleep t) m e h =
    request_resync-Stuck s t (rest m) (rw e at h.elsewhere)
      (record { recovering = h.recovering; unqueued = h.unqueued; elsewhere = refl })

module _ {R : Type 0} (np : Numpy) (recalc : Side → Side → Factors → Factors) where
  reply_at-Stuck :
      (s : String) (p : Pump) (u : ℕ) (bids asks : Rows) (now : R) (m : Mux R)
      → m.pump ≡ p
      → Stuck s m
      → Stuck s (reply_at np recalc p u bids asks now m)
  reply_at-Stuck s Pump.idle u bids asks now m e h = h
  reply_at-Stuck s (Pump.asleep t) u bids asks now m e h = h
  reply_at-Stuck s (Pump.fetching t n) u bids asks now m e h =
      ground (arith, h, (rw e at h.elsewhere), lookup-insert t s BookState.synced m.states)

  ingest_in-Stuck :
      (st : BookState) (s t : String) (b : Book R) (k : MsgType) (d : Delta) (now : R) (m : Mux R)
      → str_eq t s ≡ false
      → Stuck s m
      → Stuck s (ingest_in np recalc st t b k d now m)
  ingest_in-Stuck BookState.synced s t b MsgType.snapshot d now m ne h = h
  ingest_in-Stuck BookState.synced s t b MsgType.other d now m ne h = h
  ingest_in-Stuck BookState.synced s t b MsgType.delta d now m ne h =
      ground (arith, h, recover-Stuck s t (set_book t (ingest_delta np d now b).0 m) ne h)
  ingest_in-Stuck BookState.desynced s t b k d now m ne h = recover-Stuck s t m ne h
  ingest_in-Stuck BookState.recovering s t b MsgType.snapshot d now m ne h = h
  ingest_in-Stuck BookState.recovering s t b MsgType.delta d now m ne h = h
  ingest_in-Stuck BookState.recovering s t b MsgType.other d now m ne h = h

  -- The symbol's own frames do not help: they are buffered or dropped.
  own_frame-Stuck :
      (s : String) (b : Book R) (k : MsgType) (d : Delta) (now : R) (m : Mux R)
      → Stuck s m
      → Stuck s (ingest_in np recalc BookState.recovering s b k d now m)
  own_frame-Stuck s b MsgType.snapshot d now m h = h
  own_frame-Stuck s b MsgType.delta d now m h = h
  own_frame-Stuck s b MsgType.other d now m h = h

  ingest_known-Stuck :
      (st : Option BookState) (s t : String) (b : Book R) (k : MsgType) (d : Delta) (now : R)
      (m : Mux R)
      → str_eq t s ≡ false
      → Stuck s m
      → Stuck s (ingest_ws_payload np recalc st t b k d now m)
  ingest_known-Stuck none s t b k d now m ne h =
      ingest_in-Stuck BookState.synced s t b k d now _ ne
        (set_state-Stuck s t BookState.synced m ne h)
  ingest_known-Stuck (some st) s t b k d now m ne h = ingest_in-Stuck st s t b k d now m ne h

  deliver-Stuck :
      (b : Option (Book R)) (st : Option BookState) (s t : String) (k : MsgType) (d : Delta)
      (now : R) (m : Mux R)
      → lookup t m.states ≡ st
      → Stuck s m
      → Stuck s (deliver np recalc b t k d now m)
  deliver-Stuck none st s t k d now m e h = h
  deliver-Stuck (some b) st s t k d now m e h = elim (Bool-cases (str_eq t s)) [
    | inl same ↦
        let q : t ≡ s = ground (arith, eq_iff t s) in
        rw (q, h.recovering) (own_frame-Stuck s b k d now m h)
    | inr ne ↦ rw e (ingest_known-Stuck st s t b k d now m ne h)
  ]

  step-Stuck :
      (s : String) (e : Event R) (m : Mux R)
      → hits s e ≡ false
      → Stuck s m
      → Stuck s (step np recalc e m)
  unfolding take_entry rate_limited fetch_failed wake lose_shard on_frame fetched count
  step-Stuck s (Event.frame t k d now) m n h =
      deliver-Stuck (lookup t m.processors) (lookup t m.states) s t k d now m refl h
  step-Stuck s Event.taken m n h = pop_entry-Stuck s m.pump m.queue m refl h
  step-Stuck s (Event.reply u bids asks now) m n h =
      reply_at-Stuck s m.pump u bids asks now m refl h
  step-Stuck s Event.limited m n h = limit_at-Stuck s m.pump m refl h
  step-Stuck s Event.failed m n h = fail_at-Stuck s m.pump m refl h
  step-Stuck s Event.woken m n h = wake_at-Stuck s m.pump m refl h
  step-Stuck s (Event.lost shard) m n h = record {
    recovering = rw (lookup-desync s shard m.states n) h.recovering;
    unqueued = refl;
    elsewhere = h.elsewhere;
  }

  run-Stuck :
      (s : String) (es : List (Event R)) (m : Mux R)
      → hits_any s es ≡ false
      → Stuck s m
      → Stuck s (run np recalc es m)
  unfolding run
  run-Stuck s [] m n h = h
  run-Stuck s (e ∷ es) m n h =
      run-Stuck s es (step np recalc e m) (ground arith) (step-Stuck s e m (ground arith) h)

  -- A symbol that waits for its resync when the connection of another shard is lost, the pump not
  -- working for it, stays in recovery whatever frames, replies and losses of other connections follow.
  pub lost_resync :
      (s : String) (shard : List String) (es : List (Event R)) (m : Mux R)
      → lookup s m.states ≡ some BookState.recovering
      → is_at s m.pump ≡ false
      → member s shard ≡ false
      → hits_any s es ≡ false
      → book_state s (run np recalc es (lose_shard shard m)) ≡ BookState.recovering
  unfolding book_state lose_shard count
  lost_resync s shard es m r p n q =
      let h = run-Stuck s es (lose_shard shard m) q (record {
        recovering = rw (lookup-desync s shard m.states n) r;
        unqueued = refl;
        elsewhere = p;
      }) in
      rw (h.recovering, book_state) refl
