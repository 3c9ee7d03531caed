-- ===== src/Outbox/Stranded.antt =====
-- src/application/outbox_relay.py: events that no later fetch sees.
use gektor.Base.{
  ℕ, ◌+◌, ◌≤◌, ◌<◌, ◌≡◌, ◌≢◌, refl, true, false, max, ◌∙◌, ltb, List, [], ◌∷◌, String, leb, ◌==◌,
  if◌then◌else◌, take, arith, Bool-cases, inl, inr,
}
use gektor.Outbox.{
  Status, Event, Table, Notified, Relay, Move, save, due, has_id, claimed_count, select_pending,
  claim, fetch_pending, mark_delivered, retry_row, mark_failed_for_retry, handle, turn, sent_first,
  step, run, new,
}
use gektor.Outbox.Counts.{
  pending_of, entries_of, times_in, pending-append, entries-append, entries-take, entries-map,
  entries-claimed, pending-claimed, entries-deleted, pending-deleted, entries-retried,
  pending-retried,
}
use gektor.Outbox.Delivery.{
  IsTracked, Sorts, chosen-le-pending, messages-cons, run-IsTracked, new-IsTracked,
}

-- The event has a row, which is being processed by nobody, was delivered so many times, and each time its
-- deletion raised.
pub record IsStranded (i count : ℕ) (r : Relay) : Type 0 where
  pub saved : i < r.table.next_id
  pub one_row : entries_of i r.table.rows ≡ 1
  pub not_pending : pending_of i r.table.rows ≡ 0
  pub not_held : entries_of i r.messages ≡ 0
  pub sent_count : times_in i r.sent ≡ count
  pub undeleted_each : count ≤ times_in i r.undeleted

save-IsStranded :
    (i count priority now : ℕ) (payload : String) (r : Relay)
    → IsStranded i count r
    → IsStranded i count (record r { table = save payload priority now r.table })
unfolding save entries_of pending_of
save-IsStranded i count priority now payload r h =
    let event : Event = record {
      id = r.table.next_id;
      payload = payload;
      priority = priority;
      status = Status.pending;
      created_at = now;
      execute_after = now;
      retry_count = 0;
    } in
    let e = entries-append i r.table.rows (event ∷ []) in
    let p = pending-append i r.table.rows (event ∷ []) in
    let s = h.saved in
    let n : (r.table.next_id == i) ≡ false = ground arith in
    let a : entries_of i (event ∷ []) ≡ 0 = rw n refl in
    let b : pending_of i (event ∷ []) ≡ 0 = rw n refl in ground arith

fetch-IsStranded :
    (i count : ℕ) (chosen : List Event) (r : Relay)
    → entries_of i chosen ≡ 0
    → IsStranded i count r
    → let (t, messages) = claim chosen r.table in
      IsStranded i count (record r { table = t; messages = messages })
unfolding claim
fetch-IsStranded i count chosen r z h =
    let n = claimed_count chosen r.table.rows in
    let e = entries-claimed i chosen r.table.rows in
    let p = pending-claimed i chosen r.table.rows in
    let g = entries-map i (take n chosen) in let k = entries-take i n chosen in ground arith

other_handled :
    (outcome : Notified) (i count now : ℕ) (msg : Event) (rest : List Event) (r : Relay)
    → (msg.id == i) ≡ false
    → entries_of i rest ≡ 0
    → IsStranded i count r
    → IsStranded i count (handle outcome now msg rest r)
unfolding handle mark_delivered mark_failed_for_retry times_in
other_handled Notified.delivered i count now msg rest r n z h =
    let e = entries-deleted i msg.id r.table.rows in
    let p = pending-deleted i msg.id r.table.rows in ground arith
other_handled Notified.undeleted i count now msg rest r n z h =
    let e = entries-retried i msg.id (now + 30) r.table.rows in
    let p = pending-retried i msg.id (now + 30) r.table.rows in ground arith
other_handled (Notified.deferred seconds) i count now msg rest r n z h =
    let e = entries-retried i msg.id (now + max 1 seconds) r.table.rows in
    let p = pending-retried i msg.id (now + max 1 seconds) r.table.rows in ground arith
other_handled Notified.raised i count now msg rest r n z h =
    let e = entries-retried i msg.id (now + 30) r.table.rows in
    let p = pending-retried i msg.id (now + 30) r.table.rows in ground arith

-- No message of the list has the id.
cons-absent :
    (i : ℕ) (msg : Event) (rest : List Event)
    → (if msg.id == i then 1 else 0) + entries_of i rest ≡ 0
    → ((msg.id == i) ≡ false) × (entries_of i rest ≡ 0)
cons-absent i msg rest h = ground arith

turn-IsStranded :
    (order_by : List Event → List Event) (outcome : Notified) (i count now : ℕ) (ms : List Event)
    (r : Relay)
    → Sorts order_by
    → r.messages ≡ ms
    → IsStranded i count r
    → IsStranded i count (turn order_by outcome now ms r)
unfolding turn fetch_pending
turn-IsStranded order_by outcome i count now [] r s e h =
    let c = chosen-le-pending order_by i now 5 r.table.rows s in
    let p = h.not_pending in
    fetch-IsStranded i count (select_pending order_by now 5 r.table.rows) r (omega arith) h
turn-IsStranded order_by outcome i count now (msg ∷ rest) r s e h =
    let m = messages-cons i r msg rest e in
    let g = h.not_held in
    let (n, z) = cons-absent i msg rest (omega arith) in
    other_handled outcome i count now msg rest r n z h

lost-IsStranded :
    (i count : ℕ) (ms : List Event) (r : Relay)
    → r.messages ≡ ms
    → IsStranded i count r
    → IsStranded i count (record r { messages = []; sent = sent_first ms r.sent })
unfolding times_in entries_of
lost-IsStranded i count [] r e h = ground arith
lost-IsStranded i count (msg ∷ rest) r e h =
    let m = messages-cons i r msg rest e in
    let g = h.not_held in let (n, z) = cons-absent i msg rest (omega arith) in ground arith

step-IsStranded :
    (order_by : List Event → List Event) (m : Move) (i count : ℕ) (r : Relay)
    → Sorts order_by
    → IsStranded i count r
    → IsStranded i count (step order_by m r)
unfolding step entries_of
step-IsStranded order_by (Move.saves payload priority now) i count r s h =
    save-IsStranded i count priority now payload r h
step-IsStranded order_by (Move.turns outcome now) i count r s h =
    turn-IsStranded order_by outcome i count now r.messages r s refl h
step-IsStranded order_by Move.crashes i count r s h = ground arith
step-IsStranded order_by Move.crashes_after_delivery i count r s h =
    lost-IsStranded i count r.messages r refl h

run-IsStranded :
    (order_by : List Event → List Event) (ms : List Move) (i count : ℕ) (r : Relay)
    → Sorts order_by
    → IsStranded i count r
    → IsStranded i count (run order_by ms r)
unfolding run
run-IsStranded order_by [] i count r s h = h
run-IsStranded order_by (m ∷ ms) i count r s h =
    run-IsStranded order_by ms i count (step order_by m r) s
      (step-IsStranded order_by m i count r s h)

crash-IsStranded :
    (order_by : List Event → List Event) (i : ℕ) (r : Relay)
    → 1 ≤ entries_of i r.messages
    → IsTracked i r
    → IsStranded i (times_in i r.sent) (step order_by Move.crashes r)
unfolding step entries_of
crash-IsStranded order_by i r g h =
    let u = h.unsent in
    let v = h.held in
    let w = h.single in
    let f = h.fresh in
    record {
      saved = elim (Bool-cases (ltb i r.table.next_id)) [
        | inl y ↦ ground arith
        | inr y ↦ absurd (let z = f (ground arith) in omega arith)
      ];
      one_row = omega arith;
      not_pending = omega arith;
      not_held = omega arith;
      sent_count = refl;
      undeleted_each = omega arith;
    }

-- Every event that a relay holds when it crashes keeps its row in the status `PROCESSING` for ever and
-- is never delivered again, whatever is saved, fetched and delivered afterwards; it was delivered before
-- at most as often as the deletion of its row raised.
pub crash_strands :
    (order_by : List Event → List Event) (before after : List Move) (i : ℕ)
    → Sorts order_by
    → 1 ≤ entries_of i (run order_by before new).messages
    → let r = run order_by before new in
      IsStranded i (times_in i r.sent) (run order_by after (step order_by Move.crashes r))
crash_strands order_by before after i s g =
    let r = run order_by before new in
    run-IsStranded order_by after i (times_in i r.sent) (step order_by Move.crashes r) s
      (crash-IsStranded order_by i r g (run-IsTracked order_by before i new s (new-IsTracked i)))

due-retried :
    (i time now : ℕ) (es : List Event)
    → entries_of i (due now (retry_row i time es)) ≡ (if leb time now then entries_of i es else 0)
unfolding retry_row due entries_of
due-retried i time now [] = ground arith
due-retried i time now (e ∷ es) = ground (arith, due-retried i time now es)

-- A message that the notifier defers is due again once `max(1, seconds)` have passed, and not before;
-- one whose delivery raises is due again after 30 seconds.
pub retries_later :
    (seconds now later : ℕ) (msg : Event) (rest : List Event) (r : Relay)
    → (entries_of msg.id (due later (handle (Notified.deferred seconds) now msg rest r).table.rows)
        ≡ (if leb (now + max 1 seconds) later then entries_of msg.id r.table.rows else 0))
      × (entries_of msg.id (due later (handle Notified.raised now msg rest r).table.rows)
          ≡ (if leb (now + 30) later then entries_of msg.id r.table.rows else 0))
unfolding handle mark_failed_for_retry
retries_later seconds now later msg rest r = (
  due-retried msg.id (now + max 1 seconds) later r.table.rows,
  due-retried msg.id (now + 30) later r.table.rows,
)

claimed-two :
    (x y : Event) (rows : List Event)
    → x.id ≢ y.id
    → claimed_count (x ∷ y ∷ []) rows ≡ pending_of x.id rows + pending_of y.id rows
unfolding claimed_count pending_of
claimed-two x y [] n = omega arith
claimed-two x y (e ∷ rows) n = ground (arith, claimed-two x y rows n)

-- Two events are selected, and before the UPDATE another relay claims the first one. Then
-- `fetch_pending` returns the first one, which the other relay holds, and not the second one, which
-- it has moved out of the pending ones.
pub raced_claim :
    (x y : Event) (t : Table)
    → x.id ≢ y.id
    → pending_of x.id t.rows ≡ 0
    → pending_of y.id t.rows ≡ 1
    → let (after, messages) = claim (x ∷ y ∷ []) t in
      (messages ≡ record x { status = Status.processing } ∷ [])
      × (pending_of y.id after.rows ≡ 0)
      × (entries_of y.id after.rows ≡ entries_of y.id t.rows)
unfolding claim
raced_claim x y t n p q =
    let c : claimed_count (x ∷ y ∷ []) t.rows ≡ 1 = claimed-two x y t.rows n ∙ rw (p, q) refl in
    let found : has_id y.id (x ∷ y ∷ []) ≡ true = ground arith in
    (
      rw c refl,
      pending-claimed y.id (x ∷ y ∷ []) t.rows ∙ rw found refl,
      entries-claimed y.id (x ∷ y ∷ []) t.rows,
    )
