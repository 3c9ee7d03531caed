-- ===== src/Outbox/Delivery.antt =====
-- src/application/outbox_relay.py: where an event stands during the runs of a relay, and how often
-- it was delivered.
use gektor.Base.{
  ℕ, ◌+◌, ◌≤◌, ◌<◌, ◌≡◌, refl, max, List, [], ◌∷◌, String, ◌==◌, if◌then◌else◌, take, arith,
  Bool-cases, inl, inr,
}
use gektor.Outbox.{
  Status, Event, Notified, Relay, Move, save, due, has_id, claimed_count, select_pending, claim,
  fetch_pending, mark_delivered, mark_failed_for_retry, handle, turn, sent_first, step, run, new,
}
use gektor.Outbox.Counts.{
  pending_of, entries_of, times_in, pending-le-entries, pending-append, entries-append, entries-due,
  entries-take, entries-map, has_id-entries, absent-entries, entries-claimed, pending-claimed,
  entries-deleted, pending-deleted, entries-retried, pending-retried,
}

-- Where the event with the id is: at most one row, which the relay holds only while it is not pending,
-- and no row that is pending or held if it was delivered more often than its deletion has failed.
pub record IsTracked (i : ℕ) (r : Relay) : Type 0 where
  pub single : entries_of i r.table.rows ≤ 1
  pub held : entries_of i r.messages + pending_of i r.table.rows ≤ entries_of i r.table.rows
  pub unsent :
      entries_of i r.messages + pending_of i r.table.rows + times_in i r.sent
      ≤ 1 + times_in i r.undeleted
  pub kept : i < r.table.next_id → 1 ≤ entries_of i r.table.rows + times_in i r.sent
  pub fresh : r.table.next_id ≤ i → entries_of i r.table.rows + times_in i r.sent ≡ 0

save-IsTracked :
    (i priority now : ℕ) (payload : String) (r : Relay)
    → IsTracked i r
    → IsTracked i (record r { table = save payload priority now r.table })
unfolding save entries_of pending_of
save-IsTracked i priority now payload r h =
    let event : Event = record {
      id = r.table.next_id;
      payload = payload;
      priority = priority;
      status = Status.pending;
      created_at = now;
      execute_after = now;
      retry_count = 0;
    } in
    let e = entries-append i r.table.rows (event ∷ []) in
    let p = pending-append i r.table.rows (event ∷ []) in
    let a : entries_of i (event ∷ []) ≡ (if r.table.next_id == i then 1 else 0) = omega arith in
    let b : pending_of i (event ∷ []) ≡ (if r.table.next_id == i then 1 else 0) = ground arith in
    elim (Bool-cases (r.table.next_id == i)) [
      | inl y ↦ let c = rw y at a in let d = rw y at b in ground arith
      | inr y ↦ let c = rw y at a in let d = rw y at b in ground arith
    ]

-- A sorted list has the same entries.
abbrev pub Sorts : (List Event → List Event) → Type 0
Sorts order_by = (i : ℕ) (es : List Event) → entries_of i (order_by es) ≡ entries_of i es

pub chosen-le-pending :
    (order_by : List Event → List Event) (i now limit : ℕ) (rows : List Event)
    → Sorts order_by
    → entries_of i (select_pending order_by now limit rows) ≤ pending_of i rows
unfolding select_pending
chosen-le-pending order_by i now limit rows s = omega (
  arith,
  entries-take i limit (order_by (due now rows)),
  s i (due now rows),
  entries-due i now rows,
)

claim-IsTracked :
    (i : ℕ) (chosen : List Event) (r : Relay)
    → entries_of i chosen ≤ pending_of i r.table.rows
    → entries_of i r.messages ≡ 0
    → IsTracked i r
    → let (t, messages) = claim chosen r.table in
      IsTracked i (record r { table = t; messages = messages })
unfolding claim
claim-IsTracked i chosen r c z h =
    let rows = r.table.rows in
    let n = claimed_count chosen rows in
    let e = entries-claimed i chosen rows in
    let p = pending-claimed i chosen rows in
    let g = entries-map i (take n chosen) in
    let k = entries-take i n chosen in
    let w = has_id-entries i chosen in
    let q = pending-le-entries i rows in
    elim (Bool-cases (has_id i chosen)) [
      | inl y ↦ let a = rw y at p in let b = rw y at w in ground arith
      | inr y ↦ let a = rw y at p in let b = absent-entries i chosen y in ground arith
    ]

pub messages-cons :
    (i : ℕ) (r : Relay) (msg : Event) (rest : List Event)
    → r.messages ≡ msg ∷ rest
    → entries_of i r.messages ≡ (if msg.id == i then 1 else 0) + entries_of i rest
unfolding entries_of
messages-cons i r msg rest e = rw e refl

retried-IsTracked :
    (i delay now : ℕ) (msg : Event) (rest : List Event) (r : Relay)
    → entries_of i r.messages ≡ (if msg.id == i then 1 else 0) + entries_of i rest
    → IsTracked i r
    → IsTracked i
        (record r { table = mark_failed_for_retry msg.id delay now r.table; messages = rest })
unfolding mark_failed_for_retry
retried-IsTracked i delay now msg rest r m h =
    let e = entries-retried i msg.id (now + delay) r.table.rows in
    let p = pending-retried i msg.id (now + delay) r.table.rows in
    elim (Bool-cases (msg.id == i)) [
      | inl y ↦ let a = rw y at m in let b = rw y at p in ground arith
      | inr y ↦ let a = rw y at m in let b = rw y at p in ground arith
    ]

sent-IsTracked :
    (i : ℕ) (msg : Event) (rest : List Event) (r : Relay)
    → entries_of i r.messages ≡ (if msg.id == i then 1 else 0) + entries_of i rest
    → IsTracked i r
    → IsTracked i (record r {
      table = mark_delivered msg.id r.table;
      messages = rest;
      sent = msg.id ∷ r.sent;
    })
unfolding mark_delivered times_in
sent-IsTracked i msg rest r m h =
    let e = entries-deleted i msg.id r.table.rows in
    let p = pending-deleted i msg.id r.table.rows in
    elim (Bool-cases (msg.id == i)) [
      | inl y ↦
          let a = rw y at m in
          let b = rw y at p in
          let c = rw y at e in
          let t : times_in i (msg.id ∷ r.sent) ≡ 1 + times_in i r.sent = rw y refl in ground arith
      | inr y ↦
          let a = rw y at m in
          let b = rw y at p in
          let c = rw y at e in
          let t : times_in i (msg.id ∷ r.sent) ≡ times_in i r.sent = rw y (omega arith) in
          ground arith
    ]

undeleted-IsTracked :
    (i now : ℕ) (msg : Event) (rest : List Event) (r : Relay)
    → entries_of i r.messages ≡ (if msg.id == i then 1 else 0) + entries_of i rest
    → IsTracked i r
    → IsTracked i (handle Notified.undeleted now msg rest r)
unfolding handle mark_failed_for_retry times_in
undeleted-IsTracked i now msg rest r m h =
    let e = entries-retried i msg.id (now + 30) r.table.rows in
    let p = pending-retried i msg.id (now + 30) r.table.rows in
    elim (Bool-cases (msg.id == i)) [
      | inl y ↦
          let a = rw y at m in
          let b = rw y at p in
          let t : times_in i (msg.id ∷ r.sent) ≡ 1 + times_in i r.sent = rw y refl in
          let u : times_in i (msg.id ∷ r.undeleted) ≡ 1 + times_in i r.undeleted = rw y refl in
          ground arith
      | inr y ↦
          let a = rw y at m in
          let b = rw y at p in
          let t : times_in i (msg.id ∷ r.sent) ≡ times_in i r.sent = rw y (omega arith) in
          let u : times_in i (msg.id ∷ r.undeleted) ≡ times_in i r.undeleted = rw y (omega arith) in
          ground arith
    ]

handle-IsTracked :
    (outcome : Notified) (i now : ℕ) (msg : Event) (rest : List Event) (r : Relay)
    → entries_of i r.messages ≡ (if msg.id == i then 1 else 0) + entries_of i rest
    → IsTracked i r
    → IsTracked i (handle outcome now msg rest r)
unfolding handle
handle-IsTracked Notified.delivered i now msg rest r m h = sent-IsTracked i msg rest r m h
handle-IsTracked Notified.undeleted i now msg rest r m h = undeleted-IsTracked i now msg rest r m h
handle-IsTracked (Notified.deferred seconds) i now msg rest r m h =
    retried-IsTracked i (max 1 seconds) now msg rest r m h
handle-IsTracked Notified.raised i now msg rest r m h = retried-IsTracked i 30 now msg rest r m h

turn-IsTracked :
    (order_by : List Event → List Event) (outcome : Notified) (i now : ℕ) (ms : List Event)
    (r : Relay)
    → Sorts order_by
    → r.messages ≡ ms
    → IsTracked i r
    → IsTracked i (turn order_by outcome now ms r)
unfolding turn fetch_pending entries_of
turn-IsTracked order_by outcome i now [] r s e h =
    claim-IsTracked i (select_pending order_by now 5 r.table.rows) r
      (chosen-le-pending order_by i now 5 r.table.rows s) (rw e refl) h
turn-IsTracked order_by outcome i now (msg ∷ rest) r s e h =
    handle-IsTracked outcome i now msg rest r (messages-cons i r msg rest e) h

lost-IsTracked :
    (i : ℕ) (ms : List Event) (r : Relay)
    → r.messages ≡ ms
    → IsTracked i r
    → IsTracked i (record r { messages = []; sent = sent_first ms r.sent })
unfolding times_in entries_of
lost-IsTracked i [] r e h = ground arith
lost-IsTracked i (msg ∷ rest) r e h = let m = messages-cons i r msg rest e in ground arith

step-IsTracked :
    (order_by : List Event → List Event) (m : Move) (i : ℕ) (r : Relay)
    → Sorts order_by
    → IsTracked i r
    → IsTracked i (step order_by m r)
unfolding step entries_of
step-IsTracked order_by (Move.saves payload priority now) i r s h =
    save-IsTracked i priority now payload r h
step-IsTracked order_by (Move.turns outcome now) i r s h =
    turn-IsTracked order_by outcome i now r.messages r s refl h
step-IsTracked order_by Move.crashes i r s h = ground arith
step-IsTracked order_by Move.crashes_after_delivery i r s h = lost-IsTracked i r.messages r refl h

pub run-IsTracked :
    (order_by : List Event → List Event) (ms : List Move) (i : ℕ) (r : Relay)
    → Sorts order_by
    → IsTracked i r
    → IsTracked i (run order_by ms r)
unfolding run
run-IsTracked order_by [] i r s h = h
run-IsTracked order_by (m ∷ ms) i r s h =
    run-IsTracked order_by ms i (step order_by m r) s (step-IsTracked order_by m i r s h)

pub new-IsTracked : (i : ℕ) → IsTracked i new
unfolding new entries_of pending_of times_in
new-IsTracked i = ground arith

-- Over every run of a relay from an empty table, crashes included: an event that was saved has its row
-- until it was delivered; the times that it was delivered, with one more while it is pending or held, are
-- at most one more than the times that the deletion of its delivered row raised. An event whose deletion
-- never raises is delivered at most once.
pub run_accounts :
    (order_by : List Event → List Event) (ms : List Move) (i : ℕ)
    → Sorts order_by
    → let r = run order_by ms new in
      (i < r.table.next_id → 1 ≤ entries_of i r.table.rows + times_in i r.sent)
      × (entries_of i r.messages + pending_of i r.table.rows + times_in i r.sent
          ≤ 1 + times_in i r.undeleted)
run_accounts order_by ms i s =
    let h = run-IsTracked order_by ms i new s (new-IsTracked i) in (h.kept, h.unsent)
