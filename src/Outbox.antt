-- ===== src/Outbox.antt =====
-- src/application/outbox_relay.py: `OutboxRepository` and the loop of `TelegramRelayWorker`; the INSERT
-- of src/application/outbox_alert_sink.py. Times are seconds. The order that ORDER BY gives to equal
-- rows is not known, so the sorting is an argument; so is what the notifier answers, and whether the
-- deletion of a delivered row fails. Decoding of payloads is left out; an error of the database that
-- leaves `run` is a crash.
pub mod Counts
pub mod Delivery
pub mod Stranded
mod Examples
use gektor.Base.{
  ℕ, zero, suc, ◌+◌, max, Bool, true, false, ◌&&◌, ◌||◌, List, [], ◌∷◌, ◌++◌, String, map, leb,
  ◌==◌, if◌then◌else◌, length, take,
}

pub data Status : Type 0 where
  pending : Status
  processing : Status

-- A row of `outbox_events`, and the `OutboxMessage` that is made of it.
pub record Event : Type 0 where
  pub id : ℕ
  pub payload : String
  pub priority : ℕ
  pub status : Status
  pub created_at : ℕ
  pub execute_after : ℕ
  pub retry_count : ℕ

-- The table, oldest row first, and the id of the next row.
pub record Table : Type 0 where
  pub rows : List Event
  pub next_id : ℕ

-- An INSERT of a pending row: `save_alert_atomically` with the default priority 2, the alert sink with 1.
unfoldable pub save : String → ℕ → ℕ → Table → Table
save payload priority now t =
    let event : Event = record {
      id = t.next_id;
      payload = payload;
      priority = priority;
      status = Status.pending;
      created_at = now;
      execute_after = now;
      retry_count = 0;
    } in
    record { rows = t.rows ++ (event ∷ []); next_id = t.next_id + 1 }

abbrev pub is_pending : Status → Bool
is_pending Status.pending = true
is_pending Status.processing = false

unfoldable pub due : ℕ → List Event → List Event
due now [] = []
due now (e ∷ rest) =
    let later = due now rest in
    if is_pending e.status && leb e.execute_after now then e ∷ later else later

-- The SELECT of `fetch_pending`.
unfoldable pub select_pending : (List Event → List Event) → ℕ → ℕ → List Event → List Event
unfolding due
select_pending order_by now limit rows = take limit (order_by (due now rows))

abbrev pub has_id : ℕ → List Event → Bool
has_id i [] = false
has_id i (e ∷ rest) = e.id == i || has_id i rest

-- The UPDATE of `fetch_pending`, and its `rowcount`.
unfoldable pub to_processing : List Event → List Event → List Event
to_processing chosen [] = []
to_processing chosen (e ∷ rest) =
    (if has_id e.id chosen && is_pending e.status
      then record e { status = Status.processing }
      else e)
    ∷ to_processing chosen rest

unfoldable pub claimed_count : List Event → List Event → ℕ
claimed_count chosen [] = 0
claimed_count chosen (e ∷ rest) =
    (if has_id e.id chosen && is_pending e.status then 1 else 0) + claimed_count chosen rest

-- What `fetch_pending` does with the rows it selected: the table, and the messages it returns.
unfoldable pub claim : List Event → Table → Table × List Event
unfolding to_processing claimed_count
claim chosen t = (
  record t { rows = to_processing chosen t.rows },
  map (λ (e : Event). record e { status = Status.processing })
      (take (claimed_count chosen t.rows) chosen),
)

unfoldable pub fetch_pending : (List Event → List Event) → ℕ → ℕ → Table → Table × List Event
unfolding claim select_pending
fetch_pending order_by now batch_size t = claim (select_pending order_by now batch_size t.rows) t

unfoldable pub delete_row : ℕ → List Event → List Event
delete_row i [] = []
delete_row i (e ∷ rest) = let later = delete_row i rest in if e.id == i then later else e ∷ later

unfoldable pub mark_delivered : ℕ → Table → Table
unfolding delete_row
mark_delivered message_id t = record t { rows = delete_row message_id t.rows }

unfoldable pub retry_row : ℕ → ℕ → List Event → List Event
retry_row i new_time [] = []
retry_row i new_time (e ∷ rest) =
    (if e.id == i
      then record e {
        status = Status.pending;
        retry_count = e.retry_count + 1;
        execute_after = new_time;
      }
      else e)
    ∷ retry_row i new_time rest

unfoldable pub mark_failed_for_retry : ℕ → ℕ → ℕ → Table → Table
unfolding retry_row
mark_failed_for_retry message_id delay_sec now t = record t {
  rows = retry_row message_id (now + delay_sec) t.rows;
}

-- What comes of the `try` block: `notify` returns true and the row is deleted, or the deletion raises and
-- the row stays; it returns false, with `last_retry_after_sec`; or an exception before that.
pub data Notified : Type 0 where
  delivered : Notified
  undeleted : Notified
  deferred : ℕ → Notified
  raised : Notified

-- The table, the messages that the relay has fetched and not handled yet, and the ids of those that
-- `notify` has delivered and, of those, of the ones whose deletion raised, the last one first.
pub record Relay : Type 0 where
  pub table : Table
  pub messages : List Event
  pub sent : List ℕ
  pub undeleted : List ℕ

unfoldable pub new : Relay
new = record { table = record { rows = []; next_id = 0 }; messages = []; sent = []; undeleted = [] }

-- The body of the `for` loop, for one message.
unfoldable pub handle : Notified → ℕ → Event → List Event → Relay → Relay
unfolding mark_delivered mark_failed_for_retry
handle delivered now msg rest r = record r {
  table = mark_delivered msg.id r.table;
  messages = rest;
  sent = msg.id ∷ r.sent;
}
handle undeleted now msg rest r = record {
  table = mark_failed_for_retry msg.id 30 now r.table;
  messages = rest;
  sent = msg.id ∷ r.sent;
  undeleted = msg.id ∷ r.undeleted;
}
handle (deferred seconds) now msg rest r = record r {
  table = mark_failed_for_retry msg.id (max 1 seconds) now r.table;
  messages = rest;
}
handle raised now msg rest r = record r {
  table = mark_failed_for_retry msg.id 30 now r.table;
  messages = rest;
}

-- One turn of `run`: it fetches if it has no message, and else handles the next one.
unfoldable pub turn : (List Event → List Event) → Notified → ℕ → List Event → Relay → Relay
unfolding fetch_pending handle
turn order_by outcome now [] r =
    let (t, messages) = fetch_pending order_by now 5 r.table in
    record r { table = t; messages = messages }
turn order_by outcome now (msg ∷ rest) r = handle outcome now msg rest r

-- Crashes: of the relay, and between the delivery of a message and the deletion of its row.
abbrev pub sent_first : List Event → List ℕ → List ℕ
sent_first [] sent = sent
sent_first (msg ∷ rest) sent = msg.id ∷ sent

pub data Move : Type 0 where
  saves : String → ℕ → ℕ → Move
  turns : Notified → ℕ → Move
  crashes : Move
  crashes_after_delivery : Move

unfoldable pub step : (List Event → List Event) → Move → Relay → Relay
unfolding save turn
step order_by (saves payload priority now) r = record r {
  table = save payload priority now r.table;
}
step order_by (turns outcome now) r = turn order_by outcome now r.messages r
step order_by crashes r = record r { messages = [] }
step order_by crashes_after_delivery r = record r {
  messages = [];
  sent = sent_first r.messages r.sent;
}

unfoldable pub run : (List Event → List Event) → List Move → Relay → Relay
unfolding step
run order_by [] r = r
run order_by (m ∷ ms) r = run order_by ms (step order_by m r)
