-- ===== src/Outbox/Examples.antt =====
-- A relay with two saved alerts, and the instances of its theorems.
use gektor.Base.{ℕ, ◌+◌, ◌≤◌, ◌<◌, ◌≡◌, refl, List, [], ◌∷◌, arith}
use gektor.Outbox.{
  Status, Event, Table, Notified, Relay, Move, save, due, to_processing, claimed_count,
  select_pending, claim, fetch_pending, delete_row, mark_delivered, retry_row,
  mark_failed_for_retry, handle, turn, step, run, new,
}
use gektor.Outbox.Counts.{pending_of, entries_of, times_in}
use gektor.Outbox.Delivery.{run_accounts}
use gektor.Outbox.Stranded.{IsStranded, crash_strands, raced_claim}

-- The order of the table, which is that of creation.
abbrev by_age : List Event → List Event
by_age es = es

abbrev two_saved : List Move
two_saved = Move.saves "first" 1 100 ∷ Move.saves "second" 1 101 ∷ []

abbrev delivery : List Move
delivery =
    Move.saves "first" 1 100
    ∷ Move.saves "second" 1 101
    ∷ Move.turns Notified.delivered 102
    ∷ Move.turns Notified.delivered 103
    ∷ Move.turns (Notified.deferred 0) 104
    ∷ []

-- The first event is delivered, and the second one waits for a second.
delivered_and_deferred :
    let r = run by_age delivery new in
    (r.sent ≡ 0 ∷ [])
    × (r.table.rows
        ≡ record {
          id = 1;
          payload = "second";
          priority = 1;
          status = Status.pending;
          created_at = 101;
          execute_after = 105;
          retry_count = 1;
        }
          ∷ [])
unfolding run step save turn fetch_pending handle new claim select_pending due to_processing
    claimed_count mark_delivered delete_row mark_failed_for_retry retry_row
delivered_and_deferred = (refl, refl)

abbrev redelivery : List Move
redelivery =
    Move.saves "first" 1 100
    ∷ Move.turns Notified.delivered 102
    ∷ Move.turns Notified.undeleted 103
    ∷ Move.turns Notified.delivered 133
    ∷ Move.turns Notified.delivered 134
    ∷ []

-- The deletion raises, and the event is delivered a second time.
delivered_twice :
    let r = run by_age redelivery new in
    (r.sent ≡ 0 ∷ 0 ∷ []) × (r.undeleted ≡ 0 ∷ []) × (r.table.rows ≡ [])
unfolding run step save turn fetch_pending handle new claim select_pending due to_processing
    claimed_count mark_delivered delete_row mark_failed_for_retry retry_row
delivered_twice = (refl, refl, refl)

run_accounts_example :
    let r = run by_age redelivery new in
    (0 < r.table.next_id → 1 ≤ entries_of 0 r.table.rows + times_in 0 r.sent)
    × (entries_of 0 r.messages + pending_of 0 r.table.rows + times_in 0 r.sent
        ≤ 1 + times_in 0 r.undeleted)
run_accounts_example = run_accounts by_age redelivery 0 (λ i es. refl)

abbrev two_fetched : List Move
two_fetched =
    Move.saves "first" 1 100 ∷ Move.saves "second" 1 101 ∷ Move.turns Notified.delivered 102 ∷ []

second_held : 1 ≤ entries_of 1 (run by_age two_fetched new).messages
unfolding run step save turn fetch_pending new claim select_pending due to_processing claimed_count
    entries_of
second_held = omega arith

-- The relay starts again and finds nothing, also much later.
abbrev restarted : List Move
restarted = Move.turns Notified.delivered 9000 ∷ []

crash_strands_example :
    let r = run by_age two_fetched new in
    IsStranded 1 (times_in 1 r.sent) (run by_age restarted (step by_age Move.crashes r))
crash_strands_example = crash_strands by_age two_fetched restarted 1 (λ i es. refl) second_held

abbrev event : ℕ → Status → Event
event i status = record {
  id = i;
  payload = "alert";
  priority = 1;
  status = status;
  created_at = 100;
  execute_after = 100;
  retry_count = 0;
}

abbrev holding : Relay
holding = record {
  table = record { rows = event 4 Status.processing ∷ []; next_id = 5 };
  messages = event 4 Status.processing ∷ [];
  sent = [];
  undeleted = [];
}

-- Both were selected; another relay has claimed the first one.
abbrev raced : Table
raced = record { rows = event 1 Status.processing ∷ event 2 Status.pending ∷ []; next_id = 3 }

raced_counts : (pending_of 1 raced.rows ≡ 0) × (pending_of 2 raced.rows ≡ 1)
unfolding pending_of
raced_counts = (refl, refl)

raced_claim_example :
    let (after, messages) = claim (event 1 Status.pending ∷ event 2 Status.pending ∷ []) raced in
    (messages ≡ event 1 Status.processing ∷ [])
    × (pending_of 2 after.rows ≡ 0)
    × (entries_of 2 after.rows ≡ entries_of 2 raced.rows)
raced_claim_example =
    raced_claim (event 1 Status.pending) (event 2 Status.pending) raced (λ e. omega arith)
      raced_counts.0 raced_counts.1
