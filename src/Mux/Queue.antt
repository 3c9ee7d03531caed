-- ===== src/Mux/Queue.antt =====
-- src/infrastructure/gektor_l2/ws_multiplexer.py: the steps of the multiplexer in any order, and the
-- resync queue.
use gektor.Base.{
  ℕ, ◌+◌, ◌≡◌, refl, false, Option, none, some, List, [], ◌∷◌, ◌++◌, if◌then◌else◌, String, str_eq,
  eq_iff, arith, All, All-append, Bool-cases, inl, inr,
}
use gektor.Base.Dicts.{lookup}
use gektor.Book.Side.{Side, Numpy}
use gektor.Book.Sizing.{Factors}
use gektor.Book.Ring.{Rows, Delta}
use gektor.Book.State.{Book, BookState, ingest_delta}
use gektor.Mux.{
  Mux, MsgType, Pump, member, discard, request_resync, lose_shard, take_entry, pop_entry,
  begin_fetch, rate_limited, fetch_failed, wake, on_frame, fetched, ingest_in, ingest_synced,
  set_state, set_book, deliver, reply_at, limit_at, fail_at, wake_at, rest,
}

pub data Event (R : Type 0) : Type 0 where
  frame : String → MsgType → Delta → R → Event R
  taken : Event R
  reply : ℕ → Rows → Rows → R → Event R
  limited : Event R
  failed : Event R
  woken : Event R
  lost : List String → Event R

module _ {R : Type 0} (np : Numpy) (recalc : Side → Side → Factors → Factors) where
  abbrev pub step : Event R → Mux R → Mux R
  step (Event.frame sym t d now) m = on_frame np recalc sym t d now m
  step Event.taken m = take_entry m
  step (Event.reply u bids asks now) m = fetched np recalc u bids asks now m
  step Event.limited m = rate_limited m
  step Event.failed m = fetch_failed m
  step Event.woken m = wake m
  step (Event.lost shard) m = lose_shard shard m

  unfoldable pub run : List (Event R) → Mux R → Mux R
  run [] m = m
  run (e ∷ es) m = run es (step e m)

-- How often a symbol is queued.
unfoldable pub count : String → List (String × ℕ) → ℕ
count s [] = 0
count s ((t, e) ∷ q) = let n = count s q in if str_eq t s then n + 1 else n

-- A symbol is queued once if it is pending and not at all otherwise; every entry is of the present
-- connection.
pub record IsQueue (queue : List (String × ℕ)) (pending : List String) (epoch : ℕ) : Type 0 where
  pub counted : (s : String) → count s queue ≡ (if member s pending then 1 else 0)
  pub current : All (λ e. e.1 ≡ epoch) queue

abbrev pub IsMux : {R : Type 0} → Mux R → Type 0
IsMux m = IsQueue m.queue m.pending m.connection_epoch

pub count-append :
    (s : String) (q q' : List (String × ℕ)) → count s (q ++ q') ≡ count s q + count s q'
unfolding count
count-append s [] q' = omega arith
count-append s ((t, e) ∷ q) q' = ground (arith, count-append s q q')

pub member-discard :
    (s t : String) (p : List String)
    → member s (discard t p) ≡ (if str_eq t s then false else member s p)
unfolding member discard
member-discard s t [] = ground arith
member-discard s t (u ∷ p) =
    ground (arith, member-discard s t p, eq_iff u t, eq_iff u s, eq_iff t s)

push-IsQueue :
    (s : String) (q : List (String × ℕ)) (p : List String) (n : ℕ)
    → IsQueue q p n
    → member s p ≡ false
    → IsQueue (q ++ ((s, n) ∷ [])) (s ∷ p) n
unfolding count member
push-IsQueue s q p n h e = record {
  counted = λ t. rw (count-append t q ((s, n) ∷ []), h.counted t) (ground (arith, eq_iff s t));
  current = All-append (λ e. e.1 ≡ n) q ((s, n) ∷ []) h.current (refl, tt);
}

pop-IsQueue :
    (s : String) (e : ℕ) (q : List (String × ℕ)) (p : List String) (n : ℕ)
    → IsQueue ((s, e) ∷ q) p n
    → IsQueue q (discard s p) n
unfolding count
pop-IsQueue s e q p n h = record {
  counted = λ t. rw (member-discard t s p) (ground (arith, h.counted t, eq_iff s t));
  current = h.current.1;
}

request_resync-IsMux : {R : Type 0} (s : String) (m : Mux R) → IsMux m → IsMux (request_resync s m)
unfolding request_resync
request_resync-IsMux s m h = elim (Bool-cases m.has_source) [
  | inl source ↦ elim (Bool-cases (member s m.pending)) [
    | inl p ↦ rw (source, p) h
    | inr p ↦ rw (source, p) (push-IsQueue s m.queue m.pending m.connection_epoch h p)
  ]
  | inr bare ↦ rw bare h
]

begin_fetch-IsMux :
    {R : Type 0} (s : String) (e : ℕ) (m : Mux R) → IsMux m → IsMux (begin_fetch s e m)
begin_fetch-IsMux s e m h = ground (arith, h)

pop_entry-IsMux :
    {R : Type 0} (p : Pump) (q : List (String × ℕ)) (m : Mux R)
    → m.queue ≡ q
    → IsMux m
    → IsMux (pop_entry p q m)
pop_entry-IsMux Pump.idle [] m e h = h
pop_entry-IsMux Pump.idle ((s, n) ∷ q) m e h =
    begin_fetch-IsMux s n _ (pop-IsQueue s n q m.pending m.connection_epoch (rw e at h))
pop_entry-IsMux (Pump.fetching s n) q m e h = h
pop_entry-IsMux (Pump.asleep s) q m e h = h

module _ {R : Type 0} (np : Numpy) (recalc : Side → Side → Factors → Factors) where
  ingest_synced-IsMux :
      (s : String) (b : Book R) (t : MsgType) (d : Delta) (now : R) (m : Mux R)
      → IsMux m
      → IsMux (ingest_synced np recalc s b t d now m)
  ingest_synced-IsMux s b MsgType.snapshot d now m h = h
  ingest_synced-IsMux s b MsgType.delta d now m h =
      let c = (ingest_delta np d now b).0 in
      ground
        (arith, h, request_resync-IsMux s (set_state s BookState.recovering (set_book s c m)) h)
  ingest_synced-IsMux s b MsgType.other d now m h = h

  ingest_in-IsMux :
      (st : BookState) (s : String) (b : Book R) (t : MsgType) (d : Delta) (now : R) (m : Mux R)
      → IsMux m
      → IsMux (ingest_in np recalc st s b t d now m)
  ingest_in-IsMux BookState.synced s b t d now m h = ingest_synced-IsMux s b t d now m h
  ingest_in-IsMux BookState.desynced s b t d now m h =
      request_resync-IsMux s (set_state s BookState.recovering m) h
  ingest_in-IsMux BookState.recovering s b MsgType.snapshot d now m h = h
  ingest_in-IsMux BookState.recovering s b MsgType.delta d now m h = h
  ingest_in-IsMux BookState.recovering s b MsgType.other d now m h = h

  deliver-IsMux :
      (b : Option (Book R)) (st : Option BookState) (s : String) (t : MsgType) (d : Delta) (now : R)
      (m : Mux R)
      → lookup s m.states ≡ st
      → IsMux m
      → IsMux (deliver np recalc b s t d now m)
  deliver-IsMux none st s t d now m e h = h
  deliver-IsMux (some b) none s t d now m e h =
      rw e (ingest_in-IsMux BookState.synced s b t d now (set_state s BookState.synced m) h)
  deliver-IsMux (some b) (some st) s t d now m e h = rw e (ingest_in-IsMux st s b t d now m h)

  reply_at-IsMux :
      (p : Pump) (u : ℕ) (bids asks : Rows) (now : R) (m : Mux R)
      → IsMux m
      → IsMux (reply_at np recalc p u bids asks now m)
  reply_at-IsMux Pump.idle u bids asks now m h = h
  reply_at-IsMux (Pump.asleep s) u bids asks now m h = h
  reply_at-IsMux (Pump.fetching s n) u bids asks now m h = ground (arith, h)

limit_at-IsMux : {R : Type 0} (p : Pump) (m : Mux R) → IsMux m → IsMux (limit_at p m)
limit_at-IsMux Pump.idle m h = h
limit_at-IsMux (Pump.asleep s) m h = h
limit_at-IsMux (Pump.fetching s n) m h =
    request_resync-IsMux s (set_state s BookState.recovering (rest m)) h

fail_at-IsMux : {R : Type 0} (p : Pump) (m : Mux R) → IsMux m → IsMux (fail_at p m)
fail_at-IsMux Pump.idle m h = h
fail_at-IsMux (Pump.asleep s) m h = h
fail_at-IsMux (Pump.fetching s n) m h = h

wake_at-IsMux : {R : Type 0} (p : Pump) (m : Mux R) → IsMux m → IsMux (wake_at p m)
wake_at-IsMux Pump.idle m h = h
wake_at-IsMux (Pump.fetching s n) m h = h
wake_at-IsMux (Pump.asleep s) m h = request_resync-IsMux s (rest m) h

module _ {R : Type 0} (np : Numpy) (recalc : Side → Side → Factors → Factors) where
  step-IsMux : (e : Event R) (m : Mux R) → IsMux m → IsMux (step np recalc e m)
  unfolding take_entry rate_limited fetch_failed wake lose_shard on_frame fetched member count
  step-IsMux (Event.frame s t d now) m h =
      deliver-IsMux np recalc (lookup s m.processors) (lookup s m.states) s t d now m refl h
  step-IsMux Event.taken m h = pop_entry-IsMux m.pump m.queue m refl h
  step-IsMux (Event.reply u bids asks now) m h = reply_at-IsMux np recalc m.pump u bids asks now m h
  step-IsMux Event.limited m h = limit_at-IsMux m.pump m h
  step-IsMux Event.failed m h = fail_at-IsMux m.pump m h
  step-IsMux Event.woken m h = wake_at-IsMux m.pump m h
  step-IsMux (Event.lost shard) m h = record { counted = λ s. refl; current = tt }

  -- In any order of frames, pump steps and lost connections the queue stays in order: a symbol is
  -- queued once if it is pending and not at all otherwise, and every entry is of the present
  -- connection.
  pub run-IsMux : (es : List (Event R)) (m : Mux R) → IsMux m → IsMux (run np recalc es m)
  unfolding run
  run-IsMux [] m h = h
  run-IsMux (e ∷ es) m h = run-IsMux es (step np recalc e m) (step-IsMux e m h)
