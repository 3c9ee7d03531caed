-- ===== src/Mux/Examples.antt =====
-- A concrete multiplexer of two books on two shards, on which the theorems are applied.
use gektor.Base.{ℕ, ◌≡◌, refl, true, false, none, List, [], ◌∷◌, milli, pos, arith}
use gektor.Base.Dicts.{lookup}
use gektor.Book.Side.{Side}
use gektor.Book.Side.Sorting.{plain}
use gektor.Book.Sizing.{Factors}
use gektor.Book.Ring.{Frame, Delta}
use gektor.Book.State.{Book, BookState}
use gektor.Mux.{Mux, MsgType, Pump, member, book_state, lose_shard}
use gektor.Mux.Queue.{Event, IsMux, count, run, run-IsMux}
use gektor.Mux.Stuck.{lost_resync}

abbrev honest : Factors
honest = record { ask_ctr_fp = λ i. 0; ask_lambda_fp = λ i. 0; survival_lut = λ i. 1024 }

abbrev blank : Frame
blank = record { u_id = 0; range_start = pos 0; seq = 0; bids = []; asks = [] }

abbrev book : Book ℕ
book = record {
  max_levels = 3;
  max_age_sec = 5000;
  u = 0;
  last_seq = 0;
  last_reject = none;
  consistency_ok = false;
  read_epoch = 0;
  last_update_mono = 0;
  bids = [];
  asks = [];
  delta_buffer = record { epoch = 0; head = 0; tail = 0; frames = λ i. blank };
  factors = honest;
}

abbrev recalc : Side → Side → Factors → Factors
recalc b a f = honest

-- ETHUSDT waits for its resync in the queue.
abbrev waiting : Mux ℕ
waiting = record {
  processors = ("BTCUSDT", book) ∷ ("ETHUSDT", book) ∷ [];
  states = ("BTCUSDT", BookState.synced) ∷ ("ETHUSDT", BookState.recovering) ∷ [];
  has_source = true;
  queue = ("ETHUSDT", 0) ∷ [];
  pending = "ETHUSDT" ∷ [];
  connection_epoch = 0;
  pump = Pump.idle;
}

abbrev delta : Delta
delta = record { u_id = 5; range_start = none; seq = none; bids = []; asks = [] }

-- Frames of both books, and the pump at work.
abbrev later : List (Event ℕ)
later =
    Event.frame "ETHUSDT" MsgType.delta delta 1000
    ∷ Event.frame "BTCUSDT" MsgType.delta delta 1001
    ∷ Event.taken
    ∷ Event.reply 4 [] [] 1002
    ∷ Event.frame "ETHUSDT" MsgType.snapshot delta 1003
    ∷ Event.taken
    ∷ []

-- The loss of the shard of BTCUSDT leaves ETHUSDT in recovery.
lost_resync_example :
    book_state "ETHUSDT" (run plain recalc later (lose_shard ("BTCUSDT" ∷ []) waiting))
    ≡ BookState.recovering
unfolding lookup member
lost_resync_example =
    lost_resync plain recalc "ETHUSDT" ("BTCUSDT" ∷ []) later waiting refl refl refl refl

waiting-IsMux : IsMux waiting
unfolding count member
waiting-IsMux = record { counted = λ s. ground arith; current = (refl, tt) }

run-IsMux_example : IsMux (run plain recalc later waiting)
run-IsMux_example = run-IsMux plain recalc later waiting waiting-IsMux

abbrev asking : Mux ℕ
asking = record waiting { queue = []; pending = []; pump = Pump.fetching "ETHUSDT" 0 }
