-- ===== src/Book/Examples.antt =====
-- Concrete sides, buffers and books, on which the theorems are applied.
use gektor.Base.{
  ℕ, ◌+◌, ◌*◌, ◌≤◌, ◌<◌, ◌≡◌, length, refl, ◌⊎◌, inl, true, false, none, some, [], ◌∷◌, arith,
  milli, pos, negsuc,
}
use mathlib.Core.List.{Nodup, not-mem-nil}
use mathlib.Core.List.Pairwise
use gektor.Book.Side.{Side, apply_row}
use gektor.Book.Side.Update.{lookup, lookup-apply_row}
use gektor.Book.Side.Sorting.{plain, plain-IsNumpy}
use gektor.Book.Sizing.{Factors, scale, calculate_msq_unlocked, pay, walk, surviving}
use gektor.Book.Sizing.Budget.{msq_within_budget, resting}
use gektor.Book.Ring.{Ring, Frame, Delta, write_frame}
use gektor.Book.Ring.Queue.{IsRing, write_frame_lem}
use gektor.Book.State.{Book, Reject, ingest_delta, ingest_snapshot}
use gektor.Book.State.Updates.{ingest_delta_iff, IsBook}
use gektor.Book.State.Replay.{ingest_snapshot-replay}
use gektor.Book.State.Snapshots.{ingest_snapshot-outcome}

abbrev asks : Side
asks = (pos 100, 5) ∷ (pos 102, 3) ∷ []

abbrev bids : Side
bids = (negsuc 98, 4) ∷ (negsuc 96, 2) ∷ []

lookup-apply_row_example : lookup (pos 101) (apply_row plain 3 (pos 101) 7 asks) ≡ some 7
lookup-apply_row_example =
    (lookup-apply_row plain 3 (pos 101) (pos 101) 7 asks plain-IsNumpy (omega arith)
        ((omega arith, tt), (tt, tt))).2
      (inl (omega arith))

abbrev honest : Factors
honest = record { ask_ctr_fp = λ i. 0; ask_lambda_fp = λ i. 0; survival_lut = λ i. 1024 }

-- Three units at a price of 2.
abbrev one_ask : Side
one_ask = (pos 200_000_000, 3) ∷ []

msq_within_budget_example :
    (0 < 3)
    × (3 ≤ resting one_ask)
    × (200_000_000 * 3 ≤ 10 * scale)
    × (200_000_000 * 3 * 100_045 ≤ (10 + length one_ask) * 100_000 * scale)
unfolding calculate_msq_unlocked walk surviving pay
msq_within_budget_example =
    msq_within_budget honest one_ask 10 3 200_000_000 (λ i. omega arith) refl

abbrev delta : Delta
delta = record {
  u_id = 8;
  range_start = some 8;
  seq = some 3;
  bids = (99, 6) ∷ [];
  asks = (101, 7) ∷ (100, 0) ∷ [];
}

abbrev blank : Frame
blank = record { u_id = 7; range_start = pos 7; seq = 2; bids = []; asks = [] }

abbrev buffer : Ring
buffer = record { epoch = 2; head = 2; tail = 1; frames = λ i. blank }

buffer-IsRing : IsRing buffer
buffer-IsRing = record {
  settled = omega arith;
  ordered = omega arith;
  bounded = omega arith;
  no_wrap = omega arith;
}

write_frame_lem_example : IsRing (write_frame delta buffer)
write_frame_lem_example = (write_frame_lem delta buffer buffer-IsRing (omega arith)).1

abbrev book : Book ℕ
book = record {
  max_levels = 3;
  max_age_sec = 5000;
  u = 7;
  last_seq = 2;
  last_reject = none;
  consistency_ok = true;
  read_epoch = 1;
  last_update_mono = 1000;
  bids = bids;
  asks = asks;
  delta_buffer = buffer;
  factors = honest;
}

book-IsBook : IsBook book
book-IsBook = record {
  sides = record {
    bids_ordered = ((omega arith, tt), (tt, tt));
    asks_ordered = ((omega arith, tt), (tt, tt));
    bids_fit = omega arith;
    asks_fit = omega arith;
  };
  buffer = buffer-IsRing;
}

ingest_delta_iff_example : (ingest_delta plain delta 2000 book).1 ≡ true
ingest_delta_iff_example =
    (ingest_delta_iff plain delta 2000 book).0.1 (omega arith, refl, omega arith, refl, refl)

abbrev recalc : Side → Side → Factors → Factors
recalc b a f = honest

ingest_snapshot-replay_example :
    IsRing (ingest_snapshot plain recalc 7 ((99, 4) ∷ []) ((100, 5) ∷ []) 2000 book).delta_buffer
ingest_snapshot-replay_example =
    (ingest_snapshot-replay plain recalc 7 ((99, 4) ∷ []) ((100, 5) ∷ []) 2000 book buffer-IsRing).1

one {ℓ} : {A : Type ℓ} {a : A} → Nodup (a ∷ [])
one = Pairwise.cons (λ b m. absurd (not-mem-nil m)) Pairwise.nil

ingest_snapshot-outcome_example :
    ((ingest_snapshot plain recalc 7 [] [] 2000 book).consistency_ok ≡ true)
      × (7 ≤ (ingest_snapshot plain recalc 7 [] [] 2000 book).u)
      × ((ingest_snapshot plain recalc 7 [] [] 2000 book).read_epoch ≡ 2)
      × ((ingest_snapshot plain recalc 7 [] [] 2000 book).last_reject ≡ none)
    ⊎ ((ingest_snapshot plain recalc 7 [] [] 2000 book).consistency_ok ≡ false)
      × ((ingest_snapshot plain recalc 7 [] [] 2000 book).u ≡ 0)
      × ((ingest_snapshot plain recalc 7 [] [] 2000 book).bids ≡ [])
      × ((ingest_snapshot plain recalc 7 [] [] 2000 book).asks ≡ [])
      × ((ingest_snapshot plain recalc 7 [] [] 2000 book).read_epoch ≡ 3)
      × ((ingest_snapshot plain recalc 7 [] [] 2000 book).last_reject ≡ some Reject.sequence_gap)
ingest_snapshot-outcome_example =
    ingest_snapshot-outcome plain recalc 7 [] [] 2000 book buffer-IsRing
