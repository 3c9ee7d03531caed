-- ===== src/Book/Cross/Examples.antt =====
-- Two concrete books, on which the theorems are applied.
use gektor.Base.{ℕ, ◌≡◌, refl, true, false, none, some, [], ◌∷◌, milli, pos, negsuc}
use gektor.Base.Dicts.{Dict, lookup, insert}
use gektor.Book.Side.Sorting.{plain}
use gektor.Book.Ring.{Delta}
use gektor.Book.State.{Book, BookState, ingest_delta, readiness}
use gektor.Book.Cross.{CrossAssetSnapshot, World, is_consistent, take}
use gektor.Book.Cross.Occ.{delta_unnoticed}
use gektor.Book.Cross.Retry.{AllReady}

abbrev book : Book ℕ
book = record {
  max_levels = 3;
  max_age_sec = 5000;
  u = 7;
  last_seq = 2;
  last_reject = none;
  consistency_ok = true;
  read_epoch = 1;
  last_update_mono = 1000;
  bids = (negsuc 98, 4) ∷ [];
  asks = (pos 100, 5) ∷ [];
  delta_buffer = record {
    epoch = 0;
    head = 0;
    tail = 0;
    frames = λ i. record { u_id = 0; range_start = pos 0; seq = 0; bids = []; asks = [] };
  };
  factors = record { ask_ctr_fp = λ i. 0; ask_lambda_fp = λ i. 0; survival_lut = λ i. 1024 };
}

abbrev books : Dict (Book ℕ)
books = ("ETHUSDT", book) ∷ ("OPUSDT", book) ∷ []

abbrev states : Dict BookState
states = ("ETHUSDT", BookState.synced) ∷ ("OPUSDT", BookState.synced) ∷ []

abbrev reading : CrossAssetSnapshot ℕ
reading = take books states false 10 2000

-- The delta takes the whole ask side away.
abbrev delta : Delta
delta = record { u_id = 8; range_start = some 8; seq = some 3; bids = []; asks = (100, 0) ∷ [] }

delta_unnoticed_example :
    is_consistent reading (insert "OPUSDT" (ingest_delta plain delta 2100 book).0 books)
    ≡ is_consistent reading books
unfolding lookup ingest_delta
delta_unnoticed_example = delta_unnoticed plain delta 2100 "OPUSDT" book books reading refl refl

abbrev dark : World ℕ
dark = record { now = 1500; books = books; states = [] }

abbrev lit : World ℕ
lit = record { now = 2000; books = books; states = states }

lit-AllReady : AllReady books states false 2000
unfolding lookup readiness
lit-AllReady = (refl, (refl, tt))
