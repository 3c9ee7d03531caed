-- ===== src/Book/Cross.antt =====
-- src/infrastructure/gektor_l2/nd_orderbook.py: `CrossAssetSnapshot`, a reading of several books in
-- one step, to be validated after an await. An infinite age is `none`.
pub mod Occ
pub mod Retry
mod Examples
use gektor.Base.{
  ℕ, zero, suc, ◌+◌, Bool, true, false, not, ◌&&◌, Option, none, some, List, [], ◌∷◌, if◌then◌else◌,
  ltb, ◌==◌, String, Float, ◌⊖◌, ◌≺◌, ◌≼◌, ◌≐◌, nought,
}
use gektor.Base.Dicts.{Dict, lookup}
use gektor.Book.State.{Book, BookState, BookReadiness, readiness, calculate_msq}

-- `_BookSlice`
pub record BookSlice (R : Type 0) : Type 0 where
  pub symbol : String
  pub readiness : BookReadiness
  pub epoch : ℕ
  pub msq : Option (ℕ × ℕ)
  pub data_age_sec : Option R

pub record CrossAssetSnapshot (R : Type 0) : Type 0 where
  pub slices : Dict (BookSlice R)
  pub snapshot_mono : R

abbrev pub is_ready : BookReadiness → Bool
is_ready BookReadiness.ready = true
is_ready _ = false

-- The value of the `IntEnum`.
abbrev pub value : BookReadiness → ℕ
value BookReadiness.ready = 1
value BookReadiness.empty_but_valid = 2
value BookReadiness.recovering = 3
value BookReadiness.blind_network = 4
value BookReadiness.blind_stale = 5

-- `rd == other`
abbrev pub same_readiness : BookReadiness → BookReadiness → Bool
same_readiness a b = value a == value b

-- `new_msq == msq`
abbrev pub same_msq : Option (ℕ × ℕ) → Option (ℕ × ℕ) → Bool
same_msq none none = true
same_msq none (some b) = false
same_msq (some a) none = false
same_msq (some (q, p)) (some (q', p')) = (q == q') && (p == p')

-- `book_states.get(sym, BookState.DESYNCED)`
abbrev pub state_or : Option BookState → BookState
state_or none = BookState.desynced
state_or (some st) = st

module _ {R : Type 0} where
  abbrev pub every_ready : Dict (BookSlice R) → Bool
  every_ready [] = true
  every_ready ((sym, s) ∷ rest) = is_ready s.readiness && every_ready rest

  -- `all_ready`
  unfoldable pub all_ready : CrossAssetSnapshot R → Bool
  all_ready snap = every_ready snap.slices

  abbrev pub same_epoch : Option (Book R) → BookSlice R → Bool
  same_epoch none s = false
  same_epoch (some b) s = b.read_epoch == s.epoch

  abbrev pub epochs_kept : Dict (BookSlice R) → Dict (Book R) → Bool
  epochs_kept [] books = true
  epochs_kept ((sym, s) ∷ rest) books = same_epoch (lookup sym books) s && epochs_kept rest books

  -- `is_consistent`
  unfoldable pub is_consistent : CrossAssetSnapshot R → Dict (Book R) → Bool
  is_consistent snap books = epochs_kept snap.slices books

module _ {R : Type 0} ⦃f : Float R⦄ where
  -- `data_age_sec`
  abbrev pub data_age_sec : R → Book R → Option R
  data_age_sec now b = if b.last_update_mono ≐ nought then none else some (now ⊖ b.last_update_mono)

  abbrev pub slice : String → BookState → Bool → ℕ → R → Book R → BookSlice R
  slice sym st breaker target now b =
      let rd = readiness st breaker now b in
      record {
        symbol = sym;
        readiness = rd;
        epoch = b.read_epoch;
        msq = if is_ready rd then calculate_msq target b else none;
        data_age_sec = data_age_sec now b;
      }

  -- The loop of `take`: a dict lists no key twice, so that each entry adds one slice.
  unfoldable pub slices_of : Dict (Book R) → Dict BookState → Bool → ℕ → R → Dict (BookSlice R)
  slices_of [] states breaker target now = []
  slices_of ((sym, b) ∷ rest) states breaker target now =
      (sym, slice sym (state_or (lookup sym states)) breaker target now b)
      ∷ slices_of rest states breaker target now

  -- `take`; the clock does not move during it.
  unfoldable pub take : Dict (Book R) → Dict BookState → Bool → ℕ → R → CrossAssetSnapshot R
  unfolding slices_of
  take books states breaker target now = record {
    slices = slices_of books states breaker target now;
    snapshot_mono = now;
  }

  -- One round of `is_consistent_msq`.
  abbrev pub undamaged : Option (Book R) → BookState → Bool → ℕ → R → BookSlice R → Bool
  undamaged none st breaker target now s = false
  undamaged (some b) st breaker target now s =
      if b.read_epoch == s.epoch
      then true
      else let rd = readiness st breaker now b in
        if not (same_readiness rd s.readiness)
        then false
        else if is_ready rd
        then same_msq (calculate_msq target b) s.msq
        else true

  abbrev pub none_damaged :
      Dict (BookSlice R) → Dict (Book R) → Dict BookState → Bool → ℕ → R → Bool
  none_damaged [] books states breaker target now = true
  none_damaged ((sym, s) ∷ rest) books states breaker target now =
      undamaged (lookup sym books) (state_or (lookup sym states)) breaker target now s
      && none_damaged rest books states breaker target now

  -- `is_consistent_msq`
  unfoldable pub is_consistent_msq :
      CrossAssetSnapshot R → Dict (Book R) → Dict BookState → Bool → ℕ → R → Bool
  is_consistent_msq snap books states breaker target now =
      none_damaged snap.slices books states breaker target now

-- What one attempt of `take_with_retry` meets after its sleep.
pub record World (R : Type 0) : Type 0 where
  pub now : R
  pub books : Dict (Book R)
  pub states : Dict BookState

-- `take_with_retry` from an attempt on, `none` being the `SnapshotIsolationError`. The sleeps only
-- decide what the next attempt meets.
unfoldable pub take_with_retry :
    {R : Type 0} ⦃f : Float R⦄ → ℕ → R → Bool → ℕ → List (World R) → Option (CrossAssetSnapshot R)
take_with_retry zero deadline breaker target worlds = none
take_with_retry (suc attempts) deadline breaker target [] = none
take_with_retry (suc attempts) deadline breaker target (w ∷ worlds) =
    let snap = take w.books w.states breaker target w.now in
    let again = take_with_retry attempts deadline breaker target worlds in
    if deadline ≼ w.now then none else if all_ready snap then some snap else again
