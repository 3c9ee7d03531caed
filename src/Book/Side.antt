-- ===== src/Book/Side.antt =====
-- One side of the book, src/infrastructure/gektor_l2/nd_orderbook.py: the two arrays of keys and
-- quantities up to the count are one list of levels. A bid's key is `-price`, an ask's its price, so
-- that both sides ascend. Prices and quantities are numbers that fit an int64; a quantity of 0 is a
-- deletion. numpy's `searchsorted` and `argsort` are parameters.
pub mod Search
pub mod Update
pub mod Snapshot
pub mod Sorting
use gektor.Base.{
  ℕ, zero, suc, ◌+◌, ◌≤◌, ◌<◌, ◌≡◌, Bool, true, false, ◌&&◌, not, List, [], ◌∷◌, ◌++◌, map,
  if◌then◌else◌, ltb, leb, ◌==◌, length, take, drop, get_or, set, ℤ, pos, opposite, eqb_ℤ, All,
  ◌≤ℤ◌, ◌<ℤ◌, min,
}
use mathlib.Core.List.{Perm}

abbrev pub Level : Type 0
Level = ℤ × ℕ

abbrev pub Side : Type 0
Side = List Level

abbrev pub key : Level → ℤ
key l = l.0

abbrev pub keys : Side → List ℤ
keys s = map key s

-- What the book uses of numpy.
pub record Numpy : Type 0 where
  pub searchsorted : List ℤ → ℤ → ℕ  -- side="left"
  pub argsort : List ℤ → List ℕ  -- kind="mergesort"

-- Each key is at most the next.
abbrev pub IsAscending : List ℤ → Type 0
IsAscending [] = Unit
IsAscending (k ∷ ks) = All (λ j. k ≤ℤ j) ks × IsAscending ks

-- i, i + 1, …, n places in all.
abbrev pub indices : ℕ → ℕ → List ℕ
indices i zero = []
indices i (suc n) = i ∷ indices (suc i) n

-- numpy's documentation of the two: the leftmost place for a value in an ascending array, and the
-- indices in the order that sorts the array.
pub record IsNumpy (np : Numpy) : Type 0 where
  pub within : (ks : List ℤ) (k : ℤ) → np.searchsorted ks k ≤ length ks
  pub below :
      (ks : List ℤ) (k : ℤ) → IsAscending ks → All (λ j. j <ℤ k) (take (np.searchsorted ks k) ks)
  pub above :
      (ks : List ℤ) (k : ℤ) → IsAscending ks → All (λ j. k ≤ℤ j) (drop (np.searchsorted ks k) ks)
  pub sorts : (ks : List ℤ) → IsAscending (map (λ i. get_or ks i (pos 0)) (np.argsort ks))
  pub permutes : (ks : List ℤ) → Perm (np.argsort ks) (indices 0 (length ks))

-- The slice moves of `_insert_bid_index` and `_insert_ask_index`; nothing at full capacity.
unfoldable pub insert_index : ℕ → ℕ → ℤ → ℕ → Side → Side
insert_index max_levels i k q s =
    if leb max_levels (length s) then s else take i s ++ ((k, q) ∷ drop i s)

-- `_remove_bid_index`, `_remove_ask_index`
unfoldable pub remove_index : ℕ → Side → Side
remove_index i s = if leb (length s) i then s else take i s ++ drop (suc i) s

-- `q[i] = qty`
unfoldable pub set_qty : ℕ → ℕ → Side → Side
set_qty i q s = set s i (key (get_or s i (pos 0, 0)), q)

-- The common body of `_apply_row_bid` and `_apply_row_ask`, once `searchsorted` has returned `i`.
unfoldable pub apply_at : ℕ → ℕ → ℤ → ℕ → Side → Side
unfolding insert_index remove_index set_qty
apply_at max_levels i k q s =
    let exists = ltb i (length s) && eqb_ℤ (key (get_or s i (pos 0, 0))) k in
    if q == 0
    then (if not exists then s else remove_index i s)
    else if exists
    then set_qty i q s
    else insert_index max_levels i k q s

-- The loop of `_fill_side_from_snapshot` over the rows, with room for `room` more levels.
unfoldable pub live_rows : (ℕ → ℤ) → ℕ → List (ℕ × ℕ) → Side
live_rows to_key zero rows = []
live_rows to_key (suc room) [] = []
live_rows to_key (suc room) ((price, q) ∷ rows) =
    let skip = live_rows to_key (suc room) rows in
    let more = live_rows to_key room rows in if q == 0 then skip else ((to_key price, q) ∷ more)

-- `view[order]`
abbrev pub gather : Side → List ℕ → Side
gather s order = map (λ i. get_or s i (pos 0, 0)) order

module _ (np : Numpy) where
  open np use {searchsorted, argsort}

  unfoldable pub apply_row : ℕ → ℤ → ℕ → Side → Side
  unfolding apply_at
  apply_row max_levels k q s = apply_at max_levels (searchsorted (keys s) k) k q s

  -- `_apply_row_bid`
  unfoldable pub apply_row_bid : ℕ → ℕ → ℕ → Side → Side
  unfolding apply_row
  apply_row_bid max_levels price q s = apply_row max_levels (opposite price) q s

  -- `_apply_row_ask`
  unfoldable pub apply_row_ask : ℕ → ℕ → ℕ → Side → Side
  unfolding apply_row
  apply_row_ask max_levels price q s = apply_row max_levels (pos price) q s

  -- `_fill_side_from_snapshot`
  unfoldable pub fill_side : (ℕ → ℤ) → ℕ → List (ℕ × ℕ) → Side
  unfolding live_rows
  fill_side to_key max_levels rows =
      let view = live_rows to_key max_levels rows in gather view (argsort (keys view))
