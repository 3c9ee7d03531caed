-- ===== src/Book/Sizing/Depth.antt =====
-- src/infrastructure/gektor_l2/nd_orderbook.py: the early exit of the loops of
-- `get_cumulative_depth`.
use gektor.Base.{
  ℕ, ◌+◌, ◌<◌, ◌≡◌, refl, [], ◌∷◌, if◌then◌else◌, leb, arith, All, pos_part, neg_part, ◌≤ℤ◌, ℤ,
}
use gektor.Book.Side.{Side, IsAscending, keys}
use gektor.Book.Sizing.{notional, ask_depth, bid_depth}

-- The notional of all levels at prices up to a limit, or from a limit on.
unfoldable pub asks_up_to : ℕ → Side → ℕ
asks_up_to limit [] = 0
asks_up_to limit ((k, q) ∷ rest) =
    (if leb (pos_part k) limit then notional (pos_part k) q else 0) + asks_up_to limit rest

unfoldable pub bids_down_to : ℕ → Side → ℕ
bids_down_to limit [] = 0
bids_down_to limit ((k, q) ∷ rest) =
    (if leb limit (neg_part k) then notional (neg_part k) q else 0) + bids_down_to limit rest

asks-beyond :
    (limit : ℕ) (k : ℤ) (s : Side)
    → limit < pos_part k
    → All (λ j. k ≤ℤ j) (keys s)
    → asks_up_to limit s ≡ 0
unfolding asks_up_to
asks-beyond limit k [] h a = refl
asks-beyond limit k ((j, q) ∷ s) h a = ground (arith, asks-beyond limit k s h a.1)

bids-beyond :
    (limit : ℕ) (k : ℤ) (s : Side)
    → neg_part k < limit
    → All (λ j. k ≤ℤ j) (keys s)
    → bids_down_to limit s ≡ 0
unfolding bids_down_to
bids-beyond limit k [] h a = refl
bids-beyond limit k ((j, q) ∷ s) h a = ground (arith, bids-beyond limit k s h a.1)

-- On an ascending side the loop over the asks adds up the notional of every ask up to the limit.
pub ask_depth_lem :
    (limit : ℕ) (s : Side) (usd : ℕ)
    → IsAscending (keys s)
    → ask_depth limit s usd ≡ usd + asks_up_to limit s
unfolding ask_depth asks_up_to
ask_depth_lem limit [] usd a = omega arith
ask_depth_lem limit ((k, q) ∷ s) usd a =
    ground (arith, ask_depth_lem limit s (usd + notional (pos_part k) q) a.1, asks-beyond limit k s)

-- On an ascending side the loop over the bids adds up the notional of every bid from the limit on.
pub bid_depth_lem :
    (limit : ℕ) (s : Side) (usd : ℕ)
    → IsAscending (keys s)
    → bid_depth limit s usd ≡ usd + bids_down_to limit s
unfolding bid_depth bids_down_to
bid_depth_lem limit [] usd a = omega arith
bid_depth_lem limit ((k, q) ∷ s) usd a =
    ground (arith, bid_depth_lem limit s (usd + notional (neg_part k) q) a.1, bids-beyond limit k s)
