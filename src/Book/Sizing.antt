-- ===== src/Book/Sizing.antt =====
-- src/infrastructure/gektor_l2/nd_orderbook.py: `_calculate_msq_unlocked`, the market size that a
-- budget buys on the ask side, and `get_cumulative_depth`; gektor_l2/constants.py for the constants.
-- An ask's key is its price and never negative, so that `pos_part` reads `int(self._ask_p[i])`, and
-- `neg_part` reads `int(-self._bid_neg[j])`.
pub mod Bisect
pub mod Budget
pub mod Depth
use gektor.Base.{
  ℕ, zero, suc, ◌+◌, ◌-◌, ◌*◌, ◌/◌, ◌≤◌, Bool, true, false, Option, none, some, List, [], ◌∷◌,
  if◌then◌else◌, ltb, leb, ◌==◌, pos_part, neg_part,
}
use gektor.Book.Side.{Side}

abbrev pub scale : ℕ
scale = 100_000_000

abbrev pub taker_fee_numerator : ℕ
taker_fee_numerator = 45

abbrev pub taker_fee_denominator : ℕ
taker_fee_denominator = 100_000

-- The fixed-point arrays of the pessimisation, uint16 each, by level and by lambda.
pub record Factors : Type 0 where
  pub ask_ctr_fp : ℕ → ℕ
  pub ask_lambda_fp : ℕ → ℕ
  pub survival_lut : ℕ → ℕ

-- What is left of a level's quantity: `(q_raw * (1024 - ctr) * decay) >> 20`.
unfoldable pub surviving : Factors → ℕ → ℕ → ℕ
surviving f idx q_raw =
    q_raw * (1024 - f.ask_ctr_fp idx) * f.survival_lut (f.ask_lambda_fp idx) / 1_048_576

-- `(p * q) // SCALE`
abbrev pub notional : ℕ → ℕ → ℕ
notional p q = p * q / scale

abbrev pub fee : ℕ → ℕ
fee n = n * taker_fee_numerator / taker_fee_denominator

-- What a quantity costs at a price, fee included.
unfoldable pub pay : ℕ → ℕ → ℕ
pay p q = notional p q + fee (notional p q)

-- `while lo <= hi`: the interval at least halves in a round. (At `midq = 0` the cost is 0, so that
-- `midq - 1` is never taken there.)
unfoldable pub bisect : ℕ → ℕ → ℕ → ℕ → ℕ → ℕ → ℕ
bisect zero p remaining lo hi best = best
bisect (suc fuel) p remaining lo hi best =
    let mid = (lo + hi) / 2 in
    let up = bisect fuel p remaining (mid + 1) hi mid in
    let down = bisect fuel p remaining lo (mid - 1) best in
    if ltb hi lo then best else if leb (pay p mid) remaining then up else down

-- The loop's variables.
pub record Walk : Type 0 where
  pub remaining : ℕ
  pub total_qty : ℕ
  pub total_notional : ℕ

abbrev pub bought : ℕ → ℕ → Walk → Walk
bought p q w = record {
  remaining = w.remaining - pay p q;
  total_qty = w.total_qty + q;
  total_notional = w.total_notional + notional p q;
}

-- The round that exhausts the budget: the binary search for the part that is still affordable.
unfoldable pub take_part : ℕ → ℕ → Walk → Walk
take_part p q w =
    let best = bisect (q + 2) p w.remaining 0 q 0 in if best == 0 then w else bought p best w

-- The loop over the asks from level `idx` on.
unfoldable pub walk : Factors → ℕ → Side → Walk → Walk
unfolding surviving take_part
walk f idx [] w = w
walk f idx ((k, q_raw) ∷ rest) w =
    let p = pos_part k in
    let q = surviving f idx q_raw in
    let skip = walk f (idx + 1) rest w in
    let full = walk f (idx + 1) rest (bought p q w) in
    if w.remaining == 0
    then w
    else if q_raw == 0
    then skip
    else if q == 0
    then skip
    else if leb (pay p q) w.remaining
    then full
    else take_part p q w

-- The end of `_calculate_msq_unlocked`: the quantity and its average price.
abbrev pub outcome : Walk → Option (ℕ × ℕ)
outcome w =
    if w.total_qty == 0 then none else some (w.total_qty, w.total_notional * scale / w.total_qty)

-- `_calculate_msq_unlocked`
unfoldable pub calculate_msq_unlocked : Factors → Side → ℕ → Option (ℕ × ℕ)
unfolding walk
calculate_msq_unlocked f asks target =
    outcome (walk f 0 asks (record { remaining = target; total_qty = 0; total_notional = 0 }))

-- The two loops of `get_cumulative_depth`, over asks up to a limit and bids down to one.
unfoldable pub ask_depth : ℕ → Side → ℕ → ℕ
ask_depth limit [] usd = usd
ask_depth limit ((k, q) ∷ rest) usd =
    let more = ask_depth limit rest (usd + notional (pos_part k) q) in
    if ltb limit (pos_part k) then usd else more

unfoldable pub bid_depth : ℕ → Side → ℕ → ℕ
bid_depth limit [] usd = usd
bid_depth limit ((k, q) ∷ rest) usd =
    let more = bid_depth limit rest (usd + notional (neg_part k) q) in
    if ltb (neg_part k) limit then usd else more
