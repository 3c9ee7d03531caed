-- ===== src/Book/Sizing/Budget.antt =====
-- src/infrastructure/gektor_l2/nd_orderbook.py: what the market size of `_calculate_msq_unlocked`
-- costs, without the taker fee and with it.
use gektor.Base.{
  ℕ, ◌+◌, ◌-◌, ◌*◌, ◌/◌, ◌≤◌, ◌<◌, ◌≡◌, some, [], ◌∷◌, arith, pos_part, length, Bool-cases, inl,
  inr, ◌==◌,
}
use native.Mathlib.Nat.{div-mul-le_self}
use gektor.Book.Side.{Side}
use gektor.Book.Sizing.{
  Factors, Walk, scale, pay, bisect, notional, take_part, walk, surviving, bought, outcome,
  calculate_msq_unlocked,
}
use gektor.Book.Sizing.Bisect.{bisect_max}

-- The quantity that survives the pessimisation on all levels from `idx` on.
unfoldable pub supply : Factors → ℕ → Side → ℕ
supply f idx [] = 0
supply f idx ((k, q_raw) ∷ rest) = surviving f idx q_raw + supply f (idx + 1) rest

take_part-budget :
    (p q : ℕ) (w : Walk)
    → let v = take_part p q w in
      (v.remaining ≤ w.remaining)
      × (v.total_notional + v.remaining ≤ w.total_notional + w.remaining)
      × (v.total_qty ≤ w.total_qty + q)
unfolding take_part pay
take_part-budget p q w = ground (arith, bisect_max p w.remaining q)

notional-le-pay : (p q : ℕ) → notional p q ≤ pay p q
unfolding pay
notional-le-pay p q = omega arith

walk-budget :
    (f : Factors) (idx : ℕ) (s : Side) (w : Walk)
    → let v = walk f idx s w in
      (v.remaining ≤ w.remaining)
      × (v.total_notional + v.remaining ≤ w.total_notional + w.remaining)
      × (v.total_qty ≤ w.total_qty + supply f idx s)
unfolding walk supply
walk-budget f idx [] w = omega arith
walk-budget f idx ((k, q_raw) ∷ rest) w = ground (
  arith,
  walk-budget f (idx + 1) rest w,
  walk-budget f (idx + 1) rest (bought (pos_part k) (surviving f idx q_raw) w),
  notional-le-pay (pos_part k) (surviving f idx q_raw),
  take_part-budget (pos_part k) (surviving f idx q_raw) w,
)

bought-fees :
    (p q : ℕ) (w : Walk)
    → pay p q ≤ w.remaining
    → let v = bought p q w in
      v.total_notional * 100_045 + v.remaining * 100_000
      ≤ w.total_notional * 100_045 + w.remaining * 100_000 + 100_000
unfolding pay
bought-fees p q w h = omega arith

take_part-fees :
    (p q : ℕ) (w : Walk)
    → let v = take_part p q w in
      v.total_notional * 100_045 + v.remaining * 100_000
      ≤ w.total_notional * 100_045 + w.remaining * 100_000 + 100_000
unfolding take_part
take_part-fees p q w =
    let best = bisect (q + 2) p w.remaining 0 q 0 in
    elim (Bool-cases (best == 0)) [
      | inl y ↦ rw y (omega arith)
      | inr y ↦ rw y (bought-fees p best w (bisect_max p w.remaining q).0)
    ]

-- A level's fee is rounded down, so that it may fall short by less than a unit.
walk-fees :
    (f : Factors) (idx : ℕ) (s : Side) (w : Walk)
    → let v = walk f idx s w in
      v.total_notional * 100_045 + v.remaining * 100_000
      ≤ w.total_notional * 100_045 + w.remaining * 100_000 + 100_000 * length s
unfolding walk
walk-fees f idx [] w = omega arith
walk-fees f idx ((k, q_raw) ∷ rest) w = ground (
  arith,
  walk-fees f (idx + 1) rest w,
  walk-fees f (idx + 1) rest (bought (pos_part k) (surviving f idx q_raw) w),
  bought-fees (pos_part k) (surviving f idx q_raw) w,
  take_part-fees (pos_part k) (surviving f idx q_raw) w,
)

-- A probability table holds at most 1024, which stands for 1.
abbrev pub IsTable : Factors → Type 0
IsTable f = (i : ℕ) → f.survival_lut i ≤ 1024

surviving-le : (f : Factors) (idx q : ℕ) → IsTable f → surviving f idx q ≤ q
unfolding surviving
surviving-le f idx q h =
    let a = 1024 - f.ask_ctr_fp idx in
    let l = f.survival_lut (f.ask_lambda_fp idx) in
    let t : l ≤ 1024 = h (f.ask_lambda_fp idx) in
    let u : a ≤ 1024 = omega arith in
    let v : q * a ≤ q * 1024 = grind arith in
    let w : q * a * l ≤ q * 1024 * 1024 = grind arith in omega arith

-- All that rests on the ask side.
unfoldable pub resting : Side → ℕ
resting [] = 0
resting ((k, q_raw) ∷ rest) = q_raw + resting rest

supply-le : (f : Factors) (idx : ℕ) (s : Side) → IsTable f → supply f idx s ≤ resting s
unfolding supply resting
supply-le f idx [] h = omega arith
supply-le f idx ((k, q_raw) ∷ rest) h =
    omega (arith, surviving-le f idx q_raw h, supply-le f (idx + 1) rest h)

result_of :
    (w : Walk) (qty avg : ℕ)
    → outcome w ≡ some (qty, avg)
    → (w.total_qty ≡ qty) × (0 < qty) × (w.total_notional * scale / w.total_qty ≡ avg)
result_of w qty avg e = ground arith

-- With a survival table in range, a market size that is found is positive, at most what rests on the
-- ask side, and at its average price costs no more than the budget; with the taker fee of 0.045 % it
-- costs at most one unit more than the budget for each level of the ask side, since the fee of a level
-- is rounded down.
pub msq_within_budget :
    (f : Factors) (asks : Side) (target qty avg : ℕ)
    → IsTable f
    → calculate_msq_unlocked f asks target ≡ some (qty, avg)
    → (0 < qty)
      × (qty ≤ resting asks)
      × (avg * qty ≤ target * scale)
      × (avg * qty * 100_045 ≤ (target + length asks) * 100_000 * scale)
unfolding calculate_msq_unlocked
msq_within_budget f asks target qty avg h e =
    let start : Walk = record { remaining = target; total_qty = 0; total_notional = 0 } in
    let w = walk f 0 asks start in
    let (q, p, a) = result_of w qty avg e in
    let (_, spent, amount) = walk-budget f 0 asks start in
    let fees = walk-fees f 0 asks start in
    let cost = div-mul-le_self (w.total_notional * scale) w.total_qty in
    (
      p,
      omega (arith, supply-le f 0 asks h),
      rw (← a, ← q) (omega (arith, cost)),
      rw (← a, ← q) (omega (arith, cost, fees)),
    )
