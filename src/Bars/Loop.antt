-- ===== src/Bars/Loop.antt =====
-- src/domain/dollar_bars.py: the loop that splits a trade over bars.
use gektor.Base.{
  ℕ, zero, suc, ◌+◌, ◌-◌, ◌*◌, ◌/◌, ◌%◌, ◌≤◌, ◌<◌, ◌≡◌, refl, ◌||◌, List, [], ◌∷◌, ◌++◌,
  if◌then◌else◌, leb, ◌==◌, arith, refl, false, length, length-append, Bool-cases, inl, inr,
}
use native.Mathlib.Nat.{
  div-mul-le_self, mul-add-div, zero-div, mod-eq_of_lt, div-eq_of_lt, mul-add-mod_self_left,
}
use gektor.Bars.{
  Row, Engine, Split, next_ema, closed_row, close_bar, start_bar, touch, add_to_bar, split_round,
  split, ingest_trade,
}

-- The open bar is short of the threshold.
pub record IsSound (e : Engine) : Type 0 where
  pub positive : 0 < e.threshold
  pub short : e.bar.dollar_acc < e.threshold

chunk_le : (q n d : ℕ) → n ≤ d → 0 < d → q * n / d ≤ q
chunk_le q n d l p =
    let a : q * n ≤ q * d = grind arith in
    let b : q * n / d * d ≤ q * d = omega (arith, div-mul-le_self (q * n) d, a) in grind arith

-- A trade that enters the open bar leaves its sums alone.
pub opened_lem :
    (ts price n : ℕ) (e : Engine)
    → let o = touch price (start_bar ts price n e) in
      (o.threshold ≡ e.threshold)
      × (o.capacity ≡ e.capacity)
      × (o.head ≡ e.head)
      × (o.bar_count ≡ e.bar_count)
      × (o.bar.dollar_acc ≡ e.bar.dollar_acc)
      × (o.bar.vol_acc ≡ e.bar.vol_acc)
unfolding start_bar touch
opened_lem ts price n e = ground arith

times_suc : (t n : ℕ) → t * (n + 1) ≡ t * n + t
times_suc t n = omega arith

-- One round with dollars left takes some off, and moves what it takes into bars.
pub split_round_lem :
    (ts price : ℕ) (s : Split)
    → IsSound s.engine
    → 0 < s.remaining_dollar
    → let t = split_round ts price s in
      IsSound t.engine
      × (t.remaining_dollar < s.remaining_dollar)
      × (t.engine.threshold ≡ s.engine.threshold)
      × (t.engine.threshold * t.bars_produced + t.engine.bar.dollar_acc + t.remaining_dollar
          ≡ s.engine.threshold * s.bars_produced + s.engine.bar.dollar_acc + s.remaining_dollar)
      × (t.engine.bar_count + s.bars_produced ≡ s.engine.bar_count + t.bars_produced)
unfolding split_round close_bar
split_round_lem ts price s h p =
    let o = opened_lem ts price s.bars_produced s.engine in
    let (t, c, hd, b, d, v) = o in
    rw (t, d) (ground (arith, o, times_suc s.engine.threshold s.bars_produced))

-- The rows that a round closes.
unfoldable pub round_rows : ℕ → ℕ → Split → List Row
unfolding next_ema
round_rows ts price s =
    let e = touch price (start_bar ts price s.bars_produced s.engine) in
    let needed = e.threshold - e.bar.dollar_acc in
    let chunk_qty = s.remaining_qty * needed / s.remaining_dollar in
    let ema = next_ema e.ema_alpha_num e.ema_alpha_den e.bar.close e.stats.ema in
    if leb needed s.remaining_dollar
    then closed_row ts ema (add_to_bar needed chunk_qty e) ∷ []
    else []

-- The rows that the loop closes, in order.
unfoldable pub written : ℕ → ℕ → ℕ → Split → List Row
written zero ts price s = []
written (suc fuel) ts price s =
    let rest = written fuel ts price (split_round ts price s) in
    if s.remaining_dollar == 0 then [] else round_rows ts price s ++ rest

unfoldable pub volumes : List Row → ℕ
volumes [] = 0
volumes (r ∷ rs) = r.volume + volumes rs

volumes-append : (xs ys : List Row) → volumes (xs ++ ys) ≡ volumes xs + volumes ys
unfolding volumes
volumes-append [] ys = omega arith
volumes-append (x ∷ xs) ys = omega (arith, volumes-append xs ys)

-- The chunk that takes all dollars takes all quantity.
whole_chunk : (q d : ℕ) → 0 < d → q * d / d ≡ q
whole_chunk q d p = grind arith

round_volume :
    (ts price : ℕ) (s : Split)
    → IsSound s.engine
    → 0 < s.remaining_dollar
    → let t = split_round ts price s in
      (volumes (round_rows ts price s) + t.engine.bar.vol_acc + t.remaining_qty
        ≡ s.engine.bar.vol_acc + s.remaining_qty)
      × (t.remaining_dollar ≡ 0 → t.remaining_qty ≡ 0)
      × (length (round_rows ts price s) + s.bars_produced ≡ t.bars_produced)
unfolding split_round close_bar round_rows volumes
round_volume ts price s h p =
    let o = opened_lem ts price s.bars_produced s.engine in
    let (t, c, hd, b, d, v) = o in
    rw (t, d)
      (ground (
        arith,
        o,
        chunk_le s.remaining_qty (s.engine.threshold - s.engine.bar.dollar_acc) s.remaining_dollar,
        whole_chunk s.remaining_qty s.remaining_dollar p,
      ))

-- What the loop has done when it ends.
record Ended (s t : Split) (rows : List Row) : Type 0 where
  sound : IsSound t.engine
  no_dollar : t.remaining_dollar ≡ 0
  no_qty : t.remaining_qty ≡ 0
  threshold : t.engine.threshold ≡ s.engine.threshold
  dollars :
      t.engine.threshold * t.bars_produced + t.engine.bar.dollar_acc
      ≡ s.engine.threshold * s.bars_produced + s.engine.bar.dollar_acc + s.remaining_dollar
  quantity : volumes rows + t.engine.bar.vol_acc ≡ s.engine.bar.vol_acc + s.remaining_qty
  produced : length rows + s.bars_produced ≡ t.bars_produced
  counted : t.engine.bar_count + s.bars_produced ≡ s.engine.bar_count + t.bars_produced

split-Ended :
    (fuel ts price : ℕ) (s : Split)
    → IsSound s.engine
    → (s.remaining_dollar ≡ 0 → s.remaining_qty ≡ 0)
    → s.remaining_dollar ≤ fuel
    → Ended s (split fuel ts price s) (written fuel ts price s)
unfolding split written volumes
split-Ended zero ts price s h q l = ground arith
split-Ended (suc fuel) ts price s h q l = elim (Bool-cases (s.remaining_dollar == 0)) [
  | inl e ↦ rw e (ground arith)
  | inr e ↦
      let p : 0 < s.remaining_dollar = ground arith in
      let (h2, less, th, d, c) = split_round_lem ts price s h p in
      let (v, q2, n) = round_volume ts price s h p in
      let ih = split-Ended fuel ts price (split_round ts price s) h2 q2 (omega arith) in
      rw e (
        ground (
          arith,
          ih,
          th,
          d,
          c,
          v,
          n,
          volumes-append (round_rows ts price s) (written fuel ts price (split_round ts price s)),
          length-append (round_rows ts price s) (written fuel ts price (split_round ts price s)),
        ))
]

split-more :
    (fuel k ts price : ℕ) (s : Split)
    → IsSound s.engine
    → s.remaining_dollar ≤ fuel
    → split (fuel + k) ts price s ≡ split fuel ts price s
unfolding split
split-more zero zero ts price s h l = refl
split-more zero (suc k) ts price s h l = ground arith
split-more (suc fuel) k ts price s h l =
    let e : suc fuel + k ≡ suc (fuel + k) = omega arith in
    rw e (elim (Bool-cases (s.remaining_dollar == 0)) [
      | inl z ↦ rw z
      | inr z ↦
          let t = split_round_lem ts price s h (ground arith) in
          rw z (split-more fuel k ts price (split_round ts price s) t.0 (omega arith))
    ])

-- The loop with its fuel at least the dollars left ends with neither dollars nor quantity left, at any
-- price, if the open bar is short of the threshold and no dollars at the start mean no quantity; more
-- fuel changes nothing.
pub split_ends :
    (fuel ts price : ℕ) (s : Split)
    → IsSound s.engine
    → (s.remaining_dollar ≡ 0 → s.remaining_qty ≡ 0)
    → s.remaining_dollar ≤ fuel
    → ((split fuel ts price s).remaining_dollar ≡ 0)
      × ((split fuel ts price s).remaining_qty ≡ 0)
      × ((k : ℕ) → split (fuel + k) ts price s ≡ split fuel ts price s)
split_ends fuel ts price s h q l =
    let t = split-Ended fuel ts price s h q l in
    (t.no_dollar, t.no_qty, λ k. split-more fuel k ts price s h l)

-- The variables at the start of the loop.
abbrev pub entering : ℕ → ℕ → Engine → Split
entering price qty e = record {
  engine = e;
  remaining_dollar = price * qty / e.scale;
  remaining_qty = qty;
  bars_produced = 0;
}

-- The rows that a trade closes.
unfoldable pub trade_rows : ℕ → ℕ → ℕ → Engine → List Row
trade_rows price qty ts e =
    let rows = written (price * qty / e.scale + 1) ts price (entering price qty e) in
    if price == 0 || qty == 0 then [] else if price * qty / e.scale == 0 then [] else rows

divided : (t n a v : ℕ) → a < t → t * n + a ≡ v → (n ≡ v / t) × (a ≡ v % t)
divided t n a v l e =
    let p : 0 < t = omega arith in
    rw (← e) (
      grind (arith, mul-add-div p n a, mul-add-mod_self_left t n a, mod-eq_of_lt l, div-eq_of_lt l))

worthless : (p q c : ℕ) → (p * q / c == 0) ≡ false → (p == 0 || q == 0) ≡ false
worthless zero q c h = ground (arith, zero-div c)
worthless (suc p) zero c h = ground (arith, zero-div c)
worthless (suc p) (suc q) c h = ground arith

-- A trade closes as many bars as the threshold goes into the open bar's dollars and its own, and
-- leaves the remainder in the open bar; the volumes of the closed bars and the open one gain its quantity, unless it is
-- worth less than one unit.
pub ingest_trade_lem :
    (price qty ts : ℕ) (e : Engine)
    → IsSound e
    → let (t, n) = ingest_trade price qty ts e in
      let v = price * qty / e.scale in
      let rows = trade_rows price qty ts e in
      IsSound t
      × (n ≡ (e.bar.dollar_acc + v) / e.threshold)
      × (t.bar.dollar_acc ≡ (e.bar.dollar_acc + v) % e.threshold)
      × (t.bar_count ≡ e.bar_count + n)
      × (length rows ≡ n)
      × (0 < v → volumes rows + t.bar.vol_acc ≡ e.bar.vol_acc + qty)
unfolding ingest_trade trade_rows volumes
ingest_trade_lem price qty ts e h =
    let v = price * qty / e.scale in
    elim (Bool-cases (v == 0)) [
      | inl z ↦
          ground (arith, divided e.threshold 0 e.bar.dollar_acc (e.bar.dollar_acc + v) h.short)
      | inr z ↦
          let s = entering price qty e in
          let t = split-Ended (v + 1) ts price s h (λ d. ground arith) (omega arith) in
          let d =
            divided e.threshold (split (v + 1) ts price s).bars_produced
              (split (v + 1) ts price s).engine.bar.dollar_acc (e.bar.dollar_acc + v) in
          rw (z, worthless price qty e.scale z) (ground (arith, t, d))
    ]
