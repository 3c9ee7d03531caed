-- ===== src/Bars/Rows.antt =====
-- src/domain/dollar_bars.py: the ring of closed bars against the log of all bars ever closed.
use gektor.Base.{
  ℕ, zero, suc, ◌+◌, ◌-◌, ◌*◌, ◌/◌, ◌%◌, ◌<◌, ◌≡◌, refl, sym, ◌∙◌, ap, subst, ◌||◌, List, [], ◌∷◌,
  ◌++◌, leb, ◌==◌, arith, length, length-append, get_or, set, length-set, get_or-set_self,
  get_or-set_other, slots-apart, Bool-cases, inl, inr,
}
use native.Mathlib.Nat.{mod-lt, mod-add-mod}
use native.Mathlib.Decide.{dec_lt}
use mathlib.Core.List.{append_assoc, append-nil}
use gektor.Bars.{
  Row, blank_row, Engine, Split, next_ema, closed_row, close_bar, start_bar, touch, add_to_bar,
  split_round, split, ingest_trade,
}
use gektor.Bars.Loop.{round_rows, written, trade_rows, entering}

-- The ring holds the newest bars of the log; the slot ahead of them is cleared.
pub record IsLog (log : List Row) (e : Engine) : Type 0 where
  pub room : 0 < e.capacity
  pub filled : length e.buf ≡ e.capacity
  pub counted : e.bar_count ≡ length log
  pub at_head : e.head ≡ e.bar_count % e.capacity
  pub cleared : (get_or e.buf e.head blank_row).dollar_vol ≡ 0
  pub kept :
      (i : ℕ)
      → i < e.bar_count
      → e.bar_count < i + e.capacity
      → get_or e.buf (i % e.capacity) blank_row ≡ get_or log i blank_row

get_or-append_left :
    (xs ys : List Row) (i : ℕ)
    → i < length xs
    → get_or (xs ++ ys) i blank_row ≡ get_or xs i blank_row
get_or-append_left [] ys i h = elim h [ ]
get_or-append_left (x ∷ xs) ys zero h = refl
get_or-append_left (x ∷ xs) ys (suc i) h = get_or-append_left xs ys i (omega arith)

get_or-append_last : (xs : List Row) (r : Row) → get_or (xs ++ (r ∷ [])) (length xs) blank_row ≡ r
get_or-append_last [] r = refl
get_or-append_last (x ∷ xs) r = get_or-append_last xs r

next_slot : (n c : ℕ) → 0 < c → (n % c + 1) % c ≡ (n + 1) % c
next_slot n c p = mod-add-mod n c 1

-- A trade that enters the open bar writes no more than the mark of the slot ahead.
opened-IsLog :
    (ts price n : ℕ) (log : List Row) (e : Engine)
    → IsLog log e
    → IsLog log (touch price (start_bar ts price n e))
unfolding touch start_bar
opened-IsLog ts price n log e h =
    let p : e.head < length e.buf = omega (arith, mod-lt e.bar_count h.room, h.filled, h.at_head) in
    elim (Bool-cases (e.bar.trade_count == 0)) [
      | inl z ↦ rw z (record {
        room = h.room;
        filled = length-set e.buf e.head _ ∙ h.filled;
        counted = h.counted;
        at_head = h.at_head;
        cleared =
            ap (λ (r : Row). r.dollar_vol) (get_or-set_self e.buf e.head _ blank_row p) ∙ h.cleared;
        kept = λ i l u.
            get_or-set_other e.buf e.head (i % e.capacity) _ blank_row
              (λ s. slots-apart i e.bar_count e.capacity l u (sym s ∙ h.at_head))
            ∙ h.kept i l u;
      })
      | inr z ↦ rw z (record {
        room = h.room;
        filled = h.filled;
        counted = h.counted;
        at_head = h.at_head;
        cleared = h.cleared;
        kept = h.kept;
      })
    ]

close_bar-IsLog :
    (ts : ℕ) (log : List Row) (e : Engine)
    → IsLog log e
    → IsLog
        (log
          ++ (closed_row ts (next_ema e.ema_alpha_num e.ema_alpha_den e.bar.close e.stats.ema) e
              ∷ []))
        (close_bar ts e)
unfolding close_bar
close_bar-IsLog ts log e h =
    let row = closed_row ts (next_ema e.ema_alpha_num e.ema_alpha_den e.bar.close e.stats.ema) e in
    let c = e.capacity in
    let p : e.head < length e.buf = omega (arith, mod-lt e.bar_count h.room, h.filled, h.at_head) in
    let next : (e.head + 1) % c ≡ (e.bar_count + 1) % c =
      rw h.at_head (next_slot e.bar_count c h.room) in
    let q : (e.head + 1) % c < length (set e.buf e.head row) =
      omega (arith, mod-lt (e.head + 1) h.room, h.filled, length-set e.buf e.head row) in
    record {
      room = h.room;
      filled =
          length-set (set e.buf e.head row) _ blank_row ∙ length-set e.buf e.head row ∙ h.filled;
      counted = omega (arith, length-append log (row ∷ []), h.counted);
      at_head = next;
      cleared =
          ap (λ (r : Row). r.dollar_vol)
            (get_or-set_self (set e.buf e.head row) _ blank_row blank_row q);
      kept = λ i l u.
          get_or-set_other (set e.buf e.head row) _ (i % c) blank_row blank_row
            (λ s. slots-apart i (e.bar_count + 1) c l u (sym s ∙ next))
          ∙ elim (dec_lt i e.bar_count) [
            | yes m ↦
                get_or-set_other e.buf e.head (i % c) row blank_row
                  (λ s. slots-apart i e.bar_count c m (omega arith) (sym s ∙ h.at_head))
                ∙ h.kept i m (omega arith)
                ∙ sym (get_or-append_left log (row ∷ []) i (omega (arith, h.counted)))
            | no m ↦
                let z : i ≡ e.bar_count = omega arith in
                let z2 : i ≡ length log = omega (arith, h.counted) in
                let a : get_or (set e.buf e.head row) (i % c) blank_row ≡ row =
                  subst (λ (t : ℕ). get_or (set e.buf e.head row) t blank_row ≡ row)
                    (h.at_head ∙ ap (λ (t : ℕ). t % c) (sym z))
                    (get_or-set_self e.buf e.head row blank_row p) in
                let b : get_or (log ++ (row ∷ [])) i blank_row ≡ row =
                  rw z2 (get_or-append_last log row) in
                a ∙ sym b
          ];
    }

add-IsLog :
    (dollar qty : ℕ) (log : List Row) (e : Engine)
    → IsLog log e
    → IsLog log (add_to_bar dollar qty e)
add-IsLog dollar qty log e h = record {
  room = h.room;
  filled = h.filled;
  counted = h.counted;
  at_head = h.at_head;
  cleared = h.cleared;
  kept = h.kept;
}

round-IsLog :
    (ts price : ℕ) (s : Split) (log : List Row)
    → IsLog log s.engine
    → IsLog (log ++ round_rows ts price s) (split_round ts price s).engine
unfolding split_round round_rows
round-IsLog ts price s log h =
    let e = touch price (start_bar ts price s.bars_produced s.engine) in
    let needed = e.threshold - e.bar.dollar_acc in
    let chunk = s.remaining_qty * needed / s.remaining_dollar in
    let o = opened-IsLog ts price s.bars_produced log s.engine h in
    elim (Bool-cases (leb needed s.remaining_dollar)) [
      | inl z ↦
          rw z (close_bar-IsLog ts log (add_to_bar needed chunk e) (add-IsLog needed chunk log e o))
      | inr z ↦ rw (z, append-nil log) (add-IsLog s.remaining_dollar s.remaining_qty log e o)
    ]

split-IsLog :
    (fuel ts price : ℕ) (s : Split) (log : List Row)
    → IsLog log s.engine
    → IsLog (log ++ written fuel ts price s) (split fuel ts price s).engine
unfolding split written
split-IsLog zero ts price s log h = rw (append-nil log) h
split-IsLog (suc fuel) ts price s log h = elim (Bool-cases (s.remaining_dollar == 0)) [
  | inl z ↦ rw (z, append-nil log) h
  | inr z ↦
      rw
        (
          z,
          ← append_assoc log (round_rows ts price s)
              (written fuel ts price (split_round ts price s)),
        )
        (split-IsLog fuel ts price (split_round ts price s) (log ++ round_rows ts price s)
          (round-IsLog ts price s log h))
]

pub ingest_trade-IsLog :
    (price qty ts : ℕ) (e : Engine) (log : List Row)
    → IsLog log e
    → IsLog (log ++ trade_rows price qty ts e) (ingest_trade price qty ts e).0
unfolding ingest_trade trade_rows
ingest_trade-IsLog price qty ts e log h = elim (Bool-cases (price == 0 || qty == 0)) [
  | inl z ↦ rw (z, append-nil log) h
  | inr z ↦ elim (Bool-cases (price * qty / e.scale == 0)) [
    | inl y ↦ rw (z, y, append-nil log) h
    | inr y ↦
        rw (z, y) (split-IsLog (price * qty / e.scale + 1) ts price (entering price qty e) log h)
  ]
]
