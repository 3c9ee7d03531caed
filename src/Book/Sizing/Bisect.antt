-- ===== src/Book/Sizing/Bisect.antt =====
-- src/infrastructure/gektor_l2/nd_orderbook.py: the binary search for the affordable part of a
-- level.
use gektor.Base.{
  ℕ, zero, suc, ◌+◌, ◌-◌, ◌*◌, ◌/◌, ◌≤◌, ◌<◌, ◌≡◌, refl, ◌⊎◌, inl, inr, false, ltb, leb, arith,
  Bool-cases, ltb→lt,
}
use native.Mathlib.Decide.{dec_lt}
use gektor.Book.Sizing.{pay, bisect}

pay-zero : (p : ℕ) → pay p 0 ≡ 0
unfolding pay
pay-zero p = omega arith

pay_mono : (p a b : ℕ) → a ≤ b → pay p a ≤ pay p b
unfolding pay
pay_mono p a b h = let m : p * a ≤ p * b = grind arith in omega arith

positive : (p r m : ℕ) → leb (pay p m) r ≡ false → 0 < m
positive p r zero h = ground (arith, pay-zero p)
positive p r (suc m) h = omega arith

-- Once the interval is empty nothing above `best` is affordable.
settled :
    (p r lo hi best q : ℕ)
    → hi < lo
    → (lo ≡ 0) ⊎ (best + 1 ≡ lo)
    → ((n : ℕ) → hi < n → n ≤ q → r < pay p n)
    → (n : ℕ) → n ≤ q
    → pay p n ≤ r
    → n ≤ best
settled p r lo hi best q stop d g n l m = elim (dec_lt best n) [
  | yes past ↦ absurd (omega (arith, g n (omega arith) l))
  | no within ↦ omega arith
]

-- `best` is affordable and everything above the interval is not; below it, all up to `best` is.
bisect_lem :
    (fuel p r lo hi best q : ℕ)
    → hi + 1 < lo + fuel
    → pay p best ≤ r
    → (lo ≤ best + 1)
    → (lo ≡ 0) ⊎ (best + 1 ≡ lo)
    → hi ≤ q
    → best ≤ q
    → ((n : ℕ) → hi < n → n ≤ q → r < pay p n)
    → let b = bisect fuel p r lo hi best in
      (pay p b ≤ r) × (b ≤ q) × ((n : ℕ) → n ≤ q → pay p n ≤ r → n ≤ b)
unfolding bisect
bisect_lem zero p r lo hi best q a b c d e f g = (b, f, settled p r lo hi best q (omega arith) d g)
bisect_lem (suc fuel) p r lo hi best q a b c d e f g = elim (Bool-cases (ltb hi lo)) [
  | inl stop ↦ rw stop (b, f, settled p r lo hi best q (ltb→lt hi lo stop) d g)
  | inr more ↦ elim (Bool-cases (leb (pay p ((lo + hi) / 2)) r)) [
    | inl cheap ↦
        rw (more, cheap)
          (bisect_lem fuel p r ((lo + hi) / 2 + 1) hi ((lo + hi) / 2) q (ground arith)
            (ground arith) (omega arith) (inr (omega arith)) e (ground arith) g)
    | inr dear ↦
        let some_ : 0 < (lo + hi) / 2 = positive p r ((lo + hi) / 2) dear in
        rw (more, dear)
          (bisect_lem fuel p r lo ((lo + hi) / 2 - 1) best q (ground arith) b c d (ground arith) f
            (λ n l m. ground (arith, pay_mono p ((lo + hi) / 2) n)))
  ]
]

-- The search finds the largest part of the level that the remaining budget pays for.
pub bisect_max :
    (p r q : ℕ)
    → let b = bisect (q + 2) p r 0 q 0 in
      (pay p b ≤ r) × (b ≤ q) × ((n : ℕ) → n ≤ q → pay p n ≤ r → n ≤ b)
bisect_max p r q =
    bisect_lem (q + 2) p r 0 q 0 q (omega arith) (omega (arith, pay-zero p)) (omega arith)
      (inl refl) (omega arith) (omega arith) (λ n l m. absurd (omega arith))
