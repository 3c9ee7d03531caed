-- ===== src/Base/Wholes.antt =====
-- Floats that are whole numbers: exact, where an example needs subtraction below 0.
use Prim.Native.Nat.{ℕ, ◌+◌, ◌-◌, ◌*◌, ◌/◌, ◌^◌}
use mathlib.Core.Path.{◌≡◌}
use native.Mathlib.Omega.{arith}
use gektor.Base.Tests.{leb, if◌then◌else◌}
use gektor.Base.Integers.{ℤ, pos, negsuc, pos_part, neg_part, ltb_ℤ, eqb_ℤ}
use gektor.Base.Floats.{Float}

-- p - n
unfoldable pub of_parts : ℕ → ℕ → ℤ
of_parts p n = if leb n p then pos (p - n) else negsuc (n - p - 1)

pub of_parts_lem : (p n : ℕ) → pos_part (of_parts p n) + n ≡ p + neg_part (of_parts p n)
unfolding of_parts
of_parts_lem p n = ground arith

unfoldable pub plus : ℤ → ℤ → ℤ
plus a b = of_parts (pos_part a + pos_part b) (neg_part a + neg_part b)

unfoldable pub minus : ℤ → ℤ → ℤ
minus a b = of_parts (pos_part a + neg_part b) (neg_part a + pos_part b)

pub plus_lem :
    (a b : ℤ)
    → pos_part (plus a b) + (neg_part a + neg_part b)
      ≡ pos_part a + pos_part b + neg_part (plus a b)
unfolding plus
plus_lem a b = of_parts_lem (pos_part a + pos_part b) (neg_part a + neg_part b)

pub minus_lem :
    (a b : ℤ)
    → pos_part (minus a b) + (neg_part a + pos_part b)
      ≡ pos_part a + neg_part b + neg_part (minus a b)
unfolding minus
minus_lem a b = of_parts_lem (pos_part a + neg_part b) (neg_part a + pos_part b)

unfoldable pub times : ℤ → ℤ → ℤ
times a b =
    of_parts (pos_part a * pos_part b + neg_part a * neg_part b)
      (pos_part a * neg_part b + neg_part a * pos_part b)

pub times_lem :
    (a b : ℤ)
    → pos_part (times a b) + (pos_part a * neg_part b + neg_part a * pos_part b)
      ≡ pos_part a * pos_part b + neg_part a * neg_part b + neg_part (times a b)
unfolding times
times_lem a b =
    of_parts_lem (pos_part a * pos_part b + neg_part a * neg_part b)
      (pos_part a * neg_part b + neg_part a * pos_part b)

-- Whole numbers, with quotients of the positive ones.
instance abbrev pub whole : Float ℤ
whole = record {
  plus = plus;
  minus = minus;
  times = times;
  divide = λ a b. pos (pos_part a / pos_part b);
  magnitude = λ a. pos (pos_part a + neg_part a);
  less = ltb_ℤ;
  same = eqb_ℤ;
  of_int = λ n. pos n;
  lit = λ n k. pos (n / 10 ^ k);
  round = λ a d. a;
}
