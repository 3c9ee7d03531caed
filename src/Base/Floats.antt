-- ===== src/Base/Floats.antt =====
-- Python's `float` is not modelled bit by bit: a component takes the type `R` and the operations
-- that it uses. Only the facts about them that a theorem needs are stated, as hypotheses.
use Prim.Native.Nat.{ℕ, ◌+◌, ◌-◌, ◌*◌, ◌/◌, ◌^◌}
use mathlib.Core.Bool.{Bool, not}
use gektor.Base.Tests.{ltb, ◌==◌, if◌then◌else◌}

pub record Float (R : Type 0) : Type 0 where
  pub plus : R → R → R
  pub minus : R → R → R
  pub times : R → R → R
  pub divide : R → R → R
  pub magnitude : R → R  -- `abs`
  pub less : R → R → Bool  -- `<`
  pub same : R → R → Bool  -- `==`
  pub of_int : ℕ → R
  pub lit : ℕ → ℕ → R  -- `lit n k` is the literal n * 10^-k
  pub round : R → ℕ → R  -- `round(x, digits)`

module _ {R : Type 0} ⦃f : Float R⦄ where
  open f use {plus, minus, times, divide, less, same, lit}

  infixl 65 ◌⊕◌ ◌⊖◌
  infixl 70 ◌⊗◌ ◌⊘◌
  infix 50 ◌≺◌ ◌≼◌ ◌≐◌
  abbrev pub ◌⊕◌ : R → R → R
  a ⊕ b = plus a b

  abbrev pub ◌⊖◌ : R → R → R
  a ⊖ b = minus a b

  abbrev pub ◌⊗◌ : R → R → R
  a ⊗ b = times a b

  abbrev pub ◌⊘◌ : R → R → R
  a ⊘ b = divide a b

  abbrev pub ◌≺◌ : R → R → Bool
  a ≺ b = less a b

  abbrev pub ◌≐◌ : R → R → Bool
  a ≐ b = same a b

  -- `a <= b`. (No NaN reaches these comparisons.)
  abbrev pub ◌≼◌ : R → R → Bool
  a ≼ b = not (less b a)

  abbrev pub nought : R
  nought = lit 0 0

  -- Python's `min(a, b)` and `max(a, b)`: the first argument unless the second beats it.
  abbrev pub min_of : R → R → R
  min_of a b = if less b a then b else a

  abbrev pub max_of : R → R → R
  max_of a b = if less a b then b else a

-- Floats that count thousandths and stop at 0: enough to run the examples.
instance abbrev pub milli : Float ℕ
milli = record {
  plus = λ a b. a + b;
  minus = λ a b. a - b;
  times = λ a b. a * b / 1000;
  divide = λ a b. a * 1000 / b;
  magnitude = λ a. a;
  less = ltb;
  same = ◌==◌;
  of_int = λ n. n * 1000;
  lit = λ n k. n * 1000 / 10 ^ k;
  round = λ a d. a;
}
