-- ===== src/Liquidity/Sweep/Runs.antt =====
-- src/domain/liquidity_detectors.py: the last ticks of a symbol, against what `SweepDetector` has
-- accumulated.
use gektor.Base.{
  ℕ, ◌+◌, ◌≡◌, refl, sym, ◌∙◌, ap, true, false, List, [], ◌∷◌, ◌++◌, String, str_eq, eq_iff,
  if◌then◌else◌, Bool-cases, inl, inr, arith, length, All, All-append, length-append, Float, ◌⊕◌,
  ◌⊖◌, ◌⊗◌, ◌≺◌,
}
use mathlib.Core.List.{append_assoc, append-nil}
use gektor.Liquidity.Alerts.{Direction, same_direction, Tick, aggressor}

module _ {R : Type 0} where
  -- The ticks of a symbol.
  unfoldable pub of_symbol : String → List (Tick R) → List (Tick R)
  of_symbol symbol [] = []
  of_symbol symbol (t ∷ ts) =
      let rest = of_symbol symbol ts in if str_eq t.symbol symbol then t ∷ rest else rest

  of_symbol-snoc :
      (symbol : String) (ts : List (Tick R)) (t : Tick R)
      → of_symbol symbol (ts ++ (t ∷ []))
        ≡ of_symbol symbol ts ++ (if str_eq t.symbol symbol then t ∷ [] else [])
  unfolding of_symbol
  of_symbol-snoc symbol [] t = refl
  of_symbol-snoc symbol (x ∷ ts) t = elim (Bool-cases (str_eq x.symbol symbol)) [
    | inl e ↦ rw e (ap (λ (l : List (Tick R)). x ∷ l) (of_symbol-snoc symbol ts t))
    | inr e ↦ rw e (of_symbol-snoc symbol ts t)
  ]

module _ {R : Type 0} ⦃f : Float R⦄ where
  -- The notional of the trades, summed from the first one on.
  unfoldable pub total : R → List (Tick R) → R
  total sum [] = sum
  total sum (t ∷ ts) = total (sum ⊕ t.price ⊗ t.size) ts

  total-snoc :
      (sum : R) (ts : List (Tick R)) (t : Tick R)
      → total sum (ts ++ (t ∷ [])) ≡ total sum ts ⊕ t.price ⊗ t.size
  unfolding total
  total-snoc sum [] t = refl
  total-snoc sum (x ∷ ts) t = total-snoc (sum ⊕ x.price ⊗ x.size) ts t

  -- A tick of the same side, and not past the window that starts at `first_ts`.
  abbrev pub Joins : Direction → R → R → Tick R → Type 0
  Joins direction first_ts window t =
      (same_direction direction (aggressor t.is_buyer_maker) ≡ true)
      × (window ≺ t.ts ⊖ first_ts ≡ false)

  -- The history of the symbol ends in this run: a first tick, and more of its side within the window.
  pub record IsRun (history : List (Tick R)) (window : R) (symbol : String) (direction : Direction)
      (notional : R) (count : ℕ) (first_ts : R) : Type 0 where
    pub before : List (Tick R)
    pub first : Tick R
    pub rest : List (Tick R)
    pub suffix : of_symbol symbol history ≡ before ++ (first ∷ rest)
    pub counted : count ≡ length (first ∷ rest)
    pub at_first : first_ts ≡ first.ts
    pub side : same_direction direction (aggressor first.is_buyer_maker) ≡ true
    pub joined : All (Joins direction first_ts window) rest
    pub summed : notional ≡ total (first.price ⊗ first.size) rest

  module _ (history : List (Tick R)) (t : Tick R) where
    own : str_eq t.symbol t.symbol ≡ true
    own = (eq_iff t.symbol t.symbol).1 refl

    pub keeps-IsRun :
        (window : R) (symbol : String) (direction : Direction) (notional : R) (count : ℕ)
        (first_ts : R)
        → str_eq t.symbol symbol ≡ false
        → IsRun history window symbol direction notional count first_ts
        → IsRun (history ++ (t ∷ [])) window symbol direction notional count first_ts
    keeps-IsRun window symbol direction notional count first_ts e r = record {
      before = r.before;
      first = r.first;
      rest = r.rest;
      suffix =
          of_symbol-snoc symbol history t ∙ rw e (append-nil (of_symbol symbol history)) ∙ r.suffix;
      counted = r.counted;
      at_first = r.at_first;
      side = r.side;
      joined = r.joined;
      summed = r.summed;
    }

    same_direction_self : (d : Direction) → same_direction d d ≡ true
    same_direction_self Direction.buy = refl
    same_direction_self Direction.sell = refl

    pub starts-IsRun :
        (window : R)
        → IsRun
            (history ++ (t ∷ []))
            window
            t.symbol
            (aggressor t.is_buyer_maker)
            (t.price ⊗ t.size)
            1
            t.ts
    unfolding total
    starts-IsRun window = record {
      before = of_symbol t.symbol history;
      first = t;
      rest = [];
      suffix = of_symbol-snoc t.symbol history t ∙ rw own;
      counted = refl;
      at_first = refl;
      side = same_direction_self (aggressor t.is_buyer_maker);
      joined = tt;
      summed = refl;
    }

    pub grows-IsRun :
        (window : R) (direction : Direction) (notional : R) (count : ℕ) (first_ts : R)
        → Joins direction first_ts window t
        → IsRun history window t.symbol direction notional count first_ts
        → IsRun
            (history ++ (t ∷ []))
            window
            t.symbol
            direction
            (notional ⊕ t.price ⊗ t.size)
            (count + 1)
            first_ts
    grows-IsRun window direction notional count first_ts j r = record {
      before = r.before;
      first = r.first;
      rest = r.rest ++ (t ∷ []);
      suffix =
          of_symbol-snoc t.symbol history t
          ∙ rw (own, r.suffix) (append_assoc r.before (r.first ∷ r.rest) (t ∷ []));
      counted = omega (arith, r.counted, length-append r.rest (t ∷ []));
      at_first = r.at_first;
      side = r.side;
      joined = All-append (Joins direction first_ts window) r.rest (t ∷ []) r.joined (j, tt);
      summed =
          ap (λ (x : R). x ⊕ t.price ⊗ t.size) r.summed
          ∙ sym (total-snoc (r.first.price ⊗ r.first.size) r.rest t);
    }
