-- ===== src/Conflation/Summary.antt =====
-- src/domain/conflation.py: the summary of the ticks of a bar, each field by a fold of its own.
use gektor.Base.{
  ◌+◌, ◌≡◌, refl, ap, Option, none, some, List, [], ◌∷◌, ◌++◌, if◌then◌else◌, arith, length,
  length-append, Float, ◌⊕◌, ◌⊗◌, nought, min_of, max_of,
}
use gektor.Conflation.{DollarBar, BarTick, opening_bar, touched, bar_or}

module _ {R : Type 0} ⦃f : Float R⦄ where
  -- Folds over ticks from the oldest one on.
  abbrev pub sum_of : (BarTick R → R) → R → List (BarTick R) → R
  sum_of g acc [] = acc
  sum_of g acc (t ∷ ts) = sum_of g (acc ⊕ g t) ts

  abbrev pub highest : R → List (BarTick R) → R
  highest acc [] = acc
  highest acc (t ∷ ts) = highest (max_of acc t.price) ts

  abbrev pub lowest : R → List (BarTick R) → R
  lowest acc [] = acc
  lowest acc (t ∷ ts) = lowest (min_of acc t.price) ts

  abbrev pub last_price : R → List (BarTick R) → R
  last_price acc [] = acc
  last_price acc (t ∷ ts) = last_price t.price ts

  abbrev pub usd : BarTick R → R
  usd t = t.price ⊗ t.size

  -- What the takers bought, and what they sold.
  abbrev pub taken : R → List (BarTick R) → R
  taken acc [] = acc
  taken acc (t ∷ ts) = taken (if t.is_buyer_maker then acc else acc ⊕ usd t) ts

  abbrev pub given : R → List (BarTick R) → R
  given acc [] = acc
  given acc (t ∷ ts) = given (if t.is_buyer_maker then acc ⊕ usd t else acc) ts

  -- The bar of the ticks, the first one given apart.
  abbrev pub summary : BarTick R → List (BarTick R) → DollarBar R
  summary t ts = record {
    symbol = t.symbol;
    first = t.price;
    high = highest t.price (t ∷ ts);
    low = lowest t.price (t ∷ ts);
    close = last_price t.price ts;
    volume_crypto = sum_of (λ (u : BarTick R). u.size) nought (t ∷ ts);
    volume_usd = sum_of usd nought (t ∷ ts);
    buy_volume_usd = taken nought (t ∷ ts);
    sell_volume_usd = given nought (t ∷ ts);
    tick_count = length (t ∷ ts);
    start_ts = t.exchange_ts;
    end_ts = nought;
  }

  -- The bar of the ticks, if there are any.
  abbrev pub bar_of : List (BarTick R) → Option (DollarBar R)
  bar_of [] = none
  bar_of (t ∷ ts) = some (summary t ts)

  sum-snoc :
      (g : BarTick R → R) (acc : R) (ts : List (BarTick R)) (u : BarTick R)
      → sum_of g acc (ts ++ (u ∷ [])) ≡ sum_of g acc ts ⊕ g u
  sum-snoc g acc [] u = refl
  sum-snoc g acc (t ∷ ts) u = sum-snoc g (acc ⊕ g t) ts u

  highest-snoc :
      (acc : R) (ts : List (BarTick R)) (u : BarTick R)
      → highest acc (ts ++ (u ∷ [])) ≡ max_of (highest acc ts) u.price
  highest-snoc acc [] u = refl
  highest-snoc acc (t ∷ ts) u = highest-snoc (max_of acc t.price) ts u

  lowest-snoc :
      (acc : R) (ts : List (BarTick R)) (u : BarTick R)
      → lowest acc (ts ++ (u ∷ [])) ≡ min_of (lowest acc ts) u.price
  lowest-snoc acc [] u = refl
  lowest-snoc acc (t ∷ ts) u = lowest-snoc (min_of acc t.price) ts u

  last-snoc :
      (acc : R) (ts : List (BarTick R)) (u : BarTick R) → last_price acc (ts ++ (u ∷ [])) ≡ u.price
  last-snoc acc [] u = refl
  last-snoc acc (t ∷ ts) u = last-snoc t.price ts u

  taken-snoc :
      (acc : R) (ts : List (BarTick R)) (u : BarTick R)
      → taken acc (ts ++ (u ∷ []))
        ≡ (if u.is_buyer_maker then taken acc ts else taken acc ts ⊕ usd u)
  taken-snoc acc [] u = refl
  taken-snoc acc (t ∷ ts) u = taken-snoc (if t.is_buyer_maker then acc else acc ⊕ usd t) ts u

  given-snoc :
      (acc : R) (ts : List (BarTick R)) (u : BarTick R)
      → given acc (ts ++ (u ∷ []))
        ≡ (if u.is_buyer_maker then given acc ts ⊕ usd u else given acc ts)
  given-snoc acc [] u = refl
  given-snoc acc (t ∷ ts) u = given-snoc (if t.is_buyer_maker then acc ⊕ usd t else acc) ts u

  length-snoc : (ts : List (BarTick R)) (u : BarTick R) → length (ts ++ (u ∷ [])) ≡ length ts + 1
  length-snoc ts u = length-append ts (u ∷ [])

  touched-summary :
      (t u : BarTick R) (ts : List (BarTick R))
      → touched u (summary t ts) ≡ summary t (ts ++ (u ∷ []))
  unfolding touched
  touched-summary t u ts =
      rw
        (
          highest-snoc (max_of t.price t.price) ts u,
          lowest-snoc (min_of t.price t.price) ts u,
          last-snoc t.price ts u,
          sum-snoc (λ (v : BarTick R). v.size) (nought ⊕ t.size) ts u,
          sum-snoc usd (nought ⊕ usd t) ts u,
          taken-snoc (if t.is_buyer_maker then nought else nought ⊕ usd t) ts u,
          given-snoc (if t.is_buyer_maker then nought ⊕ usd t else nought) ts u,
          length-snoc ts u,
        )
        (ground arith)

  -- A tick makes the bar of some ticks the bar of those with it.
  pub touched-bar_of :
      (u : BarTick R) (ts : List (BarTick R))
      → some (touched u (bar_or (bar_of ts) u)) ≡ bar_of (ts ++ (u ∷ []))
  unfolding touched opening_bar
  touched-bar_of u [] = refl
  touched-bar_of u (t ∷ ts) = ap (λ (b : DollarBar R). some b) (touched-summary t u ts)
