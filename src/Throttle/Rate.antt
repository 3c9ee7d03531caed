-- ===== src/Throttle/Rate.antt =====
-- src/infrastructure/gektor_l2/reconnect_throttle.py: what the bucket grants, against its burst and
-- its rate.
use gektor.Base.{
  ◌≡◌, refl, sym, subst, true, Option, none, some, List, [], ◌∷◌, Bool-cases, inl, inr, Float, ◌⊕◌,
  ◌⊖◌, ◌⊗◌, ◌⊘◌, ◌≺◌, ◌≼◌, nought, min_of, arith,
}
use mathlib.Core.Option.{some-injective}
use gektor.Throttle.{TokenBucket, new_bucket, refill, try_acquire, acquire_all, granted_with}

-- The arithmetic does not round.
pub record IsLinear (R : Type 0) ⦃f : Float R⦄ : Type 0 where
  pub chain : (a b c : R) → a ≼ b ≡ true → b ≼ c ≡ true → a ≼ c ≡ true
  pub weaken : (a b : R) → a ≺ b ≡ true → a ≼ b ≡ true
  pub slack : (a : R) → a ≼ a ⊕ f.lit 1 12 ≡ true
  pub self : (a : R) → a ≼ a ≡ true
  pub left_mono : (a b c : R) → a ≼ b ≡ true → a ⊕ c ≼ b ⊕ c ≡ true
  pub right_mono : (a b c : R) → b ≼ c ≡ true → a ⊕ b ≼ a ⊕ c ≡ true
  pub assoc : (a b c : R) → a ⊕ (b ⊕ c) ≡ a ⊕ b ⊕ c
  pub zero_plus : (a : R) → nought ⊕ a ≡ a
  pub move_over : (g c t : R) → g ⊕ c ⊕ (t ⊖ c) ≡ g ⊕ t
  pub left_over : (c t e : R) → c ≼ t ⊕ e ≡ true → nought ≼ (t ⊖ c) ⊕ e ≡ true
  pub spread : (c s u n r : R) → c ⊕ (u ⊖ s) ⊗ r ⊕ (n ⊖ u) ⊗ r ≡ c ⊕ (n ⊖ s) ⊗ r
  pub grows : (t s n r : R) → s ≼ n ≡ true → nought ≼ r ≡ true → t ≼ t ⊕ (n ⊖ s) ⊗ r ≡ true

module _ {R : Type 0} ⦃f : Float R⦄ where
  -- The costs that were granted, from a first sum on.
  abbrev pub spent : R → List R → R
  spent total [] = total
  spent total (cost ∷ rest) = spent (total ⊕ cost) rest

  -- The clock of each round is not before that of the round before it.
  abbrev pub Ordered : R → List (R × R) → Type 0
  Ordered last [] = Unit
  Ordered last ((cost, now) ∷ rest) = (last ≼ now ≡ true) × Ordered now rest

  -- What was granted and what is left stays within the burst and what the rate has added.
  pub record Keeps (burst rate start total : R) (b : TokenBucket R) : Type 0 where
    pub roof : b.capacity ≡ burst
    pub flow : b.rate ≡ rate
    pub fits : total ⊕ b.tokens ≼ burst ⊕ (b.updated_monotonic ⊖ start) ⊗ rate ≡ true
    pub floor : nought ≼ b.tokens ⊕ f.lit 1 12 ≡ true

  min-le_left : (a b : R) → IsLinear R → min_of a b ≼ a ≡ true
  min-le_left a b x = elim (Bool-cases (b ≺ a)) [
    | inl y ↦ rw y (x.weaken b a y)
    | inr y ↦ rw y (x.self a)
  ]

  min-le_right : (a b : R) → IsLinear R → min_of a b ≼ b ≡ true
  min-le_right a b x = elim (Bool-cases (b ≺ a)) [
    | inl y ↦ rw y (x.self b)
    | inr y ↦ let z : a ≼ b ≡ true = rw y refl in rw y z
  ]

  refill-Keeps :
      (burst rate start total now : R) (b : TokenBucket R)
      → IsLinear R
      → nought ≼ rate ≡ true
      → nought ≼ burst ⊕ f.lit 1 12 ≡ true
      → b.updated_monotonic ≼ now ≡ true
      → Keeps burst rate start total b
      → Keeps burst rate start total (refill now b)
  unfolding refill
  refill-Keeps burst rate start total now b x pos_rate pos_burst later h =
      let more = (now ⊖ b.updated_monotonic) ⊗ rate in
      let filled = b.tokens ⊕ more in
      rw (h.roof, h.flow)
        (record {
          roof = refl;
          flow = refl;
          fits =
              x.chain (total ⊕ min_of burst filled) (total ⊕ filled) _
                (x.right_mono total (min_of burst filled) filled (min-le_right burst filled x))
                (rw
                  (x.assoc total b.tokens more, ← x.spread burst start b.updated_monotonic now rate)
                  (x.left_mono (total ⊕ b.tokens) _ more h.fits));
          floor = elim (Bool-cases (filled ≺ burst)) [
            | inl y ↦ rw y (
                x.chain nought (b.tokens ⊕ f.lit 1 12) (filled ⊕ f.lit 1 12) h.floor (
                  x.left_mono b.tokens filled (f.lit 1 12)
                    (x.grows b.tokens b.updated_monotonic now rate later pos_rate)))
            | inr y ↦ rw y pos_burst
          ];
        })

  spend-Keeps :
      (burst rate start total cost : R) (b : TokenBucket R)
      → IsLinear R
      → cost ≼ b.tokens ⊕ f.lit 1 12 ≡ true
      → Keeps burst rate start total b
      → Keeps burst rate start (total ⊕ cost) (record b { tokens = b.tokens ⊖ cost })
  spend-Keeps burst rate start total cost b x enough h = record {
    roof = h.roof;
    flow = h.flow;
    fits = rw (x.move_over total cost b.tokens) h.fits;
    floor = x.left_over cost b.tokens (f.lit 1 12) enough;
  }

  -- The sum of what was granted with the outcome of one round.
  abbrev with_outcome : R → R → Option R → R
  with_outcome total cost none = total ⊕ cost
  with_outcome total cost (some wait) = total

  try_acquire-Keeps :
      (burst rate start total cost now : R) (b : TokenBucket R)
      → IsLinear R
      → nought ≼ rate ≡ true
      → nought ≼ burst ⊕ f.lit 1 12 ≡ true
      → b.updated_monotonic ≼ now ≡ true
      → Keeps burst rate start total b
      → let (c, wait) = try_acquire cost now b in
        Keeps burst rate start (with_outcome total cost wait) c
  unfolding try_acquire
  try_acquire-Keeps burst rate start total cost now b x pos_rate pos_burst later h =
      let filled = refill-Keeps burst rate start total now b x pos_rate pos_burst later h in
      elim (Bool-cases (cost ≼ (refill now b).tokens ⊕ f.lit 1 12)) [
        | inl y ↦ rw y (spend-Keeps burst rate start total cost (refill now b) x y filled)
        | inr y ↦ rw y filled
      ]

  tried-at : (cost now : R) (b : TokenBucket R) → (try_acquire cost now b).0.updated_monotonic ≡ now
  unfolding try_acquire refill
  tried-at cost now b = ground arith

  with-granted :
      (wait : Option R) (total cost : R) (granted : List R)
      → spent total (granted_with wait cost granted) ≡ spent (with_outcome total cost wait) granted
  with-granted none total cost granted = refl
  with-granted (some wait) total cost granted = refl

  acquire_all-Keeps :
      (burst rate start total : R) (rounds : List (R × R)) (b : TokenBucket R)
      → IsLinear R
      → nought ≼ rate ≡ true
      → nought ≼ burst ⊕ f.lit 1 12 ≡ true
      → Ordered b.updated_monotonic rounds
      → Keeps burst rate start total b
      → let (d, granted) = acquire_all rounds b in Keeps burst rate start (spent total granted) d
  unfolding acquire_all
  acquire_all-Keeps burst rate start total [] b x pos_rate pos_burst o h = h
  acquire_all-Keeps burst rate start total ((cost, now) ∷ rest) b x pos_rate pos_burst o h =
      let (c, wait) = try_acquire cost now b in
      let (d, granted) = acquire_all rest c in
      subst (λ (t : R). Keeps burst rate start t d) (sym (with-granted wait total cost granted))
        (acquire_all-Keeps burst rate start (with_outcome total cost wait) rest c x pos_rate
          pos_burst (subst (λ (t : R). Ordered t rest) (sym (tried-at cost now b)) o.1)
          (try_acquire-Keeps burst rate start total cost now b x pos_rate pos_burst o.0 h))

  bucket-parts :
      (burst rate start : R) (b : TokenBucket R)
      → new_bucket rate burst start ≡ some b
      → (nought ≺ rate ≡ true)
        × (nought ≺ burst ≡ true)
        × (b ≡ record { rate = rate; capacity = burst; tokens = burst; updated_monotonic = start })
  unfolding new_bucket
  bucket-parts burst rate start b e = elim (Bool-cases (nought ≺ rate)) [
    | inl p ↦ elim (Bool-cases (nought ≺ burst)) [
      | inl q ↦ (p, q, sym (some-injective _ b (rw (p, q) at e)))
      | inr q ↦ absurd (let z = rw (p, q) at e in cc)
    ]
    | inr p ↦ absurd (let z = rw p at e in cc)
  ]

  -- In arithmetic that does not round, over every history of rounds of a new bucket in the order of the
  -- clock: the costs that were granted, with the tokens that are left, are at most the burst and what
  -- the rate has added since the start; and what is left is at least -1e-12.
  pub granted_bound :
      (burst rate start : R) (rounds : List (R × R)) (b : TokenBucket R)
      → IsLinear R
      → new_bucket rate burst start ≡ some b
      → Ordered start rounds
      → let (d, granted) = acquire_all rounds b in
        (spent nought granted ⊕ d.tokens ≼ burst ⊕ (d.updated_monotonic ⊖ start) ⊗ rate ≡ true)
        × (nought ≼ d.tokens ⊕ f.lit 1 12 ≡ true)
  granted_bound burst rate start rounds b x e o =
      let (pos_rate, pos_burst, built) = bucket-parts burst rate start b e in
      let rate_up : nought ≼ rate ≡ true = x.weaken nought rate pos_rate in
      let burst_up : nought ≼ burst ⊕ f.lit 1 12 ≡ true =
        x.chain nought burst (burst ⊕ f.lit 1 12) (x.weaken nought burst pos_burst)
          (x.slack burst) in
      let first : Keeps burst rate start nought b = rw built (record {
        roof = refl;
        flow = refl;
        fits = rw (x.zero_plus burst) (x.grows burst start start rate (x.self start) rate_up);
        floor = burst_up;
      }) in
      let k =
        acquire_all-Keeps burst rate start nought rounds b x rate_up burst_up (rw built o) first in
      (k.fits, k.floor)

  -- Every cost of the list is above the burst by more than the tolerance of 1e-12.
  abbrev pub TooDear : R → List (R × R) → Type 0
  TooDear burst [] = Unit
  TooDear burst ((cost, now) ∷ rest) = (burst ⊕ f.lit 1 12 ≺ cost ≡ true) × TooDear burst rest

  refused :
      (cost now : R) (b : TokenBucket R)
      → IsLinear R
      → b.capacity ⊕ f.lit 1 12 ≺ cost ≡ true
      → (try_acquire cost now b ≡ (refill now b, some ((cost ⊖ (refill now b).tokens) ⊘ b.rate)))
        × ((refill now b).capacity ≡ b.capacity)
  unfolding try_acquire refill
  refused cost now b x dear =
      let filled = b.tokens ⊕ (now ⊖ b.updated_monotonic) ⊗ b.rate in
      let tokens = min_of b.capacity filled in
      elim (Bool-cases (cost ≼ tokens ⊕ f.lit 1 12)) [
        | inl y ↦ absurd (
            let z : cost ≼ b.capacity ⊕ f.lit 1 12 ≡ true =
              x.chain cost (tokens ⊕ f.lit 1 12) (b.capacity ⊕ f.lit 1 12) y
                (x.left_mono tokens b.capacity (f.lit 1 12) (min-le_left b.capacity filled x)) in
            let w = rw dear at z in cc)
        | inr y ↦ (rw y refl, refl)
      ]

  -- In arithmetic that does not round, a cost above the burst by more than the tolerance of 1e-12 is never
  -- granted: each of its rounds asks for another wait, whenever it comes, so that `acquire` does not
  -- return.
  pub costly_waits :
      (rounds : List (R × R)) (b : TokenBucket R)
      → IsLinear R
      → TooDear b.capacity rounds
      → (acquire_all rounds b).1 ≡ []
  unfolding acquire_all
  costly_waits [] b x h = refl
  costly_waits ((cost, now) ∷ rest) b x h =
      let (e, same) = refused cost now b x h.0 in
      rw e (costly_waits rest (refill now b) x (rw same h.1))
