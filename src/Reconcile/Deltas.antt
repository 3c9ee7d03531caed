-- ===== src/Reconcile/Deltas.antt =====
-- src/application/reconnect_reconciler.py: what the arbitration books on the orders of a symbol.
use gektor.Base.{
  ◌≡◌, refl, ◌∙◌, ap, Bool, Bool-cases, inl, inr, true, false, Option, none, some, List, [], ◌∷◌,
  String, str_eq, eq_iff, if◌then◌else◌, All, Float, ◌⊕◌, ◌⊖◌, ◌≺◌, nought, min_of, max_of, upper,
  is_one_of,
}
use gektor.Base.Dicts.{
  Dict, lookup, insert, erase, IsDict, lookup-insert, lookup-erase, erase-IsDict,
}
use gektor.Shadow.{
  PurgatoryOrder, Position, Ledger, audit, fate_of, merged, merge_confirmed, collapse, position_or,
  reconcile_found, reconcile_order, mark_never_received, get_shadow_position,
}
use gektor.Reconcile.{Holding, attribute, settle_symbol, compare_position, exchange_position}
use gektor.Reconcile.Gone.{Lists, compare_position-IsGone}

module _ {R : Type 0} ⦃f : Float R⦄ where
  forget_one :
      (differs hit : Bool) (size px confirmed : R) (o : PurgatoryOrder R) (l : Ledger R)
      → confirmed ≺ size ≡ false
      → (if hit
          then (if differs
              then attribute size px confirmed o l
              else (mark_never_received o.cl_ord_id l).0)
          else l).confirmed
        ≡ l.confirmed
  unfolding attribute mark_never_received audit
  forget_one differs false size px confirmed o l e = refl
  forget_one true true size px confirmed o l e = rw e refl
  forget_one false true size px confirmed o l e = refl

  settle_symbol-keeps :
      (differs : Bool) (symbol : String) (size px confirmed : R)
      (remaining : List (PurgatoryOrder R)) (l : Ledger R)
      → confirmed ≺ size ≡ false
      → (settle_symbol differs symbol size px confirmed remaining l).confirmed ≡ l.confirmed
  unfolding settle_symbol
  settle_symbol-keeps differs symbol size px confirmed [] l e = refl
  settle_symbol-keeps differs symbol size px confirmed (o ∷ rest) l e =
      settle_symbol-keeps differs symbol size px confirmed rest _ e
      ∙ forget_one differs (str_eq o.symbol symbol) size px confirmed o l e

  compare_position-keeps :
      (holdings : List (Holding R)) (symbol : String) (remaining : List (PurgatoryOrder R))
      (l : Ledger R)
      → (get_shadow_position symbol l).confirmed_qty ≺ (exchange_position symbol holdings).0 ≡ false
      → (compare_position (some holdings) symbol remaining l).confirmed ≡ l.confirmed
  unfolding compare_position
  compare_position-keeps holdings symbol remaining l e =
      let (size, px) = exchange_position symbol holdings in
      let confirmed = (get_shadow_position symbol l).confirmed_qty in
      settle_symbol-keeps (f.lit 1 8 ≺ f.magnitude (size ⊖ confirmed)) symbol size px confirmed
        remaining l e

  -- Where the exchange's position is not larger than the confirmed one, however much they differ, the
  -- comparison leaves every confirmed position as it is and takes each listed order of the symbol out
  -- of purgatory: a sell order that was filled is forgotten with its fill.
  pub smaller_position_ignored :
      (holdings : List (Holding R)) (symbol k : String) (remaining : List (PurgatoryOrder R))
      (l : Ledger R)
      → IsDict l.purgatory
      → Lists k symbol remaining
      → (get_shadow_position symbol l).confirmed_qty ≺ (exchange_position symbol holdings).0 ≡ false
      → let t = compare_position (some holdings) symbol remaining l in
        (t.confirmed ≡ l.confirmed) × (lookup k t.purgatory ≡ none)
  smaller_position_ignored holdings symbol k remaining l d h e = (
    compare_position-keeps holdings symbol remaining l e,
    (compare_position-IsGone holdings symbol k remaining l d h).gone,
  )

  abbrev pub is_buy : PurgatoryOrder R → Bool
  is_buy o = is_one_of (upper o.side) ("BUY" ∷ [])

  -- The listed orders of a symbol.
  abbrev pub orders_of : String → List (PurgatoryOrder R) → List (PurgatoryOrder R)
  orders_of symbol [] = []
  orders_of symbol (o ∷ rest) =
      let later = orders_of symbol rest in if str_eq o.symbol symbol then o ∷ later else later

  -- The order stands in purgatory under its id.
  abbrev pub Waiting : Ledger R → PurgatoryOrder R → Type 0
  Waiting l o = lookup o.cl_ord_id l.purgatory ≡ some o

  -- No two orders have one id.
  abbrev pub IsApart : List (PurgatoryOrder R) → Type 0
  IsApart [] = Unit
  IsApart (o ∷ rest) =
      All (λ (p : PurgatoryOrder R). str_eq o.cl_ord_id p.cl_ord_id ≡ false) rest × IsApart rest

  -- A quantity after an order has had the difference, up to its own quantity.
  abbrev pub with_one : R → R → PurgatoryOrder R → R
  with_one gap qty o =
      let part = min_of o.qty gap in
      if nought ≺ part then (if is_buy o then qty ⊕ part else max_of nought (qty ⊖ part)) else qty

  -- The quantity after each order has had the difference.
  abbrev pub with_each : R → R → List (PurgatoryOrder R) → R
  with_each gap qty [] = qty
  with_each gap qty (o ∷ rest) = with_each gap (with_one gap qty o) rest

  abbrev pub confirmed_of : String → Ledger R → R
  confirmed_of symbol l = (position_or (lookup symbol l.confirmed)).qty

  merged-qty :
      (qty px : R) (o : PurgatoryOrder R) (pos : Position R)
      → (merged o.side qty px pos).qty
        ≡ (if is_buy o then pos.qty ⊕ qty else max_of nought (pos.qty ⊖ qty))
  unfolding merged
  merged-qty qty px o pos = elim (Bool-cases (is_buy o)) [ inl y ↦ rw y refl | inr y ↦ rw y refl ]

  inserted :
      (symbol : String) (p : Position R) (d : Dict (Position R))
      → lookup symbol (insert symbol p d) ≡ some p
  inserted symbol p d = rw (lookup-insert symbol symbol p d, (eq_iff symbol symbol).1 refl)

  merged_confirmed :
      (symbol : String) (qty px : R) (o : PurgatoryOrder R) (l : Ledger R)
      → o.symbol ≡ symbol
      → let t = merge_confirmed o.symbol o.side qty px l in
        (confirmed_of symbol t ≡ (
          if is_buy o
          then confirmed_of symbol l ⊕ qty
          else max_of nought (confirmed_of symbol l ⊖ qty)))
        × (t.purgatory ≡ l.purgatory)
  unfolding merge_confirmed
  merged_confirmed symbol qty px o l same =
      let pos = position_or (lookup symbol l.confirmed) in
      rw same (
        (
          ap (λ (r : Option (Position R)). (position_or r).qty)
                (inserted symbol (merged o.side qty px pos) l.confirmed)
              ∙ merged-qty qty px o pos,
          refl,
        ))

  filled_found :
      (symbol : String) (gap px : R) (o : PurgatoryOrder R) (l : Ledger R)
      → o.symbol ≡ symbol
      → let t = (reconcile_found (some o) o.cl_ord_id "Filled" (min_of o.qty gap) px l).0 in
        (confirmed_of symbol t ≡ with_one gap (confirmed_of symbol l) o)
        × (t.purgatory ≡ erase o.cl_ord_id l.purgatory)
  unfolding reconcile_found collapse audit fate_of
  filled_found symbol gap px o l same =
      let gone = record l { purgatory = erase o.cl_ord_id l.purgatory } in
      elim (Bool-cases (nought ≺ min_of o.qty gap)) [
        | inl y ↦ rw y (merged_confirmed symbol (min_of o.qty gap) px o gone same)
        | inr y ↦ rw y ((refl, refl))
      ]

  attribute-with_one :
      (symbol : String) (size px confirmed : R) (o : PurgatoryOrder R) (l : Ledger R)
      → confirmed ≺ size ≡ true
      → o.symbol ≡ symbol
      → Waiting l o
      → let t = attribute size px confirmed o l in
        (confirmed_of symbol t ≡ with_one (size ⊖ confirmed) (confirmed_of symbol l) o)
        × (t.purgatory ≡ erase o.cl_ord_id l.purgatory)
  unfolding attribute reconcile_order
  attribute-with_one symbol size px confirmed o l e same waits =
      rw (e, waits) (filled_found symbol (size ⊖ confirmed) px o l same)

  still-Waiting :
      (o : PurgatoryOrder R) (l t : Ledger R) (rest : List (PurgatoryOrder R))
      → IsDict l.purgatory
      → t.purgatory ≡ erase o.cl_ord_id l.purgatory
      → All (λ (p : PurgatoryOrder R). str_eq o.cl_ord_id p.cl_ord_id ≡ false) rest
      → All (Waiting l) rest
      → All (Waiting t) rest
  still-Waiting o l t [] d e a h = tt
  still-Waiting o l t (p ∷ rest) d e a h = (
    rw (e, lookup-erase o.cl_ord_id p.cl_ord_id l.purgatory d, a.0) h.0,
    still-Waiting o l t rest d e a.1 h.1,
  )

  settle_symbol-with_each :
      (symbol : String) (size px confirmed : R) (orders : List (PurgatoryOrder R)) (l : Ledger R)
      → IsDict l.purgatory
      → confirmed ≺ size ≡ true
      → IsApart (orders_of symbol orders)
      → All (Waiting l) (orders_of symbol orders)
      → confirmed_of symbol (settle_symbol true symbol size px confirmed orders l)
        ≡ with_each (size ⊖ confirmed) (confirmed_of symbol l) (orders_of symbol orders)
  unfolding settle_symbol
  settle_symbol-with_each symbol size px confirmed [] l d e a h = refl
  settle_symbol-with_each symbol size px confirmed (o ∷ rest) l d e a h =
      elim (Bool-cases (str_eq o.symbol symbol)) [
        | inl y ↦
            let a2 = rw y at a in
            let h2 = rw y at h in
            let t = attribute size px confirmed o l in
            let (booked, left) =
              attribute-with_one symbol size px confirmed o l e ((eq_iff o.symbol symbol).0 y)
                h2.0 in
            rw y (
              settle_symbol-with_each symbol size px confirmed rest t
                (rw left (erase-IsDict o.cl_ord_id l.purgatory d)) e a2.1
                (still-Waiting o l t (orders_of symbol rest) d left a2.0 h2.1)
              ∙ ap (λ (q : R). with_each (size ⊖ confirmed) q (orders_of symbol rest)) booked)
        | inr y ↦
            rw y
              (settle_symbol-with_each symbol size px confirmed rest l d e (rw y at a) (rw y at h))
      ]

  -- Where the exchange's position of a symbol is larger than the confirmed one by more than the
  -- tolerance, and the listed orders of the symbol are in purgatory, each under an id of its own, and no
  -- id stands there twice: each of them gets the whole difference, up to its own quantity, whatever orders of other symbols are listed.
  -- A purchase adds it to the confirmed quantity, any other order takes it off, down to 0, and a part
  -- that is not positive counts for nothing. Two waiting purchases book the difference twice.
  pub delta_for_each :
      (holdings : List (Holding R)) (symbol : String) (size px confirmed : R)
      (orders : List (PurgatoryOrder R)) (l : Ledger R)
      → IsDict l.purgatory
      → exchange_position symbol holdings ≡ (size, px)
      → (get_shadow_position symbol l).confirmed_qty ≡ confirmed
      → f.lit 1 8 ≺ f.magnitude (size ⊖ confirmed) ≡ true
      → confirmed ≺ size ≡ true
      → IsApart (orders_of symbol orders)
      → All (Waiting l) (orders_of symbol orders)
      → (get_shadow_position symbol
          (compare_position (some holdings) symbol orders l)).confirmed_qty
        ≡ with_each (size ⊖ confirmed) confirmed (orders_of symbol orders)
  unfolding compare_position get_shadow_position
  delta_for_each holdings symbol size px confirmed orders l d p c gap more a h =
      rw (p, c, gap)
        (settle_symbol-with_each symbol size px confirmed orders l d more a h
          ∙ ap (λ (q : R). with_each (size ⊖ confirmed) q (orders_of symbol orders)) c)
