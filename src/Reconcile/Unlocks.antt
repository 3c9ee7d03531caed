-- ===== src/Reconcile/Unlocks.antt =====
-- src/application/reconnect_reconciler.py: what is left in purgatory after a reconciliation.
use gektor.Base.{
  ℕ, ◌≡◌, refl, sym, ◌∙◌, subst, true, Option, none, some, List, [], ◌∷◌, map, String, str_eq,
  eq_iff, is_some, is_some-cases, All, arith, Option-cases, Bool-cases, inl, inr, ◌⊎◌, Float,
}
use mathlib.Core.Option.{some-injective}
use gektor.Base.Dicts.{Dict, lookup, IsDict}
use gektor.Shadow.{PurgatoryOrder, Ledger, new, get_purgatory_orders, orders_of}
use gektor.Shadow.History.{Call, run}
use gektor.Shadow.Waits.{run-IsDict}
use gektor.Reconcile.{
  Answer, Attempt, Exchange, Reconciler, PositionQuery, Holding, compare_position, resolve_each,
  arbitrate_symbols, arbitrate_orders, position_arbitration, reconcile_orders, reconcile,
}
use gektor.Reconcile.Traces.{
  Trace, AttemptAllowed, AnswerAllowed, HoldingsAllowed, resolve_each-Trace,
  arbitrate_symbols-Trace, compare_position-Trace,
}
use gektor.Reconcile.Keyed.{IsKeyed, run-IsKeyed}
use gektor.Reconcile.Gone.{
  IsQuiet, IsGone, Lists, Trace-IsGone, compare_position-IsGone, All-IsQuiet, Trace-IsDict,
}

-- The text is in the list.
abbrev pub Holds : String → List String → Type 0
Holds s [] = ⊥
Holds s (t ∷ rest) = (s ≡ t) ⊎ Holds s rest

module _ {R : Type 0} where
  abbrev pub symbol_of : PurgatoryOrder R → String
  symbol_of o = o.symbol

  -- While the attempt lasts no order is sent.
  pub record IsCalm (a : Attempt R) : Type 0 where
    pub asked : All IsQuiet a.while_asked
    pub asleep : All IsQuiet a.while_asleep

  -- The position comes, and no order is sent meanwhile.
  pub record IsKnown (q : PositionQuery R) : Type 0 where
    pub meanwhile : All IsQuiet q.meanwhile
    pub known : is_some q.holdings ≡ true

  none_left : (d : Dict (PurgatoryOrder R)) → ((k : String) → lookup k d ≡ none) → d ≡ []
  unfolding lookup
  none_left [] h = refl
  none_left ((k, o) ∷ d) h = absurd (let e = h k in ground (arith, eq_iff k k))

  no_orders_left : (d : Dict (PurgatoryOrder R)) → orders_of none d ≡ [] → d ≡ []
  unfolding orders_of
  no_orders_left [] e = refl
  no_orders_left ((k, o) ∷ d) e = absurd (cc)

  snapshot-Lists :
      (k : String) (o : PurgatoryOrder R) (d : Dict (PurgatoryOrder R))
      → IsKeyed d
      → lookup k d ≡ some o
      → Lists k o.symbol (orders_of none d) × Holds o.symbol (map symbol_of (orders_of none d))
  unfolding lookup orders_of
  snapshot-Lists k o [] h e = absurd (cc)
  snapshot-Lists k o ((j, p) ∷ d) h e = elim (Bool-cases (str_eq j k)) [
    | inl s ↦
        let z : p ≡ o = some-injective p o (rw s at e) in
        rw (← z) ((inl (h.0 ∙ (eq_iff j k).0 s, (eq_iff p.symbol p.symbol).1 refl), inl refl))
    | inr s ↦ let (a, b) = snapshot-Lists k o d h.1 (rw s at e) in (inr a, inr b)
  ]

module _ {R : Type 0} ⦃f : Float R⦄ where
  IsQuiet-AnswerAllowed : (a : Answer R) (id : String) → AnswerAllowed IsQuiet id a
  IsQuiet-AnswerAllowed Answer.failed id = tt
  IsQuiet-AnswerAllowed Answer.no_orders id = tt
  IsQuiet-AnswerAllowed (Answer.found status qty px) id = tt

  IsQuiet-HoldingsAllowed :
      (h : Option (List (Holding R))) (symbol : String) (orders : List (PurgatoryOrder R))
      → HoldingsAllowed IsQuiet symbol orders h
  IsQuiet-HoldingsAllowed none symbol orders = tt
  IsQuiet-HoldingsAllowed (some holdings) symbol orders = All-IsQuiet symbol orders

  pub Trace-IsKeyed :
      {P : Call R → Type 0} {l t : Ledger R}
      → Trace P l t
      → IsKeyed l.purgatory
      → IsKeyed t.purgatory
  Trace-IsKeyed {l} tr h =
      subst (λ (m : Ledger R). IsKeyed m.purgatory) (sym tr.outcome) (run-IsKeyed tr.calls l h)

  calm-orders :
      (x : Exchange R) (orders : List (PurgatoryOrder R))
      → ((id : String) (n : ℕ) → IsCalm (x.order_history id n))
      → All
          (λ (o : PurgatoryOrder R).
            (j : ℕ) → AttemptAllowed IsQuiet o.cl_ord_id (x.order_history o.cl_ord_id j))
          orders
  calm-orders x [] h = tt
  calm-orders x (o ∷ rest) h = (
    λ j. record {
      asked = (h o.cl_ord_id j).asked;
      answered = IsQuiet-AnswerAllowed (x.order_history o.cl_ord_id j).answer o.cl_ord_id;
      asleep = (h o.cl_ord_id j).asleep;
    },
    calm-orders x rest h,
  )

module _ {R : Type 0} ⦃f : Float R⦄ (x : Exchange R)
    (kept : (xs : List String) (s : String) → Holds s xs → Holds s (x.walk_set xs))
    (calm : (id : String) (n : ℕ) → IsCalm (x.order_history id n))
    (known : (s : String) → IsKnown (x.position_info s)) where
  arbitrate_symbols-IsQuiet :
      (symbols : List String) (remaining : List (PurgatoryOrder R)) (l : Ledger R)
      → Trace IsQuiet l (arbitrate_symbols x symbols remaining l)
  arbitrate_symbols-IsQuiet symbols remaining l =
      arbitrate_symbols-Trace x symbols remaining l (λ s. record {
        meanwhile = (known s).meanwhile;
        known = IsQuiet-HoldingsAllowed (x.position_info s).holdings s remaining;
      })

  compare-IsQuiet :
      (symbol k : String) (remaining : List (PurgatoryOrder R)) (l : Ledger R)
      → IsDict l.purgatory
      → Lists k symbol remaining
      → IsGone k (compare_position (x.position_info symbol).holdings symbol remaining l)
  compare-IsQuiet symbol k remaining l d h =
      let (holdings, e) = is_some-cases (x.position_info symbol).holdings (known symbol).known in
      rw e (compare_position-IsGone holdings symbol k remaining l d h)

  arbitrate_symbols-IsGone :
      (symbols : List String) (symbol k : String) (remaining : List (PurgatoryOrder R))
      (l : Ledger R)
      → IsDict l.purgatory
      → Lists k symbol remaining
      → Holds symbol symbols
      → IsGone k (arbitrate_symbols x symbols remaining l)
  unfolding arbitrate_symbols
  arbitrate_symbols-IsGone [] symbol k remaining l d h w = elim w [ ]
  arbitrate_symbols-IsGone (s ∷ rest) symbol k remaining l d h w =
      let q = x.position_info s in
      let m = run q.meanwhile l in
      let e = run-IsDict q.meanwhile l d in
      let t = compare_position q.holdings s remaining m in
      let c : Trace IsQuiet m t =
        compare_position-Trace q.holdings s remaining m
          (IsQuiet-HoldingsAllowed q.holdings s remaining) in
      elim w [
        | inl z ↦
            Trace-IsGone k (arbitrate_symbols-IsQuiet rest remaining t)
              (compare-IsQuiet s k remaining m e (rw (← z) h))
        | inr v ↦ arbitrate_symbols-IsGone rest symbol k remaining t (Trace-IsDict c e) h v
      ]

  arbitrate_orders-IsGone :
      (orders : List (PurgatoryOrder R)) (k : String) (l : Ledger R)
      → IsDict l.purgatory
      → (lookup k l.purgatory ≡ none)
        ⊎ ((s : String) × Lists k s orders × Holds s (map symbol_of orders))
      → IsGone k (arbitrate_orders x orders l)
  arbitrate_orders-IsGone [] k l d (inl e) = record { distinct = d; gone = e }
  arbitrate_orders-IsGone [] k l d (inr (s, h, w)) = elim h [ ]
  arbitrate_orders-IsGone (o ∷ rest) k l d (inl e) =
      Trace-IsGone k (arbitrate_symbols-IsQuiet _ (o ∷ rest) l) (record { distinct = d; gone = e })
  arbitrate_orders-IsGone (o ∷ rest) k l d (inr (s, h, w)) =
      arbitrate_symbols-IsGone (x.walk_set (map symbol_of (o ∷ rest))) s k (o ∷ rest) l d h
        (kept (map symbol_of (o ∷ rest)) s w)

  position_arbitration-empties :
      (l : Ledger R)
      → IsDict l.purgatory
      → IsKeyed l.purgatory
      → (position_arbitration x l).purgatory ≡ []
  unfolding position_arbitration get_purgatory_orders
  position_arbitration-empties l d h = none_left (position_arbitration x l).purgatory (λ k.
      (arbitrate_orders-IsGone (orders_of none l.purgatory) k l d
        (elim (Option-cases (lookup k l.purgatory)) [
          | inl e ↦ inl e
          | inr (o, e) ↦ let (a, b) = snapshot-Lists k o l.purgatory h e in inr (o.symbol, a, b)
        ])).gone)

  reconcile_orders-empties :
      (orders : List (PurgatoryOrder R)) (max_retries : ℕ) (l : Ledger R)
      → orders_of none l.purgatory ≡ orders
      → IsDict l.purgatory
      → IsKeyed l.purgatory
      → (reconcile_orders x orders max_retries l).0.purgatory ≡ []
  reconcile_orders-empties [] max_retries l e d h = no_orders_left l.purgatory e
  reconcile_orders-empties (o ∷ rest) max_retries l e d h =
      let tr : Trace IsQuiet l _ =
        resolve_each-Trace x max_retries (o ∷ rest) l (calm-orders x (o ∷ rest) calm) in
      position_arbitration-empties (resolve_each x max_retries (o ∷ rest) l).0 (Trace-IsDict tr d)
        (Trace-IsKeyed tr h)

  -- Over every history of a ledger that starts empty: if the exchange answers every question about a
  -- position, and other tasks send no order while the reconciliation waits, it leaves the purgatory
  -- empty, whatever the exchange answers about the orders or fails to.
  pub reconcile_empties :
      (before : List (Call R)) (limit : R) (r : Reconciler R)
      → r.ledger ≡ run before (new limit)
      → (reconcile x r).0.ledger.purgatory ≡ []
  unfolding reconcile get_purgatory_orders new
  reconcile_empties before limit r e =
      let d : IsDict r.ledger.purgatory = rw e (run-IsDict before (new limit) tt) in
      let h : IsKeyed r.ledger.purgatory = rw e (run-IsKeyed before (new limit) tt) in
      reconcile_orders-empties (orders_of none r.ledger.purgatory) r.max_retries r.ledger refl d h
