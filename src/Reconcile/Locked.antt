-- ===== src/Reconcile/Locked.antt =====
-- src/application/reconnect_reconciler.py: an order about which the exchange tells nothing.
use gektor.Base.{
  ℕ, ◌≡◌, ◌≢◌, refl, sym, ◌∙◌, subst, true, false, Option, none, some, List, [], ◌∷◌, map, String,
  str_eq, eq_iff, All, arith, Bool-cases, inl, inr, Float,
}
use mathlib.Core.Option.{some-injective}
use gektor.Base.Dicts.{Dict, lookup, IsDict}
use gektor.Shadow.{PurgatoryOrder, Ledger, new, get_purgatory_orders, orders_of, is_strike_allowed}
use gektor.Shadow.History.{Call, touches, run}
use gektor.Shadow.Waits.{Waits, run-IsDict, run-Waits, in_purgatory-found}
use gektor.Reconcile.{
  Answer, Attempt, Exchange, Reconciler, Holding, PositionQuery, resolve_each, arbitrate_orders,
  position_arbitration, reconcile_orders, reconcile,
}
use gektor.Reconcile.Traces.{
  Trace, Allows, AttemptAllowed, AnswerAllowed, HoldingsAllowed, stay, resolve_each-Trace,
  arbitrate_symbols-Trace,
}
use gektor.Reconcile.Keyed.{IsKeyed, run-IsKeyed}
use gektor.Reconcile.Gone.{Trace-IsDict}
use gektor.Reconcile.Unlocks.{Trace-IsKeyed, symbol_of}

module _ {R : Type 0} where
  abbrev Others : (k : String) (d : Dict (PurgatoryOrder R)) → Type 0
  Others k d = All (λ (o : PurgatoryOrder R). o.cl_ord_id ≢ k) (orders_of none d)

  absent-Others :
      (k : String) (d : Dict (PurgatoryOrder R)) → IsKeyed d → lookup k d ≡ none → Others k d
  unfolding lookup orders_of
  absent-Others k [] h e = tt
  absent-Others k ((j, p) ∷ d) h e = elim (Bool-cases (str_eq j k)) [
    | inl s ↦ absurd (let z = rw s at e in cc)
    | inr s ↦ (λ z. let t = (eq_iff j k).1 (sym h.0 ∙ z) in cc, absent-Others k d h.1 (rw s at e))
  ]

  -- Every order under the id is one of the symbol.
  abbrev Named : String → String → List (PurgatoryOrder R) → Type 0
  Named k symbol orders = All (λ (o : PurgatoryOrder R). o.cl_ord_id ≡ k → o.symbol ≡ symbol) orders

  Others-Named :
      (k symbol : String) (orders : List (PurgatoryOrder R))
      → All (λ (o : PurgatoryOrder R). o.cl_ord_id ≢ k) orders
      → Named k symbol orders
  Others-Named k symbol [] h = tt
  Others-Named k symbol (o ∷ rest) h = (λ e. absurd (h.0 e), Others-Named k symbol rest h.1)

  waiting-Named :
      (k symbol : String) (w : PurgatoryOrder R) (d : Dict (PurgatoryOrder R))
      → IsDict d
      → IsKeyed d
      → lookup k d ≡ some w
      → w.symbol ≡ symbol
      → Named k symbol (orders_of none d)
  unfolding lookup orders_of
  waiting-Named k symbol w [] u h e s = absurd (cc)
  waiting-Named k symbol w ((j, p) ∷ d) u h e s = elim (Bool-cases (str_eq j k)) [
    | inl t ↦
        let z : p ≡ w = some-injective p w (rw t at e) in
        let same : j ≡ k = (eq_iff j k).0 t in
        (
          λ q. rw z s,
          Others-Named k symbol (orders_of none d) (absent-Others k d h.1 (rw (← same) u.0)),
        )
    | inr t ↦ (
      λ q. let b = (eq_iff j k).1 (sym h.0 ∙ q) in absurd (cc),
      waiting-Named k symbol w d u.1 h.1 (rw t at e) s,
    )
  ]

module _ {R : Type 0} ⦃f : Float R⦄ where
  -- The call does not settle the order.
  abbrev pub Spares : String → Call R → Type 0
  Spares k c = touches k c ≡ false

  other-Allows : (k id : String) → str_eq id k ≡ false → Allows {R = R} (Spares k) id
  other-Allows k id n = record { settle = λ status qty px. ground arith; forget = n }

  other-AnswerAllowed :
      (k id : String) (a : Answer R) → str_eq id k ≡ false → AnswerAllowed (Spares k) id a
  other-AnswerAllowed k id Answer.failed n = tt
  other-AnswerAllowed k id Answer.no_orders n = n
  other-AnswerAllowed k id (Answer.found status qty px) n = ground arith

  -- Nothing that the attempt brings settles the order.
  pub record IsSilent (k id : String) (a : Attempt R) : Type 0 where
    pub asked : All (Spares k) a.while_asked
    pub asleep : All (Spares k) a.while_asleep
    pub failed_for_it : id ≡ k → a.answer ≡ Answer.failed

  -- Nothing that the question about the position brings settles the order of the symbol.
  pub record IsUnknown (k symbol asked : String) (q : PositionQuery R) : Type 0 where
    pub meanwhile : All (Spares k) q.meanwhile
    pub no_position : asked ≡ symbol → q.holdings ≡ none

  silent-AttemptAllowed :
      (k id : String) (a : Attempt R) → IsSilent k id a → AttemptAllowed (Spares k) id a
  silent-AttemptAllowed k id a h = elim (Bool-cases (str_eq id k)) [
    | inl s ↦ record {
      asked = h.asked;
      answered = rw (h.failed_for_it ((eq_iff id k).0 s)) tt;
      asleep = h.asleep;
    }
    | inr n ↦ record {
      asked = h.asked;
      answered = other-AnswerAllowed k id a.answer n;
      asleep = h.asleep;
    }
  ]

  Named-Allows :
      (k symbol asked : String) (orders : List (PurgatoryOrder R))
      → asked ≢ symbol
      → Named k symbol orders
      → All
          (λ (o : PurgatoryOrder R).
            str_eq o.symbol asked ≡ true → Allows {R = R} (Spares k) o.cl_ord_id)
          orders
  Named-Allows k symbol asked [] n h = tt
  Named-Allows k symbol asked (o ∷ rest) n h = (
    λ hit. elim (Bool-cases (str_eq o.cl_ord_id k)) [
      | inl s ↦ absurd (n (sym ((eq_iff o.symbol asked).0 hit) ∙ h.0 ((eq_iff o.cl_ord_id k).0 s)))
      | inr s ↦ other-Allows k o.cl_ord_id s
    ],
    Named-Allows k symbol asked rest n h.1,
  )

  unknown-HoldingsAllowed :
      (k symbol asked : String) (orders : List (PurgatoryOrder R)) (h : Option (List (Holding R)))
      → (asked ≡ symbol → h ≡ none)
      → Named k symbol orders
      → HoldingsAllowed (Spares k) asked orders h
  unknown-HoldingsAllowed k symbol asked orders none u h = tt
  unknown-HoldingsAllowed k symbol asked orders (some holdings) u h =
      Named-Allows k symbol asked orders (λ e. let z = u e in cc) h

module _ {R : Type 0} ⦃f : Float R⦄ (x : Exchange R) (k symbol : String)
    (silent : (id : String) (n : ℕ) → IsSilent k id (x.order_history id n))
    (unknown : (s : String) → IsUnknown k symbol s (x.position_info s)) where
  silent-orders :
      (orders : List (PurgatoryOrder R))
      → All
          (λ (o : PurgatoryOrder R).
            (j : ℕ) → AttemptAllowed (Spares k) o.cl_ord_id (x.order_history o.cl_ord_id j))
          orders
  silent-orders [] = tt
  silent-orders (o ∷ rest) = (
    λ j. silent-AttemptAllowed k o.cl_ord_id (x.order_history o.cl_ord_id j) (silent o.cl_ord_id j),
    silent-orders rest,
  )

  arbitrate_orders-Spares :
      (orders : List (PurgatoryOrder R)) (l : Ledger R)
      → Named k symbol orders
      → Trace (Spares k) l (arbitrate_orders x orders l)
  arbitrate_orders-Spares [] l h = stay l
  arbitrate_orders-Spares (o ∷ rest) l h =
      arbitrate_symbols-Trace x (x.walk_set (map symbol_of (o ∷ rest))) (o ∷ rest) l (λ s. record {
        meanwhile = (unknown s).meanwhile;
        known =
            unknown-HoldingsAllowed k symbol s (o ∷ rest) (x.position_info s).holdings
              (unknown s).no_position h;
      })

  Trace-Waits :
      {l t : Ledger R}
      → Trace (Spares k) l t
      → IsDict l.purgatory
      → Waits k symbol l
      → Waits k symbol t
  Trace-Waits {l} tr d w =
      subst (Waits k symbol) (sym tr.outcome) (run-Waits k symbol tr.calls l d tr.allowed w)

  reconcile_orders-Waits :
      (orders : List (PurgatoryOrder R)) (max_retries : ℕ) (l : Ledger R)
      → IsDict l.purgatory
      → IsKeyed l.purgatory
      → Waits k symbol l
      → Waits k symbol (reconcile_orders x orders max_retries l).0
  unfolding position_arbitration get_purgatory_orders
  reconcile_orders-Waits [] max_retries l d h w = w
  reconcile_orders-Waits (o ∷ rest) max_retries l d h w =
      let m = (resolve_each x max_retries (o ∷ rest) l).0 in
      let tr : Trace (Spares k) l m =
        resolve_each-Trace x max_retries (o ∷ rest) l (silent-orders (o ∷ rest)) in
      let e = Trace-IsDict tr d in
      let (p, at, same) = Trace-Waits tr d w in
      Trace-Waits
        (arbitrate_orders-Spares (orders_of none m.purgatory) m
          (waiting-Named k symbol p m.purgatory e (Trace-IsKeyed tr h) at same))
        e (p, at, same)

  Waits-blocked : (l : Ledger R) → Waits k symbol l → is_strike_allowed symbol l ≡ false
  unfolding is_strike_allowed
  Waits-blocked l (p, at, same) = rw (← same, in_purgatory-found k p l.purgatory at) refl

  -- An order waits for its symbol in a ledger that started empty; no attempt to ask about the order
  -- and no question about the symbol's position is answered, and the calls of other tasks do not
  -- settle the order. Then the symbol is still blocked after the reconciliation.
  pub unanswered_blocks :
      (before : List (Call R)) (limit : R) (r : Reconciler R)
      → r.ledger ≡ run before (new limit)
      → Waits k symbol r.ledger
      → is_strike_allowed symbol (reconcile x r).0.ledger ≡ false
  unfolding reconcile new
  unanswered_blocks before limit r e w =
      let d : IsDict r.ledger.purgatory = rw e (run-IsDict before (new limit) tt) in
      let h : IsKeyed r.ledger.purgatory = rw e (run-IsKeyed before (new limit) tt) in
      let orders = get_purgatory_orders none r.ledger in
      Waits-blocked (reconcile_orders x orders r.max_retries r.ledger).0
        (reconcile_orders-Waits orders r.max_retries r.ledger d h w)
