-- ===== src/Reconcile/Traces.antt =====
-- src/application/reconnect_reconciler.py: a reconciliation as a history of calls on the ledger.
use gektor.Base.{
  ℕ, zero, suc, ◌+◌, ◌≡◌, refl, sym, ◌∙◌, ap, Bool, true, false, Option, none, some, List, [], ◌∷◌,
  ◌++◌, String, str_eq, if◌then◌else◌, All, All-append, Bool-cases, inl, inr, Float, ◌⊖◌, ◌≺◌,
  min_of,
}
use gektor.Shadow.{PurgatoryOrder, Verdict, Ledger, mark_never_received, get_shadow_position}
use gektor.Shadow.History.{Call, step, run}
use gektor.Reconcile.{
  Answer, Attempt, Holding, PositionQuery, Exchange, react, resolve_from, resolve_single_order,
  resolve_each, attribute, settle_symbol, compare_position, arbitrate_symbols, exchange_position,
}

module _ {R : Type 0} ⦃f : Float R⦄ where
  pub run-append : (cs ds : List (Call R)) (l : Ledger R) → run (cs ++ ds) l ≡ run ds (run cs l)
  unfolding run
  run-append [] ds l = refl
  run-append (c ∷ cs) ds l = run-append cs ds (step c l)

  -- The second ledger comes of the first one by calls that all have the property.
  pub record Trace (P : Call R → Type 0) (l t : Ledger R) : Type 0 where
    pub calls : List (Call R)
    pub allowed : All P calls
    pub outcome : t ≡ run calls l

  module _ {P : Call R → Type 0} where
    pub stay : (l : Ledger R) → Trace P l l
    unfolding run
    stay l = record { calls = []; allowed = tt; outcome = refl }

    pub after : {l m t : Ledger R} → Trace P l m → Trace P m t → Trace P l t
    after {l} a b = record {
      calls = a.calls ++ b.calls;
      allowed = All-append P a.calls b.calls a.allowed b.allowed;
      outcome = b.outcome ∙ ap (run b.calls) a.outcome ∙ sym (run-append a.calls b.calls l);
    }

    pub one : (c : Call R) (l : Ledger R) → P c → Trace P l (step c l)
    unfolding run
    one c l p = record { calls = c ∷ []; allowed = (p, tt); outcome = refl }

    pub many : (cs : List (Call R)) (l : Ledger R) → All P cs → Trace P l (run cs l)
    many cs l p = record { calls = cs; allowed = p; outcome = refl }

  -- What the reconciler may do to an order.
  pub record Allows (P : Call R → Type 0) (id : String) : Type 0 where
    pub settle : (status : String) (qty px : R) → P (Call.reconcile id status qty px)
    pub forget : P (Call.unreceived id)

  abbrev pub AnswerAllowed : (Call R → Type 0) → String → Answer R → Type 0
  AnswerAllowed P id Answer.failed = Unit
  AnswerAllowed P id Answer.no_orders = P (Call.unreceived id)
  AnswerAllowed P id (Answer.found status qty px) = P (Call.reconcile id status qty px)

  -- What an attempt brings is allowed.
  pub record AttemptAllowed (P : Call R → Type 0) (id : String) (a : Attempt R) : Type 0 where
    pub asked : All P a.while_asked
    pub answered : AnswerAllowed P id a.answer
    pub asleep : All P a.while_asleep

  -- If the position of the symbol is known, each of its orders may be settled.
  abbrev pub HoldingsAllowed :
      (Call R → Type 0) → String → List (PurgatoryOrder R) → Option (List (Holding R)) → Type 0
  HoldingsAllowed P symbol remaining none = Unit
  HoldingsAllowed P symbol remaining (some holdings) =
      All (λ (o : PurgatoryOrder R). str_eq o.symbol symbol ≡ true → Allows P o.cl_ord_id) remaining

  pub record PositionAllowed (P : Call R → Type 0) (symbol : String)
      (remaining : List (PurgatoryOrder R)) (q : PositionQuery R) : Type 0 where
    pub meanwhile : All P q.meanwhile
    pub known : HoldingsAllowed P symbol remaining q.holdings

  module _ {P : Call R → Type 0} (x : Exchange R) where
    react-Trace :
        (a : Answer R) (id : String) (l : Ledger R) (later : Ledger R × Verdict R)
        → AnswerAllowed P id a
        → Trace P l later.0
        → Trace P l (react a id l later).0
    unfolding react step
    react-Trace Answer.failed id l later p t = t
    react-Trace Answer.no_orders id l later p t = one (Call.unreceived id) l p
    react-Trace (Answer.found status qty px) id l later p t =
        one (Call.reconcile id status qty px) l p

    resolve_from-Trace :
        (k n i : ℕ) (id : String) (l : Ledger R)
        → ((j : ℕ) → AttemptAllowed P id (x.order_history id j))
        → Trace P l (resolve_from x k n i id l).0
    unfolding resolve_from
    resolve_from-Trace k zero i id l h = stay l
    resolve_from-Trace k (suc n) i id l h =
        let a = x.order_history id i in
        let m = run a.while_asked l in
        let later = resolve_from x k n (i + 1) id (run a.while_asleep m) in
        after (many a.while_asked l (h i).asked) (
          react-Trace a.answer id m later (h i).answered (
            after (many a.while_asleep m (h i).asleep)
              (resolve_from-Trace k n (i + 1) id (run a.while_asleep m) h)))

    pub resolve_each-Trace :
        (k : ℕ) (orders : List (PurgatoryOrder R)) (l : Ledger R)
        → All
            (λ (o : PurgatoryOrder R).
              (j : ℕ) → AttemptAllowed P o.cl_ord_id (x.order_history o.cl_ord_id j))
            orders
        → Trace P l (resolve_each x k orders l).0
    unfolding resolve_each resolve_single_order
    resolve_each-Trace k [] l h = stay l
    resolve_each-Trace k (o ∷ rest) l h =
        after (resolve_from-Trace k k 1 o.cl_ord_id l h.0)
          (resolve_each-Trace k rest (resolve_single_order x k o.cl_ord_id l).0 h.1)

  module _ {P : Call R → Type 0} where
    attribute-Trace :
        (size px confirmed : R) (o : PurgatoryOrder R) (l : Ledger R)
        → Allows P o.cl_ord_id
        → Trace P l (attribute size px confirmed o l)
    unfolding attribute step
    attribute-Trace size px confirmed o l a = elim (Bool-cases (confirmed ≺ size)) [
      | inl more ↦ rw more (
          one (Call.reconcile o.cl_ord_id "Filled" (min_of o.qty (size ⊖ confirmed)) px) l
            (a.settle _ _ _))
      | inr less ↦ rw less (one (Call.unreceived o.cl_ord_id) l a.forget)
    ]

    pub settle_one :
        (differs hit : Bool) (size px confirmed : R) (o : PurgatoryOrder R) (l : Ledger R)
        → (hit ≡ true → Allows P o.cl_ord_id)
        → Trace P l (
            if hit
            then (if differs
                then attribute size px confirmed o l
                else (mark_never_received o.cl_ord_id l).0)
            else l)
    unfolding step
    settle_one differs false size px confirmed o l a = stay l
    settle_one true true size px confirmed o l a = attribute-Trace size px confirmed o l (a refl)
    settle_one false true size px confirmed o l a =
        one (Call.unreceived o.cl_ord_id) l (a refl).forget

    pub settle_symbol-Trace :
        (differs : Bool) (symbol : String) (size px confirmed : R)
        (remaining : List (PurgatoryOrder R)) (l : Ledger R)
        → All
            (λ (o : PurgatoryOrder R). str_eq o.symbol symbol ≡ true → Allows P o.cl_ord_id)
            remaining
        → Trace P l (settle_symbol differs symbol size px confirmed remaining l)
    unfolding settle_symbol
    settle_symbol-Trace differs symbol size px confirmed [] l h = stay l
    settle_symbol-Trace differs symbol size px confirmed (o ∷ rest) l h =
        after (settle_one differs (str_eq o.symbol symbol) size px confirmed o l h.0)
          (settle_symbol-Trace differs symbol size px confirmed rest _ h.1)

    pub compare_position-Trace :
        (holdings : Option (List (Holding R))) (symbol : String)
        (remaining : List (PurgatoryOrder R)) (l : Ledger R)
        → HoldingsAllowed P symbol remaining holdings
        → Trace P l (compare_position holdings symbol remaining l)
    unfolding compare_position
    compare_position-Trace none symbol remaining l h = stay l
    compare_position-Trace (some holdings) symbol remaining l h =
        let (size, px) = exchange_position symbol holdings in
        let confirmed = (get_shadow_position symbol l).confirmed_qty in
        settle_symbol-Trace (f.lit 1 8 ≺ f.magnitude (size ⊖ confirmed)) symbol size px confirmed
          remaining l h

    pub arbitrate_symbols-Trace :
        (x : Exchange R) (symbols : List String) (remaining : List (PurgatoryOrder R))
        (l : Ledger R)
        → ((s : String) → PositionAllowed P s remaining (x.position_info s))
        → Trace P l (arbitrate_symbols x symbols remaining l)
    unfolding arbitrate_symbols
    arbitrate_symbols-Trace x [] remaining l h = stay l
    arbitrate_symbols-Trace x (s ∷ rest) remaining l h =
        let q = x.position_info s in
        let m = run q.meanwhile l in
        after (many q.meanwhile l (h s).meanwhile) (
          after (compare_position-Trace q.holdings s remaining m (h s).known) (
            arbitrate_symbols-Trace x rest remaining (compare_position q.holdings s remaining m) h))
