-- ===== src/Reconcile/Gone.antt =====
-- src/application/reconnect_reconciler.py: ids that have left purgatory, and how the arbitration of
-- a symbol takes its orders out.
use gektor.Base.{
  ◌≡◌, refl, sym, subst, Bool, true, false, Option, none, some, List, [], ◌∷◌, String, str_eq,
  eq_iff, if◌then◌else◌, All, arith, Bool-cases, inl, inr, ◌⊎◌, Float, ◌⊖◌, ◌≺◌, min_of,
}
use gektor.Base.Dicts.{lookup, IsDict, lookup-insert, lookup-erase}
use gektor.Shadow.{
  PurgatoryOrder, Ledger, audit, fate_of, merge_confirmed, get_shadow_position, fill_found,
  confirm_fill, confirm_rejection, mark_never_received, reconcile_found, reconcile_order,
}
use gektor.Shadow.History.{Call, settles, step, run}
use gektor.Shadow.Waits.{collapse-purgatory, step-IsDict, run-IsDict}
use gektor.Reconcile.{Holding, attribute, settle_symbol, compare_position, exchange_position}
use gektor.Reconcile.Traces.{Trace, Allows, settle_symbol-Trace, settle_one}

filled_settles : settles (fate_of "Filled") ≡ true
unfolding fate_of
filled_settles = refl

module _ {R : Type 0} where
  -- The call sends no order.
  abbrev pub IsQuiet : Call R → Type 0
  IsQuiet (Call.dispatch id symbol side qty worst pre now) = ⊥
  IsQuiet (Call.fill id qty px) = Unit
  IsQuiet (Call.rejection id reason) = Unit
  IsQuiet (Call.reconcile id status qty px) = Unit
  IsQuiet (Call.unreceived id) = Unit

  -- The ledger is sound and does not hold the order.
  pub record IsGone (k : String) (l : Ledger R) : Type 0 where
    pub distinct : IsDict l.purgatory
    pub gone : lookup k l.purgatory ≡ none

  -- The list holds an order of the symbol under the id.
  abbrev pub Lists : String → String → List (PurgatoryOrder R) → Type 0
  Lists k symbol [] = ⊥
  Lists k symbol (o ∷ rest) =
      ((o.cl_ord_id ≡ k) × (str_eq o.symbol symbol ≡ true)) ⊎ Lists k symbol rest

module _ {R : Type 0} ⦃f : Float R⦄ where
  pub IsQuiet-Allows : (id : String) → Allows {R = R} IsQuiet id
  IsQuiet-Allows id = record { settle = λ status qty px. tt; forget = tt }

  fill-gone :
      (r : Option (PurgatoryOrder R)) (id k : String) (qty px : R) (l : Ledger R)
      → IsGone k l
      → lookup k (fill_found r id qty px l).0.purgatory ≡ none
  unfolding fill_found merge_confirmed audit
  fill-gone none id k qty px l g = g.gone
  fill-gone (some o) id k qty px l g =
      rw (lookup-erase id k l.purgatory g.distinct, g.gone) (ground arith)

  reconcile-gone :
      (r : Option (PurgatoryOrder R)) (id k status : String) (qty px : R) (l : Ledger R)
      → lookup id l.purgatory ≡ r
      → IsGone k l
      → lookup k (reconcile_found r id status qty px l).0.purgatory ≡ none
  unfolding reconcile_found audit
  reconcile-gone none id k status qty px l e g = g.gone
  reconcile-gone (some o) id k status qty px l e g =
      let (out, kept) = collapse-purgatory (fate_of status) o id qty px l in
      elim (Bool-cases (settles (fate_of status))) [
        | inl s ↦ rw (out s, lookup-erase id k l.purgatory g.distinct, g.gone) (ground arith)
        | inr s ↦ elim (Bool-cases (str_eq id k)) [
          | inl t ↦ let z : id ≡ k = (eq_iff id k).0 t in absurd (let n = g.gone in cc)
          | inr t ↦ rw (kept s, lookup-insert id k _ l.purgatory, t) g.gone
        ]
      ]

  step-gone :
      (c : Call R) (k : String) (l : Ledger R)
      → IsQuiet c
      → IsGone k l
      → lookup k (step c l).purgatory ≡ none
  unfolding step confirm_fill confirm_rejection reconcile_order mark_never_received audit
  step-gone (Call.dispatch id symbol side qty worst pre now) k l q g = elim q [ ]
  step-gone (Call.fill id qty px) k l q g = fill-gone (lookup id l.purgatory) id k qty px l g
  step-gone (Call.rejection id reason) k l q g =
      rw (lookup-erase id k l.purgatory g.distinct, g.gone) (ground arith)
  step-gone (Call.reconcile id status qty px) k l q g =
      reconcile-gone (lookup id l.purgatory) id k status qty px l refl g
  step-gone (Call.unreceived id) k l q g =
      rw (lookup-erase id k l.purgatory g.distinct, g.gone) (ground arith)

  pub run-IsGone :
      (cs : List (Call R)) (k : String) (l : Ledger R)
      → All IsQuiet cs
      → IsGone k l
      → IsGone k (run cs l)
  unfolding run
  run-IsGone [] k l q g = g
  run-IsGone (c ∷ cs) k l q g =
      run-IsGone cs k (step c l) q.1
        (record { distinct = step-IsDict c l g.distinct; gone = step-gone c k l q.0 g })

  pub Trace-IsGone : {l t : Ledger R} (k : String) → Trace IsQuiet l t → IsGone k l → IsGone k t
  Trace-IsGone {l} k tr g = subst (IsGone k) (sym tr.outcome) (run-IsGone tr.calls k l tr.allowed g)

  -- The answer `Filled` and the remark that the exchange never saw it take an order out.
  filled-gone :
      (r : Option (PurgatoryOrder R)) (k : String) (qty px : R) (l : Ledger R)
      → lookup k l.purgatory ≡ r
      → IsDict l.purgatory
      → lookup k (reconcile_found r k "Filled" qty px l).0.purgatory ≡ none
  unfolding reconcile_found audit
  filled-gone none k qty px l e d = e
  filled-gone (some o) k qty px l e d =
      let settled : settles (fate_of "Filled") ≡ true = filled_settles in
      rw (
        (collapse-purgatory (fate_of "Filled") o k qty px l).0 settled,
        lookup-erase k k l.purgatory d,
        (eq_iff k k).1 refl,
      )

  unreceived-gone :
      (k : String) (l : Ledger R)
      → IsDict l.purgatory
      → lookup k (mark_never_received k l).0.purgatory ≡ none
  unfolding mark_never_received audit
  unreceived-gone k l d = rw (lookup-erase k k l.purgatory d, (eq_iff k k).1 refl)

  attribute-gone :
      (size px confirmed : R) (o : PurgatoryOrder R) (l : Ledger R)
      → IsDict l.purgatory
      → lookup o.cl_ord_id (attribute size px confirmed o l).purgatory ≡ none
  unfolding attribute reconcile_order
  attribute-gone size px confirmed o l d = elim (Bool-cases (confirmed ≺ size)) [
    | inl more ↦ rw more (
        filled-gone (lookup o.cl_ord_id l.purgatory) o.cl_ord_id (min_of o.qty (size ⊖ confirmed))
          px l refl d)
    | inr less ↦ rw less (unreceived-gone o.cl_ord_id l d)
  ]

  pub Trace-IsDict :
      {P : Call R → Type 0} {l t : Ledger R} → Trace P l t → IsDict l.purgatory → IsDict t.purgatory
  Trace-IsDict {l} tr d =
      subst (λ (m : Ledger R). IsDict m.purgatory) (sym tr.outcome) (run-IsDict tr.calls l d)

  settle_one-gone :
      (differs : Bool) (size px confirmed : R) (o : PurgatoryOrder R) (l : Ledger R)
      → IsDict l.purgatory
      → lookup o.cl_ord_id
          (if differs
            then attribute size px confirmed o l
            else (mark_never_received o.cl_ord_id l).0).purgatory
        ≡ none
  settle_one-gone true size px confirmed o l d = attribute-gone size px confirmed o l d
  settle_one-gone false size px confirmed o l d = unreceived-gone o.cl_ord_id l d

  pub All-IsQuiet :
      (symbol : String) (orders : List (PurgatoryOrder R))
      → All
          (λ (o : PurgatoryOrder R).
            str_eq o.symbol symbol ≡ true → Allows {R = R} IsQuiet o.cl_ord_id)
          orders
  All-IsQuiet symbol [] = tt
  All-IsQuiet symbol (o ∷ rest) = (λ h. IsQuiet-Allows o.cl_ord_id, All-IsQuiet symbol rest)

  settle_symbol-IsGone :
      (differs : Bool) (symbol k : String) (size px confirmed : R)
      (remaining : List (PurgatoryOrder R)) (l : Ledger R)
      → IsDict l.purgatory
      → Lists k symbol remaining
      → IsGone k (settle_symbol differs symbol size px confirmed remaining l)
  unfolding settle_symbol
  settle_symbol-IsGone differs symbol k size px confirmed [] l d h = elim h [ ]
  settle_symbol-IsGone differs symbol k size px confirmed (o ∷ rest) l d h =
      let tr : Trace IsQuiet l _ =
        settle_one differs (str_eq o.symbol symbol) size px confirmed o l
          (λ e. IsQuiet-Allows o.cl_ord_id) in
      let m = Trace-IsDict tr d in
      elim h [
        | inl (same, hit) ↦
            Trace-IsGone k
              (settle_symbol-Trace differs symbol size px confirmed rest _
                (All-IsQuiet symbol rest))
              (record {
                distinct = m;
                gone = rw (hit, ← same) (settle_one-gone differs size px confirmed o l d);
              })
        | inr later ↦ settle_symbol-IsGone differs symbol k size px confirmed rest _ m later
      ]

  pub compare_position-IsGone :
      (holdings : List (Holding R)) (symbol k : String) (remaining : List (PurgatoryOrder R))
      (l : Ledger R)
      → IsDict l.purgatory
      → Lists k symbol remaining
      → IsGone k (compare_position (some holdings) symbol remaining l)
  unfolding compare_position
  compare_position-IsGone holdings symbol k remaining l d h =
      let (size, px) = exchange_position symbol holdings in
      let confirmed = (get_shadow_position symbol l).confirmed_qty in
      settle_symbol-IsGone (f.lit 1 8 ≺ f.magnitude (size ⊖ confirmed)) symbol k size px confirmed
        remaining l d h
