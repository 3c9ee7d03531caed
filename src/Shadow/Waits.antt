-- ===== src/Shadow/Waits.antt =====
-- src/domain/schrodinger_ledger.py: orders that wait in purgatory, and what settles them.
use gektor.Base.{
  ◌+◌, ◌≡◌, refl, true, false, Option, none, some, List, [], ◌∷◌, String, str_eq, eq_iff, arith,
  Float, inl, inr, sym, ◌∙◌, subst, All, Bool-cases, ◌&&◌, ap,
}
use mathlib.Core.Option.{some-injective}
use gektor.Base.Dicts.{
  Dict, lookup, insert, erase, IsDict, lookup-insert, lookup-erase, insert-IsDict, erase-IsDict,
}
use gektor.Shadow.{
  OrderFate, PurgatoryOrder, Ledger, new, record_dispatch, audit, in_purgatory, fate_of,
  merge_confirmed, fill_found, confirm_fill, confirm_rejection, mark_never_received, collapse,
  reconcile_found, reconcile_order, is_strike_allowed,
}
use gektor.Shadow.History.{Call, settles, touches, step, run}

module _ {R : Type 0} where
  pub in_purgatory-found :
      (k : String) (o : PurgatoryOrder R) (d : Dict (PurgatoryOrder R))
      → lookup k d ≡ some o
      → in_purgatory o.symbol d ≡ true
  unfolding lookup in_purgatory
  in_purgatory-found k o [] h = absurd (cc)
  in_purgatory-found k o ((j, p) ∷ d) h =
      ground (arith, eq_iff p.symbol o.symbol, in_purgatory-found k o d)

module _ {R : Type 0} ⦃f : Float R⦄ where
  -- The purgatory that a settled fate leaves.
  pub collapse-purgatory :
      (fate : OrderFate) (o : PurgatoryOrder R) (id : String) (qty px : R) (l : Ledger R)
      → (settles fate ≡ true → (collapse fate o id qty px l).purgatory ≡ erase id l.purgatory)
        × (settles fate ≡ false
            → (collapse fate o id qty px l).purgatory
              ≡ insert id
                  (record o { attempt_count = o.attempt_count + 1; fate = OrderFate.indeterminate })
                  l.purgatory)
  unfolding collapse merge_confirmed
  collapse-purgatory OrderFate.indeterminate o id qty px l = (λ h. absurd (cc), λ h. refl)
  collapse-purgatory OrderFate.filled o id qty px l = (λ h. ground arith, λ h. absurd (cc))
  collapse-purgatory OrderFate.partially_filled o id qty px l =
      (λ h. ground arith, λ h. absurd (cc))
  collapse-purgatory OrderFate.cancelled o id qty px l = (λ h. refl, λ h. absurd (cc))
  collapse-purgatory OrderFate.rejected o id qty px l = (λ h. refl, λ h. absurd (cc))
  collapse-purgatory OrderFate.never_received o id qty px l = (λ h. refl, λ h. absurd (cc))

  -- The order is in purgatory, for its symbol.
  abbrev pub Waits : String → String → Ledger R → Type 0
  Waits k symbol l = (o : PurgatoryOrder R) × (lookup k l.purgatory ≡ some o) × (o.symbol ≡ symbol)

  fill-IsDict :
      (r : Option (PurgatoryOrder R)) (id : String) (qty px : R) (l : Ledger R)
      → IsDict l.purgatory
      → IsDict (fill_found r id qty px l).0.purgatory
  unfolding fill_found merge_confirmed audit
  fill-IsDict none id qty px l d = d
  fill-IsDict (some o) id qty px l d = erase-IsDict id l.purgatory d

  reconcile-IsDict :
      (r : Option (PurgatoryOrder R)) (id status : String) (qty px : R) (l : Ledger R)
      → IsDict l.purgatory
      → IsDict (reconcile_found r id status qty px l).0.purgatory
  unfolding reconcile_found audit
  reconcile-IsDict none id status qty px l d = d
  reconcile-IsDict (some o) id status qty px l d =
      let (gone, kept) = collapse-purgatory (fate_of status) o id qty px l in
      elim (Bool-cases (settles (fate_of status))) [
        | inl s ↦ rw (gone s) (erase-IsDict id l.purgatory d)
        | inr s ↦ rw (kept s) (insert-IsDict id _ l.purgatory d)
      ]

  pub step-IsDict : (c : Call R) (l : Ledger R) → IsDict l.purgatory → IsDict (step c l).purgatory
  unfolding step record_dispatch confirm_fill confirm_rejection reconcile_order mark_never_received
      audit
  step-IsDict (Call.dispatch id symbol side qty worst pre now) l d =
      insert-IsDict id _ l.purgatory d
  step-IsDict (Call.fill id qty px) l d = fill-IsDict (lookup id l.purgatory) id qty px l d
  step-IsDict (Call.rejection id reason) l d = erase-IsDict id l.purgatory d
  step-IsDict (Call.reconcile id status qty px) l d =
      reconcile-IsDict (lookup id l.purgatory) id status qty px l d
  step-IsDict (Call.unreceived id) l d = erase-IsDict id l.purgatory d

  erased-Waits :
      (id k symbol : String) (l m : Ledger R)
      → IsDict l.purgatory
      → str_eq id k ≡ false
      → m.purgatory ≡ erase id l.purgatory
      → Waits k symbol l
      → Waits k symbol m
  erased-Waits id k symbol l m d n e (o, h, s) =
      (o, rw (e, lookup-erase id k l.purgatory d, n) h, s)

  fill-Waits :
      (r : Option (PurgatoryOrder R)) (id k symbol : String) (qty px : R) (l : Ledger R)
      → IsDict l.purgatory
      → str_eq id k ≡ false
      → Waits k symbol l
      → Waits k symbol (fill_found r id qty px l).0
  unfolding fill_found merge_confirmed audit
  fill-Waits none id k symbol qty px l d n w = w
  fill-Waits (some o) id k symbol qty px l d n w =
      erased-Waits id k symbol l (fill_found (some o) id qty px l).0 d n refl w

  reconcile-Waits :
      (r : Option (PurgatoryOrder R)) (id k symbol status : String) (qty px : R) (l : Ledger R)
      → lookup id l.purgatory ≡ r
      → IsDict l.purgatory
      → settles (fate_of status) && str_eq id k ≡ false
      → Waits k symbol l
      → Waits k symbol (reconcile_found r id status qty px l).0
  unfolding reconcile_found audit
  reconcile-Waits none id k symbol status qty px l z d n w = w
  reconcile-Waits (some p) id k symbol status qty px l z d n (o, h, e) =
      let (gone, kept) = collapse-purgatory (fate_of status) p id qty px l in
      elim (Bool-cases (settles (fate_of status))) [
        | inl s ↦
            erased-Waits id k symbol l (reconcile_found (some p) id status qty px l).0 d (rw s at n)
              (gone s) (o, h, e)
        | inr s ↦ elim (Bool-cases (str_eq id k)) [
          | inl t ↦
              let same : id ≡ k = (eq_iff id k).0 t in
              let twice : some p ≡ some o = sym z ∙ rw same h in
              (
                record p { attempt_count = p.attempt_count + 1; fate = OrderFate.indeterminate },
                rw (kept s, lookup-insert id k _ l.purgatory, t),
                ap (λ (q : PurgatoryOrder R). q.symbol) (some-injective p o twice) ∙ e,
              )
          | inr t ↦ (o, rw (kept s, lookup-insert id k _ l.purgatory, t) h, e)
        ]
      ]

  step-Waits :
      (k symbol : String) (c : Call R) (l : Ledger R)
      → IsDict l.purgatory
      → touches k c ≡ false
      → Waits k symbol l
      → Waits k symbol (step c l)
  unfolding step record_dispatch confirm_fill confirm_rejection reconcile_order mark_never_received
      audit
  step-Waits k symbol (Call.dispatch id sym side qty worst pre now) l d n (o, h, e) =
      (o, rw (lookup-insert id k _ l.purgatory, n) h, e)
  step-Waits k symbol (Call.fill id qty px) l d n w =
      fill-Waits (lookup id l.purgatory) id k symbol qty px l d n w
  step-Waits k symbol (Call.rejection id reason) l d n w =
      erased-Waits id k symbol l (confirm_rejection id reason l).0 d n refl w
  step-Waits k symbol (Call.reconcile id status qty px) l d n w =
      reconcile-Waits (lookup id l.purgatory) id k symbol status qty px l refl d n w
  step-Waits k symbol (Call.unreceived id) l d n w =
      erased-Waits id k symbol l (mark_never_received id l).0 d n refl w

  -- No call of the list touches the order.
  abbrev pub Leaves : String → List (Call R) → Type 0
  Leaves k cs = All (λ (c : Call R). touches k c ≡ false) cs

  pub run-Waits :
      (k symbol : String) (cs : List (Call R)) (l : Ledger R)
      → IsDict l.purgatory
      → Leaves k cs
      → Waits k symbol l
      → Waits k symbol (run cs l)
  unfolding run
  run-Waits k symbol [] l d h w = w
  run-Waits k symbol (c ∷ cs) l d h w =
      run-Waits k symbol cs (step c l) (step-IsDict c l d) h.1 (step-Waits k symbol c l d h.0 w)

  pub run-IsDict :
      (cs : List (Call R)) (l : Ledger R) → IsDict l.purgatory → IsDict (run cs l).purgatory
  unfolding run
  run-IsDict [] l d = d
  run-IsDict (c ∷ cs) l d = run-IsDict cs (step c l) (step-IsDict c l d)

  dispatch-IsDict :
      (before : List (Call R)) (limit : R) (k symbol side : String) (qty worst pre now : R)
      → IsDict (record_dispatch k symbol side qty worst pre now (run before (new limit))).purgatory
  unfolding record_dispatch new
  dispatch-IsDict before limit k symbol side qty worst pre now =
      insert-IsDict k _ (run before (new limit)).purgatory (run-IsDict before (new limit) tt)

  dispatch-Waits :
      (k symbol side : String) (qty worst pre now : R) (l : Ledger R)
      → Waits k symbol (record_dispatch k symbol side qty worst pre now l)
  unfolding record_dispatch
  dispatch-Waits k symbol side qty worst pre now l =
      let same : str_eq k k ≡ true = (eq_iff k k).1 refl in
      let order : PurgatoryOrder R = record {
        cl_ord_id = k;
        symbol = symbol;
        side = side;
        qty = qty;
        worst_price = worst;
        dispatched_mono = now;
        pre_flight_price = pre;
        attempt_count = 0;
        fate = OrderFate.indeterminate;
      } in
      (order, rw (lookup-insert k k order l.purgatory, same), refl)

  strike-Waits :
      (k symbol : String) (l : Ledger R) → Waits k symbol l → is_strike_allowed symbol l ≡ false
  unfolding is_strike_allowed
  strike-Waits k symbol l (o, found, e) =
      let b : in_purgatory symbol l.purgatory ≡ true =
        subst (λ (t : String). in_purgatory t l.purgatory ≡ true) e
          (in_purgatory-found k o l.purgatory found) in
      rw b

  -- After an order was dispatched, whatever happened before, no strike on its symbol is allowed for as long as no
  -- fill, no rejection, no dispatch under its id and no settled answer of the exchange arrives for it; an answer that leaves
  -- its fate open does not unblock the symbol.
  pub strike_blocked :
      (before after : List (Call R)) (limit : R) (k symbol side : String) (qty worst pre now : R)
      → Leaves k after
      → let l = record_dispatch k symbol side qty worst pre now (run before (new limit)) in
        is_strike_allowed symbol (run after l) ≡ false
  strike_blocked before after limit k symbol side qty worst pre now h =
      let start = run before (new limit) in
      let l = record_dispatch k symbol side qty worst pre now start in
      strike-Waits k symbol (run after l) (
        run-Waits k symbol after l (dispatch-IsDict before limit k symbol side qty worst pre now) h
          (dispatch-Waits k symbol side qty worst pre now start))
