-- ===== src/Shadow/Audit.antt =====
-- src/domain/schrodinger_ledger.py: the length of the audit trail.
use gektor.Base.{
  ◌-◌, ◌≤◌, ◌≡◌, refl, Option, none, some, List, [], ◌∷◌, ◌++◌, String, length, length-append,
  length-drop, arith, Float, if◌then◌else◌, ltb, drop,
}
use gektor.Base.Dicts.{lookup}
use gektor.Shadow.{
  OrderFate, PurgatoryOrder, Verdict, Ledger, new, record_dispatch, audit, fate_of, merge_confirmed,
  fill_found, confirm_fill, confirm_rejection, mark_never_received, collapse, reconcile_found,
  reconcile_order,
}
use gektor.Shadow.History.{Call, step, run}

module _ {R : Type 0} ⦃f : Float R⦄ where
  trail-bounded :
      (v : Verdict R) (log : List (Verdict R))
      → length log ≤ 1000
      → let longer = log ++ (v ∷ []) in
        length (if ltb 1000 (length longer) then drop (length longer - 500) longer else longer)
        ≤ 1000
  trail-bounded v log h =
      let longer = log ++ (v ∷ []) in
      ground (arith, length-append log (v ∷ []), length-drop (length longer - 500) longer)

  collapse-log :
      (fate : OrderFate) (o : PurgatoryOrder R) (id : String) (qty px : R) (l : Ledger R)
      → (collapse fate o id qty px l).reconciliation_log ≡ l.reconciliation_log
  unfolding collapse merge_confirmed
  collapse-log OrderFate.indeterminate o id qty px l = refl
  collapse-log OrderFate.filled o id qty px l = ground arith
  collapse-log OrderFate.partially_filled o id qty px l = ground arith
  collapse-log OrderFate.cancelled o id qty px l = refl
  collapse-log OrderFate.rejected o id qty px l = refl
  collapse-log OrderFate.never_received o id qty px l = refl

  fill-bounded :
      (r : Option (PurgatoryOrder R)) (id : String) (qty px : R) (l : Ledger R)
      → length l.reconciliation_log ≤ 1000
      → length (fill_found r id qty px l).0.reconciliation_log ≤ 1000
  unfolding fill_found merge_confirmed audit
  fill-bounded none id qty px l h = h
  fill-bounded (some o) id qty px l h = trail-bounded _ l.reconciliation_log h

  reconcile-bounded :
      (r : Option (PurgatoryOrder R)) (id status : String) (qty px : R) (l : Ledger R)
      → length l.reconciliation_log ≤ 1000
      → length (reconcile_found r id status qty px l).0.reconciliation_log ≤ 1000
  unfolding reconcile_found audit
  reconcile-bounded none id status qty px l h = h
  reconcile-bounded (some o) id status qty px l h =
      let m = collapse (fate_of status) o id qty px l in
      trail-bounded _ m.reconciliation_log (rw (collapse-log (fate_of status) o id qty px l) h)

  step-bounded :
      (c : Call R) (l : Ledger R)
      → length l.reconciliation_log ≤ 1000
      → length (step c l).reconciliation_log ≤ 1000
  unfolding step record_dispatch confirm_fill confirm_rejection reconcile_order mark_never_received
      audit
  step-bounded (Call.dispatch id symbol side qty worst pre now) l h = h
  step-bounded (Call.fill id qty px) l h = fill-bounded (lookup id l.purgatory) id qty px l h
  step-bounded (Call.rejection id reason) l h = trail-bounded _ l.reconciliation_log h
  step-bounded (Call.reconcile id status qty px) l h =
      reconcile-bounded (lookup id l.purgatory) id status qty px l h
  step-bounded (Call.unreceived id) l h = trail-bounded _ l.reconciliation_log h

  run-bounded :
      (cs : List (Call R)) (l : Ledger R)
      → length l.reconciliation_log ≤ 1000
      → length (run cs l).reconciliation_log ≤ 1000
  unfolding run
  run-bounded [] l h = h
  run-bounded (c ∷ cs) l h = run-bounded cs (step c l) (step-bounded c l h)

  -- Over every history of a new ledger the audit trail holds at most 1000 verdicts.
  pub audit_bounded :
      (cs : List (Call R)) (limit : R) → length (run cs (new limit)).reconciliation_log ≤ 1000
  unfolding new
  audit_bounded cs limit = run-bounded cs (new limit) (omega arith)
