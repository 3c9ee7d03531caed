-- ===== src/Reconcile/Keyed.antt =====
-- src/application/reconnect_reconciler.py: the ids under which the entries of the purgatory stand.
use gektor.Base.{
  ◌≡◌, refl, Option, none, some, List, [], ◌∷◌, String, eq_iff, arith, Bool-cases, inl, inr, Float,
}
use gektor.Base.Dicts.{Dict, lookup, insert, erase}
use gektor.Shadow.{
  PurgatoryOrder, Ledger, record_dispatch, audit, fate_of, merge_confirmed, fill_found,
  confirm_fill, confirm_rejection, mark_never_received, reconcile_found, reconcile_order,
}
use gektor.Shadow.History.{Call, settles, step, run}
use gektor.Shadow.Waits.{collapse-purgatory}

module _ {R : Type 0} where
  -- Every order stands under its own id.
  abbrev pub IsKeyed : Dict (PurgatoryOrder R) → Type 0
  IsKeyed [] = Unit
  IsKeyed ((k, o) ∷ d) = (o.cl_ord_id ≡ k) × IsKeyed d

  insert-IsKeyed :
      (k : String) (o : PurgatoryOrder R) (d : Dict (PurgatoryOrder R))
      → o.cl_ord_id ≡ k
      → IsKeyed d
      → IsKeyed (insert k o d)
  unfolding insert
  insert-IsKeyed k o [] e h = (e, tt)
  insert-IsKeyed k o ((j, p) ∷ d) e h = ground (arith, eq_iff j k, insert-IsKeyed k o d e h.1)

  erase-IsKeyed : (k : String) (d : Dict (PurgatoryOrder R)) → IsKeyed d → IsKeyed (erase k d)
  unfolding erase
  erase-IsKeyed k [] h = h
  erase-IsKeyed k ((j, p) ∷ d) h = ground (arith, erase-IsKeyed k d h.1)

  pub lookup-IsKeyed :
      (k : String) (o : PurgatoryOrder R) (d : Dict (PurgatoryOrder R))
      → IsKeyed d
      → lookup k d ≡ some o
      → o.cl_ord_id ≡ k
  unfolding lookup
  lookup-IsKeyed k o [] h e = absurd (cc)
  lookup-IsKeyed k o ((j, p) ∷ d) h e = ground (arith, eq_iff j k, lookup-IsKeyed k o d h.1)

module _ {R : Type 0} ⦃f : Float R⦄ where
  fill-IsKeyed :
      (r : Option (PurgatoryOrder R)) (id : String) (qty px : R) (l : Ledger R)
      → IsKeyed l.purgatory
      → IsKeyed (fill_found r id qty px l).0.purgatory
  unfolding fill_found merge_confirmed audit
  fill-IsKeyed none id qty px l h = h
  fill-IsKeyed (some o) id qty px l h = erase-IsKeyed id l.purgatory h

  reconcile-IsKeyed :
      (r : Option (PurgatoryOrder R)) (id status : String) (qty px : R) (l : Ledger R)
      → lookup id l.purgatory ≡ r
      → IsKeyed l.purgatory
      → IsKeyed (reconcile_found r id status qty px l).0.purgatory
  unfolding reconcile_found audit
  reconcile-IsKeyed none id status qty px l e h = h
  reconcile-IsKeyed (some o) id status qty px l e h =
      let (gone, kept) = collapse-purgatory (fate_of status) o id qty px l in
      elim (Bool-cases (settles (fate_of status))) [
        | inl s ↦ rw (gone s) (erase-IsKeyed id l.purgatory h)
        | inr s ↦
            rw (kept s) (insert-IsKeyed id _ l.purgatory (lookup-IsKeyed id o l.purgatory h e) h)
      ]

  step-IsKeyed : (c : Call R) (l : Ledger R) → IsKeyed l.purgatory → IsKeyed (step c l).purgatory
  unfolding step record_dispatch confirm_fill confirm_rejection reconcile_order mark_never_received
      audit
  step-IsKeyed (Call.dispatch id symbol side qty worst pre now) l h =
      insert-IsKeyed id _ l.purgatory refl h
  step-IsKeyed (Call.fill id qty px) l h = fill-IsKeyed (lookup id l.purgatory) id qty px l h
  step-IsKeyed (Call.rejection id reason) l h = erase-IsKeyed id l.purgatory h
  step-IsKeyed (Call.reconcile id status qty px) l h =
      reconcile-IsKeyed (lookup id l.purgatory) id status qty px l refl h
  step-IsKeyed (Call.unreceived id) l h = erase-IsKeyed id l.purgatory h

  pub run-IsKeyed :
      (cs : List (Call R)) (l : Ledger R) → IsKeyed l.purgatory → IsKeyed (run cs l).purgatory
  unfolding run
  run-IsKeyed [] l h = h
  run-IsKeyed (c ∷ cs) l h = run-IsKeyed cs (step c l) (step-IsKeyed c l h)
