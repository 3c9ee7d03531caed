-- ===== src/Shadow/Positions.antt =====
-- src/domain/schrodinger_ledger.py: what fills and the answers of the exchange book on a position.
use gektor.Base.{
  str_eq, eq_iff, subst, sym, ap, ◌∙◌, ℕ, ◌+◌, ◌≡◌, refl, Bool, true, false, Option, none, some,
  String, if◌then◌else◌, arith, Float, ◌≺◌, nought, inl, inr, Bool-cases, ◌&&◌,
}
use gektor.Base.Dicts.{Dict, lookup, insert, erase, IsDict, lookup-insert, lookup-erase}
use gektor.Shadow.{
  OrderFate, PurgatoryOrder, Verdict, Position, Ledger, audit, fate_of, merged, merge_confirmed,
  fill_found, confirm_fill, collapse, reconcile_found, reconcile_order,
}
use gektor.Shadow.{position_or}
use gektor.Shadow.History.{settles}
use gektor.Shadow.History.{collapse-generation}
use gektor.Shadow.Waits.{collapse-purgatory}

-- The fates that may book a fill.
abbrev pub books : OrderFate → Bool
books OrderFate.filled = true
books OrderFate.partially_filled = true
books OrderFate.cancelled = false
books OrderFate.rejected = false
books OrderFate.never_received = false
books OrderFate.indeterminate = false

same_key : (k : String) → str_eq k k ≡ true
same_key k = (eq_iff k k).1 refl

module _ {R : Type 0} ⦃f : Float R⦄ where
  -- The confirmed positions after a fill of the order.
  abbrev pub booked : PurgatoryOrder R → R → R → Ledger R → Dict (Position R)
  booked o qty px l =
      insert o.symbol (merged o.side qty px (position_or (lookup o.symbol l.confirmed))) l.confirmed

  collapse-confirmed :
      (fate : OrderFate) (o : PurgatoryOrder R) (id : String) (qty px : R) (l : Ledger R)
      → (collapse fate o id qty px l).confirmed
        ≡ (if books fate && nought ≺ qty then booked o qty px l else l.confirmed)
  unfolding collapse merge_confirmed
  collapse-confirmed OrderFate.indeterminate o id qty px l = refl
  collapse-confirmed OrderFate.filled o id qty px l = ground arith
  collapse-confirmed OrderFate.partially_filled o id qty px l = ground arith
  collapse-confirmed OrderFate.cancelled o id qty px l = refl
  collapse-confirmed OrderFate.rejected o id qty px l = refl
  collapse-confirmed OrderFate.never_received o id qty px l = refl

  collapse-lookup :
      (fate : OrderFate) (o : PurgatoryOrder R) (id : String) (qty px : R) (l : Ledger R)
      → IsDict l.purgatory
      → lookup id (collapse fate o id qty px l).purgatory ≡ (
          if settles fate
          then none
          else some
              (record o { attempt_count = o.attempt_count + 1; fate = OrderFate.indeterminate }))
  collapse-lookup fate o id qty px l d =
      let (gone, kept) = collapse-purgatory fate o id qty px l in
      elim (Bool-cases (settles fate)) [
        | inl s ↦ rw (s, gone s, lookup-erase id id l.purgatory d, same_key id)
        | inr s ↦ rw (s, kept s, lookup-insert id id _ l.purgatory, same_key id)
      ]

  -- What `reconcile_order_lem` states of a result.
  Answered : String → String → R → R → Ledger R → PurgatoryOrder R → Ledger R × Verdict R → Type 0
  Answered id status qty px l o (t, v) =
      let fate = fate_of status in
      (v.fate ≡ fate)
      × (lookup id t.purgatory ≡ (
          if settles fate
          then none
          else some
              (record o { attempt_count = o.attempt_count + 1; fate = OrderFate.indeterminate })))
      × (t.confirmed ≡ (if books fate && nought ≺ qty then booked o qty px l else l.confirmed))
      × (t.generation ≡ l.generation + 1)

  reconcile-found_lem :
      (id status : String) (qty px : R) (l : Ledger R) (o : PurgatoryOrder R)
      → IsDict l.purgatory
      → Answered id status qty px l o (reconcile_found (some o) id status qty px l)
  unfolding reconcile_found Answered audit
  reconcile-found_lem id status qty px l o d = (
    refl,
    collapse-lookup (fate_of status) o id qty px l d,
    collapse-confirmed (fate_of status) o id qty px l,
    ap (λ (n : ℕ). n + 1) (collapse-generation (fate_of status) o id qty px l),
  )

  -- An answer of the exchange about an order in purgatory settles it exactly when the status is one of
  -- the settled ones, and else counts one more attempt; a fill is booked only for a filled or
  -- partially filled order with a positive quantity; the verdict carries the fate.
  pub reconcile_order_lem :
      (id status : String) (qty px : R) (l : Ledger R) (o : PurgatoryOrder R)
      → IsDict l.purgatory
      → lookup id l.purgatory ≡ some o
      → let (t, v) = reconcile_order id status qty px l in
        let fate = fate_of status in
        (v.fate ≡ fate)
        × (lookup id t.purgatory ≡ (
            if settles fate
            then none
            else some
                (record o { attempt_count = o.attempt_count + 1; fate = OrderFate.indeterminate })))
        × (t.confirmed ≡ (if books fate && nought ≺ qty then booked o qty px l else l.confirmed))
        × (t.generation ≡ l.generation + 1)
  unfolding reconcile_order Answered
  reconcile_order_lem id status qty px l o d h =
      subst
        (λ (r : Option (PurgatoryOrder R)).
          Answered id status qty px l o (reconcile_found r id status qty px l))
        (sym h) (reconcile-found_lem id status qty px l o d)

  fill-found_twice :
      (r : Option (PurgatoryOrder R)) (id : String) (q1 px1 q2 px2 : R) (l : Ledger R)
      → lookup id l.purgatory ≡ r
      → IsDict l.purgatory
      → let t = (fill_found r id q1 px1 l).0 in (confirm_fill id q2 px2 t).0 ≡ t
  unfolding fill_found confirm_fill merge_confirmed audit
  fill-found_twice none id q1 px1 q2 px2 l h d =
      ap (λ (r : Option (PurgatoryOrder R)). (fill_found r id q2 px2 l).0) h
  fill-found_twice (some o) id q1 px1 q2 px2 l h d =
      let t = (fill_found (some o) id q1 px1 l).0 in
      let gone : lookup id (erase id l.purgatory) ≡ none =
        rw (lookup-erase id id l.purgatory d, same_key id) in
      ap (λ (r : Option (PurgatoryOrder R)). (fill_found r id q2 px2 t).0) gone

  fill-booked :
      (id : String) (q px : R) (l : Ledger R) (o : PurgatoryOrder R)
      → (fill_found (some o) id q px l).0.confirmed ≡ booked o q px l
  unfolding fill_found merge_confirmed audit
  fill-booked id q px l o = refl

  -- The fill of an order that waits is booked whole on its symbol; a second fill under the same id, as after a first one that was partial, changes nothing.
  pub second_fill_ignored :
      (id : String) (q1 px1 q2 px2 : R) (l : Ledger R) (o : PurgatoryOrder R)
      → IsDict l.purgatory
      → lookup id l.purgatory ≡ some o
      → let t = (confirm_fill id q1 px1 l).0 in
        (t.confirmed ≡ booked o q1 px1 l) × ((confirm_fill id q2 px2 t).0 ≡ t)
  unfolding confirm_fill
  second_fill_ignored id q1 px1 q2 px2 l o d h = (
    ap (λ (r : Option (PurgatoryOrder R)). (fill_found r id q1 px1 l).0.confirmed) h
        ∙ fill-booked id q1 px1 l o,
    fill-found_twice (lookup id l.purgatory) id q1 px1 q2 px2 l refl d,
  )
