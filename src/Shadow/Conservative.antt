-- ===== src/Shadow/Conservative.antt =====
-- src/domain/schrodinger_ledger.py: the shadow position beside the confirmed one.
use gektor.Base.{
  not, ◌+◌, ℕ, ◌⊗◌, ◌≼◌, ◌⊕◌, All, Bool-cases, inl, inr, nought, Bool, true, false, str_eq, subst,
  ◌≡◌, refl, Option, none, some, List, [], ◌∷◌, String, if◌then◌else◌, Float,
}
use mathlib.Core.Option.{some-injective}
use mathlib.Core.Option.{some-injective}
use gektor.Base.Dicts.{Dict, lookup, insert, erase}
use gektor.Shadow.{
  PurgatoryOrder, Ledger, new, record_dispatch, audit, fate_of, merge_confirmed, fill_found,
  confirm_fill, confirm_rejection, mark_never_received, reconcile_found, reconcile_order,
}
use gektor.Shadow.{get_shadow_position, sum_purgatory, position_or}
use gektor.Shadow.History.{Call, settles, step, run}
use gektor.Shadow.Waits.{collapse-purgatory}

module _ {R : Type 0} ⦃f : Float R⦄ where
  -- No quantity below 0.
  abbrev pub IsCount : PurgatoryOrder R → Type 0
  IsCount o = nought ≼ o.qty ≡ true

  abbrev pub AllOrders : (PurgatoryOrder R → Type 0) → Dict (PurgatoryOrder R) → Type 0
  AllOrders P d = All (λ (e : String × PurgatoryOrder R). P e.1) d

  insert-AllOrders :
      (P : PurgatoryOrder R → Type 0) (k : String) (o : PurgatoryOrder R)
      (d : Dict (PurgatoryOrder R))
      → P o
      → AllOrders P d
      → AllOrders P (insert k o d)
  unfolding insert
  insert-AllOrders P k o [] p h = (p, tt)
  insert-AllOrders P k o ((j, q) ∷ d) p h = elim (Bool-cases (str_eq j k)) [
    | inl e ↦ rw e (p, h.1)
    | inr e ↦ rw e (h.0, insert-AllOrders P k o d p h.1)
  ]

  erase-AllOrders :
      (P : PurgatoryOrder R → Type 0) (k : String) (d : Dict (PurgatoryOrder R))
      → AllOrders P d
      → AllOrders P (erase k d)
  unfolding erase
  erase-AllOrders P k [] h = h
  erase-AllOrders P k ((j, q) ∷ d) h = elim (Bool-cases (str_eq j k)) [
    | inl e ↦ rw e h.1
    | inr e ↦ rw e (h.0, erase-AllOrders P k d h.1)
  ]

  lookup-AllOrders :
      (P : PurgatoryOrder R → Type 0) (k : String) (o : PurgatoryOrder R)
      (d : Dict (PurgatoryOrder R))
      → AllOrders P d
      → lookup k d ≡ some o
      → P o
  unfolding lookup
  lookup-AllOrders P k o [] h e = absurd (cc)
  lookup-AllOrders P k o ((j, q) ∷ d) h e = elim (Bool-cases (str_eq j k)) [
    | inl s ↦ subst P (some-injective q o (rw s at e)) h.0
    | inr s ↦ lookup-AllOrders P k o d h.1 (rw s at e)
  ]

  fill-AllOrders :
      (r : Option (PurgatoryOrder R)) (id : String) (q px : R) (l : Ledger R)
      → AllOrders IsCount l.purgatory
      → AllOrders IsCount (fill_found r id q px l).0.purgatory
  unfolding fill_found merge_confirmed audit
  fill-AllOrders none id q px l h = h
  fill-AllOrders (some o) id q px l h = erase-AllOrders IsCount id l.purgatory h

  reconcile-AllOrders :
      (r : Option (PurgatoryOrder R)) (id status : String) (q px : R) (l : Ledger R)
      → lookup id l.purgatory ≡ r
      → AllOrders IsCount l.purgatory
      → AllOrders IsCount (reconcile_found r id status q px l).0.purgatory
  unfolding reconcile_found audit
  reconcile-AllOrders none id status q px l e h = h
  reconcile-AllOrders (some o) id status q px l e h =
      let (gone, kept) = collapse-purgatory (fate_of status) o id q px l in
      elim (Bool-cases (settles (fate_of status))) [
        | inl s ↦ rw (gone s) (erase-AllOrders IsCount id l.purgatory h)
        | inr s ↦ rw (kept s) (
            insert-AllOrders IsCount id _ l.purgatory
              (lookup-AllOrders IsCount id o l.purgatory h e) h)
      ]

  -- Orders are dispatched with quantities that are not negative.
  abbrev pub Counts : Call R → Type 0
  Counts (Call.dispatch id symbol side qty worst pre now) = nought ≼ qty ≡ true
  Counts (Call.fill id q px) = Unit
  Counts (Call.rejection id reason) = Unit
  Counts (Call.reconcile id status q px) = Unit
  Counts (Call.unreceived id) = Unit

  step-AllOrders :
      (c : Call R) (l : Ledger R)
      → Counts c
      → AllOrders IsCount l.purgatory
      → AllOrders IsCount (step c l).purgatory
  unfolding step record_dispatch confirm_fill confirm_rejection reconcile_order mark_never_received
      audit
  step-AllOrders (Call.dispatch id symbol side qty worst pre now) l c h =
      insert-AllOrders IsCount id _ l.purgatory c h
  step-AllOrders (Call.fill id q px) l c h = fill-AllOrders (lookup id l.purgatory) id q px l h
  step-AllOrders (Call.rejection id reason) l c h = erase-AllOrders IsCount id l.purgatory h
  step-AllOrders (Call.reconcile id status q px) l c h =
      reconcile-AllOrders (lookup id l.purgatory) id status q px l refl h
  step-AllOrders (Call.unreceived id) l c h = erase-AllOrders IsCount id l.purgatory h

  run-AllOrders :
      (cs : List (Call R)) (l : Ledger R)
      → All Counts cs
      → AllOrders IsCount l.purgatory
      → AllOrders IsCount (run cs l).purgatory
  unfolding run
  run-AllOrders [] l c h = h
  run-AllOrders (c ∷ cs) l k h = run-AllOrders cs (step c l) k.1 (step-AllOrders c l k.0 h)

-- What the shadow needs of the arithmetic: adding a number that is not negative makes no number
-- smaller, rounding included.
pub record IsMonotone {R : Type 0} (f : Float R) : Type 0 where
  pub self : (a : R) → not (f.less a a) ≡ true
  pub chain :
      (a b c : R) → not (f.less b a) ≡ true → not (f.less c b) ≡ true → not (f.less c a) ≡ true
  pub grows : (a b : R) → not (f.less b (f.lit 0 0)) ≡ true → not (f.less (f.plus a b) a) ≡ true

module _ {R : Type 0} ⦃f : Float R⦄ where
  added-grows :
      (b : Bool) (q x : R) → IsMonotone f → nought ≼ x ≡ true → q ≼ (if b then q ⊕ x else q) ≡ true
  added-grows true q x m h = m.grows q x h
  added-grows false q x m h = m.self q

  sum-grows :
      (symbol : String) (d : Dict (PurgatoryOrder R)) (q c : R) (n : ℕ)
      → IsMonotone f
      → AllOrders IsCount d
      → q ≼ (sum_purgatory symbol d q c n).0 ≡ true
  unfolding sum_purgatory
  sum-grows symbol [] q c n m h = m.self q
  sum-grows symbol ((k, o) ∷ d) q c n m h =
      let hit = str_eq o.symbol symbol in
      m.chain q (if hit then q ⊕ o.qty else q) _ (added-grows hit q o.qty m h.0) (
        sum-grows symbol d (if hit then q ⊕ o.qty else q)
          (if hit then c ⊕ o.qty ⊗ o.worst_price else c) (if hit then n + 1 else n) m h.1)

  -- Over every history of a new ledger in which no order has a negative quantity, the shadow quantity of
  -- each symbol is at least the confirmed one.
  pub shadow_conservative :
      (cs : List (Call R)) (limit : R) (symbol : String)
      → IsMonotone f
      → All Counts cs
      → let p = get_shadow_position symbol (run cs (new limit)) in
        p.confirmed_qty ≼ p.shadow_qty ≡ true
  unfolding get_shadow_position new
  shadow_conservative cs limit symbol m c =
      let l = run cs (new limit) in
      let h = run-AllOrders cs (new limit) c tt in
      m.grows (position_or (lookup symbol l.confirmed)).qty
        (sum_purgatory symbol l.purgatory nought nought 0).0
        (sum-grows symbol l.purgatory nought nought 0 m h)
