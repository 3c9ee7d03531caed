-- ===== src/Shadow/History.antt =====
-- src/domain/schrodinger_ledger.py: histories of calls on the ledger, and its generation.
use gektor.Base.{
  ℕ, ◌+◌, ◌≡◌, refl, Bool, true, false, Option, none, some, List, [], ◌∷◌, String, str_eq, arith,
  Float, ◌⊎◌, inl, inr, ◌&&◌, ap,
}
use gektor.Base.Dicts.{lookup}
use gektor.Shadow.{
  OrderFate, PurgatoryOrder, Ledger, record_dispatch, audit, fate_of, merge_confirmed, fill_found,
  confirm_fill, confirm_rejection, mark_never_received, collapse, reconcile_found, reconcile_order,
}

-- The calls that change a ledger.
pub data Call (R : Type 0) : Type 0 where
  dispatch : String → String → String → R → R → R → R → Call R
  fill : String → R → R → Call R
  rejection : String → String → Call R
  reconcile : String → String → R → R → Call R
  unreceived : String → Call R

-- An answer of the exchange that settles the order.
abbrev pub settles : OrderFate → Bool
settles OrderFate.indeterminate = false
settles OrderFate.filled = true
settles OrderFate.partially_filled = true
settles OrderFate.cancelled = true
settles OrderFate.rejected = true
settles OrderFate.never_received = true

module _ {R : Type 0} where
  -- The call may end the superposition of the order, or replace it.
  abbrev pub touches : String → Call R → Bool
  touches k (Call.dispatch id symbol side qty worst pre now) = str_eq id k
  touches k (Call.fill id qty px) = str_eq id k
  touches k (Call.rejection id reason) = str_eq id k
  touches k (Call.reconcile id status qty px) = settles (fate_of status) && str_eq id k
  touches k (Call.unreceived id) = str_eq id k

module _ {R : Type 0} ⦃f : Float R⦄ where
  unfoldable pub step : Call R → Ledger R → Ledger R
  unfolding record_dispatch confirm_fill confirm_rejection reconcile_order mark_never_received
  step (Call.dispatch id symbol side qty worst pre now) l =
      record_dispatch id symbol side qty worst pre now l
  step (Call.fill id qty px) l = (confirm_fill id qty px l).0
  step (Call.rejection id reason) l = (confirm_rejection id reason l).0
  step (Call.reconcile id status qty px) l = (reconcile_order id status qty px l).0
  step (Call.unreceived id) l = (mark_never_received id l).0

  unfoldable pub run : List (Call R) → Ledger R → Ledger R
  run [] l = l
  run (c ∷ cs) l = run cs (step c l)

  pub collapse-generation :
      (fate : OrderFate) (o : PurgatoryOrder R) (id : String) (qty px : R) (l : Ledger R)
      → (collapse fate o id qty px l).generation ≡ l.generation
  unfolding collapse merge_confirmed
  collapse-generation OrderFate.indeterminate o id qty px l = refl
  collapse-generation OrderFate.filled o id qty px l = ground arith
  collapse-generation OrderFate.partially_filled o id qty px l = ground arith
  collapse-generation OrderFate.cancelled o id qty px l = refl
  collapse-generation OrderFate.rejected o id qty px l = refl
  collapse-generation OrderFate.never_received o id qty px l = refl

  fill-generation :
      (r : Option (PurgatoryOrder R)) (id : String) (qty px : R) (l : Ledger R)
      → ((fill_found r id qty px l).0 ≡ l)
        ⊎ ((fill_found r id qty px l).0.generation ≡ l.generation + 1)
  unfolding fill_found merge_confirmed audit
  fill-generation none id qty px l = inl refl
  fill-generation (some o) id qty px l = inr refl

  reconcile-generation :
      (r : Option (PurgatoryOrder R)) (id status : String) (qty px : R) (l : Ledger R)
      → ((reconcile_found r id status qty px l).0 ≡ l)
        ⊎ ((reconcile_found r id status qty px l).0.generation ≡ l.generation + 1)
  unfolding reconcile_found audit
  reconcile-generation none id status qty px l = inl refl
  reconcile-generation (some o) id status qty px l =
      inr (ap (λ (n : ℕ). n + 1) (collapse-generation (fate_of status) o id qty px l))

  -- Every call that changes anything gives the ledger its next generation.
  pub step_generation :
      (c : Call R) (l : Ledger R) → (step c l ≡ l) ⊎ ((step c l).generation ≡ l.generation + 1)
  unfolding step record_dispatch confirm_fill confirm_rejection reconcile_order mark_never_received
      audit
  step_generation (Call.dispatch id symbol side qty worst pre now) l = inr refl
  step_generation (Call.fill id qty px) l = fill-generation (lookup id l.purgatory) id qty px l
  step_generation (Call.rejection id reason) l = inr refl
  step_generation (Call.reconcile id status qty px) l =
      reconcile-generation (lookup id l.purgatory) id status qty px l
  step_generation (Call.unreceived id) l = inr refl
