-- ===== src/Reconcile.antt =====
-- src/application/reconnect_reconciler.py: `ReconnectReconciler`, which asks the exchange about every
-- order in the purgatory of a `SchrodingerLedger`. The REST client is an argument: what it answers,
-- and what other tasks do to the ledger during each await. The order in which a set of symbols is
-- walked is an argument too. The lengths of the sleeps, logs and the event bus are left out.
pub mod Traces
pub mod Keyed
pub mod Gone
pub mod Unlocks
pub mod Deltas
pub mod Locked
mod Examples
use gektor.Base.{
  ℕ, zero, suc, ◌+◌, Bool, true, false, Option, none, some, List, [], ◌∷◌, map, String, str_eq,
  if◌then◌else◌, Float, ◌⊖◌, ◌≺◌, nought, min_of,
}
use gektor.Shadow.{
  OrderFate, PurgatoryOrder, Verdict, Ledger, reconcile_order, mark_never_received,
  get_shadow_position, get_purgatory_orders,
}
use gektor.Shadow.History.{Call, run}

-- An answer of `get_order_history`; an exception of any kind is `failed`.
pub data Answer (R : Type 0) : Type 0 where
  failed : Answer R
  no_orders : Answer R
  found : String → R → R → Answer R

-- One attempt, with what other tasks do to the ledger while it waits and while it sleeps.
pub record Attempt (R : Type 0) : Type 0 where
  pub while_asked : List (Call R)
  pub answer : Answer R
  pub while_asleep : List (Call R)

-- What the code reads of an entry of `get_position_info`.
pub record Holding (R : Type 0) : Type 0 where
  pub symbol : String
  pub size : R
  pub avg_price : R

-- `none` is an exception.
pub record PositionQuery (R : Type 0) : Type 0 where
  pub meanwhile : List (Call R)
  pub holdings : Option (List (Holding R))

pub record Exchange (R : Type 0) : Type 0 where
  pub order_history : String → ℕ → Attempt R
  pub position_info : String → PositionQuery R
  pub walk_set : List String → List String  -- `{…}` of a list, in the order of its walk
  pub exhausted_message : ℕ → String

pub record Reconciler (R : Type 0) : Type 0 where
  pub ledger : Ledger R
  pub max_retries : ℕ
  pub total_reconciliations : ℕ

module _ {R : Type 0} ⦃f : Float R⦄ where
  -- What an attempt does with its answer; the last argument is what the later attempts come to.
  unfoldable pub react : Answer R → String → Ledger R → Ledger R × Verdict R → Ledger R × Verdict R
  react failed cl_ord_id l later = later
  react no_orders cl_ord_id l later = mark_never_received cl_ord_id l
  react (found status filled_qty avg_price) cl_ord_id l later =
      reconcile_order cl_ord_id status filled_qty avg_price l

  -- Size and price of the symbol's first entry.
  unfoldable pub exchange_position : String → List (Holding R) → R × R
  exchange_position symbol [] = (nought, nought)
  exchange_position symbol (p ∷ rest) =
      let later = exchange_position symbol rest in
      if str_eq p.symbol symbol then (f.magnitude p.size, p.avg_price) else later

  -- An order of the symbol, where the sizes differ.
  unfoldable pub attribute : R → R → R → PurgatoryOrder R → Ledger R → Ledger R
  attribute exchange_size exchange_avg_px confirmed_qty o l =
      if confirmed_qty ≺ exchange_size
      then (reconcile_order o.cl_ord_id "Filled" (min_of o.qty (exchange_size ⊖ confirmed_qty))
          exchange_avg_px l).0
      else (mark_never_received o.cl_ord_id l).0

  -- Both loops over the remaining orders, `differs` telling which one.
  unfoldable pub settle_symbol :
      Bool → String → R → R → R → List (PurgatoryOrder R) → Ledger R → Ledger R
  unfolding attribute
  settle_symbol differs symbol exchange_size exchange_avg_px confirmed_qty [] l = l
  settle_symbol differs symbol exchange_size exchange_avg_px confirmed_qty (o ∷ rest) l =
      settle_symbol differs symbol exchange_size exchange_avg_px confirmed_qty rest (
        if str_eq o.symbol symbol
        then (if differs
            then attribute exchange_size exchange_avg_px confirmed_qty o l
            else (mark_never_received o.cl_ord_id l).0)
        else l)

  unfoldable pub compare_position :
      Option (List (Holding R)) → String → List (PurgatoryOrder R) → Ledger R → Ledger R
  unfolding settle_symbol exchange_position
  compare_position none symbol remaining l = l
  compare_position (some holdings) symbol remaining l =
      let (exchange_size, exchange_avg_px) = exchange_position symbol holdings in
      let confirmed_qty = (get_shadow_position symbol l).confirmed_qty in
      let delta = f.magnitude (exchange_size ⊖ confirmed_qty) in
      settle_symbol (f.lit 1 8 ≺ delta) symbol exchange_size exchange_avg_px confirmed_qty remaining
        l

module _ {R : Type 0} ⦃f : Float R⦄ (x : Exchange R) where
  abbrev exhausted : ℕ → String → Verdict R
  exhausted max_retries cl_ord_id = record {
    cl_ord_id = cl_ord_id;
    fate = OrderFate.indeterminate;
    filled_qty = nought;
    filled_avg_px = nought;
    message = x.exhausted_message max_retries;
  }

  -- The loop of `_resolve_single_order`: the attempts left, and the number of the next one.
  unfoldable pub resolve_from : ℕ → ℕ → ℕ → String → Ledger R → Ledger R × Verdict R
  unfolding react
  resolve_from max_retries zero attempt cl_ord_id l = (l, exhausted max_retries cl_ord_id)
  resolve_from max_retries (suc n) attempt cl_ord_id l =
      let a = x.order_history cl_ord_id attempt in
      let m = run a.while_asked l in
      let later = resolve_from max_retries n (attempt + 1) cl_ord_id (run a.while_asleep m) in
      react a.answer cl_ord_id m later

  -- `_resolve_single_order`
  unfoldable pub resolve_single_order : ℕ → String → Ledger R → Ledger R × Verdict R
  unfolding resolve_from
  resolve_single_order max_retries cl_ord_id l = resolve_from max_retries max_retries 1 cl_ord_id l

  -- Phase 2.
  unfoldable pub resolve_each : ℕ → List (PurgatoryOrder R) → Ledger R → Ledger R × List (Verdict R)
  unfolding resolve_single_order
  resolve_each max_retries [] l = (l, [])
  resolve_each max_retries (o ∷ rest) l =
      let (m, verdict) = resolve_single_order max_retries o.cl_ord_id l in
      let (t, verdicts) = resolve_each max_retries rest m in (t, verdict ∷ verdicts)

  unfoldable pub arbitrate_symbols : List String → List (PurgatoryOrder R) → Ledger R → Ledger R
  unfolding compare_position
  arbitrate_symbols [] remaining l = l
  arbitrate_symbols (symbol ∷ rest) remaining l =
      let q = x.position_info symbol in
      arbitrate_symbols rest remaining
        (compare_position q.holdings symbol remaining (run q.meanwhile l))

  abbrev arbitrate_orders : List (PurgatoryOrder R) → Ledger R → Ledger R
  arbitrate_orders [] l = l
  arbitrate_orders (o ∷ rest) l =
      let remaining = o ∷ rest in
      arbitrate_symbols (x.walk_set (map (λ (p : PurgatoryOrder R). p.symbol) remaining)) remaining
        l

  -- `_position_arbitration`
  unfoldable pub position_arbitration : Ledger R → Ledger R
  unfolding arbitrate_symbols
  position_arbitration l = arbitrate_orders (get_purgatory_orders none l) l

  abbrev reconcile_orders : List (PurgatoryOrder R) → ℕ → Ledger R → Ledger R × List (Verdict R)
  reconcile_orders [] max_retries l = (l, [])
  reconcile_orders (o ∷ rest) max_retries l =
      let (m, verdicts) = resolve_each max_retries (o ∷ rest) l in
      (position_arbitration m, verdicts)

  unfoldable pub reconcile : Reconciler R → Reconciler R × List (Verdict R)
  unfolding resolve_each position_arbitration
  reconcile r =
      let (l, verdicts) =
        reconcile_orders (get_purgatory_orders none r.ledger) r.max_retries r.ledger in
      (record r { ledger = l; total_reconciliations = r.total_reconciliations + 1 }, verdicts)
