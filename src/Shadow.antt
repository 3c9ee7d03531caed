-- ===== src/Shadow.antt =====
-- src/domain/schrodinger_ledger.py: orders whose fate is not known yet, and the positions they may have
-- become. The monotonic clock is an argument; `OrderRecord`, which nothing uses, is left out.
pub mod History
pub mod Waits
pub mod Positions
pub mod Audit
pub mod Conservative
mod Examples
use gektor.Base.{
  ℕ, ◌+◌, ◌-◌, Bool, true, false, not, ◌&&◌, ◌||◌, Option, none, some, List, [], ◌∷◌, ◌++◌, String,
  str_eq, if◌then◌else◌, ltb, length, drop, labelled, codes, upper, lower, is_part, is_one_of,
  Float, ◌⊕◌, ◌⊖◌, ◌⊗◌, ◌⊘◌, ◌≺◌, nought, max_of,
}
use gektor.Base.Dicts.{Dict, lookup, insert, erase}

pub data OrderFate : Type 0 where
  never_received : OrderFate
  filled : OrderFate
  partially_filled : OrderFate
  cancelled : OrderFate
  rejected : OrderFate
  indeterminate : OrderFate

pub record PurgatoryOrder (R : Type 0) : Type 0 where
  pub cl_ord_id : String
  pub symbol : String
  pub side : String
  pub qty : R
  pub worst_price : R
  pub dispatched_mono : R
  pub pre_flight_price : R
  pub attempt_count : ℕ
  pub fate : OrderFate

pub record ShadowPosition (R : Type 0) : Type 0 where
  pub symbol : String
  pub confirmed_qty : R
  pub shadow_qty : R
  pub confirmed_avg_px : R
  pub shadow_avg_px : R
  pub purgatory_count : ℕ
  pub exposure_usd : R

pub record Verdict (R : Type 0) : Type 0 where
  pub cl_ord_id : String
  pub fate : OrderFate
  pub filled_qty : R
  pub filled_avg_px : R
  pub message : String

-- An entry of `_confirmed`.
pub record Position (R : Type 0) : Type 0 where
  pub qty : R
  pub avg_px : R

pub record Ledger (R : Type 0) : Type 0 where
  pub confirmed : Dict (Position R)
  pub purgatory : Dict (PurgatoryOrder R)
  pub generation : ℕ
  pub max_exposure_usd : R
  pub reconciliation_log : List (Verdict R)

module _ {R : Type 0} where
  unfoldable pub new : R → Ledger R
  new max_exposure_usd = record {
    confirmed = [];
    purgatory = [];
    generation = 0;
    max_exposure_usd = max_exposure_usd;
    reconciliation_log = [];
  }

  unfoldable pub record_dispatch : String → String → String → R → R → R → R → Ledger R → Ledger R
  record_dispatch cl_ord_id symbol side qty worst_price pre_flight_price mono_now l =
      let order : PurgatoryOrder R = record {
        cl_ord_id = cl_ord_id;
        symbol = symbol;
        side = side;
        qty = qty;
        worst_price = worst_price;
        dispatched_mono = mono_now;
        pre_flight_price = pre_flight_price;
        attempt_count = 0;
        fate = OrderFate.indeterminate;
      } in
      record l { purgatory = insert cl_ord_id order l.purgatory; generation = l.generation + 1 }

  -- `_audit`: of more than 1000 verdicts the last 500 stay.
  unfoldable pub audit : Verdict R → Ledger R → Ledger R
  audit verdict l =
      let log = l.reconciliation_log ++ (verdict ∷ []) in
      record l {
        reconciliation_log = if ltb 1000 (length log) then drop (length log - 500) log else log;
      }

  -- Rule 1 of `is_strike_allowed`.
  unfoldable pub in_purgatory : String → Dict (PurgatoryOrder R) → Bool
  in_purgatory symbol [] = false
  in_purgatory symbol ((k, order) ∷ rest) = str_eq order.symbol symbol || in_purgatory symbol rest

-- The normalised status of the exchange.
unfoldable pub fate_of : String → OrderFate
fate_of exchange_status =
    let status_upper = upper exchange_status in
    if is_one_of status_upper ("FILLED" ∷ [])
    then OrderFate.filled
    else if is_one_of status_upper ("PARTIALLYFILLED" ∷ "PARTIALLY_FILLED" ∷ [])
    then OrderFate.partially_filled
    else if is_one_of status_upper ("CANCELLED" ∷ "CANCELED" ∷ "DEACTIVATED" ∷ [])
    then OrderFate.cancelled
    else if is_one_of status_upper ("REJECTED" ∷ [])
    then OrderFate.rejected
    else if is_one_of status_upper ("NEW" ∷ "ACTIVE" ∷ "UNTRIGGERED" ∷ [])
    then OrderFate.indeterminate
    else OrderFate.indeterminate

module _ {R : Type 0} ⦃f : Float R⦄ where
  abbrev pub flat : Position R
  flat = record { qty = nought; avg_px = nought }

  -- `self._confirmed.get(symbol, {})` with the defaults of its entries
  abbrev pub position_or : Option (Position R) → Position R
  position_or none = flat
  position_or (some p) = p

  -- A fill on one position.
  unfoldable pub merged : String → R → R → Position R → Position R
  merged side qty avg_px pos =
      let new_qty = pos.qty ⊕ qty in
      let average = (pos.qty ⊗ pos.avg_px ⊕ qty ⊗ avg_px) ⊘ new_qty in
      if is_one_of (upper side) ("BUY" ∷ [])
      then record { qty = new_qty; avg_px = if nought ≺ new_qty then average else pos.avg_px }
      else record { qty = max_of nought (pos.qty ⊖ qty); avg_px = pos.avg_px }

  -- `_merge_confirmed`
  unfoldable pub merge_confirmed : String → String → R → R → Ledger R → Ledger R
  unfolding merged
  merge_confirmed symbol side qty avg_px l =
      let pos = position_or (lookup symbol l.confirmed) in
      record l { confirmed = insert symbol (merged side qty avg_px pos) l.confirmed }

  -- The order that `confirm_fill` finds in purgatory.
  unfoldable pub fill_found :
      Option (PurgatoryOrder R) → String → R → R → Ledger R → Ledger R × Verdict R
  unfolding merge_confirmed audit
  fill_found none cl_ord_id filled_qty avg_price l = (
    l,
    record {
      cl_ord_id = cl_ord_id;
      fate = OrderFate.filled;
      filled_qty = filled_qty;
      filled_avg_px = avg_price;
      message = "FILL_FOR_UNKNOWN_ORDER";
    },
  )
  fill_found (some order) cl_ord_id filled_qty avg_price l =
      let m =
        merge_confirmed order.symbol order.side filled_qty avg_price
          (record l { purgatory = erase cl_ord_id l.purgatory }) in
      let verdict : Verdict R = record {
        cl_ord_id = cl_ord_id;
        fate = OrderFate.filled;
        filled_qty = filled_qty;
        filled_avg_px = avg_price;
        message = "";
      } in
      (audit verdict (record m { generation = m.generation + 1 }), verdict)

  unfoldable pub confirm_fill : String → R → R → Ledger R → Ledger R × Verdict R
  unfolding fill_found
  confirm_fill cl_ord_id filled_qty avg_price l =
      fill_found (lookup cl_ord_id l.purgatory) cl_ord_id filled_qty avg_price l

  -- `pop`, the new generation and the verdict that `confirm_rejection` and `mark_never_received` share.
  abbrev pub dismissed : String → Verdict R → Ledger R → Ledger R × Verdict R
  dismissed cl_ord_id verdict l = (
    audit verdict
        (record l { purgatory = erase cl_ord_id l.purgatory; generation = l.generation + 1 }),
    verdict,
  )

  unfoldable pub confirm_rejection : String → String → Ledger R → Ledger R × Verdict R
  unfolding audit
  confirm_rejection cl_ord_id reason l =
      dismissed cl_ord_id
        (record {
          cl_ord_id = cl_ord_id;
          fate =
              if is_part (codes "reject") (lower reason)
              then OrderFate.rejected
              else OrderFate.cancelled;
          filled_qty = nought;
          filled_avg_px = nought;
          message = reason;
        })
        l

  unfoldable pub mark_never_received : String → Ledger R → Ledger R × Verdict R
  unfolding audit
  mark_never_received cl_ord_id l =
      dismissed cl_ord_id
        (record {
          cl_ord_id = cl_ord_id;
          fate = OrderFate.never_received;
          filled_qty = nought;
          filled_avg_px = nought;
          message = "ORDER_NEVER_REACHED_EXCHANGE";
        })
        l

  -- What a fate does to an order in purgatory.
  unfoldable pub collapse : OrderFate → PurgatoryOrder R → String → R → R → Ledger R → Ledger R
  unfolding merge_confirmed
  collapse fate order cl_ord_id filled_qty avg_price l =
      let gone = record l { purgatory = erase cl_ord_id l.purgatory } in
      let paid =
        if nought ≺ filled_qty
        then merge_confirmed order.symbol order.side filled_qty avg_price gone
        else gone in
      elim fate [
        | OrderFate.filled ↦ paid
        | OrderFate.partially_filled ↦ paid
        | OrderFate.cancelled ↦ gone
        | OrderFate.rejected ↦ gone
        | OrderFate.never_received ↦ gone
        | OrderFate.indeterminate ↦ record l {
          purgatory =
              insert cl_ord_id
                (record order {
                  attempt_count = order.attempt_count + 1;
                  fate = OrderFate.indeterminate;
                })
                l.purgatory;
        }
      ]

  -- The order that `reconcile_order` finds in purgatory.
  unfoldable pub reconcile_found :
      Option (PurgatoryOrder R) → String → String → R → R → Ledger R → Ledger R × Verdict R
  unfolding collapse audit fate_of labelled
  reconcile_found none cl_ord_id exchange_status filled_qty avg_price l = (
    l,
    record {
      cl_ord_id = cl_ord_id;
      fate = OrderFate.indeterminate;
      filled_qty = nought;
      filled_avg_px = nought;
      message = "ORDER_NOT_IN_PURGATORY";
    },
  )
  reconcile_found (some order) cl_ord_id exchange_status filled_qty avg_price l =
      let fate = fate_of exchange_status in
      let m = collapse fate order cl_ord_id filled_qty avg_price l in
      let verdict : Verdict R = record {
        cl_ord_id = cl_ord_id;
        fate = fate;
        filled_qty = filled_qty;
        filled_avg_px = avg_price;
        message = labelled "exchange_status=" exchange_status;
      } in
      (audit verdict (record m { generation = m.generation + 1 }), verdict)

  unfoldable pub reconcile_order : String → String → R → R → Ledger R → Ledger R × Verdict R
  unfolding reconcile_found
  reconcile_order cl_ord_id exchange_status filled_qty avg_price l =
      reconcile_found (lookup cl_ord_id l.purgatory) cl_ord_id exchange_status filled_qty avg_price
        l

  -- The loop of `get_shadow_position`: quantity, cost and number of the symbol's orders.
  unfoldable pub sum_purgatory : String → Dict (PurgatoryOrder R) → R → R → ℕ → R × R × ℕ
  sum_purgatory symbol [] purg_qty purg_cost purg_count = (purg_qty, purg_cost, purg_count)
  sum_purgatory symbol ((k, order) ∷ rest) purg_qty purg_cost purg_count =
      let hit = str_eq order.symbol symbol in
      sum_purgatory symbol rest (if hit then purg_qty ⊕ order.qty else purg_qty)
        (if hit then purg_cost ⊕ order.qty ⊗ order.worst_price else purg_cost)
        (if hit then purg_count + 1 else purg_count)

  unfoldable pub get_shadow_position : String → Ledger R → ShadowPosition R
  unfolding sum_purgatory
  get_shadow_position symbol l =
      let pos = position_or (lookup symbol l.confirmed) in
      let (purg_qty, purg_cost, purg_count) = sum_purgatory symbol l.purgatory nought nought 0 in
      let shadow_qty = pos.qty ⊕ purg_qty in
      let shadow_avg =
        if nought ≺ shadow_qty
        then (pos.qty ⊗ pos.avg_px ⊕ purg_cost) ⊘ shadow_qty
        else pos.avg_px in
      record {
        symbol = symbol;
        confirmed_qty = pos.qty;
        shadow_qty = shadow_qty;
        confirmed_avg_px = pos.avg_px;
        shadow_avg_px = f.round shadow_avg 8;
        purgatory_count = purg_count;
        exposure_usd = f.round (shadow_qty ⊗ shadow_avg) 2;
      }

  unfoldable pub confirmed_exposure : Dict (Position R) → R → R
  confirmed_exposure [] total = total
  confirmed_exposure ((k, p) ∷ rest) total =
      confirmed_exposure rest (total ⊕ f.magnitude (p.qty ⊗ p.avg_px))

  unfoldable pub purgatory_exposure : Dict (PurgatoryOrder R) → R → R
  purgatory_exposure [] total = total
  purgatory_exposure ((k, o) ∷ rest) total =
      purgatory_exposure rest (total ⊕ f.magnitude (o.qty ⊗ o.worst_price))

  unfoldable pub is_strike_allowed : String → Ledger R → Bool
  unfolding in_purgatory confirmed_exposure purgatory_exposure
  is_strike_allowed symbol l =
      if in_purgatory symbol l.purgatory
      then false
      else purgatory_exposure l.purgatory (confirmed_exposure l.confirmed nought)
        ≺ l.max_exposure_usd

module _ {R : Type 0} where
  unfoldable pub orders_of : Option String → Dict (PurgatoryOrder R) → List (PurgatoryOrder R)
  orders_of filter [] = []
  orders_of none ((k, o) ∷ rest) = o ∷ orders_of none rest
  orders_of (some symbol) ((k, o) ∷ rest) =
      let others = orders_of (some symbol) rest in
      if str_eq o.symbol symbol then o ∷ others else others

  unfoldable pub get_purgatory_orders : Option String → Ledger R → List (PurgatoryOrder R)
  unfolding orders_of
  get_purgatory_orders symbol l = orders_of symbol l.purgatory

module _ {R : Type 0} ⦃f : Float R⦄ where
  abbrev pub age_in_purgatory : R → Option (PurgatoryOrder R) → R
  age_in_purgatory mono_now none = nought
  age_in_purgatory mono_now (some order) = mono_now ⊖ order.dispatched_mono

  unfoldable pub get_purgatory_age_sec : String → R → Ledger R → R
  get_purgatory_age_sec cl_ord_id mono_now l =
      age_in_purgatory mono_now (lookup cl_ord_id l.purgatory)
