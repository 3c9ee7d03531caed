-- ===== src/Shadow/Examples.antt =====
-- A ledger with one order in purgatory, and the instances of its theorems.
use gektor.Base.{ℕ, ◌≡◌, refl, true, false, none, some, List, [], ◌∷◌, arith, ◌≼◌, milli}
use gektor.Base.Dicts.{lookup, insert, erase, IsDict}
use gektor.Shadow.{
  OrderFate, PurgatoryOrder, Ledger, new, record_dispatch, audit, fate_of, confirm_fill,
  confirm_rejection, collapse, reconcile_found, reconcile_order, is_strike_allowed,
  get_shadow_position, get_purgatory_orders, orders_of, get_purgatory_age_sec,
}
use gektor.Shadow.History.{Call, run}
use gektor.Shadow.Waits.{Leaves, strike_blocked}
use gektor.Shadow.Positions.{booked, second_fill_ignored}
use gektor.Shadow.Conservative.{IsMonotone, shadow_conservative}

abbrev waiting : PurgatoryOrder ℕ
waiting = record {
  cl_ord_id = "a";
  symbol = "BTC";
  side = "Buy";
  qty = 2000;
  worst_price = 50;
  dispatched_mono = 1;
  pre_flight_price = 49;
  attempt_count = 0;
  fate = OrderFate.indeterminate;
}

abbrev ledger : Ledger ℕ
ledger = record {
  confirmed = [];
  purgatory = ("a", waiting) ∷ [];
  generation = 1;
  max_exposure_usd = 10_000_000;
  reconciliation_log = [];
}

dispatched : record_dispatch "a" "BTC" "Buy" 2000 50 49 1 (new 10_000_000) ≡ ledger
unfolding record_dispatch new insert
dispatched = refl

ledger-IsDict : IsDict ledger.purgatory
unfolding lookup
ledger-IsDict = (refl, tt)

waits : lookup "a" ledger.purgatory ≡ some waiting
unfolding lookup
waits = refl

some_statuses :
    (fate_of "Filled" ≡ OrderFate.filled)
    × (fate_of "partially_filled" ≡ OrderFate.partially_filled)
    × (fate_of "Cancelled" ≡ OrderFate.cancelled)
    × (fate_of "Rejected" ≡ OrderFate.rejected)
    × (fate_of "New" ≡ OrderFate.indeterminate)
unfolding fate_of
some_statuses = (refl, refl, refl, refl, refl)

-- A cancelled order that was filled in part leaves no position.
cancelled_part :
    ((reconcile_order "a" "Cancelled" 1000 50 ledger).0.confirmed ≡ [])
    × ((reconcile_order "a" "Cancelled" 1000 50 ledger).0.purgatory ≡ [])
unfolding reconcile_order reconcile_found lookup collapse fate_of erase audit
cancelled_part = (refl, refl)

rejected_reason : (confirm_rejection "a" "Order REJECTED" ledger).1.fate ≡ OrderFate.rejected
unfolding confirm_rejection
rejected_reason = refl

orders_in_sight :
    (get_purgatory_orders (some "BTC") ledger ≡ waiting ∷ [])
    × (get_purgatory_orders (some "ETH") ledger ≡ [])
    × (get_purgatory_orders none ledger ≡ waiting ∷ [])
    × (get_purgatory_age_sec "a" 5 ledger ≡ 4)
unfolding get_purgatory_orders orders_of get_purgatory_age_sec lookup
orders_in_sight = (refl, refl, refl, refl)

milli-IsMonotone : IsMonotone milli
milli-IsMonotone = record {
  self = λ a. ground arith;
  chain = λ a b c p q. ground arith;
  grows = λ a b p. ground arith;
}

-- Fills of other orders and an open answer come in.
abbrev noise : List (Call ℕ)
noise = Call.fill "b" 10 10 ∷ Call.reconcile "a" "New" 0 0 ∷ Call.unreceived "c" ∷ []

noise-Leaves : Leaves "a" noise
unfolding fate_of
noise-Leaves = (refl, (refl, (refl, tt)))

strike_blocked_example :
    let l = record_dispatch {R = ℕ} "a" "BTC" "Buy" 2000 50 49 1 (run [] (new 10_000_000)) in
    is_strike_allowed "BTC" (run noise l) ≡ false
strike_blocked_example =
    strike_blocked [] noise 10_000_000 "a" "BTC" "Buy" 2000 50 49 1 noise-Leaves

second_fill_ignored_example :
    let t = (confirm_fill "a" 500 50 ledger).0 in
    (t.confirmed ≡ booked waiting 500 50 ledger) × ((confirm_fill "a" 1500 51 t).0 ≡ t)
second_fill_ignored_example =
    second_fill_ignored "a" 500 50 1500 51 ledger waiting ledger-IsDict waits

abbrev purchases : List (Call ℕ)
purchases = Call.dispatch "a" "BTC" "Buy" 2000 50 49 1 ∷ Call.fill "a" 500 50 ∷ []

shadow_conservative_example :
    let p = get_shadow_position "BTC" (run purchases (new 10_000_000)) in
    p.confirmed_qty ≼ p.shadow_qty ≡ true
shadow_conservative_example =
    shadow_conservative purchases 10_000_000 "BTC" milli-IsMonotone (refl, (tt, tt))
