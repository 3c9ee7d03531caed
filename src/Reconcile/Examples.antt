-- ===== src/Reconcile/Examples.antt =====
-- A ledger with two purchases of one symbol in purgatory, and exchanges that answer or keep silent.
use gektor.Base.{ℕ, ◌≡◌, refl, false, none, some, List, [], ◌∷◌, String, milli, inl}
use gektor.Base.Dicts.{lookup, insert, IsDict}
use gektor.Shadow.{
  OrderFate, PurgatoryOrder, Ledger, new, record_dispatch, get_shadow_position, is_strike_allowed,
}
use gektor.Shadow.History.{Call, step, run}
use gektor.Shadow.Waits.{Waits}
use gektor.Reconcile.{
  Answer, Attempt, Holding, Exchange, Reconciler, compare_position, exchange_position, reconcile,
}
use gektor.Reconcile.Unlocks.{reconcile_empties}
use gektor.Reconcile.Deltas.{smaller_position_ignored, delta_for_each}
use gektor.Reconcile.Locked.{unanswered_blocks}

abbrev purchase : String → PurgatoryOrder ℕ
purchase id = record {
  cl_ord_id = id;
  symbol = "BTC";
  side = "Buy";
  qty = 2000;
  worst_price = 50;
  dispatched_mono = 1;
  pre_flight_price = 49;
  attempt_count = 0;
  fate = OrderFate.indeterminate;
}

abbrev two_waiting : Ledger ℕ
two_waiting = record {
  confirmed = [];
  purgatory = ("a", purchase "a") ∷ ("b", purchase "b") ∷ [];
  generation = 2;
  max_exposure_usd = 10_000_000;
  reconciliation_log = [];
}

abbrev sent : List (Call ℕ)
sent = Call.dispatch "a" "BTC" "Buy" 2000 50 49 1 ∷ Call.dispatch "b" "BTC" "Buy" 2000 50 49 1 ∷ []

sent_lem : two_waiting ≡ run sent (new 10_000_000)
unfolding run step record_dispatch new insert
sent_lem = refl

abbrev silence : Attempt ℕ
silence = record { while_asked = []; answer = Answer.failed; while_asleep = [] }

-- Nothing is known of the orders; of each symbol 3000 are held.
abbrev holding : List (Holding ℕ)
holding = record { symbol = "BTC"; size = 3000; avg_price = 50 } ∷ []

abbrev answering : Exchange ℕ
answering = record {
  order_history = λ id n. silence;
  position_info = λ s. record { meanwhile = Call.fill "z" 1 1 ∷ []; holdings = some holding };
  walk_set = λ xs. xs;
  exhausted_message = λ n. "";
}

abbrev dead : Exchange ℕ
dead = record answering { position_info = λ s. record { meanwhile = []; holdings = none } }

abbrev starting : Reconciler ℕ
starting = record { ledger = two_waiting; max_retries = 10; total_reconciliations = 0 }

reconcile_empties_example : (reconcile answering starting).0.ledger.purgatory ≡ []
reconcile_empties_example =
    reconcile_empties answering (λ xs s h. h) (λ id n. record { asked = tt; asleep = tt })
      (λ s. record { meanwhile = (tt, tt); known = refl }) sent 10_000_000 starting sent_lem

first-Waits : Waits "a" "BTC" two_waiting
unfolding lookup
first-Waits = (purchase "a", refl, refl)

unanswered_blocks_example : is_strike_allowed "BTC" (reconcile dead starting).0.ledger ≡ false
unanswered_blocks_example =
    unanswered_blocks dead "a" "BTC"
      (λ id n. record { asked = tt; asleep = tt; failed_for_it = λ e. refl })
      (λ s. record { meanwhile = tt; no_position = λ e. refl }) sent 10_000_000 starting sent_lem
      first-Waits

two-IsDict : IsDict two_waiting.purgatory
unfolding lookup
two-IsDict = (refl, (refl, tt))

abbrev sale : PurgatoryOrder ℕ
sale = record (purchase "a") { side = "Sell" }

abbrev bag : Ledger ℕ
bag = record two_waiting {
  confirmed = ("BTC", record { qty = 9000; avg_px = 40 }) ∷ [];
  purgatory = ("a", sale) ∷ [];
}

sale-IsDict : IsDict bag.purgatory
unfolding lookup
sale-IsDict = (refl, tt)

smaller : (get_shadow_position {R = ℕ} "BTC" bag).confirmed_qty ≡ 9000
unfolding get_shadow_position lookup
smaller = refl

held : exchange_position {R = ℕ} "BTC" holding ≡ (3000, 50)
unfolding exchange_position
held = refl

smaller_position_ignored_example :
    let t = compare_position {R = ℕ} (some holding) "BTC" (sale ∷ []) bag in
    (t.confirmed ≡ bag.confirmed) × (lookup "a" t.purgatory ≡ none)
smaller_position_ignored_example =
    smaller_position_ignored holding "BTC" "a" (sale ∷ []) bag sale-IsDict (inl (refl, refl))
      (rw (smaller, held) refl)

nothing_held : (get_shadow_position {R = ℕ} "BTC" two_waiting).confirmed_qty ≡ 0
unfolding get_shadow_position lookup
nothing_held = refl

each_waits :
    (lookup "a" two_waiting.purgatory ≡ some (purchase "a"))
    × (lookup "b" two_waiting.purgatory ≡ some (purchase "b"))
unfolding lookup
each_waits = (refl, refl)

-- An order of another symbol, which has left purgatory, stands between the two.
abbrev three_listed : List (PurgatoryOrder ℕ)
three_listed =
    purchase "a" ∷ record (purchase "c") { symbol = "ETH"; side = "Sell" } ∷ purchase "b" ∷ []

-- The exchange holds 3000 and the ledger books 4000.
delta_for_each_example :
    (get_shadow_position {R = ℕ} "BTC"
      (compare_position (some holding) "BTC" three_listed two_waiting)).confirmed_qty
    ≡ 4000
delta_for_each_example =
    delta_for_each holding "BTC" 3000 50 0 three_listed two_waiting two-IsDict held nothing_held
      refl refl ((refl, tt), (tt, tt)) (each_waits.0, (each_waits.1, tt))
