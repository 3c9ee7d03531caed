-- ===== src/Intent/Examples.antt =====
-- Concrete capsules, gates and intents, on which the theorems are applied.
use gektor.Base.{
  ℕ, ◌≡◌, refl, true, none, some, List, [], ◌∷◌, bar, is_some, if◌then◌else◌, arith, milli, ltb,
}
use gektor.Tilt.{Sentinel, TiltState, is_execution_allowed}
use gektor.Tilt.Trackers.{new_reaction, new_clicks, new_errors}
use gektor.Intent.Ledger.{ActiveIntent, IntentLedger, emit_intent, emitted, revoke, validate_click}
use gektor.Intent.Ledger.History.{Call, IsValid, run, dead_click_stays_dead}
use gektor.Intent.Capsule.{
  Codec, IntentCapsule, CapsuleForge, CapsuleValidator, issue, verify_signature, validate,
  consume_nonce, evict, is_used, add_used, build_message,
}
use gektor.Intent.Capsule.Replay.{Attempt, attempt, attempts, accepted, no_replay}
use gektor.Intent.Gate.{OperatorGate, validate_execution}
use gektor.Intent.Gate.Laws.{approved_iff}

abbrev keyed : Codec ℕ
keyed = record {
  hmac = bar;
  show_int = λ n. if ltb n 2 then "low" else "high";
  show_mono = λ n. "mono";
}

abbrev calm : Sentinel ℕ
calm = record {
  reaction = new_reaction;
  clicks = new_clicks;
  errors = new_errors;
  state = TiltState.clear;
  generation = 3;
  locked_until_mono = 0;
  cooldown_sec = 1_800_000;
  last_heartbeat_mono = 0;
  heartbeat_timeout_sec = 15_000;
  weight_reaction = 400;
  weight_errors = 350;
  weight_spam = 250;
}

abbrev forge : CapsuleForge
forge = record { session_key = "key"; session_id = "id" }

abbrev validator : CapsuleValidator ℕ
validator = record {
  used_nonces = [];
  nonce_order = [];
  max_nonce_cache = 2;
  ttl_sec = 60_000;
  total_rejections = 0;
  rejection_reasons = [];
}

abbrev buy : IntentCapsule ℕ
buy = issue keyed "signal" "BTCUSDT" "BUY" 3 "nonce" 1000 forge

abbrev intent : ActiveIntent ℕ
intent = emitted 1 "BTCUSDT" "BUY" 100 2 none 2000 1000

abbrev ledger : IntentLedger ℕ
ledger = record {
  version = 1;
  active = some intent;
  has_callback = true;
  pushes = [];
  total_revokes = 0;
  total_stale_clicks = 0;
}

abbrev gate : OperatorGate ℕ
gate = record {
  forge = forge;
  validator = validator;
  sentinel = calm;
  intent_ledger = ledger;
  total_issued = 1;
  total_executed = 0;
}

abbrev submit : Attempt ℕ
submit = record { capsule = buy; current = 3; now = 2000; forge = forge; sentinel = calm }

approved_iff_example : (validate_execution keyed buy 1 2000 2500 gate).1.rejection ≡ none
unfolding issue verify_signature is_used is_execution_allowed bar build_message
approved_iff_example =
    (approved_iff keyed buy 1 2000 2500 gate).1
      (((refl, refl, refl, refl, refl, refl)), (intent, refl, refl, refl, refl))

no_replay_example :
    is_some
      (attempt keyed submit
        (attempts keyed (submit ∷ []) (attempt keyed submit validator).0)).1.rejection
    ≡ true
unfolding issue validate verify_signature is_used add_used consume_nonce evict is_execution_allowed
    accepted bar build_message
no_replay_example =
    no_replay keyed submit submit (submit ∷ []) validator
      (record { in_step = refl; bounded = omega arith }) (omega arith) refl refl (omega arith)

abbrev calls : List (Call ℕ)
calls =
    Call.emit "BTCUSDT" "SELL" 100 2 none 2000 3000
    ∷ Call.click 2 4000
    ∷ Call.cancel "LIQUIDITY"
    ∷ []

ledger-IsValid : IsValid ledger
ledger-IsValid = ground arith

dead_click_stays_dead_example :
    ((validate_click 1 2500 (run calls (revoke "LIQUIDITY" ledger))).1 ≡ none)
    × ((validate_click 1 2500
          (run calls (emit_intent "ETHUSDT" "BUY" 50 1 none 2000 2000 ledger).0)).1
        ≡ none)
dead_click_stays_dead_example =
    dead_click_stays_dead ledger intent calls 2500 "LIQUIDITY" "ETHUSDT" "BUY" 50 1 none 2000 2000
      ledger-IsValid refl
