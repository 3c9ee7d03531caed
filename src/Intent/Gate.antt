-- ===== src/Intent/Gate.antt =====
-- src/application/operator_gate.py: `OperatorGate`. The gate's own forge, validator and intent
-- ledger, and the sentinel that it shares with the heartbeat handler, are fields of one state.
-- Logging is left out.
pub mod Laws
use gektor.Base.{ℕ, ◌+◌, String, Bool, Option, none, some, List, [], Float}
use gektor.Base.Dicts.{Dict}
use gektor.Tilt.{Sentinel}
use gektor.Intent.Ledger.{IntentLedger, validate_click}
use gektor.Intent.Capsule.{
  Codec, IntentCapsule, Reason, CapsuleForge, CapsuleValidator, CapsuleVerdict, issue, validate,
  rotate_key,
}

pub record OperatorGate (R : Type 0) : Type 0 where
  pub forge : CapsuleForge
  pub validator : CapsuleValidator R
  pub sentinel : Sentinel R
  pub intent_ledger : IntentLedger R
  pub total_issued : ℕ
  pub total_executed : ℕ

-- `__init__`; the key and the session's name come from `os.urandom`, and the validator keeps its
-- default cache of 10000 nonces.
unfoldable pub new :
    {R : Type 0} → Sentinel R → IntentLedger R → R → String → String → OperatorGate R
new sentinel intent_ledger capsule_ttl_sec key id = record {
  forge = record { session_key = key; session_id = id };
  validator = record {
    used_nonces = [];
    nonce_order = [];
    max_nonce_cache = 10_000;
    ttl_sec = capsule_ttl_sec;
    total_rejections = 0;
    rejection_reasons = [];
  };
  sentinel = sentinel;
  intent_ledger = intent_ledger;
  total_issued = 0;
  total_executed = 0;
}

module _ {R : Type 0} ⦃f : Float R⦄ (codec : Codec R) where
  -- `issue_capsule`
  unfoldable pub issue_capsule :
      String → String → String → String → R → OperatorGate R → OperatorGate R × IntentCapsule R
  issue_capsule signal_id symbol side nonce now g = (
    record g { total_issued = g.total_issued + 1 },
    issue codec signal_id symbol side g.sentinel.generation nonce now g.forge,
  )

  -- `validate_execution`; `later` is the clock that `validate_click` reads itself.
  unfoldable pub validate_execution :
      IntentCapsule R → ℕ → R → R → OperatorGate R → OperatorGate R × CapsuleVerdict R
  validate_execution c intent_version now later g =
      let (v, verdict) =
        validate codec c g.sentinel.generation now g.forge g.sentinel g.validator in
      let h = record g { validator = v } in
      elim verdict.rejection [
        | some reason ↦ (h, verdict)
        | none ↦
            let (ledger, intent) = validate_click intent_version later h.intent_ledger in
            let k = record h { intent_ledger = ledger } in
            elim intent [
              | none ↦
                  (k, record { rejection = some Reason.intent_invalid; signal_id = c.signal_id })
              | some i ↦ (
                record k { total_executed = k.total_executed + 1 },
                record { rejection = none; signal_id = c.signal_id },
              )
            ]
      ]

-- `rotate_session`
unfoldable pub rotate_session : {R : Type 0} → String → String → OperatorGate R → OperatorGate R
unfolding rotate_key
rotate_session key id g = record g { forge = rotate_key key id g.forge }
