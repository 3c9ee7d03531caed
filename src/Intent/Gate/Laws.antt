-- ===== src/Intent/Gate/Laws.antt =====
-- src/application/operator_gate.py: what the operator gate lets through.
use gektor.Base.{
  ℕ, ◌+◌, ◌≡◌, ◌≢◌, ◌↔◌, String, true, false, none, some, Float, arith, is_some, is_some-cases, ap,
}
use gektor.Tilt.{ingest_heartbeat}
use gektor.Tilt.Blind.{heartbeat_generation}
use gektor.Intent.Ledger.{ActiveIntent, validate_click, is_expired}
use gektor.Intent.Ledger.Laws.{validate_click_iff}
use gektor.Intent.Capsule.{Codec, IntentCapsule, Reason, issue, validate, consume_nonce}
use gektor.Intent.Capsule.Laws.{Passes, validate_iff}
use gektor.Intent.Gate.{OperatorGate, issue_capsule, validate_execution}

module _ {R : Type 0} ⦃f : Float R⦄ (codec : Codec R) where
  approved-parts :
      (c : IntentCapsule R) (version : ℕ) (now later : R) (g : OperatorGate R)
      → ((validate_execution codec c version now later g).1.rejection ≡ none) ↔ (
          ((validate codec c g.sentinel.generation now g.forge g.sentinel g.validator).1.rejection
            ≡ none)
          × (is_some (validate_click version later g.intent_ledger).1 ≡ true))
  unfolding validate_execution
  approved-parts c version now later g = (λ h. ground arith, λ h. ground arith)

  -- An execution is approved exactly when the capsule passes its checks against the present session
  -- key, sentinel and generation, and the click carries the version of the active intent, which is
  -- neither revoked nor expired.
  pub approved_iff :
      (c : IntentCapsule R) (version : ℕ) (now later : R) (g : OperatorGate R)
      → ((validate_execution codec c version now later g).1.rejection ≡ none) ↔ (
          Passes codec c g.sentinel.generation now g.forge g.sentinel g.validator
          × ((i : ActiveIntent R) × (g.intent_ledger.active ≡ some i)
              × (version ≡ i.version)
              × (i.revoked ≡ false)
              × (is_expired later i ≡ false)))
  approved_iff c version now later g = (
    λ h.
        let (ok, clicked) = (approved-parts c version now later g).0 h in
        let (i, e) = is_some-cases _ clicked in
        (
          (validate_iff codec c _ now g.forge g.sentinel g.validator).0.0 ok,
          let (a, b, r, x) = (validate_click_iff version later g.intent_ledger i).0 e in
              (i, a, b, r, x),
        ),
    λ h. (approved-parts c version now later g).1 (
      (validate_iff codec c _ now g.forge g.sentinel g.validator).0.1 h.0,
      ap is_some
          ((validate_click_iff version later g.intent_ledger h.1.0).1 (h.1.1, h.1.2, h.1.3, h.1.4)),
    ),
  )

  -- Every heartbeat that the sentinel processes, whatever its score, refuses each capsule that was
  -- issued before it: the generation has moved on.
  pub heartbeat_kills_capsules :
      (signal_id symbol side nonce : String) (at now later ms : R)
      (clicks errors successes version : ℕ) (beat : R) (g : OperatorGate R)
      → let (h, c) = issue_capsule codec signal_id symbol side nonce at g in
        let k = record h {
          sentinel = (ingest_heartbeat ms clicks errors successes beat h.sentinel).0;
        } in
        (validate_execution codec c version now later k).1.rejection ≢ none
  unfolding issue_capsule issue
  heartbeat_kills_capsules signal_id symbol side nonce at now later ms clicks errors successes
        version beat g ok =
      let (p, i) = (approved_iff _ version now later _).0 ok in
      omega (arith, p.4, heartbeat_generation ms clicks errors successes beat g.sentinel)

  -- A refusal approves nothing; a refusal by the intent ledger has used the nonce up all the same,
  -- so that the operator cannot send the capsule again.
  pub refused_effect :
      (c : IntentCapsule R) (version : ℕ) (now later : R) (g : OperatorGate R)
      → let (h, verdict) = validate_execution codec c version now later g in
        (is_some verdict.rejection ≡ true → h.total_executed ≡ g.total_executed)
        × (verdict.rejection ≡ none → h.total_executed ≡ g.total_executed + 1)
        × (verdict.rejection ≡ some Reason.intent_invalid
            → h.validator ≡ consume_nonce c.nonce g.validator)
  unfolding validate_execution validate
  refused_effect c version now later g = ground arith
