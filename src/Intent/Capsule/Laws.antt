-- ===== src/Intent/Capsule/Laws.antt =====
-- src/domain/intent_capsule.py: what one call of the capsule forge and validator does.
use gektor.Base.{
  ℕ, suc, ◌+◌, ◌≡◌, refl, ◌↔◌, String, true, false, none, some, eq_iff, Float, ◌⊖◌, ◌≺◌, nought,
  arith,
}
use gektor.Base.Dicts.{lookup, lookup-insert}
use gektor.Tilt.{Sentinel, is_execution_allowed}
use gektor.Intent.Capsule.{
  Codec, IntentCapsule, Reason, CapsuleForge, CapsuleValidator, is_used, issue, verify_signature,
  validate, rotate_key, base_reason, age_of, build_message, consume_nonce, count_of,
}

module _ {R : Type 0} ⦃f : Float R⦄ (codec : Codec R) where
  open codec use {hmac}

  -- A capsule that the forge has issued verifies under the same key; under a rotated key it verifies
  -- exactly when the two keys give its message the same code.
  pub issue_verifies :
      (signal_id symbol side nonce key id : String) (tilt_gen : ℕ) (now : R) (forge : CapsuleForge)
      → let c = issue codec signal_id symbol side tilt_gen nonce now forge in
        (verify_signature codec c forge ≡ true)
        × ((verify_signature codec c (rotate_key key id forge) ≡ true) ↔ (
            hmac key (build_message codec signal_id symbol side tilt_gen nonce now)
            ≡ hmac forge.session_key
                (build_message codec signal_id symbol side tilt_gen nonce now)))
  unfolding issue verify_signature rotate_key
  issue_verifies signal_id symbol side nonce key id tilt_gen now forge =
      ((eq_iff _ _).1 refl, eq_iff _ _)

  -- Which capsules pass: the signature is right, the nonce is not among the used ones, the age is
  -- in the window, the generation is the current one and the sentinel allows execution.
  abbrev pub Passes :
      IntentCapsule R → ℕ → R → CapsuleForge → Sentinel R → CapsuleValidator R → Type 0
  Passes c current now forge sentinel v =
      (verify_signature codec c forge ≡ true)
      × (is_used c.nonce v.used_nonces ≡ false)
      × ((v.ttl_sec ≺ age_of codec now c) ≡ false)
      × ((age_of codec now c ≺ (nought ⊖ f.lit 1 1)) ≡ false)
      × (c.tilt_generation ≡ current)
      × (is_execution_allowed sentinel ≡ true)

  -- A capsule is accepted exactly when it passes all checks; then its nonce, and nothing else, is
  -- recorded.
  pub validate_iff :
      (c : IntentCapsule R) (current : ℕ) (now : R) (forge : CapsuleForge) (sentinel : Sentinel R)
      (v : CapsuleValidator R)
      → let (w, verdict) = validate codec c current now forge sentinel v in
        ((verdict.rejection ≡ none) ↔ Passes c current now forge sentinel v)
        × (verdict.rejection ≡ none → w ≡ consume_nonce c.nonce v)
        × (verdict.signal_id ≡ c.signal_id)
  unfolding validate
  validate_iff c current now forge sentinel v =
      ((λ h. ground arith, λ h. ground arith), ground arith, ground arith)

  -- A rejection is counted once in total and once under its base reason, and uses up no nonce.
  pub reject_counts :
      (c : IntentCapsule R) (current : ℕ) (now : R) (forge : CapsuleForge) (sentinel : Sentinel R)
      (v : CapsuleValidator R) (reason : Reason R)
      → let (w, verdict) = validate codec c current now forge sentinel v in
        verdict.rejection ≡ some reason
        → (w.used_nonces ≡ v.used_nonces)
          × (w.nonce_order ≡ v.nonce_order)
          × (w.total_rejections ≡ v.total_rejections + 1)
          × (count_of (lookup (base_reason reason) w.rejection_reasons)
              ≡ count_of (lookup (base_reason reason) v.rejection_reasons) + 1)
  unfolding validate
  reject_counts c current now forge sentinel v reason = ground (
    arith,
    lookup-insert (base_reason reason) (base_reason reason)
        (suc (count_of (lookup (base_reason reason) v.rejection_reasons))) v.rejection_reasons,
    eq_iff (base_reason reason) (base_reason reason),
  )
