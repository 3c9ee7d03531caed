-- ===== src/Intent/Ledger/History.antt =====
-- src/domain/intent_ledger.py: histories of calls on the intent ledger, `emit_intent`,
-- `validate_click` and `revoke` in any order, as the bot, the clock and the operator choose them.
use gektor.Base.{
  ℕ, ◌≤◌, ◌<◌, ◌≡◌, String, Bool, true, false, Option, none, some, List, [], ◌∷◌, length,
  length-append, arith, ◌≺◌, ◌⊖◌, Float,
}
use gektor.Intent.Ledger.{
  ActiveIntent, IntentLedger, new, emit_intent, emitted, revoke, validate_click,
}

pub data Call (R : Type 0) : Type 0 where
  emit : String → String → R → R → Option (ℕ × ℕ) → R → R → Call R
  click : ℕ → R → Call R
  cancel : String → Call R

module _ {R : Type 0} ⦃f : Float R⦄ where
  unfoldable pub step : Call R → IntentLedger R → IntentLedger R
  unfolding emit_intent validate_click revoke
  step (Call.emit symbol side price qty msq ttl now) s =
      (emit_intent symbol side price qty msq ttl now s).0
  step (Call.click v now) s = (validate_click v now s).0
  step (Call.cancel reason) s = revoke reason s

  unfoldable pub run : List (Call R) → IntentLedger R → IntentLedger R
  run [] s = s
  run (c ∷ cs) s = run cs (step c s)

  -- The active intent carries a version that was given out, the newest one unless it was revoked,
  -- and each revocation has been pushed once.
  pub record IsValid (s : IntentLedger R) : Type 0 where
    pub issued : (i : ActiveIntent R) → s.active ≡ some i → i.version ≤ s.version
    pub newest :
        (i : ActiveIntent R) → s.active ≡ some i → i.revoked ≡ false → i.version ≡ s.version
    pub pushed : s.has_callback ≡ true → length s.pushes ≡ s.total_revokes
    pub within : s.total_revokes ≤ s.version

  step-IsValid : (c : Call R) (s : IntentLedger R) → IsValid s → IsValid (step c s)
  unfolding step
  step-IsValid (Call.emit symbol side price qty msq ttl now) s h = grind (arith, length-append)
  step-IsValid (Call.click v now) s h = grind (arith, length-append)
  step-IsValid (Call.cancel reason) s h = grind (arith, length-append)

  run-IsValid : (cs : List (Call R)) (s : IntentLedger R) → IsValid s → IsValid (run cs s)
  unfolding run
  run-IsValid [] s h = h
  run-IsValid (c ∷ cs) s h = run-IsValid cs (step c s) (step-IsValid c s h)

  -- After every history of a new ledger the active intent has a version that was given out, the
  -- newest one unless it was revoked, and with a callback each revocation was pushed exactly once.
  pub run-new-IsValid : (callback : Bool) (cs : List (Call R)) → IsValid (run cs (new callback))
  unfolding new
  run-new-IsValid callback cs = run-IsValid cs (new callback) (ground arith)

  -- `v` was given out, and no intent of that version is live.
  abbrev IsDead : ℕ → IntentLedger R → Type 0
  IsDead v s =
      (v ≤ s.version)
      × ((i : ActiveIntent R) → s.active ≡ some i → i.version ≡ v → i.revoked ≡ true)

  step-IsDead : (v : ℕ) (c : Call R) (s : IntentLedger R) → IsDead v s → IsDead v (step c s)
  unfolding step
  step-IsDead v (Call.emit symbol side price qty msq ttl now) s h = grind arith
  step-IsDead v (Call.click w now) s h = grind arith
  step-IsDead v (Call.cancel reason) s h = grind arith

  run-IsDead : (v : ℕ) (cs : List (Call R)) (s : IntentLedger R) → IsDead v s → IsDead v (run cs s)
  unfolding run
  run-IsDead v [] s h = h
  run-IsDead v (c ∷ cs) s h = run-IsDead v cs (step c s) (step-IsDead v c s h)

  click-IsDead :
      (v : ℕ) (now : R) (s : IntentLedger R) → IsDead v s → (validate_click v now s).1 ≡ none
  unfolding validate_click
  click-IsDead v now s h = grind arith

  -- In a valid ledger, once the active intent is revoked, or another intent is emitted over it,
  -- no later history lets a click with its version through.
  pub dead_click_stays_dead :
      (s : IntentLedger R) (i : ActiveIntent R) (cs : List (Call R)) (now : R) (reason : String)
      (symbol side : String) (price qty : R) (msq : Option (ℕ × ℕ)) (ttl at : R)
      → IsValid s
      → s.active ≡ some i
      → ((validate_click i.version now (run cs (revoke reason s))).1 ≡ none)
        × ((validate_click i.version now
              (run cs (emit_intent symbol side price qty msq ttl at s).0)).1
            ≡ none)
  unfolding revoke emit_intent
  dead_click_stays_dead s i cs now reason symbol side price qty msq ttl at h a = (
    click-IsDead i.version now _ (run-IsDead i.version cs (revoke reason s) (grind arith)),
    click-IsDead i.version now _
        (run-IsDead i.version cs (emit_intent symbol side price qty msq ttl at s).0 (grind arith)),
  )

  -- An emission hands out a version above all earlier ones. Its click is admitted, with what was
  -- emitted and nothing changed, as long as the time to live has not passed; the first click after
  -- that is refused and revokes the intent, so that a click with an earlier clock is refused too.
  pub fresh_click :
      (s : IntentLedger R) (symbol side : String) (price qty : R) (msq : Option (ℕ × ℕ))
      (ttl at now later : R)
      → let (t, v) = emit_intent symbol side price qty msq ttl at s in
        (s.version < v)
        × ((ttl ≺ now ⊖ at) ≡ false
            → validate_click v now t ≡ (t, some (emitted v symbol side price qty msq ttl at)))
        × ((ttl ≺ now ⊖ at) ≡ true
            → ((validate_click v now t).1 ≡ none)
              × ((validate_click v later (validate_click v now t).0).1 ≡ none))
  unfolding emit_intent validate_click
  fresh_click s symbol side price qty msq ttl at now later =
      (ground arith, λ h. ground arith, λ h. ground arith)
