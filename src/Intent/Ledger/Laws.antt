-- ===== src/Intent/Ledger/Laws.antt =====
-- src/domain/intent_ledger.py: what one call of the intent ledger does.
use gektor.Base.{ℕ, ◌+◌, ◌≡◌, ◌↔◌, true, false, none, some, arith, Float, is_some}
use gektor.Intent.Ledger.{ActiveIntent, IntentLedger, validate_click, is_expired}

module _ {R : Type 0} ⦃f : Float R⦄ where
  -- A click is admitted, with the intent `i`, exactly when `i` is the active intent, the click
  -- carries its version, it is not revoked and not expired.
  pub validate_click_iff :
      (v : ℕ) (now : R) (s : IntentLedger R) (i : ActiveIntent R)
      → ((validate_click v now s).1 ≡ some i)
        ↔ ((s.active ≡ some i) × (v ≡ i.version) × (i.revoked ≡ false) × (is_expired now i ≡ false))
  unfolding validate_click
  validate_click_iff v now s i = (λ h. ground arith, λ h. ground arith)

  -- An admitted click leaves the ledger as it is. A refused one is counted as stale, and only if the
  -- intent has expired is it revoked at the same time; no click hands out or takes back a version.
  pub validate_click_effect :
      (v : ℕ) (now : R) (s : IntentLedger R)
      → let (t, result) = validate_click v now s in
        (is_some result ≡ true → t ≡ s)
        × (is_some result ≡ false → t.total_stale_clicks ≡ s.total_stale_clicks + 1)
        × (t.total_revokes + s.version ≡ s.total_revokes + t.version)
        × (s.active ≡ none → t.active ≡ none)
  unfolding validate_click
  validate_click_effect v now s = ground arith
