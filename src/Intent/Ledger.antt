-- ===== src/Intent/Ledger.antt =====
-- src/domain/intent_ledger.py: `IntentLedger`. A method returns the new state; the clock that it
-- reads (`time.monotonic()`) is an argument, and the calls of the revoke callback are kept in
-- `pushes`. An exception of the callback is swallowed by the source, so it leaves no trace here.
pub mod Laws
pub mod History
use gektor.Base.{
  ℕ, ◌+◌, String, Bool, true, false, not, Option, none, some, List, [], ◌∷◌, ◌++◌, ◌==◌,
  if◌then◌else◌, Float, ◌⊖◌, ◌≺◌, ◌≼◌, is_some,
}

pub record ActiveIntent (R : Type 0) : Type 0 where
  pub version : ℕ
  pub symbol : String
  pub side : String
  pub price : R
  pub qty : R
  pub msq : Option (ℕ × ℕ)
  pub emitted_mono : R
  pub ttl_sec : R
  pub revoked : Bool
  pub revoke_reason : String

-- One call of the revoke callback.
pub record Push : Type 0 where
  pub version : ℕ
  pub symbol : String
  pub reason : String

pub record IntentLedger (R : Type 0) : Type 0 where
  pub version : ℕ
  pub active : Option (ActiveIntent R)
  pub has_callback : Bool  -- `_revoke_callback is not None`
  pub pushes : List Push
  pub total_revokes : ℕ
  pub total_stale_clicks : ℕ

-- `__init__`
unfoldable pub new : {R : Type 0} → Bool → IntentLedger R
new callback = record {
  version = 0;
  active = none;
  has_callback = callback;
  pushes = [];
  total_revokes = 0;
  total_stale_clicks = 0;
}

module _ {R : Type 0} ⦃f : Float R⦄ where
  -- The `ActiveIntent` that `emit_intent` builds.
  abbrev pub emitted : ℕ → String → String → R → R → Option (ℕ × ℕ) → R → R → ActiveIntent R
  emitted version symbol side price qty msq ttl now = record {
    version = version;
    symbol = symbol;
    side = side;
    price = price;
    qty = qty;
    msq = msq;
    emitted_mono = now;
    ttl_sec = ttl;
    revoked = false;
    revoke_reason = "";
  }

  -- `emit_intent`: the new version is what goes into the operator's payload.
  unfoldable pub emit_intent :
      String → String → R → R → Option (ℕ × ℕ) → R → R → IntentLedger R → IntentLedger R × ℕ
  emit_intent symbol side price qty msq ttl now s =
      let fresh = s.version + 1 in
      (
        record s {
          version = fresh;
          active = some (emitted fresh symbol side price qty msq ttl now);
        },
        fresh,
      )

  -- The body of `revoke` once an intent that is not revoked is at hand.
  abbrev withdraw : String → ActiveIntent R → IntentLedger R → IntentLedger R
  withdraw reason i s = record s {
    active = some (record i { revoked = true; revoke_reason = reason });
    total_revokes = s.total_revokes + 1;
    version = s.version + 1;
    pushes =
        if s.has_callback
        then s.pushes ++ (record { version = i.version; symbol = i.symbol; reason = reason } ∷ [])
        else s.pushes;
  }

  -- `revoke`
  unfoldable pub revoke : String → IntentLedger R → IntentLedger R
  revoke reason s = elim s.active [
    | none ↦ s
    | some i ↦ if i.revoked then s else withdraw reason i s
  ]

  abbrev stale : IntentLedger R → IntentLedger R
  stale s = record s { total_stale_clicks = s.total_stale_clicks + 1 }

  -- `elapsed > ttl_sec`
  abbrev pub is_expired : R → ActiveIntent R → Bool
  is_expired now i = i.ttl_sec ≺ now ⊖ i.emitted_mono

  -- `validate_click`
  unfoldable pub validate_click : ℕ → R → IntentLedger R → IntentLedger R × Option (ActiveIntent R)
  unfolding revoke
  validate_click intent_version now s = elim s.active [
    | none ↦ (stale s, none)
    | some i ↦
        if not (intent_version == i.version)
        then (stale s, none)
        else if i.revoked
        then (stale s, none)
        else if is_expired now i
        then (revoke "TTL_EXPIRED" (stale s), none)
        else (s, some i)
  ]

  -- `has_active_intent`
  unfoldable pub has_active_intent : R → IntentLedger R → Bool
  has_active_intent now s = elim s.active [
    | none ↦ false
    | some i ↦ if i.revoked then false else now ⊖ i.emitted_mono ≼ i.ttl_sec
  ]
