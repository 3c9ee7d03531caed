-- ===== src/Intent/Capsule.antt =====
-- src/domain/intent_capsule.py: `CapsuleForge` and `CapsuleValidator`. What `os.urandom` and the
-- clock return are arguments. HMAC-SHA256 and the formatting of numbers are a `Codec`.
pub mod Laws
pub mod Replay
use gektor.Base.{
  ℕ, zero, suc, ◌+◌, String, Bool, true, false, not, ◌||◌, Option, none, some, List, [], ◌∷◌, ◌++◌,
  str_eq, bar, if◌then◌else◌, ltb, ◌==◌, length, Float, ◌⊖◌, ◌≺◌, nought,
}
use gektor.Base.Dicts.{Dict, lookup, insert}
use gektor.Tilt.{Sentinel, is_execution_allowed}

-- `hmac.new(key, message, sha256).hexdigest()`, and the two formats in the signed message.
pub record Codec (R : Type 0) : Type 0 where
  pub hmac : String → String → String
  pub show_int : ℕ → String
  pub show_mono : R → String  -- `{mono:.6f}`

pub record IntentCapsule (R : Type 0) : Type 0 where
  pub signal_id : String
  pub symbol : String
  pub side : String
  pub tilt_generation : ℕ
  pub nonce : String
  pub issued_at_mono : R
  pub signature : String

-- The `rejection_reason`, with the numbers that its text shows.
pub data Reason (R : Type 0) : Type 0 where
  hmac_invalid nonce_replay clock_manipulation tilt_locked intent_invalid : Reason R
  ttl_expired : R → R → Reason R
  tilt_gen_mismatch : ℕ → ℕ → Reason R

pub record CapsuleVerdict (R : Type 0) : Type 0 where
  pub rejection : Option (Reason R)  -- `none` is `allowed=True`
  pub signal_id : String

pub record CapsuleForge : Type 0 where
  pub session_key : String
  pub session_id : String

pub record CapsuleValidator (R : Type 0) : Type 0 where
  pub used_nonces : List String
  pub nonce_order : List String
  pub max_nonce_cache : ℕ
  pub ttl_sec : R
  pub total_rejections : ℕ
  pub rejection_reasons : Dict ℕ

-- `x in used`, `used.add(x)`, `used.discard(x)`
unfoldable pub is_used : String → List String → Bool
is_used x [] = false
is_used x (y ∷ ys) = str_eq y x || is_used x ys

unfoldable pub add_used : String → List String → List String
unfolding is_used
add_used x ys = if is_used x ys then ys else ys ++ (x ∷ [])

unfoldable pub discard : String → List String → List String
discard x [] = []
discard x (y ∷ ys) = let rest = discard x ys in if str_eq y x then ys else y ∷ rest

-- The text before the parenthesis, under which a rejection is counted.
unfoldable pub base_reason : {R : Type 0} → Reason R → String
base_reason Reason.hmac_invalid = "HMAC_INVALID"
base_reason Reason.nonce_replay = "NONCE_REPLAY"
base_reason Reason.clock_manipulation = "CLOCK_MANIPULATION"
base_reason Reason.tilt_locked = "TILT_LOCKED"
base_reason Reason.intent_invalid = "INTENT_INVALID"
base_reason (Reason.ttl_expired age ttl) = "TTL_EXPIRED"
base_reason (Reason.tilt_gen_mismatch mine current) = "TILT_GEN_MISMATCH"

-- The loop of `_consume_nonce`: the oldest nonces leave while the set is too large. (On an empty
-- order list `pop(0)` would raise; `validate` keeps the two in step, so that it is not reached.)
unfoldable pub evict : ℕ → List String → List String → List String × List String
evict bound used [] = (used, [])
evict bound used (oldest ∷ order) =
    let rest = evict bound (discard oldest used) order in
    if ltb bound (length used) then rest else (used, oldest ∷ order)

unfoldable pub consume_nonce : {R : Type 0} → String → CapsuleValidator R → CapsuleValidator R
unfolding evict
consume_nonce nonce v =
    let (used, order) =
      evict v.max_nonce_cache (add_used nonce v.used_nonces) (v.nonce_order ++ (nonce ∷ [])) in
    record v { used_nonces = used; nonce_order = order }

-- `dict.get(key, 0)`
abbrev pub count_of : Option ℕ → ℕ
count_of none = 0
count_of (some n) = n

-- `_reject`
unfoldable pub reject :
    {R : Type 0} → Reason R → String → CapsuleValidator R → CapsuleValidator R × CapsuleVerdict R
unfolding base_reason
reject reason signal_id v =
    let base = base_reason reason in
    (
      record v {
        total_rejections = v.total_rejections + 1;
        rejection_reasons =
            insert base (suc (count_of (lookup base v.rejection_reasons))) v.rejection_reasons;
      },
      record { rejection = some reason; signal_id = signal_id },
    )

module _ {R : Type 0} ⦃f : Float R⦄ (codec : Codec R) where
  open f use {lit}
  open codec use {hmac, show_int, show_mono}

  -- `_build_message`
  unfoldable pub build_message : String → String → String → ℕ → String → R → String
  build_message signal_id symbol side tilt_gen nonce mono =
      bar signal_id (bar symbol (bar side (bar (show_int tilt_gen) (bar nonce (show_mono mono)))))

  -- `issue`; `nonce` is `os.urandom(16).hex()`.
  unfoldable pub issue : String → String → String → ℕ → String → R → CapsuleForge → IntentCapsule R
  issue signal_id symbol side tilt_generation nonce now forge = record {
    signal_id = signal_id;
    symbol = symbol;
    side = side;
    tilt_generation = tilt_generation;
    nonce = nonce;
    issued_at_mono = now;
    signature =
        hmac forge.session_key (build_message signal_id symbol side tilt_generation nonce now);
  }

  -- `verify_signature`; `compare_digest` is equality in constant time.
  unfoldable pub verify_signature : IntentCapsule R → CapsuleForge → Bool
  verify_signature c forge =
      str_eq
        (hmac forge.session_key
          (build_message c.signal_id c.symbol c.side c.tilt_generation c.nonce c.issued_at_mono))
        c.signature

  abbrev pub age_of : R → IntentCapsule R → R
  age_of now c = now ⊖ c.issued_at_mono

  -- `validate`; the validator holds references to its forge and to the sentinel.
  unfoldable pub validate :
      IntentCapsule R
      → ℕ
      → R
      → CapsuleForge
      → Sentinel R
      → CapsuleValidator R
      → CapsuleValidator R × CapsuleVerdict R
  unfolding reject consume_nonce
  validate c current_tilt_generation now forge sentinel v =
      if not (verify_signature c forge)
      then reject Reason.hmac_invalid c.signal_id v
      else if is_used c.nonce v.used_nonces
      then reject Reason.nonce_replay c.signal_id v
      else if v.ttl_sec ≺ age_of now c
      then reject (Reason.ttl_expired (age_of now c) v.ttl_sec) c.signal_id v
      else if age_of now c ≺ (nought ⊖ lit 1 1)
      then reject Reason.clock_manipulation c.signal_id v
      else if not (c.tilt_generation == current_tilt_generation)
      then reject (Reason.tilt_gen_mismatch c.tilt_generation current_tilt_generation) c.signal_id v
      else if not (is_execution_allowed sentinel)
      then reject Reason.tilt_locked c.signal_id v
      else (consume_nonce c.nonce v, record { rejection = none; signal_id = c.signal_id })

-- `rotate_key`; the two arguments come from `os.urandom`.
unfoldable pub rotate_key : String → String → CapsuleForge → CapsuleForge
rotate_key key id forge = record { session_key = key; session_id = id }
