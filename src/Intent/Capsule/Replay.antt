-- ===== src/Intent/Capsule/Replay.antt =====
-- src/domain/intent_capsule.py: the bounded cache of used nonces.
use gektor.Base.{
  ℕ, suc, ◌+◌, ◌-◌, ◌≤◌, ◌<◌, ◌≡◌, refl, ap, ◌∙◌, ◌⊎◌, inl, inr, String, true, false, none, List,
  [], ◌∷◌, ◌++◌, eq_iff, length, length-append, drop, length-drop, Float, arith, is_some, lt→ltb,
  if◌then◌else◌, drop-append,
}
use mathlib.Core.List.{append_assoc}
use native.Mathlib.Decide.{dec_lt}
use gektor.Tilt.{Sentinel}
use gektor.Intent.Capsule.{
  Codec, IntentCapsule, CapsuleForge, CapsuleValidator, CapsuleVerdict, is_used, add_used, discard,
  evict, consume_nonce, validate,
}

discard-head : (x : String) (xs : List String) → discard x (x ∷ xs) ≡ xs
unfolding discard
discard-head x xs = ground (arith, eq_iff x x)

-- With the set and the order in step, the loop keeps the last `bound` nonces.
evict_lem :
    (bound : ℕ) (xs : List String)
    → evict bound xs xs ≡ (drop (length xs - bound) xs, drop (length xs - bound) xs)
unfolding evict
evict_lem bound [] = let e : 0 - bound ≡ 0 = omega arith in rw e
evict_lem bound (x ∷ xs) = elim (dec_lt bound (suc (length xs))) [
  | yes p ↦
      let e : suc (length xs) - bound ≡ suc (length xs - bound) = omega arith in
      rw (lt→ltb bound (suc (length xs)) p, e, discard-head x xs) (evict_lem bound xs)
  | no p ↦ let e : suc (length xs) - bound ≡ 0 = omega arith in rw e (ground arith)
]

add_used-new :
    (x : String) (xs : List String) → is_used x xs ≡ false → add_used x xs ≡ xs ++ (x ∷ [])
unfolding add_used
add_used-new x xs h = ground arith

is_used-middle : (x : String) (pre post : List String) → is_used x (pre ++ (x ∷ post)) ≡ true
unfolding is_used
is_used-middle x [] post = ground (arith, eq_iff x x)
is_used-middle x (y ∷ pre) post = ground (arith, is_used-middle x pre post)

length-snoc : (xs : List String) (x : String) → length (xs ++ (x ∷ [])) ≡ length xs + 1
length-snoc xs x = length-append xs (x ∷ [])

drop-middle :
    (n : ℕ) (x y : String) (order pre post : List String)
    → order ≡ pre ++ (x ∷ post)
    → n ≤ length pre
    → drop n (order ++ (y ∷ [])) ≡ drop n pre ++ (x ∷ (post ++ (y ∷ [])))
drop-middle n x y order pre post e h =
    rw (e, append_assoc pre (x ∷ post) (y ∷ [])) (drop-append n pre (x ∷ (post ++ (y ∷ []))) h)

module _ {R : Type 0} where
  -- The set and the order list hold the same nonces, as many as the cache allows.
  pub record IsCache (v : CapsuleValidator R) : Type 0 where
    pub in_step : v.used_nonces ≡ v.nonce_order
    pub bounded : length v.nonce_order ≤ v.max_nonce_cache

  consume_nonce_lem :
      (x : String) (v : CapsuleValidator R)
      → IsCache v
      → is_used x v.used_nonces ≡ false
      → let kept =
          drop (length v.nonce_order + 1 - v.max_nonce_cache) (v.nonce_order ++ (x ∷ [])) in
        consume_nonce x v ≡ record v { used_nonces = kept; nonce_order = kept }
  unfolding consume_nonce
  consume_nonce_lem x v h new =
      rw (h.in_step, ← length-snoc v.nonce_order x)
        (rw (add_used-new x v.nonce_order (rw h.in_step at new), evict_lem) refl)

  -- `x` is among the used nonces, with at most `k` newer ones behind it.
  abbrev Recent : String → ℕ → CapsuleValidator R → Type 0
  Recent x k v =
      (pre : List String) × (post : List String) × (v.nonce_order ≡ pre ++ (x ∷ post))
      × (length post ≤ k)

  consume-Recent :
      (x y : String) (k : ℕ) (v : CapsuleValidator R)
      → IsCache v
      → is_used y v.used_nonces ≡ false
      → k + 1 < v.max_nonce_cache
      → Recent x k v
      → Recent x (k + 1) (consume_nonce y v)
  consume-Recent x y k v h new room (pre, post, e, l) = rw (consume_nonce_lem y v h new) (
    drop d pre,
    post ++ (y ∷ []),
    drop-middle d x y v.nonce_order pre post e
        (omega (arith, ap length e, length-append pre (x ∷ post))),
    omega (arith, length-snoc post y),
  )
    where
      d : ℕ
      d = length v.nonce_order + 1 - v.max_nonce_cache

  consume-IsCache :
      (y : String) (v : CapsuleValidator R)
      → IsCache v
      → is_used y v.used_nonces ≡ false
      → IsCache (consume_nonce y v)
  consume-IsCache y v h new = rw (consume_nonce_lem y v h new) (record {
    in_step = refl;
    bounded = omega (
      arith,
      length-drop {0} (length v.nonce_order + 1 - v.max_nonce_cache) (v.nonce_order ++ (y ∷ [])),
      length-snoc v.nonce_order y,
    );
  })

  consume-first :
      (y : String) (v : CapsuleValidator R)
      → IsCache v
      → is_used y v.used_nonces ≡ false
      → 0 < v.max_nonce_cache
      → Recent y 0 (consume_nonce y v)
  consume-first y v h new room = rw (consume_nonce_lem y v h new) (
    drop (length v.nonce_order + 1 - v.max_nonce_cache) v.nonce_order,
    [],
    drop-append _ v.nonce_order (y ∷ []) (omega arith),
    omega arith,
  )

  Recent-is_used :
      (x : String) (k : ℕ) (v : CapsuleValidator R)
      → IsCache v
      → Recent x k v
      → is_used x v.used_nonces ≡ true
  Recent-is_used x k v h (pre, post, e, l) = rw (h.in_step, e) (is_used-middle x pre post)

-- One call of `validate`, and a series of them: any capsules, clocks, sentinels and keys.
pub record Attempt (R : Type 0) : Type 0 where
  pub capsule : IntentCapsule R
  pub current : ℕ
  pub now : R
  pub forge : CapsuleForge
  pub sentinel : Sentinel R

module _ {R : Type 0} ⦃f : Float R⦄ (codec : Codec R) where
  abbrev pub attempt : Attempt R → CapsuleValidator R → CapsuleValidator R × CapsuleVerdict R
  attempt a v = validate codec a.capsule a.current a.now a.forge a.sentinel v

  unfoldable pub attempts : List (Attempt R) → CapsuleValidator R → CapsuleValidator R
  attempts [] v = v
  attempts (a ∷ rest) v = attempts rest (attempt a v).0

  -- How many of the attempts are accepted.
  unfoldable pub accepted : List (Attempt R) → CapsuleValidator R → ℕ
  accepted [] v = 0
  accepted (a ∷ rest) v =
      (if is_some (attempt a v).1.rejection then 0 else 1) + accepted rest (attempt a v).0

  attempt-outcome :
      (a : Attempt R) (v : CapsuleValidator R)
      → let (w, verdict) = attempt a v in
        ((verdict.rejection ≡ none)
          × (is_used a.capsule.nonce v.used_nonces ≡ false)
          × (w ≡ consume_nonce a.capsule.nonce v)
          × (w.max_nonce_cache ≡ v.max_nonce_cache))
        ⊎ ((is_some verdict.rejection ≡ true)
            × (w.used_nonces ≡ v.used_nonces)
            × (w.nonce_order ≡ v.nonce_order)
            × (w.max_nonce_cache ≡ v.max_nonce_cache))
  unfolding validate consume_nonce
  attempt-outcome a v = ground arith

  attempt-keeps :
      (x : String) (k : ℕ) (a : Attempt R) (rest : List (Attempt R)) (v : CapsuleValidator R)
      → IsCache v
      → Recent x k v
      → k + accepted (a ∷ rest) v < v.max_nonce_cache
      → (j : ℕ) × IsCache (attempt a v).0
        × Recent x j (attempt a v).0
        × (j + accepted rest (attempt a v).0 < (attempt a v).0.max_nonce_cache)
  unfolding accepted
  attempt-keeps x k a rest v h r room = elim (attempt-outcome a v) [
    | inl (ok, new, e, m) ↦ (
      k + 1,
      rw e (consume-IsCache a.capsule.nonce v h new),
      rw e (consume-Recent x a.capsule.nonce k v h new (ground arith) r),
      ground arith,
    )
    | inr (refused, u, o, m) ↦ (
      k,
      record { in_step = cc; bounded = rw (o, m) h.bounded },
      (r.0, r.1, o ∙ r.2, r.3),
      ground arith,
    )
  ]

  attempts-keep :
      (x : String) (k : ℕ) (later : List (Attempt R)) (v : CapsuleValidator R)
      → IsCache v
      → Recent x k v
      → k + accepted later v < v.max_nonce_cache
      → is_used x (attempts later v).used_nonces ≡ true
  unfolding attempts
  attempts-keep x k [] v h r room = Recent-is_used x k v h r
  attempts-keep x k (a ∷ rest) v h r room =
      let (j, h', r', room') = attempt-keeps x k a rest v h r room in
      attempts-keep x j rest (attempt a v).0 h' r' room'

  used-refused :
      (b : Attempt R) (v : CapsuleValidator R)
      → is_used b.capsule.nonce v.used_nonces ≡ true
      → is_some (attempt b v).1.rejection ≡ true
  unfolding validate
  used-refused b v h = ground arith

  -- Replay, for a cache that is in step and holds at least one nonce: once a nonce has been
  -- accepted, every capsule that carries it is refused, whatever was submitted in between, as
  -- long as fewer other capsules than the cache holds were accepted since.
  pub no_replay :
      (a b : Attempt R) (later : List (Attempt R)) (v : CapsuleValidator R)
      → IsCache v
      → 0 < v.max_nonce_cache
      → (attempt a v).1.rejection ≡ none
      → b.capsule.nonce ≡ a.capsule.nonce
      → accepted later (attempt a v).0 < v.max_nonce_cache
      → is_some (attempt b (attempts later (attempt a v).0)).1.rejection ≡ true
  no_replay a b later v h room ok same few = elim (attempt-outcome a v) [
    | inl (_, new, e, m) ↦ used-refused b _ (
        rw same (
          attempts-keep a.capsule.nonce 0 later (attempt a v).0
            (rw e (consume-IsCache a.capsule.nonce v h new))
            (rw e (consume-first a.capsule.nonce v h new room)) (omega arith)))
    | inr (refused, _, _, _) ↦ ground arith
  ]
