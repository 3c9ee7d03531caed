-- ===== src/Healer/Streaks.antt =====
-- src/shared/resilience.py: how many failures it takes to trigger a healing.
use gektor.Base.{
  ℕ, ◌+◌, ◌≤◌, ◌≡◌, refl, ◌∙◌, Bool, true, some, List, [], ◌∷◌, String, str_eq, eq_iff,
  if◌then◌else◌, length, length-append, arith, Bool-cases, inl, inr, Float,
}
use gektor.Base.Dicts.{lookup, insert, lookup-insert}
use gektor.Healer.{
  Healer, contains, failures_or, recent, times_counted, register_failure, finish_healing,
}
use gektor.Healer.Locks.{Event, step, run}

module _ {R : Type 0} where
  -- The failures of the component in the history.
  abbrev pub fails_of : String → List (Event R) → ℕ
  fails_of c [] = 0
  fails_of c (Event.fails component has_callback now ∷ es) =
      (if str_eq component c then 1 else 0) + fails_of c es
  fails_of c (Event.finishes component ∷ es) = fails_of c es

  -- The failures that the healer keeps of the component.
  abbrev pub held : String → Healer R → ℕ
  held c h = length (failures_or (lookup c h.failures))

module _ {R : Type 0} ⦃f : Float R⦄ where
  length-recent : (now window : R) (ts : List R) → length (recent now window ts) ≤ length ts
  unfolding recent
  length-recent now window [] = omega arith
  length-recent now window (t ∷ ts) = ground (arith, length-recent now window ts)

  length-times_counted :
      (c : String) (now : R) (h : Healer R) → length (times_counted c now h) ≤ held c h + 1
  unfolding times_counted
  length-times_counted c now h =
      let ts = failures_or (lookup c h.failures) in
      omega
        (arith, length-append (recent now h.window ts) (now ∷ []), length-recent now h.window ts)

  registered :
      (component : String) (has_callback : Bool) (now : R) (h : Healer R)
      → ((register_failure component has_callback now h).0.failures
          ≡ insert component (times_counted component now h) h.failures)
        × ((register_failure component has_callback now h).0.limit ≡ h.limit)
  unfolding register_failure
  registered component has_callback now h = (ground arith, ground arith)

  inserted-held :
      (c component : String) (now : R) (h : Healer R)
      → length (
          failures_or (
            if str_eq component c
            then some (times_counted component now h)
            else lookup c h.failures))
        ≤ held c h + ((if str_eq component c then 1 else 0) + 0)
  inserted-held c component now h = elim (Bool-cases (str_eq component c)) [
    | inl y ↦
        let z : component ≡ c = (eq_iff component c).0 y in
        rw (y, z) (omega (arith, length-times_counted c now h))
    | inr y ↦ rw y (omega arith)
  ]

  finished-held :
      (c component : String) (h : Healer R)
      → (held c (finish_healing component h) ≤ held c h + 0)
        × ((finish_healing component h).limit ≡ h.limit)
  unfolding finish_healing
  finished-held c component h = elim (Bool-cases (contains component h.tasks)) [
    | inl y ↦ elim (Bool-cases (str_eq component c)) [
      | inl z ↦ rw (y, lookup-insert component c [] h.failures, z) (omega arith, refl)
      | inr z ↦ rw (y, lookup-insert component c [] h.failures, z) (omega arith, refl)
    ]
    | inr y ↦ rw y (omega arith, refl)
  ]

  step-held :
      (c : String) (e : Event R) (h : Healer R)
      → (held c (step e h) ≤ held c h + fails_of c (e ∷ [])) × ((step e h).limit ≡ h.limit)
  unfolding step
  step-held c (Event.fails component has_callback now) h =
      let (kept, limit) = registered component has_callback now h in
      (
        rw (kept, lookup-insert component c (times_counted component now h) h.failures)
            (inserted-held c component now h),
        limit,
      )
  step-held c (Event.finishes component) h = finished-held c component h

  run-held :
      (c : String) (es : List (Event R)) (h : Healer R)
      → (held c (run es h) ≤ held c h + fails_of c es) × ((run es h).limit ≡ h.limit)
  unfolding run
  run-held c [] h = (omega arith, refl)
  run-held c (Event.fails component has_callback now ∷ es) h =
      let e : Event R = Event.fails component has_callback now in
      let (a, b) = step-held c e h in let (p, q) = run-held c es (step e h) in (omega arith, q ∙ b)
  run-held c (Event.finishes component ∷ es) h =
      let e : Event R = Event.finishes component in
      let (a, b) = step-held c e h in let (p, q) = run-held c es (step e h) in (omega arith, q ∙ b)

  healed-held :
      (c : String) (h : Healer R)
      → contains c h.tasks ≡ true
      → (held c (finish_healing c h) ≡ 0) × ((finish_healing c h).limit ≡ h.limit)
  unfolding finish_healing
  healed-held c h e = rw (e, lookup-insert c c [] h.failures, (eq_iff c c).1 refl) (refl, refl)

  trigger-limit :
      (c : String) (has_callback : Bool) (now : R) (h : Healer R)
      → (register_failure c has_callback now h).1 ≡ true
      → h.limit ≤ length (times_counted c now h)
  unfolding register_failure
  trigger-limit c has_callback now h e = ground arith

  -- After the end of a component's healing, whatever its state was, the next healing is triggered by the
  -- `limit`-th failure of the component at the earliest.
  pub limit_needed :
      (c : String) (h : Healer R) (es : List (Event R)) (has_callback : Bool) (now : R)
      → contains c h.tasks ≡ true
      → (register_failure c has_callback now (run es (finish_healing c h))).1 ≡ true
      → h.limit ≤ fails_of c es + 1
  limit_needed c h es has_callback now t e =
      let (start, limit) = healed-held c h t in
      let (grown, same) = run-held c es (finish_healing c h) in
      let k = run es (finish_healing c h) in
      let a = trigger-limit c has_callback now k e in
      let b = length-times_counted c now k in
      let z : k.limit ≡ h.limit = same ∙ limit in omega arith
