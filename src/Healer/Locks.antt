-- ===== src/Healer/Locks.antt =====
-- src/shared/resilience.py: the healing tasks of one component, and its lock.
use gektor.Base.{
  ℕ, ◌+◌, ◌≤◌, ◌≡◌, refl, Bool, true, false, List, [], ◌∷◌, String, str_eq, eq_iff, if◌then◌else◌,
  leb, length, arith, Bool-cases, inl, inr, Float,
}
use gektor.Healer.{
  Healer, contains, discard, end_task, new_healer, times_counted, register_failure, finish_healing,
}

-- What happens to a healer: failures, with and without a callback, and ends of healing tasks.
pub data Event (R : Type 0) : Type 0 where
  fails : String → Bool → R → Event R
  finishes : String → Event R

unfoldable pub runs_of : String → List String → ℕ
runs_of name [] = 0
runs_of name (other ∷ rest) = (if str_eq other name then 1 else 0) + runs_of name rest

contains-discard :
    (c name : String) (xs : List String)
    → contains c (discard name xs) ≡ (if str_eq name c then false else contains c xs)
unfolding discard
contains-discard c name [] = ground arith
contains-discard c name (x ∷ xs) =
    ground (arith, eq_iff x name, eq_iff x c, eq_iff name c, contains-discard c name xs)

runs-end_task :
    (c name : String) (xs : List String)
    → contains name xs ≡ true
    → runs_of c (end_task name xs) + (if str_eq name c then 1 else 0) ≡ runs_of c xs
unfolding end_task runs_of
runs-end_task c name [] h = absurd (cc)
runs-end_task c name (x ∷ xs) h =
    ground (arith, eq_iff x name, eq_iff x c, eq_iff name c, runs-end_task c name xs)

none-runs : (c : String) (xs : List String) → contains c xs ≡ true → 1 ≤ runs_of c xs
unfolding runs_of
none-runs c [] h = absurd (cc)
none-runs c (x ∷ xs) h = ground (arith, none-runs c xs)

module _ {R : Type 0} ⦃f : Float R⦄ where
  unfoldable pub step : Event R → Healer R → Healer R
  unfolding register_failure finish_healing
  step (fails component has_callback now) h = (register_failure component has_callback now h).0
  step (finishes component) h = finish_healing component h

  unfoldable pub run : List (Event R) → Healer R → Healer R
  unfolding step
  run [] h = h
  run (e ∷ es) h = run es (step e h)

  -- A component is healed by at most one task, and only while it is locked.
  abbrev pub IsLocked : String → Healer R → Type 0
  IsLocked c h = runs_of c h.tasks ≤ (if contains c h.healing_locks then 1 else 0)

  step-IsLocked : (c : String) (e : Event R) (h : Healer R) → IsLocked c h → IsLocked c (step e h)
  unfolding step register_failure finish_healing runs_of
  step-IsLocked c (fails component has_callback now) h k = ground (arith, eq_iff component c)
  step-IsLocked c (finishes component) h k = elim (Bool-cases (contains component h.tasks)) [
    | inl y ↦
        let r = runs-end_task c component h.tasks y in
        rw (y, contains-discard c component h.healing_locks) (ground (arith, eq_iff component c))
    | inr y ↦ rw y k
  ]

  run-IsLocked :
      (c : String) (es : List (Event R)) (h : Healer R) → IsLocked c h → IsLocked c (run es h)
  unfolding run
  run-IsLocked c [] h k = k
  run-IsLocked c (e ∷ es) h k = run-IsLocked c es (step e h) (step-IsLocked c e h k)

  -- Over every history of a new healer, at most one healing task runs for a component, and only while
  -- the component is locked.
  pub one_healing :
      (c : String) (limit : ℕ) (window : R) (es : List (Event R))
      → let h = run es (new_healer limit window) in
        runs_of c h.tasks ≤ (if contains c h.healing_locks then 1 else 0)
  unfolding new_healer runs_of
  one_healing c limit window es = run-IsLocked c es (new_healer limit window) (omega arith)

  -- The component is locked, and no task of its will unlock it.
  pub record IsDead (c : String) (h : Healer R) : Type 0 where
    pub locked : contains c h.healing_locks ≡ true
    pub idle : runs_of c h.tasks ≡ 0

  step-IsDead : (c : String) (e : Event R) (h : Healer R) → IsDead c h → IsDead c (step e h)
  unfolding step register_failure finish_healing runs_of
  step-IsDead c (fails component has_callback now) h d =
      let l = d.locked in let i = d.idle in ground (arith, eq_iff component c)
  step-IsDead c (finishes component) h d = elim (Bool-cases (contains component h.tasks)) [
    | inl y ↦
        let r = runs-end_task c component h.tasks y in
        let l = d.locked in
        let i = d.idle in
        let n : str_eq component c ≡ false =
          ground (arith, eq_iff component c, none-runs c h.tasks) in
        rw y (record {
          locked = rw (contains-discard c component h.healing_locks, n) l;
          idle = let z = rw n at r in omega arith;
        })
    | inr y ↦ rw y d
  ]

  run-IsDead : (c : String) (es : List (Event R)) (h : Healer R) → IsDead c h → IsDead c (run es h)
  unfolding run
  run-IsDead c [] h d = d
  run-IsDead c (e ∷ es) h d = run-IsDead c es (step e h) (step-IsDead c e h d)

  dead-silent :
      (c : String) (has_callback : Bool) (now : R) (h : Healer R)
      → IsDead c h
      → (register_failure c has_callback now h).1 ≡ false
  unfolding register_failure
  dead-silent c has_callback now h d = let l = d.locked in ground arith

  silence-IsDead :
      (c : String) (now : R) (h : Healer R)
      → IsLocked c h
      → (register_failure c false now h).1 ≡ true
      → IsDead c (register_failure c false now h).0
  unfolding register_failure
  silence-IsDead c now h k e = elim (Bool-cases (leb h.limit (length (times_counted c now h)))) [
    | inl y ↦ elim (Bool-cases (contains c h.healing_locks)) [
      | inl z ↦ absurd (let q = rw (y, z) at e in cc)
      | inr z ↦
          let r = rw z at k in
          rw (y, z) (record { locked = rw ((eq_iff c c).1 refl) refl; idle = omega arith })
    ]
    | inr y ↦ absurd (let q = rw y at e in cc)
  ]

  -- Over every history of a new healer: once a failure of a component has triggered a healing without a
  -- callback, no later failure of it triggers one, with or without a callback, whatever happens between.
  pub no_second_healing :
      (c : String) (limit : ℕ) (window : R) (before after : List (Event R)) (now later : R)
      (has_callback : Bool)
      → (register_failure c false now (run before (new_healer limit window))).1 ≡ true
      → let h = (register_failure c false now (run before (new_healer limit window))).0 in
        (register_failure c has_callback later (run after h)).1 ≡ false
  no_second_healing c limit window before after now later has_callback e =
      let g = run before (new_healer limit window) in
      let h = (register_failure c false now g).0 in
      dead-silent c has_callback later (run after h)
        (run-IsDead c after h (silence-IsDead c now g (one_healing c limit window before) e))
