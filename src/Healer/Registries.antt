-- ===== src/Healer/Registries.antt =====
-- src/shared/resilience.py: the failure counts in the registries of the manager.
use gektor.Base.{
  ℕ, ◌+◌, ◌≡◌, refl, Bool, List, [], ◌∷◌, String, str_eq, eq_iff, if◌then◌else◌, arith, Bool-cases,
  inl, inr, Float,
}
use gektor.Base.Dicts.{
  Dict, lookup, insert, erase, IsDict, lookup-insert, lookup-erase, insert-IsDict, erase-IsDict,
}
use gektor.Healer.{Manager, count_or, new_manager, manager_failure, manager_success}

-- What happens to the manager.
pub data Report (R : Type 0) : Type 0 where
  failure : String → Bool → R → Report R
  success : String → Report R

raised_count :
    (s symbol : String) (n : ℕ) (d : Dict ℕ)
    → count_or (lookup s d) ≡ n
    → count_or (lookup s (insert symbol (count_or (lookup symbol d) + 1) d))
      ≡ (if str_eq symbol s then n + 1 else n)
raised_count s symbol n d h = elim (Bool-cases (str_eq symbol s)) [
  | inl y ↦
      let z : symbol ≡ s = (eq_iff symbol s).0 y in rw (lookup-insert symbol s _ d, y, z, h) refl
  | inr y ↦ rw (lookup-insert symbol s _ d, y) h
]

cleared_count :
    (s symbol : String) (n : ℕ) (d : Dict ℕ)
    → IsDict d
    → count_or (lookup s d) ≡ n
    → count_or (lookup s (erase symbol d)) ≡ (if str_eq symbol s then 0 else n)
cleared_count s symbol n d k h = elim (Bool-cases (str_eq symbol s)) [
  | inl y ↦ rw (lookup-erase symbol s d k, y) refl
  | inr y ↦ rw (lookup-erase symbol s d k, y) h
]

module _ {R : Type 0} ⦃f : Float R⦄ where
  unfoldable pub run_manager : List (Report R) → Manager R → Manager R
  unfolding manager_failure manager_success
  run_manager [] m = m
  run_manager (failure symbol has_callback now ∷ rs) m =
      run_manager rs (manager_failure symbol has_callback now m)
  run_manager (success symbol ∷ rs) m = run_manager rs (manager_success symbol m)

  -- The failures of the symbol since its last success.
  abbrev pub since_success : String → List (Report R) → ℕ → ℕ
  since_success s [] n = n
  since_success s (failure symbol has_callback now ∷ rs) n =
      since_success s rs (if str_eq symbol s then n + 1 else n)
  since_success s (success symbol ∷ rs) n = since_success s rs (if str_eq symbol s then 0 else n)

  -- Both registries are sound and count to n for the symbol.
  record Registers (s : String) (n : ℕ) (m : Manager R) : Type 0 where
    failures_dict : IsDict m.failure_registry
    attempts_dict : IsDict m.resource_attempts
    failures_count : count_or (lookup s m.failure_registry) ≡ n
    attempts_count : count_or (lookup s m.resource_attempts) ≡ n

  run-Registers :
      (s : String) (n : ℕ) (rs : List (Report R)) (m : Manager R)
      → Registers s n m
      → Registers s (since_success s rs n) (run_manager rs m)
  unfolding run_manager manager_failure manager_success
  run-Registers s n [] m h = h
  run-Registers s n (failure symbol has_callback now ∷ rs) m h =
      run-Registers s (if str_eq symbol s then n + 1 else n) rs
        (manager_failure symbol has_callback now m)
        (record {
          failures_dict = insert-IsDict symbol _ m.failure_registry h.failures_dict;
          attempts_dict = insert-IsDict symbol _ m.resource_attempts h.attempts_dict;
          failures_count = raised_count s symbol n m.failure_registry h.failures_count;
          attempts_count = raised_count s symbol n m.resource_attempts h.attempts_count;
        })
  run-Registers s n (success symbol ∷ rs) m h =
      run-Registers s (if str_eq symbol s then 0 else n) rs (manager_success symbol m) (record {
        failures_dict = erase-IsDict symbol m.failure_registry h.failures_dict;
        attempts_dict = erase-IsDict symbol m.resource_attempts h.attempts_dict;
        failures_count =
            cleared_count s symbol n m.failure_registry h.failures_dict h.failures_count;
        attempts_count =
            cleared_count s symbol n m.resource_attempts h.attempts_dict h.attempts_count;
      })

  new-Registers : (s : String) → Registers s 0 new_manager
  unfolding new_manager lookup
  new-Registers s = record {
    failures_dict = tt;
    attempts_dict = (refl, (refl, (refl, (refl, tt))));
    failures_count = refl;
    attempts_count = ground arith;
  }

  -- Over every history of a new manager, both registries hold for each symbol the number of its
  -- failures since its last success, an absent entry counting as 0.
  pub registries_count :
      (s : String) (rs : List (Report R))
      → let m = run_manager rs new_manager in
        (count_or (lookup s m.failure_registry) ≡ since_success s rs 0)
        × (count_or (lookup s m.resource_attempts) ≡ since_success s rs 0)
  registries_count s rs =
      let h = run-Registers s 0 rs new_manager (new-Registers s) in
      (h.failures_count, h.attempts_count)
