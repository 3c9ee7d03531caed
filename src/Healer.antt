-- ===== src/Healer.antt =====
-- src/shared/resilience.py: `ComponentHealer`, and the registries of `GlobalResilienceManager` in front of
-- it. The monotonic clock is an argument. A healing task is a name in `tasks` until its callback has
-- returned or raised; logs are left out.
pub mod Locks
pub mod Streaks
pub mod Registries
mod Examples
use gektor.Base.{
  ℕ, ◌+◌, Bool, true, false, not, ◌||◌, Option, none, some, List, [], ◌∷◌, ◌++◌, String, str_eq,
  if◌then◌else◌, leb, length, Float, ◌⊖◌, ◌≼◌,
}
use gektor.Base.Dicts.{Dict, lookup, insert, erase}

pub record Healer (R : Type 0) : Type 0 where
  pub limit : ℕ
  pub window : R
  pub failures : Dict (List R)
  pub healing_locks : List String
  pub tasks : List String  -- the components whose `_run_healing` has not ended

abbrev pub contains : String → List String → Bool
contains name [] = false
contains name (other ∷ rest) = str_eq other name || contains name rest

-- `set.discard`
unfoldable pub discard : String → List String → List String
discard name [] = []
discard name (other ∷ rest) =
    let later = discard name rest in if str_eq other name then later else other ∷ later

-- One task of the component ends.
unfoldable pub end_task : String → List String → List String
end_task name [] = []
end_task name (other ∷ rest) =
    let later = end_task name rest in if str_eq other name then rest else other ∷ later

-- `GlobalResilienceManager`, as far as failures go.
pub record Manager (R : Type 0) : Type 0 where
  pub failure_registry : Dict ℕ
  pub resource_attempts : Dict ℕ
  pub healer : Healer R

-- `d.get(symbol, 0)`
abbrev pub count_or : Option ℕ → ℕ
count_or none = 0
count_or (some n) = n

module _ {R : Type 0} where
  abbrev pub failures_or : Option (List R) → List R
  failures_or none = []
  failures_or (some times) = times

module _ {R : Type 0} ⦃f : Float R⦄ where
  unfoldable pub new_healer : ℕ → R → Healer R
  new_healer failure_limit window_sec = record {
    limit = failure_limit;
    window = window_sec;
    failures = [];
    healing_locks = [];
    tasks = [];
  }

  unfoldable pub recent : R → R → List R → List R
  recent now window [] = []
  recent now window (t ∷ rest) =
      let later = recent now window rest in if now ⊖ t ≼ window then t ∷ later else later

  -- The failures counted, before the limit is tested.
  unfoldable pub times_counted : String → R → Healer R → List R
  unfolding recent
  times_counted component now h =
      recent now h.window (failures_or (lookup component h.failures)) ++ (now ∷ [])

  -- `register_failure`; the flag tells whether there is a recovery callback.
  unfoldable pub register_failure : String → Bool → R → Healer R → Healer R × Bool
  unfolding times_counted
  register_failure component has_callback now h =
      let times = times_counted component now h in
      let k = record h { failures = insert component times h.failures } in
      if leb h.limit (length times)
      then (if contains component h.healing_locks then (k, false) else (
        record k {
          healing_locks = component ∷ h.healing_locks;
          tasks = if has_callback then component ∷ h.tasks else h.tasks;
        },
        true,
      ))
      else (k, false)

  -- The `finally` of `_run_healing`, if such a task runs.
  unfoldable pub finish_healing : String → Healer R → Healer R
  unfolding discard end_task
  finish_healing component h =
      if contains component h.tasks
      then record h {
        failures = insert component [] h.failures;
        healing_locks = discard component h.healing_locks;
        tasks = end_task component h.tasks;
      }
      else h

  unfoldable pub new_manager : Manager R
  unfolding new_healer
  new_manager = record {
    failure_registry = [];
    resource_attempts =
        ("BybitWS_Public", 0) ∷ ("BybitWS_Private", 0) ∷ ("Redis", 0) ∷ ("Telegram", 0) ∷ [];
    healer = new_healer 5 (f.lit 10 0);
  }

  unfoldable pub manager_failure : String → Bool → R → Manager R → Manager R
  unfolding register_failure
  manager_failure symbol has_callback now m = record {
    failure_registry =
        insert symbol (count_or (lookup symbol m.failure_registry) + 1) m.failure_registry;
    resource_attempts =
        insert symbol (count_or (lookup symbol m.resource_attempts) + 1) m.resource_attempts;
    healer = (register_failure symbol has_callback now m.healer).0;
  }

  unfoldable pub manager_success : String → Manager R → Manager R
  manager_success symbol m = record m {
    failure_registry = erase symbol m.failure_registry;
    resource_attempts = erase symbol m.resource_attempts;
  }
