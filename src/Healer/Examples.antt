-- ===== src/Healer/Examples.antt =====
-- Failures of a web socket, and the instances of the theorems.
use gektor.Base.{ℕ, ◌≤◌, ◌≡◌, refl, true, false, List, [], ◌∷◌, if◌then◌else◌, milli}
use gektor.Base.Dicts.{lookup, insert}
use gektor.Healer.{Healer, contains, new_healer, register_failure, finish_healing}
use gektor.Healer.Locks.{Event, run, runs_of, one_healing, no_second_healing}
use gektor.Healer.Registries.{Report}

abbrev outage : List (Event ℕ)
outage = Event.fails "ws" true 1 ∷ Event.fails "ws" true 2 ∷ Event.fails "ws" true 3 ∷ []

-- The second failure triggers a healing, the third one finds it running.
healing_runs :
    let h = run outage (new_healer 2 10) in (h.tasks ≡ "ws" ∷ []) × (h.healing_locks ≡ "ws" ∷ [])
unfolding run new_healer lookup insert
healing_runs = (refl, refl)

one_healing_example :
    let h = run outage (new_healer 2 10) in
    runs_of "ws" h.tasks ≤ (if contains "ws" h.healing_locks then 1 else 0)
one_healing_example = one_healing "ws" 2 10 outage

abbrev one_failure : List (Event ℕ)
one_failure = Event.fails "ws" false 1 ∷ []

triggered : (register_failure "ws" false 2 (run one_failure (new_healer 2 10))).1 ≡ true
unfolding run new_healer register_failure lookup insert
triggered = refl

abbrev much_later : List (Event ℕ)
much_later = Event.fails "ws" true 500 ∷ Event.finishes "ws" ∷ []

no_second_healing_example :
    let h = (register_failure "ws" false 2 (run one_failure (new_healer 2 10))).0 in
    (register_failure "ws" true 501 (run much_later h)).1 ≡ false
no_second_healing_example = no_second_healing "ws" 2 10 one_failure much_later 2 501 true triggered

abbrev healing : Healer ℕ
healing = record {
  limit = 2;
  window = 10;
  failures = ("ws", 1 ∷ 2 ∷ []) ∷ [];
  healing_locks = "ws" ∷ [];
  tasks = "ws" ∷ [];
}

triggered_again :
    (register_failure "ws" true 8
      (run (Event.fails "ws" true 7 ∷ []) (finish_healing "ws" healing))).1
    ≡ true
unfolding run finish_healing register_failure lookup insert
triggered_again = refl

abbrev reports : List (Report ℕ)
reports =
    Report.failure "Redis" false 1
    ∷ Report.success "Redis"
    ∷ Report.failure "Redis" false 2
    ∷ Report.failure "Redis" false 3
    ∷ []
