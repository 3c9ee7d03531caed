-- ===== src/Tilt/Examples.antt =====
-- A concrete sentinel and its histories, on which the theorems are applied. Thousandths stand for
-- seconds and for milliseconds alike.
use gektor.Base.{ℕ, ◌≡◌, refl, false, List, [], ◌∷◌, arith, milli}
use gektor.Tilt.{TiltState, Sentinel, is_execution_allowed}
use gektor.Tilt.Trackers.{new_reaction, new_clicks}
use gektor.Tilt.Blind.{Event, run, blind_until_unlock}
use gektor.Tilt.Samples.{IsBurst}

abbrev fresh : Sentinel ℕ
fresh = record {
  reaction = new_reaction;
  clicks = new_clicks;
  errors = record { streak = 0; max_streak_observed = 0 };
  state = TiltState.clear;
  generation = 0;
  locked_until_mono = 0;
  cooldown_sec = 1_800_000;
  last_heartbeat_mono = 0;
  heartbeat_timeout_sec = 15_000;
  weight_reaction = 400;
  weight_errors = 1000;
  weight_spam = 0;
}

abbrev silent : Sentinel ℕ
silent = record fresh { state = TiltState.blind }

abbrev angry : Sentinel ℕ
angry = record fresh { errors = record { streak = 4; max_streak_observed = 4 } }

abbrev locked : Sentinel ℕ
locked = record angry { state = TiltState.locked; locked_until_mono = 5000 }

abbrev beats : List (Event ℕ)
beats = Event.heartbeat 300 2 1 0 2000 ∷ Event.check 30_000 ∷ Event.heartbeat 250 0 0 1 31_000 ∷ []

blind_until_unlock_example : is_execution_allowed (run beats silent) ≡ false
blind_until_unlock_example = (blind_until_unlock beats silent refl).1

fresh-IsBurst : IsBurst fresh.clicks
unfolding new_clicks
fresh-IsBurst = ground arith
