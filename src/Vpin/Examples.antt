-- ===== src/Vpin/Examples.antt =====
-- Runs of the engine on whole numbers, and the instances of its theorems.
use gektor.Base.{
  ℕ, ◌≡◌, refl, ℤ, pos, eq_of_parts, true, false, some, is_some, List, [], ◌∷◌, ◌++◌, arith, ◌⊕◌,
}
use gektor.Base.Wholes.{whole, plus, minus, plus_lem, minus_lem, of_parts}
use gektor.Vpin.{
  Bar, Surroundings, Vpin, new, reset_o1, sum, decayed, push_bar, vpin_of, push_vpin, z_score_of,
  counted_bar, signal_of, assess, process_bar,
}
use gektor.Vpin.Window.{run, closes_of, Says, process_bar-Says}
use gektor.Vpin.Sums.{IsExact, Calm, sum_agrees, reset_drifts}

whole-IsExact : IsExact whole
whole-IsExact = record {
  replace = λ a x s.
      eq_of_parts (plus a s) (plus (plus x s) (minus a x))
        (omega (arith, plus_lem a s, plus_lem x s, minus_lem a x, plus_lem (plus x s) (minus a x)));
  assoc = λ a b c.
      eq_of_parts (plus a (plus b c)) (plus (plus a b) c)
        (omega (arith, plus_lem b c, plus_lem a b, plus_lem a (plus b c), plus_lem (plus a b) c));
  swap = λ a b c.
      eq_of_parts (plus (plus a b) c) (plus (plus a c) b)
        (omega (arith, plus_lem a b, plus_lem a c, plus_lem (plus a b) c, plus_lem (plus a c) b));
  left_zero = λ a. eq_of_parts (plus (pos 0) a) a (omega (arith, plus_lem (pos 0) a));
  right_zero = λ a. eq_of_parts (plus a (pos 0)) a (omega (arith, plus_lem a (pos 0)));
}

abbrev around : Surroundings ℤ
around = record {
  time_gap_sec = pos 900;
  decay_tau_hours = pos 4;
  exp_minus = λ a. pos 0;
  sqrt = λ a. pos 1;
}

abbrev engine : Vpin ℤ
engine = record {
  window_size = 2;
  z_history_size = 3;
  volume_threshold = pos 10;
  anomaly_threshold_z = pos 2;
  rebuild_interval = 100;
  imbalances = pos 0 ∷ pos 0 ∷ [];
  price_history = pos 0 ∷ pos 0 ∷ [];
  vpin_history = pos 0 ∷ pos 0 ∷ pos 0 ∷ [];
  index = 0;
  is_filled = false;
  running_imbalance_sum = pos 0;
  z_index = 0;
  z_count = 0;
  vpin_sum = pos 0;
  vpin_sq_sum = pos 0;
  last_update_time = pos 0;
  bars_since_rebuild = 0;
}

engine_built : new 2 (pos 10) (pos 2) 3 100 (pos 0) ≡ some engine
unfolding new reset_o1
engine_built = refl

abbrev bar_at : ℕ → Bar ℤ
bar_at price = record { buy_volume_usd = pos 8; sell_volume_usd = pos 2; close = pos price }

abbrev two_bars : List (ℤ × Bar ℤ)
two_bars = (pos 1, bar_at 50) ∷ (pos 2, bar_at 51) ∷ []

second_bar_signals :
    is_some (process_bar around (pos 3) (bar_at 52) (run around two_bars engine)).1 ≡ true
unfolding run process_bar decayed push_bar assess minus of_parts
second_bar_signals = refl

process_bar-Says_example :
    let t = run around two_bars (reset_o1 (pos 3) (run around two_bars engine)) in
    Says
      (closes_of around two_bars ++ (pos 52 ∷ []))
      (bar_at 52)
      2
      (process_bar around (pos 4) (bar_at 52) t).1
process_bar-Says_example =
    process_bar-Says around two_bars two_bars 2 (pos 10) (pos 2) 3 100 (pos 0) (pos 3) (pos 4)
      (bar_at 52) engine engine_built

sum_agrees_example :
    (run around two_bars engine).running_imbalance_sum ≡ sum (run around two_bars engine).imbalances
sum_agrees_example =
    sum_agrees around two_bars 2 (pos 10) (pos 2) 3 100 (pos 0) engine whole-IsExact engine_built

after_reset : Calm around ((pos 4, bar_at 52) ∷ []) (reset_o1 (pos 3) (run around two_bars engine))
unfolding reset_o1 run process_bar decayed push_bar assess minus plus of_parts vpin_of push_vpin
    z_score_of counted_bar signal_of
after_reset = (refl, refl, tt)

reset_drifts_example :
    let s = run around two_bars engine in
    let t = run around ((pos 4, bar_at 52) ∷ []) (reset_o1 (pos 3) s) in
    t.running_imbalance_sum ⊕ sum s.imbalances ≡ sum t.imbalances
reset_drifts_example =
    reset_drifts around two_bars ((pos 4, bar_at 52) ∷ []) 2 (pos 10) (pos 2) 3 100 (pos 0) (pos 3)
      engine whole-IsExact engine_built after_reset
