-- ===== src/EvController/Tests.antt =====
-- The controller with its default configuration: a start at night, and a ramp from 6 A to 8 A.
use carma_box_v.Base.{◌≡◌, refl, ◌⊎◌, true, false, [], ◌∷◌, none, arith}
use carma_box_v.Base.Int.{pos, ltb_ℤ, ◌-ℤ◌, quot}
use carma_box_v.Base.Milli.{Milli, milli_float, num, minus_num}
use carma_box_v.EvController.Types.{EvConfig, EvState, EvInput, EvReads}
use carma_box_v.EvController.Timers.{can_start, can_ramp, resolve_soc, next_step_up}
use carma_box_v.EvController.Evaluate.{
  watch_loads, start_or_wait, ramp_up_or_down, ramp, control_current, regulate, evaluate_connected,
  evaluate,
}
use carma_box_v.EvController.Start.{is_start, Starts, evaluate-Starts}
use carma_box_v.EvController.Ramp.{is_set, IsNext, evaluate_ramps}

-- The defaults of `EVControllerConfig`.
abbrev config : EvConfig Milli
config = record {
  start_amps = pos 6;
  min_amps = pos 6;
  steps = pos 6 ∷ pos 8 ∷ pos 10 ∷ [];
  step_interval_s = num 300;
  cooldown_after_start_s = num 120;
  cooldown_after_stop_s = num 180;
  emergency_cut_amps = pos 6;
  target_soc_pct = num 75;
  soc_stale_max_s = num 3600;
  emergency_headroom_w = minus_num 1000;
  start_headroom_w = num 1000;
  ramp_headroom_w = num 500;
  stop_headroom_w = minus_num 200;
}

abbrev state : EvState Milli
state = record {
  last_start = num 0;
  last_stop = num 500;
  last_ramp = num 0;
  last_known_soc = num 60;
  last_soc_time = num 900;
  was_connected = true;
  prev_active_appliances = [];
}

abbrev reads : EvReads Milli
reads = record {
  at_soc = num 1000;
  at_check = num 1000;
  at_start = num 1000;
  at_ramp = num 1000;
  at_stop = num 1000;
}

-- The car sleeps, and reports a SoC of -1 %.
abbrev waiting : EvInput Milli
waiting = record {
  ev_connected = true;
  ev_soc_pct = minus_num 1;
  charging = false;
  current_amps = num 0;
  ellevio_headroom_w = num 1500;
  reason_for_no_current = "";
  is_night = true;
  pv_surplus_w = num 0;
  appliances = none;
  ramp_pause_on_new_load = true;
}

abbrev charging : EvInput Milli
charging = record waiting { charging = true; current_amps = num 6 }

waiting_starts : is_start config reads waiting (evaluate config reads waiting state).1.action ≡ true
unfolding can_start resolve_soc watch_loads start_or_wait control_current regulate
    evaluate_connected evaluate ◌-ℤ◌
waiting_starts = refl

charging_ramps : is_set config reads charging (evaluate config reads charging state).1.action ≡ true
unfolding can_ramp resolve_soc watch_loads next_step_up ramp ramp_up_or_down control_current
    regulate evaluate_connected evaluate ◌-ℤ◌ quot
charging_ramps = refl

evaluate-Starts_example :
    Starts config reads waiting (num 60) state (evaluate config reads waiting state).1
unfolding resolve_soc ◌-ℤ◌
evaluate-Starts_example = evaluate-Starts config reads waiting state waiting_starts

evaluate_ramps_example :
    let r = (evaluate config reads charging state).1 in
    (true ≡ true)
    × (can_ramp config reads.at_check state ≡ true)
    × ((IsNext config.steps (pos 6) r.target_amps r.target_amps × (true ≡ true))
        ⊎ (IsNext config.steps r.target_amps (pos 6) r.target_amps
            × (false ≡ true)
            × (ltb_ℤ r.target_amps (pos 6) ≡ false)))
unfolding quot ◌-ℤ◌
evaluate_ramps_example = evaluate_ramps config reads charging state (ground arith) charging_ramps
