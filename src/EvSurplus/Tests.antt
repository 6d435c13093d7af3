-- ===== src/EvSurplus/Tests.antt =====
-- A car on a cloudy day: a start, a step up, and three cycles without a surplus.
use carma_box_v.Base.{◌≡◌, refl, inr, true, false, List, [], ◌∷◌, All, arith, ℕ}
use carma_box_v.Base.Int.{pos, ◌+ℤ◌, ◌-ℤ◌, ◌*ℤ◌}
use carma_box_v.Base.Milli.{Milli, milli_float, num, minus_num}
use carma_box_v.Budget.Mirror.{Charger}
use carma_box_v.EvSurplus.Evaluate.{
  EvSurplusConfig, EvSurplusState, EvSurplusInput, idle_state, set_amps, min_surplus_w, try_start,
  is_low, count_low, surplus_ramp, regulate_surplus, wants_surplus, evaluate,
}
use carma_box_v.EvSurplus.Runs.{Holds, run_surplus, run_surplus-Holds}
use carma_box_v.EvSurplus.Stops.{Lacks, run_surplus_stops}

-- The defaults.
abbrev config : EvSurplusConfig Milli
config = record {
  min_amps = pos 6;
  max_amps = pos 10;
  phases = pos 3;
  voltage_v = pos 230;
  step_amps = pos 1;
  ramp_up_export_threshold_w = num 500;
  ramp_down_import_threshold_w = num 100;
  cloud_stop_surplus_w = num 2000;
  cloud_stop_cycles = 3;
}

abbrev at_surplus : ℕ → EvSurplusInput Milli
at_surplus surplus_w = record {
  surplus_w = num surplus_w;
  grid_power_w = minus_num 600;
  ev_connected = true;
  ev_soc_pct = num 40;
  ev_target_soc_pct = num 80;
}

abbrev charger : Charger
charger = record { enabled = false; amps = pos 0 }

abbrev clouds : List (EvSurplusInput Milli)
clouds = at_surplus 500 ∷ at_surplus 100 ∷ at_surplus 1900 ∷ []

-- 4140 W start the car at 6 A, and an export of 600 W then adds 1 A.
starts : run_surplus config (at_surplus 4140 ∷ at_surplus 4140 ∷ []) idle_state charger ≡ (
  record { current_amps = pos 7; is_charging = true; low_surplus_cycles = 0 },
  record { enabled = true; amps = pos 7 },
)
unfolding run_surplus evaluate wants_surplus try_start min_surplus_w regulate_surplus count_low
    is_low surplus_ramp set_amps ◌*ℤ◌ ◌+ℤ◌ ◌-ℤ◌
starts = refl

run_surplus-Holds_example :
    let (s, ch) = run_surplus config (at_surplus 4140 ∷ clouds) idle_state charger in
    Holds config s ch
run_surplus-Holds_example =
    run_surplus-Holds config (refl, refl, refl) (at_surplus 4140 ∷ clouds) idle_state charger
      (refl, (λ on. ground arith), (λ off. refl))

clouds-Lacks : All (Lacks config) clouds
unfolding is_low min_surplus_w ◌*ℤ◌ ◌-ℤ◌
clouds-Lacks = ((refl, refl), ((refl, refl), ((refl, refl), tt)))

abbrev charging : EvSurplusState
charging = record { current_amps = pos 8; is_charging = true; low_surplus_cycles = 0 }

run_surplus_stops_example : (run_surplus config clouds charging charger).0.is_charging ≡ false
run_surplus_stops_example =
    run_surplus_stops config clouds charging charger clouds-Lacks (inr refl) (omega arith)
