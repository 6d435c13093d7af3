-- ===== src/Machine/Tests.antt =====
-- The state machine at the defaults of its configuration.
use carma_box_v.Base.{ℕ, ◌≡◌, ◌≢◌, refl, true, false, [], ◌∷◌, none, some, arith}
use carma_box_v.Base.Int.{pos, ◌+ℤ◌, ◌-ℤ◌, ◌*ℤ◌, quot}
use carma_box_v.Base.Milli.{Milli, milli_float, Milli-IsOrdered, num}
use carma_box_v.Models.{
  Scenario, morning_discharge, pv_surplus_day, evening_discharge, night_low_pv, same_scenario,
  Snapshot, Grid, Ev, Battery, discharge_pv, house_grid, is_night, total_battery_soc_pct, sum_of,
}
use carma_box_v.Machine.Entry.{
  MachineConfig, check_entry, should_exit, low_soc, entry_s1, entry_s2, entry_s3, entry_s4,
  entry_s5, entry_s6, entry_s7, entry_s8, entry_s9, exit_s1, exit_s2, exit_s3, exit_s4, exit_night,
  exit_s7, exit_s8, exit_s9,
}
use carma_box_v.Machine.Evaluate.{
  Machine, can_transition, find_allowed, find_any, next_scenario, evaluate,
}
use carma_box_v.Machine.Laws.{Justified}
use carma_box_v.Machine.Targets.{evaluate_target}
use carma_box_v.Machine.Coverage.{Windows, evaluate_night_progress, evaluate_forenoon_stuck}

abbrev config : MachineConfig Milli
config = record {
  start_scenario = pv_surplus_day;
  min_dwell_s = num 300;
  pv_high_threshold_kwh = num 25;
  pv_medium_threshold_kwh = num 25;
  morning_min_soc_pct = num 30;
  evening_min_soc_above_floor_pct = num 10;
  normal_floor_pct = num 15;
  surplus_entry_soc_pct = num 95;
  surplus_exit_soc_pct = num 90;
  surplus_pv_min_w = num 500;
  surplus_export_min_w = num 200;
  surplus_exit_pv_min_w = num 200;
  grid_charge_max_soc_pct = num 90;
  grid_charge_price_threshold_ore = num 60;
  ev_target_soc_pct = num 100;
  morning_start_h = 6;
  morning_end_h = 9;
  forenoon_end_h = 12;
  midday_end_h = 17;
  evening_end_h = 22;
}

abbrev battery : Battery Milli
battery = record {
  battery_id = "kontor";
  soc_pct = num 60;
  power_w = num 0;
  cell_temp_c = num 20;
  pv_power_w = num 0;
  grid_power_w = num 0;
  load_power_w = num 400;
  ems_mode = discharge_pv;
  ems_power_limit_w = pos 0;
  fast_charging = false;
  soh_pct = num 95;
  cap_kwh = num 15;
  ct_placement = house_grid;
  available_kwh = num 6;
}

abbrev grid : Grid Milli
grid = record {
  grid_power_w = num 100;
  weighted_avg_kw = num 1;
  current_peak_kw = num 2;
  dynamic_tak_kw = num 3;
  pv_total_w = num 300;
  price_ore = num 80;
  pv_forecast_today_kwh = num 12;
  pv_forecast_tomorrow_kwh = num 8;
}

abbrev ev : Ev Milli
ev = record {
  soc_pct = num 80;
  connected = false;
  charging = false;
  power_w = num 0;
  current_a = num 0;
  target_soc_pct = num 100;
}

abbrev at_hour : ℕ → Scenario → Snapshot Milli
at_hour h s = record {
  batteries = battery ∷ [];
  ev = ev;
  grid = grid;
  consumers = [];
  current_scenario = s;
  hour = h;
  minute = 0;
  night_start_h = 22;
  night_end_h = 6;
  appliances = [];
}

abbrev in_scenario : Scenario → Machine Milli
in_scenario s = record {
  config = config;
  state = record { current = s; previous = none; entered_at = num 0 };
  manual_override = none;
}

-- PV_SURPLUS_DAY at midnight has no valid exit of the matrix: the recovery picks NIGHT_LOW_PV.
recovers_at_midnight :
    evaluate (in_scenario pv_surplus_day) (num 400) (at_hour 0 pv_surplus_day) ≡ some night_low_pv
unfolding evaluate can_transition next_scenario find_allowed find_any check_entry should_exit
    low_soc entry_s1 entry_s2 entry_s3 entry_s4 entry_s5 entry_s6 entry_s7 entry_s8 entry_s9 exit_s1
    exit_s2 exit_s3 exit_s4 exit_night exit_s7 exit_s8 exit_s9 is_night total_battery_soc_pct sum_of
    same_scenario ◌+ℤ◌ ◌-ℤ◌ ◌*ℤ◌ quot
recovers_at_midnight = refl

evaluate_target_example :
    (night_low_pv ≢ pv_surplus_day)
    × (can_transition (in_scenario pv_surplus_day) (num 400) ≡ true)
    × (check_entry config night_low_pv (at_hour 0 pv_surplus_day) ≡ true)
    × Justified config pv_surplus_day (at_hour 0 pv_surplus_day) night_low_pv
evaluate_target_example =
    evaluate_target (in_scenario pv_surplus_day) (num 400) (at_hour 0 pv_surplus_day) night_low_pv
      refl recovers_at_midnight

windows : (h : ℕ) (s : Scenario) → Windows config (at_hour h s)
windows h s = ground arith

evaluate_night_progress_example :
    evaluate (in_scenario evening_discharge) (num 400) (at_hour 23 evening_discharge) ≢ none
unfolding is_night can_transition should_exit exit_s4 ◌-ℤ◌
evaluate_night_progress_example =
    evaluate_night_progress Milli-IsOrdered (in_scenario evening_discharge) (num 400)
      (at_hour 23 evening_discharge) (windows 23 evening_discharge) refl refl refl refl refl refl

evaluate_forenoon_stuck_example :
    (should_exit config morning_discharge (at_hour 10 morning_discharge) ≡ true)
    × (evaluate (in_scenario morning_discharge) (num 9000) (at_hour 10 morning_discharge) ≡ none)
unfolding total_battery_soc_pct sum_of low_soc ◌+ℤ◌ ◌*ℤ◌ quot
evaluate_forenoon_stuck_example =
    evaluate_forenoon_stuck (in_scenario morning_discharge) (num 9000)
      (at_hour 10 morning_discharge) (windows 10 morning_discharge) (omega arith) (omega arith) refl
      refl refl refl refl
