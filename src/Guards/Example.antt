-- ===== src/Guards/Example.antt =====
-- A cycle of the guards on two batteries, with the default configuration.
use carma_box_v.Base.{ℕ, true, false, [], ◌∷◌, some, String}
use carma_box_v.Base.Int.{pos}
use carma_box_v.Base.Milli.{Milli, num, minus_num}
use carma_box_v.Models.{Battery, discharge_pv, house_grid, MinSocConfig, pv_surplus_day}
use carma_box_v.Guards.Types.{GuardConfig, GuardInput, GuardState, ClockReads}

abbrev pub soc : MinSocConfig Milli
soc = record {
  normal_floor_pct = num 15;
  cold_floor_pct = num 20;
  freeze_floor_pct = num 25;
  cold_temp_c = num 4;
  freeze_temp_c = num 0;
  soh_warn_pct = num 80;
  soh_crit_pct = num 70;
  soh_warn_raise_pct = num 5;
  soh_crit_raise_pct = num 10;
}

-- The defaults of `GuardConfig`.
abbrev pub config : GuardConfig Milli
config = record {
  tak_kw = num 3;
  night_weight = some (pos 500);
  day_weight = num 1;
  night_start_hour = 22;
  night_end_hour = 6;
  margin = some (pos 850);
  emergency_factor = some (pos 1100);
  soc = soc;
  hysteresis_pct = num 5;
  max_changes_per_window = 3;
  window_s = pos 300;
  doubled_deadband_s = pos 180;
  stale_threshold_s = pos 300;
  ha_health_timeout_s = pos 30;
  g0_charging_power_threshold_w = minus_num 100;
  g0_min_pv_power_w = num 50;
}

abbrev pub battery : String → ℕ → ℕ → Battery Milli
battery id soc_pct temp = record {
  battery_id = id;
  soc_pct = num soc_pct;
  power_w = num 0;
  cell_temp_c = num temp;
  pv_power_w = num 900;
  grid_power_w = num 0;
  load_power_w = num 400;
  ems_mode = discharge_pv;
  ems_power_limit_w = pos 0;
  fast_charging = false;
  soh_pct = num 95;
  cap_kwh = num 15;
  ct_placement = house_grid;
  available_kwh = num 3;
}

-- At its floor; and held since an earlier cycle, inside the hysteresis.
abbrev pub kontor : Battery Milli
kontor = battery "kontor" 14 20

abbrev pub forrad : Battery Milli
forrad = battery "forrad" 18 20

abbrev pub input : GuardInput Milli
input = record {
  batteries = kontor ∷ forrad ∷ [];
  current_scenario = pv_surplus_day;
  weighted_avg_kw = some (pos 3100);
  hour = 14;
  ha_connected = true;
  data_age_s = num 10;
  appliance_kw = num 0;
}

abbrev pub reads : ClockReads Milli
reads = record { at_contact = num 1000; at_window = num 1000; at_comm = num 1000 }

abbrev pub state : GuardState Milli
state = record {
  at_floor = "forrad" ∷ [];
  mode_changes = num 600 ∷ num 800 ∷ num 900 ∷ num 990 ∷ [];
  deadband_doubled_until = num 0;
  last_ha_contact = num 990;
}
