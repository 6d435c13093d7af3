-- ===== src/Budget/Example.antt =====
-- A configuration of the allocator to run the model with: the defaults of core/budget.py.
use carma_box_v.Base.{true, false, [], ◌∷◌, some}
use carma_box_v.Base.Int.{pos}
use carma_box_v.Base.Milli.{Milli, num}
use carma_box_v.Budget.Tuner.{GridTunerConfig}
use carma_box_v.Budget.Types.{BudgetConfig}

-- The defaults, with the tuner enabled.
abbrev pub tuner : GridTunerConfig Milli
tuner = record {
  enabled = true;
  tiers_w = num 50 ∷ num 75 ∷ num 100 ∷ [];
  corrections_w = pos 100 ∷ pos 300 ∷ pos 500 ∷ [];
  rolling_window_s = pos 300;
  mode_change_stability_w = num 50;
}

abbrev pub cfg : BudgetConfig Milli
cfg = record {
  ev_min_amps = pos 6;
  ev_max_amps = pos 16;
  bat_soc_full_pct = num 100;
  bat_charge_stop_soc_pct = num 95;
  bat_spread_max_pct = num 1;
  bat_aggressive_spread_pct = num 1;
  bat_need_based_enabled = false;
  bat_lower_ratio = some (pos 800);
  bat_higher_ratio = some (pos 200);
  ev_ramp_up_hold_cycles = 2;
  ev_ramp_down_hold_cycles = 1;
  bat_discharge_support = true;
  evening_cutoff_h = 17;
  bat_discharge_min_soc_pct = num 15;
  bat_default_cap_kwh = num 10;
  bat_default_max_charge_w = pos 5000;
  bat_default_max_discharge_w = pos 5000;
  cascade_cooldown_s = num 60;
  cascade_sustained_cycles = 2;
  bat_at_max_headroom_w = pos 500;
  grid_smoothing_window = 3;
  grid_tuner = tuner;
}
