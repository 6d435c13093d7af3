-- ===== src/Budget/Types.antt =====
-- core/budget.py: the configuration, what a cycle is given, the state and the result.
use carma_box_v.Base.{ℕ, Bool, false, List, [], String}
use carma_box_v.Base.Int.{ℤ, pos}
use carma_box_v.Models.{Consumer}
use carma_box_v.Executor.Types.{Command}
use carma_box_v.Budget.Tuner.{GridTunerConfig, GridRolling}

pub record BudgetConfig (F : Type 0) : Type 0 where
  pub ev_min_amps : ℤ
  pub ev_max_amps : ℤ
  pub bat_soc_full_pct : F
  pub bat_charge_stop_soc_pct : F
  pub bat_spread_max_pct : F
  pub bat_aggressive_spread_pct : F
  pub bat_need_based_enabled : Bool
  pub bat_lower_ratio : F
  pub bat_higher_ratio : F
  pub ev_ramp_up_hold_cycles : ℕ
  pub ev_ramp_down_hold_cycles : ℕ
  pub bat_discharge_support : Bool
  pub evening_cutoff_h : ℕ
  pub bat_discharge_min_soc_pct : F
  pub bat_default_cap_kwh : F
  pub bat_default_max_charge_w : ℤ
  pub bat_default_max_discharge_w : ℤ
  pub cascade_cooldown_s : F
  pub cascade_sustained_cycles : ℕ
  pub bat_at_max_headroom_w : ℤ
  pub grid_smoothing_window : ℕ
  pub grid_tuner : GridTunerConfig F

-- `now` by its hour. The dicts are lists with distinct keys, in their order. The prices, which the
-- allocator never reads, are left out.
pub record BudgetInput (F : Type 0) : Type 0 where
  pub hour : ℕ
  pub grid_power_w : F
  pub pv_power_w : F
  pub house_load_w : F
  pub ev_connected : Bool
  pub ev_charging : Bool
  pub ev_current_amps : ℤ
  pub ev_soc_pct : F
  pub ev_target_soc_pct : F
  pub bat_socs : List (String × F)
  pub bat_caps : List (String × F)
  pub bat_powers : List (String × F)
  pub bat_modes : List (String × String)
  pub pv_remaining_kwh : F
  pub house_remaining_kwh : F
  pub consumers : List (Consumer F)

pub record BudgetState (F : Type 0) : Type 0 where
  pub consecutive_export_cycles : ℕ
  pub consecutive_import_cycles : ℕ
  pub intended_ev_enabled : Bool
  pub ev_current_amps : ℤ
  pub consumer_last_switch_ts : List (String × F)
  pub grid_history_w : List F
  pub grid_rolling : GridRolling F

-- `BudgetState()`
abbrev pub fresh_state : {F : Type 0} → BudgetState F
fresh_state = record {
  consecutive_export_cycles = 0;
  consecutive_import_cycles = 0;
  intended_ev_enabled = false;
  ev_current_amps = pos 0;
  consumer_last_switch_ts = [];
  grid_history_w = [];
  grid_rolling = record { history = [] };
}

-- Without the text of its reason.
pub record BudgetResult (F : Type 0) : Type 0 where
  pub commands : List (Command F)
  pub ev_target_amps : ℤ
  pub bat_allocations : List (String × ℤ)
  pub bat_discharge_w : ℤ
  pub emergency_recovery : List String

-- The readings of the clock in a cycle: for the sample of the grid, and by the cascade.
pub record BudgetReads (F : Type 0) : Type 0 where
  pub at_sample : F
  pub at_cascade : F
