-- ===== src/EvController/Types.antt =====
-- core/ev_controller.py: configuration, result and state of the controller, and its readings.
use carma_box_v.Base.{Bool, List, Option, String}
use carma_box_v.Base.Int.{ℤ}
use carma_box_v.Models.{Appliance}

-- Without `max_amps`, `voltage_v` and `max_soc_jump_pct`, which only texts of reasons show or nothing
-- reads.
pub record EvConfig (F : Type 0) : Type 0 where
  pub start_amps : ℤ
  pub min_amps : ℤ
  pub steps : List ℤ
  pub step_interval_s : F
  pub cooldown_after_start_s : F
  pub cooldown_after_stop_s : F
  pub emergency_cut_amps : ℤ
  pub target_soc_pct : F
  pub soc_stale_max_s : F
  pub emergency_headroom_w : F
  pub start_headroom_w : F
  pub ramp_headroom_w : F
  pub stop_headroom_w : F

pub data EvAction : Type 0 where
  no_change : EvAction
  start : EvAction
  stop : EvAction
  set_current : EvAction
  emergency_cut : EvAction
  fix_waiting_in_fully : EvAction
  connect_trigger : EvAction

-- `EVResult`, without the reason.
pub record EvResult : Type 0 where
  pub action : EvAction
  pub target_amps : ℤ

-- The fields of `EVTimers` and `EVController` that change.
pub record EvState (F : Type 0) : Type 0 where
  pub last_start : F
  pub last_stop : F
  pub last_ramp : F
  pub last_known_soc : F
  pub last_soc_time : F
  pub was_connected : Bool
  pub prev_active_appliances : List String

-- The arguments of `evaluate` that it reads.
pub record EvInput (F : Type 0) : Type 0 where
  pub ev_connected : Bool
  pub ev_soc_pct : F
  pub charging : Bool
  pub current_amps : F
  pub ellevio_headroom_w : F
  pub reason_for_no_current : String
  pub is_night : Bool
  pub pv_surplus_w : F
  pub appliances : Option (List (Appliance F))
  pub ramp_pause_on_new_load : Bool

-- The readings of the clock in one evaluation: for the SoC, for a cooldown, and when a start, a ramp
-- or a stop is recorded.
pub record EvReads (F : Type 0) : Type 0 where
  pub at_soc : F
  pub at_check : F
  pub at_start : F
  pub at_ramp : F
  pub at_stop : F
