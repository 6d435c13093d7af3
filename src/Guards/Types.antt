-- ===== src/Guards/Types.antt =====
-- core/guards.py: the types of the guards and what they keep between cycles. The human-readable
-- `reason` of a command is left out; a violation keeps the values of its text.
use carma_box_v.Base.{ℕ, Bool, List, String}
use carma_box_v.Base.Int.{ℤ}
use carma_box_v.Models.{Battery, CommandType, MinSocConfig, Scenario, Value}

pub data GuardLevel : Type 0 where
  ok warning critical breach alarm freeze : GuardLevel

pub record GuardCommand (F : Type 0) : Type 0 where
  pub guard_id : String
  pub command_type : CommandType
  pub target_id : String
  pub value : Value F

-- One constructor for each text that a guard appends to `violations`.
pub data Violation (F : Type 0) : Type 0 where
  g0_charging : String → ℤ → F → Violation F
  g0_at_floor : String → Violation F
  g0_at_night : String → Violation F
  g2_conflict : String → Violation F
  g3_critical : F → F → Violation F
  g3_breach : F → F → Violation F
  g3_warning : F → F → Violation F
  g5_oscillation : ℕ → ℤ → Violation F
  g6_stale : F → ℤ → Violation F
  g7_unreachable : F → Violation F
  export_low_pv : F → Violation F
  export_no_value : F → Violation F

pub record GuardEvaluation (F : Type 0) : Type 0 where
  pub level : GuardLevel
  pub commands : List (GuardCommand F)
  pub headroom_kw : F
  pub violations : List (Violation F)
  pub replan_needed : Bool
  pub batteries_at_floor : List String

-- `soc` holds the fields that `MinSocConfig` names.
pub record GuardConfig (F : Type 0) : Type 0 where
  pub tak_kw : F
  pub night_weight : F
  pub day_weight : F
  pub night_start_hour : ℕ
  pub night_end_hour : ℕ
  pub margin : F
  pub emergency_factor : F
  pub soc : MinSocConfig F
  pub hysteresis_pct : F
  pub max_changes_per_window : ℕ
  pub window_s : ℤ
  pub doubled_deadband_s : ℤ
  pub stale_threshold_s : ℤ
  pub ha_health_timeout_s : ℤ
  pub g0_charging_power_threshold_w : F
  pub g0_min_pv_power_w : F

-- The fields of `GridGuard` that change.
pub record GuardState (F : Type 0) : Type 0 where
  pub at_floor : List String
  pub mode_changes : List F
  pub deadband_doubled_until : F
  pub last_ha_contact : F

-- The arguments of `GridGuard.evaluate`; `stale_entities` is only logged.
pub record GuardInput (F : Type 0) : Type 0 where
  pub batteries : List (Battery F)
  pub current_scenario : Scenario
  pub weighted_avg_kw : F
  pub hour : ℕ
  pub ha_connected : Bool
  pub data_age_s : F
  pub appliance_kw : F

-- The readings of `time.monotonic()` that one evaluation makes, in the order it makes them: for the
-- contact with HA, for the window of G5, and for G7.
pub record ClockReads (F : Type 0) : Type 0 where
  pub at_contact : F
  pub at_window : F
  pub at_comm : F
