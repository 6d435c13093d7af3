-- ===== src/ZeroGrid/Types.antt =====
-- core/zero_grid.py: the limits and the measured state of a battery, and the plan.
use carma_box_v.Base.{Bool, List, String}
use carma_box_v.Base.Int.{ℤ}

pub record BatLimits (F : Type 0) : Type 0 where
  pub max_charge_w : ℤ
  pub max_discharge_w : ℤ
  pub soc_min_pct : F
  pub soc_max_pct : F
  pub soc_min_buffer_pct : F

pub record BatSnapshot (F : Type 0) : Type 0 where
  pub battery_id : String
  pub power_w : F
  pub soc_pct : F
  pub cap_kwh : F

-- A battery with its entry of `limits_by_id`.
pub record Bank (F : Type 0) : Type 0 where
  pub snapshot : BatSnapshot F
  pub limits : BatLimits F

-- Without the text of its reason. The set of batteries below their floor is a list.
pub record ZeroGridPlan : Type 0 where
  pub modes : List (String × String)
  pub limits_w : List (String × ℤ)
  pub total_target_net_w : ℤ
  pub emergency_recovery : List String

-- The parameters of `plan_zero_grid` that have defaults.
pub record Tuning (F : Type 0) : Type 0 where
  pub deadband_w : F
  pub spread_aggressive_pct : F
  pub gain : F
  pub need_based_enabled : Bool
