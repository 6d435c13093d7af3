-- ===== src/ModeChange/Types.antt =====
-- core/mode_change.py: requests, policies and the configuration, and the executor as an interface.
-- `reason`, which is only logged, is left out.
use carma_box_v.Base.{ℕ, Bool, true, List, [], ◌∷◌, String}
use carma_box_v.Base.Int.{ℤ}
use carma_box_v.Base.Floats.{Float}
use carma_box_v.Models.{mode_value, charge_battery}

-- The protocol `ModeChangeExecutor` over what it acts on, a type `D`. The Boolean results of its
-- writes are dropped, since the manager never looks at them; a read changes nothing. An executor that
-- raises is not modelled.
pub record Port (D : Type 0) : Type 0 where
  pub set_ems_mode : String → String → D → D
  pub set_ems_power_limit : String → ℤ → D → D
  pub set_fast_charging : String → Bool → D → D
  pub get_ems_mode : String → D → String
  pub get_fast_charging : String → D → Bool

pub data ChangeState : Type 0 where
  idle clearing standby_wait setting_target verifying complete failed : ChangeState

pub record Request (F : Type 0) : Type 0 where
  pub battery_id : String
  pub target_mode : String
  pub target_limit_w : ℤ
  pub target_fast_charging : Bool
  pub state : ChangeState
  pub step_started_at : F
  pub retry_count : ℕ
  pub emergency : Bool
  pub skip_clear_wait : Bool
  pub skip_standby : Bool

pub record TransitionPolicy : Type 0 where
  pub skip_clear_wait : Bool
  pub skip_standby : Bool

-- `transition_matrix` is a dict from modes to policies.
pub record ChangeConfig (F : Type 0) : Type 0 where
  pub clear_wait_s : F
  pub standby_wait_s : F
  pub set_wait_s : F
  pub verify_wait_s : F
  pub max_retries : ℕ
  pub transition_matrix : List (String × TransitionPolicy)

-- `_DEFAULT_TRANSITION_MATRIX`
abbrev pub default_transition_matrix : List (String × TransitionPolicy)
default_transition_matrix =
    (mode_value charge_battery, record { skip_clear_wait = true; skip_standby = true }) ∷ []

-- `ModeChangeConfig()`
abbrev pub default_config : {F : Type 0} ⦃f : Float F⦄ → ChangeConfig F
default_config ⦃f = f⦄ = record {
  clear_wait_s = f.lit 60 0;
  standby_wait_s = f.lit 300 0;
  set_wait_s = f.lit 60 0;
  verify_wait_s = f.lit 30 0;
  max_retries = 3;
  transition_matrix = default_transition_matrix;
}
