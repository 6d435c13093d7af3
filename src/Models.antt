-- ===== src/Models.antt =====
-- core/models.py: the enums, the point-in-time snapshots and the shared pure functions. Timestamps,
-- the JSON encoder and the free texts meant for people are left out.
pub mod Laws
mod Tests
use carma_box_v.Base.{
  ℕ, ◌≡◌, ◌↔◌, Bool, true, false, not, ◌&&◌, ◌||◌, List, [], ◌∷◌, Option, String, arith, ltb, leb,
  ◌==◌, if◌then◌else◌,
}
use carma_box_v.Base.Int.{ℤ, pos}
use carma_box_v.Base.Floats.{Float, fmax}

pub data EmsMode : Type 0 where
  charge_pv discharge_pv battery_standby import_ac export_ac conserve : EmsMode
  charge_battery discharge_battery auto : EmsMode

-- `EMSMode(...).value`
abbrev pub mode_value : EmsMode → String
mode_value charge_pv = "charge_pv"
mode_value discharge_pv = "discharge_pv"
mode_value battery_standby = "battery_standby"
mode_value import_ac = "import_ac"
mode_value export_ac = "export_ac"
mode_value conserve = "conserve"
mode_value charge_battery = "charge_battery"
mode_value discharge_battery = "discharge_battery"
mode_value auto = "auto"

abbrev mode_index : EmsMode → ℕ
mode_index charge_pv = 0
mode_index discharge_pv = 1
mode_index battery_standby = 2
mode_index import_ac = 3
mode_index export_ac = 4
mode_index conserve = 5
mode_index charge_battery = 6
mode_index discharge_battery = 7
mode_index auto = 8

-- `==` of two members of the enum.
unfoldable pub same_mode : EmsMode → EmsMode → Bool
same_mode m n = mode_index m == mode_index n

pub data CtPlacement : Type 0 where
  local_load house_grid : CtPlacement

pub data Scenario : Type 0 where
  morning_discharge forenoon_pv_ev pv_surplus_day evening_discharge : Scenario
  night_high_pv night_low_pv night_grid_charge pv_surplus night_ev : Scenario

abbrev scenario_index : Scenario → ℕ
scenario_index morning_discharge = 1
scenario_index forenoon_pv_ev = 2
scenario_index pv_surplus_day = 3
scenario_index evening_discharge = 4
scenario_index night_high_pv = 5
scenario_index night_low_pv = 6
scenario_index night_grid_charge = 7
scenario_index pv_surplus = 8
scenario_index night_ev = 9

unfoldable pub same_scenario : Scenario → Scenario → Bool
same_scenario s t = scenario_index s == scenario_index t

pub data CommandType : Type 0 where
  set_ems_mode set_ems_power_limit set_fast_charging : CommandType
  set_ev_current start_ev_charging stop_ev_charging : CommandType
  turn_on_consumer turn_off_consumer : CommandType
  climate_set_temp climate_set_mode set_export_limit no_op : CommandType

-- The value of a command: `int | float | str | bool | None`.
pub data Value (F : Type 0) : Type 0 where
  int : ℤ → Value F
  float : F → Value F
  text : String → Value F
  flag : Bool → Value F
  nothing : Value F

pub record Battery (F : Type 0) : Type 0 where
  pub battery_id : String
  pub soc_pct : F
  pub power_w : F
  pub cell_temp_c : F
  pub pv_power_w : F
  pub grid_power_w : F
  pub load_power_w : F
  pub ems_mode : EmsMode
  pub ems_power_limit_w : ℤ
  pub fast_charging : Bool
  pub soh_pct : F
  pub cap_kwh : F
  pub ct_placement : CtPlacement
  pub available_kwh : F

pub record Ev (F : Type 0) : Type 0 where
  pub soc_pct : F
  pub connected : Bool
  pub charging : Bool
  pub power_w : F
  pub current_a : F
  pub target_soc_pct : F

pub record Grid (F : Type 0) : Type 0 where
  pub grid_power_w : F
  pub weighted_avg_kw : F
  pub current_peak_kw : F
  pub dynamic_tak_kw : F
  pub pv_total_w : F
  pub price_ore : F
  pub pv_forecast_today_kwh : F
  pub pv_forecast_tomorrow_kwh : F

pub record Appliance (F : Type 0) : Type 0 where
  pub entity_id : String
  pub active : Bool
  pub power_w : F

pub record Consumer (F : Type 0) : Type 0 where
  pub consumer_id : String
  pub active : Bool
  pub power_w : F
  pub priority : ℤ
  pub priority_shed : ℤ
  pub requires_active : String

-- The protocol `MinSocConfig`, which the guards' and the balancer's configurations satisfy.
pub record MinSocConfig (F : Type 0) : Type 0 where
  pub normal_floor_pct : F
  pub cold_floor_pct : F
  pub freeze_floor_pct : F
  pub cold_temp_c : F
  pub freeze_temp_c : F
  pub soh_warn_pct : F
  pub soh_crit_pct : F
  pub soh_warn_raise_pct : F
  pub soh_crit_raise_pct : F

pub record Snapshot (F : Type 0) : Type 0 where
  pub batteries : List (Battery F)
  pub ev : Ev F
  pub grid : Grid F
  pub consumers : List (Consumer F)
  pub current_scenario : Scenario
  pub hour : ℕ
  pub minute : ℕ
  pub night_start_h : ℕ
  pub night_end_h : ℕ
  pub appliances : List (Appliance F)

-- `is_night` of a snapshot.
unfoldable pub is_night : {F : Type 0} → Snapshot F → Bool
is_night s = leb s.night_start_h s.hour || ltb s.hour s.night_end_h

module _ {F : Type 0} ⦃f : Float F⦄ where
  open f use {lt, le, add, mul, div, neg, of_int, lit}

  floor_of_temp : F → MinSocConfig F → F
  floor_of_temp temp cfg =
      if lt temp cfg.freeze_temp_c
      then cfg.freeze_floor_pct
      else if lt temp cfg.cold_temp_c
      then cfg.cold_floor_pct
      else cfg.normal_floor_pct

  raise_for_soh : F → MinSocConfig F → F → F
  raise_for_soh soh cfg floor =
      if lt soh cfg.soh_crit_pct
      then add floor cfg.soh_crit_raise_pct
      else if lt soh cfg.soh_warn_pct
      then add floor cfg.soh_warn_raise_pct
      else floor

  unfoldable pub effective_min_soc : F → F → MinSocConfig F → F
  unfolding floor_of_temp raise_for_soh
  effective_min_soc temp soh cfg = raise_for_soh soh cfg (floor_of_temp temp cfg)

  -- Python's `sum(g(x) for x in xs)`, from the left and from 0.
  unfoldable pub sum_of : {A : Type 0} → (A → F) → F → List A → F
  sum_of g acc [] = acc
  sum_of g acc (x ∷ xs) = sum_of g (add acc (g x)) xs

  unfoldable pub total_battery_soc_pct : Snapshot F → F
  unfolding sum_of
  total_battery_soc_pct s =
      let total_cap = sum_of (λ (b : Battery F). b.cap_kwh) (of_int (pos 0)) s.batteries in
      if le total_cap (of_int (pos 0))
      then lit 0 0
      else div (sum_of (λ (b : Battery F). mul b.soc_pct b.cap_kwh) (of_int (pos 0)) s.batteries)
          total_cap

  unfoldable pub total_available_kwh : Snapshot F → F
  unfolding sum_of
  total_available_kwh s = sum_of (λ (b : Battery F). b.available_kwh) (of_int (pos 0)) s.batteries
