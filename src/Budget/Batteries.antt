-- ===== src/Budget/Batteries.antt =====
-- core/budget.py: the plan for the batteries, its correction by the grid tuner, the guard against
-- changes of mode, and the commands.
use carma_box_v.Base.{
  ◌/◌, Bool, false, not, ◌&&◌, ◌||◌, List, [], ◌∷◌, ◌++◌, Option, none, String, length, filter, map,
  flat_map, is_empty, contains, if◌then◌else◌, str_eq, ℕ,
}
use carma_box_v.Base.Int.{ℤ, pos, negsuc, ◌+ℤ◌, ◌-ℤ◌, ltb_ℤ, eqb_ℤ}
use carma_box_v.Base.Floats.{Float}
use carma_box_v.Models.{
  Value, flag, int, text, CommandType, set_ems_mode, set_ems_power_limit, set_fast_charging,
}
use carma_box_v.Executor.Types.{Command}
use carma_box_v.ModeChange.Manager.{assign}
use carma_box_v.Dicts.{get, keys, assign_all}
use carma_box_v.ZeroGrid.Types.{BatLimits, BatSnapshot, ZeroGridPlan, Tuning}
use carma_box_v.ZeroGrid.Plan.{default_tuning, plan_zero_grid}
use carma_box_v.Budget.Tuner.{should_block_mode_change}
use carma_box_v.Budget.Types.{BudgetConfig, BudgetInput}

-- `a // n`, toward minus infinity, for n > 0.
abbrev pub floor_div : ℤ → ℕ → ℤ
floor_div (pos a) n = pos (a / n)
floor_div (negsuc a) n = negsuc (a / n)

-- `max(0, min(cap, x))`
abbrev pub clamp_to : ℤ → ℤ → ℤ
clamp_to cap x =
    let least = if ltb_ℤ x cap then x else cap in if ltb_ℤ (pos 0) least then least else pos 0

abbrev pub sum_ℤ : List ℤ → ℤ
sum_ℤ [] = pos 0
sum_ℤ (x ∷ xs) = x +ℤ sum_ℤ xs

-- `d[k]` of the plan's modes, which has the keys of its limits.
abbrev pub mode_in : ZeroGridPlan → String → String
mode_in plan id = get id "" plan.modes

abbrev pub entry_discharges : ZeroGridPlan → String × ℤ → Bool
entry_discharges plan entry = str_eq (mode_in plan entry.0) "discharge_pv"

abbrev amounts : List (String × ℤ) → List ℤ
amounts [] = []
amounts ((_, w) ∷ d) = w ∷ amounts d

-- The sum of the limits of the batteries that discharge.
unfoldable pub discharge_sum : ZeroGridPlan → List (String × ℤ) → ℤ
discharge_sum plan alloc = sum_ℤ (amounts (filter (entry_discharges plan) alloc))

abbrev pub is_active_mode : String → Bool
is_active_mode mode = str_eq mode "charge_battery" || str_eq mode "discharge_pv"

unfoldable pub active_bats : ZeroGridPlan → List String
active_bats plan = keys (filter (λ entry. is_active_mode entry.1) plan.modes)

-- The guard keeps a battery in its mode unless the old or the new mode is standby.
unfoldable pub guarded_mode : String → String → String
guarded_mode plan_mode current_mode =
    if not (str_eq plan_mode current_mode)
      && not (str_eq plan_mode "battery_standby")
      && not (str_eq current_mode "battery_standby")
    then current_mode
    else plan_mode

module _ {F : Type 0} ⦃f : Float F⦄ (cfg : BudgetConfig F) where
  open f use {lit}

  abbrev pub snapshot_of : BudgetInput F → String × F → BatSnapshot F
  snapshot_of inp entry = record {
    battery_id = entry.0;
    power_w = get entry.0 (lit 0 0) inp.bat_powers;
    soc_pct = entry.1;
    cap_kwh = get entry.0 cfg.bat_default_cap_kwh inp.bat_caps;
  }

  abbrev pub zg_bats : BudgetInput F → List (BatSnapshot F)
  zg_bats inp = map (snapshot_of inp) inp.bat_socs

  abbrev pub default_limits : BatLimits F
  default_limits = record {
    max_charge_w = cfg.bat_default_max_charge_w;
    max_discharge_w = cfg.bat_default_max_discharge_w;
    soc_min_pct = cfg.bat_discharge_min_soc_pct;
    soc_max_pct = cfg.bat_charge_stop_soc_pct;
    soc_min_buffer_pct = lit 1 0;
  }

  abbrev pub zg_limits : List (String × F) → List (String × BatLimits F)
  zg_limits [] = []
  zg_limits (entry ∷ socs) = (entry.0, default_limits) ∷ zg_limits socs

  abbrev pub zg_tuning : Tuning F
  zg_tuning = record default_tuning {
    spread_aggressive_pct = cfg.bat_aggressive_spread_pct;
    need_based_enabled = cfg.bat_need_based_enabled;
  }

  -- The call of `plan_zero_grid`, without a history of the SoC.
  unfoldable pub zero_grid_plan : BudgetInput F → F → Option ZeroGridPlan
  zero_grid_plan inp grid_smoothed_w =
      plan_zero_grid zg_tuning none grid_smoothed_w (zg_bats inp) (zg_limits inp.bat_socs)

  -- The limit of a battery, moved by its part of the correction.
  unfoldable pub tuned : String → ℤ → ℤ → ℤ
  tuned mode per_bat_delta current =
      if str_eq mode "charge_battery"
      then clamp_to cfg.bat_default_max_charge_w (current -ℤ per_bat_delta)
      else clamp_to cfg.bat_default_max_discharge_w (current +ℤ per_bat_delta)

  unfoldable pub tune_bats : ZeroGridPlan → ℤ → List String → List (String × ℤ) → List (String × ℤ)
  tune_bats plan per_bat_delta [] alloc = alloc
  tune_bats plan per_bat_delta (id ∷ ids) alloc =
      let new_alloc = tuned (mode_in plan id) per_bat_delta (get id (pos 0) alloc) in
      tune_bats plan per_bat_delta ids (assign id new_alloc alloc)

  -- The limits of the plan after the tuner, whose correction is `tune_delta`.
  unfoldable pub tuned_alloc : ZeroGridPlan → ℤ → List (String × ℤ)
  tuned_alloc plan tune_delta =
      let ids = active_bats plan in
      if eqb_ℤ tune_delta (pos 0) || is_empty ids
      then plan.limits_w
      else tune_bats plan (floor_div tune_delta (length ids)) ids plan.limits_w

  abbrev pub guard_holds : F → Bool
  guard_holds rolling_avg_w =
      cfg.grid_tuner.enabled && should_block_mode_change rolling_avg_w cfg.grid_tuner

  unfoldable pub apply_mode_change_guard :
      List (String × String) → List (String × String) → F → List (String × String)
  apply_mode_change_guard plan_modes current_modes rolling_avg_w =
      if guard_holds rolling_avg_w
      then assign_all (λ entry. entry.0)
          (λ entry. guarded_mode entry.1 (get entry.0 "" current_modes)) plan_modes []
      else plan_modes

module _ {F : Type 0} where
  abbrev pub bat_command : CommandType → String → Value F → Command F
  bat_command t id value = record {
    command_type = t;
    target_id = id;
    value = value;
    rule_id = "BUDGET";
  }

  abbrev pub set_mode_command : String → String → Command F
  set_mode_command id mode = bat_command set_ems_mode id (text mode)

  abbrev pub set_limit_command : String → ℤ → Command F
  set_limit_command id limit_w = bat_command set_ems_power_limit id (int limit_w)

  abbrev pub fast_off_command : String → Command F
  fast_off_command id = bat_command set_fast_charging id (flag false)

  abbrev pub only_if : Bool → Command F → List (Command F)
  only_if b c = if b then c ∷ [] else []

  -- The commands for one battery, from the modes to set, its current mode and the batteries that are in
  -- emergency recovery.
  unfoldable pub bat_commands_of :
      List (String × String) → List (String × String) → List String → String × ℤ → List (Command F)
  bat_commands_of targets current_modes emergency_bats (id, limit_w) =
      let target_mode = get id "battery_standby" targets in
      let normal = not (contains id emergency_bats) in
      only_if (normal && not (str_eq (get id "" current_modes) target_mode))
        (set_mode_command id target_mode)
      ++ (set_limit_command id limit_w ∷ only_if normal (fast_off_command id))

  unfoldable pub bat_commands :
      List (String × String)
      → List (String × String)
      → List String
      → List (String × ℤ)
      → List (Command F)
  bat_commands targets current_modes emergency_bats alloc =
      flat_map (bat_commands_of targets current_modes emergency_bats) alloc
