-- ===== src/Guards/Battery.antt =====
-- core/guards.py: the guards that look at each battery, G0, G1, G2 and G4. Each appends to the
-- evaluation that it is given.
use carma_box_v.Base.{
  Bool, true, false, not, ◌&&◌, ◌||◌, List, [], ◌∷◌, ◌++◌, String, if◌then◌else◌, contains, insert,
  discard,
}
use carma_box_v.Base.Int.{pos, ltb_ℤ}
use carma_box_v.Base.Floats.{Float, gt}
use carma_box_v.Models.{
  Battery, CommandType, set_ems_mode, set_ems_power_limit, set_fast_charging, charge_pv,
  discharge_pv, battery_standby, import_ac, same_mode, mode_value, Scenario, night_grid_charge,
  same_scenario, Value, int, text, flag, effective_min_soc,
}
use carma_box_v.Guards.Types.{
  GuardLevel, ok, warning, critical, GuardCommand, GuardConfig, GuardEvaluation, Violation,
  g0_charging, g0_at_floor, g0_at_night, g2_conflict,
}

abbrev pub is_ok : GuardLevel → Bool
is_ok ok = true
is_ok _ = false

-- `if result.level == GuardLevel.OK: result.level = GuardLevel.WARNING`
abbrev pub warn : GuardLevel → GuardLevel
warn l = if is_ok l then warning else l

module _ {F : Type 0} where
  abbrev pub command : String → CommandType → String → Value F → GuardCommand F
  command g t i v = record { guard_id = g; command_type = t; target_id = i; value = v }

  abbrev pub emit : GuardCommand F → GuardEvaluation F → GuardEvaluation F
  emit c r = record r { commands = r.commands ++ (c ∷ []) }

  -- `result.level = level` and `result.violations.append(v)`
  abbrev pub flag_as : GuardLevel → Violation F → GuardEvaluation F → GuardEvaluation F
  flag_as l v r = record r { level = l; violations = r.violations ++ (v ∷ []) }

module _ {F : Type 0} ⦃f : Float F⦄ where
  open f use {lt, le, add, lit}

  unfoldable pub min_soc : GuardConfig F → Battery F → F
  min_soc cfg bat = effective_min_soc bat.cell_temp_c bat.soh_pct cfg.soc

  -- Condition A of G0: a limit above zero in charge_pv with no PV.
  unfoldable pub charges_without_pv : GuardConfig F → Battery F → Bool
  charges_without_pv cfg bat =
      same_mode bat.ems_mode charge_pv
      && ltb_ℤ (pos 0) bat.ems_power_limit_w
      && lt bat.pv_power_w cfg.g0_min_pv_power_w

  -- Condition B: charging at the floor.
  unfoldable pub charges_at_floor : GuardConfig F → Battery F → Bool
  charges_at_floor cfg bat =
      ltb_ℤ (pos 0) bat.ems_power_limit_w && le bat.soc_pct (add (min_soc cfg bat) (lit 1 0))

  -- Condition C: charging from the grid at night.
  unfoldable pub charges_at_night : GuardConfig F → Battery F → Bool
  charges_at_night cfg bat =
      lt bat.power_w cfg.g0_charging_power_threshold_w
      && not (same_mode bat.ems_mode charge_pv || same_mode bat.ems_mode import_ac)
      && lt bat.pv_power_w cfg.g0_min_pv_power_w

  abbrev pub zero_limit : Battery F → GuardCommand F
  zero_limit bat = command "G0" set_ems_power_limit bat.battery_id (int (pos 0))

  unfoldable pub g0_no_pv : GuardConfig F → Battery F → GuardEvaluation F → GuardEvaluation F
  g0_no_pv cfg bat r =
      if charges_without_pv cfg bat
      then flag_as critical (g0_charging bat.battery_id bat.ems_power_limit_w bat.pv_power_w)
          (emit (zero_limit bat) r)
      else r

  unfoldable pub g0_floor : GuardConfig F → Battery F → GuardEvaluation F → GuardEvaluation F
  g0_floor cfg bat r =
      if charges_at_floor cfg bat
      then flag_as critical (g0_at_floor bat.battery_id) (emit (zero_limit bat) r)
      else r

  unfoldable pub g0_night : GuardConfig F → Battery F → GuardEvaluation F → GuardEvaluation F
  g0_night cfg bat r =
      if charges_at_night cfg bat
      then flag_as critical (g0_at_night bat.battery_id) (
          emit (command "G0" set_ems_mode bat.battery_id (text (mode_value battery_standby))) (
            emit (command "G0" set_fast_charging bat.battery_id (flag false))
              (emit (zero_limit bat) r)))
      else r

  unfoldable pub g0_loop : GuardConfig F → List (Battery F) → GuardEvaluation F → GuardEvaluation F
  g0_loop cfg [] r = r
  g0_loop cfg (bat ∷ bats) r =
      g0_loop cfg bats (g0_night cfg bat (g0_floor cfg bat (g0_no_pv cfg bat r)))

  unfoldable pub check_g0 :
      GuardConfig F → List (Battery F) → Scenario → GuardEvaluation F → GuardEvaluation F
  check_g0 cfg bats scenario r =
      if same_scenario scenario night_grid_charge then r else g0_loop cfg bats r

  abbrev charge_from_pv : Battery F → GuardCommand F
  charge_from_pv bat = command "G1" set_ems_mode bat.battery_id (text (mode_value charge_pv))

  -- The battery joins `batteries_at_floor` and is told to charge from PV.
  abbrev hold_at_floor : Battery F → GuardEvaluation F → GuardEvaluation F
  hold_at_floor bat r =
      emit (charge_from_pv bat)
        (record r { batteries_at_floor = insert bat.battery_id r.batteries_at_floor })

  -- One round of G1's loop, on `_at_floor` and the evaluation.
  unfoldable pub g1_step :
      GuardConfig F → Battery F → List String × GuardEvaluation F → List String × GuardEvaluation F
  g1_step cfg bat (at_floor, r) =
      let floor = min_soc cfg bat in
      if le bat.soc_pct floor
      then (insert bat.battery_id at_floor, record (hold_at_floor bat r) { level = warn r.level })
      else if contains bat.battery_id at_floor
      then if gt bat.soc_pct (add floor cfg.hysteresis_pct)
        then (discard bat.battery_id at_floor, r)
        else (at_floor, hold_at_floor bat r)
      else (at_floor, r)

  unfoldable pub check_g1 :
      GuardConfig F
      → List (Battery F)
      → List String × GuardEvaluation F
      → List String × GuardEvaluation F
  check_g1 cfg [] s = s
  check_g1 cfg (bat ∷ bats) s = check_g1 cfg bats (g1_step cfg bat s)

  unfoldable pub g2_step : Battery F → GuardEvaluation F → GuardEvaluation F
  g2_step bat r =
      if bat.fast_charging && same_mode bat.ems_mode discharge_pv
      then flag_as critical (g2_conflict bat.battery_id)
          (emit (command "G2" set_fast_charging bat.battery_id (flag false)) r)
      else r

  unfoldable pub check_g2 : List (Battery F) → GuardEvaluation F → GuardEvaluation F
  check_g2 [] r = r
  check_g2 (bat ∷ bats) r = check_g2 bats (g2_step bat r)

  unfoldable pub g4_step : GuardConfig F → Battery F → GuardEvaluation F → GuardEvaluation F
  g4_step cfg bat r =
      if lt bat.cell_temp_c cfg.soc.freeze_temp_c
      then emit (command "G4" set_ems_mode bat.battery_id (text (mode_value battery_standby))) r
      else r

  unfoldable pub check_g4 : GuardConfig F → List (Battery F) → GuardEvaluation F → GuardEvaluation F
  check_g4 cfg [] r = r
  check_g4 cfg (bat ∷ bats) r = check_g4 cfg bats (g4_step cfg bat r)
