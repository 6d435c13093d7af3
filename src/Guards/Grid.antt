-- ===== src/Guards/Grid.antt =====
-- core/guards.py: the guards that look at the whole site, G3, G5, G6 and G7.
use carma_box_v.Base.{
  ℕ, Bool, true, not, ◌&&◌, ◌||◌, List, [], ◌∷◌, ltb, leb, if◌then◌else◌, length,
}
use carma_box_v.Base.Int.{pos}
use carma_box_v.Base.Floats.{Float, gt}
use carma_box_v.Models.{
  Battery, set_ems_mode, set_ems_power_limit, stop_ev_charging, turn_off_consumer, discharge_pv,
  mode_value, int, text, nothing,
}
use carma_box_v.Guards.Types.{
  critical, breach, freeze, GuardCommand, GuardConfig, GuardEvaluation, GuardState, g3_critical,
  g3_breach, g3_warning, g5_oscillation, g6_stale, g7_unreachable,
}
use carma_box_v.Guards.Battery.{command, emit, flag_as, warn}

abbrev g3_emergency_power_limit_w : ℕ
g3_emergency_power_limit_w = 6000

module _ {F : Type 0} where
  -- `GridGuard._is_night`
  unfoldable pub is_night_hour : GuardConfig F → ℕ → Bool
  is_night_hour cfg hour =
      let start = cfg.night_start_hour in
      let end = cfg.night_end_hour in
      if ltb end start then leb start hour || ltb hour end else leb start hour && ltb hour end

  -- A loop that appends one command for each battery.
  unfoldable pub emit_each :
      (Battery F → GuardCommand F) → List (Battery F) → GuardEvaluation F → GuardEvaluation F
  emit_each make [] r = r
  emit_each make (bat ∷ bats) r = emit_each make bats (emit (make bat) r)

  abbrev pub force_discharge : Battery F → GuardCommand F
  force_discharge bat = command "G3" set_ems_mode bat.battery_id (text (mode_value discharge_pv))

  abbrev pub full_power : Battery F → GuardCommand F
  full_power bat =
      command "G3" set_ems_power_limit bat.battery_id (int (pos g3_emergency_power_limit_w))

  abbrev pub stop_ev : GuardCommand F
  stop_ev = command "G3" stop_ev_charging "ev" nothing

  abbrev pub shed_all : GuardCommand F
  shed_all = command "G3" turn_off_consumer "all" nothing

module _ {F : Type 0} ⦃f : Float F⦄ where
  open f use {lt, add, sub, mul, div, of_int}

  unfoldable pub effective_tak_kw : GuardConfig F → ℕ → F
  effective_tak_kw cfg hour =
      if is_night_hour cfg hour
      then div cfg.tak_kw cfg.night_weight
      else div cfg.tak_kw cfg.day_weight

  unfoldable pub g3_respond_critical :
      List (Battery F) → F → F → GuardEvaluation F → GuardEvaluation F
  g3_respond_critical bats avg threshold r = emit_each full_power bats (
      emit shed_all (
        emit_each force_discharge bats
          (emit stop_ev (flag_as critical (g3_critical avg threshold) r))))

  unfoldable pub g3_respond_breach :
      List (Battery F) → F → F → GuardEvaluation F → GuardEvaluation F
  g3_respond_breach bats avg tak r =
      emit_each force_discharge bats (emit stop_ev (flag_as breach (g3_breach avg tak) r))

  unfoldable pub check_g3 :
      GuardConfig F → List (Battery F) → F → ℕ → GuardEvaluation F → GuardEvaluation F
  check_g3 cfg bats avg hour r =
      let tak = effective_tak_kw cfg hour in
      let warning_threshold = mul tak cfg.margin in
      let critical_threshold = mul tak cfg.emergency_factor in
      if gt avg tak
      then if gt avg critical_threshold
        then g3_respond_critical bats avg critical_threshold (record r { replan_needed = true })
        else g3_respond_breach bats avg tak (record r { replan_needed = true })
      else if gt avg warning_threshold
      then flag_as (warn r.level) (g3_warning avg warning_threshold) r
      else r

  -- `while self._mode_changes and self._mode_changes[0] < window_start`
  unfoldable pub purge : F → List F → List F
  purge start [] = []
  purge start (t ∷ ts) = let rest = purge start ts in if lt t start then rest else t ∷ ts

  unfoldable pub check_g5 :
      GuardConfig F → F → GuardState F × GuardEvaluation F → GuardState F × GuardEvaluation F
  check_g5 cfg now (s, r) =
      let recent = purge (sub now (of_int cfg.window_s)) s.mode_changes in
      let s' = record s { mode_changes = recent } in
      if leb cfg.max_changes_per_window (length recent)
      then (
        record s' { deadband_doubled_until = add now (of_int cfg.doubled_deadband_s) },
        flag_as (warn r.level) (g5_oscillation (length recent) cfg.window_s) r,
      )
      else (s', r)

  unfoldable pub is_stale : GuardConfig F → F → Bool
  is_stale cfg age = gt age (of_int cfg.stale_threshold_s)

  unfoldable pub check_g6 : GuardConfig F → F → GuardEvaluation F → GuardEvaluation F
  check_g6 cfg age r =
      if is_stale cfg age then flag_as freeze (g6_stale age cfg.stale_threshold_s) r else r

  unfoldable pub is_lost : GuardConfig F → GuardState F → F → Bool
  is_lost cfg s now = gt (sub now s.last_ha_contact) (of_int cfg.ha_health_timeout_s)

  unfoldable pub check_g7 :
      GuardConfig F → Bool → GuardState F → F → GuardEvaluation F → GuardEvaluation F
  check_g7 cfg connected s now r =
      if not connected && is_lost cfg s now
      then flag_as freeze (g7_unreachable (sub now s.last_ha_contact)) r
      else r
