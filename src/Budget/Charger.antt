-- ===== src/Budget/Charger.antt =====
-- core/budget.py: the current of the EV, and the commands for its charger.
use carma_box_v.Base.{Bool, not, ◌&&◌, ◌||◌, List, ◌++◌, leb, if◌then◌else◌}
use carma_box_v.Base.Int.{ℤ, pos, ◌+ℤ◌, ◌-ℤ◌, ltb_ℤ, eqb_ℤ}
use carma_box_v.Base.Floats.{Float, ge, fmax}
use carma_box_v.Models.{
  CommandType, Value, nothing, int, start_ev_charging, stop_ev_charging, set_ev_current,
}
use carma_box_v.Executor.Types.{Command}
use carma_box_v.Budget.Types.{BudgetConfig, BudgetInput, BudgetState}
use carma_box_v.Budget.Facts.{
  is_daytime, is_fm, ev_power_at_amps, ev_wants_charge, bat_can_support_ev, all_bat_full,
}
use carma_box_v.Budget.Batteries.{clamp_to, only_if, bat_command}

module _ {F : Type 0} ⦃f : Float F⦄ (cfg : BudgetConfig F) (inp : BudgetInput F) where
  open f use {sub, lit}

  -- The current before the clamp.
  unfoldable pub ramp_target : F → BudgetState F → ℤ
  ramp_target remaining_w s =
      let current = s.ev_current_amps in
      if ltb_ℤ (pos 0) current && inp.ev_charging
      then if leb cfg.ev_ramp_down_hold_cycles s.consecutive_import_cycles
          && ltb_ℤ cfg.ev_min_amps current
        then current -ℤ pos 1
        else if leb cfg.ev_ramp_up_hold_cycles s.consecutive_export_cycles
            && ltb_ℤ current cfg.ev_max_amps
        then current +ℤ pos 1
        else current
      else if ge remaining_w (ev_power_at_amps cfg.ev_min_amps)
      then cfg.ev_min_amps
      else pos 0

  abbrev used_w : ℤ → ℤ → F
  used_w target current =
      if inp.ev_charging && ltb_ℤ (pos 0) target
      then fmax (lit 0 0) (sub (ev_power_at_amps target) (ev_power_at_amps current))
      else ev_power_at_amps target

  -- The current and the surplus that remains.
  unfoldable pub allocate_ev_with_ramp : F → BudgetState F → ℤ × F
  allocate_ev_with_ramp remaining_w s =
      let target = clamp_to cfg.ev_max_amps (ramp_target remaining_w s) in
      (target, sub remaining_w (used_w target s.ev_current_amps))

  -- The branches on the time of the day. Those for an evening without the zero-grid controller, which
  -- is always active, are left out.
  unfoldable pub ev_target_of : F → BudgetState F → ℤ
  ev_target_of surplus s =
      let ramped = (allocate_ev_with_ramp surplus s).0 in
      let wants = ev_wants_charge inp in
      if not (is_daytime inp.hour)
      then pos 0
      else if is_fm inp.hour && wants
      then ramped
      else if wants && (bat_can_support_ev cfg inp || all_bat_full inp cfg)
      then ramped
      else pos 0

module _ {F : Type 0} where
  abbrev pub ev_command : CommandType → Value F → Command F
  ev_command t value = bat_command t "ev" value

  -- The commands by day, against what the allocator wrote last.
  unfoldable pub ev_commands : ℤ → BudgetState F → List (Command F)
  ev_commands ev_target s =
      let want_enabled = ltb_ℤ (pos 0) ev_target in
      only_if (want_enabled && not s.intended_ev_enabled) (ev_command start_ev_charging nothing)
      ++ (only_if (not want_enabled && s.intended_ev_enabled) (ev_command stop_ev_charging nothing)
          ++ only_if (want_enabled && not (eqb_ℤ ev_target s.ev_current_amps))
              (ev_command set_ev_current (int ev_target)))

  -- The state with `intended_ev_enabled`, which changes by day only, and the current.
  unfoldable pub note_ev : Bool → ℤ → BudgetState F → BudgetState F
  note_ev daytime ev_target s = record s {
    intended_ev_enabled = if daytime then ltb_ℤ (pos 0) ev_target else s.intended_ev_enabled;
    ev_current_amps = ev_target;
  }
