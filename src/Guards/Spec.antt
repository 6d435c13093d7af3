-- ===== src/Guards/Spec.antt =====
-- The commands of an evaluation, guard by guard: each guard's own list, written without the state of
-- the loops, and the theorem that an evaluation emits exactly these, in the order of the guards.
use mathlib.Core.List.{append-nil, append_assoc}
use carma_box_v.Base.{
  ◌≡◌, sym, ◌∙◌, inl, inr, Bool, false, not, ◌&&◌, ◌||◌, List, [], ◌∷◌, ◌++◌, String, arith,
  if◌then◌else◌, Bool-cases, contains, flat_map,
}
use carma_box_v.Base.Floats.{Float, gt}
use carma_box_v.Models.{
  Battery, set_ems_mode, set_fast_charging, discharge_pv, battery_standby, charge_pv, same_mode,
  mode_value, night_grid_charge, same_scenario, text, flag,
}
use carma_box_v.Guards.Types.{GuardCommand, GuardConfig, GuardEvaluation, GuardInput}
use carma_box_v.Guards.Battery.{
  command, zero_limit, min_soc, charges_without_pv, charges_at_floor, charges_at_night, g0_no_pv,
  g0_floor, g0_night, g0_loop, check_g0, g2_step, check_g2, g4_step, check_g4,
}
use carma_box_v.Guards.Grid.{
  emit_each, effective_tak_kw, g3_respond_critical, g3_respond_breach, check_g3, force_discharge,
  full_power, stop_ev, shed_all,
}

module _ {F : Type 0} where
  abbrev pub only_if : Bool → List (GuardCommand F) → List (GuardCommand F)
  only_if t cmds = if t then cmds else []

module _ {F : Type 0} ⦃f : Float F⦄ where
  open f use {lt, le, add, mul}

  abbrev pub g0_of : GuardConfig F → Battery F → List (GuardCommand F)
  g0_of cfg bat =
      only_if (charges_without_pv cfg bat) (zero_limit bat ∷ [])
      ++ (only_if (charges_at_floor cfg bat) (zero_limit bat ∷ [])
          ++ only_if (charges_at_night cfg bat) (
              zero_limit bat
              ∷ command "G0" set_fast_charging bat.battery_id (flag false)
              ∷ command "G0" set_ems_mode bat.battery_id (text (mode_value battery_standby))
              ∷ []))

  abbrev pub g0_commands : GuardConfig F → GuardInput F → List (GuardCommand F)
  g0_commands cfg i =
      if same_scenario i.current_scenario night_grid_charge
      then []
      else flat_map (g0_of cfg) i.batteries

  -- G1 holds a battery at its floor: it is there, or it was and has not recovered.
  abbrev pub is_held : GuardConfig F → List String → Battery F → Bool
  is_held cfg at_floor bat =
      le bat.soc_pct (min_soc cfg bat)
      || contains bat.battery_id at_floor
        && not (gt bat.soc_pct (add (min_soc cfg bat) cfg.hysteresis_pct))

  abbrev pub g1_of : GuardConfig F → List String → Battery F → List (GuardCommand F)
  g1_of cfg at_floor bat =
      only_if (is_held cfg at_floor bat)
        (command "G1" set_ems_mode bat.battery_id (text (mode_value charge_pv)) ∷ [])

  abbrev pub g2_of : Battery F → List (GuardCommand F)
  g2_of bat =
      only_if (bat.fast_charging && same_mode bat.ems_mode discharge_pv)
        (command "G2" set_fast_charging bat.battery_id (flag false) ∷ [])

  abbrev pub g3_commands : GuardConfig F → GuardInput F → List (GuardCommand F)
  g3_commands cfg i =
      let tak = effective_tak_kw cfg i.hour in
      if gt i.weighted_avg_kw tak
      then stop_ev
        ∷ (flat_map (λ bat. force_discharge bat ∷ []) i.batteries
            ++ only_if (gt i.weighted_avg_kw (mul tak cfg.emergency_factor))
                (shed_all ∷ flat_map (λ bat. full_power bat ∷ []) i.batteries))
      else []

  abbrev pub g4_of : GuardConfig F → Battery F → List (GuardCommand F)
  g4_of cfg bat =
      only_if (lt bat.cell_temp_c cfg.soc.freeze_temp_c)
        (command "G4" set_ems_mode bat.battery_id (text (mode_value battery_standby)) ∷ [])

  g0_no_pv-commands :
      (cfg : GuardConfig F) (bat : Battery F) (r : GuardEvaluation F)
      → (g0_no_pv cfg bat r).commands
        ≡ r.commands ++ only_if (charges_without_pv cfg bat) (zero_limit bat ∷ [])
  unfolding g0_no_pv
  g0_no_pv-commands cfg bat r = ground (arith, append-nil r.commands)

  g0_floor-commands :
      (cfg : GuardConfig F) (bat : Battery F) (r : GuardEvaluation F)
      → (g0_floor cfg bat r).commands
        ≡ r.commands ++ only_if (charges_at_floor cfg bat) (zero_limit bat ∷ [])
  unfolding g0_floor
  g0_floor-commands cfg bat r = ground (arith, append-nil r.commands)

  g0_night-commands :
      (cfg : GuardConfig F) (bat : Battery F) (r : GuardEvaluation F)
      → (g0_night cfg bat r).commands
        ≡ r.commands
          ++ only_if (charges_at_night cfg bat) (
              zero_limit bat
              ∷ command "G0" set_fast_charging bat.battery_id (flag false)
              ∷ command "G0" set_ems_mode bat.battery_id (text (mode_value battery_standby))
              ∷ [])
  unfolding g0_night
  g0_night-commands cfg bat r = elim (Bool-cases (charges_at_night cfg bat)) [
    | inl e ↦ rw e (simp append_assoc)
    | inr e ↦ rw e (sym (append-nil r.commands))
  ]

  g0_round-commands :
      (cfg : GuardConfig F) (bat : Battery F) (r : GuardEvaluation F)
      → (g0_night cfg bat (g0_floor cfg bat (g0_no_pv cfg bat r))).commands
        ≡ r.commands ++ g0_of cfg bat
  g0_round-commands cfg bat r =
      rw (g0_night-commands, g0_floor-commands, g0_no_pv-commands) (simp append_assoc)

  g2_step-commands :
      (bat : Battery F) (r : GuardEvaluation F) → (g2_step bat r).commands ≡ r.commands ++ g2_of bat
  unfolding g2_step
  g2_step-commands bat r = ground (arith, append-nil r.commands)

  g4_step-commands :
      (cfg : GuardConfig F) (bat : Battery F) (r : GuardEvaluation F)
      → (g4_step cfg bat r).commands ≡ r.commands ++ g4_of cfg bat
  unfolding g4_step
  g4_step-commands cfg bat r = ground (arith, append-nil r.commands)

  emit_each-commands :
      (make : Battery F → GuardCommand F) (bats : List (Battery F)) (r : GuardEvaluation F)
      → (emit_each make bats r).commands ≡ r.commands ++ flat_map (λ bat. make bat ∷ []) bats
  unfolding emit_each
  emit_each-commands make [] r = sym (append-nil r.commands)
  emit_each-commands make (bat ∷ bats) r =
      emit_each-commands make bats _ ∙ append_assoc r.commands (make bat ∷ []) _

  g0_loop-commands :
      (cfg : GuardConfig F) (bats : List (Battery F)) (r : GuardEvaluation F)
      → (g0_loop cfg bats r).commands ≡ r.commands ++ flat_map (g0_of cfg) bats
  unfolding g0_loop
  g0_loop-commands cfg [] r = sym (append-nil r.commands)
  g0_loop-commands cfg (bat ∷ bats) r =
      rw (g0_loop-commands cfg bats _, g0_round-commands cfg bat r, append_assoc)

  pub check_g2-commands :
      (bats : List (Battery F)) (r : GuardEvaluation F)
      → (check_g2 bats r).commands ≡ r.commands ++ flat_map g2_of bats
  unfolding check_g2
  check_g2-commands [] r = sym (append-nil r.commands)
  check_g2-commands (bat ∷ bats) r =
      rw (check_g2-commands bats (g2_step bat r), g2_step-commands bat r, append_assoc)

  pub check_g4-commands :
      (cfg : GuardConfig F) (bats : List (Battery F)) (r : GuardEvaluation F)
      → (check_g4 cfg bats r).commands ≡ r.commands ++ flat_map (g4_of cfg) bats
  unfolding check_g4
  check_g4-commands cfg [] r = sym (append-nil r.commands)
  check_g4-commands cfg (bat ∷ bats) r =
      rw (check_g4-commands cfg bats (g4_step cfg bat r), g4_step-commands cfg bat r, append_assoc)

  pub check_g0-commands :
      (cfg : GuardConfig F) (i : GuardInput F) (r : GuardEvaluation F)
      → (check_g0 cfg i.batteries i.current_scenario r).commands ≡ r.commands ++ g0_commands cfg i
  unfolding check_g0
  check_g0-commands cfg i r =
      elim (Bool-cases (same_scenario i.current_scenario night_grid_charge)) [
        | inl e ↦ rw e (sym (append-nil r.commands))
        | inr e ↦ rw e (g0_loop-commands cfg i.batteries r)
      ]

  pub check_g3-commands :
      (cfg : GuardConfig F) (i : GuardInput F) (r : GuardEvaluation F)
      → (check_g3 cfg i.batteries i.weighted_avg_kw i.hour r).commands
        ≡ r.commands ++ g3_commands cfg i
  unfolding check_g3 g3_respond_critical g3_respond_breach
  check_g3-commands cfg i r =
      let tak = effective_tak_kw cfg i.hour in
      elim (Bool-cases (lt tak i.weighted_avg_kw)) [
        | inl e ↦ elim (Bool-cases (lt (mul tak cfg.emergency_factor) i.weighted_avg_kw)) [
          | inl e' ↦ rw (e, e', emit_each-commands) (rw emit_each-commands (simp append_assoc))
          | inr e' ↦ rw (e, e', emit_each-commands) (simp (append_assoc, append-nil))
        ]
        | inr e ↦ rw e (elim (Bool-cases (lt (mul tak cfg.margin) i.weighted_avg_kw)) [
          | inl e' ↦ rw e' (sym (append-nil r.commands))
          | inr e' ↦ rw e' (sym (append-nil r.commands))
        ])
      ]
