-- ===== src/Guards/Modes.antt =====
-- What the guards leave a battery in. `execute_guard_commands` writes the commands one after another,
-- so the last SET_EMS_MODE for a battery stands: the guards of lower priority win.
use carma_box_v.Base.{
  ◌≡◌, refl, inl, inr, false, not, ◌&&◌, List, [], ◌∷◌, ◌++◌, Option, none, some, String, arith,
  if◌then◌else◌, flat_map, In, any, str_eq, eq_iff,
}
use carma_box_v.Base.Floats.{Float, gt}
use carma_box_v.Models.{
  Battery, CommandType, set_ems_mode, Value, text, mode_value, battery_standby, discharge_pv,
  charge_pv, same_scenario, night_grid_charge,
}
use carma_box_v.Guards.Types.{GuardCommand, GuardConfig, GuardInput, GuardState, ClockReads}
use carma_box_v.Guards.Battery.{charges_at_night}
use carma_box_v.Guards.Grid.{effective_tak_kw, force_discharge, full_power, shed_all}
use carma_box_v.Guards.Evaluate.{evaluate}
use carma_box_v.Guards.Spec.{g0_of, g0_commands, is_held, g1_of, g2_of, g3_commands, g4_of}
use carma_box_v.Guards.Floor.{is_id, Distinct}
use carma_box_v.Guards.Order.{evaluate-commands}

abbrev pub or_else : Option String → Option String → Option String
or_else (some v) _ = some v
or_else none o = o

module _ {F : Type 0} where
  abbrev pub mode_of : CommandType → Value F → Option String
  mode_of set_ems_mode (text v) = some v
  mode_of _ _ = none

  abbrev pub written : String → GuardCommand F → Option String
  written id c = if str_eq id c.target_id then mode_of c.command_type c.value else none

  -- The mode that the commands leave a battery in, if they write one.
  abbrev pub last_mode : String → List (GuardCommand F) → Option String
  last_mode id [] = none
  last_mode id (c ∷ cmds) = or_else (last_mode id cmds) (written id c)

  last_mode-append :
      (id : String) (xs ys : List (GuardCommand F))
      → last_mode id (xs ++ ys) ≡ or_else (last_mode id ys) (last_mode id xs)
  last_mode-append id [] ys = ground arith
  last_mode-append id (x ∷ xs) ys = ground (arith, last_mode-append id xs ys)

  -- A list for each battery that writes the modes of that battery alone.
  abbrev IsLocal : (Battery F → List (GuardCommand F)) → Type 0
  IsLocal g =
      (bat : Battery F) (id : String)
      → str_eq id bat.battery_id ≡ false
      → last_mode id (g bat) ≡ none

  last_mode_local_none :
      (g : Battery F → List (GuardCommand F)) (id : String) (bats : List (Battery F))
      → IsLocal g
      → any (is_id id) bats ≡ false
      → last_mode id (flat_map g bats) ≡ none
  last_mode_local_none g id [] l h = refl
  last_mode_local_none g id (bat ∷ bats) l h =
      rw (last_mode-append id (g bat) (flat_map g bats))
        (ground (arith, l bat id, last_mode_local_none g id bats l))

  is_id_of_any :
      (bat : Battery F) (id : String) (bats : List (Battery F))
      → any (is_id id) bats ≡ false
      → In bat bats
      → str_eq id bat.battery_id ≡ false
  is_id_of_any bat id [] h m = elim m [ ]
  is_id_of_any bat id (b ∷ bats) h (inl e) = rw e (ground arith)
  is_id_of_any bat id (b ∷ bats) h (inr m) = is_id_of_any bat id bats (ground arith) m

  last_mode_local :
      (g : Battery F → List (GuardCommand F)) (bat : Battery F) (bats : List (Battery F))
      → IsLocal g
      → Distinct bats
      → In bat bats
      → last_mode bat.battery_id (flat_map g bats) ≡ last_mode bat.battery_id (g bat)
  last_mode_local g bat [] l d m = elim m [ ]
  last_mode_local g bat (b ∷ bats) l (new, d) (inl e) =
      rw (e, last_mode-append b.battery_id (g b) (flat_map g bats))
        (rw (last_mode_local_none g b.battery_id bats l new))
  last_mode_local g bat (b ∷ bats) l (new, d) (inr m) =
      let apart = is_id_of_any bat b.battery_id bats new m in
      rw (last_mode-append bat.battery_id (g b) (flat_map g bats), last_mode_local g bat bats l d m)
        (ground (
          arith,
          l b bat.battery_id,
          eq_iff bat.battery_id b.battery_id,
          eq_iff b.battery_id bat.battery_id,
        ))

module _ {F : Type 0} ⦃f : Float F⦄ where
  open f use {lt, mul}

  -- The mode in which one cycle's guards leave a battery: frozen cells beat a breach of the tak, that
  -- beats the SoC floor, and that beats charging from the grid at night.
  abbrev pub final_mode : GuardConfig F → GuardInput F → List String → Battery F → Option String
  final_mode cfg i at_floor bat =
      if lt bat.cell_temp_c cfg.soc.freeze_temp_c
      then some (mode_value battery_standby)
      else if gt i.weighted_avg_kw (effective_tak_kw cfg i.hour)
      then some (mode_value discharge_pv)
      else if is_held cfg at_floor bat
      then some (mode_value charge_pv)
      else if not (same_scenario i.current_scenario night_grid_charge) && charges_at_night cfg bat
      then some (mode_value battery_standby)
      else none

  module _ (cfg : GuardConfig F) (i : GuardInput F) (bat : Battery F) (d : Distinct i.batteries)
      (m : In bat i.batteries) where
    last_mode_g0 : last_mode bat.battery_id (g0_commands cfg i) ≡ (
        if not (same_scenario i.current_scenario night_grid_charge) && charges_at_night cfg bat
        then some (mode_value battery_standby)
        else none)
    last_mode_g0 = ground (
      arith,
      last_mode_local (g0_of cfg) bat i.batteries (λ b id h. ground arith) d m,
      eq_iff bat.battery_id bat.battery_id,
    )

    last_mode_g1 :
        (at_floor : List String)
        → last_mode bat.battery_id (flat_map (g1_of cfg at_floor) i.batteries)
          ≡ (if is_held cfg at_floor bat then some (mode_value charge_pv) else none)
    last_mode_g1 at_floor = ground (
      arith,
      last_mode_local (g1_of cfg at_floor) bat i.batteries (λ b id h. ground arith) d m,
      eq_iff bat.battery_id bat.battery_id,
    )

    last_mode_g2 : last_mode bat.battery_id (flat_map g2_of i.batteries) ≡ none
    last_mode_g2 =
        ground (arith, last_mode_local g2_of bat i.batteries (λ b id h. ground arith) d m)

    last_mode_forced :
        last_mode bat.battery_id (flat_map (λ b. force_discharge b ∷ []) i.batteries)
        ≡ some (mode_value discharge_pv)
    last_mode_forced = ground (
      arith,
      last_mode_local (λ b. force_discharge b ∷ []) bat i.batteries (λ b id h. ground arith) d m,
      eq_iff bat.battery_id bat.battery_id,
    )

    last_mode_power :
        last_mode bat.battery_id (flat_map (λ b. full_power b ∷ []) i.batteries) ≡ none
    last_mode_power = ground (
      arith,
      last_mode_local (λ b. full_power b ∷ []) bat i.batteries (λ b id h. ground arith) d m,
    )

    last_mode_g3 : last_mode bat.battery_id (g3_commands cfg i) ≡ (
        if gt i.weighted_avg_kw (effective_tak_kw cfg i.hour)
        then some (mode_value discharge_pv)
        else none)
    last_mode_g3 = ground (
      arith,
      last_mode-append bat.battery_id (flat_map (λ b. force_discharge b ∷ []) i.batteries) (
          if gt i.weighted_avg_kw (mul (effective_tak_kw cfg i.hour) cfg.emergency_factor)
          then shed_all ∷ flat_map (λ b. full_power b ∷ []) i.batteries
          else []),
      last_mode_forced,
      last_mode_power,
    )

    last_mode_g4 : last_mode bat.battery_id (flat_map (g4_of cfg) i.batteries) ≡ (
        if lt bat.cell_temp_c cfg.soc.freeze_temp_c
        then some (mode_value battery_standby)
        else none)
    last_mode_g4 = ground (
      arith,
      last_mode_local (g4_of cfg) bat i.batteries (λ b id h. ground arith) d m,
      eq_iff bat.battery_id bat.battery_id,
    )

  -- If no two batteries share an id, the last mode that a cycle's guards write to a battery is that of
  -- `final_mode`: a breach of the tak discharges also a battery at its SoC floor.
  pub evaluate-final_mode :
      (cfg : GuardConfig F) (i : GuardInput F) (reads : ClockReads F) (s : GuardState F)
      (bat : Battery F)
      → Distinct i.batteries
      → In bat i.batteries
      → last_mode bat.battery_id (evaluate cfg i reads s).1.commands
        ≡ final_mode cfg i s.at_floor bat
  evaluate-final_mode cfg i reads s bat d m = rw (evaluate-commands cfg i reads s d) (
      simp
        (
          last_mode-append,
          last_mode_g0 cfg i bat d m,
          last_mode_g1 cfg i bat d m s.at_floor,
          last_mode_g2 cfg i bat d m,
          last_mode_g3 cfg i bat d m,
          last_mode_g4 cfg i bat d m,
        )
        (ground arith))
