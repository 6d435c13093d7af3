-- ===== src/Guards/Order.antt =====
-- The commands of an evaluation stand in the order of the guards' priority.
use mathlib.Core.List.{append_assoc}
use carma_box_v.Base.{◌≡◌, ◌∙◌, List, ◌++◌, String, arith, flat_map}
use carma_box_v.Base.Floats.{Float}
use carma_box_v.Guards.Types.{GuardCommand, GuardConfig, GuardInput, GuardState, ClockReads}
use carma_box_v.Guards.Battery.{check_g0, check_g1, check_g2}
use carma_box_v.Guards.Grid.{check_g3, check_g5, check_g6, check_g7}
use carma_box_v.Guards.Evaluate.{no_findings, touch_contact, check_batteries, check_site, evaluate}
use carma_box_v.Guards.Spec.{
  g0_commands, g1_of, g2_of, g3_commands, g4_of, check_g0-commands, check_g2-commands,
  check_g3-commands, check_g4-commands,
}
use carma_box_v.Guards.Floor.{Distinct, check_g1-commands}

module _ {F : Type 0} ⦃f : Float F⦄ where
  -- Each guard's own list, in the order of the guards; G5 to G7 command nothing.
  abbrev pub all_commands : GuardConfig F → GuardInput F → List String → List (GuardCommand F)
  all_commands cfg i at_floor =
      g0_commands cfg i
      ++ (flat_map (g1_of cfg at_floor) i.batteries
          ++ (flat_map g2_of i.batteries
              ++ (g3_commands cfg i ++ flat_map (g4_of cfg) i.batteries)))

  check_batteries-commands :
      (cfg : GuardConfig F) (i : GuardInput F) (at_floor : List String)
      → Distinct i.batteries
      → (check_batteries cfg i at_floor).1.commands ≡ all_commands cfg i at_floor
  unfolding check_batteries
  check_batteries-commands cfg i at_floor d =
      let r0 = check_g0 cfg i.batteries i.current_scenario no_findings in
      let r1 = (check_g1 cfg i.batteries (at_floor, r0)).1 in
      let r2 = check_g2 i.batteries r1 in
      let r3 = check_g3 cfg i.batteries i.weighted_avg_kw i.hour r2 in
      rw
        (
          check_g4-commands cfg i.batteries r3,
          check_g3-commands cfg i r2,
          check_g2-commands i.batteries r1,
          check_g1-commands cfg i.batteries at_floor r0 d,
          check_g0-commands cfg i no_findings,
        )
        (unfold no_findings in simp append_assoc)

  commands-evaluate :
      (cfg : GuardConfig F) (i : GuardInput F) (reads : ClockReads F) (s : GuardState F)
      → (evaluate cfg i reads s).1.commands ≡ (check_batteries cfg i s.at_floor).1.commands
  unfolding evaluate check_site check_g5 check_g6 check_g7 touch_contact
  commands-evaluate cfg i reads s = ground arith

  -- If no two batteries share an id, an evaluation emits exactly the commands of G0, G1, G2, G3 and
  -- G4, each guard's in turn and each guard's in the order of the batteries.
  pub evaluate-commands :
      (cfg : GuardConfig F) (i : GuardInput F) (reads : ClockReads F) (s : GuardState F)
      → Distinct i.batteries
      → (evaluate cfg i reads s).1.commands ≡ all_commands cfg i s.at_floor
  evaluate-commands cfg i reads s d =
      commands-evaluate cfg i reads s ∙ check_batteries-commands cfg i s.at_floor d
