-- ===== src/Guards/Evaluate.antt =====
-- core/guards.py: `GridGuard.evaluate`, `ExportGuard` and `GuardPolicy`.
use carma_box_v.Base.{Bool, false, List, [], ◌∷◌, ◌++◌, Option, none, some, String, if◌then◌else◌}
use carma_box_v.Base.Int.{pos}
use carma_box_v.Base.Floats.{Float}
use carma_box_v.Models.{set_export_limit, int}
use carma_box_v.Guards.Types.{
  ok, GuardCommand, GuardConfig, GuardEvaluation, GuardInput, GuardState, ClockReads, Violation,
  export_low_pv, export_no_value,
}
use carma_box_v.Guards.Battery.{command, warn, check_g0, check_g1, check_g2, check_g4}
use carma_box_v.Guards.Grid.{check_g3, check_g5, check_g6, check_g7, effective_tak_kw}

module _ {F : Type 0} ⦃f : Float F⦄ where
  open f use {lt, le, add, sub, lit}

  -- `GuardEvaluation()`
  unfoldable pub no_findings : GuardEvaluation F
  no_findings = record {
    level = ok;
    commands = [];
    headroom_kw = lit 0 0;
    violations = [];
    replan_needed = false;
    batteries_at_floor = [];
  }

  unfoldable pub touch_contact : GuardInput F → ClockReads F → GuardState F → GuardState F
  touch_contact i reads s =
      if i.ha_connected then record s { last_ha_contact = reads.at_contact } else s

  -- G0 to G4, which do not read the clock: the evaluation so far and the new `_at_floor`.
  unfoldable pub check_batteries :
      GuardConfig F → GuardInput F → List String → List String × GuardEvaluation F
  check_batteries cfg i at_floor =
      let r0 = check_g0 cfg i.batteries i.current_scenario no_findings in
      let (at_floor', r1) = check_g1 cfg i.batteries (at_floor, r0) in
      let r3 = check_g3 cfg i.batteries i.weighted_avg_kw i.hour (check_g2 i.batteries r1) in
      (at_floor', check_g4 cfg i.batteries r3)

  -- G5 to G7 and the headroom.
  unfoldable pub check_site :
      GuardConfig F
      → GuardInput F
      → ClockReads F
      → GuardState F × GuardEvaluation F
      → GuardState F × GuardEvaluation F
  check_site cfg i reads s =
      let (s5, r5) = check_g5 cfg reads.at_window s in
      let r7 = check_g7 cfg i.ha_connected s5 reads.at_comm (check_g6 cfg i.data_age_s r5) in
      let headroom = sub (sub (effective_tak_kw cfg i.hour) i.weighted_avg_kw) i.appliance_kw in
      (s5, record r7 { headroom_kw = headroom })

  unfoldable pub evaluate :
      GuardConfig F → GuardInput F → ClockReads F → GuardState F → GuardState F × GuardEvaluation F
  evaluate cfg i reads s =
      let s1 = touch_contact i reads s in
      let (at_floor, r4) = check_batteries cfg i s1.at_floor in
      check_site cfg i reads (record s1 { at_floor = at_floor }, r4)

  -- `record_mode_change` and `is_deadband_doubled`
  unfoldable pub record_mode_change : F → GuardState F → GuardState F
  record_mode_change now s = record s { mode_changes = s.mode_changes ++ (now ∷ []) }

  unfoldable pub is_deadband_doubled : F → GuardState F → Bool
  is_deadband_doubled now s = lt now s.deadband_doubled_until

  abbrev limit_export : GuardCommand F
  limit_export = command "EXPORT" set_export_limit "all" (int (pos 0))

  -- `ExportGuard.evaluate`: if export is limited, the reason and the commands.
  unfoldable pub evaluate_export : F → F → Option (Violation F × List (GuardCommand F))
  evaluate_export pv_kw price =
      if lt pv_kw (lit 5 1)
      then some (export_low_pv pv_kw, limit_export ∷ [])
      else if le price (lit 0 0)
      then some (export_no_value price, limit_export ∷ [])
      else none

  -- The merge at the end of `GuardPolicy.evaluate`.
  unfoldable pub merge_export :
      Option (Violation F × List (GuardCommand F)) → GuardEvaluation F → GuardEvaluation F
  merge_export none r = r
  merge_export (some (why, cmds)) r = record r {
    level = warn r.level;
    commands = r.commands ++ cmds;
    violations = r.violations ++ (why ∷ []);
  }

  -- `GuardPolicy.evaluate`
  unfoldable pub evaluate_policy :
      GuardConfig F
      → GuardInput F
      → F
      → F
      → ClockReads F
      → GuardState F
      → GuardState F × GuardEvaluation F
  evaluate_policy cfg i pv_kw price reads s =
      let (s', r) = evaluate cfg i reads s in (s', merge_export (evaluate_export pv_kw price) r)
