-- ===== src/Guards/Levels.antt =====
-- When the guards freeze the cycle, and what they may not do to its level.
use carma_box_v.Base.{ℕ, ◌≡◌, refl, ◌≢◌, ◌↔◌, ◌⊎◌, true, false, List, [], ◌∷◌, String, arith}
use carma_box_v.Base.Floats.{Float}
use carma_box_v.Models.{Battery, Scenario}
use carma_box_v.Guards.Types.{
  GuardLevel, freeze, alarm, GuardCommand, GuardConfig, GuardEvaluation, GuardInput, GuardState,
  ClockReads,
}
use carma_box_v.Guards.Battery.{
  g0_no_pv, g0_floor, g0_night, g0_loop, check_g0, g1_step, check_g1, g2_step, check_g2, g4_step,
  check_g4,
}
use carma_box_v.Guards.Grid.{
  emit_each, g3_respond_critical, g3_respond_breach, check_g3, check_g5, check_g6, check_g7,
  is_stale, is_lost,
}
use carma_box_v.Guards.Evaluate.{no_findings, touch_contact, check_batteries, check_site, evaluate}

-- The levels that let the decision engine run on.
abbrev pub Runs : GuardLevel → Type 0
Runs l = (l ≢ freeze) × (l ≢ alarm)

module _ {F : Type 0} ⦃f : Float F⦄ where
  g0_round-Runs :
      (cfg : GuardConfig F) (bat : Battery F) (r : GuardEvaluation F)
      → Runs r.level
      → Runs (g0_night cfg bat (g0_floor cfg bat (g0_no_pv cfg bat r))).level
  unfolding g0_night g0_floor g0_no_pv
  g0_round-Runs cfg bat r h = ground arith

  g0_loop-Runs :
      (cfg : GuardConfig F) (bats : List (Battery F)) (r : GuardEvaluation F)
      → Runs r.level
      → Runs (g0_loop cfg bats r).level
  unfolding g0_loop
  g0_loop-Runs cfg [] r h = h
  g0_loop-Runs cfg (bat ∷ bats) r h = g0_loop-Runs cfg bats _ (g0_round-Runs cfg bat r h)

  g1_step-Runs :
      (cfg : GuardConfig F) (bat : Battery F) (s : List String) (r : GuardEvaluation F)
      → Runs r.level
      → Runs (g1_step cfg bat (s, r)).1.level
  unfolding g1_step
  g1_step-Runs cfg bat s r h = ground arith

  check_g1-Runs :
      (cfg : GuardConfig F) (bats : List (Battery F)) (s : List String) (r : GuardEvaluation F)
      → Runs r.level
      → Runs (check_g1 cfg bats (s, r)).1.level
  unfolding check_g1
  check_g1-Runs cfg [] s r h = h
  check_g1-Runs cfg (bat ∷ bats) s r h =
      let (s', r') = g1_step cfg bat (s, r) in
      check_g1-Runs cfg bats s' r' (g1_step-Runs cfg bat s r h)

  check_g2-Runs :
      (bats : List (Battery F)) (r : GuardEvaluation F)
      → Runs r.level
      → Runs (check_g2 bats r).level
  unfolding check_g2
  check_g2-Runs [] r h = h
  check_g2-Runs (bat ∷ bats) r h =
      check_g2-Runs bats (g2_step bat r) (unfold g2_step in ground arith)

  pub level-emit_each :
      (make : Battery F → GuardCommand F) (bats : List (Battery F)) (r : GuardEvaluation F)
      → (emit_each make bats r).level ≡ r.level
  unfolding emit_each
  level-emit_each make [] r = refl
  level-emit_each make (bat ∷ bats) r = level-emit_each make bats _

  check_g3-Runs :
      (cfg : GuardConfig F) (bats : List (Battery F)) (avg : F) (hour : ℕ) (r : GuardEvaluation F)
      → Runs r.level
      → Runs (check_g3 cfg bats avg hour r).level
  unfolding check_g3 g3_respond_critical g3_respond_breach
  check_g3-Runs cfg bats avg hour r h = grind (arith, level-emit_each)

  pub level-check_g4 :
      (cfg : GuardConfig F) (bats : List (Battery F)) (r : GuardEvaluation F)
      → (check_g4 cfg bats r).level ≡ r.level
  unfolding check_g4 g4_step
  level-check_g4 cfg [] r = refl
  level-check_g4 cfg (bat ∷ bats) r = ground (arith, level-check_g4 cfg bats (g4_step cfg bat r))

  check_g0-Runs :
      (cfg : GuardConfig F) (bats : List (Battery F)) (s : Scenario) (r : GuardEvaluation F)
      → Runs r.level
      → Runs (check_g0 cfg bats s r).level
  unfolding check_g0
  check_g0-Runs cfg bats s r h = ground (arith, g0_loop-Runs cfg bats r h)

  -- No guard on the batteries or the grid freezes the cycle.
  pub check_batteries-Runs :
      (cfg : GuardConfig F) (i : GuardInput F) (at_floor : List String)
      → Runs (check_batteries cfg i at_floor).1.level
  unfolding check_batteries no_findings
  check_batteries-Runs cfg i at_floor = rw level-check_g4 (
      check_g3-Runs cfg i.batteries i.weighted_avg_kw i.hour _ (
        check_g2-Runs i.batteries _ (
          check_g1-Runs cfg i.batteries at_floor _
            (check_g0-Runs cfg i.batteries i.current_scenario _ (ground arith)))))

  check_site_freezes_iff :
      (cfg : GuardConfig F) (i : GuardInput F) (reads : ClockReads F) (s : GuardState F)
      (r : GuardEvaluation F)
      → Runs r.level
      → (((check_site cfg i reads (s, r)).1.level ≡ freeze) ↔ (
          (is_stale cfg i.data_age_s ≡ true)
          ⊎ ((i.ha_connected ≡ false) × (is_lost cfg s reads.at_comm ≡ true))))
        × ((check_site cfg i reads (s, r)).1.level ≢ alarm)
  unfolding check_site check_g5 check_g6 check_g7 is_lost
  check_site_freezes_iff cfg i reads s r h = ground arith

  -- The level of an evaluation is FREEZE exactly when the data is stale, or HA is away and has been
  -- for longer than its timeout. No evaluation raises ALARM.
  pub evaluate_freezes_iff :
      (cfg : GuardConfig F) (i : GuardInput F) (reads : ClockReads F) (s : GuardState F)
      → (((evaluate cfg i reads s).1.level ≡ freeze) ↔ (
          (is_stale cfg i.data_age_s ≡ true)
          ⊎ ((i.ha_connected ≡ false) × (is_lost cfg s reads.at_comm ≡ true))))
        × ((evaluate cfg i reads s).1.level ≢ alarm)
  unfolding evaluate touch_contact is_lost
  evaluate_freezes_iff cfg i reads s =
      let s1 = touch_contact i reads s in
      let b = check_batteries cfg i s1.at_floor in
      ground (
        arith,
        check_site_freezes_iff cfg i reads (record s1 { at_floor = b.0 }) b.1
            (check_batteries-Runs cfg i s1.at_floor),
      )
