-- ===== src/Guards/Breach.antt =====
-- G3 and the level of an evaluation.
use carma_box_v.Base.{
  if◌then◌else◌, Bool-cases, inl, inr, ◌≡◌, refl, true, false, List, [], ◌∷◌, String, arith,
}
use carma_box_v.Base.Floats.{Float, gt}
use carma_box_v.Models.{Battery}
use carma_box_v.Guards.Types.{
  critical, breach, GuardCommand, GuardConfig, GuardEvaluation, GuardInput, GuardState, ClockReads,
}
use carma_box_v.Guards.Battery.{check_g4, g4_step}
use carma_box_v.Guards.Grid.{
  emit_each, effective_tak_kw, g3_respond_critical, g3_respond_breach, check_g3, check_g5, check_g6,
  check_g7, is_stale,
}
use carma_box_v.Guards.Evaluate.{touch_contact, check_batteries, check_site, evaluate}
use carma_box_v.Guards.Levels.{level-emit_each, level-check_g4}

module _ {F : Type 0} ⦃f : Float F⦄ where
  open f use {mul}

  replan-emit_each :
      (make : Battery F → GuardCommand F) (bats : List (Battery F)) (r : GuardEvaluation F)
      → (emit_each make bats r).replan_needed ≡ r.replan_needed
  unfolding emit_each
  replan-emit_each make [] r = refl
  replan-emit_each make (bat ∷ bats) r = replan-emit_each make bats _

  replan-check_g4 :
      (cfg : GuardConfig F) (bats : List (Battery F)) (r : GuardEvaluation F)
      → (check_g4 cfg bats r).replan_needed ≡ r.replan_needed
  unfolding check_g4 g4_step
  replan-check_g4 cfg [] r = refl
  replan-check_g4 cfg (bat ∷ bats) r = ground (arith, replan-check_g4 cfg bats (g4_step cfg bat r))

  check_g3_breach :
      (cfg : GuardConfig F) (i : GuardInput F) (r : GuardEvaluation F)
      → gt i.weighted_avg_kw (effective_tak_kw cfg i.hour) ≡ true
      → let r' = check_g3 cfg i.batteries i.weighted_avg_kw i.hour r in
        (r'.replan_needed ≡ true)
        × (r'.level ≡ (
            if gt i.weighted_avg_kw (mul (effective_tak_kw cfg i.hour) cfg.emergency_factor)
            then critical
            else breach))
  unfolding check_g3 g3_respond_critical g3_respond_breach
  check_g3_breach cfg i r h =
      let over = mul (effective_tak_kw cfg i.hour) cfg.emergency_factor in
      elim (Bool-cases (gt i.weighted_avg_kw over)) [
        | inl e ↦ rw (h, e) (simp (replan-emit_each, level-emit_each) (refl, refl))
        | inr e ↦ rw (h, e) (simp (replan-emit_each, level-emit_each) (refl, refl))
      ]

  check_batteries_breach :
      (cfg : GuardConfig F) (i : GuardInput F) (at_floor : List String)
      → gt i.weighted_avg_kw (effective_tak_kw cfg i.hour) ≡ true
      → let r = (check_batteries cfg i at_floor).1 in
        (r.replan_needed ≡ true)
        × (r.level ≡ (
            if gt i.weighted_avg_kw (mul (effective_tak_kw cfg i.hour) cfg.emergency_factor)
            then critical
            else breach))
  unfolding check_batteries
  check_batteries_breach cfg i at_floor h =
      rw (replan-check_g4, level-check_g4) (check_g3_breach cfg i _ h)

  -- When the average is above the tak, a replan is requested; and with fresh data and HA connected
  -- the level is CRITICAL above the emergency threshold and BREACH otherwise, whatever G0 and G2
  -- had raised it to.
  pub evaluate_breach :
      (cfg : GuardConfig F) (i : GuardInput F) (reads : ClockReads F) (s : GuardState F)
      → gt i.weighted_avg_kw (effective_tak_kw cfg i.hour) ≡ true
      → let r = (evaluate cfg i reads s).1 in
        (r.replan_needed ≡ true)
        × (is_stale cfg i.data_age_s ≡ false
            → i.ha_connected ≡ true
            → r.level ≡ (
                if gt i.weighted_avg_kw (mul (effective_tak_kw cfg i.hour) cfg.emergency_factor)
                then critical
                else breach))
  unfolding evaluate check_site check_g5 check_g6 check_g7 touch_contact
  evaluate_breach cfg i reads s h = ground (arith, check_batteries_breach cfg i s.at_floor h)
