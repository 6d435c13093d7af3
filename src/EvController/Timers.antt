-- ===== src/EvController/Timers.antt =====
-- core/ev_controller.py: the timers, the steps of the current, and the SoC of a car that sleeps.
use carma_box_v.Base.{
  Bool, true, false, ◌&&◌, List, [], ◌∷◌, ◌++◌, Option, none, some, if◌then◌else◌,
}
use carma_box_v.Base.Int.{ℤ, ltb_ℤ}
use carma_box_v.Base.Floats.{Float, ge, gt}
use carma_box_v.EvController.Types.{EvConfig, EvState}

module _ {F : Type 0} ⦃f : Float F⦄ (cfg : EvConfig F) where
  open f use {lt, le, sub, neg, lit}

  abbrev zero_s : F
  zero_s = lit 0 0

  unfoldable pub can_start : F → EvState F → Bool
  can_start now s =
      if le s.last_stop zero_s && le zero_s s.last_stop
      then true
      else ge (sub now s.last_stop) cfg.cooldown_after_stop_s

  unfoldable pub can_ramp : F → EvState F → Bool
  can_ramp now s =
      if gt s.last_start zero_s && lt (sub now s.last_start) cfg.cooldown_after_start_s
      then false
      else if gt s.last_ramp zero_s && lt (sub now s.last_ramp) cfg.step_interval_s
      then false
      else true

  -- `DEFAULT_SOC_FALLBACK_PCT`
  abbrev default_soc_fallback_pct : F
  default_soc_fallback_pct = lit 50 0

  unfoldable pub resolve_soc : F → F → EvState F → EvState F × F
  resolve_soc now soc_pct s =
      if ge soc_pct zero_s
      then (record s { last_known_soc = soc_pct; last_soc_time = now }, soc_pct)
      else if ge s.last_known_soc zero_s && lt (sub now s.last_soc_time) cfg.soc_stale_max_s
      then (s, s.last_known_soc)
      else (s, default_soc_fallback_pct)

-- The first step that passes the test.
abbrev pub first_step : (ℤ → Bool) → List ℤ → Option ℤ
first_step test [] = none
first_step test (step ∷ steps) = if test step then some step else first_step test steps

abbrev pub reversed : List ℤ → List ℤ
reversed [] = []
reversed (step ∷ steps) = reversed steps ++ (step ∷ [])

unfoldable pub next_step_up : List ℤ → ℤ → Option ℤ
next_step_up steps current_a = first_step (λ step. ltb_ℤ current_a step) steps

unfoldable pub next_step_down : List ℤ → ℤ → Option ℤ
next_step_down steps current_a = first_step (λ step. ltb_ℤ step current_a) (reversed steps)
