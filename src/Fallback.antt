-- ===== src/Fallback.antt =====
-- core/fallback.py: what to do when a part fails, and the SoC to use for an invalid reading. The
-- details of an event are left out.
mod Tests
use carma_box_v.Base.{
  ◌≡◌, refl, ◌⊎◌, inl, inr, Bool, true, false, not, ◌&&◌, Option, none, some, arith, Bool-cases,
  if◌then◌else◌,
}
use carma_box_v.Base.Floats.{Float, ge}

pub data FallbackTrigger : Type 0 where
  ha_disconnected stale_data invalid_soc guard_error : FallbackTrigger
  scenario_error executor_error config_error : FallbackTrigger

pub data FallbackAction : Type 0 where
  standby_all hold_current use_last_known use_default : FallbackAction
  freeze_all retry_next refuse_start : FallbackAction

pub record FallbackEvent : Type 0 where
  pub trigger : FallbackTrigger
  pub action : FallbackAction

-- `FALLBACK_POLICY`
abbrev pub fallback_policy : FallbackTrigger → FallbackAction
fallback_policy ha_disconnected = standby_all
fallback_policy stale_data = hold_current
fallback_policy invalid_soc = use_last_known
fallback_policy guard_error = freeze_all
fallback_policy scenario_error = hold_current
fallback_policy executor_error = retry_next
fallback_policy config_error = refuse_start

unfoldable pub resolve_fallback : FallbackTrigger → FallbackEvent
resolve_fallback trigger = record { trigger = trigger; action = fallback_policy trigger }

pub record FallbackConfig (F : Type 0) : Type 0 where
  pub default_soc_pct : F
  pub max_soc_age_s : F

module _ {F : Type 0} ⦃f : Float F⦄ (cfg : FallbackConfig F) where
  open f use {lt, le, lit}

  -- The configuration's age unless it is the default of 300 s; then the caller's.
  unfoldable pub effective_max_age : F → F
  effective_max_age max_age_s =
      if not (le cfg.max_soc_age_s (lit 300 0) && le (lit 300 0) cfg.max_soc_age_s)
      then cfg.max_soc_age_s
      else max_age_s

  unfoldable pub resolve_soc_fallback : F → F → F → F → F × Option FallbackEvent
  resolve_soc_fallback raw_soc last_known max_age_s age_s =
      let event = some (resolve_fallback invalid_soc) in
      if ge raw_soc (lit 0 0)
      then (raw_soc, none)
      else if ge last_known (lit 0 0) && lt age_s (effective_max_age max_age_s)
      then (last_known, event)
      else (cfg.default_soc_pct, event)

  -- If the default is not negative, the SoC that is used never is, also for a reading that is NaN, and
  -- an event is recorded exactly when the reading was not used.
  pub resolve_soc_fallback_lem :
      (raw_soc last_known max_age_s age_s : F)
      → ge cfg.default_soc_pct (lit 0 0) ≡ true
      → let (soc, event) = resolve_soc_fallback raw_soc last_known max_age_s age_s in
        (ge soc (lit 0 0) ≡ true)
        × ((ge raw_soc (lit 0 0) ≡ true) × (soc ≡ raw_soc) × (event ≡ none)
            ⊎ (ge raw_soc (lit 0 0) ≡ false) × (event ≡ some (resolve_fallback invalid_soc)))
  unfolding resolve_soc_fallback
  resolve_soc_fallback_lem raw_soc last_known max_age_s age_s h =
      elim (Bool-cases (ge raw_soc (lit 0 0))) [
        | inl e ↦ simp e (refl, inl (refl, refl, refl))
        | inr e ↦
            elim (Bool-cases (ge last_known (lit 0 0) && lt age_s (effective_max_age max_age_s))) [
              | inl k ↦ simp (e, k) (ground arith, inr (refl, refl))
              | inr k ↦ simp (e, k) (h, inr (refl, refl))
            ]
      ]
