-- ===== src/Fallback/Tests.antt =====
-- A sleeping car, which reports -1 %.
use carma_box_v.Base.{◌≡◌, refl, some}
use carma_box_v.Base.Int.{◌-ℤ◌}
use carma_box_v.Base.Milli.{Milli, milli_float, num, minus_num}
use carma_box_v.Fallback.{
  FallbackConfig, invalid_soc, resolve_fallback, effective_max_age, resolve_soc_fallback,
}

-- The defaults.
abbrev config : FallbackConfig Milli
config = record { default_soc_pct = num 50; max_soc_age_s = num 300 }

-- The last known SoC for an age below the caller's limit of 600 s, and then the default.
sleeping :
    (resolve_soc_fallback config (minus_num 1) (num 70) (num 600) (num 500)
      ≡ (num 70, some (resolve_fallback invalid_soc)))
    × (resolve_soc_fallback config (minus_num 1) (num 70) (num 600) (num 600)
        ≡ (num 50, some (resolve_fallback invalid_soc)))
unfolding resolve_soc_fallback effective_max_age ◌-ℤ◌
sleeping = (refl, refl)
