-- ===== src/Models/Tests.antt =====
-- The SoC floor at the defaults of the configuration.
use carma_box_v.Base.{◌≡◌, refl, arith}
use carma_box_v.Base.Int.{◌+ℤ◌}
use carma_box_v.Base.Milli.{Milli, milli_float, num}
use carma_box_v.Models.{MinSocConfig, effective_min_soc}
use carma_box_v.Models.Laws.{IsCoherent}

abbrev soc : MinSocConfig Milli
soc = record {
  normal_floor_pct = num 15;
  cold_floor_pct = num 20;
  freeze_floor_pct = num 25;
  cold_temp_c = num 4;
  freeze_temp_c = num 0;
  soh_warn_pct = num 80;
  soh_crit_pct = num 70;
  soh_warn_raise_pct = num 5;
  soh_crit_raise_pct = num 10;
}

cold_and_worn : effective_min_soc (num 3) (num 75) soc ≡ num 25
unfolding effective_min_soc ◌+ℤ◌
cold_and_worn = refl

soc-IsCoherent : IsCoherent soc
unfolding ◌+ℤ◌
soc-IsCoherent = record {
  cold_up = refl;
  freeze_up = refl;
  refl_of = refl;
  crit_mono = λ x y h. ground arith;
  warn_mono = λ x y h. ground arith;
  warn_up = λ x h. ground arith;
  crit_up = λ x h. ground arith;
}
