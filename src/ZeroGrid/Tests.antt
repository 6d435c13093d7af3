-- ===== src/ZeroGrid/Tests.antt =====
-- Two batteries, one of them below its floor, while the house exports 2 kW.
use carma_box_v.Base.{◌≡◌, refl, inl, inr, List, [], ◌∷◌, none, some, String, ℕ, arith, All}
use carma_box_v.Base.Int.{pos}
use carma_box_v.Base.Milli.{Milli, milli_float, Milli-IsOrdered, num, minus_num}
use carma_box_v.ModeChange.Manager.{lookup}
use carma_box_v.ZeroGrid.Example.{Milli-IsSigned}
use carma_box_v.ZeroGrid.Types.{BatLimits, BatSnapshot, ZeroGridPlan}
use carma_box_v.ZeroGrid.Plan.{default_tuning, plan_zero_grid}
use carma_box_v.ZeroGrid.Safety.{IsPlanned}
use carma_box_v.Dicts.Fill.{DistinctBy}
use carma_box_v.ZeroGrid.Contract.{HasLimits, name_of, bank, plan_zero_grid-IsPlanned}

abbrev limits : BatLimits Milli
limits = record {
  max_charge_w = pos 5000;
  max_discharge_w = pos 4000;
  soc_min_pct = num 15;
  soc_max_pct = num 98;
  soc_min_buffer_pct = num 1;
}

abbrev snapshot : String → ℕ → BatSnapshot Milli
snapshot id soc_pct = record {
  battery_id = id;
  power_w = num 0;
  soc_pct = num soc_pct;
  cap_kwh = num 10;
}

abbrev bats : List (BatSnapshot Milli)
bats = snapshot "kontor" 14 ∷ snapshot "forrad" 60 ∷ []

abbrev limits_by_id : List (String × BatLimits Milli)
limits_by_id = ("kontor", limits) ∷ ("forrad", limits) ∷ []

bats-HasLimits : All (HasLimits limits_by_id) bats
unfolding lookup
bats-HasLimits = ((limits, refl), ((limits, refl), tt))

bats-DistinctBy : DistinctBy name_of bats
bats-DistinctBy = ground arith

plan_zero_grid-IsPlanned_example :
    (p : ZeroGridPlan) × (plan_zero_grid default_tuning none (minus_num 2000) bats limits_by_id
      ≡ some p)
    × IsPlanned (bank (snapshot "forrad" 60) limits) p
unfolding lookup
plan_zero_grid-IsPlanned_example =
    plan_zero_grid-IsPlanned limits_by_id Milli-IsOrdered Milli-IsSigned default_tuning none
      (minus_num 2000) bats (snapshot "forrad" 60) limits bats-DistinctBy bats-HasLimits
      (inr (inl refl)) refl (refl, refl)
