-- ===== src/BatSupport/Tests.antt =====
-- A dishwasher and a car at night: 8 kW against a cap of 5.7 kW.
use carma_box_v.Base.{true, [], ◌∷◌, String, arith, ℕ, All}
use carma_box_v.Base.Milli.{Milli, milli_float, num}
use carma_box_v.Base.Int.{pos}
use Prim.Native.Nat.{ℕ}
use carma_box_v.Base.{some}
use carma_box_v.Models.{EmsMode, charge_pv, discharge_pv}
use carma_box_v.Dicts.Fill.{DistinctBy}
use carma_box_v.BatSupport.Evaluate.{SupportConfig, BatInfo, SupportInput, id_of, evaluate}
use carma_box_v.BatSupport.Commands.{IsSupport, evaluate-IsSupport}

-- The defaults of `BatSupportConfig`.
abbrev config : SupportConfig Milli
config = record {
  enabled = true;
  tak_weighted_kw = num 3;
  night_weight = some (pos 500);
  safety_margin = some (pos 950);
  min_soc_normal_pct = num 15;
  min_soc_cold_pct = num 20;
  cold_temp_c = num 4;
}

abbrev battery : String → ℕ → EmsMode → BatInfo Milli
battery id cap mode = record {
  battery_id = id;
  soc_pct = num 60;
  cap_kwh = num cap;
  cell_temp_c = num 15;
  max_discharge_w = num 1500;
  current_mode = mode;
}

abbrev input : SupportInput Milli
input = record {
  batteries = battery "kontor" 15 charge_pv ∷ battery "forrad" 5 discharge_pv ∷ [];
  total_load_kw = num 8;
}

input-DistinctBy : DistinctBy id_of input.batteries
input-DistinctBy = ground arith

evaluate-IsSupport_example :
    let d = evaluate config input in
    All (IsSupport config input.batteries d.per_battery_w) d.commands
evaluate-IsSupport_example = evaluate-IsSupport config input input-DistinctBy
