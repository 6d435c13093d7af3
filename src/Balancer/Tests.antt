-- ===== src/Balancer/Tests.antt =====
-- Two batteries that share 3 kW of discharging.
use carma_box_v.Base.{refl, false, List, [], ◌∷◌, some, String, ℕ, Each}
use carma_box_v.Base.Int.{pos}
use carma_box_v.Base.Milli.{Milli, milli_float, Milli-IsOrdered, num}
use carma_box_v.Guards.Example.{soc}
use carma_box_v.Balancer.Allocate.{BalancerConfig, BatteryInfo, allocate}
use carma_box_v.Balancer.Bounds.{IsAllocated, allocate-IsAllocated}

-- The defaults of `BalancerConfig`.
abbrev config : BalancerConfig Milli
config = record {
  soc = soc;
  correction_deadband_pct = num 2;
  correction_scale = num 20;
  correction_max = some (pos 1500);
  correction_min = some (pos 500);
  cold_derating_factor = some (pos 500);
  freeze_derating_factor = num 0;
}

abbrev battery : String → ℕ → ℕ → BatteryInfo Milli
battery id soc_pct cap = record {
  battery_id = id;
  soc_pct = num soc_pct;
  cap_kwh = num cap;
  cell_temp_c = num 15;
  soh_pct = num 95;
  max_discharge_w = num 2000;
  max_charge_w = num 2000;
  local_load_w = num 0;
  pv_power_w = num 0;
}

abbrev bats : List (BatteryInfo Milli)
bats = battery "kontor" 60 15 ∷ battery "forrad" 40 5 ∷ []

allocate-IsAllocated_example :
    Each
      (IsAllocated Milli-IsOrdered config false)
      bats
      (allocate config false bats (num 3000)).allocations
allocate-IsAllocated_example =
    allocate-IsAllocated Milli-IsOrdered config false bats (num 3000) refl refl
