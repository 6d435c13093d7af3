-- ===== src/Balancer/Allocate.antt =====
-- core/balancer.py: the correction factors, `allocate` and `ct_compensation`.
use carma_box_v.Base.{
  is_empty, Bool, false, ◌||◌, List, [], String, length, map, ltb, if◌then◌else◌,
}
use carma_box_v.Base.Int.{ℤ, pos}
use carma_box_v.Base.Floats.{Float, gt, fmax, fmin, sum, abs}
use carma_box_v.Models.{MinSocConfig, effective_min_soc}
use carma_box_v.Dicts.{get, values, assign_all}

-- `BalancerConfig`; `soc` has the fields that it shares with `GuardConfig`.
pub record BalancerConfig (F : Type 0) : Type 0 where
  pub soc : MinSocConfig F
  pub correction_deadband_pct : F
  pub correction_scale : F
  pub correction_max : F
  pub correction_min : F
  pub cold_derating_factor : F
  pub freeze_derating_factor : F

-- `BatteryInfo`, without the placement of its current transformer, which nothing here reads.
pub record BatteryInfo (F : Type 0) : Type 0 where
  pub battery_id : String
  pub soc_pct : F
  pub cap_kwh : F
  pub cell_temp_c : F
  pub soh_pct : F
  pub max_discharge_w : F
  pub max_charge_w : F
  pub local_load_w : F
  pub pv_power_w : F

pub record BatteryAllocation (F : Type 0) : Type 0 where
  pub battery_id : String
  pub watts : ℤ
  pub share_pct : F
  pub effective_floor_pct : F
  pub available_kwh : F
  pub correction_factor : F
  pub cold_derated : Bool
  pub clamped : Bool

pub record BalanceResult (F : Type 0) : Type 0 where
  pub allocations : List (BatteryAllocation F)
  pub total_requested_w : F
  pub total_allocated_w : F
  pub is_charging : Bool

module _ {F : Type 0} ⦃f : Float F⦄ (cfg : BalancerConfig F) (is_charging : Bool) where
  open f use {lt, le, add, sub, mul, div, neg, of_int, lit, trunc}

  abbrev pub id_of : BatteryInfo F → String
  id_of b = b.battery_id

  abbrev pub floor_of : BatteryInfo F → F
  floor_of b = effective_min_soc b.cell_temp_c b.soh_pct cfg.soc

  -- What a battery can still take, or what it holds above its floor.
  unfoldable pub available_kwh_of : BatteryInfo F → F
  available_kwh_of b =
      let span = if is_charging then sub (lit 100 0) b.soc_pct else sub b.soc_pct (floor_of b) in
      fmax (lit 0 0) (mul (div span (lit 100 0)) b.cap_kwh)

  unfoldable pub correction_factor_of : F → BatteryInfo F → F
  correction_factor_of target_soc b =
      let delta = sub target_soc b.soc_pct in
      let lag = if is_charging then delta else neg delta in
      let raw = add (lit 1 0) (div lag cfg.correction_scale) in
      if lt (abs delta) cfg.correction_deadband_pct
      then lit 1 0
      else fmax cfg.correction_min (fmin cfg.correction_max raw)

  -- `_correction_factors`. Its division is for batteries of which one has something available, so the
  -- total capacity is not 0.
  unfoldable pub correction_factors : List (BatteryInfo F) → List (String × F)
  correction_factors bats =
      let total_cap = sum (map (λ b. b.cap_kwh) bats) in
      let target_soc = div (sum (map (λ b. mul b.soc_pct b.cap_kwh) bats)) total_cap in
      if ltb (length bats) 2
      then assign_all id_of (λ b. lit 1 0) bats []
      else assign_all id_of (correction_factor_of target_soc) bats []

  -- Step 5's derating for the cold.
  unfoldable pub derated : BatteryInfo F → F → F
  derated b base_w =
      if lt b.cell_temp_c cfg.soc.freeze_temp_c
      then mul base_w cfg.freeze_derating_factor
      else if lt b.cell_temp_c cfg.soc.cold_temp_c
      then mul base_w cfg.cold_derating_factor
      else base_w

  abbrev pub is_cold : BatteryInfo F → Bool
  is_cold b = lt b.cell_temp_c cfg.soc.freeze_temp_c || lt b.cell_temp_c cfg.soc.cold_temp_c

  abbrev pub max_w : BatteryInfo F → F
  max_w b = if is_charging then b.max_charge_w else b.max_discharge_w

  -- The allocation of one battery, from the dicts of the steps before.
  unfoldable pub allocation :
      F
      → List (String × F)
      → List (String × F)
      → List (String × F)
      → List (String × F)
      → BatteryInfo F
      → BatteryAllocation F
  allocation total_watts floors available shares corrections b =
      let of = λ (d : List (String × F)). get b.battery_id (lit 1 0) d in
      let base_w = derated b (mul (mul total_watts (of shares)) (of corrections)) in
      record {
        battery_id = b.battery_id;
        watts = trunc (fmin base_w (max_w b));
        share_pct = mul (of shares) (lit 100 0);
        effective_floor_pct = of floors;
        available_kwh = of available;
        correction_factor = of corrections;
        cold_derated = is_cold b;
        clamped = gt base_w (max_w b);
      }

  unfoldable pub zero_allocation : List (String × F) → BatteryInfo F → BatteryAllocation F
  zero_allocation floors b = record {
    battery_id = b.battery_id;
    watts = pos 0;
    share_pct = lit 0 0;
    effective_floor_pct = get b.battery_id (lit 0 0) floors;
    available_kwh = lit 0 0;
    correction_factor = lit 1 0;
    cold_derated = false;
    clamped = false;
  }

  abbrev balanced : List (BatteryAllocation F) → F → F → BalanceResult F
  balanced allocations requested allocated = record {
    allocations = allocations;
    total_requested_w = requested;
    total_allocated_w = allocated;
    is_charging = is_charging;
  }

  unfoldable pub allocate : List (BatteryInfo F) → F → BalanceResult F
  allocate bats total_watts =
      let floors = assign_all id_of floor_of bats [] in
      let available = assign_all id_of available_kwh_of bats [] in
      let total_available = sum (values available) in
      let shares = map (λ e. (e.0, div e.1 total_available)) available in
      let corrections = correction_factors bats in
      let allocations = map (allocation total_watts floors available shares corrections) bats in
      if is_empty bats || le total_watts (lit 0 0)
      then balanced [] total_watts (lit 0 0)
      else if le total_available (lit 0 0)
      then balanced (map (zero_allocation floors) bats) total_watts (lit 0 0)
      else balanced allocations total_watts (sum (map (λ a. of_int a.watts) allocations))

module _ {F : Type 0} ⦃f : Float F⦄ where
  open f use {le, add, sub, mul, div, lit, trunc}

  -- A total capacity of 0 is not a case of the site's.
  unfoldable pub ct_compensation : BatteryInfo F → BatteryInfo F → F → ℤ × ℤ
  ct_compensation kontor forrad grid_import_w =
      let kontor_ct_demand = fmax (lit 0 0) (sub kontor.local_load_w kontor.pv_power_w) in
      let house_need = fmax (lit 0 0) grid_import_w in
      let total_need = add kontor_ct_demand house_need in
      let total_cap = add kontor.cap_kwh forrad.cap_kwh in
      if le total_need (lit 0 0) then (pos 0, pos 0) else (
        trunc (mul total_need (div kontor.cap_kwh total_cap)),
        trunc (mul total_need (div forrad.cap_kwh total_cap)),
      )
