-- ===== src/BatSupport/Evaluate.antt =====
-- core/bat_support_controller.py: the shares of the batteries and `evaluate`.
use carma_box_v.Base.{Bool, not, List, [], ◌∷◌, String, map, flat_map, if◌then◌else◌}
use carma_box_v.Base.Int.{ℤ, pos, ◌+ℤ◌, ltb_ℤ, leb_ℤ}
use carma_box_v.Base.Floats.{Float, gt, fmax, sum}
use carma_box_v.Models.{
  EmsMode, discharge_pv, same_mode, mode_value, set_ems_mode, set_ems_power_limit, text, int,
}
use carma_box_v.Dicts.{get, values, assign_all}
use carma_box_v.Executor.Types.{Command}

-- `BatSupportConfig`.
pub record SupportConfig (F : Type 0) : Type 0 where
  pub enabled : Bool
  pub tak_weighted_kw : F
  pub night_weight : F
  pub safety_margin : F
  pub min_soc_normal_pct : F
  pub min_soc_cold_pct : F
  pub cold_temp_c : F

pub record BatInfo (F : Type 0) : Type 0 where
  pub battery_id : String
  pub soc_pct : F
  pub cap_kwh : F
  pub cell_temp_c : F
  pub max_discharge_w : F
  pub current_mode : EmsMode

-- `BatSupportInput`, without the weighted average of the grid, which nothing reads.
pub record SupportInput (F : Type 0) : Type 0 where
  pub batteries : List (BatInfo F)
  pub total_load_kw : F

-- Without the text of its reason.
pub record SupportDecision (F : Type 0) : Type 0 where
  pub commands : List (Command F)
  pub per_battery_w : List (String × ℤ)
  pub total_discharge_w : ℤ

abbrev min_ℤ : ℤ → ℤ → ℤ
min_ℤ a b = if ltb_ℤ b a then b else a

-- `actual_total` from a start, battery by battery.
unfoldable pub sum_ℤ_onto : ℤ → List ℤ → ℤ
sum_ℤ_onto s [] = s
sum_ℤ_onto s (a ∷ as_rest) = sum_ℤ_onto (s +ℤ a) as_rest

module _ {F : Type 0} where
  abbrev pub id_of : BatInfo F → String
  id_of b = b.battery_id

  -- SET_EMS_MODE and SET_EMS_POWER_LIMIT of a battery.
  abbrev pub mode_command : BatInfo F → Command F
  mode_command b = record {
    command_type = set_ems_mode;
    target_id = b.battery_id;
    value = text (mode_value discharge_pv);
    rule_id = "BAT_SUPPORT";
  }

  abbrev pub limit_command : BatInfo F → ℤ → Command F
  limit_command b w = record {
    command_type = set_ems_power_limit;
    target_id = b.battery_id;
    value = int w;
    rule_id = "BAT_SUPPORT";
  }

  -- The commands for a battery that is to discharge w watts.
  unfoldable pub commands_for : BatInfo F → ℤ → List (Command F)
  commands_for b w =
      if leb_ℤ w (pos 0)
      then []
      else if not (same_mode b.current_mode discharge_pv)
      then mode_command b ∷ limit_command b w ∷ []
      else limit_command b w ∷ []

  -- A decision without support.
  abbrev pub rest : List (BatInfo F) → SupportDecision F
  rest bats = record {
    commands = [];
    per_battery_w = assign_all id_of (λ b. pos 0) bats [];
    total_discharge_w = pos 0;
  }

module _ {F : Type 0} ⦃f : Float F⦄ (cfg : SupportConfig F) where
  open f use {lt, le, add, sub, mul, div, of_int, lit, trunc}

  abbrev zero_kw : F
  zero_kw = lit 0 0

  unfoldable pub effective_min_soc_of : BatInfo F → F
  effective_min_soc_of b =
      if lt b.cell_temp_c cfg.cold_temp_c then cfg.min_soc_cold_pct else cfg.min_soc_normal_pct

  unfoldable pub available_kwh : BatInfo F → F
  available_kwh b =
      mul (div (fmax zero_kw (sub b.soc_pct (effective_min_soc_of b))) (lit 100 0)) b.cap_kwh

  unfoldable pub proportional_shares : List (BatInfo F) → List (String × F)
  proportional_shares bats =
      let avail = assign_all id_of available_kwh bats [] in
      let total = sum (values avail) in
      if le total zero_kw
      then assign_all id_of (λ b. zero_kw) bats []
      else map (λ e. (e.0, div e.1 total)) avail

  -- The watts that the load exceeds the cap by.
  unfoldable pub excess_w : F → ℤ
  excess_w total_load_kw =
      let tak_raw_kw =
        if gt cfg.night_weight zero_kw
        then div cfg.tak_weighted_kw cfg.night_weight
        else cfg.tak_weighted_kw in
      let cap_raw_kw = mul tak_raw_kw cfg.safety_margin in
      trunc (mul (fmax zero_kw (sub total_load_kw cap_raw_kw)) (lit 1000 0))

  -- A battery's part of the total, within its own limit.
  unfoldable pub clamped : ℤ → List (String × F) → BatInfo F → ℤ
  clamped total_w shares b =
      let raw_alloc = map (λ e. (e.0, trunc (mul (of_int total_w) e.1))) shares in
      min_ℤ (get b.battery_id (pos 0) raw_alloc) (trunc b.max_discharge_w)

  unfoldable pub support : ℤ → List (BatInfo F) → SupportDecision F
  support total_w bats =
      let alloc = clamped total_w (proportional_shares bats) in
      record {
        commands = flat_map (λ b. commands_for b (alloc b)) bats;
        per_battery_w = assign_all id_of alloc bats [];
        total_discharge_w = sum_ℤ_onto (pos 0) (map alloc bats);
      }

  unfoldable pub evaluate : SupportInput F → SupportDecision F
  evaluate inp =
      let bat_total_w = excess_w inp.total_load_kw in
      if not cfg.enabled
      then rest inp.batteries
      else if leb_ℤ bat_total_w (pos 0)
      then rest inp.batteries
      else support bat_total_w inp.batteries
