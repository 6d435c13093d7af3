-- ===== src/ZeroGrid/Plan.antt =====
-- core/zero_grid.py: the limits of a battery's SoC, its mode, and `plan_zero_grid`.
use carma_box_v.Base.{
  Bool, true, false, not, List, [], ◌∷◌, Option, none, some, String, map, filter, if◌then◌else◌,
}
use carma_box_v.Base.Int.{ℤ, pos}
use carma_box_v.Base.Floats.{Float, ge, gt, fmax, fmin, sum}
use carma_box_v.ModeChange.Manager.{lookup}
use carma_box_v.ZeroGrid.Types.{BatLimits, BatSnapshot, Bank, ZeroGridPlan, Tuning}
use carma_box_v.ZeroGrid.Gain.{zero_w, dead_band_w, correction_gain, momentum_gain, target_net_w}
use carma_box_v.Dicts.{get, assign_where, assign_all, keys}
use carma_box_v.ZeroGrid.Distribute.{id_of, distribute}

infixl 5 ◌>>=◌
abbrev ◌>>=◌ : {A B : Type 0} → Option A → (A → Option B) → Option B
none >>= k = none
some a >>= k = k a

module _ {F : Type 0} ⦃f : Float F⦄ where
  open f use {lt, le, add, sub, neg, of_int, lit, trunc}

  -- The defaults of `plan_zero_grid`.
  abbrev pub default_tuning : Tuning F
  default_tuning = record {
    deadband_w = dead_band_w;
    spread_aggressive_pct = lit 5 0;
    gain = correction_gain;
    need_based_enabled = false;
  }

  unfoldable pub clamp_for_soc : F → F → BatLimits F → F
  clamp_for_soc target soc_pct limits =
      if lt target zero_w
      then if ge soc_pct limits.soc_max_pct
        then zero_w
        else fmax target (neg (of_int limits.max_charge_w))
      else if gt target zero_w
      then if le soc_pct (add limits.soc_min_pct limits.soc_min_buffer_pct)
        then zero_w
        else fmin target (of_int limits.max_discharge_w)
      else zero_w

  unfoldable pub plan_for_net : F → String × ℤ
  plan_for_net target =
      if le target (neg dead_band_w)
      then ("charge_battery", trunc (neg target))
      else if ge target dead_band_w
      then ("discharge_pv", trunc target)
      else ("battery_standby", pos 0)

  abbrev pub is_below_floor : Bank F → Bool
  is_below_floor b = lt b.snapshot.soc_pct b.limits.soc_min_pct

  -- `forced_modes` and `forced_limits`, whose keys are `below_floor`.
  unfoldable pub forced : List (Bank F) → List (String × (String × ℤ))
  forced banks =
      assign_where is_below_floor id_of (λ b. ("charge_battery", b.limits.max_charge_w)) banks []

  -- The mode and the limit of one battery, and its term in the total.
  unfoldable pub planned :
      List (String × (String × ℤ)) → List (String × F) → Bank F → (String × ℤ) × F
  planned forced_plans per_bat b = elim (lookup (id_of b) forced_plans) [
    | some p ↦ (p, neg (of_int p.1))
    | none ↦
        let clamped = clamp_for_soc (get (id_of b) zero_w per_bat) b.snapshot.soc_pct b.limits in
        (plan_for_net clamped, clamped)
  ]

  abbrev is_in : {V : Type 0} → List (String × V) → Bank F → Bool
  is_in d b = elim (lookup (id_of b) d) [ none ↦ false | some v ↦ true ]

  -- The share of each battery that is not below its floor; `state` is the history of the SoC.
  unfoldable pub shares : Tuning F → Option (List F) → F → List (Bank F) → List (String × F)
  shares t state grid_power_w banks =
      let normal_bats = filter (λ b. not (is_in (forced banks) b)) banks in
      let current_net = sum (map (λ b. b.snapshot.power_w) normal_bats) in
      let gain = momentum_gain state t.gain in
      let target_net = target_net_w current_net grid_power_w t.deadband_w gain in
      distribute t.spread_aggressive_pct t.need_based_enabled target_net normal_bats

  -- `plan_zero_grid` on batteries that have limits.
  unfoldable pub plan_banks : Tuning F → Option (List F) → F → List (Bank F) → ZeroGridPlan
  plan_banks t state grid_power_w banks =
      let plan = planned (forced banks) (shares t state grid_power_w banks) in
      record {
        modes = assign_all id_of (λ b. (plan b).0.0) banks [];
        limits_w = assign_all id_of (λ b. (plan b).0.1) banks [];
        total_target_net_w = trunc (sum (map (λ b. (plan b).1) banks));
        emergency_recovery = keys (forced banks);
      }

  -- `limits_by_id[b.battery_id]` of each battery, or a KeyError.
  unfoldable pub with_limits :
      List (String × BatLimits F) → List (BatSnapshot F) → Option (List (Bank F))
  with_limits limits_by_id [] = some []
  with_limits limits_by_id (b ∷ bats) = do
    limits ← lookup b.battery_id limits_by_id
    banks ← with_limits limits_by_id bats
    some (record { snapshot = b; limits = limits } ∷ banks)

  -- `plan_zero_grid`, none for a KeyError.
  unfoldable pub plan_zero_grid :
      Tuning F
      → Option (List F)
      → F
      → List (BatSnapshot F)
      → List (String × BatLimits F)
      → Option ZeroGridPlan
  plan_zero_grid t state grid_power_w bats limits_by_id = do
    banks ← with_limits limits_by_id bats
    some (plan_banks t state grid_power_w banks)
