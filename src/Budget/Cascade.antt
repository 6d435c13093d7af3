-- ===== src/Budget/Cascade.antt =====
-- core/budget.py: whether the batteries can take more, and the cascade of the loads.
use carma_box_v.Base.{
  Bool, not, ◌&&◌, ◌||◌, List, [], ◌∷◌, String, all, filter, is_empty, leb, if◌then◌else◌,
}
use carma_box_v.Base.Int.{ℤ, ◌-ℤ◌, leb_ℤ}
use carma_box_v.Base.Floats.{Float, ge, gt}
use carma_box_v.Models.{CommandType, Consumer, nothing, turn_on_consumer, turn_off_consumer}
use carma_box_v.Executor.Types.{Command}
use carma_box_v.ModeChange.Manager.{assign}
use carma_box_v.Dicts.{get}
use carma_box_v.Surplus.Dispatch.{by_priority, by_shed}
use carma_box_v.Budget.Types.{BudgetConfig, BudgetInput, BudgetState}
use carma_box_v.Budget.Facts.{grid_tolerance_w}
use carma_box_v.Budget.Batteries.{bat_command}

-- `consumer_last_switch_ts` and the commands.
abbrev pub Switched : Type 0 → Type 0
Switched F = List (String × F) × List (Command F)

module _ {F : Type 0} ⦃f : Float F⦄ (cfg : BudgetConfig F) where
  open f use {lt, sub, neg, lit}

  unfoldable pub is_at_max : List (String × F) → String × ℤ → Bool
  is_at_max bat_socs (id, alloc) =
      ge (get id (lit 100 0) bat_socs) cfg.bat_charge_stop_soc_pct
      || leb_ℤ (cfg.bat_default_max_charge_w -ℤ cfg.bat_at_max_headroom_w) alloc

  -- Without its text for the log.
  unfoldable pub bat_at_max : List (String × ℤ) → List (String × F) → Bool
  bat_at_max bat_alloc bat_socs = not (is_empty bat_alloc) && all (is_at_max bat_socs) bat_alloc

  -- The load was switched less than `cascade_cooldown_s` ago.
  unfoldable pub is_cooling : F → List (String × F) → Consumer F → Bool
  is_cooling now_ts last_switch c =
      lt (sub now_ts (get c.consumer_id (lit 0 0) last_switch)) cfg.cascade_cooldown_s

  -- The loop over the candidates, which ends at the first one that it may switch.
  unfoldable pub switch_first : CommandType → F → List (String × F) → List (Consumer F) → Switched F
  switch_first t now_ts last_switch [] = (last_switch, [])
  switch_first t now_ts last_switch (c ∷ cs) =
      let rest = switch_first t now_ts last_switch cs in
      if is_cooling now_ts last_switch c
      then rest
      else (assign c.consumer_id now_ts last_switch, bat_command t c.consumer_id nothing ∷ [])

  unfoldable pub sustained_export : BudgetState F → Bool
  sustained_export s = leb cfg.cascade_sustained_cycles s.consecutive_export_cycles

  unfoldable pub cascade_consumers :
      BudgetInput F → List (String × ℤ) → F → BudgetState F → Switched F
  cascade_consumers inp bat_alloc now_ts s =
      let last_switch = s.consumer_last_switch_ts in
      let inactive = by_priority (filter (λ c. not c.active) inp.consumers) in
      let active = by_shed (filter (λ c. c.active) inp.consumers) in
      if is_empty inp.consumers
      then (last_switch, [])
      else if lt inp.grid_power_w (neg grid_tolerance_w)
          && sustained_export s
          && bat_at_max bat_alloc inp.bat_socs
      then switch_first turn_on_consumer now_ts last_switch inactive
      else if gt inp.grid_power_w grid_tolerance_w
      then switch_first turn_off_consumer now_ts last_switch active
      else (last_switch, [])
