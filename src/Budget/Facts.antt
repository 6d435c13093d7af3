-- ===== src/Budget/Facts.antt =====
-- core/budget.py: what a cycle computes from its input before it allocates.
use carma_box_v.Base.{
  ℕ, zero, suc, ◌+◌, ◌/◌, Bool, ◌&&◌, List, [], ◌∷◌, ◌++◌, Option, none, some, length, is_empty,
  all, drop, leb, ltb, if◌then◌else◌,
}
use carma_box_v.Base.Int.{ℤ, pos}
use carma_box_v.Base.Floats.{Float, ge, gt, fmax, is_zero, sum}
use carma_box_v.Surplus.Dispatch.{sort_by}
use carma_box_v.Dicts.{values}
use carma_box_v.Budget.Types.{BudgetConfig, BudgetInput, BudgetState}

abbrev pub is_daytime : ℕ → Bool
is_daytime hour = leb 6 hour && ltb hour 22

abbrev pub is_fm : ℕ → Bool
is_fm hour = leb 6 hour && ltb hour 12

-- `xs[n]`, none for an IndexError.
unfoldable pub nth : {A : Type 0} → ℕ → List A → Option A
nth n [] = none
nth zero (x ∷ xs) = some x
nth (suc n) (x ∷ xs) = nth n xs

module _ {F : Type 0} ⦃f : Float F⦄ where
  open f use {lt, le, add, sub, mul, div, neg, of_int, lit}

  abbrev pub grid_tolerance_w : F
  grid_tolerance_w = lit 100 0

  abbrev pub grid_aggressive_w : F
  grid_aggressive_w = lit 50 0

  abbrev pub ev_w_per_amp : F
  ev_w_per_amp = mul (lit 3 0) (lit 230 0)

  unfoldable pub ev_power_at_amps : ℤ → F
  ev_power_at_amps amps = mul (of_int amps) ev_w_per_amp

  -- The power beyond the house's, corrected by what the grid measures.
  unfoldable pub available_surplus_w : BudgetInput F → F
  available_surplus_w inp =
      let surplus = sub inp.pv_power_w inp.house_load_w in
      let corrected =
        if lt inp.grid_power_w (lit 0 0)
        then add surplus (neg inp.grid_power_w)
        else if gt inp.grid_power_w grid_aggressive_w
        then sub surplus inp.grid_power_w
        else surplus in
      if is_daytime inp.hour then fmax (lit 0 0) corrected else surplus

  unfoldable pub all_bat_full : BudgetInput F → BudgetConfig F → Bool
  all_bat_full inp cfg = all (λ s. ge s cfg.bat_soc_full_pct) (values inp.bat_socs)

  -- The cycles in a row that exported, and that imported, more than 100 W.
  unfoldable pub count_cycles : F → BudgetState F → BudgetState F
  count_cycles grid_power_w s =
      if lt grid_power_w (neg grid_tolerance_w)
      then record s {
        consecutive_export_cycles = s.consecutive_export_cycles + 1;
        consecutive_import_cycles = 0;
      }
      else if gt grid_power_w grid_tolerance_w
      then record s {
        consecutive_import_cycles = s.consecutive_import_cycles + 1;
        consecutive_export_cycles = 0;
      }
      else record s { consecutive_export_cycles = 0; consecutive_import_cycles = 0 }

  abbrev pub cap_or_one : F → F
  cap_or_one x = if is_zero x then lit 1 0 else x

  -- How low the batteries may go and still be filled by the PV power that is left.
  unfoldable pub bat_min_soc_dynamic : BudgetConfig F → BudgetInput F → F
  bat_min_soc_dynamic cfg inp =
      let bat_total_cap = cap_or_one (sum (values inp.bat_caps)) in
      let pv_for_bat = fmax (lit 0 0) (sub inp.pv_remaining_kwh inp.house_remaining_kwh) in
      fmax (lit 0 0) (sub cfg.bat_soc_full_pct (mul (div pv_for_bat bat_total_cap) (lit 100 0)))

  unfoldable pub bat_avg_soc : BudgetInput F → F
  bat_avg_soc inp =
      if is_empty inp.bat_socs
      then lit 0 0
      else div (sum (values inp.bat_socs)) (of_int (pos (length inp.bat_socs)))

  unfoldable pub bat_can_support_ev : BudgetConfig F → BudgetInput F → Bool
  bat_can_support_ev cfg inp = gt (bat_avg_soc inp) (bat_min_soc_dynamic cfg inp)

  unfoldable pub ev_wants_charge : BudgetInput F → Bool
  ev_wants_charge inp = inp.ev_connected && lt inp.ev_soc_pct inp.ev_target_soc_pct

  -- `grid_history_w` after `append` and `pop(0)`.
  unfoldable pub push_reading : ℕ → F → List F → List F
  push_reading window grid_power_w history =
      let pushed = history ++ (grid_power_w ∷ []) in
      if ltb window (length pushed) then drop 1 pushed else pushed

  -- The median of the readings, none for an IndexError.
  unfoldable pub median : List F → Option F
  median history = nth (length history / 2) (sort_by lt history)
