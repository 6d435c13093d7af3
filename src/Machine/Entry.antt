-- ===== src/Machine/Entry.antt =====
-- core/state_machine.py: the configuration, and the entry and exit conditions of the scenarios.
use carma_box_v.Base.{ℕ, Bool, not, ◌&&◌, ◌||◌, ltb, leb}
use carma_box_v.Base.Floats.{Float, gt, ge}
use carma_box_v.Models.{
  Scenario, morning_discharge, forenoon_pv_ev, pv_surplus_day, evening_discharge, night_high_pv,
  night_low_pv, night_grid_charge, pv_surplus, night_ev, Snapshot, is_night, total_battery_soc_pct,
}

-- `StateMachineConfig`; `pv_medium_threshold_kwh` is the threshold that S1 reads.
pub record MachineConfig (F : Type 0) : Type 0 where
  pub start_scenario : Scenario
  pub min_dwell_s : F
  pub pv_high_threshold_kwh : F
  pub pv_medium_threshold_kwh : F
  pub morning_min_soc_pct : F
  pub evening_min_soc_above_floor_pct : F
  pub normal_floor_pct : F
  pub surplus_entry_soc_pct : F
  pub surplus_exit_soc_pct : F
  pub surplus_pv_min_w : F
  pub surplus_export_min_w : F
  pub surplus_exit_pv_min_w : F
  pub grid_charge_max_soc_pct : F
  pub grid_charge_price_threshold_ore : F
  pub ev_target_soc_pct : F
  pub morning_start_h : ℕ
  pub morning_end_h : ℕ
  pub forenoon_end_h : ℕ
  pub midday_end_h : ℕ
  pub evening_end_h : ℕ

-- `start <= hour < end`
abbrev pub within : ℕ → ℕ → ℕ → Bool
within start end hour = leb start hour && ltb hour end

module _ {F : Type 0} ⦃f : Float F⦄ where
  open f use {lt, le, add, neg}

  -- `normal_floor_pct + evening_min_soc_above_floor_pct`
  unfoldable pub low_soc : MachineConfig F → F
  low_soc cfg = add cfg.normal_floor_pct cfg.evening_min_soc_above_floor_pct

  unfoldable pub entry_s1 : MachineConfig F → Snapshot F → Bool
  entry_s1 cfg snap =
      within cfg.morning_start_h cfg.morning_end_h snap.hour
      && gt snap.grid.pv_forecast_today_kwh cfg.pv_medium_threshold_kwh
      && gt (total_battery_soc_pct snap) cfg.morning_min_soc_pct

  unfoldable pub entry_s2 : MachineConfig F → Snapshot F → Bool
  entry_s2 cfg snap =
      within cfg.morning_start_h cfg.forenoon_end_h snap.hour
      && gt snap.grid.pv_forecast_today_kwh cfg.pv_high_threshold_kwh
      && snap.ev.connected
      && lt snap.ev.soc_pct cfg.ev_target_soc_pct

  unfoldable pub entry_s3 : MachineConfig F → Snapshot F → Bool
  entry_s3 cfg snap =
      within cfg.forenoon_end_h cfg.midday_end_h snap.hour
      || le (total_battery_soc_pct snap) (low_soc cfg)

  unfoldable pub entry_s4 : MachineConfig F → Snapshot F → Bool
  entry_s4 cfg snap =
      within cfg.midday_end_h cfg.evening_end_h snap.hour
      && gt (total_battery_soc_pct snap) (low_soc cfg)

  unfoldable pub entry_s5 : MachineConfig F → Snapshot F → Bool
  entry_s5 cfg snap =
      is_night snap && gt snap.grid.pv_forecast_tomorrow_kwh cfg.pv_high_threshold_kwh

  unfoldable pub entry_s6 : MachineConfig F → Snapshot F → Bool
  entry_s6 cfg snap =
      is_night snap && le snap.grid.pv_forecast_tomorrow_kwh cfg.pv_high_threshold_kwh

  unfoldable pub entry_s7 : MachineConfig F → Snapshot F → Bool
  entry_s7 cfg snap =
      let ev_done = not snap.ev.connected || ge snap.ev.soc_pct cfg.ev_target_soc_pct in
      is_night snap
      && ev_done
      && lt (total_battery_soc_pct snap) cfg.grid_charge_max_soc_pct
      && lt snap.grid.price_ore cfg.grid_charge_price_threshold_ore

  unfoldable pub entry_s8 : MachineConfig F → Snapshot F → Bool
  entry_s8 cfg snap =
      ge (total_battery_soc_pct snap) cfg.surplus_entry_soc_pct
      && gt snap.grid.pv_total_w cfg.surplus_pv_min_w
      && lt snap.grid.grid_power_w (neg cfg.surplus_export_min_w)

  unfoldable pub entry_s9 : MachineConfig F → Snapshot F → Bool
  entry_s9 cfg snap = is_night snap && snap.ev.connected && lt snap.ev.soc_pct cfg.ev_target_soc_pct

  -- `_ENTRY_METHODS` and `_check_entry`
  unfoldable pub check_entry : MachineConfig F → Scenario → Snapshot F → Bool
  check_entry cfg morning_discharge snap = entry_s1 cfg snap
  check_entry cfg forenoon_pv_ev snap = entry_s2 cfg snap
  check_entry cfg pv_surplus_day snap = entry_s3 cfg snap
  check_entry cfg evening_discharge snap = entry_s4 cfg snap
  check_entry cfg night_high_pv snap = entry_s5 cfg snap
  check_entry cfg night_low_pv snap = entry_s6 cfg snap
  check_entry cfg night_grid_charge snap = entry_s7 cfg snap
  check_entry cfg pv_surplus snap = entry_s8 cfg snap
  check_entry cfg night_ev snap = entry_s9 cfg snap

  unfoldable pub exit_s1 : MachineConfig F → Snapshot F → Bool
  exit_s1 cfg snap =
      leb cfg.morning_end_h snap.hour || le (total_battery_soc_pct snap) cfg.normal_floor_pct

  unfoldable pub exit_s2 : MachineConfig F → Snapshot F → Bool
  exit_s2 cfg snap =
      leb cfg.forenoon_end_h snap.hour
      || ge snap.ev.soc_pct cfg.ev_target_soc_pct
      || not snap.ev.connected

  unfoldable pub exit_s3 : MachineConfig F → Snapshot F → Bool
  exit_s3 cfg snap = leb cfg.midday_end_h snap.hour || ltb snap.hour cfg.forenoon_end_h

  unfoldable pub exit_s4 : MachineConfig F → Snapshot F → Bool
  exit_s4 cfg snap =
      let outside_window = leb cfg.evening_end_h snap.hour || ltb snap.hour cfg.midday_end_h in
      outside_window || le (total_battery_soc_pct snap) (low_soc cfg)

  -- Also `_exit_s5` and `_exit_s6`.
  unfoldable pub exit_night : MachineConfig F → Snapshot F → Bool
  exit_night cfg snap = within cfg.morning_start_h cfg.evening_end_h snap.hour

  unfoldable pub exit_s7 : MachineConfig F → Snapshot F → Bool
  exit_s7 cfg snap =
      within cfg.morning_start_h cfg.evening_end_h snap.hour
      || ge (total_battery_soc_pct snap) cfg.grid_charge_max_soc_pct

  unfoldable pub exit_s8 : MachineConfig F → Snapshot F → Bool
  exit_s8 cfg snap =
      lt (total_battery_soc_pct snap) cfg.surplus_exit_soc_pct
      || lt snap.grid.pv_total_w cfg.surplus_exit_pv_min_w

  unfoldable pub exit_s9 : MachineConfig F → Snapshot F → Bool
  exit_s9 cfg snap =
      exit_night cfg snap || not snap.ev.connected || ge snap.ev.soc_pct cfg.ev_target_soc_pct

  -- `_EXIT_METHODS` and `_should_exit`
  unfoldable pub should_exit : MachineConfig F → Scenario → Snapshot F → Bool
  should_exit cfg morning_discharge snap = exit_s1 cfg snap
  should_exit cfg forenoon_pv_ev snap = exit_s2 cfg snap
  should_exit cfg pv_surplus_day snap = exit_s3 cfg snap
  should_exit cfg evening_discharge snap = exit_s4 cfg snap
  should_exit cfg night_high_pv snap = exit_night cfg snap
  should_exit cfg night_low_pv snap = exit_night cfg snap
  should_exit cfg night_grid_charge snap = exit_s7 cfg snap
  should_exit cfg pv_surplus snap = exit_s8 cfg snap
  should_exit cfg night_ev snap = exit_s9 cfg snap
