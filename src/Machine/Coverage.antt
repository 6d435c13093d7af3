-- ===== src/Machine/Coverage.antt =====
-- Which hours the scenarios cover: a machine that is to leave its scenario at night finds another,
-- and one that is to leave S1 in the forenoon may not.
use carma_box_v.Base.{
  ◌≤◌, ◌<◌, ◌≡◌, ◌≢◌, ◌⊎◌, inl, inr, true, false, none, arith, All-of_forall, Bool-cases,
}
use carma_box_v.Base.Floats.{Float, IsOrdered, gt}
use carma_box_v.Models.{
  Scenario, morning_discharge, night_high_pv, night_low_pv, Snapshot, is_night,
  total_battery_soc_pct,
}
use carma_box_v.Machine.Entry.{
  MachineConfig, check_entry, should_exit, low_soc, entry_s1, entry_s2, entry_s3, entry_s4,
  entry_s5, entry_s6, entry_s7, entry_s8, entry_s9, exit_s1, exit_night,
}
use carma_box_v.Machine.Evaluate.{priority, Machine, can_transition, evaluate}
use carma_box_v.Machine.Laws.{Unfit, Declined}
use carma_box_v.Machine.Targets.{evaluate_waits, evaluate_stays_iff}

-- The windows of the configuration follow one another, and the night of the snapshot is what they
-- leave over.
pub record Windows {F : Type 0} (cfg : MachineConfig F) (snap : Snapshot F) : Type 0 where
  pub morning : cfg.morning_start_h ≤ cfg.morning_end_h
  pub forenoon : cfg.morning_end_h ≤ cfg.forenoon_end_h
  pub midday : cfg.forenoon_end_h ≤ cfg.midday_end_h
  pub evening : cfg.midday_end_h ≤ cfg.evening_end_h
  pub night_starts : snap.night_start_h ≡ cfg.evening_end_h
  pub night_ends : snap.night_end_h ≡ cfg.morning_start_h

module _ {F : Type 0} ⦃f : Float F⦄ where
  open f use {lt, le}

  -- At night the forecast for tomorrow is high or low, so S5 or S6 fits.
  night_fits :
      (laws : IsOrdered f) (cfg : MachineConfig F) (snap : Snapshot F)
      → is_night snap ≡ true
      → le snap.grid.pv_forecast_tomorrow_kwh snap.grid.pv_forecast_tomorrow_kwh ≡ true
      → le cfg.pv_high_threshold_kwh cfg.pv_high_threshold_kwh ≡ true
      → (check_entry cfg night_high_pv snap ≡ true) ⊎ (check_entry cfg night_low_pv snap ≡ true)
  unfolding check_entry entry_s5 entry_s6
  night_fits laws cfg snap night h k =
      ground (arith, laws.le_or_lt snap.grid.pv_forecast_tomorrow_kwh cfg.pv_high_threshold_kwh h k)

  night_stays :
      (cfg : MachineConfig F) (snap : Snapshot F)
      → Windows cfg snap
      → is_night snap ≡ true
      → (should_exit cfg night_high_pv snap ≡ false) × (should_exit cfg night_low_pv snap ≡ false)
  unfolding should_exit exit_night is_night
  night_stays cfg snap w night = ground arith

  -- At night, with windows that follow one another and a forecast and a threshold that are numbers: a
  -- machine without override that has dwelt long enough and is to leave its scenario finds another.
  pub evaluate_night_progress :
      (laws : IsOrdered f) (m : Machine F) (now : F) (snap : Snapshot F)
      → Windows m.config snap
      → is_night snap ≡ true
      → le snap.grid.pv_forecast_tomorrow_kwh snap.grid.pv_forecast_tomorrow_kwh ≡ true
      → le m.config.pv_high_threshold_kwh m.config.pv_high_threshold_kwh ≡ true
      → m.manual_override ≡ none
      → can_transition m now ≡ true
      → should_exit m.config m.state.current snap ≡ true
      → evaluate m now snap ≢ none
  evaluate_night_progress laws m now snap w night h k free ready leave e =
      let all = ((evaluate_stays_iff m now snap free ready).0 e).1 leave in
      let (high_stays, low_stays) = night_stays m.config snap w night in
      let high : Unfit m.config m.state.current snap night_high_pv = all.1.1.1.1.1.0 in
      let low : Unfit m.config m.state.current snap night_low_pv = all.1.1.1.1.1.1.0 in
      ground (arith, night_fits laws m.config snap night h k)

  module _ (cfg : MachineConfig F) (snap : Snapshot F) (w : Windows cfg snap)
      (from : cfg.morning_end_h ≤ snap.hour) (until : snap.hour < cfg.forenoon_end_h)
      (dim : gt snap.grid.pv_forecast_today_kwh cfg.pv_high_threshold_kwh ≡ false)
      (above : le (total_battery_soc_pct snap) (low_soc cfg) ≡ false)
      (below : le cfg.surplus_entry_soc_pct (total_battery_soc_pct snap) ≡ false) where
    forenoon_unfit : (s : Scenario) → check_entry cfg s snap ≡ false
    unfolding check_entry entry_s1 entry_s2 entry_s3 entry_s4 entry_s5 entry_s6 entry_s7 entry_s8
        entry_s9 is_night
    forenoon_unfit morning_discharge = ground arith
    forenoon_unfit _ = ground arith

    forenoon_leaves : should_exit cfg morning_discharge snap ≡ true
    unfolding should_exit exit_s1
    forenoon_leaves = ground arith

  -- With windows that follow one another, between the morning and the midday window, when the
  -- forecast for today is not above the high threshold, the batteries are above the low SoC and
  -- below that of a surplus, and the machine is in S1 without an override: S1 is to be left, and
  -- yet the machine stays in it, whatever the dwell.
  pub evaluate_forenoon_stuck :
      (m : Machine F) (now : F) (snap : Snapshot F)
      → Windows m.config snap
      → m.config.morning_end_h ≤ snap.hour
      → snap.hour < m.config.forenoon_end_h
      → gt snap.grid.pv_forecast_today_kwh m.config.pv_high_threshold_kwh ≡ false
      → le (total_battery_soc_pct snap) (low_soc m.config) ≡ false
      → le m.config.surplus_entry_soc_pct (total_battery_soc_pct snap) ≡ false
      → m.manual_override ≡ none
      → m.state.current ≡ morning_discharge
      → (should_exit m.config morning_discharge snap ≡ true) × (evaluate m now snap ≡ none)
  evaluate_forenoon_stuck m now snap w from until dim above below free at = (
    forenoon_leaves m.config snap w from until dim above below,
    elim (Bool-cases (can_transition m now)) [
      | inr wait ↦ evaluate_waits m now snap free wait
      | inl ready ↦ (evaluate_stays_iff m now snap free ready).1 (
        All-of_forall (Declined m.config m.state.current snap) (λ s. inr (inr (unfit s))) priority,
        λ leave. All-of_forall (Unfit m.config m.state.current snap) (λ s. inr (unfit s)) priority,
      )
    ],
  )
    where
      unfit : (s : Scenario) → check_entry m.config s snap ≡ false
      unfit = forenoon_unfit m.config snap w from until dim above below
