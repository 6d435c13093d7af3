-- ===== src/NightPlan/Plan.antt =====
-- core/night_planner.py: `plan_night` and `is_in_window`.
use carma_box_v.Base.{ℕ, ◌+◌, ◌-◌, ◌%◌, Bool, ◌&&◌, ◌||◌, Option, String, leb, ltb, if◌then◌else◌}
use carma_box_v.Base.Int.{ℤ, pos, ◌*ℤ◌}
use carma_box_v.Base.Floats.{Float, gt, fmax, fmin}
use carma_box_v.NightPlan.Presence.{PresenceConfig, evaluate_presence}

pub record NightPlannerConfig (F : Type 0) : Type 0 where
  pub night_start_hour : ℕ
  pub night_end_hour : ℕ
  pub bat_target_soc_pct : F
  pub bat_min_soc_pct : F
  pub house_consumption_kwh_per_day : F
  pub house_baseload_night_kw : F
  pub ev_max_amps : ℤ
  pub grid_tak_raw_night_kw : F
  pub grid_safety_margin : F
  pub presence : PresenceConfig

-- `now` by the weekday of the day after it.
pub record NightPlannerInput (F : Type 0) : Type 0 where
  pub tomorrow_weekday : ℕ
  pub bat_total_soc_pct : F
  pub bat_total_cap_kwh : F
  pub ev_soc_pct : F
  pub ev_target_soc_pct : F
  pub ev_battery_kwh : F
  pub pv_forecast_tomorrow_kwh : F
  pub ev_device_tracker_state : Option String

-- Without the text of its reason.
pub record NightPlan (F : Type 0) : Type 0 where
  pub ev_window_start_hour : ℕ
  pub ev_window_end_hour : ℤ
  pub bat_window_start_hour : ℤ
  pub bat_window_end_hour : ℤ
  pub ev_need_kwh : F
  pub bat_need_grid_kwh : F
  pub pv_excess_tomorrow_kwh : F
  pub pv_to_ev_tomorrow_kwh : F
  pub pv_to_bat_tomorrow_kwh : F
  pub ev_min_hours : F
  pub bat_min_hours : F
  pub overflow_warning : Bool

-- What the night needs, from the SoC and from tomorrow's PV power.
pub record Needs (F : Type 0) : Type 0 where
  pub ev_need_kwh : F
  pub pv_excess_kwh : F
  pub pv_to_ev_kwh : F
  pub pv_to_bat_kwh : F
  pub ev_grid_need_kwh : F
  pub bat_grid_need_kwh : F

-- With the end before the start, the window goes past midnight.
unfoldable pub window_hours_of : ℕ → ℕ → ℕ
window_hours_of start_hour end_hour =
    if leb end_hour start_hour then 24 - start_hour + end_hour else end_hour - start_hour

-- Hours from 24 on are those of the next day.
unfoldable pub is_in_window : ℕ → ℕ → ℕ → Bool
is_in_window now_hour start_hour end_hour =
    let end_norm = end_hour % 24 in
    let start_norm = start_hour % 24 in
    if ltb end_hour 24 && ltb start_hour end_hour
    then leb start_norm now_hour && ltb now_hour end_norm
    else leb start_norm now_hour || ltb now_hour end_norm

module _ {F : Type 0} ⦃f : Float F⦄ where
  open f use {add, sub, mul, div, of_int, lit, trunc}

  abbrev not_negative : F → F
  not_negative x = fmax (lit 0 0) x

  -- Three phases of 230 V.
  unfoldable pub ev_max_kw : ℤ → F
  ev_max_kw max_amps = div (of_int (max_amps *ℤ pos 3 *ℤ pos 230)) (lit 1000 0)

  unfoldable pub bat_grid_rate_kw : NightPlannerConfig F → F
  bat_grid_rate_kw cfg =
      not_negative
        (sub (mul cfg.grid_tak_raw_night_kw cfg.grid_safety_margin) cfg.house_baseload_night_kw)

  -- `need / rate if rate > 0 else 0.0`
  abbrev hours_at : F → F → F
  hours_at need rate = if gt rate (lit 0 0) then div need rate else lit 0 0

  -- (target - soc) * capacity / 100
  abbrev missing_kwh : F → F → F → F
  missing_kwh target soc cap = not_negative (div (mul (sub target soc) cap) (lit 100 0))

  -- At 10 o'clock of tomorrow, the PV power beyond the house's goes to the car if it is at home.
  unfoldable pub needs : NightPlannerConfig F → NightPlannerInput F → Needs F
  needs cfg inp =
      let ev_need = missing_kwh inp.ev_target_soc_pct inp.ev_soc_pct inp.ev_battery_kwh in
      let bat_need =
        missing_kwh cfg.bat_target_soc_pct inp.bat_total_soc_pct inp.bat_total_cap_kwh in
      let excess =
        not_negative (sub inp.pv_forecast_tomorrow_kwh cfg.house_consumption_kwh_per_day) in
      let at_home =
        evaluate_presence cfg.presence inp.tomorrow_weekday 10 inp.ev_device_tracker_state in
      let to_ev = if at_home.is_home then fmin excess ev_need else lit 0 0 in
      let to_bat = not_negative (sub excess to_ev) in
      record {
        ev_need_kwh = ev_need;
        pv_excess_kwh = excess;
        pv_to_ev_kwh = to_ev;
        pv_to_bat_kwh = to_bat;
        ev_grid_need_kwh = not_negative (sub ev_need to_ev);
        bat_grid_need_kwh = not_negative (sub bat_need to_bat);
      }

  -- The length of the car's window: its hours, or their share of a night that is too short.
  unfoldable pub ev_window_len : ℕ → F → F → F
  ev_window_len window_hours ev_hours bat_hours =
      let total = add ev_hours bat_hours in
      let share = mul (div ev_hours total) (of_int (pos window_hours)) in
      if gt total (of_int (pos window_hours))
      then if gt total (lit 0 0) then share else lit 0 0
      else ev_hours

  unfoldable pub plan_night : NightPlannerConfig F → NightPlannerInput F → NightPlan F
  plan_night cfg inp =
      let n = needs cfg inp in
      let ev_hours = hours_at n.ev_grid_need_kwh (ev_max_kw cfg.ev_max_amps) in
      let bat_hours = hours_at n.bat_grid_need_kwh (bat_grid_rate_kw cfg) in
      let window_hours = window_hours_of cfg.night_start_hour cfg.night_end_hour in
      let ev_end =
        add (of_int (pos cfg.night_start_hour)) (ev_window_len window_hours ev_hours bat_hours) in
      record {
        ev_window_start_hour = cfg.night_start_hour;
        ev_window_end_hour = trunc (add ev_end (lit 999 3));
        bat_window_start_hour = trunc ev_end;
        bat_window_end_hour = pos (cfg.night_start_hour + window_hours);
        ev_need_kwh = n.ev_need_kwh;
        bat_need_grid_kwh = n.bat_grid_need_kwh;
        pv_excess_tomorrow_kwh = n.pv_excess_kwh;
        pv_to_ev_tomorrow_kwh = n.pv_to_ev_kwh;
        pv_to_bat_tomorrow_kwh = n.pv_to_bat_kwh;
        ev_min_hours = ev_hours;
        bat_min_hours = bat_hours;
        overflow_warning = gt (add ev_hours bat_hours) (of_int (pos window_hours));
      }
