-- ===== src/NightPlan/Tests.antt =====
-- A night for a car at 40 % and batteries at half, and the presence of the car.
use carma_box_v.Base.{◌+◌, ◌≤◌, ◌<◌, ◌≡◌, refl, true, false, none, some, arith}
use carma_box_v.Base.Int.{pos, ◌+ℤ◌, ◌-ℤ◌, ◌*ℤ◌, quot}
use carma_box_v.Base.Milli.{Milli, milli_float, num}
use carma_box_v.NightPlan.Presence.{
  PresenceConfig, device_tracker_away, device_tracker_unknown_fallback, schedule_weekend,
  is_weekend, by_schedule, evaluate_presence,
}
use carma_box_v.NightPlan.Plan.{
  NightPlannerConfig, NightPlannerInput, window_hours_of, is_in_window, ev_max_kw, bat_grid_rate_kw,
  needs, ev_window_len, plan_night,
}
use carma_box_v.NightPlan.Windows.{covers, is_in_window_lem}

abbrev presence_config : PresenceConfig
presence_config = record {
  weekday_home_from_hour = 17;
  weekday_home_until_hour = 8;
  weekend_home_full_day = true;
  saturday_weekday = 5;
  sunday_weekday = 6;
}

-- The tracker counts before the weekend, and another state of it leaves the schedule.
away :
    (evaluate_presence presence_config 6 10 (some "away")
      ≡ record { is_home = false; source = device_tracker_away })
    × (evaluate_presence presence_config 6 10 none
        ≡ record { is_home = true; source = schedule_weekend })
    × (evaluate_presence presence_config 2 7 (some "unknown")
        ≡ record { is_home = true; source = device_tracker_unknown_fallback })
unfolding evaluate_presence by_schedule is_weekend
away = (refl, refl, refl)

abbrev config : NightPlannerConfig Milli
config = record {
  night_start_hour = 22;
  night_end_hour = 6;
  bat_target_soc_pct = num 100;
  bat_min_soc_pct = num 20;
  house_consumption_kwh_per_day = num 14;
  house_baseload_night_kw = num 1;
  ev_max_amps = pos 10;
  grid_tak_raw_night_kw = num 6;
  grid_safety_margin = some (pos 950);
  presence = presence_config;
}

-- On a Wednesday the car is away at 10 o'clock.
abbrev inp : NightPlannerInput Milli
inp = record {
  tomorrow_weekday = 2;
  bat_total_soc_pct = num 50;
  bat_total_cap_kwh = num 20;
  ev_soc_pct = num 40;
  ev_target_soc_pct = num 60;
  ev_battery_kwh = num 90;
  pv_forecast_tomorrow_kwh = num 20;
  ev_device_tracker_state = none;
}

-- 18 kWh at 6.9 kW take the car to 00:36, and the batteries' hour starts with that one.
night :
    let p = plan_night config inp in
    (p.ev_window_start_hour ≡ 22)
    × (p.ev_window_end_hour ≡ pos 25)
    × (p.bat_window_start_hour ≡ pos 24)
    × (p.bat_window_end_hour ≡ pos 30)
    × (p.pv_to_bat_tomorrow_kwh ≡ num 6)
    × (p.bat_need_grid_kwh ≡ num 4)
    × (p.overflow_warning ≡ false)
unfolding plan_night needs evaluate_presence by_schedule is_weekend ev_max_kw bat_grid_rate_kw
    ev_window_len window_hours_of ◌*ℤ◌ ◌+ℤ◌ ◌-ℤ◌ quot
night = (refl, refl, refl, refl, refl, refl, refl)

-- The batteries' window from 25 to 30 at 3 o'clock in the afternoon.
is_in_window_lem_example :
    (25 < 24 → 25 < 30 → 30 ≤ 25 + 24 → is_in_window 15 25 30 ≡ covers 25 30 15)
    × (30 < 25 → 25 < 24 → is_in_window 15 25 30 ≡ covers 25 (30 + 24) 15)
    × (24 ≤ 25 → 25 ≤ 30 → 30 < 48 → is_in_window 15 25 30 ≡ true)
    × (25 < 24 → is_in_window 15 25 25 ≡ true)
is_in_window_lem_example = is_in_window_lem 15 25 30 (omega arith)
