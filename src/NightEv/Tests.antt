-- ===== src/NightEv/Tests.antt =====
-- A night with the default configuration: a start, a step up and a step down.
use carma_box_v.Base.{◌≡◌, refl, inl, inr, true, false, List, [], ◌∷◌, some, ℕ, arith, All}
use carma_box_v.Base.Int.{pos, ◌+ℤ◌, ◌-ℤ◌, ◌*ℤ◌, quot}
use carma_box_v.Base.Milli.{Milli, milli_float, num}
use carma_box_v.Models.{Ev}
use carma_box_v.NightEv.Evaluate.{
  NightConfig, NightState, NightInput, decision, set_current_cmd, in_night_window,
  at_or_above_target, ramp_within, charge_ev, evaluate, persist,
}
use carma_box_v.NightEv.Amps.{
  IsSetting, SetsWithin, IsSound, AllTold, run, commands_of, run-IsSetting,
}

-- The defaults of `NightEVConfig`.
abbrev config : NightConfig Milli
config = record {
  night_start_hour = 22;
  night_end_hour = 6;
  start_amps = pos 6;
  max_amps = pos 10;
  min_amps = pos 6;
  ramp_step_amps = pos 1;
  ramp_interval_s = pos 60;
  tak_weighted_kw = num 3;
  grid_safety_margin_up = some (pos 900);
  grid_safety_margin_down = some (pos 950);
}

abbrev idle : NightState Milli
idle = record { current_amps = pos 0; last_ramp_ts = num 0 }

abbrev at : ℕ → Ev Milli → ℕ → NightInput Milli
at t ev kw = record {
  hour = 23;
  timestamp = num t;
  ev = ev;
  grid_weighted_kw = num kw;
  target_soc_pct = num 75;
}

abbrev waiting : Ev Milli
waiting = record {
  soc_pct = num 40;
  connected = true;
  charging = false;
  power_w = num 0;
  current_a = num 0;
  target_soc_pct = num 75;
}

abbrev charging : Ev Milli
charging = record waiting { charging = true }

abbrev night : List (NightInput Milli)
night = at 1000 waiting 1 ∷ at 1060 charging 1 ∷ at 1120 charging 3 ∷ []

night-AllTold : AllTold config idle night
unfolding in_night_window at_or_above_target ramp_within charge_ev evaluate persist ◌+ℤ◌ ◌-ℤ◌ ◌*ℤ◌
    quot
night-AllTold = (inl refl, (inr refl, (inr refl, tt)))

config-IsSound : IsSound config
config-IsSound = ground arith

run-IsSetting_example :
    IsSetting config (run config idle night).current_amps
    × All (SetsWithin config) (commands_of config idle night)
run-IsSetting_example = run-IsSetting config idle night config-IsSound (inl refl) night-AllTold

-- A car that charges while the controller holds 0 A, as after a restart, is set to 1 A, below the least
-- current.
charging_from_zero :
    evaluate config idle (at 1000 charging 1) ≡ decision (set_current_cmd (pos 1) ∷ []) (pos 1)
unfolding in_night_window at_or_above_target ramp_within charge_ev evaluate ◌+ℤ◌ ◌-ℤ◌ ◌*ℤ◌ quot
charging_from_zero = refl
