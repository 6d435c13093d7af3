-- ===== src/Budget/Tests.antt =====
-- Two batteries, a car and a heater on a sunny forenoon.
use carma_box_v.Base.{
  ◌≡◌, refl, inl, inr, true, false, List, [], ◌∷◌, some, String, arith, In, All, contains,
}
use carma_box_v.Base.Int.{ℤ, pos, negsuc, ◌+ℤ◌, ◌-ℤ◌, ◌*ℤ◌, quot}
use carma_box_v.Base.Milli.{Milli, milli_float, Milli-IsOrdered, num, minus_num}
use carma_box_v.Models.{Consumer}
use carma_box_v.ModeChange.Manager.{lookup}
use carma_box_v.ZeroGrid.Example.{Milli-IsSigned}
use carma_box_v.Budget.Tuner.{
  tune_grid_delta, enabled_delta, correction_of, avg, push_sample, prune,
}
use carma_box_v.Budget.Types.{BudgetInput, BudgetState, BudgetResult, BudgetReads, fresh_state}
use carma_box_v.Budget.Facts.{available_surplus_w}
use carma_box_v.Budget.Batteries.{set_limit_command, guard_holds}
use carma_box_v.Budget.Cascade.{cascade_consumers}
use carma_box_v.Budget.Allocate.{observe, allocate}
use carma_box_v.Budget.Example.{tuner, cfg}
use carma_box_v.Budget.Ramp.{IsAmps, Ramp, allocate-Ramp}
use carma_box_v.Budget.Mirror.{Charger, Mirrors, run_cycles, run_cycles-Mirrors}
use carma_box_v.Budget.Loads.{IsCascade, cascade_consumers-IsCascade}
use carma_box_v.Budget.Lawful.{IsLawful, allocate-IsLawful}
use carma_box_v.Budget.Modes.{mode_after}
use carma_box_v.Budget.Settled.{Settled, bank_of, mode_of}
use carma_box_v.Budget.Served.{allocate-Served}

abbrev heater : Consumer Milli
heater = record {
  consumer_id = "heater";
  active = false;
  power_w = num 1000;
  priority = pos 1;
  priority_shed = pos 1;
  requires_active = "";
}

-- A house that exports 2 kW at 10 o'clock.
abbrev inp : BudgetInput Milli
inp = record {
  hour = 10;
  grid_power_w = minus_num 2000;
  pv_power_w = num 9000;
  house_load_w = num 1000;
  ev_connected = true;
  ev_charging = true;
  ev_current_amps = pos 8;
  ev_soc_pct = num 40;
  ev_target_soc_pct = num 80;
  bat_socs = ("kontor", num 14) ∷ ("forrad", num 96) ∷ [];
  bat_caps = ("kontor", num 15) ∷ ("forrad", num 5) ∷ [];
  bat_powers = ("kontor", num 0) ∷ ("forrad", num 0) ∷ [];
  bat_modes = ("kontor", "discharge_pv") ∷ ("forrad", "charge_battery") ∷ [];
  pv_remaining_kwh = num 20;
  house_remaining_kwh = num 0;
  consumers = heater ∷ [];
}

-- The second cycle in a row that exports, with the car at 8 A.
abbrev state : BudgetState Milli
state = record fresh_state {
  consecutive_export_cycles = 1;
  intended_ev_enabled = true;
  ev_current_amps = pos 8;
  grid_history_w = minus_num 1900 ∷ [];
}

abbrev reads : BudgetReads Milli
reads = record { at_sample = num 1000; at_cascade = num 1000 }

-- The tiers at 50, 75 and 100 W, and the sign of the grid's power.
tiers :
    (tune_grid_delta (num 49) tuner ≡ some (pos 0))
    × (tune_grid_delta (num 50) tuner ≡ some (pos 100))
    × (tune_grid_delta (minus_num 80) tuner ≡ some (negsuc 299))
    × (tune_grid_delta (minus_num 100) tuner ≡ some (negsuc 499))
unfolding tune_grid_delta enabled_delta correction_of ◌-ℤ◌ ◌*ℤ◌
tiers = (refl, refl, refl, refl)

-- A sample that is older than the window is dropped.
window :
    avg (
      push_sample
        (num 400)
        (num 30)
        (pos 300)
        (record { history = (num 99, num 900) ∷ (num 100, num 10) ∷ [] }))
    ≡ num 20
unfolding avg push_sample prune ◌-ℤ◌ ◌+ℤ◌ ◌*ℤ◌ quot
window = refl

allocate-Ramp_example :
    (p : BudgetState Milli × BudgetResult Milli) × (allocate cfg reads inp state ≡ some p)
    × (p.1.ev_target_amps ≡ p.0.ev_current_amps)
    × IsAmps cfg p.0.ev_current_amps
    × Ramp cfg inp (available_surplus_w inp) (observe cfg reads inp state) p.0.ev_current_amps
allocate-Ramp_example =
    allocate-Ramp cfg (refl, refl) (refl, refl) reads inp state (inr (refl, refl))

abbrev charger : Charger
charger = record { enabled = true; amps = pos 8 }

-- Two cycles of the forenoon, and one at night.
abbrev cycles : List (BudgetReads Milli × BudgetInput Milli)
cycles = (reads, inp) ∷ (reads, inp) ∷ (reads, record inp { hour = 23 }) ∷ []

run_cycles-Mirrors_example :
    (p : BudgetState Milli × Charger) × (run_cycles cfg cycles state charger ≡ some p)
    × Mirrors p.0 p.1
run_cycles-Mirrors_example =
    run_cycles-Mirrors cfg (refl, refl) cycles state charger (refl, (λ on. (refl, refl)))

abbrev full_alloc : List (String × ℤ)
full_alloc = ("kontor", pos 5000) ∷ ("forrad", pos 0) ∷ []

cascade_consumers-IsCascade_example :
    IsCascade cfg inp full_alloc
      (num 1000)
      (observe cfg reads inp state)
      (cascade_consumers cfg inp full_alloc (num 1000) (observe cfg reads inp state))
cascade_consumers-IsCascade_example =
    cascade_consumers-IsCascade cfg inp full_alloc (num 1000) (observe cfg reads inp state)

allocate-IsLawful_example :
    (p : BudgetState Milli × BudgetResult Milli) × (allocate cfg reads inp state ≡ some p)
    × All
        (IsLawful cfg inp.bat_modes p.1.emergency_recovery
          (avg (observe cfg reads inp state).grid_rolling))
        p.1.commands
allocate-IsLawful_example = allocate-IsLawful cfg (refl, refl) reads inp state

-- The second battery is full, and goes from charging to standby.
allocate-Served_example :
    (p : BudgetState Milli × BudgetResult Milli) × (allocate cfg reads inp state ≡ some p)
    × (limit : ℤ) × In (set_limit_command "forrad" limit) p.1.commands
    × (lookup "forrad" p.1.bat_allocations ≡ some limit)
    × Settled cfg
        (bank_of cfg inp ("forrad", num 96))
        (mode_of cfg inp "forrad")
        (guard_holds cfg (avg (observe cfg reads inp state).grid_rolling))
        (contains "forrad" p.1.emergency_recovery)
        (mode_after "forrad" (mode_of cfg inp "forrad") p.1.commands)
        limit
allocate-Served_example =
    allocate-Served cfg Milli-IsOrdered Milli-IsSigned (refl, refl) (refl, refl) reads inp state
      ("forrad", num 96) (ground arith) (inr (inl refl))
