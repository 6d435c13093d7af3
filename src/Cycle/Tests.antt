-- ===== src/Cycle/Tests.antt =====
-- Two cycles of a site of two batteries, one on data that is 301 s old.
use carma_box_v.Base.{ℕ, ◌≡◌, refl, inl, true, false, List, [], ◌∷◌, none, some, String, arith}
use carma_box_v.Base.Int.{pos, ◌*ℤ◌}
use carma_box_v.Base.Milli.{Milli, milli_float, num}
use carma_box_v.Models.{Snapshot, Ev, Grid, pv_surplus_day}
use carma_box_v.Guards.Example.{config, kontor, input, reads, state}
use carma_box_v.Guards.Floor.{Distinct}
use carma_box_v.Guards.Modes.{final_mode}
use carma_box_v.Guards.Grid.{is_stale}
use carma_box_v.Guards.Evaluate.{evaluate}
use carma_box_v.Machine.Entry.{MachineConfig}
use carma_box_v.ModeChange.Types.{default_config}
use carma_box_v.Executor.Types.{returned, raised, ExecReads, Conversions}
use carma_box_v.Executor.Site.{Site, obedient, or_mode}
use carma_box_v.Cycle.Run.{
  Engine, Phases, EngineConfig, CycleInput, CycleReads, guard_input, run_cycle,
}
use carma_box_v.Budget.Types.{BudgetState, BudgetReads, fresh_state}
use carma_box_v.Budget.Ramp.{IsAmps}
use carma_box_v.Budget.Example.{cfg}
use carma_box_v.Cycle.Budget.{BudgetControl}
use carma_box_v.Cycle.Amps.{with_budget, run_cycle-IsAmps}
use carma_box_v.Cycle.Freeze.{run_cycle_blind}
use carma_box_v.Cycle.Scenario.{Moves, run_cycle-Moves}

abbrev conversions : Conversions Milli
conversions = record { text_of_int = λ a. ""; text_of_float = λ x. ""; int_of_text = λ s. none }

abbrev ev : Ev Milli
ev = record {
  soc_pct = num 80;
  connected = false;
  charging = false;
  power_w = num 0;
  current_a = num 0;
  target_soc_pct = num 100;
}

abbrev grid : Grid Milli
grid = record {
  grid_power_w = num 100;
  weighted_avg_kw = num 1;
  current_peak_kw = num 2;
  dynamic_tak_kw = num 3;
  pv_total_w = num 300;
  price_ore = num 80;
  pv_forecast_today_kwh = num 12;
  pv_forecast_tomorrow_kwh = num 8;
}

abbrev snapshot : Snapshot Milli
snapshot = record {
  batteries = input.batteries;
  ev = ev;
  grid = grid;
  consumers = [];
  current_scenario = pv_surplus_day;
  hour = 14;
  minute = 0;
  night_start_h = 22;
  night_end_h = 6;
  appliances = [];
}

abbrev machine_config : MachineConfig Milli
machine_config = record {
  start_scenario = pv_surplus_day;
  min_dwell_s = num 300;
  pv_high_threshold_kwh = num 25;
  pv_medium_threshold_kwh = num 25;
  morning_min_soc_pct = num 30;
  evening_min_soc_above_floor_pct = num 10;
  normal_floor_pct = num 15;
  surplus_entry_soc_pct = num 95;
  surplus_exit_soc_pct = num 90;
  surplus_pv_min_w = num 500;
  surplus_export_min_w = num 200;
  surplus_exit_pv_min_w = num 200;
  grid_charge_max_soc_pct = num 90;
  grid_charge_price_threshold_ore = num 60;
  ev_target_soc_pct = num 100;
  morning_start_h = 6;
  morning_end_h = 9;
  forenoon_end_h = 12;
  midday_end_h = 17;
  evening_end_h = 22;
}

abbrev engine : Engine Milli Site ℕ
engine = record {
  guard = state;
  machine = record {
    config = machine_config;
    state = record { current = pv_surplus_day; previous = none; entered_at = num 0 };
    manual_override = none;
  };
  night = none;
  world = record {
    executor = record {
      mode_manager = record { config = default_config; requests = [] };
      last_mode_change = [];
      audit = [];
    };
    device = record { modes = λ id. "charge_pv"; limits = λ id. pos 0; fast = λ id. false };
  };
  others = 0;
}

-- The allocator counts its calls, and the session tracker raises.
abbrev phases : Phases Milli Site ℕ
phases = record {
  run_budget_allocator = some (λ snap s. (s, returned tt));
  process_mode_changes = λ s. (s, returned tt);
  track_sessions = λ snap s. (s, raised);
}

abbrev engine_config : EngineConfig Milli
engine_config = record {
  guard = config;
  executor = record { mode_change_cooldown_s = num 300; audit_maxlen = 1000 };
  night = none;
}

abbrev at_1000 : ℕ → ExecReads Milli
at_1000 n = record { at_check = num 1000; at_change = num 1000; at_audit = num 1000 }

abbrev cycle_reads : CycleReads Milli
cycle_reads = record {
  at_guard = reads;
  at_guard_commands = at_1000;
  at_machine = num 1000;
  at_transition = num 1000;
  at_ev = at_1000;
  at_support = at_1000;
}

abbrev blind : CycleInput Milli
blind = record {
  snapshot = snapshot;
  timestamp_hour = 14;
  timestamp = num 1000;
  ha_connected = true;
  data_age_s = num 301;
}

abbrev inverters : List String
inverters = "kontor" ∷ "forrad" ∷ []

snapshot-Distinct : Distinct snapshot.batteries
snapshot-Distinct = ground arith

blind-is_stale : is_stale config (num 301) ≡ true
unfolding is_stale ◌*ℤ◌
blind-is_stale = refl

run_cycle_blind_example :
    let io = obedient inverters [] in
    let (e', r) = run_cycle conversions io phases engine_config cycle_reads blind engine in
    (r.has_error ≡ false)
    × (r.scenario ≡ pv_surplus_day)
    × (e'.machine ≡ engine.machine)
    × (e'.night ≡ none)
    × (e'.others ≡ 0)
    × (e'.world.device.modes "kontor"
        ≡ or_mode
            (final_mode config
              (guard_input conversions io phases engine_config cycle_reads blind engine.machine)
              state.at_floor
              kontor)
            "charge_pv")
run_cycle_blind_example =
    run_cycle_blind conversions inverters [] phases engine_config cycle_reads blind engine kontor
      (inl blind-is_stale) snapshot-Distinct (inl refl) refl

abbrev sighted : CycleInput Milli
sighted = record blind { data_age_s = num 10 }

run_cycle-Moves_example :
    let io = obedient inverters [] in
    let (e', r) = run_cycle conversions io phases engine_config cycle_reads sighted engine in
    let i = guard_input conversions io phases engine_config cycle_reads sighted engine.machine in
    let (guard, found) = evaluate config i reads state in
    (e'.guard ≡ guard)
    × (r.scenario ≡ e'.machine.state.current)
    × Moves conversions io phases engine_config cycle_reads sighted engine.machine found e'.machine
run_cycle-Moves_example =
    run_cycle-Moves conversions (obedient inverters []) phases engine_config cycle_reads sighted
      engine

abbrev budget_reads : BudgetReads Milli
budget_reads = record { at_sample = num 1000; at_cascade = num 1000 }

abbrev control : BudgetControl Milli
control = record { budget_config = cfg; cap_kwh = ("kontor", num 15) ∷ [] }

-- The same site with the allocator, mode changes that do nothing, and a tracker that raises.
abbrev allocating : Engine Milli Site (BudgetState Milli)
allocating = record {
  guard = engine.guard;
  machine = engine.machine;
  night = none;
  world = engine.world;
  others = fresh_state;
}

run_cycle-IsAmps_example :
    IsAmps cfg
      (run_cycle conversions
        (obedient inverters [])
        (with_budget conversions
          (obedient inverters [])
          engine_config
          cycle_reads
          sighted
          control
          budget_reads
          at_1000
          (λ w. (w, returned tt))
          (λ snap w. (w, raised)))
        engine_config
        cycle_reads
        sighted
        allocating).0.others.ev_current_amps
run_cycle-IsAmps_example =
    run_cycle-IsAmps conversions (obedient inverters []) engine_config cycle_reads sighted control
      budget_reads at_1000 (λ w. (w, returned tt)) (λ snap w. (w, raised)) (refl, refl) (refl, refl)
      allocating (inl refl)
