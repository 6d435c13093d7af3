-- ===== src/Executor/Tests.antt =====
-- Commands on a site of two inverters, one of which cools down.
use carma_box_v.Base.{
  ℕ, length, ◌+◌, ◌≤◌, ◌≡◌, refl, inl, false, List, [], ◌∷◌, none, some, String, arith,
}
use carma_box_v.Base.Int.{pos, ◌-ℤ◌}
use carma_box_v.Base.Milli.{Milli, milli_float, num}
use carma_box_v.Models.{
  set_ems_mode, turn_off_consumer, set_export_limit, no_op, text, int, nothing,
}
use carma_box_v.ModeChange.Types.{default_config}
use carma_box_v.ModeChange.Manager.{lookup}
use carma_box_v.ModeChange.Types.{Request, idle, complete}
use carma_box_v.ModeChange.Protocol.{
  process_request, process_in, process_idle, process_clearing, process_standby, process_setting,
  process_verifying, retry, clear_fast_charging, execute_set_target,
}
use carma_box_v.ModeChange.Termination.{cycles, AllDue}
use carma_box_v.Executor.Ports.{
  port, port_set_ems_mode, port_set_ems_power_limit, port_set_fast_charging, port_get_ems_mode,
  port_get_fast_charging,
}
use carma_box_v.Executor.Simulate.{port_cycles_reach_target}
use carma_box_v.Guards.Example.{config, kontor, input, reads, state}
use carma_box_v.Guards.Battery.{command}
use carma_box_v.Guards.Evaluate.{evaluate}
use carma_box_v.Guards.Modes.{final_mode}
use carma_box_v.Guards.Floor.{Distinct}
use carma_box_v.Executor.Types.{
  returned, Command, Conversions, ExecutorConfig, ExecReads, ExecutionResult,
}
use carma_box_v.Executor.Monad.{World}
use carma_box_v.Executor.Execute.{execute, execute_guard_commands, result_of, start_tally}
use carma_box_v.Executor.Counts.{execute_lem}
use carma_box_v.Executor.Cooldown.{execute-cooldown}
use carma_box_v.Executor.Orphans.{unaudited, execute_guard_commands_orphans}
use carma_box_v.Executor.Site.{Site, obedient, or_mode, execute_guard_commands-final_mode}

abbrev conversions : Conversions Milli
conversions = record { text_of_int = λ a. ""; text_of_float = λ x. ""; int_of_text = λ s. none }

-- The defaults of `ExecutorConfig`.
abbrev exec_config : ExecutorConfig Milli
exec_config = record { mode_change_cooldown_s = num 300; audit_maxlen = 1000 }

abbrev inverters : List String
inverters = "kontor" ∷ "forrad" ∷ []

abbrev site : Site
site = record { modes = λ id. "charge_pv"; limits = λ id. pos 0; fast = λ id. false }

-- kontor's mode has changed at 900 s.
abbrev world : World Milli Site
world = record {
  executor = record {
    mode_manager = record { config = default_config; requests = [] };
    last_mode_change = ("kontor", num 900) ∷ [];
    audit = [];
  };
  device = site;
}

abbrev at_1000 : ℕ → ExecReads Milli
at_1000 n = record { at_check = num 1000; at_change = num 1000; at_audit = num 1000 }

abbrev commands : List (Command Milli)
commands =
    record {
      command_type = set_ems_mode;
      target_id = "kontor";
      value = text "discharge_pv";
      rule_id = "R1";
    }
    ∷ record {
      command_type = set_ems_mode;
      target_id = "forrad";
      value = text "discharge_pv";
      rule_id = "R1";
    }
    ∷ record {
      command_type = turn_off_consumer;
      target_id = "all";
      value = nothing;
      rule_id = "R2";
    }
    ∷ record { command_type = no_op; target_id = ""; value = nothing; rule_id = "R3" }
    ∷ []

execute_lem_example :
    let (w', r) = execute conversions (obedient inverters []) exec_config at_1000 commands world in
    (r.commands_succeeded + r.commands_failed + r.commands_rate_limited + 1 ≡ r.commands_total)
    × (r.commands_total ≡ 4)
    × (length w'.executor.audit ≤ 1000)
    × (length r.audit_entries ≤ 4)
execute_lem_example =
    execute_lem conversions (obedient inverters []) exec_config at_1000 commands world (omega arith)

execute-cooldown_example :
    let e =
      (execute conversions (obedient inverters []) exec_config at_1000 commands world).0.executor in
    (lookup "kontor" e.mode_manager.requests ≡ none)
    × (lookup "kontor" e.last_mode_change ≡ some (num 900))
unfolding lookup ◌-ℤ◌
execute-cooldown_example =
    execute-cooldown conversions (obedient inverters []) exec_config "kontor" (num 900) at_1000
      commands world refl (λ k. refl)

-- The commands with which G3 sheds the loads and the export guard stops exporting are for "all", which
-- is the key of no inverter and of no consumer.
execute_guard_commands_orphans_example :
    let gs =
      command "G3" turn_off_consumer "all" nothing
      ∷ command "EXPORT" set_export_limit "all" (int (pos 0))
      ∷ [] in
    let (w', r) =
      execute_guard_commands conversions
        (obedient inverters ("vp" ∷ []))
        exec_config
        at_1000
        gs
        world in
    (unaudited conversions (obedient inverters ("vp" ∷ [])) exec_config w' ≡ world)
    × (r ≡ returned (result_of exec_config 2 (record start_tally { failed = 2 }) w'.executor))
execute_guard_commands_orphans_example =
    execute_guard_commands_orphans conversions (obedient inverters ("vp" ∷ [])) exec_config at_1000
      (command "G3" turn_off_consumer "all" nothing
        ∷ command "EXPORT" set_export_limit "all" (int (pos 0))
        ∷ [])
      world (refl, (refl, tt))

input-Distinct : Distinct input.batteries
input-Distinct = ground arith

execute_guard_commands-final_mode_example :
    let (w', r) =
      execute_guard_commands conversions
        (obedient inverters [])
        exec_config
        at_1000
        (evaluate config input reads state).1.commands
        world in
    ((result : ExecutionResult Milli) × (r ≡ returned result))
    × (w'.device.modes "kontor"
        ≡ or_mode (final_mode config input state.at_floor kontor) "charge_pv")
execute_guard_commands-final_mode_example =
    execute_guard_commands-final_mode conversions inverters [] exec_config config input reads state
      at_1000 world kontor input-Distinct (inl refl) refl

-- forrad is to discharge 2 kW.
abbrev discharge : Request Milli
discharge = record {
  battery_id = "forrad";
  target_mode = "discharge_pv";
  target_limit_w = pos 2000;
  target_fast_charging = false;
  state = idle;
  step_started_at = num 0;
  retry_count = 0;
  emergency = false;
  skip_clear_wait = false;
  skip_standby = false;
}

abbrev times : List Milli
times =
    num 1000
    ∷ num 1060
    ∷ num 1360
    ∷ num 1420
    ∷ num 1450
    ∷ num 1480
    ∷ num 1510
    ∷ num 1540
    ∷ num 1570
    ∷ []

discharge-AllDue :
    AllDue (port (obedient {F = Milli} inverters [])) default_config times discharge site
unfolding cycles process_request process_in process_idle process_clearing process_standby
    process_setting process_verifying retry clear_fast_charging execute_set_target ◌-ℤ◌
    port_set_ems_mode port_set_ems_power_limit port_set_fast_charging port_get_ems_mode
    port_get_fast_charging
discharge-AllDue = (
  λ h. refl,
  (
    λ h. refl,
    (λ h. refl, (λ h. refl, (λ h. refl, (λ h. cc, (λ h. cc, (λ h. cc, (λ h. cc, tt))))))),
  ),
)

port_cycles_reach_target_example :
    let (req', s') =
      cycles (port (obedient {F = Milli} inverters [])) default_config times discharge site in
    (req'.state ≡ complete)
    × (s'.modes "forrad" ≡ "discharge_pv")
    × (s'.limits "forrad" ≡ pos 2000)
    × (s'.fast "forrad" ≡ false)
port_cycles_reach_target_example =
    port_cycles_reach_target default_config inverters [] times discharge site refl (omega arith)
      refl refl refl refl discharge-AllDue (omega arith)
