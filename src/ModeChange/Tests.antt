-- ===== src/ModeChange/Tests.antt =====
-- The protocol at its default configuration.
use carma_box_v.Base.{◌≤◌, ◌<◌, ◌≡◌, ◌⊎◌, refl, true, false, List, [], ◌∷◌, none, some, arith}
use carma_box_v.Base.Int.{pos, ◌-ℤ◌}
use carma_box_v.Base.Milli.{Milli, milli_float, num}
use carma_box_v.Models.{mode_value, charge_battery, discharge_pv}
use carma_box_v.ModeChange.Types.{
  idle, verifying, complete, failed, Request, ChangeConfig, default_config,
}
use carma_box_v.ModeChange.Protocol.{
  clear_fast_charging, execute_set_target, process_idle, process_clearing, process_standby,
  process_setting, process_verifying, retry, process_in, process_request,
}
use carma_box_v.ModeChange.Manager.{
  lookup, policy_or_full, full_protocol, Manager, fresh_request, process,
}
use carma_box_v.ModeChange.Diagram.{is_due, Edge, process_request-Edge}
use carma_box_v.ModeChange.Termination.{cycles, AllDue, cycles_terminate}
use carma_box_v.ModeChange.Device.{
  Inverter, inverter, IsSteady, cycles-IsSteady, cycles_reach_target,
}
use carma_box_v.ModeChange.Standby.{watched, first_in, cycles_stand_by_first}
use carma_box_v.ModeChange.Table.{IsDict}
use carma_box_v.ModeChange.Requests.{left_of, process_lem}

abbrev config : ChangeConfig Milli
config = default_config

-- kontor is to discharge 2 kW.
abbrev discharge : Request Milli
discharge = record {
  battery_id = "kontor";
  target_mode = mode_value discharge_pv;
  target_limit_w = pos 2000;
  target_fast_charging = false;
  state = idle;
  step_started_at = num 0;
  retry_count = 0;
  emergency = false;
  skip_clear_wait = false;
  skip_standby = false;
}

abbrev charging : Inverter
charging = record { mode = mode_value charge_battery; limit = pos 5000; fast = true; steady = true }

abbrev times : List Milli
times =
    num 1000
    ∷ num 1060
    ∷ num 1360
    ∷ num 1420
    ∷ num 1450
    ∷ num 1480
    ∷ num 1510
    ∷ num 1540
    ∷ num 1570
    ∷ []

cycles_complete : cycles inverter config times discharge charging ≡ (
  record discharge { state = complete; step_started_at = num 1420 },
  record { mode = mode_value discharge_pv; limit = pos 2000; fast = false; steady = true },
)
unfolding cycles process_request process_in process_idle process_clearing process_standby
    process_setting process_verifying retry clear_fast_charging execute_set_target ◌-ℤ◌
cycles_complete = refl

times-AllDue : AllDue inverter config times discharge charging
unfolding cycles process_request process_in process_idle process_clearing process_standby
    process_setting process_verifying retry clear_fast_charging execute_set_target ◌-ℤ◌
times-AllDue = (
  λ h. refl,
  (
    λ h. refl,
    (λ h. refl, (λ h. refl, (λ h. refl, (λ h. cc, (λ h. cc, (λ h. cc, (λ h. cc, tt))))))),
  ),
)

charging-IsSteady : IsSteady charging
charging-IsSteady = (refl, refl)

cycles_terminate_example :
    let end = (cycles inverter config times discharge charging).0 in
    (end.state ≡ complete) × (end.retry_count < 3) ⊎ (end.state ≡ failed) × (end.retry_count ≤ 3)
cycles_terminate_example =
    cycles_terminate inverter config times discharge charging (omega arith) refl refl times-AllDue
      (omega arith)

cycles-IsSteady_example : IsSteady (cycles inverter config times discharge charging).1
cycles-IsSteady_example = cycles-IsSteady config times discharge charging refl charging-IsSteady

cycles_reach_target_example :
    let (req', v') = cycles inverter config times discharge charging in
    (req'.state ≡ complete)
    × (v'.mode ≡ mode_value discharge_pv)
    × (v'.limit ≡ pos 2000)
    × (v'.fast ≡ false)
cycles_reach_target_example =
    cycles_reach_target config times discharge charging (omega arith) refl refl refl
      charging-IsSteady times-AllDue (omega arith)

process_request-Edge_example :
    (is_due config (num 1000) discharge ≡ false
      → process_request inverter config (num 1000) discharge charging ≡ (discharge, charging))
    × (is_due config (num 1000) discharge ≡ true
        → Edge config discharge idle
            (process_request inverter config (num 1000) discharge charging).0.state)
process_request-Edge_example = process_request-Edge config inverter (num 1000) discharge charging

discharge_is_full :
    policy_or_full (lookup (mode_value discharge_pv) config.transition_matrix) ≡ full_protocol
unfolding lookup
discharge_is_full = refl

cycles_stand_by_first_example :
    let (req', w') =
      cycles
        (watched inverter)
        config
        times
        (fresh_request config "kontor" (mode_value discharge_pv) (pos 2000) false)
        (record { first = none; device = charging }) in
    w'.first ≡ first_in req'.state
cycles_stand_by_first_example =
    cycles_stand_by_first inverter config times "kontor" (mode_value discharge_pv) (pos 2000) false
      charging discharge_is_full

abbrev checking : Request Milli
checking = record discharge { battery_id = "forrad"; state = verifying; step_started_at = num 900 }

abbrev manager : Manager Milli
manager = record { config = config; requests = ("kontor", discharge) ∷ ("forrad", checking) ∷ [] }

manager-IsDict : IsDict manager.requests
unfolding lookup
manager-IsDict = (refl, (refl, tt))

process_lem_example :
    let m' = (process inverter (num 1000) (λ id. num 1001) manager charging).0 in
    (lookup "forrad" manager.requests ≡ none → lookup "forrad" m'.requests ≡ none)
    × ((req : Request Milli)
        → lookup "forrad" manager.requests ≡ some req
        → (d' : Inverter) × (lookup "forrad" m'.requests
            ≡ left_of inverter config (num 1000) (λ id. num 1001) "forrad" req d'))
process_lem_example =
    process_lem inverter (num 1000) (λ id. num 1001) "forrad" manager charging manager-IsDict
