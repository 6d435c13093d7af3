-- ===== src/Cycle/Run.antt =====
-- core/engine.py: `run_cycle`, phase by phase.
use carma_box_v.Base.{is_empty, ℕ, Bool, true, false, List, Option, none, some, if◌then◌else◌}
use carma_box_v.Base.Floats.{Float}
use carma_box_v.Models.{Scenario, night_ev, same_scenario, Snapshot}
use carma_box_v.Guards.Types.{
  GuardLevel, freeze, alarm, GuardConfig, GuardInput, GuardState, GuardEvaluation, ClockReads,
  GuardCommand,
}
use carma_box_v.Guards.Evaluate.{evaluate as evaluate_guards}
use carma_box_v.Machine.Evaluate.{Machine, evaluate as evaluate_machine, transition_to}
use carma_box_v.Executor.Types.{
  Outcome, returned, raised, Adapters, Conversions, ExecutorConfig, ExecReads,
}
use carma_box_v.Executor.Monad.{World}
use carma_box_v.Executor.Execute.{execute_guard_commands}
use carma_box_v.NightEv.Evaluate.{NightState}
use carma_box_v.Cycle.Night.{NightControl, run_night_ev_controllers}

-- The state that a cycle passes on; `others` is that of the phases given as `Phases`.
pub record Engine (F D B : Type 0) : Type 0 where
  pub guard : GuardState F
  pub machine : Machine F
  pub night : Option (NightState F)
  pub world : World F D
  pub others : B

-- The phases of other components: the budget allocator, if its config is set, the mode change
-- protocol over the executor, and the session tracker. Each acts on the world and on its own state,
-- and may raise.
pub record Phases (F D B : Type 0) : Type 0 where
  pub run_budget_allocator :
      Option (Snapshot F → World F D × B → (World F D × B) × Outcome (Unit {0}))
  pub process_mode_changes : World F D × B → (World F D × B) × Outcome (Unit {0})
  pub track_sessions : Snapshot F → World F D × B → (World F D × B) × Outcome (Unit {0})

pub record EngineConfig (F : Type 0) : Type 0 where
  pub guard : GuardConfig F
  pub executor : ExecutorConfig F
  pub night : Option (NightControl F)

-- The arguments of `run_cycle`, and the hour and the seconds of the snapshot's timestamp.
pub record CycleInput (F : Type 0) : Type 0 where
  pub snapshot : Snapshot F
  pub timestamp_hour : ℕ
  pub timestamp : F
  pub ha_connected : Bool
  pub data_age_s : F

-- The readings of the clock in a cycle.
pub record CycleReads (F : Type 0) : Type 0 where
  pub at_guard : ClockReads F
  pub at_guard_commands : ℕ → ExecReads F
  pub at_machine : F
  pub at_transition : F
  pub at_ev : ℕ → ExecReads F
  pub at_support : ℕ → ExecReads F

-- `CycleResult`, without its id, its times and the text of the error, and without `balance`, which
-- nothing sets. The result of the allocator's commands is left out with the allocator.
pub record CycleResult (F : Type 0) : Type 0 where
  pub scenario : Scenario
  pub guard : GuardEvaluation F
  pub has_error : Bool

abbrev pub stops : GuardLevel → Bool
stops freeze = true
stops alarm = true
stops _ = false

module _ {F D B : Type 0} ⦃f : Float F⦄ (conv : Conversions F) (io : Adapters F D)
    (phases : Phases F D B) (cfg : EngineConfig F) (reads : CycleReads F) (i : CycleInput F) where
  open f use {lit}

  unfoldable pub guard_input : Machine F → GuardInput F
  guard_input m = record {
    batteries = i.snapshot.batteries;
    current_scenario = m.state.current;
    weighted_avg_kw = i.snapshot.grid.weighted_avg_kw;
    hour = i.snapshot.hour;
    ha_connected = i.ha_connected;
    data_age_s = i.data_age_s;
    appliance_kw = lit 0 0;
  }

  -- A phase on the world and the others' state, in the engine.
  abbrev pub within :
      (World F D × B → (World F D × B) × Outcome (Unit {0}))
      → Engine F D B
      → Engine F D B × Outcome (Unit {0})
  within phase e =
      let ((w, b), r) = phase (e.world, e.others) in (record e { world = w; others = b }, r)

  -- The next phase, unless an exception has been raised.
  abbrev pub and_then :
      (Engine F D B → Engine F D B × Outcome (Unit {0}))
      → Engine F D B × Outcome (Unit {0})
      → Engine F D B × Outcome (Unit {0})
  and_then phase (e, returned u) = phase e
  and_then phase (e, raised) = (e, raised)

  unfoldable pub budget_phase : Engine F D B → Engine F D B × Outcome (Unit {0})
  budget_phase e = elim phases.run_budget_allocator [
    | none ↦ (e, returned tt)
    | some run ↦ within (run i.snapshot) e
  ]

  unfoldable pub night_phase : Engine F D B → Engine F D B × Outcome (Unit {0})
  night_phase e = elim cfg.night [
    | none ↦ (e, returned tt)
    | some ctl ↦
        let (night, w) =
          run_night_ev_controllers conv io cfg.executor ctl reads.at_ev reads.at_support
            i.timestamp_hour i.timestamp i.snapshot e.night e.world in
        if same_scenario e.machine.state.current night_ev
        then (record e { night = night; world = w }, returned tt)
        else (e, returned tt)
  ]

  -- Phases 4 to 6.
  unfoldable pub act_phases : Engine F D B → Engine F D B × Outcome (Unit {0})
  act_phases e =
      and_then (within (phases.track_sessions i.snapshot))
        (and_then (within phases.process_mode_changes) (and_then night_phase (budget_phase e)))

  -- Phase 3: the machine after it.
  unfoldable pub scenario_phase : Machine F → Machine F
  scenario_phase m = elim (evaluate_machine m reads.at_machine i.snapshot) [
    | none ↦ m
    | some target ↦ transition_to m reads.at_transition target
  ]

  abbrev pub is_raised : Outcome (Unit {0}) → Bool
  is_raised (returned u) = false
  is_raised raised = true

  abbrev pub cycle_result : Machine F → GuardEvaluation F → Outcome (Unit {0}) → CycleResult F
  cycle_result m found r = record {
    scenario = m.state.current;
    guard = found;
    has_error = is_raised r;
  }

  -- Phase 1: the guard's commands, which may raise.
  unfoldable pub guard_commands_phase :
      List (GuardCommand F) → Engine F D B → Engine F D B × Outcome (Unit {0})
  guard_commands_phase cmds e =
      let (w, r) =
        execute_guard_commands conv io cfg.executor reads.at_guard_commands cmds e.world in
      let done : Outcome (Unit {0}) = elim r [ returned x ↦ returned tt | raised ↦ raised ] in
      if is_empty cmds then (e, returned tt) else (record e { world = w }, done)

  -- From phase 2 on.
  unfoldable pub decide :
      GuardEvaluation F → Engine F D B × Outcome (Unit {0}) → Engine F D B × CycleResult F
  decide found (e, raised) = (e, cycle_result e.machine found raised)
  decide found (e, returned u) =
      let moved = record e { machine = scenario_phase e.machine } in
      let (e', r) = act_phases moved in
      if stops found.level
      then (e, cycle_result e.machine found (returned tt))
      else (e', cycle_result moved.machine found r)

  -- `run_cycle`, whose exceptions end in its result.
  unfoldable pub run_cycle : Engine F D B → Engine F D B × CycleResult F
  run_cycle e =
      let (guard, found) =
        evaluate_guards cfg.guard (guard_input e.machine) reads.at_guard e.guard in
      decide found (guard_commands_phase found.commands (record e { guard = guard }))
