-- ===== src/Cycle/Freeze.antt =====
-- A cycle on stale data or without Home Assistant: the guards act_phases, and nothing else.
use carma_box_v.Base.{◌≡◌, refl, ◌⊎◌, true, false, List, [], ◌∷◌, String, contains, In}
use carma_box_v.Base.Floats.{Float}
use carma_box_v.Models.{Battery}
use carma_box_v.Guards.Types.{GuardCommand, freeze, GuardEvaluation}
use carma_box_v.Guards.Grid.{is_stale, is_lost}
use carma_box_v.Guards.Evaluate.{evaluate as evaluate_guards}
use carma_box_v.Guards.Levels.{evaluate_freezes_iff}
use carma_box_v.Guards.Floor.{Distinct}
use carma_box_v.Guards.Modes.{final_mode}
use carma_box_v.Executor.Types.{returned, Adapters, Conversions, ExecutionResult}
use carma_box_v.Executor.Execute.{guard_all, execute_guard_commands}
use carma_box_v.Executor.Site.{Site, obedient, or_mode, execute_guard_commands-final_mode}
use carma_box_v.Cycle.Run.{
  Engine, Phases, EngineConfig, CycleInput, CycleReads, guard_input, guard_commands_phase, decide,
  run_cycle,
}

module _ {F D B : Type 0} ⦃f : Float F⦄ (conv : Conversions F) (io : Adapters F D)
    (phases : Phases F D B) (cfg : EngineConfig F) (reads : CycleReads F) (i : CycleInput F) where
  guard_commands_phase_returns :
      (cmds : List (GuardCommand F)) (e : Engine F D B) (x : ExecutionResult F)
      → (execute_guard_commands conv io cfg.executor reads.at_guard_commands cmds e.world).1
        ≡ returned x
      → guard_commands_phase conv io phases cfg reads i cmds e ≡ (
        record e {
          world =
              (execute_guard_commands conv io cfg.executor reads.at_guard_commands cmds e.world).0;
        },
        returned tt,
      )
  unfolding guard_commands_phase execute_guard_commands guard_all
  guard_commands_phase_returns [] e x h = refl
  guard_commands_phase_returns (c ∷ cmds) e x h = rw h refl

  decide_freeze :
      (found : GuardEvaluation F) (e : Engine F D B)
      → found.level ≡ freeze
      → decide conv io phases cfg reads i found (e, returned tt)
        ≡ (e, record { scenario = e.machine.state.current; guard = found; has_error = false })
  unfolding decide
  decide_freeze found e h = simp h refl

module _ {F B : Type 0} ⦃f : Float F⦄ (conv : Conversions F) (inverters consumers : List String)
    (phases : Phases F Site B) (cfg : EngineConfig F) (reads : CycleReads F)
    (i : CycleInput F) where
  -- The data is stale, or Home Assistant is away and has been for longer than the timeout.
  abbrev pub IsBlind : Engine F Site B → Type 0
  IsBlind e =
      (is_stale cfg.guard i.data_age_s ≡ true)
      ⊎ ((i.ha_connected ≡ false) × (is_lost cfg.guard e.guard reads.at_guard.at_comm ≡ true))

  -- A cycle on stale data, or after Home Assistant has been away for longer than its timeout, on
  -- inverters that do what they are told: whatever the other phases would do, it ends without an error,
  -- keeps the scenario and the state of the other phases, and leaves each registered battery, if no two
  -- share an id, in the mode of `final_mode`, or in the mode it had where that is none.
  pub run_cycle_blind :
      (e : Engine F Site B) (bat : Battery F)
      → IsBlind e
      → Distinct i.snapshot.batteries
      → In bat i.snapshot.batteries
      → contains bat.battery_id inverters ≡ true
      → let (e', r) = run_cycle conv (obedient inverters consumers) phases cfg reads i e in
        (r.has_error ≡ false)
        × (r.scenario ≡ e.machine.state.current)
        × (e'.machine ≡ e.machine)
        × (e'.night ≡ e.night)
        × (e'.others ≡ e.others)
        × (e'.world.device.modes bat.battery_id
            ≡ or_mode
                (final_mode cfg.guard
                  (guard_input conv (obedient inverters consumers) phases cfg reads i e.machine)
                  e.guard.at_floor
                  bat)
                (e.world.device.modes bat.battery_id))
  unfolding run_cycle guard_input
  run_cycle_blind e bat blind d m h =
      let io = obedient inverters consumers in
      let input = guard_input conv io phases cfg reads i e.machine in
      let (guard, found) = evaluate_guards cfg.guard input reads.at_guard e.guard in
      let frozen : found.level ≡ freeze =
        (evaluate_freezes_iff cfg.guard input reads.at_guard e.guard).0.1 blind in
      let ((x, ok), modes) =
        execute_guard_commands-final_mode conv inverters consumers cfg.executor cfg.guard input
          reads.at_guard e.guard reads.at_guard_commands e.world bat d m h in
      let executed =
        guard_commands_phase_returns conv io phases cfg reads i found.commands
          (record e { guard = guard }) x ok in
      rw (executed, decide_freeze conv io phases cfg reads i found _ frozen)
        (refl, refl, refl, refl, refl, modes)
