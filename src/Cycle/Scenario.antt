-- ===== src/Cycle/Scenario.antt =====
-- What a cycle does to the scenario and to the state of the guards, whatever the adapters and the
-- other phases do.
use carma_box_v.Base.{
  ap, sym, subst, option_cases, ◌≡◌, refl, ◌∙◌, ◌⊎◌, inl, inr, false, List, [], ◌∷◌, some,
  Bool-cases,
}
use carma_box_v.Base.Floats.{Float}
use carma_box_v.Models.{Scenario, night_ev, same_scenario}
use carma_box_v.Guards.Types.{GuardCommand, GuardEvaluation}
use carma_box_v.Guards.Evaluate.{evaluate as evaluate_guards}
use carma_box_v.Machine.Evaluate.{Machine, evaluate as evaluate_machine, transition_to}
use carma_box_v.Executor.Types.{Outcome, returned, raised, Adapters, Conversions}
use carma_box_v.Cycle.Run.{
  Engine, Phases, EngineConfig, CycleInput, CycleReads, guard_input, within, and_then, budget_phase,
  night_phase, guard_commands_phase, act_phases, scenario_phase, cycle_result, decide, stops,
  run_cycle,
}

module _ {F D B : Type 0} ⦃f : Float F⦄ (conv : Conversions F) (io : Adapters F D)
    (phases : Phases F D B) (cfg : EngineConfig F) (reads : CycleReads F) (i : CycleInput F) where
  -- The machine and the guards' state are those of the engine before.
  abbrev Keeps : Engine F D B → Engine F D B × Outcome (Unit {0}) → Type 0
  Keeps e p = (p.0.machine ≡ e.machine) × (p.0.guard ≡ e.guard)

  and_then-Keeps :
      (phase : Engine F D B → Engine F D B × Outcome (Unit {0})) (e : Engine F D B)
      (p : Engine F D B × Outcome (Unit {0}))
      → ((d : Engine F D B) → Keeps d (phase d))
      → Keeps e p
      → Keeps e (and_then conv io phases cfg reads i phase p)
  and_then-Keeps phase e (d, returned u) h k = ((h d).0 ∙ k.0, (h d).1 ∙ k.1)
  and_then-Keeps phase e (d, raised) h k = k

  budget_phase-Keeps : (e : Engine F D B) → Keeps e (budget_phase conv io phases cfg reads i e)
  unfolding budget_phase
  budget_phase-Keeps e = elim (option_cases phases.run_budget_allocator) [
    | inl (run, e') ↦ rw e' (refl, refl)
    | inr e' ↦ rw e' (refl, refl)
  ]

  night_phase-Keeps : (e : Engine F D B) → Keeps e (night_phase conv io phases cfg reads i e)
  unfolding night_phase
  night_phase-Keeps e = elim (option_cases cfg.night) [
    | inl (ctl, e') ↦
        rw (night_phase, e')
          (elim (Bool-cases (same_scenario e.machine.state.current night_ev)) [
            | inl here ↦ simp here (refl, refl)
            | inr away ↦ simp away (refl, refl)
          ])
    | inr e' ↦ rw (night_phase, e') (refl, refl)
  ]

  act_phases-Keeps : (e : Engine F D B) → Keeps e (act_phases conv io phases cfg reads i e)
  unfolding act_phases
  act_phases-Keeps e =
      let next = and_then conv io phases cfg reads i in
      let night = night_phase conv io phases cfg reads i in
      let changes = within conv io phases cfg reads i phases.process_mode_changes in
      let sessions = within conv io phases cfg reads i (phases.track_sessions i.snapshot) in
      let budgeted = budget_phase conv io phases cfg reads i e in
      and_then-Keeps sessions e (next changes (next night budgeted)) (λ d. (refl, refl))
        (and_then-Keeps changes e (next night budgeted) (λ d. (refl, refl))
          (and_then-Keeps night e budgeted night_phase-Keeps (budget_phase-Keeps e)))

  guard_commands_phase-Keeps :
      (cmds : List (GuardCommand F)) (e : Engine F D B)
      → Keeps e (guard_commands_phase conv io phases cfg reads i cmds e)
  unfolding guard_commands_phase
  guard_commands_phase-Keeps [] e = (refl, refl)
  guard_commands_phase-Keeps (c ∷ cmds) e = (refl, refl)

  -- The machine stays, or goes to the target of its own evaluation, in a cycle that the guards do not
  -- stop.
  abbrev pub Moves : Machine F → GuardEvaluation F → Machine F → Type 0
  Moves m found m' =
      (m' ≡ m)
      ⊎ ((target : Scenario) × (evaluate_machine m reads.at_machine i.snapshot ≡ some target)
          × (m' ≡ transition_to m reads.at_transition target)
          × (stops found.level ≡ false))

  scenario_phase-Moves :
      (m : Machine F) (found : GuardEvaluation F)
      → stops found.level ≡ false
      → Moves m found (scenario_phase conv io phases cfg reads i m)
  unfolding scenario_phase
  scenario_phase-Moves m found h =
      elim (option_cases (evaluate_machine m reads.at_machine i.snapshot)) [
        | inl (target, e) ↦ inr (target, e, rw (scenario_phase, e) refl, h)
        | inr e ↦ inl (rw (scenario_phase, e) refl)
      ]

  decide_on :
      (found : GuardEvaluation F) (d : Engine F D B)
      → stops found.level ≡ false
      → let moved = record d { machine = scenario_phase conv io phases cfg reads i d.machine } in
        let (e', r) = act_phases conv io phases cfg reads i moved in
        decide conv io phases cfg reads i found (d, returned tt)
        ≡ (e', cycle_result conv io phases cfg reads i moved.machine found r)
  unfolding decide
  decide_on found d on = simp on refl

  decide-Moves :
      (found : GuardEvaluation F) (e : Engine F D B) (p : Engine F D B × Outcome (Unit {0}))
      → Keeps e p
      → let (e', r) = decide conv io phases cfg reads i found p in
        (e'.guard ≡ e.guard)
        × (r.scenario ≡ e'.machine.state.current)
        × Moves e.machine found e'.machine
  unfolding decide
  decide-Moves found e (d, raised) k = (k.1, refl, inl k.0)
  decide-Moves found e (d, returned tt) k = elim (Bool-cases (stops found.level)) [
    | inl stopped ↦ simp stopped (k.1, refl, inl k.0)
    | inr on ↦
        let moved = record d { machine = scenario_phase conv io phases cfg reads i d.machine } in
        let kept = act_phases-Keeps moved in
        let same = kept.0 ∙ ap (scenario_phase conv io phases cfg reads i) k.0 in
        let moves = scenario_phase-Moves e.machine found on in
        rw (decide_on found d on) (
          kept.1 ∙ k.1,
          ap (λ m. m.state.current) (sym kept.0),
          subst (Moves e.machine found) (sym same) moves,
        )
  ]

  -- Whatever the adapters and the other phases do, raising included, a cycle keeps what the guards' own
  -- evaluation leaves and reports the scenario that it ends in; the machine stays as it is, or goes to
  -- the target of its own evaluation, and that only if the guards do not stop the cycle.
  pub run_cycle-Moves :
      (e : Engine F D B)
      → let (e', r) = run_cycle conv io phases cfg reads i e in
        let input = guard_input conv io phases cfg reads i e.machine in
        let (guard, found) = evaluate_guards cfg.guard input reads.at_guard e.guard in
        (e'.guard ≡ guard)
        × (r.scenario ≡ e'.machine.state.current)
        × Moves e.machine found e'.machine
  unfolding run_cycle
  run_cycle-Moves e =
      let input = guard_input conv io phases cfg reads i e.machine in
      let (guard, found) = evaluate_guards cfg.guard input reads.at_guard e.guard in
      let guarded = record e { guard = guard } in
      decide-Moves found guarded
        (guard_commands_phase conv io phases cfg reads i found.commands guarded)
        (guard_commands_phase-Keeps found.commands guarded)
