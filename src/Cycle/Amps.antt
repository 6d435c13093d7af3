-- ===== src/Cycle/Amps.antt =====
-- Whole cycles with the budget allocator: the current that it keeps for the EV.
use carma_box_v.Base.{ℕ, inl, inr, List, [], ◌∷◌, some, Bool-cases, option_cases}
use carma_box_v.Base.Floats.{Float}
use carma_box_v.Models.{night_ev, same_scenario, Snapshot}
use carma_box_v.Guards.Types.{GuardCommand, GuardEvaluation}
use carma_box_v.Guards.Evaluate.{evaluate as evaluate_guards}
use carma_box_v.Executor.Types.{Outcome, returned, raised, Adapters, Conversions, ExecReads}
use carma_box_v.Executor.Monad.{World}
use carma_box_v.Budget.Types.{BudgetState, BudgetReads}
use carma_box_v.Budget.Total.{IsUsable}
use carma_box_v.Budget.Ramp.{HasRange, IsAmps}
use carma_box_v.Cycle.Budget.{BudgetControl, run_budget_allocator, run_budget_allocator-IsAmps}
use carma_box_v.Cycle.Run.{
  Engine, Phases, EngineConfig, CycleInput, CycleReads, guard_input, within, and_then, budget_phase,
  night_phase, guard_commands_phase, act_phases, scenario_phase, decide, stops, run_cycle,
}

-- A phase on the world alone.
abbrev pub on_world :
    {F D B : Type 0}
    → (World F D → World F D × Outcome (Unit {0}))
    → World F D × B
    → (World F D × B) × Outcome (Unit {0})
on_world phase (w, b) = let (w', r) = phase w in ((w', b), r)

module _ {F D : Type 0} ⦃f : Float F⦄ (conv : Conversions F) (io : Adapters F D)
    (cfg : EngineConfig F) (reads : CycleReads F) (i : CycleInput F) (ctl : BudgetControl F)
    (budget_reads : BudgetReads F) (at_budget : ℕ → ExecReads F)
    (changes : World F D → World F D × Outcome (Unit {0}))
    (sessions : Snapshot F → World F D → World F D × Outcome (Unit {0})) where
  -- The budget allocator, and any mode changes and session tracker on the world.
  abbrev pub with_budget : Phases F D (BudgetState F)
  with_budget = record {
    run_budget_allocator =
        some
          (run_budget_allocator conv io cfg.executor ctl budget_reads at_budget i.timestamp_hour);
    process_mode_changes = on_world changes;
    track_sessions = λ snap. on_world (sessions snap);
  }

  abbrev E : Type 0
  E = Engine F D (BudgetState F)

  abbrev pub InRange : E → Type 0
  InRange e = IsAmps ctl.budget_config e.others.ev_current_amps

  abbrev Step : Type 0
  Step = E → E × Outcome (Unit {0})

  and_then-InRange :
      (phase : Step) (p : E × Outcome (Unit {0}))
      → ((d : E) → InRange d → InRange (phase d).0)
      → InRange p.0
      → InRange (and_then conv io with_budget cfg reads i phase p).0
  and_then-InRange phase (e, returned u) h k = h e k
  and_then-InRange phase (e, raised) h k = k

  night_phase-InRange :
      (e : E) → InRange e → InRange (night_phase conv io with_budget cfg reads i e).0
  unfolding night_phase
  night_phase-InRange e h = elim (option_cases cfg.night) [
    | inl (ctl', e') ↦
        rw (night_phase, e')
          (elim (Bool-cases (same_scenario e.machine.state.current night_ev)) [
            | inl here ↦ simp here h
            | inr away ↦ simp away h
          ])
    | inr e' ↦ rw (night_phase, e') h
  ]

  module _ (u : IsUsable ctl.budget_config) (r : HasRange ctl.budget_config) where
    budget_phase-InRange :
        (e : E) → InRange e → InRange (budget_phase conv io with_budget cfg reads i e).0
    unfolding budget_phase
    budget_phase-InRange e h =
        (run_budget_allocator-IsAmps conv io cfg.executor ctl budget_reads at_budget
          i.timestamp_hour i.snapshot e.world e.others u r h).1

    act_phases-InRange :
        (e : E) → InRange e → InRange (act_phases conv io with_budget cfg reads i e).0
    unfolding act_phases
    act_phases-InRange e h =
        let next = and_then conv io with_budget cfg reads i in
        let night = night_phase conv io with_budget cfg reads i in
        let change = within conv io with_budget cfg reads i (on_world changes) in
        let track = within conv io with_budget cfg reads i (on_world (sessions i.snapshot)) in
        let budgeted = budget_phase conv io with_budget cfg reads i e in
        and_then-InRange track (next change (next night budgeted)) (λ d k. k)
          (and_then-InRange change (next night budgeted) (λ d k. k)
            (and_then-InRange night budgeted night_phase-InRange (budget_phase-InRange e h)))

    decide-InRange :
        (found : GuardEvaluation F) (p : E × Outcome (Unit {0}))
        → InRange p.0
        → InRange (decide conv io with_budget cfg reads i found p).0
    unfolding decide
    decide-InRange found (e, raised) h = h
    decide-InRange found (e, returned tt) h = elim (Bool-cases (stops found.level)) [
      | inl stopped ↦ simp stopped h
      | inr on ↦
          let m = scenario_phase conv io with_budget cfg reads i e.machine in
          simp on (act_phases-InRange (record e { machine = m }) h)
    ]

    guard_commands_phase-InRange :
        (cmds : List (GuardCommand F)) (e : E)
        → InRange e
        → InRange (guard_commands_phase conv io with_budget cfg reads i cmds e).0
    unfolding guard_commands_phase
    guard_commands_phase-InRange [] e h = h
    guard_commands_phase-InRange (c ∷ cmds) e h = h

    -- A whole cycle whose budget phase is the allocator, with a configuration as for its own cycles,
    -- whatever the adapters, the mode changes and the session tracker do, raising included: the current
    -- that the allocator keeps for the EV stays off or within the charger's range.
    pub run_cycle-IsAmps :
        (e : E)
        → IsAmps ctl.budget_config e.others.ev_current_amps
        → IsAmps ctl.budget_config
            (run_cycle conv io with_budget cfg reads i e).0.others.ev_current_amps
    unfolding run_cycle
    run_cycle-IsAmps e h =
        let (guard, found) =
          evaluate_guards cfg.guard (guard_input conv io with_budget cfg reads i e.machine)
            reads.at_guard e.guard in
        let begun = record e { guard = guard } in
        decide-InRange found
          (guard_commands_phase conv io with_budget cfg reads i found.commands begun)
          (guard_commands_phase-InRange found.commands begun h)
