-- ===== src/Machine/Targets.antt =====
-- The answers of `StateMachine.evaluate`.
use carma_box_v.Base.{
  ◌≡◌, ◌≢◌, refl, sym, ◌∙◌, ◌↔◌, true, false, inl, inr, Bool-cases, Option-cases, none, some, arith,
  All,
}
use carma_box_v.Base.Floats.{Float}
use carma_box_v.Models.{Scenario, Snapshot}
use carma_box_v.Models.Laws.{same_scenario_iff}
use carma_box_v.Machine.Entry.{check_entry, should_exit}
use carma_box_v.Machine.Evaluate.{priority, Machine, can_transition, next_scenario, evaluate}
use carma_box_v.Machine.Laws.{
  Unfit, Declined, Justified, next_scenario-some, next_scenario-none, next_scenario_nowhere,
}

module _ {F : Type 0} ⦃f : Float F⦄ (m : Machine F) (now : F) (snap : Snapshot F) where
  evaluate_ready :
      m.manual_override ≡ none
      → can_transition m now ≡ true
      → evaluate m now snap ≡ next_scenario m.config m.state.current snap
  unfolding evaluate
  evaluate_ready free ready = ground arith

  pub evaluate_waits :
      m.manual_override ≡ none → can_transition m now ≡ false → evaluate m now snap ≡ none
  unfolding evaluate
  evaluate_waits free wait = ground arith

  -- Without an override, a target is another scenario, whose entry condition holds, after the minimum
  -- dwell; and it is the first in the order of priority that the matrix allows and that fits, or, if
  -- there is none and the scenario is to be left, the first of all that fits.
  pub evaluate_target :
      (t : Scenario)
      → m.manual_override ≡ none
      → evaluate m now snap ≡ some t
      → (t ≢ m.state.current)
        × (can_transition m now ≡ true)
        × (check_entry m.config t snap ≡ true)
        × Justified m.config m.state.current snap t
  evaluate_target t free e = elim (Bool-cases (can_transition m now)) [
    | inl ready ↦
        let found = sym (evaluate_ready free ready) ∙ e in
        let (ne, fit, why) = next_scenario-some m.config m.state.current snap t found in
        (ne, ready, fit, why)
    | inr wait ↦ let no : none ≡ some t = sym (evaluate_waits free wait) ∙ e in cc
  ]

  -- Without an override and after the minimum dwell, the machine stays exactly when the matrix has no
  -- target that fits and, if the scenario is to be left, no other scenario fits at all.
  pub evaluate_stays_iff :
      m.manual_override ≡ none
      → can_transition m now ≡ true
      → (evaluate m now snap ≡ none) ↔ (
          All (Declined m.config m.state.current snap) priority
          × (should_exit m.config m.state.current snap ≡ true
              → All (Unfit m.config m.state.current snap) priority))
  unfolding evaluate
  evaluate_stays_iff free ready = (
    λ e. next_scenario-none m.config m.state.current snap (sym (evaluate_ready free ready) ∙ e),
    λ stay.
        evaluate_ready free ready
        ∙ next_scenario_nowhere m.config m.state.current snap stay.0 stay.1,
  )

  -- The machine never answers with the scenario that it is in, and an override that names another
  -- one is answered at once.
  pub evaluate_moves :
      (evaluate m now snap ≢ some m.state.current)
      × ((o : Scenario)
          → m.manual_override ≡ some o
          → o ≢ m.state.current
          → evaluate m now snap ≡ some o)
  unfolding evaluate
  evaluate_moves = (
    λ e. elim (Option-cases m.manual_override) [
      | inl free ↦ (evaluate_target m.state.current free e).0 refl
      | inr (o, set) ↦ ground (arith, same_scenario_iff o m.state.current)
    ],
    λ o e ne. ground (arith, same_scenario_iff o m.state.current),
  )
