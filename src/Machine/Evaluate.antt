-- ===== src/Machine/Evaluate.antt =====
-- core/state_machine.py: the transition matrix, the priorities and `StateMachine`.
use carma_box_v.Base.{Bool, not, List, [], ◌∷◌, Option, none, some, if◌then◌else◌, any}
use carma_box_v.Base.Floats.{Float, ge}
use carma_box_v.Models.{
  Scenario, morning_discharge, forenoon_pv_ev, pv_surplus_day, evening_discharge, night_high_pv,
  night_low_pv, night_grid_charge, pv_surplus, night_ev, same_scenario, Snapshot,
}
use carma_box_v.Machine.Entry.{MachineConfig, check_entry, should_exit}

-- `_TRANSITION_MATRIX`
abbrev pub allowed : Scenario → List Scenario
allowed morning_discharge = forenoon_pv_ev ∷ pv_surplus_day ∷ pv_surplus ∷ []
allowed forenoon_pv_ev = pv_surplus_day ∷ pv_surplus ∷ []
allowed pv_surplus_day = evening_discharge ∷ pv_surplus ∷ night_ev ∷ []
allowed evening_discharge = night_high_pv ∷ night_low_pv ∷ night_ev ∷ []
allowed night_high_pv = morning_discharge ∷ night_grid_charge ∷ night_ev ∷ []
allowed night_low_pv = morning_discharge ∷ night_grid_charge ∷ night_ev ∷ []
allowed night_grid_charge = morning_discharge ∷ night_ev ∷ []
allowed night_ev = morning_discharge ∷ night_grid_charge ∷ night_high_pv ∷ night_low_pv ∷ []
allowed pv_surplus = forenoon_pv_ev ∷ pv_surplus_day ∷ evening_discharge ∷ []

-- `scenario in allowed`
abbrev pub is_allowed : Scenario → Scenario → Bool
is_allowed current s = any (same_scenario s) (allowed current)

-- `_SCENARIO_PRIORITY`
abbrev pub priority : List Scenario
priority =
    night_ev ∷ morning_discharge ∷ forenoon_pv_ev ∷ pv_surplus_day ∷ evening_discharge
    ∷ night_high_pv ∷ night_low_pv ∷ night_grid_charge ∷ pv_surplus ∷ []

pub record ScenarioState (F : Type 0) : Type 0 where
  pub current : Scenario
  pub previous : Option Scenario
  pub entered_at : F

pub record Machine (F : Type 0) : Type 0 where
  pub config : MachineConfig F
  pub state : ScenarioState F
  pub manual_override : Option Scenario

-- The recovery is tried where no allowed target was found.
abbrev pub or_recover : Option Scenario → Option Scenario → Option Scenario
or_recover (some s) _ = some s
or_recover none o = o

module _ {F : Type 0} ⦃f : Float F⦄ where
  open f use {sub}

  -- `StateMachine(config)` at the given reading of the clock.
  unfoldable pub start : MachineConfig F → F → Machine F
  start cfg now = record {
    config = cfg;
    state = record { current = cfg.start_scenario; previous = none; entered_at = now };
    manual_override = none;
  }

  unfoldable pub can_transition : Machine F → F → Bool
  can_transition m now = ge (sub now m.state.entered_at) m.config.min_dwell_s

  -- The loop over the priorities that skips what the matrix does not allow.
  unfoldable pub find_allowed :
      MachineConfig F → Scenario → Snapshot F → List Scenario → Option Scenario
  find_allowed cfg current snap [] = none
  find_allowed cfg current snap (s ∷ rest) =
      let later = find_allowed cfg current snap rest in
      if same_scenario s current
      then later
      else if not (is_allowed current s)
      then later
      else if check_entry cfg s snap
      then some s
      else later

  -- The loop of the catch-all recovery.
  unfoldable pub find_any :
      MachineConfig F → Scenario → Snapshot F → List Scenario → Option Scenario
  find_any cfg current snap [] = none
  find_any cfg current snap (s ∷ rest) =
      let later = find_any cfg current snap rest in
      if same_scenario s current then later else if check_entry cfg s snap then some s else later

  -- `evaluate` with no override, once the scenario has been held for long enough.
  unfoldable pub next_scenario : MachineConfig F → Scenario → Snapshot F → Option Scenario
  next_scenario cfg current snap =
      let found = find_allowed cfg current snap priority in
      if should_exit cfg current snap
      then or_recover found (find_any cfg current snap priority)
      else found

  unfoldable pub evaluate : Machine F → F → Snapshot F → Option Scenario
  evaluate m now snap = elim m.manual_override [
    | some target ↦ if same_scenario target m.state.current then none else some target
    | none ↦ if can_transition m now then next_scenario m.config m.state.current snap else none
  ]

  unfoldable pub transition_to : Machine F → F → Scenario → Machine F
  transition_to m now target = record m {
    state = record { current = target; previous = some m.state.current; entered_at = now };
  }

  unfoldable pub set_manual_override : Machine F → Option Scenario → Machine F
  set_manual_override m o = record m { manual_override = o }
