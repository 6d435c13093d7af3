-- ===== src/Machine.antt =====
-- core/state_machine.py: which scenario the site is in. `StateMachine` keeps its state in `Machine`;
-- `ScenarioState` has the fields that this file reads or writes, its entry time as the reading of
-- `time.monotonic()` that dwelling is measured by.
pub mod Entry
pub mod Evaluate
pub mod Laws
pub mod Targets
pub mod Coverage
mod Tests
