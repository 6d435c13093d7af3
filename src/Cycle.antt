-- ===== src/Cycle.antt =====
-- core/engine.py: `ControlEngine`, one control cycle.
pub mod Night
pub mod Run
pub mod Budget
pub mod Freeze
pub mod Scenario
pub mod Amps
mod Tests
