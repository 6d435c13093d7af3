-- ===== src/NightPlan.antt =====
-- core/night_planner.py and core/ev_presence.py: the night's windows for the car and the batteries.
pub mod Presence
pub mod Plan
pub mod Windows
mod Tests
