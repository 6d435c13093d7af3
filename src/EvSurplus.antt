-- ===== src/EvSurplus.antt =====
-- core/ev_surplus.py: charging the car from a surplus of PV power.
pub mod Evaluate
pub mod Runs
pub mod Stops
mod Tests
