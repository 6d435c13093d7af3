-- ===== src/Budget.antt =====
-- core/budget.py and core/grid_tuner.py: one budget for the batteries, the EV and the loads.
pub mod Tuner
pub mod Types
pub mod Facts
pub mod Batteries
pub mod Charger
pub mod Cascade
pub mod Allocate
pub mod Total
pub mod Ramp
pub mod Planned
pub mod Written
pub mod Settled
pub mod Modes
pub mod Mirror
pub mod Loads
pub mod Limits
pub mod Served
pub mod Lawful
pub mod Example
mod Tests
