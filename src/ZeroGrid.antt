-- ===== src/ZeroGrid.antt =====
-- core/zero_grid.py: the plan for the batteries that drives the grid's power to 0 W.
pub mod Types
pub mod Gain
pub mod Distribute
pub mod Plan
pub mod Safety
pub mod Contract
pub mod Example
mod Tests
