-- ===== src/Guards.antt =====
-- core/guards.py: the VETO layer. `evaluate` runs G0 to G7 in order on a cycle's readings.
pub mod Types
pub mod Battery
pub mod Grid
pub mod Evaluate
pub mod Levels
pub mod Spec
pub mod Floor
pub mod Order
pub mod Policy
pub mod Example
mod Tests
pub mod Breach
pub mod Hours
pub mod Window
pub mod Modes
