-- ===== src/EvController.antt =====
-- core/ev_controller.py: when the car charges, and with how many amperes.
pub mod Types
pub mod Timers
pub mod Evaluate
pub mod Start
pub mod Ramp
mod Tests
