-- ===== src/NightEv.antt =====
-- core/ev_night_controller.py: charging the car in the night window.
pub mod Evaluate
pub mod Amps
mod Tests
