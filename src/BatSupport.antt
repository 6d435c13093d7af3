-- ===== src/BatSupport.antt =====
-- core/bat_support_controller.py: discharging the batteries ahead of a breach of the tak.
pub mod Evaluate
pub mod Commands
mod Tests
