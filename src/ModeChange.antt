-- ===== src/ModeChange.antt =====
-- core/mode_change.py: the five-step protocol that changes an inverter's mode.
pub mod Types
pub mod Protocol
pub mod Manager
pub mod Diagram
pub mod Termination
pub mod Device
pub mod Simulation
pub mod Standby
pub mod Table
pub mod Requests
mod Tests
