-- ===== src/Surplus.antt =====
-- core/surplus_dispatch.py: which consumers to start or stop on a surplus of PV power.
pub mod Dispatch
pub mod Limits
pub mod Actions
pub mod Decisions
mod Tests
