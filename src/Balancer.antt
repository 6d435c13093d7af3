-- ===== src/Balancer.antt =====
-- core/balancer.py: `BatteryBalancer`, which splits a power among the batteries.
pub mod Allocate
pub mod Bounds
mod Tests
