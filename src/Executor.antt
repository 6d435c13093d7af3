-- ===== src/Executor.antt =====
-- core/executor.py: `CommandExecutor`, which carries out the commands of guards and decisions.
pub mod Types
pub mod Monad
pub mod Handlers
pub mod Execute
pub mod Counts
pub mod Cooldown
pub mod Orphans
pub mod Texts
pub mod Site
pub mod Ports
pub mod Simulate
mod Tests
