-- ===== src/Registry.antt =====
-- packages/bridge-daemon/src/session/session-registry.ts: the sessions, the adapters and the workspaces
-- that the daemon knows.
pub mod Data
pub mod Ops
pub mod Updates
pub mod Removal
pub mod Consistent
pub mod Step
pub mod Routes
pub mod Ownership
mod Tests
