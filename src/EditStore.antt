-- ===== src/EditStore.antt =====
-- packages/bridge-daemon/src/plan/in-memory-edit-store.ts: the two-phase edit plans and the undo
-- tokens that the daemon keeps between a consumer's preparation of an edit and its application.
pub mod Data
pub mod Ids
pub mod Removal
pub mod Plans
pub mod Undo
pub mod Admission
pub mod Shrinks
pub mod Step
pub mod Bounds
pub mod Indexed
pub mod Reservation
pub mod Lifecycle
mod Tests
