-- ===== src/Client.antt =====
-- The client's end of a connection: packages/bridge-client/src/connection/json-rpc-engine.ts.
pub mod Data
pub mod Requests
pub mod Inbound
pub mod Handlers
pub mod Step
pub mod Settled
pub mod Listeners
pub mod Drawings
mod Tests
