-- ===== src/Reconnect.antt =====
-- The connection that comes back: packages/bridge-client/src/connection/reconnecting-connection.ts.
pub mod Data
pub mod Loop
pub mod Handlers
pub mod Closing
pub mod Recovery
mod Tests
