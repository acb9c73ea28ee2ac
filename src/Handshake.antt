-- ===== src/Handshake.antt =====
-- packages/bridge-daemon/src/session/handshake-processor.ts: the first message of a connection, which
-- authenticates it and settles the version of the protocol.
pub mod Versions
pub mod Order
pub mod Selection
pub mod Processor
pub mod Outcomes
pub mod Total
mod Tests
