-- ===== src/Protocol.antt =====
-- The methods of the protocol: packages/protocol/src/application-validation.ts.
pub mod Methods
