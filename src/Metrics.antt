-- ===== src/Metrics.antt =====
-- packages/bridge-daemon/src/observability/metrics-registry.ts: what the daemon counts of its traffic.
pub mod Data
pub mod Counts
mod Tests
