-- ===== src/Cli.antt =====
-- packages/cli/src/arguments.ts: the command line.
pub mod Arguments
pub mod RoundTrip
mod Tests
