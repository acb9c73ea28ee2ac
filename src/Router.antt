-- ===== src/Router.antt =====
-- packages/bridge-daemon/src/routing/application-router.ts: the routes of consumers' requests to the
-- adapters, and what the adapters' notifications change.
pub mod Payload
pub mod Data
pub mod Table
pub mod Requests
pub mod Tabled
pub mod Loops
pub mod Admitted
pub mod Steps
pub mod Reuse
pub mod Notifications
pub mod Foreign
pub mod Routed
pub mod Results
pub mod Modified
pub mod Responses
pub mod Answers
pub mod Edits
pub mod Bounds
pub mod Sending
pub mod Dispatch
pub mod Handle
mod Tests
