-- ===== src/Registry/Consistent.antt =====
-- How the four maps of packages/bridge-daemon/src/session/session-registry.ts fit together.
pub mod Writes
pub mod Sessions
pub mod Keeps
pub mod Changes
use junon.Shared.{ℕ, String, ◌≡◌, Bool, true, false, Option, none, some, List}
use junon.Shared.Maps.{Map, get, has}
use junon.Shared.Maps.Distinct.{Distinct}
use junon.Registry.Data.{Role, adapter, SessionRecord, AdapterRecord, WorkspaceRecord, Registry}
use junon.Registry.Removal.{Keyed}

abbrev pub holder : Option AdapterRecord → Option String
holder none = none
holder (some a) = some a.session_id

abbrev pub role_of : Option SessionRecord → Option Role
role_of none = none
role_of (some s) = some s.snapshot.role

-- All but the sessions.
pub record IsWired (r : Registry) : Type 0 where
  -- A workspace is stored under its own ID, and its adapter is registered.
  pub keyed : Keyed r.workspaces
  pub distinct : Distinct r.workspaces
  pub based :
      (k : String) (w : WorkspaceRecord)
      → get k r.workspaces ≡ some w
      → has w.workspace.adapter_id r.adapters ≡ true
  -- An adapter is stored under its own ID, and describes its own session.
  pub described :
      (k : String) (a : AdapterRecord)
      → get k r.adapters ≡ some a
      → (a.adapter.adapter_id ≡ k) × (a.adapter.session_id ≡ a.session_id)
  -- The adapters and the sessions that have one are in bijection.
  pub owned :
      (k : String) (a : AdapterRecord)
      → get k r.adapters ≡ some a
      → get a.session_id r.adapter_by_session ≡ some k
  pub held :
      (k j : String) → get k r.adapter_by_session ≡ some j → holder (get j r.adapters) ≡ some k

pub record IsConsistent (r : Registry) : Type 0 where
  pub wired : IsWired r
  -- The session of an adapter is open, and authenticated as an adapter's.
  pub serving :
      (k : String) (a : AdapterRecord)
      → get k r.adapters ≡ some a
      → role_of (get a.session_id r.sessions) ≡ some adapter
