-- ===== src/Registry/Routes.antt =====
-- What the routes of the daemon rely on of packages/bridge-daemon/src/session/session-registry.ts: the
-- way to a workspace's adapter, and that no session writes what another one has.
use junon.Shared.{
  String, ◌≡◌, Option, none, some, List, [], arith, Option-cases, ◌⊎◌, inl, inr, ◌==◌,
  if◌then◌else◌,
}
use junon.Shared.Maps.{get, get-delete}
use junon.Registry.Data.{
  adapter, Workspace, Registry, WorkspaceRecord, AdapterRecord, SessionRecord, RemovedSession,
  workspace_not_found, ok, err,
}
use junon.Registry.Ops.{remove_adapter, close_session, workspaces_of}
use junon.Registry.Updates.{get_workspace_connection}
use junon.Registry.Removal.{without, get-delete_own}
use junon.Registry.Consistent.{IsConsistent}

-- The open session of the adapter that a workspace is registered with.
pub record Serves (r : Registry) (w : WorkspaceRecord) (a : AdapterRecord) (s : SessionRecord)
    : Type 0 where
  pub adapter_found : get w.workspace.adapter_id r.adapters ≡ some a
  pub session_open : get a.session_id r.sessions ≡ some s
  pub of_adapter : s.snapshot.role ≡ adapter

-- In a consistent registry, a workspace that is registered has its adapter registered and that adapter's
-- session open, as an adapter's, and a request for the workspace finds the connection of that very
-- session; a request for any other workspace is refused as WORKSPACE_NOT_FOUND.
pub get_workspace_connection-total :
    (workspace_id : String) (r : Registry)
    → IsConsistent r
    → ((get workspace_id r.workspaces ≡ none)
        × (get_workspace_connection workspace_id r ≡ err workspace_not_found))
      ⊎ ((w : WorkspaceRecord) × (a : AdapterRecord) × (s : SessionRecord) × (get workspace_id
              r.workspaces
            ≡ some w)
          × Serves r w a s
          × (get_workspace_connection workspace_id r ≡ ok s.connection))
unfolding get_workspace_connection
get_workspace_connection-total workspace_id r c =
    elim (Option-cases (get workspace_id r.workspaces)) [
      | inl absent ↦ inl (absent, ground (arith, absent))
      | inr (w, found) ↦ elim (Option-cases (get w.workspace.adapter_id r.adapters)) [
        | inl none_there ↦ absurd (ground (arith, none_there, c.wired.based workspace_id w found))
        | inr (a, there) ↦ elim (Option-cases (get a.session_id r.sessions)) [
          | inl gone ↦ absurd (ground (arith, gone, c.serving w.workspace.adapter_id a there))
          | inr (s, opened) ↦
              let role = c.serving w.workspace.adapter_id a there in
              inr (
                w,
                a,
                s,
                found,
                record {
                  adapter_found = there;
                  session_open = opened;
                  of_adapter = ground (arith, opened, role);
                },
                ground (arith, found, there, opened),
              )
        ]
      ]
    ]

-- What the removal of the adapter that a session has, if it has one, leaves of a workspace.
abbrev pub without_own : Option String → Option WorkspaceRecord → Option WorkspaceRecord
without_own none w = w
without_own (some adapter_id) w = without adapter_id w

abbrev pub own_workspaces : Option String → Registry → List Workspace
own_workspaces none r = []
own_workspaces (some adapter_id) r = workspaces_of adapter_id r

-- What the end of a session leaves of an adapter.
abbrev pub unserved : String → Option AdapterRecord → Option AdapterRecord
unserved session_id none = none
unserved session_id (some a) = if a.session_id == session_id then none else some a

-- What is left when a session closes, and what the daemon is told of it.
pub record Closed (session_id : String) (r t : Registry) (gone : RemovedSession) : Type 0 where
  pub sessions :
      (j : String) → get j t.sessions ≡ (if session_id == j then none else get j r.sessions)
  pub adapters : (j : String) → get j t.adapters ≡ unserved session_id (get j r.adapters)
  pub workspaces :
      (j : String)
      → get j t.workspaces ≡ without_own (get session_id r.adapter_by_session) (get j r.workspaces)
  pub told : gone.workspaces ≡ own_workspaces (get session_id r.adapter_by_session) r

-- In a consistent registry, the end of a session ends its adapter and exactly the workspaces of
-- that adapter, which it reports; no other session, adapter or workspace is touched.
pub close_session-Closed :
    (session_id : String) (r : Registry) (gone : RemovedSession)
    → IsConsistent r
    → (close_session session_id r).0 ≡ some gone
    → Closed session_id r (close_session session_id r).1 gone
unfolding close_session remove_adapter
close_session-Closed k r gone c e =
    let x = c.wired in
    elim (Option-cases (get k r.sessions)) [
      | inl absent ↦ absurd (ground (arith, absent))
      | inr (s, found) ↦ elim (Option-cases (get k r.adapter_by_session)) [
        | inl free ↦ record {
          sessions = λ j. ground (arith, found, free, get-delete k j r.sessions);
          adapters = λ j. elim (Option-cases (get j r.adapters)) [
            | inl none_j ↦ ground (arith, found, free, none_j)
            | inr (a, at_j) ↦ ground (arith, found, free, at_j, x.owned j a at_j)
          ];
          workspaces = λ j. ground (arith, found, free);
          told = ground (arith, found, free);
        }
        | inr (own, holds) ↦ elim (Option-cases (get own r.adapters)) [
          | inl missing ↦ absurd (ground (arith, missing, x.held k own holds))
          | inr (o, there) ↦ record {
            sessions = λ j. ground (arith, found, holds, there, get-delete k j r.sessions);
            adapters = λ j. elim (Option-cases (get j r.adapters)) [
              | inl none_j ↦
                  ground (arith, found, holds, there, none_j, get-delete own j r.adapters)
              | inr (a, at_j) ↦ ground (
                arith,
                found,
                holds,
                there,
                at_j,
                x.owned j a at_j,
                x.held k own holds,
                get-delete own j r.adapters,
              )
            ];
            workspaces =
                λ j. ground (arith, found, holds, there, get-delete_own own j r x.keyed x.distinct);
            told = ground (arith, found, holds, there);
          }
        ]
      ]
    ]
