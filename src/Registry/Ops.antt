-- ===== src/Registry/Ops.antt =====
-- The methods of packages/bridge-daemon/src/session/session-registry.ts. A method that throws has
-- written nothing, so one that writes returns the new registry or the error.
use junon.Shared.{
  String, Bool, ◌||◌, not, Option, none, some, List, [], ◌∷◌, map, ◌==◌, contains, add, keep,
  if◌then◌else◌,
}
use junon.Shared.Maps.{Map, get, has, set, delete, values}
use junon.Registry.Data.{
  Role, adapter, same_role, Session, Connection, Adapter, Workspace, WorkspaceStatus,
  RegisterParams, AdapterRecord, WorkspaceRecord, RemovedSession, Registry, adapter_not_found,
  workspace_not_found, permission_denied, precondition_failed, Result, ok, err, ◌>>=◌, ◌>>◌,
  refuse_if,
}

unfoldable pub open_session : Connection → Registry → Result Registry
open_session connection r =
    if has connection.session.session_id r.sessions
    then err precondition_failed
    else ok (record r {
      sessions =
          set connection.session.session_id
            (record { connection = connection; snapshot = connection.session }) r.sessions;
    })

-- `touch` at a time whose ISO text is `now`.
unfoldable pub touch : String → String → Registry → Result Registry
touch now session_id r = elim (get session_id r.sessions) [
  | none ↦ err permission_denied
  | some s ↦ ok (record r {
    sessions =
        set session_id (record s { snapshot = record s.snapshot { last_activity_at = now } })
          r.sessions;
  })
]

abbrev pub of_adapter : String → Workspace → Bool
of_adapter adapter_id w = w.adapter_id == adapter_id

-- The workspaces of an adapter, in the order in which they were opened.
unfoldable pub workspaces_of : String → Registry → List Workspace
workspaces_of adapter_id r =
    keep (of_adapter adapter_id) (map (λ (w : WorkspaceRecord). w.workspace) (values r.workspaces))

unfoldable pub delete_all : List Workspace → Map WorkspaceRecord → Map WorkspaceRecord
delete_all [] m = m
delete_all (w ∷ ws) m = delete_all ws (delete w.workspace_id m)

-- `#removeAdapter`
unfoldable pub remove_adapter : String → Registry → List Workspace × Registry
unfolding workspaces_of delete_all
remove_adapter adapter_id r = elim (get adapter_id r.adapters) [
  | none ↦ ([], r)
  | some a ↦
      let gone = workspaces_of adapter_id r in
      (
        gone,
        record r {
          workspaces = delete_all gone r.workspaces;
          adapters = delete adapter_id r.adapters;
          adapter_by_session = delete a.session_id r.adapter_by_session;
        },
      )
]

adapter_of : Option AdapterRecord → Option Adapter
adapter_of none = none
adapter_of (some a) = some a.adapter

unfoldable pub close_session : String → Registry → Option RemovedSession × Registry
unfolding adapter_of
close_session session_id r = elim (get session_id r.sessions) [
  | none ↦ (none, r)
  | some s ↦
      let r' : Registry = record r { sessions = delete session_id r.sessions } in
      elim (get session_id r.adapter_by_session) [
        | none ↦ (some (record { session = s.snapshot; adapter = none; workspaces = [] }), r')
        | some adapter_id ↦
            let (gone, r'') = remove_adapter adapter_id r' in
            (
              some (record {
                session = s.snapshot;
                adapter = adapter_of (get adapter_id r.adapters);
                workspaces = gone;
              }),
              r'',
            )
      ]
]

unfoldable pub require_session_role : String → Role → Registry → Result Session
require_session_role session_id role r = elim (get session_id r.sessions) [
  | none ↦ err permission_denied
  | some s ↦ if not (same_role s.snapshot.role role) then err permission_denied else ok s.snapshot
]

abbrev pub new_workspace_record : Workspace → WorkspaceRecord
new_workspace_record w = record {
  workspace = w;
  status = record {
    workspace_id = w.workspace_id;
    state = "initializing";
    capabilities_unavailable = [];
    progress = none;
  };
}

-- `#addWorkspace`
unfoldable pub add_workspace : Workspace → Registry → Registry
add_workspace w r = record r {
  workspaces = set w.workspace_id (new_workspace_record w) r.workspaces;
}

unfoldable pub add_workspaces : List Workspace → Registry → Registry
add_workspaces [] r = r
add_workspaces (w ∷ ws) r = add_workspaces ws (add_workspace w r)

-- The loop of `registerAdapter` over the workspaces, with the IDs of those before.
unfoldable pub check_workspaces :
    String → List String → List Workspace → Registry → Result (Unit {0})
check_workspaces adapter_id seen [] r = ok tt
check_workspaces adapter_id seen (w ∷ ws) r =
    refuse_if
      (not (w.adapter_id == adapter_id)
        || contains w.workspace_id seen
        || has w.workspace_id r.workspaces)
      precondition_failed
    >> check_workspaces adapter_id (add w.workspace_id seen) ws r

abbrev pub new_adapter : String → Session → RegisterParams → Adapter
new_adapter session_id session params = record {
  adapter_id = params.adapter_id;
  session_id = session_id;
  name = params.name;
  version = params.version;
  ide_kind = params.ide_kind;
  ide_version = params.ide_version;
  position_encodings = params.position_encodings;
  capabilities = params.capabilities;
  connected_at = session.connected_at;
}

unfoldable pub register_adapter :
    String → RegisterParams → Registry → Result ((Adapter × List Workspace) × Registry)
register_adapter session_id params r = do
  session ← require_session_role session_id adapter r
  refuse_if (has session_id r.adapter_by_session || has params.adapter_id r.adapters)
      precondition_failed
  check_workspaces params.adapter_id [] params.workspaces r
  ok (
    (new_adapter session_id session params, params.workspaces),
    add_workspaces params.workspaces (record r {
      adapters =
          set params.adapter_id
            (record { adapter = new_adapter session_id session params; session_id = session_id })
            r.adapters;
      adapter_by_session = set session_id params.adapter_id r.adapter_by_session;
    }),
  )

unfoldable pub assert_adapter_ownership : String → String → Registry → Result (Unit {0})
assert_adapter_ownership session_id adapter_id r = elim (get adapter_id r.adapters) [
  | none ↦ err adapter_not_found
  | some a ↦ if not (a.session_id == session_id) then err permission_denied else ok tt
]

unfoldable pub unregister_adapter : String → String → Registry → Result (List Workspace × Registry)
unregister_adapter session_id adapter_id r = do
  assert_adapter_ownership session_id adapter_id r
  ok (remove_adapter adapter_id r)

unfoldable pub get_workspace : String → Registry → Result Workspace
get_workspace workspace_id r = elim (get workspace_id r.workspaces) [
  | none ↦ err workspace_not_found
  | some w ↦ ok w.workspace
]

unfoldable pub get_workspace_status : String → Registry → Result WorkspaceStatus
get_workspace_status workspace_id r = elim (get workspace_id r.workspaces) [
  | none ↦ err workspace_not_found
  | some w ↦ ok w.status
]

unfoldable pub assert_workspace_ownership : String → String → Registry → Result Workspace
unfolding get_workspace
assert_workspace_ownership session_id workspace_id r = do
  workspace ← get_workspace workspace_id r
  assert_adapter_ownership session_id workspace.adapter_id r
  ok workspace
