-- ===== src/Registry/Updates.antt =====
-- The methods of packages/bridge-daemon/src/session/session-registry.ts that list what is registered,
-- and those by which an adapter changes what it has registered.
use junon.Shared.{
  ℕ, String, Bool, true, false, not, Option, none, some, List, map, leb, ◌==◌, keep, length,
}
use junon.Shared.Maps.{Map, get, has, set, delete, values}
use junon.Registry.Data.{
  consumer, same_role, Session, Connection, Capability, Adapter, WorkspaceRoot, Trust, Workspace,
  WorkspaceStatus, SessionRecord, AdapterRecord, WorkspaceRecord, Registry, adapter_not_found,
  workspace_not_found, permission_denied, precondition_failed, Result, ok, ◌>>=◌, ◌>>◌, refuse_if,
  required,
}
use junon.Registry.Ops.{add_workspace, assert_adapter_ownership, assert_workspace_ownership}

abbrev pub session_count : Registry → ℕ
session_count r = length r.sessions

abbrev pub adapter_count : Registry → ℕ
adapter_count r = length r.adapters

abbrev pub workspace_count : Registry → ℕ
workspace_count r = length r.workspaces

abbrev pub list_sessions : Registry → List Session
list_sessions r = map (λ (s : SessionRecord). s.snapshot) (values r.sessions)

abbrev pub list_adapters : Registry → List Adapter
list_adapters r = map (λ (a : AdapterRecord). a.adapter) (values r.adapters)

-- `adapterId === undefined || workspace.adapterId === adapterId`
wanted : Option String → Workspace → Bool
wanted none w = true
wanted (some adapter_id) w = w.adapter_id == adapter_id

-- `adapterId !== undefined && !this.#adapters.has(adapterId)`
no_adapter : Option String → Registry → Bool
no_adapter none r = false
no_adapter (some adapter_id) r = not (has adapter_id r.adapters)

unfoldable pub list_workspaces : Option String → Registry → Result (List Workspace)
unfolding wanted no_adapter
list_workspaces adapter_id r = do
  refuse_if (no_adapter adapter_id r) adapter_not_found
  ok (keep (wanted adapter_id) (map (λ (w : WorkspaceRecord). w.workspace) (values r.workspaces)))

-- The workspace that is named, if one is, is the adapter's.
unfoldable pub check_named : String → Option String → Registry → Result (Unit {0})
check_named adapter_id none r = ok tt
check_named adapter_id (some workspace_id) r = do
  w ← required (get workspace_id r.workspaces) workspace_not_found
  refuse_if (not (w.workspace.adapter_id == adapter_id)) precondition_failed

unfoldable pub get_capabilities : String → Option String → Registry → Result (Map Capability)
unfolding check_named
get_capabilities adapter_id workspace_id r = do
  a ← required (get adapter_id r.adapters) adapter_not_found
  check_named adapter_id workspace_id r
  ok a.adapter.capabilities

unfoldable pub get_workspace_connection : String → Registry → Result Connection
get_workspace_connection workspace_id r = do
  w ← required (get workspace_id r.workspaces) workspace_not_found
  a ← required (get w.workspace.adapter_id r.adapters) adapter_not_found
  s ← required (get a.session_id r.sessions) adapter_not_found
  ok s.connection

is_consumer : SessionRecord → Bool
is_consumer s = same_role s.snapshot.role consumer

unfoldable pub consumer_connections : Registry → List Connection
unfolding is_consumer
consumer_connections r =
    map (λ (s : SessionRecord). s.connection) (keep is_consumer (values r.sessions))

unfoldable pub update_capabilities : String → String → Map Capability → Registry → Result Registry
update_capabilities session_id adapter_id capabilities r = do
  assert_adapter_ownership session_id adapter_id r
  a ← required (get adapter_id r.adapters) adapter_not_found
  ok (record r {
    adapters =
        set adapter_id (record a { adapter = record a.adapter { capabilities = capabilities } })
          r.adapters;
  })

unfoldable pub open_workspace : String → Workspace → Registry → Result Registry
open_workspace session_id w r = do
  assert_adapter_ownership session_id w.adapter_id r
  refuse_if (has w.workspace_id r.workspaces) precondition_failed
  ok (add_workspace w r)

unfoldable pub close_workspace : String → String → String → Registry → Result Registry
close_workspace session_id workspace_id adapter_id r = do
  assert_adapter_ownership session_id adapter_id r
  w ← assert_workspace_ownership session_id workspace_id r
  refuse_if (not (w.adapter_id == adapter_id)) permission_denied
  ok (record r { workspaces = delete workspace_id r.workspaces })

unfoldable pub update_workspace_roots :
    String → String → String → List WorkspaceRoot → ℕ → Registry → Result Registry
update_workspace_roots session_id workspace_id adapter_id roots epoch r = do
  assert_adapter_ownership session_id adapter_id r
  w ← required (get workspace_id r.workspaces) workspace_not_found
  refuse_if (not (w.workspace.adapter_id == adapter_id)) permission_denied
  refuse_if (leb epoch w.workspace.workspace_epoch) precondition_failed
  ok (record r {
    workspaces =
        set workspace_id
          (record w { workspace = record w.workspace { roots = roots; workspace_epoch = epoch } })
          r.workspaces;
  })

unfoldable pub update_workspace_status : String → WorkspaceStatus → Registry → Result Registry
update_workspace_status session_id status r = do
  _ ← assert_workspace_ownership session_id status.workspace_id r
  w ← required (get status.workspace_id r.workspaces) workspace_not_found
  ok (record r { workspaces = set status.workspace_id (record w { status = status }) r.workspaces })

unfoldable pub update_workspace_trust :
    String → String → String → Trust → Registry → Result Registry
update_workspace_trust session_id workspace_id adapter_id trust r = do
  assert_adapter_ownership session_id adapter_id r
  w ← required (get workspace_id r.workspaces) workspace_not_found
  refuse_if (not (w.workspace.adapter_id == adapter_id)) permission_denied
  ok (record r {
    workspaces =
        set workspace_id (record w { workspace = record w.workspace { trust = trust } })
          r.workspaces;
  })
