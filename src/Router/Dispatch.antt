-- ===== src/Router/Dispatch.antt =====
-- The requests that the router of packages/bridge-daemon/src/routing/application-router.ts answers itself.
use junon.Shared.{
  ℕ, String, Bool, not, Option, List, [], ◌∷◌, ◌++◌, map, keep, contains, if◌then◌else◌,
}
use junon.Shared.Results.{Fallible, ok, err}
use junon.Shared.Maps.{Map}
use junon.Protocol.Methods.{routed_methods}
use junon.EditStore.Removal.{invalidate_session}
use junon.Registry.Data.{
  Session, Connection, Capability, Adapter, Workspace, WorkspaceStatus, RegisterParams,
  RegistryError, Registry,
}
use junon.Registry.Ops.{register_adapter, unregister_adapter, get_workspace, get_workspace_status}
use junon.Registry.Updates.{
  session_count, adapter_count, workspace_count, list_sessions, list_adapters, list_workspaces,
  get_capabilities, consumer_connections,
}
use junon.Router.Data.{Router, of_registry, internal_error, Message, error_response}
use junon.Router.Table.{adapter_unavailable}
use junon.Router.Notifications.{Notification}
use junon.Router.Edits.{Call, EditParams}

-- What the daemon answers itself; its status has the counts of the registry.
pub data Local : Type 0 where
  registered : Adapter × List Workspace → Local
  unregistered : String → Local
  pong : Local
  status : ℕ → ℕ → ℕ → Local
  adapters : List Adapter → Local
  sessions : List Session → Local
  workspaces : List Workspace → Local
  workspace_of : Workspace → Local
  status_of : WorkspaceStatus → Local
  capabilities : Map Capability → Local

-- A message, a result for the request of a session, or a notification to sessions: that an adapter is gone,
-- or one that an adapter has sent.
pub data Output : Type 0 where
  sends : Message → Output
  replies : String → String → Local → Output
  tells_gone : List String → String → Output
  passes_on : List String → Notification → Output

-- A request, as the schema takes it for its method; `routes` is of any method that the daemon does not
-- answer itself.
pub data Request : Type 0 where
  invalid : Request
  registers : RegisterParams → Request
  unregisters : String → Request
  pings gets_status lists_adapters lists_sessions : Request
  lists_workspaces : Option String → Request
  gets_workspace gets_workspace_status : String → Request
  gets_capabilities : String → Option String → Request
  routes : Call → EditParams → Request

abbrev pub method_of : Request → String
method_of invalid = ""
method_of (registers params) = "ide/register"
method_of (unregisters adapter_id) = "ide/unregister"
method_of pings = "ide/ping"
method_of gets_status = "bridge/getStatus"
method_of lists_adapters = "bridge/listAdapters"
method_of lists_sessions = "bridge/listSessions"
method_of (lists_workspaces adapter_id) = "workspace/list"
method_of (gets_workspace workspace_id) = "workspace/get"
method_of (gets_workspace_status workspace_id) = "workspace/getStatus"
method_of (gets_capabilities adapter_id workspace_id) = "ide/getCapabilities"
method_of (routes q params) = q.asked.method

abbrev pub plan_store_methods : List String
plan_store_methods =
    "refactor/prepare" ∷ "refactor/prepareRename" ∷ "workspace/applyPlan" ∷ "workspace/discardPlan"
    ∷ "workspace/undo" ∷ []

-- `ROUTED_METHODS` of the router.
unfoldable pub plain_routed_methods : List String
plain_routed_methods =
    keep (λ (method : String). not (contains method plan_store_methods)) routed_methods

-- Whether the schema takes a result.
pub record Outside : Type 0 where
  pub accepts : Local → Bool

abbrev pub consumer_ids : Registry → List String
consumer_ids r = map (λ (c : Connection). c.session.session_id) (consumer_connections r)

-- `#sendResult` and `#sendMappedError`, of what a method of the registry returns.
unfoldable pub reply : Outside → String → String → Fallible RegistryError Local → List Output
reply k session_id id (err e) = sends (error_response session_id id (of_registry e)) ∷ []
reply k session_id id (ok result) =
    if k.accepts result
    then replies session_id id result ∷ []
    else sends (error_response session_id id internal_error) ∷ []

unfoldable pub unregister_from :
    Outside
    → String
    → String
    → String
    → Fallible RegistryError Registry
    → Router
    → List Output × Router
unregister_from k session_id id adapter_id (err e) s = (reply k session_id id (err e), s)
unregister_from k session_id id adapter_id (ok r) s =
    let s' : Router = record s {
      registry = r;
      edit_store = invalidate_session session_id s.edit_store;
    } in
    let (sent, t) = adapter_unavailable session_id s' in
    let told : List Output =
      if k.accepts (unregistered adapter_id)
      then tells_gone (consumer_ids t.registry) adapter_id ∷ []
      else [] in
    (map sends sent ++ reply k session_id id (ok (unregistered adapter_id)) ++ told, t)

abbrev pub registry_left {ℓ} :
    {A : Type ℓ} → Fallible RegistryError (A × Registry) → Fallible RegistryError Registry
registry_left (err e) = err e
registry_left (ok (a, r)) = ok r

unfoldable pub register_with :
    Outside
    → String
    → String
    → Fallible RegistryError ((Adapter × List Workspace) × Registry)
    → Router
    → List Output × Router
register_with k session_id id (err e) s = (reply k session_id id (err e), s)
register_with k session_id id (ok (result, r)) s =
    (reply k session_id id (ok (registered result)), record s { registry = r })

-- `#handleAdapterRequest`
unfoldable pub handle_adapter_request :
    Outside → String → String → Request → Router → List Output × Router
handle_adapter_request k session_id id (registers params) s =
    register_with k session_id id (register_adapter session_id params s.registry) s
handle_adapter_request k session_id id (unregisters adapter_id) s =
    unregister_from k session_id id adapter_id
      (registry_left (unregister_adapter session_id adapter_id s.registry)) s
handle_adapter_request k session_id id pings s = (reply k session_id id (ok pong), s)
handle_adapter_request k session_id id _ s = ([], s)

abbrev pub as_local {ℓ} :
    {A : Type ℓ} → (A → Local) → Fallible RegistryError A → Fallible RegistryError Local
as_local f (err e) = err e
as_local f (ok a) = ok (f a)

-- `#handleConsumerLocalRequest`, which changes nothing.
unfoldable pub handle_consumer_local_request :
    Outside → String → String → Request → Registry → List Output
handle_consumer_local_request k session_id id gets_status r =
    reply k session_id id (ok (status (adapter_count r) (workspace_count r) (session_count r)))
handle_consumer_local_request k session_id id lists_adapters r =
    reply k session_id id (ok (adapters (list_adapters r)))
handle_consumer_local_request k session_id id lists_sessions r =
    reply k session_id id (ok (sessions (list_sessions r)))
handle_consumer_local_request k session_id id (lists_workspaces adapter_id) r =
    reply k session_id id (as_local workspaces (list_workspaces adapter_id r))
handle_consumer_local_request k session_id id (gets_workspace workspace_id) r =
    reply k session_id id (as_local workspace_of (get_workspace workspace_id r))
handle_consumer_local_request k session_id id (gets_workspace_status workspace_id) r =
    reply k session_id id (as_local status_of (get_workspace_status workspace_id r))
handle_consumer_local_request k session_id id (gets_capabilities adapter_id workspace_id) r =
    reply k session_id id (as_local capabilities (get_capabilities adapter_id workspace_id r))
handle_consumer_local_request k session_id id _ r = []
