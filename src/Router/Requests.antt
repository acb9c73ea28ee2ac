-- ===== src/Router/Requests.antt =====
-- `#routeRequest` of packages/bridge-daemon/src/routing/application-router.ts, and the end of a session.
-- Whether the schema takes the forwarded request is an argument, and so is `sent`, which is false where the
-- send to the adapter fails before anything else is handled. A send that fails later is in Sending.
use junon.Shared.{ℕ, String, Bool, not, none, some, List, [], ◌∷◌, ◌++◌, ◌==◌, if◌then◌else◌}
use junon.Shared.Results.{Fallible, ok, err, ◌>>=◌, ◌>>◌, refuse_if, required}
use junon.Shared.Maps.{get, set, values}
use junon.EditStore.Removal.{invalidate_session}
use junon.Registry.Data.{Workspace, Connection, Registry}
use junon.Registry.Ops.{get_workspace, close_session}
use junon.Registry.Updates.{get_capabilities, get_workspace_connection}
use junon.Router.Data.{
  active, Route, Router, Refusal, invalid_request, precondition_failed, capability_unavailable,
  stale_symbol, internal_error, adapter_disconnected, no_route_id, Message, error_response, key_of,
  is_active, lift,
}
use junon.Router.Sending.{send_failed}
use junon.Router.Table.{
  remove_route, cancel_route, next_route_id, Asked, is_full, is_unavailable, needs_capability,
  is_stale,
}

unfoldable pub check_capability :
    Asked → String → Workspace → Registry → Fallible Refusal (Unit {0})
unfolding lift
check_capability q workspace_id w r =
    let found = lift (get_capabilities w.adapter_id (some workspace_id) r) >>= λ capabilities.
    refuse_if (is_unavailable (get q.method capabilities)) capability_unavailable in
    if needs_capability q.edit_operation then found else ok tt

unfoldable pub new_route : Asked → String → Connection → String → Route
new_route q workspace_id c route_id = record {
  route_id = route_id;
  method = q.method;
  workspace_id = workspace_id;
  target_document_uri = q.target_document_uri;
  search_limit = q.search_limit;
  consumer_id = q.consumer_id;
  consumer_session_id = q.consumer_session_id;
  adapter_session_id = c.session.session_id;
  state = active;
  edit_operation = q.edit_operation;
}

-- The guards, in their order.
unfoldable pub admit_request : (ℕ → String) → Bool → Asked → Router → Fallible Refusal Route
unfolding new_route
admit_request draw forwards q s = do
  workspace_id ← required q.workspace_id invalid_request
  refuse_if (is_full q s) precondition_failed
  c ← lift (get_workspace_connection workspace_id s.registry)
  w ← lift (get_workspace workspace_id s.registry)
  check_capability q workspace_id w s.registry
  refuse_if (is_stale w c q.handle) stale_symbol
  route_id ← required (next_route_id 16 0 draw s.routes) no_route_id
  refuse_if (not forwards) internal_error
  ok (new_route q workspace_id c route_id)

unfoldable pub add_route : Route → Router → Router
add_route r s = record s {
  routes = set r.route_id r s.routes;
  consumer_requests = set (key_of r) r.route_id s.consumer_requests;
}

unfoldable pub route_request :
    (ℕ → String) → Bool → Bool → Asked → Router → Fallible Refusal String × Router
route_request draw forwards sent q s = elim (admit_request draw forwards q s) [
  | err e ↦ (err e, s)
  | ok r ↦
      if sent
      then (ok r.route_id, add_route r s)
      else (err adapter_disconnected, (send_failed r (add_route r s)).1)
]

-- The loop of `sessionClosed` over the routes.
unfoldable pub close_routes : String → List Route → Router → List Message × Router
close_routes session_id [] s = ([], s)
close_routes session_id (r ∷ rs) s =
    let gone = close_routes session_id rs (remove_route r s) in
    let (sent, s') = cancel_route r s in
    let after = close_routes session_id rs s' in
    let kept = close_routes session_id rs s in
    if r.adapter_session_id == session_id
    then if is_active r.state
      then (
        error_response r.consumer_session_id r.consumer_id adapter_disconnected ∷ gone.0,
        gone.1,
      )
      else gone
    else if r.consumer_session_id == session_id
    then (sent ++ after.0, after.1)
    else kept

-- `sessionClosed`, without the broadcast.
unfoldable pub session_closed : String → Router → List Message × Router
session_closed session_id s =
    let (removed, registry) = close_session session_id s.registry in
    let s' : Router = record s {
      edit_store = invalidate_session session_id s.edit_store;
      registry = registry;
    } in
    elim removed [ none ↦ ([], s') | some gone ↦ close_routes session_id (values s.routes) s' ]
