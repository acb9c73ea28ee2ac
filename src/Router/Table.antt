-- ===== src/Router/Table.antt =====
-- The table of routes in packages/bridge-daemon/src/routing/application-router.ts: how a route enters
-- it, is cancelled and leaves it.
use junon.Shared.{
  ℕ, zero, suc, String, Bool, true, false, ◌&&◌, ◌||◌, not, Option, none, some, List, [], ◌∷◌, leb,
  ltb, length, ◌==◌, if◌then◌else◌,
}
use junon.Shared.Texts.{after_prefix}
use junon.Shared.Maps.{Map, get, has, set, delete, values, count}
use junon.EditStore.Data.{EditStore}
use junon.EditStore.Removal.{release_plan, release_undo_token}
use junon.Registry.Data.{Workspace, Connection, Capability, unavailable}
use junon.Router.Data.{
  cancelled, EditOperation, no_edit, prepare, apply, discard, undo, Route, Router,
  adapter_disconnected, timeout, Message, cancel_request, error_response, request_key, key_of,
  is_active,
}

unfoldable pub release_operation : EditOperation → EditStore → EditStore
release_operation (apply p) s = release_plan p s
release_operation (discard p) s = release_plan p s
release_operation (undo t) s = release_undo_token t s
release_operation _ s = s

-- `#removeRoute`
unfoldable pub remove_route : Route → Router → Router
remove_route r s = record s {
  routes = delete r.route_id s.routes;
  consumer_requests = delete (key_of r) s.consumer_requests;
  edit_store = release_operation r.edit_operation s.edit_store;
}

-- What `#cancelRoute` and the timer write.
unfoldable pub mark_cancelled : Route → Router → Router
mark_cancelled r s = record s {
  routes = set r.route_id (record r { state = cancelled }) s.routes;
  consumer_requests = delete (key_of r) s.consumer_requests;
}

-- `#cancelRoute`
unfoldable pub cancel_route : Route → Router → List Message × Router
cancel_route r s =
    if is_active r.state
    then (cancel_request r.adapter_session_id r.route_id ∷ [], mark_cancelled r s)
    else ([], s)

-- The timer of a route, at the end of its time.
unfoldable pub expire_route : String → Router → List Message × Router
expire_route route_id s = elim (get route_id s.routes) [
  | none ↦ ([], s)
  | some r ↦
      if is_active r.state
      then (
        error_response r.consumer_session_id r.consumer_id timeout
            ∷ cancel_request r.adapter_session_id r.route_id
            ∷ [],
        mark_cancelled r s,
      )
      else ([], s)
]

-- The timer of a cancelled route, at the end of the grace period.
unfoldable pub forget_route : String → Router → Router
forget_route route_id s = elim (get route_id s.routes) [
  | none ↦ s
  | some r ↦ if is_active r.state then s else remove_route r s
]

-- The notification `$/cancelRequest` of a consumer.
unfoldable pub cancel_by_consumer : String → String → Router → List Message × Router
cancel_by_consumer session_id id s = elim (get (request_key session_id id) s.consumer_requests) [
  | none ↦ ([], s)
  | some route_id ↦ elim (get route_id s.routes) [ none ↦ ([], s) | some r ↦ cancel_route r s ]
]

-- The loop of `#adapterUnavailable`.
unfoldable pub drop_routes_of : String → List Route → Router → List Message × Router
drop_routes_of session_id [] s = ([], s)
drop_routes_of session_id (r ∷ rs) s =
    let gone = drop_routes_of session_id rs (remove_route r s) in
    let kept = drop_routes_of session_id rs s in
    if r.adapter_session_id == session_id
    then if is_active r.state
      then (
        error_response r.consumer_session_id r.consumer_id adapter_disconnected ∷ gone.0,
        gone.1,
      )
      else gone
    else kept

unfoldable pub adapter_unavailable : String → Router → List Message × Router
adapter_unavailable session_id s = drop_routes_of session_id (values s.routes) s

-- `#nextRouteId` with so many attempts left, of texts that the protocol takes as request identifiers.
unfoldable pub next_route_id : ℕ → ℕ → (ℕ → String) → Map Route → Option String
next_route_id zero i draw m = none
next_route_id (suc left) i draw m =
    let later = next_route_id left (suc i) draw m in
    if after_prefix "route_" (draw i) && not (has (draw i) m) then some (draw i) else later

pub record SymbolHandle : Type 0 where
  pub adapter_id : String
  pub session_id : String
  pub valid_until_epoch : ℕ

-- What the router reads of a request.
pub record Asked : Type 0 where
  pub consumer_session_id : String
  pub consumer_id : String
  pub method : String
  pub workspace_id : Option String
  pub handle : Option SymbolHandle
  pub target_document_uri : Option String
  pub search_limit : Option ℕ
  pub edit_operation : EditOperation

unfoldable pub active_of : String → Route → Bool
active_of consumer r = r.consumer_session_id == consumer && is_active r.state

unfoldable pub in_flight_of : String → Router → ℕ
unfolding active_of
in_flight_of consumer s = count (active_of consumer) s.routes

-- The guard on the number of requests in flight.
unfoldable pub is_full : Asked → Router → Bool
is_full q s =
    has (request_key q.consumer_session_id q.consumer_id) s.consumer_requests
    || leb s.max_in_flight (length s.routes)
    || leb s.max_in_flight_per_consumer (in_flight_of q.consumer_session_id s)

unfoldable pub is_unavailable : Option Capability → Bool
is_unavailable none = true
is_unavailable (some c) = elim c.support [ unavailable ↦ true | _ ↦ false ]

unfoldable pub needs_capability : EditOperation → Bool
needs_capability no_edit = true
needs_capability prepare = true
needs_capability _ = false

unfoldable pub is_stale : Workspace → Connection → Option SymbolHandle → Bool
is_stale w c none = false
is_stale w c (some h) =
    not (h.adapter_id == w.adapter_id)
    || not (h.session_id == c.session.session_id)
    || ltb h.valid_until_epoch w.workspace_epoch
