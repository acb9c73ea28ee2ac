-- ===== src/Router/Data.antt =====
-- The state of `ApplicationRouter` in packages/bridge-daemon/src/routing/application-router.ts.
use junon.Shared.{ℕ, String, Bool, true, false, Option}
use junon.Shared.Results.{Fallible, ok, err}
use junon.Shared.Maps.{Map}
use junon.EditStore.Data.{StoreError, StoredPlan, StoredUndoToken, EditStore}
use junon.EditStore.Removal.{internal_key}
use junon.Registry.Data.{Registry, RegistryError}
use junon.Metrics.Data.{Metrics}
use junon.Router.Payload.{Response}

pub data RouteState : Type 0 where
  active cancelled : RouteState

pub data EditOperation : Type 0 where
  no_edit prepare : EditOperation
  apply discard : StoredPlan → EditOperation
  undo : StoredUndoToken → EditOperation

-- A connection is the session that it serves.
pub record Route : Type 0 where
  pub route_id : String
  pub method : String
  pub workspace_id : String
  pub target_document_uri : Option String
  pub search_limit : Option ℕ
  pub consumer_id : String
  pub consumer_session_id : String
  pub adapter_session_id : String
  pub state : RouteState
  pub edit_operation : EditOperation

pub record Router : Type 0 where
  pub registry : Registry
  pub edit_store : EditStore
  pub routes : Map Route
  pub consumer_requests : Map String
  pub max_in_flight : ℕ
  pub max_in_flight_per_consumer : ℕ
  pub metrics : Metrics

pub data Refusal : Type 0 where
  invalid_request precondition_failed capability_unavailable stale_symbol internal_error : Refusal
  adapter_disconnected timeout no_route_id provider_failed : Refusal
  of_registry : RegistryError → Refusal
  of_store : StoreError → Refusal

-- What is sent: a cancellation to an adapter's session, an error of the daemon or an adapter's response
-- to a consumer's, or the code that closes a session's connection.
pub data Message : Type 0 where
  cancel_request : String → String → Message
  error_response : String → String → Refusal → Message
  response : String → String → Response → Message
  close_connection : String → ℕ → Message

-- The template of `requestKey` is that of the edit store's keys; the ID stands with its type.
unfoldable pub request_key : String → String → String
request_key session_id id = internal_key session_id id

abbrev pub key_of : Route → String
key_of r = request_key r.consumer_session_id r.consumer_id

abbrev pub is_active : RouteState → Bool
is_active active = true
is_active cancelled = false

-- An error of the registry, as the router answers it.
unfoldable pub lift {ℓ} : {A : Type ℓ} → Fallible RegistryError A → Fallible Refusal A
lift (err e) = err (of_registry e)
lift (ok a) = ok a
