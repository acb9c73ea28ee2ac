-- ===== src/Router/Handle.antt =====
-- `handle` of packages/bridge-daemon/src/routing/application-router.ts: a message of a session is a request,
-- which the daemon answers itself or routes, a notification or a response.
pub mod Awaits
pub mod Answered
pub mod Tables
use junon.Shared.{
  ℕ, String, Bool, true, false, not, Option, none, some, List, [], ◌∷◌, ◌++◌, ◌&&◌, map, contains,
  if◌then◌else◌,
}
use junon.Shared.Results.{Fallible, ok, err}
use junon.Shared.Json.{Json}
use junon.Protocol.Methods.{adapter_originated_methods, consumer_local_methods}
use junon.Uri.{UrlPlatform}
use junon.Registry.Data.{Role, adapter, consumer, same_role, Connection, RegistryError}
use junon.Registry.Ops.{touch}
use junon.Router.Data.{
  no_edit, Router, Refusal, of_registry, invalid_request, internal_error, no_route_id, Message,
  error_response, close_connection,
}
use junon.Router.Table.{Asked, cancel_by_consumer}
use junon.Router.Requests.{route_request}
use junon.Router.Notifications.{Notification, apply_notification}
use junon.Router.Edits.{Call, EditParams, route_edit_request}
use junon.Router.Answers.{Setting, handle_response}
use junon.Router.Dispatch.{
  Output, sends, passes_on, Request, invalid, routes, method_of, plan_store_methods,
  plain_routed_methods, Outside, consumer_ids, handle_adapter_request,
  handle_consumer_local_request,
}

abbrev pub asked_by : String → String → Asked → Asked
asked_by session_id id q = record q {
  consumer_session_id = session_id;
  consumer_id = id;
  edit_operation = no_edit;
}

abbrev pub called_by : String → String → Call → Call
called_by session_id id q = record q {
  asked = record q.asked { consumer_session_id = session_id; consumer_id = id };
}

-- What a consumer is sent by `#routeRequest`; where `#nextRouteId` throws, its connection is closed.
abbrev pub route_answer : String → String → Fallible Refusal String → List Output
route_answer session_id id (ok route_id) = []
route_answer session_id id (err no_route_id) = sends (close_connection session_id 1011) ∷ []
route_answer session_id id (err e) = sends (error_response session_id id e) ∷ []

-- What it is sent by `#routeEditRequest`, which catches what is thrown.
abbrev pub edit_answer : String → String → Fallible Refusal String → List Output
edit_answer session_id id (ok route_id) = []
edit_answer session_id id (err no_route_id) =
    sends (error_response session_id id internal_error) ∷ []
edit_answer session_id id (err e) = sends (error_response session_id id e) ∷ []

abbrev pub edit_answers : String → String → Option (Fallible Refusal String) → List Output
edit_answers session_id id none = []
edit_answers session_id id (some answer) = edit_answer session_id id answer

abbrev pub as_routed : Request → Option (Call × EditParams)
as_routed (routes q params) = some (q, params)
as_routed _ = none

unfoldable pub handle_routed : String → String → Request → Router → List Output × Router
handle_routed session_id id request s = elim (as_routed request) [
  | none ↦ ([], s)
  | some (q, params) ↦
      let (answer, t) = route_request q.draw q.forwards q.sent (asked_by session_id id q.asked) s in
      (route_answer session_id id answer, t)
]

unfoldable pub handle_edit : String → String → Request → Router → List Output × Router
handle_edit session_id id request s = elim (as_routed request) [
  | none ↦ ([], s)
  | some (q, params) ↦
      let (answer, t) = route_edit_request (called_by session_id id q) params s in
      (edit_answers session_id id answer, t)
]

abbrev pub refused_as : String → String → Refusal → Router → List Output × Router
refused_as session_id id e s = (sends (error_response session_id id e) ∷ [], s)

-- `#handleRequest`, of a request that the schema takes.
unfoldable pub handle_valid :
    Outside → Role → String → String → Request → Router → List Output × Router
handle_valid k role session_id id q s =
    if same_role role adapter && contains (method_of q) adapter_originated_methods
    then handle_adapter_request k session_id id q s
    else if same_role role consumer && contains (method_of q) consumer_local_methods
    then (handle_consumer_local_request k session_id id q s.registry, s)
    else if same_role role consumer && contains (method_of q) plain_routed_methods
    then handle_routed session_id id q s
    else if same_role role consumer && contains (method_of q) plan_store_methods
    then handle_edit session_id id q s
    else refused_as session_id id (of_registry RegistryError.permission_denied) s

abbrev pub is_invalid : Request → Bool
is_invalid invalid = true
is_invalid _ = false

-- `#handleRequest`
unfoldable pub handle_request :
    Outside → Connection → String → Request → Router → List Output × Router
handle_request k c id q s =
    if is_invalid q
    then refused_as c.session.session_id id invalid_request s
    else handle_valid k c.session.role c.session.session_id id q s

-- A notification, as the schema takes it.
pub data Notice : Type 0 where
  invalid_notice : Notice
  cancels : String → Notice
  disconnected : Notice
  changes : Notification → Notice

abbrev pub closing : String → ℕ → Router → List Output × Router
closing session_id code s = (sends (close_connection session_id code) ∷ [], s)

abbrev pub passed_on :
    String → Notification → Fallible Refusal (Unit {0}) × Router → List Output × Router
passed_on session_id n (err e, s) = closing session_id 1008 s
passed_on session_id n (ok done, s) = (passes_on (consumer_ids s.registry) n ∷ [], s)

-- `#handleNotification`
unfoldable pub handle_notification :
    UrlPlatform → Connection → Notice → Router → List Output × Router
handle_notification platform c invalid_notice s = closing c.session.session_id 1002 s
handle_notification platform c (cancels id) s =
    let (sent, t) = cancel_by_consumer c.session.session_id id s in
    if same_role c.session.role consumer
    then (map sends sent, t)
    else closing c.session.session_id 1008 s
handle_notification platform c disconnected s = closing c.session.session_id 1008 s
handle_notification platform c (changes n) s =
    if same_role c.session.role adapter
    then passed_on c.session.session_id n (apply_notification platform c.session.session_id n s)
    else closing c.session.session_id 1008 s

pub data Incoming : Type 0 where
  request : String → Request → Incoming
  notification : Notice → Incoming
  response_of : Json → Incoming

unfoldable pub handle_touched :
    Outside → Setting → Connection → Incoming → Router → List Output × Router
handle_touched k g c (request id q) s = handle_request k c id q s
handle_touched k g c (notification n) s = handle_notification g.platform c n s
handle_touched k g c (response_of value) s =
    let (sent, t) = handle_response g c value s in (map sends sent, t)

-- `handle`, at a time whose text is `at`; a session that is not there has its connection closed.
unfoldable pub handle :
    Outside → Setting → String → Connection → Incoming → Router → List Output × Router
handle k g at c message s = elim (touch at c.session.session_id s.registry) [
  | err e ↦ closing c.session.session_id 1011 s
  | ok r ↦ handle_touched k g c message (record s { registry = r })
]
