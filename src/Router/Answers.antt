-- ===== src/Router/Answers.antt =====
-- `#handleResponse` of packages/bridge-daemon/src/routing/application-router.ts: what an adapter's response
-- does to its route, and what the consumer is sent. A send that fails is not told apart.
pub mod Settled
pub mod Foreign
pub mod Repeated
use junon.Shared.{
  ℕ, zero, suc, ◌+◌, String, Bool, true, false, ◌&&◌, ◌||◌, not, Option, none, some, List, [], ◌∷◌,
  ◌==◌, if◌then◌else◌,
}
use junon.Shared.Results.{Fallible, ok, err}
use junon.Shared.Maps.{get}
use junon.Shared.Json.{Json, Fields, as_record, as_text, get_field}
use junon.Uri.{UrlPlatform}
use junon.Registry.Data.{Connection, adapter, same_role}
use junon.Metrics.Data.{Metrics, record_refusal, record_incomplete}
use junon.Router.Payload.{Result, Response, failure, success}
use junon.Router.Data.{
  EditOperation, no_edit, prepare, apply, discard, undo, Route, Router, Refusal, provider_failed,
  Message, error_response, response, close_connection, is_active,
}
use junon.Router.Table.{remove_route}
use junon.Router.Bounds.{routed_symbols_within_bounds, max_routed_document_symbols}
use junon.Router.Results.{is_symbol_method, is_location_method, assert_routed_document_result}
use junon.Router.Responses.{transform_edit_response, transform_edit_error_response}

abbrev pub is_edit : EditOperation → Bool
is_edit no_edit = false
is_edit _ = true

-- `refusalCode` and `carriesTruncation`, counted.
unfoldable pub count_response : String → Response → Metrics → Metrics
count_response method (failure code details) m = record_refusal code (some method) m
count_response method (success result) m =
    if result.truncated then record_incomplete method m else m

-- The consumer is told that the provider failed, and the adapter's connection is closed.
abbrev pub refusing : String → Route → List Message
refusing session_id r =
    error_response r.consumer_session_id r.consumer_id provider_failed
    ∷ close_connection session_id 1008
    ∷ []

abbrev pub holds_bounds : Option Bool → Bool
holds_bounds none = false
holds_bounds (some b) = b

-- A payload of symbols that is too large.
unfoldable pub is_unbounded : String → Fields → Bool
is_unbounded method value =
    (is_symbol_method method || is_location_method method)
    && not (holds_bounds (routed_symbols_within_bounds (max_routed_document_symbols + 1) value))

-- What is not of the router: the platform, the validator (what a payload is as a response of a method, and
-- whether a rewritten response is one), the texts that the stores draw, and the times of their two readings.
pub record Setting : Type 0 where
  pub platform : UrlPlatform
  pub parse : String → Fields → Option Response
  pub accepts : String → Response → Bool
  pub draw : ℕ → String
  pub swept_at : ℕ
  pub now : ℕ

unfoldable pub transformed :
    Setting → Route → Response → Router → Fallible Refusal Response × Router
transformed k r (failure code details) s =
    if is_edit r.edit_operation
    then (transform_edit_error_response k.platform r code details s.registry, s)
    else (ok (failure code details), s)
transformed k r (success result) s =
    if is_edit r.edit_operation
    then transform_edit_response k.platform k.draw k.swept_at k.now r result s
    else (ok (success result), s)

unfoldable pub deliver :
    Setting → String → Route → Fallible Refusal Response → Router → List Message × Router
deliver k session_id r (err e) s = (refusing session_id r, s)
deliver k session_id r (ok answer) s =
    if k.accepts r.method answer
    then (
      response r.consumer_session_id r.consumer_id answer ∷ [],
      record s { metrics = count_response r.method answer s.metrics },
    )
    else (refusing session_id r, s)

-- The route is removed before the response is rewritten.
unfoldable pub finish_route : Setting → String → Route → Response → Router → List Message × Router
finish_route k session_id r answer s₀ =
    let s = remove_route r s₀ in
    let (changed, s') = transformed k r answer s in
    if is_active r.state then deliver k session_id r changed s' else ([], s)

unfoldable pub assert_answer : Setting → Route → Response → Router → Fallible Refusal (Unit {0})
assert_answer k r (failure code details) s = ok tt
assert_answer k r (success result) s = assert_routed_document_result k.platform r result s.registry

unfoldable pub handle_route : Setting → String → Route → Fields → Router → List Message × Router
handle_route k session_id r value s =
    if is_unbounded r.method value
    then (refusing session_id r, remove_route r s)
    else elim (k.parse r.method value) [
      | none ↦ (close_connection session_id 1002 ∷ [], s)
      | some answer ↦ elim (assert_answer k r answer s) [
        | err e ↦ (refusing session_id r, remove_route r s)
        | ok done ↦ finish_route k session_id r answer s
      ]
    ]

-- The route that a response names, if it is of this session.
unfoldable pub find_route : Connection → Fields → Router → Option Route
find_route c value s =
    let named : Option String = elim (get_field "id" value) [ none ↦ none | some v ↦ as_text v ] in
    elim named [
      | none ↦ none
      | some id ↦ elim (get id s.routes) [
        | none ↦ none
        | some r ↦ if r.adapter_session_id == c.session.session_id then some r else none
      ]
    ]

unfoldable pub handle_response : Setting → Connection → Json → Router → List Message × Router
handle_response k c value s =
    let closing : List Message = close_connection c.session.session_id 1002 ∷ [] in
    let answered : List Message × Router = elim (as_record value) [
      | none ↦ (closing, s)
      | some fields ↦ elim (find_route c fields s) [
        | none ↦ (closing, s)
        | some r ↦ handle_route k c.session.session_id r fields s
      ]
    ] in
    if same_role c.session.role adapter then answered else (closing, s)
