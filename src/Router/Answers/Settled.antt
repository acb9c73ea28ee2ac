-- ===== src/Router/Answers/Settled.antt =====
-- What an adapter's response does to the table of routes
-- (packages/bridge-daemon/src/routing/application-router.ts).
use junon.Shared.{
  ℕ, String, ◌≡◌, refl, Bool, true, false, ◌||◌, some, List, [], ◌∷◌, arith, ◌==◌, if◌then◌else◌,
  Bool-cases, inl, inr,
}
use junon.Shared.Results.{ok, err, Result-cases}
use junon.Shared.Maps.{get, delete}
use junon.Shared.Json.{object, text, Fields, get_field}
use junon.Uri.{UrlPlatform}
use junon.Registry.Data.{Connection, adapter, same_role}
use junon.Router.Payload.{Result, Response, failure, success}
use junon.Router.Data.{
  EditOperation, no_edit, prepare, apply, discard, undo, Route, Router, Message, cancel_request,
  error_response, response, close_connection, key_of, is_active,
}
use junon.Router.Table.{remove_route}
use junon.Router.Responses.{
  transform_by, transform_edit_response, transform_modified, transform_prepared,
}
use junon.Router.Answers.{
  Setting, is_edit, is_unbounded, transformed, deliver, finish_route, assert_answer, handle_route,
  find_route, handle_response,
}

-- The requests that the messages answer, by their sessions and IDs.
unfoldable pub answers : List Message → List (String × String)
answers [] = []
answers (cancel_request session_id id ∷ ms) = answers ms
answers (error_response session_id id e ∷ ms) = (session_id, id) ∷ answers ms
answers (response session_id id r ∷ ms) = (session_id, id) ∷ answers ms
answers (close_connection session_id code ∷ ms) = answers ms

-- Two routers with the same registry, routes and requests.
pub record SameTable (s t : Router) : Type 0 where
  pub registry : t.registry ≡ s.registry
  pub routes : t.routes ≡ s.routes
  pub consumer_requests : t.consumer_requests ≡ s.consumer_requests
  pub max_in_flight : t.max_in_flight ≡ s.max_in_flight
  pub max_in_flight_per_consumer : t.max_in_flight_per_consumer ≡ s.max_in_flight_per_consumer

pub same : (s : Router) → SameTable s s
same s = record {
  registry = refl;
  routes = refl;
  consumer_requests = refl;
  max_in_flight = refl;
  max_in_flight_per_consumer = refl;
}

module _ (platform : UrlPlatform) (draw : ℕ → String) (swept_at now : ℕ) where
  transform_prepared-SameTable :
      (r : Route) (result : Result) (s : Router)
      → SameTable s (transform_prepared platform draw swept_at now r result s).1
  unfolding transform_prepared
  transform_prepared-SameTable r result s = record {
    registry = ground arith;
    routes = ground arith;
    consumer_requests = ground arith;
    max_in_flight = ground arith;
    max_in_flight_per_consumer = ground arith;
  }

  transform_modified-SameTable :
      (r : Route) (result : Result) (s : Router)
      → SameTable s (transform_modified platform draw swept_at now r result s).1
  unfolding transform_modified
  transform_modified-SameTable r result s = record {
    registry = ground arith;
    routes = ground arith;
    consumer_requests = ground arith;
    max_in_flight = ground arith;
    max_in_flight_per_consumer = ground arith;
  }

  transform_by-SameTable :
      (o : EditOperation) (r : Route) (result : Result) (s : Router)
      → SameTable s (transform_by o platform draw swept_at now r result s).1
  unfolding transform_by
  transform_by-SameTable no_edit r result s = transform_modified-SameTable r result s
  transform_by-SameTable prepare r result s = transform_prepared-SameTable r result s
  transform_by-SameTable (apply p) r result s = transform_modified-SameTable r result s
  transform_by-SameTable (discard p) r result s = same s
  transform_by-SameTable (undo t) r result s = transform_modified-SameTable r result s

transformed-SameTable :
    (k : Setting) (r : Route) (answer : Response) (s : Router)
    → SameTable s (transformed k r answer s).1
unfolding transformed transform_edit_response
transformed-SameTable k r (failure code details) s = elim (Bool-cases (is_edit r.edit_operation)) [
  | inl edit ↦ rw edit (same s)
  | inr plain ↦ rw plain (same s)
]
transformed-SameTable k r (success result) s = elim (Bool-cases (is_edit r.edit_operation)) [
  | inl edit ↦
      rw edit
        (transform_by-SameTable k.platform k.draw k.swept_at k.now r.edit_operation r result s)
  | inr plain ↦ rw plain (same s)
]

-- What a response leaves of the table: all but its route and what is recorded under its key.
pub record Settles (r : Route) (s t : Router) : Type 0 where
  pub registry : t.registry ≡ s.registry
  pub routes : t.routes ≡ delete r.route_id s.routes
  pub consumer_requests : t.consumer_requests ≡ delete (key_of r) s.consumer_requests
  pub max_in_flight : t.max_in_flight ≡ s.max_in_flight
  pub max_in_flight_per_consumer : t.max_in_flight_per_consumer ≡ s.max_in_flight_per_consumer

pub remove_route-Settles : (r : Route) (s : Router) → Settles r s (remove_route r s)
unfolding remove_route
remove_route-Settles r s = record {
  registry = refl;
  routes = refl;
  consumer_requests = refl;
  max_in_flight = refl;
  max_in_flight_per_consumer = refl;
}

pub finish_route-Settles :
    (k : Setting) (session_id : String) (r : Route) (answer : Response) (s : Router)
    → Settles r s (finish_route k session_id r answer s).1
unfolding finish_route deliver
finish_route-Settles k session_id r answer s =
    let left = transformed-SameTable k r answer (remove_route r s) in
    let gone = remove_route-Settles r s in
    record {
      registry = ground (arith, left, gone);
      routes = ground (arith, left, gone);
      consumer_requests = ground (arith, left, gone);
      max_in_flight = ground (arith, left, gone);
      max_in_flight_per_consumer = ground (arith, left, gone);
    }

finish_route-answers :
    (k : Setting) (session_id : String) (r : Route) (answer : Response) (s : Router)
    → answers (finish_route k session_id r answer s).0
      ≡ (if is_active r.state then (r.consumer_session_id, r.consumer_id) ∷ [] else [])
unfolding finish_route deliver answers
finish_route-answers k session_id r answer s = ground arith

-- The payload is refused before its route's state is looked at.
unfoldable pub is_refused : Setting → Route → Fields → Response → Router → Bool
is_refused k r value answer s =
    is_unbounded r.method value
    || elim (assert_answer k r answer s) [ err e ↦ true | ok done ↦ false ]

abbrev pub one_if : Bool → Route → List (String × String)
one_if b r = if b then (r.consumer_session_id, r.consumer_id) ∷ [] else []

-- A router that a response has settled, and the messages.
pub record Settled (k : Setting) (r : Route) (value : Fields) (answer : Response) (s t : Router)
    (ms : List Message) : Type 0 where
  pub table : Settles r s t
  pub answered : answers ms ≡ one_if (is_active r.state || is_refused k r value answer s) r

handle_route-Settled :
    (k : Setting) (session_id : String) (r : Route) (value : Fields) (answer : Response)
    (s : Router)
    → k.parse r.method value ≡ some answer
    → Settled k r value answer s
        (handle_route k session_id r value s).1
        (handle_route k session_id r value s).0
unfolding handle_route is_refused answers
handle_route-Settled k session_id r value answer s valid =
    elim (Bool-cases (is_unbounded r.method value)) [
      | inl large ↦
          rw (handle_route, large)
            (record { table = remove_route-Settles r s; answered = ground (arith, large) })
      | inr bounded ↦ elim (Result-cases (assert_answer k r answer s)) [
        | inl (e, refused) ↦
            rw (handle_route, bounded, valid, refused)
              (record {
                table = remove_route-Settles r s;
                answered = ground (arith, bounded, refused);
              })
        | inr (done, passed) ↦
            rw (handle_route, bounded, valid, passed)
              (record {
                table = finish_route-Settles k session_id r answer s;
                answered =
                    ground (arith, bounded, passed, finish_route-answers k session_id r answer s);
              })
      ]
    ]

-- An adapter's response that names a route of its session, and is one of the route's method, takes that
-- route out of the table, and what is recorded under its consumer and request ID, which is a newer
-- request's where a cancelled route's ID was used again; every other route and every record under another
-- ID is as it was. Where the route is active it sends its consumer exactly one answer under the request ID,
-- and nobody else one; where the route was cancelled it sends none, but for a payload that is refused,
-- which is answered all the same.
pub handle_response-Settled :
    (k : Setting) (c : Connection) (value : Fields) (id : String) (r : Route) (answer : Response)
    (s : Router)
    → same_role c.session.role adapter ≡ true
    → get_field "id" value ≡ some (text id)
    → get id s.routes ≡ some r
    → r.adapter_session_id == c.session.session_id ≡ true
    → k.parse r.method value ≡ some answer
    → Settled k r value answer s
        (handle_response k c (object value) s).1
        (handle_response k c (object value) s).0
unfolding handle_response find_route
handle_response-Settled k c value id r answer s role named found mine valid =
    rw (handle_response, role, find_route, named, found, mine)
      (handle_route-Settled k c.session.session_id r value answer s valid)
