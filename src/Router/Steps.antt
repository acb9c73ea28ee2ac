-- ===== src/Router/Steps.antt =====
-- The router of packages/bridge-daemon/src/routing/application-router.ts as a state machine.
use junon.Shared.{
  ◌≡◌, true, if◌then◌else◌, ℕ, String, refl, Bool, List, [], ◌∷◌, arith, Option-cases, Bool-cases,
  inl, inr, keep,
}
use junon.Shared.Maps.{get, values, count}
use junon.EditStore.Data.{EditStore}
use junon.EditStore.Removal.{invalidate_session}
use junon.Registry.Data.{Registry}
use junon.Registry.Ops.{close_session}
use junon.Metrics.Data.{new_metrics}
use junon.Router.Sending.{send_failed, unrouted, is_own}
use junon.Router.Data.{Route, Router, is_active}
use junon.Router.Table.{
  expire_route, forget_route, cancel_by_consumer, adapter_unavailable, Asked, in_flight_of,
}
use junon.Router.Requests.{route_request, session_closed}
use junon.Shared.Json.{Json}
use junon.Registry.Data.{Connection}
use junon.Router.Answers.{Setting, handle_response}
use junon.Router.Answers.Foreign.{handle_response-IsTabled}
use junon.Router.Edits.{Call as EditCall, EditParams, route_edit_request}
use junon.Router.Edits.Tables.{route_edit_request-IsTabled}
use junon.Router.Admitted.{route_request-IsTabled}
use junon.Router.Handle.Tables.{cancel_by_consumer-IsTabled, handle-IsTabled}
use junon.Router.Handle.{Incoming, handle}
use junon.Router.Dispatch.{Outside}
use junon.Router.Tabled.{IsTabled, remove_route-IsTabled, mark_cancelled-IsTabled}
use junon.Router.Loops.{adapter_unavailable-IsTabled, close_table-IsTabled}

-- The calls, the timers and the failures of a send that write to the table of routes.
pub data Event : Type 0 where
  requests : (ℕ → String) → Bool → Bool → Asked → Event
  cancels : String → String → Event
  expires : String → Event
  forgets : String → Event
  loses_adapter : String → Event
  closes_session : String → Event
  edits : EditCall → EditParams → Event
  responds : Setting → Connection → Json → Event
  send_fails unroutes : Route → Event
  receives : Outside → Setting → String → Connection → Incoming → Event

unfoldable pub step : Router → Event → Router
step s (requests draw forwards sent q) = (route_request draw forwards sent q s).1
step s (cancels session_id id) = (cancel_by_consumer session_id id s).1
step s (expires route_id) = (expire_route route_id s).1
step s (forgets route_id) = forget_route route_id s
step s (loses_adapter session_id) = (adapter_unavailable session_id s).1
step s (closes_session session_id) = (session_closed session_id s).1
step s (edits q params) = (route_edit_request q params s).1
step s (responds k c value) = (handle_response k c value s).1
step s (send_fails r) = if is_own r s then (send_failed r s).1 else s
step s (unroutes r) = unrouted r s
step s (receives k g at c message) = (handle k g at c message s).1

unfoldable pub run : Router → List Event → Router
run s [] = s
run s (e ∷ es) = run (step s e) es

-- A router with no route.
abbrev pub new_router : Registry → EditStore → ℕ → ℕ → Router
new_router registry edit_store all each = record {
  registry = registry;
  edit_store = edit_store;
  routes = [];
  consumer_requests = [];
  max_in_flight = all;
  max_in_flight_per_consumer = each;
  metrics = new_metrics;
}

expire_route-IsTabled :
    (route_id : String) (s : Router) → IsTabled s → IsTabled (expire_route route_id s).1
unfolding expire_route
expire_route-IsTabled route_id s x = elim (Option-cases (get route_id s.routes)) [
  | inl absent ↦ rw (absent, expire_route) x
  | inr (r, found) ↦
      let named = x.keyed route_id r found in
      elim (Bool-cases (is_active r.state)) [
        | inl on ↦
            rw (found, on, expire_route)
              (mark_cancelled-IsTabled r r s (ground (arith, named, found)) refl x)
        | inr off ↦ rw (found, off, expire_route) x
      ]
]

forget_route-IsTabled :
    (route_id : String) (s : Router) → IsTabled s → IsTabled (forget_route route_id s)
unfolding forget_route
forget_route-IsTabled route_id s x = elim (Option-cases (get route_id s.routes)) [
  | inl absent ↦ rw (absent, forget_route) x
  | inr (r, found) ↦
      let named = x.keyed route_id r found in
      elim (Bool-cases (is_active r.state)) [
        | inl on ↦ rw (found, on, forget_route) x
        | inr off ↦
            rw (found, off, forget_route)
              (remove_route-IsTabled r s (λ p e. ground (arith, named, found, e)) x)
      ]
]

session_closed-IsTabled :
    (session_id : String) (s : Router) → IsTabled s → IsTabled (session_closed session_id s).1
unfolding session_closed in_flight_of
session_closed-IsTabled session_id s x =
    let t : Router = record s {
      edit_store = invalidate_session session_id s.edit_store;
      registry = (close_session session_id s.registry).1;
    } in
    let y : IsTabled t = record {
      distinct = x.distinct;
      keyed = x.keyed;
      live = x.live;
      all_bounded = x.all_bounded;
      each_bounded = x.each_bounded;
    } in
    elim (Option-cases (close_session session_id s.registry).0) [
      | inl absent ↦ rw (absent, session_closed) y
      | inr (gone, removed) ↦ rw (removed, session_closed) (close_table-IsTabled session_id t y)
    ]

send_failed-IsTabled :
    (r : Route) (s : Router) → is_own r s ≡ true → IsTabled s → IsTabled (send_failed r s).1
unfolding is_own send_failed
send_failed-IsTabled r s own x = remove_route-IsTabled r s (λ q e. ground (arith, own, e)) x

unrouted-IsTabled : (r : Route) (s : Router) → IsTabled s → IsTabled (unrouted r s)
unfolding unrouted in_flight_of
unrouted-IsTabled r s x = record {
  distinct = x.distinct;
  keyed = x.keyed;
  live = x.live;
  all_bounded = x.all_bounded;
  each_bounded = x.each_bounded;
}

pub step-IsTabled : (s : Router) (e : Event) → IsTabled s → IsTabled (step s e)
unfolding step
step-IsTabled s (requests draw forwards sent q) x = route_request-IsTabled draw forwards sent q s x
step-IsTabled s (cancels session_id id) x = cancel_by_consumer-IsTabled session_id id s x
step-IsTabled s (expires route_id) x = expire_route-IsTabled route_id s x
step-IsTabled s (forgets route_id) x = forget_route-IsTabled route_id s x
step-IsTabled s (loses_adapter session_id) x = adapter_unavailable-IsTabled session_id s x
step-IsTabled s (closes_session session_id) x = session_closed-IsTabled session_id s x
step-IsTabled s (edits q params) x = route_edit_request-IsTabled q params s x
step-IsTabled s (responds k c value) x = handle_response-IsTabled k c value s x
step-IsTabled s (send_fails r) x = elim (Bool-cases (is_own r s)) [
  | inl own ↦ rw (own, step) (send_failed-IsTabled r s own x)
  | inr other ↦ rw (other, step) x
]
step-IsTabled s (unroutes r) x = unrouted-IsTabled r s x
step-IsTabled s (receives k g at c message) x = handle-IsTabled k g at c message s x

run-IsTabled : (s : Router) (es : List Event) → IsTabled s → IsTabled (run s es)
unfolding run
run-IsTabled s [] x = x
run-IsTabled s (e ∷ es) x = run-IsTabled (step s e) es (step-IsTabled s e x)

-- After any messages, and any requests, edits, responses, cancellations, timers, failures of awaited sends
-- and ends of sessions, in any order, on a router with no route: a route stands under its own ID, a
-- recorded request of a consumer leads to an active route of that request, and the routes together
-- and the active ones of each consumer are within the limits.
pub run-new_router-IsTabled :
    (registry : Registry) (edit_store : EditStore) (all each : ℕ) (es : List Event)
    → IsTabled (run (new_router registry edit_store all each) es)
unfolding get in_flight_of count values keep
run-new_router-IsTabled registry edit_store all each es =
    run-IsTabled (new_router registry edit_store all each) es (record {
      distinct = tt;
      keyed = λ k r e. cc;
      live = λ k id e. cc;
      all_bounded = omega arith;
      each_bounded = λ c. omega arith;
    })
