-- ===== src/Router/Handle/Tables.antt =====
-- What a message does to the table of routes (packages/bridge-daemon/src/routing/application-router.ts).
use junon.Shared.{
  String, ◌≡◌, refl, ◌&&◌, some, arith, contains, Option-cases, Bool-cases, inl, inr,
}
use junon.Shared.Results.{Result-cases}
use junon.Shared.Maps.{get}
use junon.Uri.{UrlPlatform}
use junon.Registry.Data.{Role, adapter, consumer, same_role, Connection, Registry}
use junon.Registry.Ops.{touch, register_adapter, unregister_adapter}
use junon.Protocol.Methods.{adapter_originated_methods, consumer_local_methods}
use junon.EditStore.Data.{EditStore}
use junon.EditStore.Removal.{invalidate_session}
use junon.Router.Data.{Route, Router, request_key, is_active}
use junon.Router.Table.{in_flight_of, cancel_route, cancel_by_consumer}
use junon.Router.Tabled.{IsTabled, mark_cancelled-IsTabled}
use junon.Router.Loops.{adapter_unavailable-IsTabled}
use junon.Router.Admitted.{route_request-IsTabled}
use junon.Router.Answers.{Setting}
use junon.Router.Answers.Foreign.{handle_response-IsTabled}
use junon.Router.Edits.Tables.{route_edit_request-IsTabled}
use junon.Router.Notifications.{Notification, apply_notification}
use junon.Router.Dispatch.{
  Request, invalid, registers, unregisters, pings, gets_status, lists_adapters, lists_sessions,
  lists_workspaces, gets_workspace, gets_workspace_status, gets_capabilities, routes, method_of,
  plan_store_methods, plain_routed_methods, Outside, unregister_from, register_with,
  handle_adapter_request,
}
use junon.Router.Handle.{
  asked_by, called_by, as_routed, handle_routed, handle_edit, is_invalid, handle_valid,
  handle_request, Notice, invalid_notice, cancels, disconnected, changes, passed_on,
  handle_notification, Incoming, request, notification, response_of, handle_touched, handle,
}

with_registry-IsTabled :
    (r : Registry) (store : EditStore) (s : Router)
    → IsTabled s
    → IsTabled (record s { registry = r; edit_store = store })
unfolding in_flight_of
with_registry-IsTabled r store s x = record {
  distinct = x.distinct;
  keyed = x.keyed;
  live = x.live;
  all_bounded = x.all_bounded;
  each_bounded = x.each_bounded;
}

-- `#cancelRoute`, of a route of the table.
cancel_route-IsTabled :
    (id : String) (r : Route) (s : Router)
    → get id s.routes ≡ some r
    → IsTabled s
    → IsTabled (cancel_route r s).1
unfolding cancel_route
cancel_route-IsTabled id r s found x =
    let named = x.keyed id r found in
    elim (Bool-cases (is_active r.state)) [
      | inl on ↦
          rw (on, cancel_route)
            (mark_cancelled-IsTabled r r s (ground (arith, named, found)) refl x)
      | inr off ↦ rw (off, cancel_route) x
    ]

pub cancel_by_consumer-IsTabled :
    (session_id id : String) (s : Router)
    → IsTabled s
    → IsTabled (cancel_by_consumer session_id id s).1
unfolding cancel_by_consumer
cancel_by_consumer-IsTabled session_id id s x =
    elim (Option-cases (get (request_key session_id id) s.consumer_requests)) [
      | inl unknown ↦ rw (unknown, cancel_by_consumer) x
      | inr (route_id, known) ↦ elim (Option-cases (get route_id s.routes)) [
        | inl absent ↦ rw (known, absent, cancel_by_consumer) x
        | inr (r, found) ↦
            rw (known, found, cancel_by_consumer) (cancel_route-IsTabled route_id r s found x)
      ]
    ]

handle_adapter_request-IsTabled :
    (k : Outside) (i id : String) (q : Request) (s : Router)
    → IsTabled s
    → IsTabled (handle_adapter_request k i id q s).1
unfolding handle_adapter_request register_with unregister_from
handle_adapter_request-IsTabled k i id (registers params) s x =
    elim (Result-cases (register_adapter i params s.registry)) [
      | inl (e, stop) ↦ rw (register_with, stop) x
      | inr ((result, r), went) ↦
          rw (register_with, went) (with_registry-IsTabled r s.edit_store s x)
    ]
handle_adapter_request-IsTabled k i id (unregisters adapter_id) s x =
    elim (Result-cases (unregister_adapter i adapter_id s.registry)) [
      | inl (e, stop) ↦ rw (unregister_from, stop) x
      | inr ((gone, r), went) ↦
          rw (unregister_from, went)
            (adapter_unavailable-IsTabled i _
              (with_registry-IsTabled r (invalidate_session i s.edit_store) s x))
    ]
handle_adapter_request-IsTabled k i id pings s x = x
handle_adapter_request-IsTabled k i id invalid s x = x
handle_adapter_request-IsTabled k i id gets_status s x = x
handle_adapter_request-IsTabled k i id lists_adapters s x = x
handle_adapter_request-IsTabled k i id lists_sessions s x = x
handle_adapter_request-IsTabled k i id (lists_workspaces a) s x = x
handle_adapter_request-IsTabled k i id (gets_workspace w) s x = x
handle_adapter_request-IsTabled k i id (gets_workspace_status w) s x = x
handle_adapter_request-IsTabled k i id (gets_capabilities a w) s x = x
handle_adapter_request-IsTabled k i id (routes q params) s x = x

handle_routed-IsTabled :
    (i id : String) (q : Request) (s : Router) → IsTabled s → IsTabled (handle_routed i id q s).1
unfolding handle_routed
handle_routed-IsTabled i id q s x = elim (Option-cases (as_routed q)) [
  | inl other ↦ rw (handle_routed, other) x
  | inr ((a, params), is) ↦
      rw (handle_routed, is)
        (route_request-IsTabled a.draw a.forwards a.sent (asked_by i id a.asked) s x)
]

handle_edit-IsTabled :
    (i id : String) (q : Request) (s : Router) → IsTabled s → IsTabled (handle_edit i id q s).1
unfolding handle_edit
handle_edit-IsTabled i id q s x = elim (Option-cases (as_routed q)) [
  | inl other ↦ rw (handle_edit, other) x
  | inr ((a, params), is) ↦
      rw (handle_edit, is) (route_edit_request-IsTabled (called_by i id a) params s x)
]

handle_valid-IsTabled :
    (k : Outside) (role : Role) (i id : String) (q : Request) (s : Router)
    → IsTabled s
    → IsTabled (handle_valid k role i id q s).1
unfolding handle_valid
handle_valid-IsTabled k role i id q s x =
    let as_consumer = same_role role consumer in
    elim (Bool-cases
      (same_role role adapter && contains (method_of q) adapter_originated_methods)) [
        | inl a ↦ rw (handle_valid, a) (handle_adapter_request-IsTabled k i id q s x)
        | inr a ↦ elim (Bool-cases (as_consumer && contains (method_of q) consumer_local_methods)) [
          | inl b ↦ rw (handle_valid, a, b) x
          | inr b ↦ elim (Bool-cases (as_consumer && contains (method_of q) plain_routed_methods)) [
            | inl d ↦ rw (handle_valid, a, b, d) (handle_routed-IsTabled i id q s x)
            | inr d ↦ elim (Bool-cases (as_consumer && contains (method_of q) plan_store_methods)) [
              | inl e ↦ rw (handle_valid, a, b, d, e) (handle_edit-IsTabled i id q s x)
              | inr e ↦ rw (handle_valid, a, b, d, e) x
            ]
          ]
        ]
      ]

handle_request-IsTabled :
    (k : Outside) (c : Connection) (id : String) (q : Request) (s : Router)
    → IsTabled s
    → IsTabled (handle_request k c id q s).1
unfolding handle_request
handle_request-IsTabled k c id q s x = elim (Bool-cases (is_invalid q)) [
  | inl bad ↦ rw (handle_request, bad) x
  | inr good ↦
      rw (handle_request, good)
        (handle_valid-IsTabled k c.session.role c.session.session_id id q s x)
]

-- A notification does not write to the table.
record SameRoutes (s t : Router) : Type 0 where
  routes : t.routes ≡ s.routes
  requests : t.consumer_requests ≡ s.consumer_requests
  all : t.max_in_flight ≡ s.max_in_flight
  each : t.max_in_flight_per_consumer ≡ s.max_in_flight_per_consumer

SameRoutes-IsTabled : (s t : Router) → SameRoutes s t → IsTabled s → IsTabled t
unfolding in_flight_of
SameRoutes-IsTabled s t e x = record {
  distinct = rw e.routes x.distinct;
  keyed = λ k r h. ground (arith, e, h, x.keyed k r);
  live = λ k id h. ground (arith, e, h, x.live k id);
  all_bounded = ground (arith, e, x.all_bounded);
  each_bounded = λ c. ground (arith, e, x.each_bounded c);
}

changes-SameRoutes :
    (platform : UrlPlatform) (i : String) (n m : Notification) (s : Router)
    → SameRoutes s (passed_on i n (apply_notification platform i m s)).1
unfolding apply_notification
changes-SameRoutes platform i n m s = record {
  routes = ground arith;
  requests = ground arith;
  all = ground arith;
  each = ground arith;
}

changes-IsTabled :
    (platform : UrlPlatform) (i : String) (n m : Notification) (s : Router)
    → IsTabled s
    → IsTabled (passed_on i n (apply_notification platform i m s)).1
changes-IsTabled platform i n m s x =
    SameRoutes-IsTabled s (passed_on i n (apply_notification platform i m s)).1
      (changes-SameRoutes platform i n m s) x

handle_notification-IsTabled :
    (platform : UrlPlatform) (c : Connection) (n : Notice) (s : Router)
    → IsTabled s
    → IsTabled (handle_notification platform c n s).1
unfolding handle_notification
handle_notification-IsTabled platform c invalid_notice s x = x
handle_notification-IsTabled platform c (cancels id) s x =
    elim (Bool-cases (same_role c.session.role consumer)) [
      | inl on ↦
          rw (handle_notification, on) (cancel_by_consumer-IsTabled c.session.session_id id s x)
      | inr off ↦ rw (handle_notification, off) x
    ]
handle_notification-IsTabled platform c disconnected s x = x
handle_notification-IsTabled platform c (changes n) s x =
    elim (Bool-cases (same_role c.session.role adapter)) [
      | inl on ↦
          rw (handle_notification, on) (changes-IsTabled platform c.session.session_id n n s x)
      | inr off ↦ rw (handle_notification, off) x
    ]

handle_touched-IsTabled :
    (k : Outside) (g : Setting) (c : Connection) (message : Incoming) (s : Router)
    → IsTabled s
    → IsTabled (handle_touched k g c message s).1
unfolding handle_touched
handle_touched-IsTabled k g c (request id q) s x = handle_request-IsTabled k c id q s x
handle_touched-IsTabled k g c (notification n) s x = handle_notification-IsTabled g.platform c n s x
handle_touched-IsTabled k g c (response_of value) s x = handle_response-IsTabled g c value s x

pub handle-IsTabled :
    (k : Outside) (g : Setting) (at : String) (c : Connection) (message : Incoming) (s : Router)
    → IsTabled s
    → IsTabled (handle k g at c message s).1
unfolding handle
handle-IsTabled k g at c message s x =
    elim (Result-cases (touch at c.session.session_id s.registry)) [
      | inl (e, stop) ↦ rw (handle, stop) x
      | inr (r, live) ↦
          rw (handle, live)
            (handle_touched-IsTabled k g c message _ (with_registry-IsTabled r s.edit_store s x))
    ]
