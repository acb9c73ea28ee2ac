-- ===== src/Router/Answers/Foreign.antt =====
-- What an adapter's response leaves alone (packages/bridge-daemon/src/routing/application-router.ts).
use junon.Shared.{
  String, ◌≡◌, true, false, some, arith, ◌==◌, Option-cases, Bool-cases, inl, inr, ◌⊎◌,
}
use junon.Shared.Results.{Result-cases}
use junon.Shared.Maps.{get, get-delete}
use junon.Shared.Json.{Json, Fields, as_record, as_text, get_field}
use junon.Registry.Data.{Connection, adapter, same_role}
use junon.Router.Data.{Route, Router}
use junon.Router.Table.{remove_route, in_flight_of}
use junon.Router.Answers.{
  Setting, is_unbounded, assert_answer, find_route, handle_route, handle_response,
}
use junon.Router.Answers.Settled.{
  SameTable, same, Settles, remove_route-Settles, finish_route-Settles,
}
use junon.Router.Tabled.{IsTabled, remove_route-IsTabled}

handle_route-cases :
    (k : Setting) (session_id : String) (r : Route) (value : Fields) (s : Router)
    → SameTable s (handle_route k session_id r value s).1
      ⊎ Settles r s (handle_route k session_id r value s).1
unfolding handle_route
handle_route-cases k session_id r value s = elim (Bool-cases (is_unbounded r.method value)) [
  | inl large ↦ rw (handle_route, large) (inr (remove_route-Settles r s))
  | inr bounded ↦ elim (Option-cases (k.parse r.method value)) [
    | inl invalid ↦ rw (handle_route, bounded, invalid) (inl (same s))
    | inr (answer, valid) ↦ elim (Result-cases (assert_answer k r answer s)) [
      | inl (e, refused) ↦
          rw (handle_route, bounded, valid, refused) (inr (remove_route-Settles r s))
      | inr (done, passed) ↦
          rw (handle_route, bounded, valid, passed)
            (inr (finish_route-Settles k session_id r answer s))
    ]
  ]
]

-- The route that a response settles.
record Found (c : Connection) (r : Route) (s t : Router) : Type 0 where
  here : get r.route_id s.routes ≡ some r
  mine : r.adapter_session_id == c.session.session_id ≡ true
  settles : Settles r s t

find_route-here :
    (c : Connection) (value : Fields) (s : Router) (r : Route)
    → IsTabled s
    → find_route c value s ≡ some r
    → (get r.route_id s.routes ≡ some r) × (r.adapter_session_id == c.session.session_id ≡ true)
unfolding find_route
find_route-here c value s r x h = elim (Option-cases (get_field "id" value)) [
  | inl absent ↦ absurd (ground (arith, absent, h))
  | inr (v, there) ↦ elim (Option-cases (as_text v)) [
    | inl no_text ↦ absurd (ground (arith, there, no_text, h))
    | inr (id, named) ↦ ground (arith, there, named, h, x.keyed id r)
  ]
]

handle_response-cases :
    (k : Setting) (c : Connection) (value : Json) (s : Router)
    → IsTabled s
    → SameTable s (handle_response k c value s).1
      ⊎ (r : Route) × Found c r s (handle_response k c value s).1
unfolding handle_response
handle_response-cases k c value s x = elim (Bool-cases (same_role c.session.role adapter)) [
  | inr consumer ↦ rw (handle_response, consumer) (inl (same s))
  | inl role ↦ elim (Option-cases (as_record value)) [
    | inl plain ↦ rw (handle_response, role, plain) (inl (same s))
    | inr (fields, record_there) ↦ elim (Option-cases (find_route c fields s)) [
      | inl unknown ↦ rw (handle_response, role, record_there, unknown) (inl (same s))
      | inr (r, found) ↦
          let (here, mine) = find_route-here c fields s r x found in
          elim (handle_route-cases k c.session.session_id r fields s) [
            | inl kept ↦ rw (handle_response, role, record_there, found) (inl kept)
            | inr gone ↦
                rw (handle_response, role, record_there, found)
                  (inr (r, record { here = here; mine = mine; settles = gone }))
          ]
    ]
  ]
]

-- Whatever it says, a response changes no route of another adapter's session.
pub handle_response-foreign :
    (k : Setting) (c : Connection) (value : Json) (id : String) (o : Route) (s : Router)
    → IsTabled s
    → get id s.routes ≡ some o
    → o.adapter_session_id == c.session.session_id ≡ false
    → get id (handle_response k c value s).1.routes ≡ some o
handle_response-foreign k c value id o s x there other =
    elim (handle_response-cases k c value s x) [
      | inl kept ↦ ground (arith, kept, there)
      | inr (r, f) ↦
          ground (arith, f.settles.routes, f.here, f.mine, get-delete r.route_id id s.routes, there)
    ]

pub along-IsTabled : (s t : Router) → SameTable s t → IsTabled s → IsTabled t
unfolding in_flight_of
along-IsTabled s t e x = record {
  distinct = rw e.routes x.distinct;
  keyed = λ k r h. ground (arith, e, h, x.keyed k r);
  live = λ k id h. ground (arith, e, h, x.live k id);
  all_bounded = ground (arith, e, x.all_bounded);
  each_bounded = λ c. ground (arith, e, x.each_bounded c);
}

removed-SameTable : (r : Route) (s t : Router) → Settles r s t → SameTable (remove_route r s) t
unfolding remove_route
removed-SameTable r s t e = record {
  registry = e.registry;
  routes = e.routes;
  consumer_requests = e.consumer_requests;
  max_in_flight = e.max_in_flight;
  max_in_flight_per_consumer = e.max_in_flight_per_consumer;
}

-- The invariant of the table is kept.
pub handle_response-IsTabled :
    (k : Setting) (c : Connection) (value : Json) (s : Router)
    → IsTabled s
    → IsTabled (handle_response k c value s).1
handle_response-IsTabled k c value s x = elim (handle_response-cases k c value s x) [
  | inl kept ↦ along-IsTabled s (handle_response k c value s).1 kept x
  | inr (r, f) ↦
      along-IsTabled (remove_route r s) (handle_response k c value s).1
        (removed-SameTable r s (handle_response k c value s).1 f.settles)
        (remove_route-IsTabled r s (λ q e. ground (arith, f.here, e)) x)
]
