-- ===== src/Router/Routed.antt =====
-- Where `#routeRequest` of packages/bridge-daemon/src/routing/application-router.ts sends a request.
use junon.Shared.{
  ◌≤◌, ◌<◌, ◌≢◌, refl, length, none, Option, ℕ, String, ◌≡◌, Bool, true, false, some, arith,
  Option-cases, inl, inr,
}
use junon.Shared.Results.{Fallible, ok, Result-cases}
use junon.Shared.Maps.{Map, get, get-set}
use junon.Registry.Data.{unavailable, RegistryError, Capability, Connection, Workspace, Registry}
use junon.Registry.Ops.{get_workspace}
use junon.Registry.Updates.{get_capabilities, get_workspace_connection}
use junon.Router.Data.{
  request_key, EditOperation, no_edit, prepare, apply, discard, undo, active, Route, Router, key_of,
  lift,
}
use junon.Router.Table.{
  SymbolHandle, in_flight_of, Asked, is_full, is_stale, is_unavailable, needs_capability,
  next_route_id,
}
use junon.Router.Requests.{check_capability, new_route, admit_request, add_route, route_request}

-- A capability of the method that is not marked unavailable.
abbrev pub Offered : String → Fallible RegistryError (Map Capability) → Type 0
Offered method found =
    (capabilities : Map Capability) × (offer : Capability) × (found ≡ ok capabilities)
    × (get method capabilities ≡ some offer)
    × (offer.support ≢ unavailable)

-- The adapter offers the method, where the operation asks for that.
abbrev pub Offers : EditOperation → String → Fallible RegistryError (Map Capability) → Type 0
Offers no_edit method found = Offered method found
Offers prepare method found = Offered method found
Offers _ method found = Unit

-- The symbol handle, if the request has one, is the adapter's, of its session, and still holds.
abbrev pub Holds : Workspace → Connection → Option SymbolHandle → Type 0
Holds w c none = Unit
Holds w c (some h) =
    (h.adapter_id ≡ w.adapter_id)
    × (h.session_id ≡ c.session.session_id)
    × (w.workspace_epoch ≤ h.valid_until_epoch)

pub record Routed (q : Asked) (s t : Router) (route_id workspace_id : String) (r : Route)
    (c : Connection) (w : Workspace) : Type 0 where
  pub asked : q.workspace_id ≡ some workspace_id
  pub new : get (request_key q.consumer_session_id q.consumer_id) s.consumer_requests ≡ none
  pub room : length s.routes < s.max_in_flight
  pub own_room : in_flight_of q.consumer_session_id s < s.max_in_flight_per_consumer
  pub connected : get_workspace_connection workspace_id s.registry ≡ ok c
  pub known : get_workspace workspace_id s.registry ≡ ok w
  pub capable :
      Offers q.edit_operation q.method
        (get_capabilities w.adapter_id (some workspace_id) s.registry)
  pub fresh : Holds w c q.handle
  pub stored : get route_id t.routes ≡ some r
  pub recorded : get (key_of r) t.consumer_requests ≡ some route_id
  pub to_adapter : r.adapter_session_id ≡ c.session.session_id
  pub from_consumer : r.consumer_session_id ≡ q.consumer_session_id
  pub for_request : r.consumer_id ≡ q.consumer_id
  pub for_method : r.method ≡ q.method
  pub on : r.state ≡ active
  pub performs : r.edit_operation ≡ q.edit_operation

available :
    (method : String) (m : Map Capability)
    → is_unavailable (get method m) ≡ false
    → (offer : Capability) × (get method m ≡ some offer) × (offer.support ≢ unavailable)
unfolding is_unavailable
available method m e = elim (Option-cases (get method m)) [
  | inl absent ↦ absurd (ground (arith, absent, e))
  | inr (offer, found) ↦ (offer, found, λ lacking. ground (arith, found, e, lacking))
]

offered :
    (q : Asked) (workspace_id : String) (w : Workspace) (r : Registry)
    → needs_capability q.edit_operation ≡ true
    → check_capability q workspace_id w r ≡ ok tt
    → Offered q.method (get_capabilities w.adapter_id (some workspace_id) r)
unfolding check_capability lift
offered q workspace_id w r needs e =
    elim (Result-cases (get_capabilities w.adapter_id (some workspace_id) r)) [
      | inl (x, stop) ↦ absurd (ground (arith, needs, stop, e))
      | inr (m, found) ↦
          let (offer, there, can) = available q.method m (ground (arith, needs, found, e)) in
          (m, offer, found, there, can)
    ]

capable_lem :
    (o : EditOperation) (q : Asked) (workspace_id : String) (w : Workspace) (r : Registry)
    → q.edit_operation ≡ o
    → check_capability q workspace_id w r ≡ ok tt
    → Offers o q.method (get_capabilities w.adapter_id (some workspace_id) r)
unfolding needs_capability
capable_lem no_edit q workspace_id w r is e = offered q workspace_id w r (ground (arith, is)) e
capable_lem prepare q workspace_id w r is e = offered q workspace_id w r (ground (arith, is)) e
capable_lem (apply p) q workspace_id w r is e = tt
capable_lem (discard p) q workspace_id w r is e = tt
capable_lem (undo t) q workspace_id w r is e = tt

fresh_lem :
    (w : Workspace) (c : Connection) (h : Option SymbolHandle)
    → is_stale w c h ≡ false
    → Holds w c h
unfolding is_stale
fresh_lem w c none e = tt
fresh_lem w c (some h) e = (ground (arith, e), ground (arith, e), ground (arith, e))

room_lem :
    (q : Asked) (s : Router)
    → is_full q s ≡ false
    → (get (request_key q.consumer_session_id q.consumer_id) s.consumer_requests ≡ none)
      × (length s.routes < s.max_in_flight)
      × (in_flight_of q.consumer_session_id s < s.max_in_flight_per_consumer)
unfolding is_full
room_lem q s e = (ground (arith, e), ground (arith, e), ground (arith, e))

-- What the guards have found.
record Guarded (q : Asked) (s : Router) (r : Route) (workspace_id : String) (c : Connection)
    (w : Workspace) (id : String) : Type 0 where
  asked : q.workspace_id ≡ some workspace_id
  room : is_full q s ≡ false
  connected : get_workspace_connection workspace_id s.registry ≡ ok c
  known : get_workspace workspace_id s.registry ≡ ok w
  capable : check_capability q workspace_id w s.registry ≡ ok tt
  fresh : is_stale w c q.handle ≡ false
  made : r ≡ new_route q workspace_id c id

admit_request-Guarded :
    (draw : ℕ → String) (forwards : Bool) (q : Asked) (s : Router) (r : Route)
    → admit_request draw forwards q s ≡ ok r
    → (workspace_id : String) × (c : Connection) × (w : Workspace) × (id : String) × Guarded q s r
        workspace_id c w id
unfolding admit_request lift
admit_request-Guarded draw forwards q s r e = elim (Option-cases q.workspace_id) [
  | inl stop ↦ absurd (ground (arith, stop))
  | inr (v, asked) ↦ elim (Result-cases (get_workspace_connection v s.registry)) [
    | inl (x, stop) ↦ absurd (ground (arith, asked, stop))
    | inr (c, connected) ↦ elim (Result-cases (get_workspace v s.registry)) [
      | inl (x, stop) ↦ absurd (ground (arith, asked, connected, stop))
      | inr (w, known) ↦ elim (Option-cases (next_route_id 16 0 draw s.routes)) [
        | inl stop ↦ absurd (ground (arith, asked, connected, known, stop))
        | inr (id, drawn) ↦ (
          v,
          c,
          w,
          id,
          record {
            asked = asked;
            room = ground (arith, asked, connected, known, drawn);
            connected = connected;
            known = known;
            capable = ground (arith, asked, connected, known, drawn);
            fresh = ground (arith, asked, connected, known, drawn);
            made = ground (arith, asked, connected, known, drawn);
          },
        )
      ]
    ]
  ]
]

-- A request that is routed names a workspace that is registered and goes to the session of its adapter. If it
-- is a plain request or a preparation, the adapter has a capability for the method that is not marked
-- unavailable. Its symbol handle, if it has one, is of that adapter and that session and holds at least
-- until the workspace's epoch. No request of the consumer was recorded under its ID, and the routes
-- together and the consumer's active ones were fewer than the limits. It is stored as an active route
-- of its method and operation, under its consumer's session and ID.
pub route_request-Routed :
    (draw : ℕ → String) (forwards sent : Bool) (q : Asked) (s : Router) (route_id : String)
    → (route_request draw forwards sent q s).0 ≡ ok route_id
    → (workspace_id : String) × (r : Route) × (c : Connection) × (w : Workspace) × Routed q s
        (route_request draw forwards sent q s).1
        route_id
        workspace_id
        r
        c
        w
unfolding route_request add_route new_route
route_request-Routed draw forwards sent q s route_id e =
    elim (Result-cases (admit_request draw forwards q s)) [
      | inl (x, stop) ↦ absurd (ground (arith, stop))
      | inr (r, admitted) ↦
          let (v, c, w, id, g) = admit_request-Guarded draw forwards q s r admitted in
          let same : r.route_id ≡ route_id = ground (arith, admitted) in
          let went : sent ≡ true = ground (arith, admitted) in
          let made = g.made in
          let (new, room, own_room) = room_lem q s g.room in
          (
            v,
            r,
            c,
            w,
            rw (admitted, went, route_request)
                (record {
                  asked = g.asked;
                  new = new;
                  room = room;
                  own_room = own_room;
                  connected = g.connected;
                  known = g.known;
                  capable = capable_lem q.edit_operation q v w s.registry refl g.capable;
                  fresh = fresh_lem w c q.handle g.fresh;
                  stored = ground (arith, same, get-set r.route_id route_id r s.routes);
                  recorded =
                      ground
                        (arith, same, get-set (key_of r) (key_of r) r.route_id s.consumer_requests);
                  to_adapter = ground (arith, made);
                  from_consumer = ground (arith, made);
                  for_request = ground (arith, made);
                  for_method = ground (arith, made);
                  on = ground (arith, made);
                  performs = ground (arith, made);
                }),
          )
    ]
