-- ===== src/Router/Tabled.antt =====
-- The invariant of the table of routes in packages/bridge-daemon/src/routing/application-router.ts.
use junon.Shared.{
  ◌≤◌, String, ◌≡◌, refl, true, false, Option, none, some, [], ◌∷◌, arith, length, if◌then◌else◌,
  Option-cases, inl, inr,
}
use junon.Shared.Maps.{
  Map, get, has, set, count, get-set, get-delete, length-set, length-delete-le, count-delete-le,
  count-set_new,
}
use junon.Shared.Maps.Distinct.{Distinct, set-Distinct, delete-Distinct}
use junon.Router.Data.{cancelled, Route, Router, key_of, is_active}
use junon.Router.Table.{remove_route, mark_cancelled, active_of, in_flight_of, Asked, is_full}
use junon.Router.Requests.{add_route}

-- The key of a route that is there and active.
abbrev pub live_key : Option Route → Option String
live_key none = none
live_key (some r) = if is_active r.state then some (key_of r) else none

pub record IsTabled (s : Router) : Type 0 where
  -- A route stands under its own ID.
  pub distinct : Distinct s.routes
  pub keyed : (k : String) (r : Route) → get k s.routes ≡ some r → r.route_id ≡ k
  -- A consumer's request that is recorded leads to an active route of that consumer and request.
  pub live :
      (k id : String) → get k s.consumer_requests ≡ some id → live_key (get id s.routes) ≡ some k
  -- The limits.
  pub all_bounded : length s.routes ≤ s.max_in_flight
  pub each_bounded : (consumer : String) → in_flight_of consumer s ≤ s.max_in_flight_per_consumer

count-set_le :
    (consumer k : String) (v w : Route) (m : Map Route)
    → get k m ≡ some w
    → is_active v.state ≡ false
    → count (active_of consumer) (set k v m) ≤ count (active_of consumer) m
unfolding count get set active_of
count-set_le consumer k v w [] found idle = ground arith
count-set_le consumer k v w ((j, u) ∷ m) found idle = ground (arith, count-set_le consumer k v w m)

-- A route object and the one in the table under its ID are the same consumer's request.
abbrev pub Agrees : Route → Router → Type 0
Agrees r s = (q : Route) → get r.route_id s.routes ≡ some q → key_of q ≡ key_of r

pub remove_route-IsTabled :
    (r : Route) (s : Router) → Agrees r s → IsTabled s → IsTabled (remove_route r s)
unfolding remove_route in_flight_of
remove_route-IsTabled r s same x =
    let at = λ (k : String). get-delete r.route_id k s.routes in
    let by = λ (k : String). get-delete (key_of r) k s.consumer_requests in
    record {
      keyed = λ k q e. ground (arith, at k, x.keyed k q);
      distinct = delete-Distinct r.route_id s.routes x.distinct;
      live = λ k id e. elim (Option-cases (get id s.routes)) [
        | inl absent ↦ absurd (ground (arith, by k, x.live k id, absent))
        | inr (q, found) ↦
            let known = same q in ground (arith, by k, at id, x.live k id, found, known)
      ];
      all_bounded = omega (arith, x.all_bounded, length-delete-le r.route_id s.routes);
      each_bounded =
          λ c. omega (arith, x.each_bounded c, count-delete-le (active_of c) r.route_id s.routes);
    }

pub mark_cancelled-IsTabled :
    (r q : Route) (s : Router)
    → get r.route_id s.routes ≡ some q
    → key_of q ≡ key_of r
    → IsTabled s
    → IsTabled (mark_cancelled r s)
unfolding mark_cancelled in_flight_of
mark_cancelled-IsTabled r q s found same x =
    let r' : Route = record r { state = cancelled } in
    let at = λ (k : String). get-set r.route_id k r' s.routes in
    let by = λ (k : String). get-delete (key_of r) k s.consumer_requests in
    record {
      keyed = λ k p e. ground (arith, at k, x.keyed k p);
      distinct = set-Distinct r.route_id r' s.routes x.distinct;
      live = λ k id e. ground (arith, by k, at id, x.live k id, found, same);
      all_bounded = ground (arith, x.all_bounded, length-set r.route_id r' s.routes, found);
      each_bounded =
          λ c. omega (arith, x.each_bounded c, count-set_le c r.route_id r' q s.routes found refl);
    }

pub add_route-IsTabled :
    (q : Asked) (r : Route) (s : Router)
    → r.consumer_session_id ≡ q.consumer_session_id
    → r.consumer_id ≡ q.consumer_id
    → is_active r.state ≡ true
    → is_full q s ≡ false
    → has r.route_id s.routes ≡ false
    → IsTabled s
    → IsTabled (add_route r s)
unfolding add_route in_flight_of is_full active_of
add_route-IsTabled q r s session id on room new x =
    let at = λ (k : String). get-set r.route_id k r s.routes in
    let by = λ (k : String). get-set (key_of r) k r.route_id s.consumer_requests in
    record {
      keyed = λ k p e. ground (arith, at k, x.keyed k p);
      distinct = set-Distinct r.route_id r s.routes x.distinct;
      live = λ k i e. ground (arith, by k, at i, x.live k i, on, new);
      all_bounded = ground (arith, x.all_bounded, length-set r.route_id r s.routes, new, room);
      each_bounded = λ c. ground (
        arith,
        x.each_bounded c,
        count-set_new (active_of c) r.route_id r s.routes new,
        room,
        session,
      );
    }
