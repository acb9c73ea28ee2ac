-- ===== src/Router/Admitted.antt =====
-- What an admitted request does to the table of routes
-- (packages/bridge-daemon/src/routing/application-router.ts).
use junon.Shared.{
  ℕ, String, ◌≡◌, Bool, true, false, some, arith, Option-cases, Bool-cases, inl, inr, zero, suc,
}
use junon.Shared.Results.{ok, Result-cases}
use junon.Shared.Maps.{Map, has, get-set}
use junon.Router.Data.{Route, Router, is_active}
use junon.Router.Table.{next_route_id, Asked, is_full}
use junon.Router.Sending.{send_failed}
use junon.Router.Requests.{admit_request, add_route, route_request}
use junon.Router.Tabled.{IsTabled, remove_route-IsTabled, add_route-IsTabled}

next_route_id-new :
    (left i : ℕ) (draw : ℕ → String) (m : Map Route) (id : String)
    → next_route_id left i draw m ≡ some id
    → has id m ≡ false
unfolding next_route_id
next_route_id-new zero i draw m id e = cc
next_route_id-new (suc left) i draw m id e =
    ground (arith, next_route_id-new left (suc i) draw m id)

-- What an admitted request brings to the table.
record Fitting (q : Asked) (r : Route) (s : Router) : Type 0 where
  same_session : r.consumer_session_id ≡ q.consumer_session_id
  same_id : r.consumer_id ≡ q.consumer_id
  on : is_active r.state ≡ true
  room : is_full q s ≡ false
  new : has r.route_id s.routes ≡ false

admit_request-Fitting :
    (draw : ℕ → String) (forwards : Bool) (q : Asked) (s : Router) (r : Route)
    → admit_request draw forwards q s ≡ ok r
    → Fitting q r s
unfolding admit_request
admit_request-Fitting draw forwards q s r e =
    elim (Option-cases (next_route_id 16 0 draw s.routes)) [
      | inl stop ↦ absurd (ground (arith, stop))
      | inr (id, drawn) ↦
          let fresh = next_route_id-new 16 0 draw s.routes id drawn in
          record {
            same_session = ground (arith, drawn);
            same_id = ground (arith, drawn);
            on = ground (arith, drawn);
            room = ground (arith, drawn);
            new = ground (arith, drawn, fresh);
          }
    ]

pub route_request-IsTabled :
    (draw : ℕ → String) (forwards sent : Bool) (q : Asked) (s : Router)
    → IsTabled s
    → IsTabled (route_request draw forwards sent q s).1
unfolding route_request send_failed
route_request-IsTabled draw forwards sent q s x =
    elim (Result-cases (admit_request draw forwards q s)) [
      | inl (e, refused) ↦ rw (refused, route_request) x
      | inr (r, admitted) ↦
          let f = admit_request-Fitting draw forwards q s r admitted in
          let y = add_route-IsTabled q r s f.same_session f.same_id f.on f.room f.new x in
          elim (Bool-cases sent) [
            | inl went ↦ rw (admitted, went, route_request) y
            | inr failed ↦
                rw (admitted, failed, route_request)
                  (remove_route-IsTabled r (add_route r s)
                    (λ p e.
                      unfold add_route in
                      ground (arith, get-set r.route_id r.route_id r s.routes, e))
                    y)
          ]
    ]
