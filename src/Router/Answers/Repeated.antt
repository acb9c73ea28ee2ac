-- ===== src/Router/Answers/Repeated.antt =====
-- A request that has timed out, and the response that still comes
-- (packages/bridge-daemon/src/routing/application-router.ts).
use junon.Shared.{String, ◌≡◌, true, some, [], ◌∷◌, ◌==◌, arith}
use junon.Shared.Maps.{get, get-set}
use junon.Shared.Json.{Fields, object, text, get_field}
use junon.Registry.Data.{Connection, adapter, same_role}
use junon.Router.Data.{cancelled, Route, Router, is_active}
use junon.Router.Table.{expire_route, mark_cancelled}
use junon.Router.Answers.{Setting, is_unbounded, find_route, handle_route, handle_response}
use junon.Router.Answers.Settled.{answers}
use junon.Router.Tabled.{IsTabled}

-- A request that its timer has answered with TIMEOUT is answered once more, under the same ID, when its
-- adapter's response comes within the grace period and has more symbols or locations than the router takes.
pub handle_response-repeats :
    (k : Setting) (c : Connection) (value : Fields) (id : String) (r : Route) (s : Router)
    → IsTabled s
    → same_role c.session.role adapter ≡ true
    → get_field "id" value ≡ some (text id)
    → get id s.routes ≡ some r
    → is_active r.state ≡ true
    → r.adapter_session_id == c.session.session_id ≡ true
    → is_unbounded r.method value ≡ true
    → (answers (expire_route id s).0 ≡ (r.consumer_session_id, r.consumer_id) ∷ [])
      × (answers (handle_response k c (object value) (expire_route id s).1).0
          ≡ (r.consumer_session_id, r.consumer_id) ∷ [])
unfolding expire_route mark_cancelled handle_response find_route handle_route answers
handle_response-repeats k c value id r s x role named found live mine large =
    let r' : Route = record r { state = cancelled } in
    let keyed = x.keyed id r found in
    let after = get-set r.route_id id r' s.routes in
    ground (arith, role, named, found, live, mine, large, keyed, after)
