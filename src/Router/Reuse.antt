-- ===== src/Router/Reuse.antt =====
-- A request ID that a consumer uses again while its cancelled route is still in the table
-- (packages/bridge-daemon/src/routing/application-router.ts).
use junon.Shared.{◌≡◌, false, some, [], arith, ◌==◌}
use junon.Shared.Maps.{get, has, get-delete}
use junon.Router.Data.{Route, Router, key_of, is_active}
use junon.Router.Table.{remove_route, forget_route, cancel_by_consumer}

-- A cancelled route that is forgotten takes with it the record of a later request of the same
-- consumer under the same ID, whose route is in the table too: that route stays there, and its
-- consumer can no longer cancel it.
pub forget_route-loses :
    (s : Router) (old new : Route)
    → get old.route_id s.routes ≡ some old
    → is_active old.state ≡ false
    → get new.route_id s.routes ≡ some new
    → (old.route_id == new.route_id) ≡ false
    → old.consumer_session_id ≡ new.consumer_session_id
    → old.consumer_id ≡ new.consumer_id
    → (get new.route_id (forget_route old.route_id s).routes ≡ some new)
      × (has (key_of new) (forget_route old.route_id s).consumer_requests ≡ false)
      × (cancel_by_consumer new.consumer_session_id new.consumer_id (forget_route old.route_id s)
          ≡ ([], forget_route old.route_id s))
unfolding forget_route remove_route cancel_by_consumer
forget_route-loses s old new found off there apart session id =
    let lost = get-delete (key_of old) (key_of new) s.consumer_requests in
    let kept = get-delete old.route_id new.route_id s.routes in
    (
      ground (arith, found, off, there, apart, kept),
      ground (arith, found, off, session, id, lost),
      ground (arith, found, off, session, id, lost),
    )
