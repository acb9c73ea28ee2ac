-- ===== src/Router/Sending.antt =====
-- What `#routeRequest` and `#routeEditRequest` of packages/bridge-daemon/src/routing/application-router.ts do
-- after the `await` of the send to the adapter, when it fails. Other messages and timers may be
-- handled before each of these steps: the route is the object that was stored, whatever the table has by then.
pub mod Repeats
use junon.Shared.{String, Bool, true, Option, none, some, List, [], ◌∷◌, ◌==◌}
use junon.Shared.Maps.{get}
use junon.Router.Data.{Route, Router, Message, error_response, adapter_disconnected, key_of}
use junon.Router.Table.{remove_route, release_operation}

-- The `catch` of the send.
unfoldable pub send_failed : Route → Router → List Message × Router
send_failed r s =
    (error_response r.consumer_session_id r.consumer_id adapter_disconnected ∷ [], remove_route r s)

-- `if (!routed)`, after the `await` of the answer in that `catch`.
unfoldable pub unrouted : Route → Router → Router
unrouted r s = record s { edit_store = release_operation r.edit_operation s.edit_store }

-- No other request's route has the ID: it is not drawn again while a send is awaited.
unfoldable pub is_own : Route → Router → Bool
is_own r s = elim (get r.route_id s.routes) [ none ↦ true | some q ↦ key_of q == key_of r ]
