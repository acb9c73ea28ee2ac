-- ===== src/Router/Tests/Messages.antt =====
-- The theorems on messages at a router with one adapter and one consumer.
use junon.Shared.{◌≡◌, ◌==◌, some, [], ◌∷◌, refl, true, none, contains, text_discrete}
use junon.Shared.Maps.{get}
use junon.Registry.Data.{consumer, adapter, SessionRecord, RemovedSession, new_registry}
use junon.Registry.Ops.{close_session}
use junon.Router.Data.{Router}
use junon.Router.Requests.{session_closed}
use junon.Router.Sending.{send_failed}
use junon.Router.Sending.Repeats.{told, send_failed-repeats}
use junon.Router.Tests.Replies.{route, busy}
use junon.Router.Edits.{Call, EditParams}
use junon.Router.Dispatch.{Outside, routes}
use junon.Router.Handle.{handle_request}
use junon.Router.Handle.Answered.{Answered, handle_request-Answered}
use junon.Router.Tests.{connect, router, ask, draw}

abbrev outside : Outside
outside = record { accepts = λ r. true }

abbrev asked : Call
asked = record {
  asked = record ask { method = "refactor/prepare" };
  workspace_id = "w1";
  now = 0;
  draw = draw;
  forwards = true;
  sent = true;
}

abbrev params : EditParams
params = record {
  plan_id = "";
  undo_token = record {
    id = "";
    adapter_id = "";
    session_id = "";
    workspace_id = "";
    expires_at = none;
  };
}

handle_request-Answered_example :
    Answered "c1" "number:7" asked.asked.method
      (handle_request outside (connect "c1" consumer 2) "number:7" (routes asked params) router)
unfolding contains text_discrete
handle_request-Answered_example =
    handle_request-Answered outside (connect "c1" consumer 2) "number:7" (routes asked params)
      router refl refl

abbrev lone : SessionRecord
lone = record { connection = connect "s1" adapter 1; snapshot = (connect "s1" adapter 1).session }

-- The adapter's session is open, and its route is in the table.
abbrev sending : Router
sending = record busy { registry = record new_registry { sessions = ("s1", lone) ∷ [] } }

abbrev ended : RemovedSession
ended = record { session = lone.snapshot; adapter = none; workspaces = [] }

route_found : get "route_a" sending.routes ≡ some route
unfolding get text_discrete
route_found = refl

s1_ends : (close_session "s1" sending.registry).0 ≡ some ended
unfolding close_session get text_discrete
s1_ends = refl

s1_is_s1 : route.adapter_session_id == "s1" ≡ true
unfolding text_discrete
s1_is_s1 = refl

send_failed-repeats_example :
    (told "c1" "number:1" (session_closed "s1" sending).0 ≡ true)
    × (told "c1" "number:1" (send_failed route (session_closed "s1" sending).1).0 ≡ true)
send_failed-repeats_example =
    send_failed-repeats "s1" "route_a" route sending ended route_found refl s1_is_s1 s1_ends
