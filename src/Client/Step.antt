-- ===== src/Client/Step.antt =====
-- `ClientJsonRpcEngine` as a state machine: the calls of its methods, its timers, the messages and the events
-- of its socket (packages/bridge-client/src/connection/json-rpc-engine.ts).
use junon.Shared.{
  ℕ, String, Bool, ◌&&◌, leb, Option, none, some, List, [], ◌∷◌, ◌++◌, if◌then◌else◌,
}
use junon.Registry.Data.{Role}
use junon.Client.Data.{opened, cancelled, timed_out, Running, Effect, Engine}
use junon.Client.Requests.{
  Call, request, give_up, forget_late_response, request_send_failed, fail_connection, socket_closed,
}
use junon.Client.Inbound.{
  Incoming, receive, Outcome, handler_ended, inbound_timed_out, forget_inbound_completion,
}
use junon.Client.Handlers.{
  on_request, off_request, on_notification, off_notification, notify, close,
}

pub data Event : Type 0 where
  requests : Call → Event
  request_aborts request_times_out late_expires completion_expires send_fails : String → Event
  receives : Incoming → Event
  handler_ends : Running → Outcome → Event
  inbound_times_out : Running → Event
  handles unhandles : String → ℕ → Event
  listens : String → ℕ → Event
  unlistens : String → ℕ → ℕ → Event
  notifies : String → Bool → Event
  answer_fails socket_fails socket_closes closing_asked : Event

abbrev pub or_nothing : Option (List Effect) → List Effect
or_nothing none = []
or_nothing (some es) = es

abbrev pub or_same : Option Engine → Engine → Engine
or_same none s = s
or_same (some t) s = t

unfoldable pub step : Engine → Event → List Effect × Engine
step s (requests q) = request q s
step s (request_aborts id) = give_up cancelled id s
step s (request_times_out id) = give_up timed_out id s
step s (late_expires id) = ([], forget_late_response id s)
step s (completion_expires id) = ([], forget_inbound_completion id s)
step s (send_fails id) = request_send_failed id s
step s (receives message) = receive message s
step s (handler_ends h outcome) = handler_ended h outcome s
step s (inbound_times_out h) = inbound_timed_out h s
step s (handles method handler) = ([], or_same (on_request method handler s) s)
step s (unhandles method handler) = ([], off_request method handler s)
step s (listens method handler) = ([], or_same (on_notification method handler s) s)
step s (unlistens method n handler) = ([], off_notification method n handler s)
step s (notifies method valid) = (or_nothing (notify method valid s), s)
step s closing_asked = close s
step s answer_fails = fail_connection s
step s socket_fails = fail_connection s
step s socket_closes = socket_closed s

-- The effects of a run, in their order, and its end.
unfoldable pub run : Engine → List Event → List Effect × Engine
run s [] = ([], s)
run s (e ∷ es) = let (now, s') = step s e in let (later, t) = run s' es in (now ++ later, t)

-- An engine on an open socket.
abbrev pub new_engine : Role → ℕ → Engine
new_engine role max_inbound_requests = record {
  socket = opened;
  role = role;
  pending = [];
  late_responses = [];
  inbound = [];
  inbound_completions = [];
  request_handlers = [];
  running = [];
  notification_handlers = [];
  handler_sets = [];
  max_inbound_requests = max_inbound_requests;
  next_promise = 0;
  next_token = 0;
}

unfoldable pub are_limits : ℕ → ℕ → Bool
are_limits timeout maximum =
    leb 1 timeout && leb timeout 300000 && leb 1 maximum && leb maximum 1024

abbrev pub or_default : Option ℕ → ℕ → ℕ
or_default none d = d
or_default (some n) d = n

-- The constructor, with its options; `none` where it throws.
unfoldable pub make_engine : Role → Option ℕ → Option ℕ → Option Engine
make_engine role timeout maximum =
    if are_limits (or_default timeout 30000) (or_default maximum 128)
    then some (new_engine role (or_default maximum 128))
    else none
