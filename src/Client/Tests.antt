-- ===== src/Client/Tests.antt =====
-- The theorems at an engine with one request.
use junon.Shared.{
  ℕ, zero, suc, ◌+◌, arith, refl, contains, text_discrete, ◌≡◌, true, false, none, List, [], ◌∷◌,
  ◌++◌, ltb, if◌then◌else◌, String,
}
use junon.Registry.Data.{consumer}
use junon.Client.Requests.{Call, request}
use junon.Client.Data.{tells, Engine}
use junon.Client.Inbound.{response, result, dispatch_notification, handlers_at}
use junon.Client.Handlers.{on_notification, off_notification, is_received}
use junon.Client.Step.{
  Event, requests, receives, request_times_out, or_same, socket_closes, step, run, new_engine,
}
use junon.Client.Drawings.{Differ, request-returns}
use junon.Client.Listeners.{off_notification-repeats}
use junon.Client.Settled.{settlements, owed}
use junon.Client.Settled.Runs.{run-new_engine-settles}
use junon.Client.Settled.Closed.{run-closed-settles}

abbrev read_call : Call
read_call = record {
  method = "document/read";
  timeout_ms = none;
  aborted = false;
  aborted_since = false;
  valid = true;
  drawings = 1;
  draw = λ n. "string:request_a";
}

abbrev events : List Event
events =
    requests read_call
    ∷ request_times_out "string:request_a"
    ∷ receives (response "string:request_a" (result (λ method. true)))
    ∷ requests read_call
    ∷ []

run-new_engine-settles_example :
    settlements 0 (run (new_engine consumer 128) events).0
      + owed 0 (run (new_engine consumer 128) events).1
    ≡ (if ltb 0 (run (new_engine consumer 128) events).1.next_promise then 1 else 0)
run-new_engine-settles_example = run-new_engine-settles consumer 128 0 events

run-closed-settles_example :
    settlements 1 (
      (run (new_engine consumer 128) events).0
      ++ (step (run (new_engine consumer 128) events).1 socket_closes).0)
    ≡ (if ltb 1 (step (run (new_engine consumer 128) events).1 socket_closes).1.next_promise
        then 1
        else 0)
run-closed-settles_example = run-closed-settles consumer 128 1 events

-- The handler 1 of the Set 0, and no other.
abbrev listening : Engine
listening = record (new_engine consumer 128) {
  notification_handlers = ("adapter/disconnected", 0) ∷ [];
  handler_sets = (1 ∷ []) ∷ [];
}

off_notification-repeats_example :
    let first = off_notification "adapter/disconnected" 0 1 listening in
    let second = or_same (on_notification "adapter/disconnected" 2 first) first in
    let third = off_notification "adapter/disconnected" 0 1 second in
    (dispatch_notification "adapter/disconnected" first ≡ [])
    × (dispatch_notification "adapter/disconnected" second
        ≡ tells "adapter/disconnected" (2 ∷ []) ∷ [])
    × (dispatch_notification "adapter/disconnected" third ≡ [])
unfolding is_received handlers_at contains text_discrete
off_notification-repeats_example =
    off_notification-repeats "adapter/disconnected" 1 2 0 listening refl refl (omega arith)

-- An ID that is in use, and others.
abbrev second : ℕ → String
second zero = "string:request_a"
second (suc n) = "string:request_b"

second-Differ : Differ 2 second
unfolding text_discrete
second-Differ zero zero before last = absurd (omega (arith, before))
second-Differ zero (suc n) before last = refl
second-Differ (suc m) zero before last = absurd (omega (arith, before))
second-Differ (suc m) (suc n) before last = absurd (omega (arith, before, last))

abbrev waiting : Engine
waiting = record (new_engine consumer 128) {
  pending = ("string:request_a", record { method = "document/read"; promise = 0 }) ∷ [];
  next_promise = 1;
}

abbrev read_again : Call
read_again = record read_call { drawings = 2; draw = second }

request-returns_example : (request read_again waiting).1.next_promise ≡ 2
request-returns_example = request-returns read_again waiting second-Differ (omega arith)
