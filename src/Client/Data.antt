-- ===== src/Client/Data.antt =====
-- The state of `ClientJsonRpcEngine` in packages/bridge-client/src/connection/json-rpc-engine.ts. A request
-- identifier is a text that keeps the type of the identifier; a promise, an inbound request and its
-- handler are told apart by numbers that are not given twice.
use junon.Shared.{ℕ, String, Bool, true, false, List}
use junon.Shared.Maps.{Map}
use junon.Registry.Data.{Role}

pub data SocketState : Type 0 where
  connecting opened closing closed : SocketState

pub data Failure : Type 0 where
  configuration connection protocol_violation : Failure
  cancelled timed_out : String → Failure
  rpc : String → Failure

-- A request's method and promise, and an inbound request's method and object.
pub record Pending : Type 0 where
  pub method : String
  pub promise : ℕ

pub record InboundRequest : Type 0 where
  pub method : String
  pub token : ℕ

pub record Running : Type 0 where
  pub id : String
  pub token : ℕ

-- What the engine does beside its state: it settles promises, sends, runs a handler or aborts its signal,
-- tells the handlers of a notification, and closes the socket.
pub data Effect : Type 0 where
  resolves : ℕ → Effect
  rejects : ℕ → Failure → Effect
  sends_request : String → String → Effect
  sends_notification : String → Effect
  sends_cancellation : String → Effect
  answers_result : ℕ → String → Effect
  answers_error : ℕ → String → String → Effect
  runs : ℕ → String → Effect
  aborts : ℕ → Effect
  tells : String → List ℕ → Effect
  closes : ℕ → Effect
  terminates : Effect

-- A handler set of a method is the number of a Set that was made, which its disposers keep.
pub record Engine : Type 0 where
  pub socket : SocketState
  pub role : Role
  pub pending : Map Pending
  pub late_responses : Map String
  pub inbound : Map InboundRequest
  pub inbound_completions : Map (Unit {0})
  pub request_handlers : Map ℕ
  pub running : List Running
  pub notification_handlers : Map ℕ
  pub handler_sets : List (List ℕ)
  pub max_inbound_requests : ℕ
  pub next_promise : ℕ
  pub next_token : ℕ

abbrev pub max_late_response_ids : ℕ
max_late_response_ids = 1024

abbrev pub is_open : SocketState → Bool
is_open opened = true
is_open _ = false

abbrev pub is_closed : SocketState → Bool
is_closed closed = true
is_closed _ = false
