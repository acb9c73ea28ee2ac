-- ===== src/Client/Requests.antt =====
-- The requests that `ClientJsonRpcEngine` sends, and how each of them is settled
-- (packages/bridge-client/src/connection/json-rpc-engine.ts).
use junon.Shared.{
  ℕ, zero, suc, ◌+◌, String, Bool, true, ◌&&◌, ◌||◌, not, Option, none, some, List, [], ◌∷◌, ◌++◌,
  leb, length, contains, if◌then◌else◌,
}
use junon.Shared.Maps.{Map, get, has, set, delete}
use junon.Registry.Data.{Role, adapter, consumer}
use junon.Protocol.Methods.{adapter_originated_methods, consumer_local_methods, routed_methods}
use junon.Client.Data.{
  closing, closed, Failure, configuration, connection, protocol_violation, cancelled, Pending,
  Effect, rejects, sends_request, sends_cancellation, aborts, closes, terminates, Engine,
  max_late_response_ids, is_open, is_closed,
}

abbrev pub first_key {ℓ} : {V : Type ℓ} → Map V → Option String
first_key [] = none
first_key ((k, v) ∷ m) = some k

abbrev pub keys {ℓ} : {V : Type ℓ} → Map V → List String
keys [] = []
keys ((k, v) ∷ m) = k ∷ keys m

-- `if (map.size >= 1024)` the oldest entry goes.
unfoldable pub make_room {ℓ} : {V : Type ℓ} → Map V → Map V
make_room m = elim (first_key m) [
  | none ↦ m
  | some oldest ↦ if leb max_late_response_ids (length m) then delete oldest m else m
]

-- `#rememberLateResponse`
unfoldable pub remember_late_response : String → String → Engine → Engine
remember_late_response id method s = record s {
  late_responses = set id method (make_room s.late_responses);
}

-- `#forgetLateResponse`, and the timer of a late response.
unfoldable pub forget_late_response : String → Engine → Engine
forget_late_response id s = record s { late_responses = delete id s.late_responses }

-- `#takePending`
unfoldable pub take_pending : String → Engine → Option Pending × Engine
take_pending id s = elim (get id s.pending) [
  | none ↦ (none, s)
  | some p ↦ (some p, record s { pending = delete id s.pending })
]

-- The loop of `#rejectAll`.
unfoldable pub reject_each : Failure → List String → Engine → List Effect × Engine
reject_each e [] s = ([], s)
reject_each e (id ∷ ids) s =
    let (taken, s') = take_pending id s in
    let rest = reject_each e ids s' in
    elim taken [ none ↦ rest | some p ↦ (rejects p.promise e ∷ rest.0, rest.1) ]

unfoldable pub reject_all : Failure → Engine → List Effect × Engine
reject_all e s = reject_each e (keys s.pending) s

-- `#abortAllInbound` aborts each controller as its request is taken.
unfoldable pub abort_each : List String → Engine → List Effect × Engine
abort_each [] s = ([], s)
abort_each (id ∷ ids) s = elim (get id s.inbound) [
  | none ↦ abort_each ids s
  | some r ↦
      let (sent, s') = abort_each ids (record s { inbound = delete id s.inbound }) in
      (aborts r.token ∷ sent, s')
]

-- `#rejectAll`, `#abortAllInbound` and `#clearInboundCompletions`.
unfoldable pub drop_all : Failure → Engine → List Effect × Engine
drop_all e s =
    let (rejected, s') = reject_all e s in
    let (aborted, s'') = abort_each (keys s'.inbound) s' in
    (rejected ++ aborted, record s'' { inbound_completions = [] })

-- `#failConnection`
unfoldable pub fail_connection : Engine → List Effect × Engine
fail_connection s =
    let (sent, s') = drop_all connection s in
    if is_closed s.socket
    then (sent, s')
    else (sent ++ (terminates ∷ []), record s' { socket = closing })

-- `#protocolViolation`
unfoldable pub violation : Engine → List Effect × Engine
violation s =
    let (sent, s') = drop_all protocol_violation s in
    if is_open s.socket
    then (sent ++ (closes 1002 ∷ []), record s' { socket = closing })
    else if is_closed s.socket
    then (sent, s')
    else (sent ++ (terminates ∷ []), record s' { socket = closing })

-- The event "close" of the socket.
unfoldable pub socket_closed : Engine → List Effect × Engine
socket_closed s =
    let (sent, s') = drop_all connection s in
    (sent, record s' { socket = closed; late_responses = [] })

-- `#sendCancellationBestEffort`; the schema takes the notification.
abbrev pub cancellation : String → Engine → List Effect
cancellation id s = if is_open s.socket then sends_cancellation id ∷ [] else []

-- What the timer and the signal of a request do.
unfoldable pub give_up : (String → Failure) → String → Engine → List Effect × Engine
give_up why id s =
    let (taken, s') = take_pending id s in
    elim taken [
      | none ↦ ([], s')
      | some p ↦ (
        cancellation id s ++ (rejects p.promise (why p.method) ∷ []),
        remember_late_response id p.method s',
      )
    ]

-- `#createRequestId` with so many drawings left; `none` while it still draws.
unfoldable pub create_request_id : ℕ → ℕ → (ℕ → String) → Engine → Option String
create_request_id zero i draw s = none
create_request_id (suc left) i draw s =
    let later = create_request_id left (suc i) draw s in
    if has (draw i) s.pending || has (draw i) s.late_responses then later else some (draw i)

-- A call of `request`: its method and time limit, whether its signal is aborted before and after it is
-- registered, whether the schema takes it, and the IDs that are drawn.
pub record Call : Type 0 where
  pub method : String
  pub timeout_ms : Option ℕ
  pub aborted : Bool
  pub aborted_since : Bool
  pub valid : Bool
  pub drawings : ℕ
  pub draw : ℕ → String

unfoldable pub is_authorized : Role → String → Bool
is_authorized adapter method = contains method adapter_originated_methods
is_authorized consumer method = contains method (consumer_local_methods ++ routed_methods)

unfoldable pub is_time_limit : Option ℕ → Bool
is_time_limit none = true
is_time_limit (some n) = leb 1 n && leb n 300000

-- The guards of `request`, in their order.
unfoldable pub refusal : Call → Engine → Option Failure
refusal q s =
    if not (is_authorized s.role q.method)
    then some configuration
    else if not (is_time_limit q.timeout_ms)
    then some configuration
    else if q.aborted
    then some (cancelled q.method)
    else if not (is_open s.socket)
    then some connection
    else none

-- The number of the promise that a call returns is taken.
abbrev pub promised : Engine → Engine
promised s = record s { next_promise = s.next_promise + 1 }

abbrev pub refused_call : Failure → Engine → List Effect × Engine
refused_call e s = (rejects s.next_promise e ∷ [], promised s)

-- A request that has its ID.
unfoldable pub register_call : Call → String → Engine → List Effect × Engine
register_call q id s =
    let p : Pending = record { method = q.method; promise = s.next_promise } in
    let s' : Engine = record (promised s) { pending = set id p s.pending } in
    if q.aborted_since then give_up cancelled id s' else (sends_request id q.method ∷ [], s')

-- `request`
unfoldable pub request : Call → Engine → List Effect × Engine
request q s =
    let sending : List Effect × Engine = elim (create_request_id q.drawings 0 q.draw s) [
      | none ↦ ([], s)
      | some id ↦ if q.valid then register_call q id s else refused_call configuration s
    ] in
    elim (refusal q s) [ some e ↦ refused_call e s | none ↦ sending ]

-- The callback of the send of a request.
unfoldable pub request_send_failed : String → Engine → List Effect × Engine
request_send_failed id s = if has id s.pending then fail_connection s else ([], s)
