-- ===== src/Client/Inbound.antt =====
-- What `ClientJsonRpcEngine` receives, and the requests that it answers
-- (packages/bridge-client/src/connection/json-rpc-engine.ts).
use junon.Shared.{
  ℕ, zero, suc, ◌+◌, String, Bool, true, false, ◌&&◌, not, Option, none, some, List, [], ◌∷◌, ◌++◌,
  leb, eqb, length, contains, keep, any, ◌==◌, if◌then◌else◌,
}
use junon.Shared.Maps.{get, has, set, delete}
use junon.Registry.Data.{Role, adapter, consumer}
use junon.Protocol.Methods.{routed_methods, is_application_method, consumer_inbound_notifications}
use junon.Client.Data.{
  rpc, Pending, InboundRequest, Running, Effect, resolves, rejects, answers_result, answers_error,
  runs, aborts, tells, Engine, is_open,
}
use junon.Client.Requests.{make_room, take_pending, forget_late_response, violation}

-- What a response says: an error with its code, or a result, and of which methods the schema takes it.
pub data Reply : Type 0 where
  failed : String → Reply
  result : (String → Bool) → Reply

abbrev pub fits : String → Reply → Bool
fits method (failed code) = true
fits method (result takes) = takes method

-- A message, as it is read: the identifier of a response; the method and the identifier of a request, where they
-- are a text and an identifier, and whether the schema takes it; a notification that is valid.
pub data Incoming : Type 0 where
  malformed : Incoming
  response : String → Reply → Incoming
  call : Option String → Option String → Bool → Incoming
  invalid_notice : Incoming
  cancel_notice : String → Incoming
  notice : String → Incoming

abbrev pub settled : Option Pending → Reply → List Effect
settled none reply = []
settled (some p) (failed code) = rejects p.promise (rpc code) ∷ []
settled (some p) (result takes) = resolves p.promise ∷ []

-- A response.
unfoldable pub receive_response : String → Reply → Engine → List Effect × Engine
receive_response id reply s =
    let late : List Effect × Engine = elim (get id s.late_responses) [
      | none ↦ violation s
      | some method ↦ if fits method reply then ([], forget_late_response id s) else violation s
    ] in
    elim (get id s.pending) [
      | none ↦ late
      | some p ↦
          if fits p.method reply
          then (settled (take_pending id s).0 reply, (take_pending id s).1)
          else violation s
    ]

-- `#rememberInboundCompletion`
unfoldable pub remember_inbound_completion : String → Engine → Engine
remember_inbound_completion id s = record s {
  inbound_completions = set id tt (make_room s.inbound_completions);
}

-- `#forgetInboundCompletion`, and the timer of a completion.
unfoldable pub forget_inbound_completion : String → Engine → Engine
forget_inbound_completion id s = record s { inbound_completions = delete id s.inbound_completions }

-- `#sendInboundMessage`
abbrev pub answer : Effect → Engine → List Effect
answer e s = if is_open s.socket then e ∷ [] else []

abbrev pub is_token : Option ℕ → ℕ → Bool
is_token none n = true
is_token (some m) n = eqb n m

-- `#takeInbound`, with the request that is expected.
unfoldable pub take_inbound : String → Option ℕ → Engine → Option InboundRequest × Engine
take_inbound id expected s = elim (get id s.inbound) [
  | none ↦ (none, s)
  | some r ↦
      if is_token expected r.token
      then (some r, record s { inbound = delete id s.inbound })
      else (none, s)
]

abbrev pub numbered : Engine → Engine
numbered s = record s { next_token = s.next_token + 1 }

-- A request that is answered at once.
unfoldable pub refuse_inbound : String → String → Engine → List Effect × Engine
refuse_inbound id code s =
    (answer (answers_error s.next_token id code) s, remember_inbound_completion id (numbered s))

-- A request whose handler starts.
unfoldable pub start_inbound : String → String → Engine → List Effect × Engine
start_inbound id method s =
    let r : InboundRequest = record { method = method; token = s.next_token } in
    let h : Running = record { id = id; token = s.next_token } in
    (
      runs s.next_token method ∷ [],
      record (numbered s) { inbound = set id r s.inbound; running = s.running ++ (h ∷ []) },
    )

unfoldable pub accept_call : String → String → Engine → List Effect × Engine
accept_call method id s =
    if not (has method s.request_handlers)
    then refuse_inbound id "CAPABILITY_UNAVAILABLE" s
    else if leb s.max_inbound_requests (length s.running)
    then refuse_inbound id "PRECONDITION_FAILED" s
    else start_inbound id method s

abbrev pub is_adapter : Role → Bool
is_adapter adapter = true
is_adapter consumer = false

-- `#handleIncomingRequest`
unfoldable pub receive_call : Option String → Option String → Bool → Engine → List Effect × Engine
receive_call none id valid s = violation s
receive_call (some method) none valid s = violation s
receive_call (some method) (some id) valid s =
    if is_adapter s.role
      && is_application_method method
      && contains method routed_methods
      && valid
      && not (has id s.inbound)
      && not (has id s.inbound_completions)
    then accept_call method id s
    else violation s

-- The handlers of the n-th Set.
unfoldable pub handlers_at : ℕ → List (List ℕ) → List ℕ
handlers_at n [] = []
handlers_at zero (hs ∷ sets) = hs
handlers_at (suc n) (hs ∷ sets) = handlers_at n sets

unfoldable pub replace_at : ℕ → List ℕ → List (List ℕ) → List (List ℕ)
replace_at n hs [] = []
replace_at zero hs (old ∷ sets) = hs ∷ sets
replace_at (suc n) hs (old ∷ sets) = old ∷ replace_at n hs sets

-- `#dispatchNotification`
unfoldable pub dispatch_notification : String → Engine → List Effect
dispatch_notification method s = elim (get method s.notification_handlers) [
  | none ↦ []
  | some n ↦ tells method (handlers_at n s.handler_sets) ∷ []
]

-- The notification `$/cancelRequest`, for an adapter.
unfoldable pub receive_cancellation : String → Engine → List Effect × Engine
receive_cancellation id s =
    let (taken, s') = take_inbound id none s in
    let gone : List Effect × Engine =
      if has id s'.inbound_completions
      then ([], forget_inbound_completion id s')
      else violation s' in
    elim taken [
      | none ↦ gone
      | some r ↦ (
        aborts r.token ∷ answer (answers_error r.token id "CANCELLED") s'
            ++ dispatch_notification "$/cancelRequest" s',
        remember_inbound_completion id s',
      )
    ]

unfoldable pub receive : Incoming → Engine → List Effect × Engine
receive malformed s = violation s
receive (response id reply) s = receive_response id reply s
receive (call method id valid) s = receive_call method id valid s
receive invalid_notice s = violation s
receive (cancel_notice id) s = if is_adapter s.role then receive_cancellation id s else violation s
receive (notice method) s =
    if not (is_adapter s.role) && contains method consumer_inbound_notifications
    then (dispatch_notification method s, s)
    else violation s

-- What a handler comes to: a result that the schema takes or not, or an error with its code, if the schema takes it.
pub data Outcome : Type 0 where
  returned : Bool → Outcome
  threw : Option String → Outcome

-- `#sendInboundSuccess` and `#sendInboundError`
abbrev pub outcome_answer : ℕ → String → Outcome → Effect
outcome_answer token id (returned true) = answers_result token id
outcome_answer token id (returned false) = answers_error token id "PROVIDER_FAILED"
outcome_answer token id (threw none) = answers_error token id "PROVIDER_FAILED"
outcome_answer token id (threw (some code)) = answers_error token id code

-- The end of a handler, for its own request alone.
unfoldable pub handler_ended : Running → Outcome → Engine → List Effect × Engine
handler_ended h outcome s₀ =
    let s : Engine = record s₀ {
      running = keep (λ (r : Running). not (eqb r.token h.token)) s₀.running;
    } in
    let (taken, s') = take_inbound h.id (some h.token) s in
    if any (λ (r : Running). eqb r.token h.token && r.id == h.id) s₀.running
    then elim taken [
      | none ↦ ([], s')
      | some r ↦
          (answer (outcome_answer r.token h.id outcome) s', remember_inbound_completion h.id s')
    ]
    else ([], s₀)

-- The timer of an inbound request.
unfoldable pub inbound_timed_out : Running → Engine → List Effect × Engine
inbound_timed_out h s =
    let (taken, s') = take_inbound h.id (some h.token) s in
    elim taken [
      | none ↦ ([], s')
      | some r ↦ (
        aborts r.token ∷ answer (answers_error r.token h.id "TIMEOUT") s',
        remember_inbound_completion h.id s',
      )
    ]
