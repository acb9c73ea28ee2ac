-- ===== src/Client/Settled/Answers.antt =====
-- What answers a request, or starts or ends a handler, settles no promise
-- (packages/bridge-client/src/connection/json-rpc-engine.ts).
use junon.Shared.{
  ℕ, String, ◌≡◌, refl, Bool, ◌&&◌, not, Option, none, some, List, [], arith, contains,
  Option-cases, Bool-cases, inl, inr,
}
use junon.Shared.Maps.{has}
use junon.Shared.Maps.Distinct.{Distinct}
use junon.Client.Data.{Running, Effect, answers_error, Engine}
use junon.Client.Inbound.{
  Incoming, malformed, response, call, invalid_notice, cancel_notice, notice, receive_call,
  receive_cancellation, receive, accept_call, refuse_inbound, start_inbound, take_inbound,
  dispatch_notification, remember_inbound_completion, forget_inbound_completion, Outcome,
  handler_ended, inbound_timed_out, is_adapter, answer,
}
use junon.Client.Settled.{settlements, settlements-append, owed, Balanced, still_Balanced}
use junon.Client.Settled.Calls.{violation-Balanced, receive_response-Balanced}
use junon.Protocol.Methods.{routed_methods, is_application_method, consumer_inbound_notifications}

take_inbound-pending :
    (id : String) (expected : Option ℕ) (s : Engine)
    → ((take_inbound id expected s).1.pending ≡ s.pending)
      × ((take_inbound id expected s).1.next_promise ≡ s.next_promise)
unfolding take_inbound
take_inbound-pending id expected s = ground arith

dispatch-settlements :
    (p : ℕ) (method : String) (s : Engine) → settlements p (dispatch_notification method s) ≡ 0
unfolding dispatch_notification settlements
dispatch-settlements p method s = ground arith

accept_call-Balanced :
    (p : ℕ) (method id : String) (s : Engine)
    → Distinct s.pending
    → Balanced p s (accept_call method id s).0 (accept_call method id s).1
unfolding accept_call refuse_inbound start_inbound remember_inbound_completion settlements
accept_call-Balanced p method id s d =
    still_Balanced p s (accept_call method id s).1 (accept_call method id s).0 d (ground arith)
      (ground arith) (ground arith)

receive_call-Balanced :
    (p : ℕ) (method id : Option String) (valid : Bool) (s : Engine)
    → Distinct s.pending
    → Balanced p s (receive_call method id valid s).0 (receive_call method id valid s).1
unfolding receive_call
receive_call-Balanced p none id valid s d = violation-Balanced p s d
receive_call-Balanced p (some method) none valid s d = violation-Balanced p s d
receive_call-Balanced p (some method) (some id) valid s d =
    elim (Bool-cases (
      is_adapter s.role
      && is_application_method method
      && contains method routed_methods
      && valid
      && not (has id s.inbound)
      && not (has id s.inbound_completions))) [
        | inl good ↦ rw good (accept_call-Balanced p method id s d)
        | inr bad ↦ rw bad (violation-Balanced p s d)
      ]

through :
    (p : ℕ) (s t : Engine) (es : List Effect) (u : Engine)
    → t.pending ≡ s.pending
    → t.next_promise ≡ s.next_promise
    → Balanced p t es u
    → Balanced p s es u
unfolding owed
through p s t es u same next x = record {
  balance = rw⁻¹ same x.balance;
  distinct = x.distinct;
  next = ground (arith, next, x.next);
}

receive_cancellation-Balanced :
    (p : ℕ) (id : String) (s : Engine)
    → Distinct s.pending
    → Balanced p s (receive_cancellation id s).0 (receive_cancellation id s).1
unfolding receive_cancellation remember_inbound_completion forget_inbound_completion settlements
receive_cancellation-Balanced p id s d =
    let s' = (take_inbound id none s).1 in
    let (same, next) = take_inbound-pending id none s in
    elim (Option-cases (take_inbound id none s).0) [
      | inl absent ↦ elim (Bool-cases (has id s'.inbound_completions)) [
        | inl done ↦
            rw (receive_cancellation, absent, done) (still_Balanced p s _ [] d same next refl)
        | inr never ↦
            rw (receive_cancellation, absent, never)
              (through p s s' _ _ same next (violation-Balanced p s' (rw same d)))
      ]
      | inr (r, found) ↦
          rw (receive_cancellation, found)
            (still_Balanced p s _ _ d same next (
              ground (
                arith,
                dispatch-settlements p "$/cancelRequest" s',
                settlements-append p (answer (answers_error r.token id "CANCELLED") s')
                    (dispatch_notification "$/cancelRequest" s'),
              )))
    ]

pub receive-Balanced :
    (p : ℕ) (message : Incoming) (s : Engine)
    → Distinct s.pending
    → Balanced p s (receive message s).0 (receive message s).1
unfolding receive
receive-Balanced p malformed s d = violation-Balanced p s d
receive-Balanced p (response id reply) s d = receive_response-Balanced p id reply s d
receive-Balanced p (call method id valid) s d = receive_call-Balanced p method id valid s d
receive-Balanced p invalid_notice s d = violation-Balanced p s d
receive-Balanced p (cancel_notice id) s d = elim (Bool-cases (is_adapter s.role)) [
  | inl provider ↦ rw provider (receive_cancellation-Balanced p id s d)
  | inr client ↦ rw client (violation-Balanced p s d)
]
receive-Balanced p (notice method) s d =
    elim (Bool-cases (not (is_adapter s.role) && contains method consumer_inbound_notifications)) [
      | inl known ↦ rw known (still_Balanced p s s _ d refl refl (dispatch-settlements p method s))
      | inr unknown ↦ rw unknown (violation-Balanced p s d)
    ]

pub handler_ended-Balanced :
    (p : ℕ) (h : Running) (outcome : Outcome) (s : Engine)
    → Distinct s.pending
    → Balanced p s (handler_ended h outcome s).0 (handler_ended h outcome s).1
unfolding handler_ended remember_inbound_completion take_inbound settlements
handler_ended-Balanced p h outcome s d =
    still_Balanced p s (handler_ended h outcome s).1 (handler_ended h outcome s).0 d (ground arith)
      (ground arith) (ground arith)

pub inbound_timed_out-Balanced :
    (p : ℕ) (h : Running) (s : Engine)
    → Distinct s.pending
    → Balanced p s (inbound_timed_out h s).0 (inbound_timed_out h s).1
unfolding inbound_timed_out remember_inbound_completion take_inbound settlements
inbound_timed_out-Balanced p h s d =
    still_Balanced p s (inbound_timed_out h s).1 (inbound_timed_out h s).0 d (ground arith)
      (ground arith) (ground arith)
