-- ===== src/Client/Settled/Runs.antt =====
-- Each request of `ClientJsonRpcEngine` is settled once in every run
-- (packages/bridge-client/src/connection/json-rpc-engine.ts).
use junon.Shared.{
  ℕ, zero, suc, ◌+◌, ◌≤◌, String, ◌≡◌, refl, Bool, false, ◌&&◌, some, List, [], ◌∷◌, arith, leb,
  ltb, keep, if◌then◌else◌, Option-cases, Bool-cases, inl, inr,
}
use junon.Shared.Maps.{has, set, values, count, count-set_new}
use junon.Shared.Maps.Distinct.{Distinct, set-Distinct}
use junon.Registry.Data.{Role}
use junon.Client.Data.{Pending, Effect, Failure, configuration, cancelled, timed_out, Engine}
use junon.Client.Requests.{
  Call, create_request_id, refusal, promised, refused_call, register_call, request,
  request_send_failed, forget_late_response,
}
use junon.Client.Inbound.{forget_inbound_completion}
use junon.Client.Handlers.{
  on_request, off_request, on_notification, off_notification, notify, close,
}
use junon.Client.Step.{
  Event, requests, request_aborts, request_times_out, late_expires, completion_expires, send_fails,
  receives, handler_ends, inbound_times_out, handles, unhandles, answer_fails, socket_fails,
  socket_closes, listens, unlistens, notifies, closing_asked, or_nothing, or_same, step, run,
  new_engine,
}
use junon.Client.Settled.{
  settlements, settlements-append, is_promise, owed, Balanced, still_Balanced,
}
use junon.Client.Settled.Calls.{fail_connection-Balanced, socket_closed-Balanced, give_up-Balanced}
use junon.Client.Settled.Answers.{
  receive-Balanced, handler_ended-Balanced, inbound_timed_out-Balanced,
}

-- The promise was made between two states.
abbrev born : ℕ → Engine → Engine → ℕ
born p s t = if leb s.next_promise p && ltb p t.next_promise then 1 else 0

pub record Stepped (p : ℕ) (s : Engine) (es : List Effect) (t : Engine) : Type 0 where
  pub balance : settlements p es + owed p t ≡ owed p s + born p s t
  pub distinct : Distinct t.pending
  pub next : s.next_promise ≤ t.next_promise

record_step :
    (p : ℕ) (s : Engine) (es : List Effect) (t : Engine) → Balanced p s es t → Stepped p s es t
record_step p s es t x = record {
  balance = ground (arith, x.balance, x.next);
  distinct = x.distinct;
  next = ground (arith, x.next);
}

refused_call-Stepped :
    (p : ℕ) (e : Failure) (s : Engine)
    → Distinct s.pending
    → Stepped p s (refused_call e s).0 (refused_call e s).1
unfolding settlements owed
refused_call-Stepped p e s d = record { balance = ground arith; distinct = d; next = omega arith }

create_request_id-new :
    (left i : ℕ) (draw : ℕ → String) (s : Engine) (id : String)
    → create_request_id left i draw s ≡ some id
    → has id s.pending ≡ false
unfolding create_request_id
create_request_id-new zero i draw s id e = cc
create_request_id-new (suc left) i draw s id e =
    ground (arith, create_request_id-new left (suc i) draw s id)

register_call-Stepped :
    (p : ℕ) (q : Call) (id : String) (s : Engine)
    → Distinct s.pending
    → has id s.pending ≡ false
    → Stepped p s (register_call q id s).0 (register_call q id s).1
unfolding register_call settlements owed
register_call-Stepped p q id s d new =
    let made : Pending = record { method = q.method; promise = s.next_promise } in
    let s' : Engine = record (promised s) { pending = set id made s.pending } in
    let d' = set-Distinct id made s.pending d in
    let more = count-set_new (is_promise p) id made s.pending new in
    elim (Bool-cases q.aborted_since) [
      | inl gone ↦
          let x = give_up-Balanced p cancelled id s' d' in
          rw (register_call, gone)
            (record {
              balance = ground (arith, x.balance, x.next, more);
              distinct = x.distinct;
              next = ground (arith, x.next);
            })
      | inr live ↦
          rw (register_call, live)
            (record { balance = ground (arith, more); distinct = d'; next = omega arith })
    ]

request-Stepped :
    (p : ℕ) (q : Call) (s : Engine)
    → Distinct s.pending
    → Stepped p s (request q s).0 (request q s).1
unfolding request settlements register_call
request-Stepped p q s d = elim (Option-cases (refusal q s)) [
  | inr (e, refused) ↦ rw (request, refused) (refused_call-Stepped p e s d)
  | inl free ↦ elim (Option-cases (create_request_id q.drawings 0 q.draw s)) [
    | inl drawing ↦
        rw (request, free, drawing)
          (record_step p s [] s (still_Balanced p s s [] d refl refl refl))
    | inr (id, drawn) ↦ elim (Bool-cases q.valid) [
      | inl good ↦
          rw (request, free, drawn, good)
            (register_call-Stepped p q id s d
              (create_request_id-new q.drawings 0 q.draw s id drawn))
      | inr bad ↦ rw (request, free, drawn, bad) (refused_call-Stepped p configuration s d)
    ]
  ]
]

on_request-pending :
    (method : String) (handler : ℕ) (s : Engine)
    → ((or_same (on_request method handler s) s).pending ≡ s.pending)
      × ((or_same (on_request method handler s) s).next_promise ≡ s.next_promise)
unfolding on_request
on_request-pending method handler s = ground arith

off_request-pending :
    (method : String) (handler : ℕ) (s : Engine)
    → ((off_request method handler s).pending ≡ s.pending)
      × ((off_request method handler s).next_promise ≡ s.next_promise)
unfolding off_request
off_request-pending method handler s = ground arith

on_notification-pending :
    (method : String) (handler : ℕ) (s : Engine)
    → ((or_same (on_notification method handler s) s).pending ≡ s.pending)
      × ((or_same (on_notification method handler s) s).next_promise ≡ s.next_promise)
unfolding on_notification
on_notification-pending method handler s = ground arith

notify-settlements :
    (p : ℕ) (method : String) (valid : Bool) (s : Engine)
    → settlements p (or_nothing (notify method valid s)) ≡ 0
unfolding notify settlements
notify-settlements p method valid s = ground arith

close-Balanced : (p : ℕ) (s : Engine) → Distinct s.pending → Balanced p s (close s).0 (close s).1
unfolding close settlements
close-Balanced p s d =
    still_Balanced p s (close s).1 (close s).0 d (ground arith) (ground arith) (ground arith)

request_send_failed-Balanced :
    (p : ℕ) (id : String) (s : Engine)
    → Distinct s.pending
    → Balanced p s (request_send_failed id s).0 (request_send_failed id s).1
unfolding request_send_failed settlements
request_send_failed-Balanced p id s d = elim (Bool-cases (has id s.pending)) [
  | inl waiting ↦ rw waiting (fail_connection-Balanced p s d)
  | inr done ↦ rw done (still_Balanced p s s [] d refl refl refl)
]

pub step-Stepped :
    (p : ℕ) (e : Event) (s : Engine) → Distinct s.pending → Stepped p s (step s e).0 (step s e).1
unfolding step settlements
step-Stepped p (requests q) s d = request-Stepped p q s d
step-Stepped p (request_aborts id) s d = record_step p s _ _ (give_up-Balanced p cancelled id s d)
step-Stepped p (request_times_out id) s d =
    record_step p s _ _ (give_up-Balanced p timed_out id s d)
step-Stepped p (late_expires id) s d = record_step p s _ _ (
    unfold forget_late_response in
    still_Balanced p s (forget_late_response id s) [] d refl refl refl)
step-Stepped p (completion_expires id) s d = record_step p s _ _ (
    unfold forget_inbound_completion in
    still_Balanced p s (forget_inbound_completion id s) [] d refl refl refl)
step-Stepped p (send_fails id) s d = record_step p s _ _ (request_send_failed-Balanced p id s d)
step-Stepped p (receives message) s d = record_step p s _ _ (receive-Balanced p message s d)
step-Stepped p (handler_ends h outcome) s d =
    record_step p s _ _ (handler_ended-Balanced p h outcome s d)
step-Stepped p (inbound_times_out h) s d = record_step p s _ _ (inbound_timed_out-Balanced p h s d)
step-Stepped p (handles method handler) s d =
    let (same, next) = on_request-pending method handler s in
    record_step p s _ _ (still_Balanced p s _ [] d same next refl)
step-Stepped p (unhandles method handler) s d =
    let (same, next) = off_request-pending method handler s in
    record_step p s _ _ (still_Balanced p s (off_request method handler s) [] d same next refl)
step-Stepped p (listens method handler) s d =
    let (same, next) = on_notification-pending method handler s in
    record_step p s _ _ (still_Balanced p s _ [] d same next refl)
step-Stepped p (unlistens method n handler) s d = record_step p s _ _ (
    unfold off_notification in
    still_Balanced p s (off_notification method n handler s) [] d refl refl refl)
step-Stepped p (notifies method valid) s d =
    record_step p s _ _ (still_Balanced p s s _ d refl refl (notify-settlements p method valid s))
step-Stepped p closing_asked s d = record_step p s _ _ (close-Balanced p s d)
step-Stepped p answer_fails s d = record_step p s _ _ (fail_connection-Balanced p s d)
step-Stepped p socket_fails s d = record_step p s _ _ (fail_connection-Balanced p s d)
step-Stepped p socket_closes s d = record_step p s _ _ (socket_closed-Balanced p s d)

pub run-Stepped :
    (p : ℕ) (es : List Event) (s : Engine)
    → Distinct s.pending
    → Stepped p s (run s es).0 (run s es).1
unfolding run settlements
run-Stepped p [] s d = record_step p s [] s (still_Balanced p s s [] d refl refl refl)
run-Stepped p (e ∷ es) s d =
    let x = step-Stepped p e s d in
    let y = run-Stepped p es (step s e).1 x.distinct in
    let both = settlements-append p (step s e).0 (run (step s e).1 es).0 in
    record {
      balance = ground (arith, x.balance, y.balance, both, x.next, y.next);
      distinct = y.distinct;
      next = omega (arith, x.next, y.next);
    }

-- In every run on an open socket, of calls, timers, messages, ends of handlers and failures, in any
-- order: a promise that a request has returned is either pending, once, and not settled, or it has been
-- settled exactly once and is pending no more; and no other promise is settled.
pub run-new_engine-settles :
    (role : Role) (max_inbound p : ℕ) (es : List Event)
    → settlements p (run (new_engine role max_inbound) es).0
        + owed p (run (new_engine role max_inbound) es).1
      ≡ (if ltb p (run (new_engine role max_inbound) es).1.next_promise then 1 else 0)
unfolding owed count values keep
run-new_engine-settles role max_inbound p es =
    ground (arith, (run-Stepped p es (new_engine role max_inbound) tt).balance)
