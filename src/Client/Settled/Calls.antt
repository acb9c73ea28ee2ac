-- ===== src/Client/Settled/Calls.antt =====
-- What the methods of `ClientJsonRpcEngine` and its events settle
-- (packages/bridge-client/src/connection/json-rpc-engine.ts).
use junon.Shared.{
  ℕ, String, ◌≡◌, refl, Option, none, some, List, [], ◌∷◌, ◌++◌, arith, Option-cases, Bool-cases,
  inl, inr,
}
use junon.Shared.Maps.{get}
use junon.Shared.Maps.Distinct.{Distinct}
use junon.Client.Data.{
  Failure, Pending, Effect, connection, protocol_violation, rejects, Engine, is_open, is_closed,
}
use junon.Client.Requests.{
  take_pending, reject_each, reject_all, abort_each, drop_all, fail_connection, violation,
  socket_closed, keys, give_up, cancellation, remember_late_response, forget_late_response,
}
use junon.Client.Inbound.{Reply, failed, result, fits, settled, receive_response}
use junon.Client.Settled.{
  taken_of, settlements, settlements-append, owed, Balanced, then_Balanced, still_Balanced,
  take_pending-Taken, reject_each-Balanced, abort_each-Balanced,
}

drop_all-Balanced :
    (p : ℕ) (e : Failure) (s : Engine)
    → Distinct s.pending
    → Balanced p s (drop_all e s).0 (drop_all e s).1
unfolding drop_all reject_all owed
drop_all-Balanced p e s d =
    let r = reject_each-Balanced p e (keys s.pending) s d in
    let t = (reject_each e (keys s.pending) s).1 in
    let a = abort_each-Balanced p (keys t.inbound) t r.distinct in
    let both =
      then_Balanced p s t (abort_each (keys t.inbound) t).1 (reject_each e (keys s.pending) s).0
        (abort_each (keys t.inbound) t).0 r a in
    record { balance = both.balance; distinct = both.distinct; next = both.next }

-- Effects that settle nothing may follow.
and_then :
    (p : ℕ) (s t u : Engine) (es fs : List Effect)
    → Balanced p s es t
    → u.pending ≡ t.pending
    → u.next_promise ≡ t.next_promise
    → settlements p fs ≡ 0
    → Balanced p s (es ++ fs) u
and_then p s t u es fs x same next nothing =
    then_Balanced p s t u es fs x (still_Balanced p t u fs x.distinct same next nothing)

same_pending :
    (p : ℕ) (s t u : Engine) (es : List Effect)
    → Balanced p s es t
    → u.pending ≡ t.pending
    → u.next_promise ≡ t.next_promise
    → Balanced p s es u
unfolding owed
same_pending p s t u es x same next = record {
  balance = rw same x.balance;
  distinct = rw same x.distinct;
  next = ground (arith, next, x.next);
}

pub fail_connection-Balanced :
    (p : ℕ) (s : Engine)
    → Distinct s.pending
    → Balanced p s (fail_connection s).0 (fail_connection s).1
unfolding fail_connection settlements
fail_connection-Balanced p s d =
    let dropped = drop_all-Balanced p connection s d in
    elim (Bool-cases (is_closed s.socket)) [
      | inl gone ↦ rw (fail_connection, gone) dropped
      | inr live ↦ rw (fail_connection, live) (and_then p s _ _ _ _ dropped refl refl refl)
    ]

pub violation-Balanced :
    (p : ℕ) (s : Engine) → Distinct s.pending → Balanced p s (violation s).0 (violation s).1
unfolding violation settlements
violation-Balanced p s d =
    let dropped = drop_all-Balanced p protocol_violation s d in
    elim (Bool-cases (is_open s.socket)) [
      | inl live ↦ rw (violation, live) (and_then p s _ _ _ _ dropped refl refl refl)
      | inr shut ↦ elim (Bool-cases (is_closed s.socket)) [
        | inl gone ↦ rw (violation, shut, gone) dropped
        | inr half ↦ rw (violation, shut, half) (and_then p s _ _ _ _ dropped refl refl refl)
      ]
    ]

pub socket_closed-Balanced :
    (p : ℕ) (s : Engine) → Distinct s.pending → Balanced p s (socket_closed s).0 (socket_closed s).1
unfolding socket_closed
socket_closed-Balanced p s d = same_pending p s _ _ _ (drop_all-Balanced p connection s d) refl refl

pub give_up-Balanced :
    (p : ℕ) (why : String → Failure) (id : String) (s : Engine)
    → Distinct s.pending
    → Balanced p s (give_up why id s).0 (give_up why id s).1
unfolding give_up remember_late_response settlements owed
give_up-Balanced p why id s d =
    let taken = take_pending-Taken p id s d in
    elim (Option-cases (take_pending id s).0) [
      | inl absent ↦
          rw (give_up, absent)
            (record {
              balance = ground (arith, taken.balance, absent);
              distinct = taken.distinct;
              next = taken.next;
            })
      | inr (q, found) ↦
          rw (give_up, found)
            (record {
              balance = ground (
                arith,
                taken.balance,
                found,
                settlements-append p (cancellation id s) (rejects q.promise (why q.method) ∷ []),
              );
              distinct = taken.distinct;
              next = taken.next;
            })
    ]

settlements-settled :
    (p : ℕ) (taken : Option Pending) (reply : Reply)
    → settlements p (settled taken reply) ≡ taken_of p taken
unfolding settlements
settlements-settled p none reply = refl
settlements-settled p (some q) (failed code) = refl
settlements-settled p (some q) (result takes) = refl

settled-Balanced :
    (p : ℕ) (id : String) (reply : Reply) (s : Engine)
    → Distinct s.pending
    → Balanced p s (settled (take_pending id s).0 reply) (take_pending id s).1
settled-Balanced p id reply s d =
    let taken = take_pending-Taken p id s d in
    record {
      balance = rw (settlements-settled p (take_pending id s).0 reply) taken.balance;
      distinct = taken.distinct;
      next = taken.next;
    }

pub receive_response-Balanced :
    (p : ℕ) (id : String) (reply : Reply) (s : Engine)
    → Distinct s.pending
    → Balanced p s (receive_response id reply s).0 (receive_response id reply s).1
unfolding receive_response forget_late_response settlements
receive_response-Balanced p id reply s d =
    let refused = violation-Balanced p s d in
    elim (Option-cases (get id s.pending)) [
      | inl absent ↦ elim (Option-cases (get id s.late_responses)) [
        | inl unknown ↦ rw (receive_response, absent, unknown) refused
        | inr (method, late) ↦ elim (Bool-cases (fits method reply)) [
          | inl fit ↦
              rw (receive_response, absent, late, fit) (still_Balanced p s _ [] d refl refl refl)
          | inr misfit ↦ rw (receive_response, absent, late, misfit) refused
        ]
      ]
      | inr (q, found) ↦ elim (Bool-cases (fits q.method reply)) [
        | inr misfit ↦ rw (receive_response, found, misfit) refused
        | inl fit ↦ rw (receive_response, found, fit) (settled-Balanced p id reply s d)
      ]
    ]
