-- ===== src/Client/Settled.antt =====
-- Each promise of a request is settled once (packages/bridge-client/src/connection/json-rpc-engine.ts).
pub mod Calls
pub mod Answers
pub mod Runs
pub mod Closed
use junon.Shared.{
  ℕ, zero, suc, ◌+◌, String, ◌≡◌, refl, Bool, true, false, ◌&&◌, ◌||◌, not, Option, none, some,
  List, [], ◌∷◌, ◌++◌, arith, eqb, length, keep, if◌then◌else◌, Option-cases, Bool-cases, inl, inr,
}
use junon.Shared.Maps.{Map, get, has, set, delete, values, count, count-set_new}
use junon.Shared.Maps.Distinct.{
  Distinct, set-Distinct, delete-Distinct, count-delete_found, delete_absent,
}
use junon.Client.Data.{
  SocketState, Failure, Pending, Effect, resolves, rejects, sends_request, sends_notification,
  sends_cancellation, answers_result, answers_error, runs, aborts, tells, closes, terminates,
  Engine, is_open, is_closed,
}
use junon.Client.Requests.{
  take_pending, reject_each, reject_all, abort_each, drop_all, fail_connection, violation,
  socket_closed, keys, give_up, cancellation, remember_late_response,
}

-- How often the effects settle a promise.
unfoldable pub settlements : ℕ → List Effect → ℕ
settlements p [] = 0
settlements p (resolves q ∷ es) = if eqb q p then suc (settlements p es) else settlements p es
settlements p (rejects q e ∷ es) = if eqb q p then suc (settlements p es) else settlements p es
settlements p (sends_request id method ∷ es) = settlements p es
settlements p (sends_notification method ∷ es) = settlements p es
settlements p (sends_cancellation id ∷ es) = settlements p es
settlements p (answers_result token id ∷ es) = settlements p es
settlements p (answers_error token id code ∷ es) = settlements p es
settlements p (runs token method ∷ es) = settlements p es
settlements p (aborts token ∷ es) = settlements p es
settlements p (tells method handlers ∷ es) = settlements p es
settlements p (closes code ∷ es) = settlements p es
settlements p (terminates ∷ es) = settlements p es

pub settlements-append :
    (p : ℕ) (es fs : List Effect) → settlements p (es ++ fs) ≡ settlements p es + settlements p fs
unfolding settlements
settlements-append p [] fs = omega arith
settlements-append p (resolves q ∷ es) fs = ground (arith, settlements-append p es fs)
settlements-append p (rejects q e ∷ es) fs = ground (arith, settlements-append p es fs)
settlements-append p (sends_request id method ∷ es) fs = settlements-append p es fs
settlements-append p (sends_notification method ∷ es) fs = settlements-append p es fs
settlements-append p (sends_cancellation id ∷ es) fs = settlements-append p es fs
settlements-append p (answers_result token id ∷ es) fs = settlements-append p es fs
settlements-append p (answers_error token id code ∷ es) fs = settlements-append p es fs
settlements-append p (runs token method ∷ es) fs = settlements-append p es fs
settlements-append p (aborts token ∷ es) fs = settlements-append p es fs
settlements-append p (tells method handlers ∷ es) fs = settlements-append p es fs
settlements-append p (closes code ∷ es) fs = settlements-append p es fs
settlements-append p (terminates ∷ es) fs = settlements-append p es fs

abbrev pub is_promise : ℕ → Pending → Bool
is_promise p q = eqb q.promise p

-- Whether a promise is still owed: how often it is pending.
unfoldable pub owed : ℕ → Engine → ℕ
owed p s = count (is_promise p) s.pending

-- What an operation settles was owed, and is owed no more.
pub record Balanced (p : ℕ) (s : Engine) (es : List Effect) (t : Engine) : Type 0 where
  pub balance : settlements p es + owed p t ≡ owed p s
  pub distinct : Distinct t.pending
  pub next : t.next_promise ≡ s.next_promise

pub then_Balanced :
    (p : ℕ) (s t u : Engine) (es fs : List Effect)
    → Balanced p s es t
    → Balanced p t fs u
    → Balanced p s (es ++ fs) u
then_Balanced p s t u es fs x y = record {
  balance = omega (arith, x.balance, y.balance, settlements-append p es fs);
  distinct = y.distinct;
  next = ground (arith, x.next, y.next);
}

pub still_Balanced :
    (p : ℕ) (s t : Engine) (es : List Effect)
    → Distinct s.pending
    → t.pending ≡ s.pending
    → t.next_promise ≡ s.next_promise
    → settlements p es ≡ 0
    → Balanced p s es t
unfolding owed
still_Balanced p s t es d same next none_settled = record {
  balance = rw (same, none_settled) (omega arith);
  distinct = rw same d;
  next = next;
}

abbrev pub taken_of : ℕ → Option Pending → ℕ
taken_of p none = 0
taken_of p (some q) = if eqb q.promise p then 1 else 0

-- What `take_pending` takes.
pub record Taken (p : ℕ) (s : Engine) (taken : Option Pending) (t : Engine) : Type 0 where
  pub balance : taken_of p taken + owed p t ≡ owed p s
  pub distinct : Distinct t.pending
  pub next : t.next_promise ≡ s.next_promise

pub take_pending-Taken :
    (p : ℕ) (id : String) (s : Engine)
    → Distinct s.pending
    → Taken p s (take_pending id s).0 (take_pending id s).1
unfolding take_pending owed
take_pending-Taken p id s d = elim (Option-cases (get id s.pending)) [
  | inl absent ↦
      rw (take_pending, absent) (record { balance = omega arith; distinct = d; next = refl })
  | inr (q, found) ↦
      rw (take_pending, found)
        (record {
          balance = ground (arith, count-delete_found (is_promise p) id q s.pending d found);
          distinct = delete-Distinct id s.pending d;
          next = refl;
        })
]

reject_each-Balanced :
    (p : ℕ) (e : Failure) (ids : List String) (s : Engine)
    → Distinct s.pending
    → Balanced p s (reject_each e ids s).0 (reject_each e ids s).1
unfolding reject_each settlements
reject_each-Balanced p e [] s d = still_Balanced p s s [] d refl refl refl
reject_each-Balanced p e (id ∷ ids) s d =
    let taken = take_pending-Taken p id s d in
    let rest = reject_each-Balanced p e ids (take_pending id s).1 taken.distinct in
    elim (Option-cases (take_pending id s).0) [
      | inl absent ↦
          rw (reject_each, absent)
            (record {
              balance = ground (arith, taken.balance, rest.balance, absent);
              distinct = rest.distinct;
              next = ground (arith, taken.next, rest.next);
            })
      | inr (q, found) ↦
          rw (reject_each, found)
            (record {
              balance = ground (arith, taken.balance, rest.balance, found);
              distinct = rest.distinct;
              next = ground (arith, taken.next, rest.next);
            })
    ]

abort_each-Balanced :
    (p : ℕ) (ids : List String) (s : Engine)
    → Distinct s.pending
    → Balanced p s (abort_each ids s).0 (abort_each ids s).1
unfolding abort_each settlements owed
abort_each-Balanced p [] s d = still_Balanced p s s [] d refl refl refl
abort_each-Balanced p (id ∷ ids) s d = elim (Option-cases (get id s.inbound)) [
  | inl absent ↦ rw (abort_each, absent) (abort_each-Balanced p ids s d)
  | inr (r, found) ↦
      let rest = abort_each-Balanced p ids (record s { inbound = delete id s.inbound }) d in
      rw (abort_each, found)
        (record { balance = rest.balance; distinct = rest.distinct; next = rest.next })
]
