-- ===== src/Client/Settled/Closed.antt =====
-- Each request of `ClientJsonRpcEngine` is settled when the socket has closed
-- (packages/bridge-client/src/connection/json-rpc-engine.ts).
use junon.Shared.{
  ℕ, String, ◌≡◌, refl, ◌∙◌, List, [], ◌∷◌, ◌++◌, arith, ltb, keep, if◌then◌else◌, Option-cases,
  inl, inr,
}
use junon.Shared.Maps.{Map, get, delete, values, count}
use junon.Shared.Maps.Distinct.{Distinct, delete_absent}
use junon.Registry.Data.{Role}
use junon.Client.Data.{Pending, Failure, connection, Engine}
use junon.Client.Requests.{
  take_pending, reject_each, reject_all, abort_each, drop_all, socket_closed, keys,
}
use junon.Client.Step.{Event, socket_closes, step, run, new_engine}
use junon.Client.Settled.{settlements, settlements-append, owed}
use junon.Client.Settled.Runs.{step-Stepped, run-Stepped}

reject_each-empties :
    (e : Failure) (m : Map Pending) (s : Engine)
    → Distinct m
    → s.pending ≡ m
    → (reject_each e (keys m) s).1.pending ≡ []
unfolding reject_each take_pending get delete
reject_each-empties e [] s d same = same
reject_each-empties e ((k, v) ∷ m) s d same =
    let t : Engine = record s { pending = delete k s.pending } in
    let rest = delete_absent k m d.0 in
    let left : t.pending ≡ m = ground (arith, same, rest) in
    ground (arith, same, reject_each-empties e m t d.1 left)

abort_each-pending : (ids : List String) (s : Engine) → (abort_each ids s).1.pending ≡ s.pending
unfolding abort_each
abort_each-pending [] s = refl
abort_each-pending (id ∷ ids) s = elim (Option-cases (get id s.inbound)) [
  | inl absent ↦ rw (abort_each, absent) (abort_each-pending ids s)
  | inr (r, found) ↦
      rw (abort_each, found) (abort_each-pending ids (record s { inbound = delete id s.inbound }))
]

socket_closed-pending : (s : Engine) → Distinct s.pending → (socket_closed s).1.pending ≡ []
unfolding socket_closed drop_all reject_all
socket_closed-pending s d =
    let t = (reject_each connection (keys s.pending) s).1 in
    abort_each-pending (keys t.inbound) t ∙ reject_each-empties connection s.pending s d refl

step-closed-pending : (s : Engine) → Distinct s.pending → (step s socket_closes).1.pending ≡ []
unfolding step
step-closed-pending s d = socket_closed-pending s d

-- When the socket has closed, after whatever came before, each promise that a request has returned has
-- been settled, exactly once: no caller waits for ever.
pub run-closed-settles :
    (role : Role) (max_inbound p : ℕ) (es : List Event)
    → let (before, s) = run (new_engine role max_inbound) es in
      let (now, t) = step s socket_closes in
      settlements p (before ++ now) ≡ (if ltb p t.next_promise then 1 else 0)
unfolding owed count values keep
run-closed-settles role max_inbound p es =
    let x = run-Stepped p es (new_engine role max_inbound) tt in
    let s = (run (new_engine role max_inbound) es).1 in
    let y = step-Stepped p socket_closes s x.distinct in
    let none_left = step-closed-pending s x.distinct in
    let both =
      settlements-append p (run (new_engine role max_inbound) es).0 (step s socket_closes).0 in
    ground (arith, x.balance, y.balance, x.next, y.next, both, none_left)
