-- ===== src/Router/Handle/Answered.antt =====
-- Each request of a consumer comes to one answer or to a route
-- (packages/bridge-daemon/src/routing/application-router.ts).
use junon.Shared.{
  Option-cases, some, ◌&&◌, not, keep, ℕ, ◌+◌, String, ◌≡◌, refl, Bool, true, false, ◌&&◌, not,
  List, [], ◌∷◌, arith, all, contains, text_discrete, keep, Bool-cases, inl, inr, ◌⊎◌, ◌==◌,
  if◌then◌else◌,
}
use junon.Shared.Maps.{is_some}
use junon.Shared.Results.{Fallible, ok, err, Result-cases}
use junon.Protocol.Methods.{consumer_local_methods, routed_methods}
use junon.Registry.Data.{consumer, same_role, Connection, RegistryError}
use junon.Router.Data.{
  Route, Router, Refusal, error_response, response, cancel_request, close_connection,
}
use junon.Router.Requests.{route_request}
use junon.Router.Edits.{Call, Edit, EditParams, edit_of, perform_edit, route_edit_request}
use junon.Router.Dispatch.{
  Local, Output, sends, replies, tells_gone, passes_on, Request, invalid, routes, registers,
  unregisters, pings, gets_status, lists_adapters, lists_sessions, lists_workspaces, gets_workspace,
  gets_workspace_status, gets_capabilities, plan_store_methods, plain_routed_methods, Outside,
  reply, handle_consumer_local_request,
}
use junon.Router.Handle.{
  handle_routed, handle_edit, handle_valid, is_invalid, handle_request, asked_by, called_by,
  route_answer, edit_answer,
}
use junon.Router.Handle.Awaits.{operates, Awaits, route_request-Awaits, perform_edit-Awaits}

-- An answer to a request of a session, or the end of its connection.
abbrev pub is_answer : String → String → Output → Bool
is_answer i id (sends (error_response j k e)) = j == i && k == id
is_answer i id (sends (response j k answer)) = j == i && k == id
is_answer i id (sends (close_connection j code)) = j == i
is_answer i id (sends (cancel_request j k)) = false
is_answer i id (replies j k result) = j == i && k == id
is_answer i id (tells_gone sessions adapter_id) = false
is_answer i id (passes_on sessions n) = false

unfoldable pub answers : String → String → List Output → ℕ
answers i id [] = 0
answers i id (o ∷ os) = if is_answer i id o then answers i id os + 1 else answers i id os

reply-answers :
    (k : Outside) (i id : String) (r : Fallible RegistryError Local)
    → answers i id (reply k i id r) ≡ 1
unfolding reply answers
reply-answers k i id (err e) = ground arith
reply-answers k i id (ok result) = ground arith

route_answer-answers : (i id : String) (e : Refusal) → answers i id (route_answer i id (err e)) ≡ 1
unfolding answers
route_answer-answers i id e = ground arith

edit_answer-answers : (i id : String) (e : Refusal) → answers i id (edit_answer i id (err e)) ≡ 1
unfolding answers
edit_answer-answers i id e = ground arith

abbrev pub method_asked : Request → String
method_asked (routes q params) = q.asked.method
method_asked _ = ""

-- One answer, or none and a route of the method that waits.
abbrev pub Answered : String → String → String → List Output × Router → Type 0
Answered i id method (out, t) =
    (answers i id out ≡ 1)
    ⊎ (out ≡ []) × (route_id : String) × (r : Route) × Awaits i id method route_id t r

handle_routed-Answered :
    (i id : String) (q : Call) (params : EditParams) (s : Router)
    → contains q.asked.method plan_store_methods ≡ false
    → Answered i id q.asked.method (handle_routed i id (routes q params) s)
unfolding handle_routed operates
handle_routed-Answered i id q params s read =
    let a = asked_by i id q.asked in
    elim (Result-cases (route_request q.draw q.forwards q.sent a s).0) [
      | inl (e, refused) ↦ inl (rw (refused, handle_routed) (route_answer-answers i id e))
      | inr (route_id, went) ↦
          let (r, f) =
            route_request-Awaits q.draw q.forwards q.sent a s route_id (ground (arith, read))
              went in
          inr (rw (went, handle_routed) refl, route_id, r, f)
    ]

-- Every text of the one list is not in the other.
abbrev disjoint : List String → List String → Bool
disjoint ms ns = all (λ (m : String). not (contains m ns)) ms

disjoint-contains :
    (m : String) (ms ns : List String)
    → disjoint ms ns ≡ true
    → contains m ms ≡ true
    → contains m ns ≡ false
unfolding all contains
disjoint-contains m [] ns apart here = absurd (ground (arith, here))
disjoint-contains m (n ∷ ms) ns apart here = ground (arith, disjoint-contains m ms ns, apart, here)

-- What holds of every text of a list holds of one that is in it.
all-contains :
    (p : String → Bool) (m : String) (ms : List String)
    → all p ms ≡ true
    → contains m ms ≡ true
    → p m ≡ true
unfolding all contains
all-contains p m [] every here = absurd (ground (arith, here))
all-contains p m (n ∷ ms) every here = ground (arith, all-contains p m ms, every, here)

contains-keep :
    (p : String → Bool) (m : String) (ms : List String)
    → contains m (keep p ms) ≡ (contains m ms && p m)
unfolding keep contains
contains-keep p m [] = refl
contains-keep p m (n ∷ ms) = ground (arith, contains-keep p m ms)

-- A request that the daemon does not answer itself has one of the routed methods of the protocol.
abbrev pub fits : Request → Bool
fits (routes q params) = contains q.asked.method routed_methods
fits _ = true

routed_methods-disjoint : disjoint routed_methods consumer_local_methods ≡ true
unfolding all contains text_discrete
routed_methods-disjoint = refl

-- `#routeEditRequest` has a branch for each of its methods.
edit_of-is_some :
    (params : EditParams)
    → all (λ (method : String). is_some (edit_of method params)) plan_store_methods ≡ true
unfolding all edit_of text_discrete
edit_of-is_some params = refl

edit_of-total :
    (method : String) (params : EditParams)
    → contains method plan_store_methods ≡ true
    → (edit : Edit) × (edit_of method params ≡ some edit)
edit_of-total method params here =
    let there =
      all-contains (λ (m : String). is_some (edit_of m params)) method plan_store_methods
        (edit_of-is_some params) here in
    elim (Option-cases (edit_of method params)) [
      | inl nothing ↦ absurd (ground (arith, nothing, there))
      | inr found ↦ found
    ]

handle_edit-Answered :
    (i id : String) (q : Call) (params : EditParams) (s : Router)
    → contains q.asked.method plan_store_methods ≡ true
    → Answered i id q.asked.method (handle_edit i id (routes q params) s)
unfolding handle_edit route_edit_request
handle_edit-Answered i id q params s here =
    let by = called_by i id q in
    let (edit, is) = edit_of-total q.asked.method params here in
    elim (Result-cases (perform_edit by edit s).0) [
      | inl (e, refused) ↦
          inl (rw (handle_edit, route_edit_request, is, refused) (edit_answer-answers i id e))
      | inr (route_id, went) ↦
          let (r, f) = perform_edit-Awaits by params edit s route_id is went in
          inr (
            rw (handle_edit, route_edit_request, is, went) refl,
            route_id,
            r,
            rw (handle_edit, route_edit_request, is) f,
          )
    ]

routes-Answered :
    (k : Outside) (i id : String) (q : Call) (params : EditParams) (s : Router)
    → contains q.asked.method routed_methods ≡ true
    → Answered i id q.asked.method (handle_valid k consumer i id (routes q params) s)
unfolding handle_valid same_role plain_routed_methods
routes-Answered k i id q params s f =
    let m = q.asked.method in
    let other =
      disjoint-contains m routed_methods consumer_local_methods routed_methods-disjoint f in
    let plain =
      contains-keep (λ (method : String). not (contains method plan_store_methods)) m
        routed_methods in
    elim (Bool-cases (contains m plan_store_methods)) [
      | inl edit ↦
          let no_plain : contains m plain_routed_methods ≡ false = ground (arith, plain, edit) in
          rw (handle_valid, other, no_plain, edit) (handle_edit-Answered i id q params s edit)
      | inr read ↦
          let is_plain : contains m plain_routed_methods ≡ true = ground (arith, plain, f, read) in
          rw (handle_valid, other, is_plain) (handle_routed-Answered i id q params s read)
    ]

handle_valid-Answered :
    (k : Outside) (i id : String) (q : Request) (s : Router)
    → fits q ≡ true
    → Answered i id (method_asked q) (handle_valid k consumer i id q s)
unfolding handle_valid same_role contains text_discrete plain_routed_methods keep
    handle_consumer_local_request answers
handle_valid-Answered k i id invalid s f = inl (ground arith)
handle_valid-Answered k i id (registers params) s f = inl (ground arith)
handle_valid-Answered k i id (unregisters adapter_id) s f = inl (ground arith)
handle_valid-Answered k i id pings s f = inl (ground arith)
handle_valid-Answered k i id gets_status s f = inl (reply-answers k i id _)
handle_valid-Answered k i id lists_adapters s f = inl (reply-answers k i id _)
handle_valid-Answered k i id lists_sessions s f = inl (reply-answers k i id _)
handle_valid-Answered k i id (lists_workspaces adapter_id) s f = inl (reply-answers k i id _)
handle_valid-Answered k i id (gets_workspace workspace_id) s f = inl (reply-answers k i id _)
handle_valid-Answered k i id (gets_workspace_status workspace_id) s f = inl (reply-answers k i id _)
handle_valid-Answered k i id (gets_capabilities adapter_id workspace_id) s f =
    inl (reply-answers k i id _)
handle_valid-Answered k i id (routes q params) s f = routes-Answered k i id q params s f

-- When the router has taken a request of a consumer, of any kind, and no other call came in between, it has
-- answered it exactly once, by a result, an error or the end of the connection; or it has not answered,
-- and an active route waits in the table, under this consumer and this ID, which has the request's
-- method and performs the operation that this method asks for. The condition is that a
-- request which the daemon does not answer itself has one of the protocol's routed methods, as the schema
-- requires.
pub handle_request-Answered :
    (k : Outside) (c : Connection) (id : String) (q : Request) (s : Router)
    → c.session.role ≡ consumer
    → fits q ≡ true
    → Answered c.session.session_id id (method_asked q) (handle_request k c id q s)
unfolding handle_request answers
handle_request-Answered k c id q s role f = elim (Bool-cases (is_invalid q)) [
  | inl bad ↦ inl (ground (arith, bad))
  | inr good ↦
      let i = c.session.session_id in
      rw (handle_request, good, role) (handle_valid-Answered k i id q s f)
]
