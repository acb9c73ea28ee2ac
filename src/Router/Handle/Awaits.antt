-- ===== src/Router/Handle/Awaits.antt =====
-- The routes of the requests that are routed (packages/bridge-daemon/src/routing/application-router.ts).
use junon.Shared.{ℕ, Bool, true, not, contains, String, ◌≡◌, ◌==◌, ◌||◌, some, arith, inl, inr}
use junon.Shared.Results.{ok, Result-cases}
use junon.Shared.Maps.{get}
use junon.EditStore.Data.{UndoToken}
use junon.EditStore.Plans.{consume_plan, discard_plan}
use junon.EditStore.Undo.{consume_undo_token}
use junon.Router.Data.{active, EditOperation, no_edit, apply, prepare, discard, undo, Route, Router}
use junon.Router.Table.{Asked}
use junon.Router.Requests.{route_request}
use junon.Router.Routed.{route_request-Routed}
use junon.Router.Dispatch.{plan_store_methods}
use junon.Router.Edits.{
  Call, EditParams, edit_of, Edit, prepares, applies, discards, undoes, assert_stored_adapter,
  assert_trusted, route_operation, hand_over, apply_plan, discard_plan_of, undo_edit, perform_edit,
  asked_for,
}

-- The operation that a method asks for.
unfoldable pub operates : EditOperation → String → Bool
operates no_edit method = not (contains method plan_store_methods)
operates prepare method = method == "refactor/prepareRename" || method == "refactor/prepare"
operates (apply p) method = method == "workspace/applyPlan"
operates (discard p) method = method == "workspace/discardPlan"
operates (undo t) method = method == "workspace/undo"

-- The route of a request that waits for its adapter.
pub record Awaits (session_id id method route_id : String) (t : Router) (r : Route) : Type 0 where
  pub stored : get route_id t.routes ≡ some r
  pub of_session : r.consumer_session_id ≡ session_id
  pub of_request : r.consumer_id ≡ id
  pub on : r.state ≡ active
  pub of_method : r.method ≡ method
  pub performs : operates r.edit_operation method ≡ true

pub route_request-Awaits :
    (draw : ℕ → String) (forwards sent : Bool) (q : Asked) (s : Router) (route_id : String)
    → operates q.edit_operation q.method ≡ true
    → (route_request draw forwards sent q s).0 ≡ ok route_id
    → (r : Route) × Awaits q.consumer_session_id q.consumer_id q.method route_id
        (route_request draw forwards sent q s).1
        r
route_request-Awaits draw forwards sent q s route_id fits e =
    let (v, r, c, w, f) = route_request-Routed draw forwards sent q s route_id e in
    (
      r,
      record {
        stored = f.stored;
        of_session = f.from_consumer;
        of_request = f.for_request;
        on = f.on;
        of_method = f.for_method;
        performs = ground (arith, f.performs, fits);
      },
    )

route_operation-Awaits :
    (q : Call) (o : EditOperation) (s : Router) (route_id : String)
    → operates o q.asked.method ≡ true
    → (route_operation q o s).0 ≡ ok route_id
    → (r : Route) × Awaits q.asked.consumer_session_id q.asked.consumer_id q.asked.method route_id
        (route_operation q o s).1
        r
unfolding route_operation
route_operation-Awaits q o s route_id fits e =
    let (v, r, c, w, f) =
      route_request-Routed q.draw q.forwards q.sent (asked_for q o) s route_id e in
    (
      r,
      record {
        stored = f.stored;
        of_session = f.from_consumer;
        of_request = f.for_request;
        on = f.on;
        of_method = f.for_method;
        performs = ground (arith, f.performs, fits);
      },
    )

hand_over-Awaits :
    (q : Call) (adapter_session_id : String) (o : EditOperation) (s : Router) (route_id : String)
    → operates o q.asked.method ≡ true
    → (hand_over q adapter_session_id o s).0 ≡ ok route_id
    → (r : Route) × Awaits q.asked.consumer_session_id q.asked.consumer_id q.asked.method route_id
        (hand_over q adapter_session_id o s).1
        r
unfolding hand_over
hand_over-Awaits q adapter_session_id o s route_id fits e =
    elim (Result-cases (assert_stored_adapter adapter_session_id q.workspace_id s.registry)) [
      | inl (x, stop) ↦ absurd (ground (arith, stop, e))
      | inr (done, passed) ↦ elim (Result-cases (route_operation q o s).0) [
        | inl (x, stop) ↦ absurd (ground (arith, passed, stop, e))
        | inr (id, went) ↦
            let (r, f) = route_operation-Awaits q o s id fits went in
            let same : id ≡ route_id = ground (arith, passed, went, e) in
            (
              r,
              rw (hand_over, passed, went)
                  (record {
                    stored = ground (arith, same, f.stored);
                    of_session = f.of_session;
                    of_request = f.of_request;
                    on = f.on;
                    of_method = f.of_method;
                    performs = f.performs;
                  }),
            )
      ]
    ]

apply_plan-Awaits :
    (q : Call) (plan_id : String) (s : Router) (route_id : String)
    → q.asked.method == "workspace/applyPlan" ≡ true
    → (apply_plan q plan_id s).0 ≡ ok route_id
    → (r : Route) × Awaits q.asked.consumer_session_id q.asked.consumer_id q.asked.method route_id
        (apply_plan q plan_id s).1
        r
unfolding apply_plan operates
apply_plan-Awaits q plan_id s route_id fits e =
    elim (Result-cases (assert_trusted q.workspace_id s.registry)) [
      | inl (x, stop) ↦ absurd (ground (arith, stop, e))
      | inr (w, passed) ↦
          let by = q.asked.consumer_session_id in
          let taken = consume_plan q.now plan_id by q.workspace_id w.workspace_epoch s.edit_store in
          let s' : Router = record s { edit_store = taken.1 } in
          elim (Result-cases taken.0) [
            | inl (x, stop) ↦ absurd (ground (arith, passed, stop, e))
            | inr (p, out) ↦
                let (r, f) =
                  hand_over-Awaits q p.adapter_session_id (apply p) s' route_id fits
                    (ground (arith, passed, out, e)) in
                (r, rw (apply_plan, passed, out) f)
          ]
    ]

discard_plan-Awaits :
    (q : Call) (plan_id : String) (s : Router) (route_id : String)
    → q.asked.method == "workspace/discardPlan" ≡ true
    → (discard_plan_of q plan_id s).0 ≡ ok route_id
    → (r : Route) × Awaits q.asked.consumer_session_id q.asked.consumer_id q.asked.method route_id
        (discard_plan_of q plan_id s).1
        r
unfolding discard_plan_of operates
discard_plan-Awaits q plan_id s route_id fits e =
    let taken =
      discard_plan q.now plan_id q.asked.consumer_session_id q.workspace_id s.edit_store in
    let s' : Router = record s { edit_store = taken.1 } in
    elim (Result-cases taken.0) [
      | inl (x, stop) ↦ absurd (ground (arith, stop, e))
      | inr (p, out) ↦
          let (r, f) =
            hand_over-Awaits q p.adapter_session_id (discard p) s' route_id fits
              (ground (arith, out, e)) in
          (r, rw (discard_plan_of, out) f)
    ]

undo_edit-Awaits :
    (q : Call) (token : UndoToken) (s : Router) (route_id : String)
    → q.asked.method == "workspace/undo" ≡ true
    → (undo_edit q token s).0 ≡ ok route_id
    → (r : Route) × Awaits q.asked.consumer_session_id q.asked.consumer_id q.asked.method route_id
        (undo_edit q token s).1
        r
unfolding undo_edit operates
undo_edit-Awaits q token s route_id fits e =
    elim (Result-cases (assert_trusted q.workspace_id s.registry)) [
      | inl (x, stop) ↦ absurd (ground (arith, stop, e))
      | inr (w, passed) ↦
          let by = q.asked.consumer_session_id in
          let taken = consume_undo_token q.now token by q.workspace_id s.edit_store in
          let s' : Router = record s { edit_store = taken.1 } in
          elim (Result-cases taken.0) [
            | inl (x, stop) ↦ absurd (ground (arith, passed, stop, e))
            | inr (t, out) ↦
                let (r, f) =
                  hand_over-Awaits q t.adapter_session_id (undo t) s' route_id fits
                    (ground (arith, passed, out, e)) in
                (r, rw (undo_edit, passed, out) f)
          ]
    ]

abbrev asks : Edit → String → Bool
asks prepares method = method == "refactor/prepareRename" || method == "refactor/prepare"
asks (applies plan_id) method = method == "workspace/applyPlan"
asks (discards plan_id) method = method == "workspace/discardPlan"
asks (undoes token) method = method == "workspace/undo"

-- The branch of a method performs the operation that it asks for.
edit_of-operates :
    (method : String) (params : EditParams) (edit : Edit)
    → edit_of method params ≡ some edit
    → asks edit method ≡ true
unfolding edit_of
edit_of-operates method params edit e = ground arith

pub perform_edit-Awaits :
    (q : Call) (params : EditParams) (edit : Edit) (s : Router) (route_id : String)
    → edit_of q.asked.method params ≡ some edit
    → (perform_edit q edit s).0 ≡ ok route_id
    → (r : Route) × Awaits q.asked.consumer_session_id q.asked.consumer_id q.asked.method route_id
        (perform_edit q edit s).1
        r
unfolding perform_edit operates
perform_edit-Awaits q params prepares s route_id is e =
    route_operation-Awaits q prepare s route_id (edit_of-operates q.asked.method params _ is) e
perform_edit-Awaits q params (applies plan_id) s route_id is e =
    apply_plan-Awaits q plan_id s route_id (edit_of-operates q.asked.method params _ is) e
perform_edit-Awaits q params (discards plan_id) s route_id is e =
    discard_plan-Awaits q plan_id s route_id (edit_of-operates q.asked.method params _ is) e
perform_edit-Awaits q params (undoes token) s route_id is e =
    undo_edit-Awaits q token s route_id (edit_of-operates q.asked.method params _ is) e
