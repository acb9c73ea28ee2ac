-- ===== src/Router/Edits/Tables.antt =====
-- A routed edit keeps the invariant of the table of routes
-- (packages/bridge-daemon/src/routing/application-router.ts).
use junon.Shared.{Option-cases, String, refl, inl, inr}
use junon.Shared.Results.{Result-cases}
use junon.EditStore.Data.{UndoToken, EditStore}
use junon.EditStore.Plans.{consume_plan, discard_plan}
use junon.EditStore.Undo.{consume_undo_token}
use junon.Router.Data.{EditOperation, apply, prepare, discard, undo, Router}
use junon.Router.Answers.Foreign.{along-IsTabled}
use junon.Router.Admitted.{route_request-IsTabled}
use junon.Router.Tabled.{IsTabled}
use junon.Router.Edits.{
  Call, Edit, prepares, applies, discards, undoes, assert_stored_adapter, assert_trusted, release,
  asked_for, route_operation, hand_over, apply_plan, discard_plan_of, undo_edit, perform_edit,
  edit_of, EditParams, route_edit_request,
}

abbrev with_store : EditStore → Router → Router
with_store store s = record s { edit_store = store }

with_store-IsTabled : (store : EditStore) (s : Router) → IsTabled s → IsTabled (with_store store s)
with_store-IsTabled store s x =
    along-IsTabled s (with_store store s)
      (record {
        registry = refl;
        routes = refl;
        consumer_requests = refl;
        max_in_flight = refl;
        max_in_flight_per_consumer = refl;
      })
      x

release-IsTabled : (o : EditOperation) (s : Router) → IsTabled s → IsTabled (release o s)
unfolding release
release-IsTabled o s x = with_store-IsTabled (release o s).edit_store s x

route_operation-IsTabled :
    (q : Call) (o : EditOperation) (s : Router) → IsTabled s → IsTabled (route_operation q o s).1
unfolding route_operation
route_operation-IsTabled q o s x =
    route_request-IsTabled q.draw q.forwards q.sent (asked_for q o) s x

hand_over-IsTabled :
    (q : Call) (adapter_session_id : String) (o : EditOperation) (s : Router)
    → IsTabled s
    → IsTabled (hand_over q adapter_session_id o s).1
unfolding hand_over
hand_over-IsTabled q adapter_session_id o s x =
    elim (Result-cases (assert_stored_adapter adapter_session_id q.workspace_id s.registry)) [
      | inl (e, stop) ↦ rw (hand_over, stop) (release-IsTabled o s x)
      | inr (done, passed) ↦ elim (Result-cases (route_operation q o s).0) [
        | inl (e, stop) ↦
            rw (hand_over, passed, stop)
              (release-IsTabled o (route_operation q o s).1 (route_operation-IsTabled q o s x))
        | inr (id, went) ↦ rw (hand_over, passed, went) (route_operation-IsTabled q o s x)
      ]
    ]

apply_plan-IsTabled :
    (q : Call) (plan_id : String) (s : Router) → IsTabled s → IsTabled (apply_plan q plan_id s).1
unfolding apply_plan
apply_plan-IsTabled q plan_id s x = elim (Result-cases (assert_trusted q.workspace_id s.registry)) [
  | inl (e, stop) ↦ rw (apply_plan, stop) x
  | inr (w, passed) ↦
      let out =
        consume_plan q.now plan_id q.asked.consumer_session_id q.workspace_id w.workspace_epoch
          s.edit_store in
      let y = with_store-IsTabled out.1 s x in
      elim (Result-cases out.0) [
        | inl (e, stop) ↦ rw (apply_plan, passed, stop) y
        | inr (p, taken) ↦
            rw (apply_plan, passed, taken)
              (hand_over-IsTabled q p.adapter_session_id (apply p) (with_store out.1 s) y)
      ]
]

discard_plan_of-IsTabled :
    (q : Call) (plan_id : String) (s : Router)
    → IsTabled s
    → IsTabled (discard_plan_of q plan_id s).1
unfolding discard_plan_of
discard_plan_of-IsTabled q plan_id s x =
    let out = discard_plan q.now plan_id q.asked.consumer_session_id q.workspace_id s.edit_store in
    let y = with_store-IsTabled out.1 s x in
    elim (Result-cases out.0) [
      | inl (e, stop) ↦ rw (discard_plan_of, stop) y
      | inr (p, taken) ↦
          rw (discard_plan_of, taken)
            (hand_over-IsTabled q p.adapter_session_id (discard p) (with_store out.1 s) y)
    ]

undo_edit-IsTabled :
    (q : Call) (token : UndoToken) (s : Router) → IsTabled s → IsTabled (undo_edit q token s).1
unfolding undo_edit
undo_edit-IsTabled q token s x = elim (Result-cases (assert_trusted q.workspace_id s.registry)) [
  | inl (e, stop) ↦ rw (undo_edit, stop) x
  | inr (w, passed) ↦
      let out =
        consume_undo_token q.now token q.asked.consumer_session_id q.workspace_id s.edit_store in
      let y = with_store-IsTabled out.1 s x in
      elim (Result-cases out.0) [
        | inl (e, stop) ↦ rw (undo_edit, passed, stop) y
        | inr (t, taken) ↦
            rw (undo_edit, passed, taken)
              (hand_over-IsTabled q t.adapter_session_id (undo t) (with_store out.1 s) y)
      ]
]

perform_edit-IsTabled :
    (q : Call) (edit : Edit) (s : Router) → IsTabled s → IsTabled (perform_edit q edit s).1
unfolding perform_edit
perform_edit-IsTabled q prepares s x = route_operation-IsTabled q prepare s x
perform_edit-IsTabled q (applies plan_id) s x = apply_plan-IsTabled q plan_id s x
perform_edit-IsTabled q (discards plan_id) s x = discard_plan_of-IsTabled q plan_id s x
perform_edit-IsTabled q (undoes token) s x = undo_edit-IsTabled q token s x

pub route_edit_request-IsTabled :
    (q : Call) (params : EditParams) (s : Router)
    → IsTabled s
    → IsTabled (route_edit_request q params s).1
unfolding route_edit_request
route_edit_request-IsTabled q params s x = elim (Option-cases (edit_of q.asked.method params)) [
  | inl nothing ↦ rw (route_edit_request, nothing) x
  | inr (edit, is) ↦ rw (route_edit_request, is) (perform_edit-IsTabled q edit s x)
]
