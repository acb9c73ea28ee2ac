-- ===== src/Router/Edits.antt =====
-- `#routeEditRequest` and `#sendMappedError` of packages/bridge-daemon/src/routing/application-router.ts: how
-- a consumer's edit takes its plan or its token out of the store and hands it to the adapter.
pub mod Authority
pub mod Spared
pub mod Tables
use junon.Shared.{
  ℕ, String, Bool, true, false, not, Option, none, some, ◌||◌, List, [], ◌∷◌, ◌++◌, ◌==◌,
  if◌then◌else◌,
}
use junon.Shared.Results.{Fallible, ok, err, ◌>>=◌, ◌>>◌, refuse_if}
use junon.EditStore.Data.{
  UndoToken, StoredPlan, StoredUndoToken, StoreError, plan_expired, EditStore,
}
use junon.EditStore.Plans.{consume_plan, discard_plan}
use junon.EditStore.Undo.{consume_undo_token}
use junon.Registry.Data.{Workspace, Registry, Trust, trusted, Connection, RegistryError}
use junon.Registry.Ops.{get_workspace}
use junon.Registry.Updates.{get_workspace_connection}
use junon.Router.Data.{
  EditOperation, no_edit, prepare, apply, discard, undo, Router, Refusal, of_registry, of_store,
  lift,
}
use junon.Router.Table.{Asked, release_operation}
use junon.Router.Requests.{route_request}
use junon.Router.Responses.{lift_store}

-- The fields that the branches read of the parameters; the schema has them for the method of the branch.
pub record EditParams : Type 0 where
  pub plan_id : String
  pub undo_token : UndoToken

-- The branch that a request takes.
pub data Edit : Type 0 where
  prepares : Edit
  applies discards : String → Edit
  undoes : UndoToken → Edit

abbrev pub is_trusted : Trust → Bool
is_trusted trusted = true
is_trusted _ = false

-- `#assertStoredAdapter`
unfoldable pub assert_stored_adapter : String → String → Registry → Fallible Refusal (Unit {0})
unfolding lift
assert_stored_adapter adapter_session_id workspace_id g = do
  c ← lift (get_workspace_connection workspace_id g)
  refuse_if (not (c.session.session_id == adapter_session_id)) (of_store plan_expired)

-- The guard of an edit that writes.
unfoldable pub assert_trusted : String → Registry → Fallible Refusal Workspace
unfolding lift
assert_trusted workspace_id g = do
  w ← lift (get_workspace workspace_id g)
  refuse_if (not (is_trusted w.trust)) (of_registry RegistryError.permission_denied)
  ok w

-- What a consumer's request is, and how the socket and the schema take it.
pub record Call : Type 0 where
  pub asked : Asked
  pub workspace_id : String
  pub now : ℕ
  pub draw : ℕ → String
  pub forwards : Bool
  pub sent : Bool

unfoldable pub release : EditOperation → Router → Router
release o s = record s { edit_store = release_operation o s.edit_store }

abbrev pub asked_for : Call → EditOperation → Asked
asked_for q o = record q.asked { workspace_id = some q.workspace_id; edit_operation = o }

unfoldable pub route_operation : Call → EditOperation → Router → Fallible Refusal String × Router
route_operation q o s = route_request q.draw q.forwards q.sent (asked_for q o) s

-- What was taken out of the store goes to the adapter that it came from, or is released.
unfoldable pub hand_over : Call → String → EditOperation → Router → Fallible Refusal String × Router
hand_over q adapter_session_id o s =
    elim (assert_stored_adapter adapter_session_id q.workspace_id s.registry) [
      | err e ↦ (err e, release o s)
      | ok done ↦
          let (answer, s') = route_operation q o s in
          elim answer [ err e ↦ (err e, release o s') | ok route_id ↦ (ok route_id, s') ]
    ]

unfoldable pub apply_plan : Call → String → Router → Fallible Refusal String × Router
apply_plan q plan_id s = elim (assert_trusted q.workspace_id s.registry) [
  | err e ↦ (err e, s)
  | ok w ↦
      let (taken, store) =
        consume_plan q.now plan_id q.asked.consumer_session_id q.workspace_id w.workspace_epoch
          s.edit_store in
      let s' : Router = record s { edit_store = store } in
      elim taken [
        | err e ↦ (err (of_store e), s')
        | ok p ↦ hand_over q p.adapter_session_id (apply p) s'
      ]
]

unfoldable pub discard_plan_of : Call → String → Router → Fallible Refusal String × Router
discard_plan_of q plan_id s =
    let (taken, store) =
      discard_plan q.now plan_id q.asked.consumer_session_id q.workspace_id s.edit_store in
    let s' : Router = record s { edit_store = store } in
    elim taken [
      | err e ↦ (err (of_store e), s')
      | ok p ↦ hand_over q p.adapter_session_id (discard p) s'
    ]

unfoldable pub undo_edit : Call → UndoToken → Router → Fallible Refusal String × Router
undo_edit q token s = elim (assert_trusted q.workspace_id s.registry) [
  | err e ↦ (err e, s)
  | ok w ↦
      let (taken, store) =
        consume_undo_token q.now token q.asked.consumer_session_id q.workspace_id s.edit_store in
      let s' : Router = record s { edit_store = store } in
      elim taken [
        | err e ↦ (err (of_store e), s')
        | ok t ↦ hand_over q t.adapter_session_id (undo t) s'
      ]
]

-- What a branch of `#routeEditRequest` does; the metrics of a refusal are left out.
unfoldable pub perform_edit : Call → Edit → Router → Fallible Refusal String × Router
perform_edit q prepares s = route_operation q prepare s
perform_edit q (applies plan_id) s = apply_plan q plan_id s
perform_edit q (discards plan_id) s = discard_plan_of q plan_id s
perform_edit q (undoes token) s = undo_edit q token s

-- The tests of the method, in their order; `none` where none of them holds.
unfoldable pub edit_of : String → EditParams → Option Edit
edit_of method params =
    if method == "refactor/prepareRename" || method == "refactor/prepare"
    then some prepares
    else if method == "workspace/applyPlan"
    then some (applies params.plan_id)
    else if method == "workspace/discardPlan"
    then some (discards params.plan_id)
    else if method == "workspace/undo"
    then some (undoes params.undo_token)
    else none

-- `#routeEditRequest`; without an answer and without a route for a method that it does not test.
unfoldable pub route_edit_request :
    Call → EditParams → Router → Option (Fallible Refusal String) × Router
route_edit_request q params s = elim (edit_of q.asked.method params) [
  | none ↦ (none, s)
  | some edit ↦ let (answer, t) = perform_edit q edit s in (some answer, t)
]
