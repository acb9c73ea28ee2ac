-- ===== src/Router/Responses.antt =====
-- `#handleResponse` of packages/bridge-daemon/src/routing/application-router.ts, and how the response to an
-- edit is rewritten for its consumer. The validator of the schemas is a pair of arguments: what a payload is
-- as a response of a method, and whether a rewritten response is one.
pub mod Tokens
use junon.Shared.{
  ℕ, String, Bool, true, false, not, Option, none, some, List, [], ◌∷◌, map, ◌==◌, if◌then◌else◌,
}
use junon.Shared.Results.{Fallible, ok, err, ◌>>=◌, ◌>>◌, refuse_if, required}
use junon.Uri.{UrlPlatform}
use junon.EditStore.Data.{
  StoreError, precondition_failed, EditPlan, UndoToken, StoredPlan, PlanCreationContext,
  UndoCreationContext,
}
use junon.EditStore.Plans.{create_plan}
use junon.EditStore.Undo.{create_undo_token}
use junon.Registry.Data.{Workspace, WorkspaceRoot, Registry}
use junon.Registry.Ops.{get_workspace}
use junon.Router.Payload.{DocumentDiagnostics, Result, Details, Response, failure, success}
use junon.Router.Data.{
  EditOperation, no_edit, prepare, apply, discard, undo, Route, Router, Refusal, provider_failed,
  of_store, lift,
}
use junon.Router.Notifications.{assert_workspace_document}
use junon.Router.Modified.{assert_modified_documents}

-- An error of the edit store, as the router answers it.
unfoldable pub lift_store {ℓ} : {A : Type ℓ} → Fallible StoreError A → Fallible Refusal A
lift_store (err e) = err (of_store e)
lift_store (ok a) = ok a

-- A result with none of the fields.
abbrev pub empty_result : Result
empty_result = record {
  symbols = none;
  symbol = none;
  locations = none;
  documents = none;
  document = none;
  plan = none;
  plan_id = none;
  modified_documents = none;
  diagnostics = none;
  undo_token = none;
  truncated = false;
}

abbrev pub same_id : Option String → String → Bool
same_id none id = false
same_id (some named) id = named == id

-- `named !== undefined && named !== id`
abbrev pub names_another : Option String → String → Bool
names_another none id = false
names_another (some named) id = not (named == id)

unfoldable pub plan_context : Route → Workspace → PlanCreationContext
plan_context r w = record {
  consumer_session_id = r.consumer_session_id;
  adapter_session_id = r.adapter_session_id;
  adapter_id = w.adapter_id;
  workspace_id = r.workspace_id;
  workspace_epoch = w.workspace_epoch;
  workspace_root_uris = map (λ (root : WorkspaceRoot). root.uri) w.roots;
}

unfoldable pub undo_context : Route → Workspace → UndoCreationContext
undo_context r w = record {
  consumer_session_id = r.consumer_session_id;
  adapter_session_id = r.adapter_session_id;
  adapter_id = w.adapter_id;
  workspace_id = r.workspace_id;
}

-- The plan of an edit that was applied.
abbrev pub applied_plan : EditOperation → Option StoredPlan
applied_plan (apply p) = some p
applied_plan _ = none

-- The plan whose ID an error may name.
abbrev pub stored_plan : EditOperation → Option StoredPlan
stored_plan (apply p) = some p
stored_plan (discard p) = some p
stored_plan _ = none

abbrev pub is_some_plan : Option StoredPlan → Bool
is_some_plan none = false
is_some_plan (some p) = true

-- The branch of a prepared plan: the store publishes it under an ID of its own.
unfoldable pub transform_prepared :
    UrlPlatform
    → (ℕ → String)
    → ℕ
    → ℕ
    → Route
    → Result
    → Router
    → Fallible Refusal Response × Router
unfolding lift lift_store
transform_prepared platform draw swept_at now r result s =
    let asked : Fallible Refusal (EditPlan × Workspace) =
      lift (get_workspace r.workspace_id s.registry) >>= λ w.
      required result.plan provider_failed >>= λ plan. ok (plan, w) in
    elim asked [
      | err e ↦ (err e, s)
      | ok (plan, w) ↦
          let (made, store) =
            create_plan platform draw swept_at now plan (plan_context r w) s.edit_store in
          (
            lift_store made >>= λ public_plan.
                ok (success (record empty_result { plan = some public_plan })),
            record s { edit_store = store },
          )
    ]

unfoldable pub transform_discarded : StoredPlan → Result → Fallible Refusal Response
transform_discarded p result =
    if same_id result.plan_id p.adapter_plan.plan_id
    then ok (success (record empty_result { plan_id = some p.public_plan.plan_id }))
    else err provider_failed

unfoldable pub check_diagnostics_of :
    UrlPlatform → String → List DocumentDiagnostics → Registry → Fallible Refusal (Unit {0})
check_diagnostics_of platform workspace_id [] g = ok tt
check_diagnostics_of platform workspace_id (d ∷ ds) g =
    assert_workspace_document platform workspace_id d.document g
    >> check_diagnostics_of platform workspace_id ds g

abbrev pub or_none : Option (List DocumentDiagnostics) → List DocumentDiagnostics
or_none none = []
or_none (some ds) = ds

-- The tests of a result that says what was modified.
unfoldable pub check_modification :
    UrlPlatform → Route → Result → Registry → Fallible Refusal (Unit {0})
check_modification platform r result g = do
  documents ← required result.modified_documents provider_failed
  assert_modified_documents platform r documents (applied_plan r.edit_operation)
      (is_some_plan (applied_plan r.edit_operation)) g
  check_diagnostics_of platform r.workspace_id (or_none result.diagnostics) g

-- The result with the token of the store. Where the store is full there is none, and the result stands as it
-- came.
unfoldable pub with_token : Fallible StoreError UndoToken → Result → Fallible Refusal Response
with_token (ok token) result = ok (success (record result { undo_token = some token }))
with_token (err precondition_failed) result = ok (success result)
with_token (err e) result = err (of_store e)

-- The branch of an applied or undone edit.
unfoldable pub transform_modified :
    UrlPlatform
    → (ℕ → String)
    → ℕ
    → ℕ
    → Route
    → Result
    → Router
    → Fallible Refusal Response × Router
unfolding lift with_token
transform_modified platform draw swept_at now r result s =
    elim (check_modification platform r result s.registry) [
      | err e ↦ (err e, s)
      | ok done ↦ elim result.undo_token [
        | none ↦ (ok (success result), s)
        | some token ↦ elim (lift (get_workspace r.workspace_id s.registry)) [
          | err e ↦ (err e, s)
          | ok w ↦
              let (made, store) =
                create_undo_token draw swept_at now token (undo_context r w) s.edit_store in
              (with_token made result, record s { edit_store = store })
        ]
      ]
    ]

unfoldable pub transform_by :
    EditOperation
    → UrlPlatform
    → (ℕ → String)
    → ℕ
    → ℕ
    → Route
    → Result
    → Router
    → Fallible Refusal Response × Router
transform_by no_edit platform draw swept_at now r result s =
    transform_modified platform draw swept_at now r result s
transform_by prepare platform draw swept_at now r result s =
    transform_prepared platform draw swept_at now r result s
transform_by (apply p) platform draw swept_at now r result s =
    transform_modified platform draw swept_at now r result s
transform_by (discard p) platform draw swept_at now r result s = (transform_discarded p result, s)
transform_by (undo t) platform draw swept_at now r result s =
    transform_modified platform draw swept_at now r result s

-- `#transformEditResponse`
unfoldable pub transform_edit_response :
    UrlPlatform
    → (ℕ → String)
    → ℕ
    → ℕ
    → Route
    → Result
    → Router
    → Fallible Refusal Response × Router
unfolding transform_by
transform_edit_response platform draw swept_at now r result s =
    transform_by r.edit_operation platform draw swept_at now r result s

-- `error.data.code === "PARTIAL_APPLY"`
unfoldable pub check_partial :
    UrlPlatform → Route → String → Details → Registry → Fallible Refusal (Unit {0})
check_partial platform r code d g =
    let named : Fallible Refusal (Unit {0}) = elim (applied_plan r.edit_operation) [
      | none ↦ err provider_failed
      | some p ↦ required d.modified_documents provider_failed >>= λ documents.
          assert_modified_documents platform r documents (some p) false g
    ] in
    if code == "PARTIAL_APPLY" then named else ok tt

-- The ID of the adapter's plan becomes that of the consumer's.
unfoldable pub public_plan_id : Route → Details → Fallible Refusal Details
public_plan_id r d = elim d.plan_id [
  | none ↦ ok d
  | some id ↦ elim (stored_plan r.edit_operation) [
    | none ↦ err provider_failed
    | some p ↦
        if id == p.adapter_plan.plan_id
        then ok (record d { plan_id = some p.public_plan.plan_id })
        else err provider_failed
  ]
]

-- `#transformEditErrorResponse`
unfoldable pub transform_edit_error_response :
    UrlPlatform → Route → String → Option Details → Registry → Fallible Refusal Response
unfolding check_partial public_plan_id
transform_edit_error_response platform r code none g = ok (failure code none)
transform_edit_error_response platform r code (some d) g =
    refuse_if (names_another d.workspace_id r.workspace_id) provider_failed
    >> (public_plan_id r d >>= λ d'.
        check_partial platform r code d' g >> ok (failure code (some d')))
