-- ===== src/Router/Responses/Tokens.antt =====
-- What becomes of an adapter's undo token
-- (packages/bridge-daemon/src/routing/application-router.ts).
use junon.Shared.{ℕ, String, ◌≡◌, true, some, leb, arith}
use junon.Shared.Results.{ok}
use junon.Uri.{UrlPlatform}
use junon.EditStore.Data.{StoredPlan, UndoToken}
use junon.EditStore.Removal.{sweep}
use junon.EditStore.Shrinks.{sweep-Shrinks}
use junon.EditStore.Plans.{assert_capacity, total}
use junon.EditStore.Undo.{create_undo_token, admit_token, check_token}
use junon.Registry.Data.{Workspace}
use junon.Registry.Ops.{get_workspace}
use junon.Router.Payload.{Result, success}
use junon.Router.Data.{apply, Route, Router, lift}
use junon.Router.Responses.{
  check_modification, with_token, transform_by, transform_modified, transform_edit_response,
}

-- When the bounded store is full, the consumer of an applied plan is sent the result with the undo token that
-- the adapter made, unchanged.
pub transform_edit_response-exposes :
    (platform : UrlPlatform) (draw : ℕ → String) (swept_at now : ℕ) (r : Route) (p : StoredPlan)
    (result : Result) (token : UndoToken) (w : Workspace) (s : Router)
    → r.edit_operation ≡ apply p
    → check_modification platform r result s.registry ≡ ok tt
    → result.undo_token ≡ some token
    → get_workspace r.workspace_id s.registry ≡ ok w
    → leb s.edit_store.maximum_entries (total (sweep swept_at s.edit_store)) ≡ true
    → (transform_edit_response platform draw swept_at now r result s).0 ≡ ok (success result)
unfolding transform_edit_response transform_by transform_modified lift with_token create_undo_token
    admit_token check_token assert_capacity
transform_edit_response-exposes platform draw swept_at now r p result token w s applied checked
      there found full =
    let same = (sweep-Shrinks swept_at s.edit_store).entries in
    ground (arith, applied, checked, there, found, full, same)
