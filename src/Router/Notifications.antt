-- ===== src/Router/Notifications.antt =====
-- `#applyAdapterNotification` of packages/bridge-daemon/src/routing/application-router.ts, with the tests
-- of a document and of a URI. It returns the error that closes the adapter's connection, and the router.
use junon.Shared.{ℕ, String, not, Option, none, some, List, [], ◌∷◌, any, eqb, ◌==◌, if◌then◌else◌}
use junon.Shared.Results.{Fallible, ok, err, ◌>>=◌, ◌>>◌, refuse_if, required}
use junon.Shared.Maps.{Map}
use junon.Uri.{UrlPlatform, is_uri_within_workspace_root}
use junon.EditStore.Data.{EditStore}
use junon.EditStore.Removal.{invalidate_document, invalidate_workspace}
use junon.Registry.Data.{
  RegistryError, Registry, Workspace, WorkspaceRoot, WorkspaceStatus, Trust, Capability,
}
use junon.Registry.Ops.{get_workspace, assert_workspace_ownership}
use junon.Registry.Updates.{
  update_capabilities, open_workspace, close_workspace, update_workspace_roots,
  update_workspace_status, update_workspace_trust,
}
use junon.Router.Payload.{Document}
use junon.Router.Data.{Router, Refusal, of_registry, provider_failed, lift}

pub data Notification : Type 0 where
  capabilities_changed : String → Map Capability → Notification
  workspace_opened : Workspace → Notification
  workspace_closed : String → String → Notification
  roots_changed : String → String → List WorkspaceRoot → ℕ → Notification
  readiness_changed : WorkspaceStatus → Notification
  trust_changed : String → String → Trust → Notification
  document_deleted : String → String → Notification
  document_opened document_changed document_saved document_closed : Document → Notification
  document_renamed : String → Document → String → Notification
  diagnostics_changed : String → String → ℕ → Notification
  other_method : Notification

-- `workspace.roots.find((candidate) => candidate.rootId === id)`
unfoldable pub find_root : String → List WorkspaceRoot → Option WorkspaceRoot
find_root id [] = none
find_root id (r ∷ rs) = if r.root_id == id then some r else find_root id rs

abbrev pub registered :
    Fallible RegistryError Registry → Router → Fallible Refusal (Unit {0}) × Router
registered (err e) s = (err (of_registry e), s)
registered (ok r) s = (ok tt, record s { registry = r })

-- What passes its check writes to the edit store.
abbrev pub checked {ℓ} :
    {A : Type ℓ}
    → Fallible Refusal A
    → (EditStore → EditStore)
    → Router
    → Fallible Refusal (Unit {0}) × Router
checked (err e) write s = (err e, s)
checked (ok a) write s = (ok tt, record s { edit_store = write s.edit_store })

abbrev pub nothing : EditStore → EditStore
nothing s = s

abbrev pub without_workspace : String → Router → Router
without_workspace workspace_id s = record s {
  edit_store = (invalidate_workspace workspace_id s.edit_store).1;
}

module _ (platform : UrlPlatform) where
  unfoldable pub assert_workspace_uri : String → String → Registry → Fallible Refusal (Unit {0})
  unfolding lift
  assert_workspace_uri workspace_id uri r = do
    w ← lift (get_workspace workspace_id r)
    refuse_if
        (not (
          any (λ (root : WorkspaceRoot). is_uri_within_workspace_root platform uri root.uri)
            w.roots))
        (of_registry RegistryError.permission_denied)

  unfoldable pub assert_workspace_document :
      String → Document → Registry → Fallible Refusal (Unit {0})
  unfolding lift
  assert_workspace_document workspace_id document r = do
    w ← lift (get_workspace workspace_id r)
    refuse_if (not (document.workspace_id == workspace_id)) provider_failed
    refuse_if (not (eqb document.revision.workspace_epoch w.workspace_epoch)) provider_failed
    root ← required (find_root document.root_id w.roots) provider_failed
    refuse_if (not (is_uri_within_workspace_root platform document.uri root.uri)) provider_failed

  -- The session owns the workspace, and the document is one of it.
  unfoldable pub check_document : String → Document → Registry → Fallible Refusal (Unit {0})
  unfolding lift
  check_document session_id document r = do
    _ ← lift (assert_workspace_ownership session_id document.workspace_id r)
    assert_workspace_document document.workspace_id document r

  unfoldable pub check_uri : String → String → String → Registry → Fallible Refusal Workspace
  unfolding lift
  check_uri session_id workspace_id uri r = do
    w ← lift (assert_workspace_ownership session_id workspace_id r)
    assert_workspace_uri workspace_id uri r
    ok w

  unfoldable pub check_rename :
      String → String → Document → String → Registry → Fallible Refusal (Unit {0})
  unfolding lift
  check_rename session_id workspace_id document previous_uri r = do
    _ ← lift (assert_workspace_ownership session_id workspace_id r)
    refuse_if (not (document.workspace_id == workspace_id))
        (of_registry RegistryError.permission_denied)
    assert_workspace_document workspace_id document r
    assert_workspace_uri workspace_id previous_uri r

  unfoldable pub check_diagnostics :
      String → String → String → ℕ → Registry → Fallible Refusal (Unit {0})
  check_diagnostics session_id workspace_id uri epoch r = do
    w ← check_uri session_id workspace_id uri r
    refuse_if (not (eqb epoch w.workspace_epoch)) (of_registry RegistryError.precondition_failed)

  unfoldable pub apply_notification :
      String → Notification → Router → Fallible Refusal (Unit {0}) × Router
  apply_notification i (capabilities_changed adapter_id capabilities) s =
      registered (update_capabilities i adapter_id capabilities s.registry) s
  apply_notification i (workspace_opened w) s = registered (open_workspace i w s.registry) s
  apply_notification i (workspace_closed workspace_id adapter_id) s =
      registered (close_workspace i workspace_id adapter_id s.registry)
        (without_workspace workspace_id s)
  apply_notification i (roots_changed workspace_id adapter_id roots epoch) s =
      registered (update_workspace_roots i workspace_id adapter_id roots epoch s.registry)
        (without_workspace workspace_id s)
  apply_notification i (readiness_changed status) s =
      registered (update_workspace_status i status s.registry) s
  apply_notification i (trust_changed workspace_id adapter_id trust) s =
      registered (update_workspace_trust i workspace_id adapter_id trust s.registry) s
  apply_notification i (document_deleted workspace_id uri) s =
      checked (check_uri i workspace_id uri s.registry)
        (λ t. (invalidate_document workspace_id uri none t).1) s
  apply_notification i (document_opened d) s = checked (check_document i d s.registry) nothing s
  apply_notification i (document_changed d) s =
      checked (check_document i d s.registry)
        (λ t. (invalidate_document d.workspace_id d.uri (some d.revision) t).1) s
  apply_notification i (document_saved d) s = checked (check_document i d s.registry) nothing s
  apply_notification i (document_closed d) s = checked (check_document i d s.registry) nothing s
  apply_notification i (document_renamed workspace_id d previous_uri) s =
      checked (check_rename i workspace_id d previous_uri s.registry)
        (λ t.
          (invalidate_document workspace_id d.uri none
            (invalidate_document workspace_id previous_uri none t).1).1)
        s
  apply_notification i (diagnostics_changed workspace_id uri epoch) s =
      checked (check_diagnostics i workspace_id uri epoch s.registry) nothing s
  apply_notification i other_method s = (err (of_registry RegistryError.permission_denied), s)
