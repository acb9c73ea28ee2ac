-- ===== src/Router/Foreign.antt =====
-- What the notifications of an adapter leave of other adapters' workspaces and of their plans
-- (packages/bridge-daemon/src/routing/application-router.ts).
use junon.Shared.{
  String, ◌≡◌, ◌≢◌, refl, Bool, true, false, Option, none, some, arith, ◌==◌, inl, inr, ◌∙◌,
  if◌then◌else◌,
}
use junon.Shared.Results.{Fallible, ok, err, Result-cases}
use junon.Shared.Maps.{get}
use junon.Uri.{UrlPlatform}
use junon.EditStore.Data.{StoredPlan, Revision, EditStore}
use junon.EditStore.Removal.{invalidate_document, plan_in_workspace, token_in_workspace}
use junon.EditStore.Removal.Purge.{
  IsIndexed, Purged, invalidate_document-exact, invalidate_workspace-Purged,
}
use junon.EditStore.Shrinks.{invalidate_document-Shrinks}
use junon.Registry.Data.{RegistryError, Registry, WorkspaceRecord, Workspace}
use junon.Registry.Ops.{get_workspace, assert_adapter_ownership, assert_workspace_ownership}
use junon.Registry.Updates.{
  close_workspace, open_workspace, update_capabilities, update_workspace_status,
  update_workspace_trust,
}
use junon.Registry.Consistent.{IsConsistent, holder}
use junon.Registry.Step.{
  Call, kept, step, updates_capabilities, opens_workspace, updates_status, updates_trust,
}
use junon.Registry.Ownership.{actor, step-foreign}
use junon.Router.Data.{Router, Refusal, lift}
use junon.Router.Payload.{Document}
use junon.Router.Notifications.{
  Notification, capabilities_changed, workspace_opened, workspace_closed, roots_changed,
  readiness_changed, trust_changed, document_deleted, document_opened, document_changed,
  document_saved, document_closed, document_renamed, diagnostics_changed, other_method,
  check_document, check_uri, check_rename, registered, checked, nothing, apply_notification,
}

invalidate_document-IsIndexed :
    (workspace_id uri : String) (revision : Option Revision) (s : EditStore)
    → IsIndexed s
    → IsIndexed (invalidate_document workspace_id uri revision s).1
invalidate_document-IsIndexed workspace_id uri revision s x =
    let exact = invalidate_document-exact workspace_id uri revision s x in
    let less = invalidate_document-Shrinks workspace_id uri revision s in
    record {
      keyed = λ k p e. ground (arith, exact.0 k, x.keyed k p);
      distinct_plans = less.distinct_plans x.distinct_plans;
      distinct_tokens = less.distinct_tokens x.distinct_tokens;
    }

-- What is found under an ID, if it is a plan in the workspace.
abbrev pub plan_within : String → Option StoredPlan → Option StoredPlan
plan_within workspace_id none = none
plan_within workspace_id (some p) =
    if p.public_plan.workspace_id == workspace_id then some p else none

invalidate_document_keeps :
    (workspace_id uri : String) (revision : Option Revision) (s : EditStore) (j k : String)
    → IsIndexed s
    → (k == workspace_id) ≡ false
    → plan_within k (get j (invalidate_document workspace_id uri revision s).1.plans)
      ≡ plan_within k (get j s.plans)
invalidate_document_keeps workspace_id uri revision s j k x apart =
    ground (arith, (invalidate_document-exact workspace_id uri revision s x).0 j, apart)

-- The notifications that drop a workspace's plans before they are checked.
abbrev pub drops_first : Notification → Bool
drops_first (workspace_closed workspace_id adapter_id) = true
drops_first (roots_changed workspace_id adapter_id roots epoch) = true
drops_first _ = false

-- A workspace and its plans, as they were.
record Kept (k j : String) (w : WorkspaceRecord) (s t : Router) : Type 0 where
  workspace : get k t.registry.workspaces ≡ some w
  plan : plan_within k (get j t.edit_store.plans) ≡ plan_within k (get j s.edit_store.plans)

module _ (platform : UrlPlatform) (s : Router) (i k j other : String) (w : WorkspaceRecord)
    (c : IsConsistent s.registry) (x : IsIndexed s.edit_store)
    (found : get k s.registry.workspaces ≡ some w)
    (owner : holder (get w.workspace.adapter_id s.registry.adapters) ≡ some other)
    (apart : i ≢ other) where
  owned_elsewhere :
      (workspace_id : String) (v : Workspace)
      → assert_workspace_ownership i workspace_id s.registry ≡ ok v
      → (k == workspace_id) ≡ false
  unfolding assert_workspace_ownership get_workspace assert_adapter_ownership
  owned_elsewhere workspace_id v e = ground arith

  registered_keeps :
      (y : Fallible RegistryError Registry)
      → get k (kept y s.registry).workspaces ≡ some w
      → Kept k j w s (registered y s).1
  registered_keeps (ok t) h = record { workspace = h; plan = refl }
  registered_keeps (err e) h = record { workspace = h; plan = refl }

  checked_keeps :
      {A : Type 0} (y : Fallible Refusal A) (write : EditStore → EditStore)
      → ((a : A)
          → y ≡ ok a
          → plan_within k (get j (write s.edit_store).plans)
            ≡ plan_within k (get j s.edit_store.plans))
      → Kept k j w s (checked y write s).1
  checked_keeps (ok a) write h = record { workspace = found; plan = h a refl }
  checked_keeps (err e) write h = record { workspace = found; plan = refl }

  document_keeps :
      (workspace_id uri : String) (revision : Option Revision)
      → (k == workspace_id) ≡ false
      → plan_within k (get j (invalidate_document workspace_id uri revision s.edit_store).1.plans)
        ≡ plan_within k (get j s.edit_store.plans)
  document_keeps workspace_id uri revision away =
      invalidate_document_keeps workspace_id uri revision s.edit_store j k x away

  check_uri-elsewhere :
      (workspace_id uri : String) (v : Workspace)
      → check_uri platform i workspace_id uri s.registry ≡ ok v
      → (k == workspace_id) ≡ false
  unfolding check_uri lift
  check_uri-elsewhere workspace_id uri v e =
      elim (Result-cases (assert_workspace_ownership i workspace_id s.registry)) [
        | inl (y, stop) ↦ absurd (ground (arith, stop))
        | inr (u, owns) ↦ owned_elsewhere workspace_id u owns
      ]

  check_document-elsewhere :
      (d : Document)
      → check_document platform i d s.registry ≡ ok tt
      → (k == d.workspace_id) ≡ false
  unfolding check_document lift
  check_document-elsewhere d e =
      elim (Result-cases (assert_workspace_ownership i d.workspace_id s.registry)) [
        | inl (y, stop) ↦ absurd (ground (arith, stop))
        | inr (u, owns) ↦ owned_elsewhere d.workspace_id u owns
      ]

  check_rename-elsewhere :
      (workspace_id : String) (d : Document) (previous_uri : String)
      → check_rename platform i workspace_id d previous_uri s.registry ≡ ok tt
      → (k == workspace_id) ≡ false
  unfolding check_rename lift
  check_rename-elsewhere workspace_id d previous_uri e =
      elim (Result-cases (assert_workspace_ownership i workspace_id s.registry)) [
        | inl (y, stop) ↦ absurd (ground (arith, stop))
        | inr (u, owns) ↦ owned_elsewhere workspace_id u owns
      ]

  foreign : (call : Call) → actor call ≢ other → get k (step s.registry call).workspaces ≡ some w
  foreign call away = step-foreign s.registry k other w c found owner call away

  notification_keeps :
      (n : Notification)
      → drops_first n ≡ false
      → Kept k j w s (apply_notification platform i n s).1
  unfolding apply_notification step
  notification_keeps (capabilities_changed a m) late =
      registered_keeps (update_capabilities i a m s.registry)
        (foreign (updates_capabilities i a m) apart)
  notification_keeps (workspace_opened v) late =
      registered_keeps (open_workspace i v s.registry) (foreign (opens_workspace i v) apart)
  notification_keeps (workspace_closed v a) late = cc
  notification_keeps (roots_changed v a roots n) late = cc
  notification_keeps (readiness_changed status) late =
      registered_keeps (update_workspace_status i status s.registry)
        (foreign (updates_status i status) apart)
  notification_keeps (trust_changed v a t) late =
      registered_keeps (update_workspace_trust i v a t s.registry)
        (foreign (updates_trust i v a t) apart)
  notification_keeps (document_deleted v uri) late =
      checked_keeps (check_uri platform i v uri s.registry) _
        (λ a e. document_keeps v uri none (check_uri-elsewhere v uri a e))
  notification_keeps (document_opened d) late = checked_keeps _ nothing (λ a e. refl)
  notification_keeps (document_changed d) late =
      checked_keeps (check_document platform i d s.registry) _ (λ a e.
        document_keeps d.workspace_id d.uri (some d.revision) (check_document-elsewhere d e))
  notification_keeps (document_saved d) late = checked_keeps _ nothing (λ a e. refl)
  notification_keeps (document_closed d) late = checked_keeps _ nothing (λ a e. refl)
  notification_keeps (document_renamed v d old) late =
      checked_keeps (check_rename platform i v d old s.registry) _ (λ a e.
        let away = check_rename-elsewhere v d old e in
        invalidate_document_keeps v d.uri none (invalidate_document v old none s.edit_store).1 j k
          (invalidate_document-IsIndexed v old none s.edit_store x) away
        ∙ document_keeps v old none away)
  notification_keeps (diagnostics_changed v uri n) late = checked_keeps _ nothing (λ a e. refl)
  notification_keeps other_method late = record { workspace = found; plan = refl }

  -- Over a consistent registry and an indexed store, a notification of one session, but for
  -- workspace/closed and workspace/rootsChanged, leaves every workspace of another session's
  -- adapter as it is, and under every ID the plan of that workspace, if there is one: none is
  -- dropped, changed or added, accepted or refused.
  pub apply_notification-foreign :
      (n : Notification)
      → drops_first n ≡ false
      → (get k (apply_notification platform i n s).1.registry.workspaces ≡ some w)
        × (plan_within k (get j (apply_notification platform i n s).1.edit_store.plans)
            ≡ plan_within k (get j s.edit_store.plans))
  apply_notification-foreign n late =
      let kept = notification_keeps n late in (kept.workspace, kept.plan)

-- Over an indexed store, a workspace/closed from a session that does not own the workspace is
-- refused and leaves the registry as it is, but it drops every plan and every undo token in the
-- workspace.
pub workspace_closed-drops :
    (platform : UrlPlatform) (i workspace_id adapter_id other : String) (s : Router)
    (w : WorkspaceRecord)
    → IsIndexed s.edit_store
    → get workspace_id s.registry.workspaces ≡ some w
    → holder (get w.workspace.adapter_id s.registry.adapters) ≡ some other
    → i ≢ other
    → ((e : Refusal) × ((apply_notification platform i
            (workspace_closed workspace_id adapter_id)
            s).0
          ≡ err e))
      × ((apply_notification platform i (workspace_closed workspace_id adapter_id) s).1.registry
          ≡ s.registry)
      × Purged
          (plan_in_workspace workspace_id)
          (token_in_workspace workspace_id)
          s.edit_store
          (apply_notification platform i (workspace_closed workspace_id adapter_id) s).1.edit_store
unfolding apply_notification
workspace_closed-drops platform i workspace_id adapter_id other s w x found owner apart =
    elim (Result-cases (close_workspace i workspace_id adapter_id s.registry)) [
      | inr (t, closed) ↦ absurd (
          unfold close_workspace assert_workspace_ownership get_workspace
            assert_adapter_ownership in
          ground arith)
      | inl (e, refused) ↦
          rw (refused, apply_notification)
            ((_, refl), refl, invalidate_workspace-Purged workspace_id s.edit_store x)
    ]
