-- ===== src/Router/Modified.antt =====
-- `#assertModifiedDocuments` of packages/bridge-daemon/src/routing/application-router.ts: the documents
-- that an adapter reports as modified, against the plan that was applied.
pub mod Reported
use junon.Shared.{
  ℕ, String, Bool, true, false, ◌&&◌, ◌||◌, not, Option, none, some, List, [], ◌∷◌, ltb, eqb, all,
  contains, add, length, ◌==◌, if◌then◌else◌,
}
use junon.Shared.Results.{Fallible, ok, err, ◌>>=◌, ◌>>◌, refuse_if}
use junon.Shared.Maps.{Map, get, set}
use junon.Uri.{UrlPlatform}
use junon.EditStore.Data.{Revision, Precondition, ChangeSummary, StoredPlan}
use junon.Registry.Data.{Registry}
use junon.Router.Payload.{Document, ModifiedDocument}
use junon.Router.Data.{Route, Refusal, provider_failed}
use junon.Router.Notifications.{assert_workspace_document}

-- The versions, where both sides have one.
unfoldable pub version_advanced : Option ℕ → Option ℕ → Bool
version_advanced (some before) (some after) = ltb before after
version_advanced _ _ = true

unfoldable pub editor_version_advanced : Option Precondition → Revision → Bool
editor_version_advanced none revision = true
editor_version_advanced (some p) revision =
    version_advanced p.editor_version revision.editor_version

-- `new Set(changes.map(({ uri }) => uri))`
unfoldable pub change_uris : List ChangeSummary → List String
change_uris [] = []
change_uris (h ∷ hs) = add h.uri (change_uris hs)

-- `new Map(preconditions.map((item) => [item.uri, item]))`, onto the entries before.
unfoldable pub preconditions_by_uri : Map Precondition → List Precondition → Map Precondition
preconditions_by_uri m [] = m
preconditions_by_uri m (p ∷ ps) = preconditions_by_uri (set p.uri p m) ps

abbrev pub precondition_of : StoredPlan → String → Option Precondition
precondition_of plan uri = get uri (preconditions_by_uri [] plan.public_plan.preconditions)

abbrev pub has_hash : Option Precondition → String → Bool
has_hash none hash = false
has_hash (some p) hash = p.content_hash == hash

-- The conditions that a plan brings.
unfoldable pub check_planned : Option StoredPlan → ModifiedDocument → Fallible Refusal (Unit {0})
check_planned none d = ok tt
check_planned (some plan) d =
    refuse_if (not (contains d.document.uri (change_uris plan.public_plan.changes))) provider_failed
    >> refuse_if (not (has_hash (precondition_of plan d.document.uri) d.before_hash))
        provider_failed
    >> refuse_if
        (not (editor_version_advanced (precondition_of plan d.document.uri) d.document.revision))
        provider_failed

-- What is still to be reported of a plan.
unfoldable pub check_complete : Option StoredPlan → List String → Fallible Refusal (Unit {0})
check_complete none returned = ok tt
check_complete (some plan) returned =
    let changed = change_uris plan.public_plan.changes in
    refuse_if
      (not (eqb (length returned) (length changed))
        || not (all (λ (uri : String). contains uri returned) changed))
      provider_failed

module _ (platform : UrlPlatform) where
  -- The loop, with the URIs that were returned before.
  unfoldable pub check_modified :
      Option StoredPlan
      → String
      → List String
      → List ModifiedDocument
      → Registry
      → Fallible Refusal (List String)
  check_modified plan workspace_id returned [] g = ok returned
  check_modified plan workspace_id returned (d ∷ ds) g =
      refuse_if (contains d.document.uri returned) provider_failed
      >> check_planned plan d
      >> refuse_if (not (d.document.revision.content_hash == d.after_hash)) provider_failed
      >> refuse_if (d.before_hash == d.after_hash) provider_failed
      >> assert_workspace_document platform workspace_id d.document g
      >> check_modified plan workspace_id (add d.document.uri returned) ds g

  unfoldable pub assert_modified_documents :
      Route
      → List ModifiedDocument
      → Option StoredPlan
      → Bool
      → Registry
      → Fallible Refusal (Unit {0})
  assert_modified_documents r documents plan require_every_planned_document g =
      check_modified plan r.workspace_id [] documents g >>= λ returned.
      if require_every_planned_document then check_complete plan returned else ok tt
