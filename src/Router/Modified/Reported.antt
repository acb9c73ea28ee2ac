-- ===== src/Router/Modified/Reported.antt =====
-- What an accepted report of `#assertModifiedDocuments` says
-- (packages/bridge-daemon/src/routing/application-router.ts).
use junon.Shared.{
  String, ◌≡◌, refl, Bool, true, false, ◌&&◌, ◌||◌, not, Option, none, some, List, [], ◌∷◌, map,
  arith, all, contains, add, contains-add, eqb, ◌==◌, inl, inr,
}
use junon.Shared.Fresh.{are_distinct, admits, admits-distinct}
use junon.Shared.Results.{ok, refuse_if, Result-cases}
use junon.Uri.{UrlPlatform, is_uri_within_workspace_root}
use junon.EditStore.Data.{StoredPlan}
use junon.Registry.Data.{Workspace, WorkspaceRoot, Registry}
use junon.Registry.Ops.{get_workspace}
use junon.Router.Payload.{Document, ModifiedDocument}
use junon.Router.Data.{Route, provider_failed, lift}
use junon.Router.Notifications.{find_root, assert_workspace_document}
use junon.Router.Modified.{
  editor_version_advanced, change_uris, precondition_of, has_hash, check_planned, check_complete,
  check_modified, assert_modified_documents,
}

abbrev pub uri_of : ModifiedDocument → String
uri_of d = d.document.uri

abbrev under_root : UrlPlatform → String → Option WorkspaceRoot → Bool
under_root platform uri none = false
under_root platform uri (some root) = is_uri_within_workspace_root platform uri root.uri

-- The document names the workspace, its epoch, and a root of it that it lies in.
unfoldable pub is_held : UrlPlatform → Document → String → Workspace → Bool
is_held platform d workspace_id w =
    d.workspace_id == workspace_id
    && eqb d.revision.workspace_epoch w.workspace_epoch
    && under_root platform d.uri (find_root d.root_id w.roots)

-- The report agrees with the plan, and with itself.
unfoldable pub is_reported : UrlPlatform → StoredPlan → String → Workspace → ModifiedDocument → Bool
is_reported platform plan workspace_id w d =
    contains d.document.uri (change_uris plan.public_plan.changes)
    && has_hash (precondition_of plan d.document.uri) d.before_hash
    && editor_version_advanced (precondition_of plan d.document.uri) d.document.revision
    && d.document.revision.content_hash == d.after_hash
    && not (d.before_hash == d.after_hash)
    && is_held platform d.document workspace_id w

assert_workspace_document-is_held :
    (platform : UrlPlatform) (workspace_id : String) (d : Document) (g : Registry) (w : Workspace)
    → get_workspace workspace_id g ≡ ok w
    → assert_workspace_document platform workspace_id d g
      ≡ refuse_if (not (is_held platform d workspace_id w)) provider_failed
unfolding assert_workspace_document lift is_held
assert_workspace_document-is_held platform workspace_id d g w found = ground (arith, found)

module _ (platform : UrlPlatform) (plan : StoredPlan) (workspace_id : String) (g : Registry)
    (w : Workspace) where
  check_modified-admits :
      (seen returned : List String) (ds : List ModifiedDocument)
      → get_workspace workspace_id g ≡ ok w
      → check_modified platform (some plan) workspace_id seen ds g ≡ ok returned
      → admits (is_reported platform plan workspace_id w) uri_of seen ds ≡ true
  unfolding check_modified check_planned admits is_reported contains
  check_modified-admits seen returned [] found h = refl
  check_modified-admits seen returned (d ∷ ds) found h =
      let held = assert_workspace_document-is_held platform workspace_id d.document g w found in
      let rest = check_modified-admits (add d.document.uri seen) returned ds found in
      ground (arith, held, h, rest)

check_modified-returned :
    (platform : UrlPlatform) (plan : Option StoredPlan) (workspace_id uri : String) (g : Registry)
    (seen returned : List String) (ds : List ModifiedDocument)
    → check_modified platform plan workspace_id seen ds g ≡ ok returned
    → contains uri returned ≡ (contains uri (map uri_of ds) || contains uri seen)
unfolding check_modified contains
check_modified-returned platform plan workspace_id uri g seen returned [] h = ground arith
check_modified-returned platform plan workspace_id uri g seen returned (d ∷ ds) h = ground (
  arith,
  contains-add d.document.uri uri seen,
  check_modified-returned platform plan workspace_id uri g (add d.document.uri seen) returned ds,
)

-- What the consumer is told of a plan that was applied.
pub record Reported (platform : UrlPlatform) (r : Route) (plan : StoredPlan) (g : Registry)
    (ds : List ModifiedDocument) (w : Workspace) : Type 0 where
  pub routed : get_workspace r.workspace_id g ≡ ok w
  pub proper : all (is_reported platform plan r.workspace_id w) ds ≡ true
  pub once : are_distinct (map uri_of ds) ≡ true
  pub complete :
      (uri : String)
      → contains uri (change_uris plan.public_plan.changes) ≡ true
      → contains uri (map uri_of ds) ≡ true

all-contains :
    (uri : String) (xs returned : List String)
    → all (λ (k : String). contains k returned) xs ≡ true
    → contains uri xs ≡ true
    → contains uri returned ≡ true
unfolding all contains
all-contains uri [] returned every h = cc
all-contains uri (x ∷ xs) returned every h = ground (arith, all-contains uri xs returned)

-- For a registered workspace: an accepted report of an applied plan names each document that the plan
-- changes, and no other, once. Each has the before-hash that the plan expected, a later editor version
-- where both sides have one, the after-hash as its revision, a changed content, and lies in the root that
-- it names, at the workspace's epoch.
pub assert_modified_documents-Reported :
    (platform : UrlPlatform) (r : Route) (plan : StoredPlan) (g : Registry)
    (ds : List ModifiedDocument) (w : Workspace)
    → get_workspace r.workspace_id g ≡ ok w
    → assert_modified_documents platform r ds (some plan) true g ≡ ok tt
    → Reported platform r plan g ds w
unfolding assert_modified_documents check_complete contains
assert_modified_documents-Reported platform r plan g ds w found h =
    elim (Result-cases (check_modified platform (some plan) r.workspace_id [] ds g)) [
      | inl (e, failed) ↦ absurd (ground (arith, failed, h))
      | inr (returned, passed) ↦
          let each =
            check_modified-admits platform plan r.workspace_id g w [] returned ds found passed in
          let exact = admits-distinct (is_reported platform plan r.workspace_id w) uri_of ds in
          let changed = change_uris plan.public_plan.changes in
          let every : all (λ (k : String). contains k returned) changed ≡ true =
            ground (arith, passed, h) in
          record {
            routed = found;
            proper = ground (arith, each, exact);
            once = ground (arith, each, exact);
            complete = λ uri named.
                let there =
                  check_modified-returned platform (some plan) r.workspace_id uri g [] returned ds
                    passed in
                ground (arith, all-contains uri changed returned every named, there);
          }
    ]
