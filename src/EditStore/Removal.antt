-- ===== src/EditStore/Removal.antt =====
-- How plans and undo tokens are dropped: release, invalidation, the sweep and the close
-- (packages/bridge-daemon/src/plan/in-memory-edit-store.ts).
pub mod Loops
pub mod Tokens
pub mod Purge
use Prim.Native.Char.{nul}
use Prim.Native.String.{◌++◌ as text_append}
use junon.Shared.{
  ℕ, ◌+◌, String, Bool, true, false, ◌&&◌, ◌||◌, Option, none, some, List, [], ◌∷◌, ltb, ◌==◌,
  length, any, remove, if◌then◌else◌,
}
use junon.Shared.Maps.{Map, get, set, delete, values}
use junon.Clock.{Timestamp, passed}
use junon.EditStore.Data.{
  Revision, Precondition, StalePlanReason, StoredPlan, StoredUndoToken, EditStore,
  max_remembered_invalidations,
}

-- `${sessionId}\u0000${id}`, for plans and for undo tokens.
unfoldable pub internal_key : String → String → String
internal_key session_id id = text_append session_id (String.◌∷◌ nul id)

unfoldable pub release_plan : StoredPlan → EditStore → EditStore
release_plan p s = record s {
  internal_plans =
      remove (internal_key p.adapter_session_id p.adapter_plan.plan_id) s.internal_plans;
}

unfoldable pub release_undo_token : StoredUndoToken → EditStore → EditStore
release_undo_token t s = record s {
  internal_undo_tokens =
      remove (internal_key t.adapter_session_id t.adapter_token.id) s.internal_undo_tokens;
}

-- The flag is `releaseInternalPlan`.
unfoldable pub delete_plan : StoredPlan → Bool → EditStore → EditStore
unfolding release_plan
delete_plan p release_internal_plan s =
    let s' : EditStore = record s { plans = delete p.public_plan.plan_id s.plans } in
    if release_internal_plan then release_plan p s' else s'

unfoldable pub delete_undo_token : String → StoredUndoToken → EditStore → EditStore
unfolding release_undo_token
delete_undo_token id t s = release_undo_token t (record s { undo_tokens = delete id s.undo_tokens })

-- `while (size > 256)` drop the oldest entry, which is the first.
unfoldable pub forget_oldest : Map StalePlanReason → Map StalePlanReason
forget_oldest [] = []
forget_oldest (e ∷ m) =
    let rest = forget_oldest m in
    if ltb max_remembered_invalidations (length (e ∷ m)) then rest else e ∷ m

unfoldable pub remember_reason : String → StalePlanReason → EditStore → EditStore
unfolding forget_oldest
remember_reason plan_id reason s = record s {
  invalidation_reasons = forget_oldest (set plan_id reason s.invalidation_reasons);
}

-- The reason is reported once.
unfoldable pub take_reason : String → EditStore → Option StalePlanReason × EditStore
take_reason plan_id s = elim (get plan_id s.invalidation_reasons) [
  | none ↦ (none, s)
  | some reason ↦
      (some reason, record s { invalidation_reasons = delete plan_id s.invalidation_reasons })
]

unfoldable pub remember_if : Option StalePlanReason → String → EditStore → EditStore
unfolding remember_reason
remember_if none plan_id s = s
remember_if (some reason) plan_id s = remember_reason plan_id reason s

-- One round of the loop of `#invalidatePlans`, and the loop, over the plans as they stood before it.
module _ (predicate : StoredPlan → Bool) (reason : Option StalePlanReason) where
  unfoldable pub invalidate_one : StoredPlan → ℕ × EditStore → ℕ × EditStore
  unfolding delete_plan remember_if
  invalidate_one p (n, s) =
      if predicate p
      then (n + 1, remember_if reason p.public_plan.plan_id (delete_plan p true s))
      else (n, s)

  unfoldable pub invalidate_each : List StoredPlan → ℕ × EditStore → ℕ × EditStore
  unfolding invalidate_one
  invalidate_each [] acc = acc
  invalidate_each (p ∷ ps) acc = invalidate_each ps (invalidate_one p acc)

  unfoldable pub invalidate_plans : EditStore → ℕ × EditStore
  unfolding invalidate_each
  invalidate_plans s = invalidate_each (values s.plans) (0, s)

-- The loops over the undo tokens that delete those which meet a test.
unfoldable pub drop_tokens : (StoredUndoToken → Bool) → Map StoredUndoToken → EditStore → EditStore
unfolding delete_undo_token
drop_tokens p [] s = s
drop_tokens p ((id, t) ∷ rest) s = drop_tokens p rest (if p t then delete_undo_token id t s else s)

-- What `invalidateWorkspace`, `invalidateSession` and `sweep` share: the plans that meet one test
-- go, without a reason, and then the undo tokens that meet another.
unfoldable pub purge : (StoredPlan → Bool) → (StoredUndoToken → Bool) → EditStore → ℕ × EditStore
unfolding invalidate_plans drop_tokens
purge plan_test token_test s =
    let (n, s') = invalidate_plans plan_test none s in (n, drop_tokens token_test s'.undo_tokens s')

abbrev pub depends_on : String → String → StoredPlan → Bool
depends_on workspace_id uri p =
    p.public_plan.workspace_id == workspace_id
    && any (λ precondition. precondition.uri == uri) p.public_plan.preconditions

stale_reason : String → String → Option Revision → Option StalePlanReason
stale_reason workspace_id uri none = none
stale_reason workspace_id uri (some revision) =
    some (record { workspace_id = workspace_id; uri = uri; current_revision = revision })

unfoldable pub invalidate_document : String → String → Option Revision → EditStore → ℕ × EditStore
unfolding invalidate_plans stale_reason
invalidate_document workspace_id uri current_revision s =
    invalidate_plans (depends_on workspace_id uri) (stale_reason workspace_id uri current_revision)
      s

abbrev pub plan_in_workspace : String → StoredPlan → Bool
plan_in_workspace workspace_id p = p.public_plan.workspace_id == workspace_id

abbrev pub token_in_workspace : String → StoredUndoToken → Bool
token_in_workspace workspace_id t = t.public_token.workspace_id == workspace_id

unfoldable pub invalidate_workspace : String → EditStore → ℕ × EditStore
unfolding purge
invalidate_workspace workspace_id s =
    purge (plan_in_workspace workspace_id) (token_in_workspace workspace_id) s

abbrev pub plan_of_session : String → StoredPlan → Bool
plan_of_session session_id p =
    p.consumer_session_id == session_id || p.adapter_session_id == session_id

abbrev pub token_of_session : String → StoredUndoToken → Bool
token_of_session session_id t =
    t.consumer_session_id == session_id || t.adapter_session_id == session_id

unfoldable pub invalidate_session : String → EditStore → EditStore
unfolding purge
invalidate_session session_id s =
    (purge (plan_of_session session_id) (token_of_session session_id) s).1

abbrev pub plan_expired_at : ℕ → StoredPlan → Bool
plan_expired_at now p = passed p.public_plan.expires_at now

-- `expiresAt !== undefined && Date.parse(expiresAt) <= now`
abbrev pub passed_if_any : Option Timestamp → ℕ → Bool
passed_if_any none now = false
passed_if_any (some text) now = passed text now

abbrev pub token_expired_at : ℕ → StoredUndoToken → Bool
token_expired_at now t = passed_if_any t.public_token.expires_at now

unfoldable pub sweep : ℕ → EditStore → EditStore
unfolding purge
sweep now s = (purge (plan_expired_at now) (token_expired_at now) s).1

-- The timer and the remembered reasons aside, everything goes.
unfoldable pub close : EditStore → EditStore
close s = record s { plans = []; internal_plans = []; undo_tokens = []; internal_undo_tokens = [] }
