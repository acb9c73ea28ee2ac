-- ===== src/EditStore/Plans.antt =====
-- How plans enter the store and how consumers take them out
-- (packages/bridge-daemon/src/plan/in-memory-edit-store.ts). `draw n` is the ID factory's n-th text.
use junon.Shared.{
  ℕ, ◌+◌, String, Bool, true, false, ◌&&◌, ◌||◌, Option, none, some, List, [], ◌∷◌, not, leb, eqb,
  min, ◌==◌, length, any, contains, add, if◌then◌else◌,
}
use junon.Shared.Maps.{get, set, count}
use junon.Clock.{iso, parse, passed}
use junon.Uri.{UrlPlatform, is_uri_within_workspace_root}
use junon.EditStore.Data.{
  Precondition, ChangeSummary, EditPlan, StalePlanReason, StoreError, plan_expired, plan_not_found,
  precondition_failed, provider_failed, stale_document, another_adapter, another_session,
  another_workspace, unreadable_expiry, already_expired, repeated_precondition, another_epoch,
  precondition_outside_roots, repeated_change, change_without_precondition, change_outside_roots,
  repeated_live_id, Result, ok, err, ◌>>=◌, ◌>>◌, refuse_if, StoredPlan, StoredUndoToken,
  PlanCreationContext, EditStore,
}
use junon.EditStore.Ids.{unique_id}
use junon.EditStore.Removal.{internal_key, delete_plan, take_reason, sweep}

abbrev pub plan_owned_by : String → StoredPlan → Bool
plan_owned_by consumer_session_id p = p.consumer_session_id == consumer_session_id

abbrev pub token_owned_by : String → StoredUndoToken → Bool
token_owned_by consumer_session_id t = t.consumer_session_id == consumer_session_id

unfoldable pub total : EditStore → ℕ
total s = length s.plans + length s.undo_tokens

unfoldable pub owned : String → EditStore → ℕ
owned consumer_session_id s =
    count (plan_owned_by consumer_session_id) s.plans
    + count (token_owned_by consumer_session_id) s.undo_tokens

unfoldable pub assert_capacity : String → EditStore → Result (Unit {0})
unfolding total owned
assert_capacity consumer_session_id s =
    refuse_if
      (leb s.maximum_entries (total s)
        || leb s.maximum_entries_per_consumer (owned consumer_session_id s))
      precondition_failed

abbrev pub within_a_root : UrlPlatform → List String → String → Bool
within_a_root platform roots uri =
    any (λ root_uri. is_uri_within_workspace_root platform uri root_uri) roots

-- The loop over the preconditions, with the URIs of those before.
unfoldable pub check_preconditions :
    UrlPlatform → PlanCreationContext → List String → List Precondition → Result (List String)
check_preconditions platform c seen [] = ok seen
check_preconditions platform c seen (p ∷ ps) =
    refuse_if (contains p.uri seen) (provider_failed repeated_precondition)
    >> refuse_if (not (eqb p.workspace_epoch c.workspace_epoch)) (provider_failed another_epoch)
    >> refuse_if (not (within_a_root platform c.workspace_root_uris p.uri))
        (provider_failed precondition_outside_roots)
    >> check_preconditions platform c (add p.uri seen) ps

-- The loop over the changes.
unfoldable pub check_changes :
    UrlPlatform
    → PlanCreationContext
    → List String
    → List String
    → List ChangeSummary
    → Result (Unit {0})
check_changes platform c preconditions seen [] = ok tt
check_changes platform c preconditions seen (h ∷ hs) =
    refuse_if (contains h.uri seen) (provider_failed repeated_change)
    >> refuse_if (not (contains h.uri preconditions)) (provider_failed change_without_precondition)
    >> refuse_if (not (within_a_root platform c.workspace_root_uris h.uri))
        (provider_failed change_outside_roots)
    >> check_changes platform c preconditions (add h.uri seen) hs

unfoldable pub check_expiry : Option ℕ → ℕ → Result ℕ
check_expiry none now = err (provider_failed unreadable_expiry)
check_expiry (some t) now = if leb t now then err (provider_failed already_expired) else ok t

-- The checks of `createPlan` on a swept store; the result is the adapter's expiry.
unfoldable pub check_plan : UrlPlatform → ℕ → EditPlan → PlanCreationContext → EditStore → Result ℕ
unfolding check_expiry
check_plan platform now plan c s = do
  assert_capacity c.consumer_session_id s
  refuse_if (not (plan.adapter_id == c.adapter_id)) (provider_failed another_adapter)
  refuse_if (not (plan.session_id == c.adapter_session_id)) (provider_failed another_session)
  refuse_if (not (plan.workspace_id == c.workspace_id)) (provider_failed another_workspace)
  expiration ← check_expiry (parse plan.expires_at) now
  preconditions ← check_preconditions platform c [] plan.preconditions
  check_changes platform c preconditions [] plan.changes
  refuse_if (contains (internal_key c.adapter_session_id plan.plan_id) s.internal_plans)
      (provider_failed repeated_live_id)
  ok expiration

-- The plan that the consumer sees.
unfoldable pub publish : ℕ → String → EditPlan → PlanCreationContext → EditStore → ℕ → EditPlan
publish now plan_id plan c s expiration = record plan {
  plan_id = plan_id;
  session_id = c.consumer_session_id;
  expires_at = iso (min expiration (now + s.maximum_plan_lifetime_ms));
}

abbrev pub new_stored_plan : EditPlan → EditPlan → PlanCreationContext → StoredPlan
new_stored_plan public_plan plan c = record {
  public_plan = public_plan;
  adapter_plan = plan;
  consumer_session_id = c.consumer_session_id;
  adapter_session_id = c.adapter_session_id;
  workspace_epoch = c.workspace_epoch;
}

unfoldable pub store_plan : EditPlan → EditPlan → PlanCreationContext → EditStore → EditStore
store_plan public_plan plan c s = record s {
  plans = set public_plan.plan_id (new_stored_plan public_plan plan c) s.plans;
  internal_plans = add (internal_key c.adapter_session_id plan.plan_id) s.internal_plans;
}

-- What `createPlan` makes of a swept store, before it writes.
unfoldable pub admit_plan :
    UrlPlatform → (ℕ → String) → ℕ → EditPlan → PlanCreationContext → EditStore → Result EditPlan
admit_plan platform draw now plan c s = do
  expiration ← check_plan platform now plan c s
  plan_id ← unique_id "plan_" draw s.plans
  ok (publish now plan_id plan c s expiration)

-- `createPlan`, whose sweep reads the clock before its checks do.
unfoldable pub create_plan :
    UrlPlatform
    → (ℕ → String)
    → ℕ
    → ℕ
    → EditPlan
    → PlanCreationContext
    → EditStore
    → Result EditPlan × EditStore
create_plan platform draw swept_at now plan c s₀ =
    let s = sweep swept_at s₀ in
    elim (admit_plan platform draw now plan c s) [
      | err e ↦ (err e, s)
      | ok public_plan ↦ (ok public_plan, store_plan public_plan plan c s)
    ]

-- The plan that an ID names, if it is this consumer's and this workspace's.
unfoldable pub find_plan : String → String → String → EditStore → Option StoredPlan
find_plan plan_id consumer_session_id workspace_id s = elim (get plan_id s.plans) [
  | none ↦ none
  | some p ↦
      if p.consumer_session_id == consumer_session_id && p.public_plan.workspace_id == workspace_id
      then some p
      else none
]

missing_error : Option StalePlanReason → StoreError
missing_error none = plan_not_found
missing_error (some reason) = stale_document reason

unfoldable pub consume_plan :
    ℕ → String → String → String → ℕ → EditStore → Result StoredPlan × EditStore
unfolding missing_error
consume_plan now plan_id consumer_session_id workspace_id workspace_epoch s =
    elim (find_plan plan_id consumer_session_id workspace_id s) [
      | none ↦ let (reason, s') = take_reason plan_id s in (err (missing_error reason), s')
      | some p ↦
          if passed p.public_plan.expires_at now || not (eqb p.workspace_epoch workspace_epoch)
          then (err plan_expired, delete_plan p true s)
          else (ok p, delete_plan p false s)
    ]

unfoldable pub discard_plan :
    ℕ → String → String → String → EditStore → Result StoredPlan × EditStore
discard_plan now plan_id consumer_session_id workspace_id s =
    elim (find_plan plan_id consumer_session_id workspace_id s) [
      | none ↦ (err plan_not_found, s)
      | some p ↦
          if passed p.public_plan.expires_at now
          then (err plan_expired, delete_plan p true s)
          else (ok p, delete_plan p false s)
    ]
