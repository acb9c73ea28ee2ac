-- ===== src/EditStore/Indexed.antt =====
-- Every plan of packages/bridge-daemon/src/plan/in-memory-edit-store.ts is stored under its own ID,
-- after any calls.
use junon.Shared.{
  ℕ, String, ◌≡◌, Bool, true, false, Option, none, some, arith, Option-cases, inl, inr,
}
use junon.Shared.Maps.{get, get-set, get-delete}
use junon.Uri.{UrlPlatform}
use junon.EditStore.Data.{
  EditPlan, StoredPlan, StalePlanReason, UndoToken, StoredUndoToken, PlanCreationContext,
  UndoCreationContext, EditStore, Result-cases, Options, new_store,
}
use junon.EditStore.Removal.{
  delete_plan, release_plan, release_undo_token, invalidate_plans, take_reason, purge,
  invalidate_document, invalidate_workspace, invalidate_session, sweep, close,
}
use junon.EditStore.Removal.Tokens.{Keyed, get-invalidate_plans, drop_tokens-SamePlans}
use junon.EditStore.Removal.Purge.{IsIndexed}
use junon.EditStore.Plans.{
  new_stored_plan, store_plan, admit_plan, create_plan, find_plan, consume_plan, discard_plan,
}
use junon.EditStore.Undo.{store_token, admit_token, create_undo_token, consume_undo_token}
use junon.EditStore.Bounds.{IsBounded, step-IsBounded, new_store-IsBounded}
use junon.EditStore.Step.{
  Call, creates_plan, consumes_plan, discards_plan, releases_plan, creates_undo, consumes_undo,
  releases_undo, invalidates_document, invalidates_workspace, invalidates_session, sweeps, closes,
  step,
}

invalidate_plans-Keyed :
    (test : StoredPlan → Bool) (reason : Option StalePlanReason) (s : EditStore)
    → IsIndexed s
    → Keyed (invalidate_plans test reason s).1.plans
invalidate_plans-Keyed test reason s x k p e =
    ground (arith, get-invalidate_plans test reason s k x.keyed x.distinct_plans, x.keyed k p)

purge-Keyed :
    (plan_test : StoredPlan → Bool) (token_test : StoredUndoToken → Bool) (s : EditStore)
    → IsIndexed s
    → Keyed (purge plan_test token_test s).1.plans
unfolding purge
purge-Keyed plan_test token_test s x =
    let s' = (invalidate_plans plan_test none s).1 in
    rw (drop_tokens-SamePlans token_test s'.undo_tokens s').plans
      (invalidate_plans-Keyed plan_test none s x)

delete_plan-Keyed :
    (p : StoredPlan) (b : Bool) (s : EditStore) → Keyed s.plans → Keyed (delete_plan p b s).plans
unfolding delete_plan
delete_plan-Keyed p b s keyed k q e =
    ground (arith, get-delete p.public_plan.plan_id k s.plans, keyed k q)

store_plan-Keyed :
    (public_plan plan : EditPlan) (c : PlanCreationContext) (s : EditStore)
    → Keyed s.plans
    → Keyed (store_plan public_plan plan c s).plans
unfolding store_plan
store_plan-Keyed public_plan plan c s keyed k q e =
    ground
      (arith, get-set public_plan.plan_id k (new_stored_plan public_plan plan c) s.plans, keyed k q)

create_plan-Keyed :
    (platform : UrlPlatform) (draw : ℕ → String) (swept_at now : ℕ) (plan : EditPlan)
    (c : PlanCreationContext) (s : EditStore)
    → IsIndexed s
    → Keyed (create_plan platform draw swept_at now plan c s).1.plans
unfolding create_plan
create_plan-Keyed platform draw swept_at now plan c s x =
    let s' = sweep swept_at s in
    let swept : Keyed s'.plans = unfold sweep in purge-Keyed _ _ s x in
    elim (Result-cases (admit_plan platform draw now plan c s')) [
      | inl (e, refused) ↦ rw (refused, create_plan) swept
      | inr (p, admitted) ↦ rw (admitted, create_plan) (store_plan-Keyed p plan c s' swept)
    ]

create_undo_token-Keyed :
    (draw : ℕ → String) (swept_at now : ℕ) (token : UndoToken) (c : UndoCreationContext)
    (s : EditStore)
    → IsIndexed s
    → Keyed (create_undo_token draw swept_at now token c s).1.plans
unfolding create_undo_token
create_undo_token-Keyed draw swept_at now token c s x =
    let s' = sweep swept_at s in
    let swept : Keyed s'.plans = unfold sweep in purge-Keyed _ _ s x in
    elim (Result-cases (admit_token draw now token c s')) [
      | inl (e, refused) ↦ rw (refused, create_undo_token) swept
      | inr (t, admitted) ↦ rw (admitted, create_undo_token) (unfold store_token in swept)
    ]

consume_plan-Keyed :
    (now : ℕ) (plan_id consumer workspace_id : String) (epoch : ℕ) (s : EditStore)
    → Keyed s.plans
    → Keyed (consume_plan now plan_id consumer workspace_id epoch s).1.plans
unfolding consume_plan take_reason
consume_plan-Keyed now plan_id consumer workspace_id epoch s keyed k q e =
    elim (Option-cases (find_plan plan_id consumer workspace_id s)) [
      | inl missing ↦ ground (arith, missing, keyed k q)
      | inr (p, found) ↦ ground (
        arith,
        found,
        delete_plan-Keyed p true s keyed k q,
        delete_plan-Keyed p false s keyed k q,
      )
    ]

discard_plan-Keyed :
    (now : ℕ) (plan_id consumer workspace_id : String) (s : EditStore)
    → Keyed s.plans
    → Keyed (discard_plan now plan_id consumer workspace_id s).1.plans
unfolding discard_plan
discard_plan-Keyed now plan_id consumer workspace_id s keyed k q e =
    elim (Option-cases (find_plan plan_id consumer workspace_id s)) [
      | inl missing ↦ ground (arith, missing, keyed k q)
      | inr (p, found) ↦ ground (
        arith,
        found,
        delete_plan-Keyed p true s keyed k q,
        delete_plan-Keyed p false s keyed k q,
      )
    ]

consume_undo_token-Keyed :
    (now : ℕ) (token : UndoToken) (consumer workspace_id : String) (s : EditStore)
    → Keyed s.plans
    → Keyed (consume_undo_token now token consumer workspace_id s).1.plans
unfolding consume_undo_token release_undo_token
consume_undo_token-Keyed now token consumer workspace_id s keyed k q e = ground (arith, keyed k q)

module _ (platform : UrlPlatform) where
  step-Keyed : (s : EditStore) (c : Call) → IsIndexed s → Keyed (step platform s c).plans
  unfolding step
  step-Keyed s (creates_plan draw t u plan c) x = create_plan-Keyed platform draw t u plan c s x
  step-Keyed s (creates_undo draw t u token c) x = create_undo_token-Keyed draw t u token c s x
  step-Keyed s (consumes_plan t i c w e) x = consume_plan-Keyed t i c w e s x.keyed
  step-Keyed s (discards_plan t i c w) x = discard_plan-Keyed t i c w s x.keyed
  step-Keyed s (releases_plan p) x = unfold release_plan in x.keyed
  step-Keyed s (consumes_undo t k c w) x = consume_undo_token-Keyed t k c w s x.keyed
  step-Keyed s (releases_undo t) x = unfold release_undo_token in x.keyed
  step-Keyed s (invalidates_document w u r) x =
      unfold invalidate_document in invalidate_plans-Keyed _ _ s x
  step-Keyed s (invalidates_workspace w) x = unfold invalidate_workspace in purge-Keyed _ _ s x
  step-Keyed s (invalidates_session i) x = unfold invalidate_session in purge-Keyed _ _ s x
  step-Keyed s (sweeps t) x = unfold sweep in purge-Keyed _ _ s x
  step-Keyed s closes x = λ k p e. (unfold close get in cc e)

  -- A store within its limits that is indexed stays so.
  pub step-IsIndexed :
      (s : EditStore) (c : Call) → IsBounded s → IsIndexed s → IsIndexed (step platform s c)
  step-IsIndexed s c b x =
      let b' = step-IsBounded platform s c b in
      record {
        keyed = step-Keyed s c x;
        distinct_plans = b'.distinct_plans;
        distinct_tokens = b'.distinct_tokens;
      }

pub new_store-IsIndexed : (o : Options) (s : EditStore) → new_store o ≡ some s → IsIndexed s
unfolding new_store get
new_store-IsIndexed o s e =
    let b = new_store-IsBounded o s e in
    record {
      keyed = λ k p h. ground arith;
      distinct_plans = b.distinct_plans;
      distinct_tokens = b.distinct_tokens;
    }
