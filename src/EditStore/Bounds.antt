-- ===== src/EditStore/Bounds.antt =====
-- The limits of packages/bridge-daemon/src/plan/in-memory-edit-store.ts hold after any calls.
use junon.Shared.{ℕ, ◌≤◌, String, ◌≡◌, false, some, List, [], ◌∷◌, arith, length, keep, inl, inr}
use junon.Shared.Maps.{has, count, values, length-set, count-set_new}
use junon.Shared.Maps.Distinct.{Distinct, set-Distinct}
use junon.Uri.{UrlPlatform}
use junon.EditStore.Data.{
  EditPlan, UndoToken, PlanCreationContext, UndoCreationContext, EditStore, Options, new_store, ok,
  Result-cases,
}
use junon.EditStore.Removal.{sweep, invalidate_workspace, invalidate_session}
use junon.EditStore.Plans.{
  plan_owned_by, token_owned_by, total, owned, assert_capacity, admit_plan, new_stored_plan,
  store_plan, create_plan,
}
use junon.EditStore.Undo.{admit_token, new_stored_token, store_token, create_undo_token}
use junon.EditStore.Admission.{admit_plan-Admitted, admit_token-Admitted}
use junon.EditStore.Shrinks.{
  Shrinks, sweep-Shrinks, release_plan-Shrinks, release_undo_token-Shrinks,
  invalidate_document-Shrinks, purge-Shrinks, close-Shrinks, consume_plan-Shrinks,
  discard_plan-Shrinks, consume_undo_token-Shrinks,
}
use junon.EditStore.Step.{
  Call, creates_plan, consumes_plan, discards_plan, releases_plan, creates_undo, consumes_undo,
  releases_undo, invalidates_document, invalidates_workspace, invalidates_session, sweeps, closes,
  step, run,
}

pub record IsBounded (s : EditStore) : Type 0 where
  pub entries : total s ≤ s.maximum_entries
  pub share : (consumer : String) → owned consumer s ≤ s.maximum_entries_per_consumer
  pub remembered : length s.invalidation_reasons ≤ 256
  pub distinct_plans : Distinct s.plans
  pub distinct_tokens : Distinct s.undo_tokens

Shrinks-IsBounded : (s t : EditStore) → Shrinks s t → IsBounded s → IsBounded t
unfolding total owned
Shrinks-IsBounded s t h b = record {
  entries = omega (arith, h.entries, h.fewer_plans, h.fewer_tokens, b.entries);
  share = λ consumer. omega (
    arith,
    h.per_consumer,
    h.plans_of (plan_owned_by consumer),
    h.tokens_of (token_owned_by consumer),
    b.share consumer,
  );
  remembered = h.remembered b.remembered;
  distinct_plans = h.distinct_plans b.distinct_plans;
  distinct_tokens = h.distinct_tokens b.distinct_tokens;
}

pub new_store-IsBounded : (o : Options) (s : EditStore) → new_store o ≡ some s → IsBounded s
unfolding new_store total owned count keep values
new_store-IsBounded o s e = record {
  entries = ground arith;
  share = λ consumer. ground arith;
  remembered = ground arith;
  distinct_plans = ground arith;
  distinct_tokens = ground arith;
}

store_plan-IsBounded :
    (public_plan plan : EditPlan) (c : PlanCreationContext) (s : EditStore)
    → assert_capacity c.consumer_session_id s ≡ ok tt
    → has public_plan.plan_id s.plans ≡ false
    → IsBounded s
    → IsBounded (store_plan public_plan plan c s)
unfolding store_plan assert_capacity
store_plan-IsBounded public_plan plan c s room new b = record {
  entries =
      ground (arith, length-set public_plan.plan_id (new_stored_plan public_plan plan c) s.plans);
  share = λ consumer. ground (
    arith,
    b.share consumer,
    count-set_new (plan_owned_by consumer) public_plan.plan_id (new_stored_plan public_plan plan c)
        s.plans new,
  );
  remembered = b.remembered;
  distinct_plans = set-Distinct _ _ s.plans b.distinct_plans;
  distinct_tokens = b.distinct_tokens;
}

store_token-IsBounded :
    (public_token token : UndoToken) (c : UndoCreationContext) (s : EditStore)
    → assert_capacity c.consumer_session_id s ≡ ok tt
    → has public_token.id s.undo_tokens ≡ false
    → IsBounded s
    → IsBounded (store_token public_token token c s)
unfolding store_token assert_capacity
store_token-IsBounded public_token token c s room new b = record {
  entries =
      ground
        (arith, length-set public_token.id (new_stored_token public_token token c) s.undo_tokens);
  share = λ consumer. ground (
    arith,
    b.share consumer,
    count-set_new (token_owned_by consumer) public_token.id (new_stored_token public_token token c)
        s.undo_tokens new,
  );
  remembered = b.remembered;
  distinct_plans = b.distinct_plans;
  distinct_tokens = set-Distinct _ _ s.undo_tokens b.distinct_tokens;
}

create_plan-IsBounded :
    (platform : UrlPlatform) (draw : ℕ → String) (swept_at now : ℕ) (plan : EditPlan)
    (c : PlanCreationContext) (s : EditStore)
    → IsBounded s
    → IsBounded (create_plan platform draw swept_at now plan c s).1
unfolding create_plan
create_plan-IsBounded platform draw swept_at now plan c s b =
    let s' = sweep swept_at s in
    let b' = Shrinks-IsBounded s s' (sweep-Shrinks swept_at s) b in
    elim (Result-cases (admit_plan platform draw now plan c s')) [
      | inl (e, refused) ↦ rw (refused, create_plan) b'
      | inr (p, admitted) ↦
          let a = admit_plan-Admitted platform draw now plan c s' p admitted in
          rw (admitted, create_plan) (store_plan-IsBounded p plan c s' a.checked.room a.fresh b')
    ]

create_undo_token-IsBounded :
    (draw : ℕ → String) (swept_at now : ℕ) (token : UndoToken) (c : UndoCreationContext)
    (s : EditStore)
    → IsBounded s
    → IsBounded (create_undo_token draw swept_at now token c s).1
unfolding create_undo_token
create_undo_token-IsBounded draw swept_at now token c s b =
    let s' = sweep swept_at s in
    let b' = Shrinks-IsBounded s s' (sweep-Shrinks swept_at s) b in
    elim (Result-cases (admit_token draw now token c s')) [
      | inl (e, refused) ↦ rw (refused, create_undo_token) b'
      | inr (t, admitted) ↦
          let a = admit_token-Admitted draw now token c s' t admitted in
          rw (admitted, create_undo_token)
            (store_token-IsBounded t token c s' a.checked.room a.fresh b')
    ]

module _ (platform : UrlPlatform) where
  pub step-IsBounded : (s : EditStore) (c : Call) → IsBounded s → IsBounded (step platform s c)
  unfolding step
  step-IsBounded s (creates_plan draw t u plan c) b =
      create_plan-IsBounded platform draw t u plan c s b
  step-IsBounded s (creates_undo draw t u token c) b =
      create_undo_token-IsBounded draw t u token c s b
  step-IsBounded s (consumes_plan t i c w e) b =
      Shrinks-IsBounded s _ (consume_plan-Shrinks t i c w e s) b
  step-IsBounded s (discards_plan t i c w) b =
      Shrinks-IsBounded s _ (discard_plan-Shrinks t i c w s) b
  step-IsBounded s (releases_plan p) b = Shrinks-IsBounded s _ (release_plan-Shrinks p s) b
  step-IsBounded s (consumes_undo t k c w) b =
      Shrinks-IsBounded s _ (consume_undo_token-Shrinks t k c w s) b
  step-IsBounded s (releases_undo t) b = Shrinks-IsBounded s _ (release_undo_token-Shrinks t s) b
  step-IsBounded s (invalidates_document w u r) b =
      Shrinks-IsBounded s _ (invalidate_document-Shrinks w u r s) b
  step-IsBounded s (invalidates_workspace w) b =
      unfold invalidate_workspace in Shrinks-IsBounded s _ (purge-Shrinks _ _ s) b
  step-IsBounded s (invalidates_session i) b =
      unfold invalidate_session in Shrinks-IsBounded s _ (purge-Shrinks _ _ s) b
  step-IsBounded s (sweeps t) b = Shrinks-IsBounded s _ (sweep-Shrinks t s) b
  step-IsBounded s closes b = Shrinks-IsBounded s _ (close-Shrinks s) b

  run-IsBounded : (s : EditStore) (cs : List Call) → IsBounded s → IsBounded (run platform s cs)
  unfolding run
  run-IsBounded s [] b = b
  run-IsBounded s (c ∷ cs) b = run-IsBounded (step platform s c) cs (step-IsBounded s c b)

  -- After any calls on a new store, its plans and undo tokens together are within the limit of
  -- entries, those of each consumer within the limit of a consumer, at most 256 reasons are
  -- remembered, and the keys of both maps are distinct.
  pub run-new_store-IsBounded :
      (o : Options) (s : EditStore) (cs : List Call)
      → new_store o ≡ some s
      → IsBounded (run platform s cs)
  run-new_store-IsBounded o s cs e = run-IsBounded s cs (new_store-IsBounded o s e)
