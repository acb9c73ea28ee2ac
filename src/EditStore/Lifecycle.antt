-- ===== src/EditStore/Lifecycle.antt =====
-- The life of a plan in packages/bridge-daemon/src/plan/in-memory-edit-store.ts: prepared, then taken
-- out once by its consumer, or refused.
pub mod Stale
pub mod Undo
use junon.Shared.{
  ℕ, ◌+◌, ◌≤◌, ◌<◌, String, ◌≡◌, ◌≢◌, refl, ap, ◌∙◌, Bool, true, false, ◌&&◌, ◌||◌, not, Option,
  none, some, List, [], ◌∷◌, arith, ◌==◌, eqb, leb, min, if◌then◌else◌, contains, Option-cases, inl,
  inr, text_discrete,
}
use junon.Shared.Maps.{get, set, delete, has, get-set, get-delete}
use junon.Clock.{iso, parse, passed, passed-iso}
use junon.Uri.{UrlPlatform}
use junon.EditStore.Data.{
  EditPlan, StoredPlan, PlanCreationContext, EditStore, StoreError, plan_expired, plan_not_found,
  stale_document, Result, ok, err, Result-cases,
}
use junon.EditStore.Removal.{internal_key, delete_plan, take_reason, sweep}
use junon.EditStore.Removal.Loops.{plan_key}
use junon.EditStore.Removal.Purge.{IsIndexed}
use junon.EditStore.Plans.{
  check_plan, publish, new_stored_plan, store_plan, admit_plan, create_plan, find_plan,
  consume_plan, discard_plan,
}
use junon.EditStore.Shrinks.{sweep-Shrinks}
use junon.EditStore.Admission.{Admitted, admit_plan-Admitted}

-- Who may take a plan out, and what the store is afterwards.
pub record TakenOut (now : ℕ) (plan_id consumer workspace_id : String) (epoch : ℕ) (s t : EditStore)
    (p : StoredPlan) : Type 0 where
  pub stored : get plan_id s.plans ≡ some p
  pub same_consumer : p.consumer_session_id ≡ consumer
  pub same_workspace : p.public_plan.workspace_id ≡ workspace_id
  pub same_epoch : p.workspace_epoch ≡ epoch
  pub in_time : passed p.public_plan.expires_at now ≡ false
  pub plans : (k : String) → get k t.plans ≡ (if plan_id == k then none else get k s.plans)
  pub reserved : t.internal_plans ≡ s.internal_plans

-- In an indexed store, a plan is handed out only to the consumer that prepared it, for its
-- workspace at its epoch and before it expires; it leaves the store, no other plan does, and its
-- adapter's ID stays reserved.
pub consume_plan-TakenOut :
    (now : ℕ) (plan_id consumer workspace_id : String) (epoch : ℕ) (s : EditStore) (p : StoredPlan)
    → IsIndexed s
    → (consume_plan now plan_id consumer workspace_id epoch s).0 ≡ ok p
    → TakenOut now plan_id consumer workspace_id epoch s
        (consume_plan now plan_id consumer workspace_id epoch s).1
        p
unfolding consume_plan find_plan delete_plan
consume_plan-TakenOut now plan_id consumer workspace_id epoch s p x e =
    let id = x.keyed plan_id p in
    let at = λ (k : String). get-delete p.public_plan.plan_id k s.plans in
    record {
      stored = ground arith;
      same_consumer = ground arith;
      same_workspace = ground arith;
      same_epoch = ground arith;
      in_time = ground arith;
      plans = λ k. ground (arith, id, at k);
      reserved = ground arith;
    }

consume_plan_missing :
    (now : ℕ) (plan_id consumer workspace_id : String) (epoch : ℕ) (t : EditStore) (q : StoredPlan)
    → get plan_id t.plans ≡ none
    → (consume_plan now plan_id consumer workspace_id epoch t).0 ≢ ok q
unfolding consume_plan find_plan
consume_plan_missing now plan_id consumer workspace_id epoch t q gone e = ground arith

-- In an indexed store, a plan that was taken out is not handed out by the next consumption of its
-- ID, whoever asks and when.
pub consume_plan_twice :
    (now : ℕ) (plan_id consumer workspace_id : String) (epoch : ℕ) (s : EditStore) (p : StoredPlan)
    (later : ℕ) (consumer' workspace_id' : String) (epoch' : ℕ) (q : StoredPlan)
    → IsIndexed s
    → (consume_plan now plan_id consumer workspace_id epoch s).0 ≡ ok p
    → (consume_plan later plan_id consumer' workspace_id' epoch'
        (consume_plan now plan_id consumer workspace_id epoch s).1).0
      ≢ ok q
consume_plan_twice now plan_id consumer workspace_id epoch s p later consumer' workspace_id' epoch'
      q x e again =
    let t = (consume_plan now plan_id consumer workspace_id epoch s).1 in
    let out = consume_plan-TakenOut now plan_id consumer workspace_id epoch s p x e in
    consume_plan_missing later plan_id consumer' workspace_id' epoch' t q
      (ground (arith, out.plans plan_id)) again

publish-parts :
    (platform : UrlPlatform) (now : ℕ) (plan : EditPlan) (c : PlanCreationContext) (s : EditStore)
    (out : EditPlan)
    → Admitted platform now plan c s out
    → (out.session_id ≡ c.consumer_session_id)
      × (out.workspace_id ≡ c.workspace_id)
      × (passed out.expires_at (now + s.maximum_plan_lifetime_ms) ≡ true)
      × (out.changes ≡ plan.changes)
unfolding publish passed parse
publish-parts platform now plan c s out a =
    let session = ap (λ (q : EditPlan). q.session_id) a.published in
    let workspace = ap (λ (q : EditPlan). q.workspace_id) a.published in
    let changes = ap (λ (q : EditPlan). q.changes) a.published in
    let expiry = ap (λ (q : EditPlan). q.expires_at) a.published in
    (session, workspace ∙ a.checked.workspace, rw expiry (ground arith), changes)

store-consume :
    (later : ℕ) (plan out : EditPlan) (c : PlanCreationContext) (s : EditStore)
    → out.workspace_id ≡ c.workspace_id
    → passed out.expires_at later ≡ false
    → (consume_plan later out.plan_id c.consumer_session_id c.workspace_id c.workspace_epoch
        (store_plan out plan c s)).0
      ≡ ok (new_stored_plan out plan c)
unfolding consume_plan find_plan store_plan
store-consume later plan out c s same fresh =
    ground (arith, get-set out.plan_id out.plan_id (new_stored_plan out plan c) s.plans)

-- A plan that was just prepared is the consumer's to take out, whole, until its time: what it takes
-- out is the adapter's plan as it came. The consumer sees its own session, the workspace that it
-- asked for, the adapter's changes, and an expiry within the store's limit.
pub create-consume :
    (platform : UrlPlatform) (draw : ℕ → String) (swept_at now later : ℕ) (plan : EditPlan)
    (c : PlanCreationContext) (s : EditStore) (out : EditPlan)
    → (create_plan platform draw swept_at now plan c s).0 ≡ ok out
    → passed out.expires_at later ≡ false
    → ((consume_plan later out.plan_id c.consumer_session_id c.workspace_id c.workspace_epoch
          (create_plan platform draw swept_at now plan c s).1).0
        ≡ ok (new_stored_plan out plan c))
      × (out.session_id ≡ c.consumer_session_id)
      × (out.workspace_id ≡ c.workspace_id)
      × (passed out.expires_at (now + s.maximum_plan_lifetime_ms) ≡ true)
      × (out.changes ≡ plan.changes)
unfolding create_plan
create-consume platform draw swept_at now later plan c s out e fresh =
    let s' = sweep swept_at s in
    elim (Result-cases (admit_plan platform draw now plan c s')) [
      | inl (x, refused) ↦ absurd (ground (arith, refused))
      | inr (p, admitted) ↦
          let same : p ≡ out = ground (arith, admitted) in
          let admitted' : admit_plan platform draw now plan c s' ≡ ok out = admitted ∙ ap ok same in
          let a = admit_plan-Admitted platform draw now plan c s' out admitted' in
          let (session, workspace, expiry, changes) = publish-parts platform now plan c s' out a in
          (
            rw (admitted', create_plan) (store-consume later plan out c s' workspace fresh),
            session,
            workspace,
            rw (← (sweep-Shrinks swept_at s).lifetime) expiry,
            changes,
          )
    ]

-- A plan that `createPlan` accepts has passed its checks on the swept store: the adapter, session and
-- workspace are the route's, it has time left, its preconditions and its changes name each document
-- once, at the workspace's epoch, with a precondition for each change, inside the workspace's roots,
-- and its ID repeats no reserved one.
pub create_plan-Admitted :
    (platform : UrlPlatform) (draw : ℕ → String) (swept_at now : ℕ) (plan : EditPlan)
    (c : PlanCreationContext) (s : EditStore) (out : EditPlan)
    → (create_plan platform draw swept_at now plan c s).0 ≡ ok out
    → Admitted platform now plan c (sweep swept_at s) out
unfolding create_plan
create_plan-Admitted platform draw swept_at now plan c s out e =
    admit_plan-Admitted platform draw now plan c (sweep swept_at s) out (ground arith)

-- A plan that `createPlan` refuses leaves the store as the sweep left it.
pub create_plan_refused :
    (platform : UrlPlatform) (draw : ℕ → String) (swept_at now : ℕ) (plan : EditPlan)
    (c : PlanCreationContext) (s : EditStore) (e : StoreError)
    → (create_plan platform draw swept_at now plan c s).0 ≡ err e
    → (create_plan platform draw swept_at now plan c s).1 ≡ sweep swept_at s
unfolding create_plan
create_plan_refused platform draw swept_at now plan c s e refused = ground arith
