-- ===== src/EditStore/Reservation/Reach.antt =====
-- The states that an edit store goes through while no route releases a key that a live plan has
-- (packages/bridge-daemon/src/plan/in-memory-edit-store.ts).
use junon.Shared.{
  ℕ, String, ◌≡◌, refl, Bool, true, false, none, some, List, [], ◌∷◌, arith, contains, remove,
  Option-cases, inl, inr, any, ◌==◌, contains-remove, eqb, not, ◌||◌, if◌then◌else◌,
}
use junon.Shared.Maps.{Map, get, values}
use junon.Shared.Maps.Distinct.{any-get}
use junon.Uri.{UrlPlatform}
use junon.Clock.{passed}
use junon.EditStore.Data.{
  plan_expired, StoredPlan, StoredUndoToken, EditPlan, PlanCreationContext, Options, new_store,
  EditStore, Result, ok, err, Result-cases, UndoToken, UndoCreationContext,
}
use junon.EditStore.Removal.{
  take_reason, delete_plan, invalidate_document, invalidate_workspace, invalidate_session, sweep,
  close, release_plan, purge, invalidate_plans, release_undo_token,
}
use junon.EditStore.Removal.Loops.{plan_key}
use junon.EditStore.Removal.Tokens.{Keyed, drop_tokens-SamePlans}
use junon.EditStore.Removal.Purge.{IsIndexed}
use junon.EditStore.Plans.{find_plan, consume_plan, discard_plan, admit_plan, create_plan}
use junon.EditStore.Undo.{create_undo_token, admit_token, consume_undo_token, store_token}
use junon.EditStore.Admission.{admit_plan-Admitted}
use junon.EditStore.Bounds.{IsBounded, step-IsBounded, new_store-IsBounded}
use junon.EditStore.Indexed.{step-IsIndexed, new_store-IsIndexed}
use junon.EditStore.Step.{
  Call, creates_plan, consumes_plan, discards_plan, releases_plan, creates_undo, consumes_undo,
  releases_undo, invalidates_document, invalidates_workspace, invalidates_session, sweeps, closes,
  step,
}
use junon.EditStore.Reservation.{IsReserved}
use junon.EditStore.Reservation.Keeps.{
  invalidate_plans-IsReserved, store_plan-IsReserved, take_off-IsReserved, drop-IsReserved,
}

taken : Result StoredPlan → List String → List String
taken (ok p) flight = plan_key p ∷ flight
taken (err e) flight = flight

-- The keys in flight after a call: a plan that is taken out joins them until it is released.
unfoldable pub flight_after : EditStore → Call → List String → List String
unfolding taken
flight_after s (consumes_plan t i c w e) flight = taken (consume_plan t i c w e s).0 flight
flight_after s (discards_plan t i c w) flight = taken (discard_plan t i c w s).0 flight
flight_after s (releases_plan p) flight = remove (plan_key p) flight
flight_after s closes flight = []
flight_after s _ flight = flight

-- A live plan has the key.
unfoldable pub is_live : String → Map StoredPlan → Bool
is_live key plans = any (λ (p : StoredPlan). plan_key p == key) (values plans)

-- A release is of a key that no live plan has: of a plan in flight, or of one that was released before. Left
-- out is the second release of a key under which a new plan is live meanwhile, which the router can make
-- and which frees the key of the new plan (Router/Sending).
abbrev pub Allowed : EditStore → Call → Type 0
Allowed s (releases_plan p) = is_live (plan_key p) s.plans ≡ false
Allowed s _ = Unit

pub data Reach (platform : UrlPlatform) : EditStore → List String → Type 0 where
  start : (o : Options) (s : EditStore) → new_store o ≡ some s → Reach platform s []
  next :
      {s : EditStore} {flight : List String} (c : Call)
      → Allowed s c
      → Reach platform s flight
      → Reach platform (step platform s c) (flight_after s c flight)

IsReserved-of_same :
    (s t : EditStore) (f : List String)
    → t.plans ≡ s.plans
    → t.internal_plans ≡ s.internal_plans
    → IsReserved s f
    → IsReserved t f
IsReserved-of_same s t f same kept r = record {
  live = λ k p e. rw kept (r.live k p (rw (← same) e));
  apart = λ j k p q e h. r.apart j k p q (rw (← same) e) (rw (← same) h);
  grounded = λ k p e. r.grounded k p (rw (← same) e);
  flying = λ key h. rw kept (r.flying key h);
}

new_store-IsReserved : (o : Options) (s : EditStore) → new_store o ≡ some s → IsReserved s []
unfolding new_store get contains
new_store-IsReserved o s e = record {
  live = λ k p h. ground arith;
  apart = λ j k p q h h'. ground arith;
  grounded = λ k p h. refl;
  flying = λ key h. cc h;
}

find_plan-get :
    (plan_id consumer workspace_id : String) (s : EditStore) (p : StoredPlan)
    → find_plan plan_id consumer workspace_id s ≡ some p
    → get plan_id s.plans ≡ some p
unfolding find_plan
find_plan-get plan_id consumer workspace_id s p e = ground arith

purge-IsReserved :
    (plan_test : StoredPlan → Bool) (token_test : StoredUndoToken → Bool) (s : EditStore)
    (f : List String)
    → IsIndexed s
    → IsReserved s f
    → IsReserved (purge plan_test token_test s).1 f
unfolding purge
purge-IsReserved plan_test token_test s f x r =
    let s' = (invalidate_plans plan_test none s).1 in
    let same = drop_tokens-SamePlans token_test s'.undo_tokens s' in
    IsReserved-of_same s' _ f same.plans same.internal_plans
      (invalidate_plans-IsReserved plan_test none s f x.keyed x.distinct_plans r)

create_plan-IsReserved :
    (platform : UrlPlatform) (draw : ℕ → String) (t now : ℕ) (plan : EditPlan)
    (c : PlanCreationContext) (s : EditStore) (f : List String)
    → IsIndexed s
    → IsReserved s f
    → IsReserved (create_plan platform draw t now plan c s).1 f
unfolding create_plan
create_plan-IsReserved platform draw t now plan c s f x r =
    let s' = sweep t s in
    let swept : IsReserved s' f = unfold sweep in purge-IsReserved _ _ s f x r in
    elim (Result-cases (admit_plan platform draw now plan c s')) [
      | inl (e, refused) ↦ rw (refused, create_plan) swept
      | inr (p, admitted) ↦
          let a = admit_plan-Admitted platform draw now plan c s' p admitted in
          rw (admitted, create_plan)
            (store_plan-IsReserved p plan c s' f a.fresh a.checked.unused swept)
    ]

create_undo_token-IsReserved :
    (draw : ℕ → String) (t now : ℕ) (token : UndoToken) (c : UndoCreationContext) (s : EditStore)
    (f : List String)
    → IsIndexed s
    → IsReserved s f
    → IsReserved (create_undo_token draw t now token c s).1 f
unfolding create_undo_token
create_undo_token-IsReserved draw t now token c s f x r =
    let s' = sweep t s in
    let swept : IsReserved s' f = unfold sweep in purge-IsReserved _ _ s f x r in
    elim (Result-cases (admit_token draw now token c s')) [
      | inl (e, refused) ↦ rw (refused, create_undo_token) swept
      | inr (k, admitted) ↦
          rw (admitted, create_undo_token)
            (unfold store_token in IsReserved-of_same s' _ f refl refl swept)
    ]

take_reason-SamePlans :
    (plan_id : String) (s : EditStore)
    → ((take_reason plan_id s).1.plans ≡ s.plans)
      × ((take_reason plan_id s).1.internal_plans ≡ s.internal_plans)
unfolding take_reason
take_reason-SamePlans plan_id s = (ground arith, ground arith)

-- A plan that was found leaves by one of two ways.
leave : Bool → StoredPlan → EditStore → Result StoredPlan × EditStore
leave b p s = if b then (err plan_expired, delete_plan p true s) else (ok p, delete_plan p false s)

leave-IsReserved :
    (b : Bool) (k : String) (p : StoredPlan) (s : EditStore) (f : List String)
    → Keyed s.plans
    → get k s.plans ≡ some p
    → IsReserved s f
    → IsReserved (leave b p s).1 (taken (leave b p s).0 f)
unfolding leave taken
leave-IsReserved true k p s f keyed found r = drop-IsReserved k p s f keyed found r
leave-IsReserved false k p s f keyed found r = take_off-IsReserved k p s f keyed found r

consume_plan-IsReserved :
    (now : ℕ) (plan_id consumer workspace_id : String) (epoch : ℕ) (s : EditStore) (f : List String)
    → Keyed s.plans
    → IsReserved s f
    → IsReserved
        (consume_plan now plan_id consumer workspace_id epoch s).1
        (taken (consume_plan now plan_id consumer workspace_id epoch s).0 f)
unfolding consume_plan taken leave
consume_plan-IsReserved now plan_id consumer workspace_id epoch s f keyed r =
    elim (Option-cases (find_plan plan_id consumer workspace_id s)) [
      | inl missing ↦
          rw (missing, consume_plan)
            (let (same, kept) = take_reason-SamePlans plan_id s in
              IsReserved-of_same s _ f same kept r)
      | inr (p, found) ↦
          rw (found, consume_plan)
            (leave-IsReserved
              (passed p.public_plan.expires_at now || not (eqb p.workspace_epoch epoch)) plan_id p s
              f keyed (find_plan-get plan_id consumer workspace_id s p found) r)
    ]

discard_plan-IsReserved :
    (now : ℕ) (plan_id consumer workspace_id : String) (s : EditStore) (f : List String)
    → Keyed s.plans
    → IsReserved s f
    → IsReserved
        (discard_plan now plan_id consumer workspace_id s).1
        (taken (discard_plan now plan_id consumer workspace_id s).0 f)
unfolding discard_plan taken leave
discard_plan-IsReserved now plan_id consumer workspace_id s f keyed r =
    elim (Option-cases (find_plan plan_id consumer workspace_id s)) [
      | inl missing ↦ rw (missing, discard_plan) r
      | inr (p, found) ↦
          rw (found, discard_plan)
            (leave-IsReserved (passed p.public_plan.expires_at now) plan_id p s f keyed
              (find_plan-get plan_id consumer workspace_id s p found) r)
    ]

consume_undo_token-IsReserved :
    (now : ℕ) (token : UndoToken) (consumer workspace_id : String) (s : EditStore) (f : List String)
    → IsReserved s f
    → IsReserved (consume_undo_token now token consumer workspace_id s).1 f
unfolding consume_undo_token release_undo_token
consume_undo_token-IsReserved now token consumer workspace_id s f r =
    IsReserved-of_same s _ f (ground arith) (ground arith) r

-- The release of a key that no live plan has.
idle-IsReserved :
    (p : StoredPlan) (s : EditStore) (f : List String)
    → is_live (plan_key p) s.plans ≡ false
    → IsReserved s f
    → IsReserved (release_plan p s) (remove (plan_key p) f)
unfolding release_plan is_live
idle-IsReserved p s f idle r =
    let freed = λ (key : String). contains-remove (plan_key p) key s.internal_plans in
    let landed = λ (key : String). contains-remove (plan_key p) key f in
    let is_key : StoredPlan → Bool = λ q. plan_key q == plan_key p in
    let lives = λ (j : String) (q : StoredPlan). any-get is_key j q s.plans in
    record {
      live = λ j q e. ground (arith, freed (plan_key q), r.live j q e, lives j q, e, idle);
      apart = λ i j q q' e h same. r.apart i j q q' e h same;
      grounded = λ j q e. ground (arith, landed (plan_key q), r.grounded j q e);
      flying = λ key h. ground (arith, freed key, landed key, r.flying key);
    }

close-IsReserved : (s : EditStore) → IsReserved (close s) []
unfolding close get contains
close-IsReserved s = record {
  live = λ k p h. ground (arith, h);
  apart = λ j k p q h h'. ground (arith, h);
  grounded = λ k p h. refl;
  flying = λ key h. cc h;
}

module _ (platform : UrlPlatform) where
  step-IsReserved :
      (s : EditStore) (f : List String) (c : Call)
      → Allowed s c
      → IsIndexed s
      → IsReserved s f
      → IsReserved (step platform s c) (flight_after s c f)
  unfolding step flight_after
  step-IsReserved s f (creates_plan draw t u plan c) a x r =
      create_plan-IsReserved platform draw t u plan c s f x r
  step-IsReserved s f (creates_undo draw t u token c) a x r =
      create_undo_token-IsReserved draw t u token c s f x r
  step-IsReserved s f (consumes_plan t i c w e) a x r =
      consume_plan-IsReserved t i c w e s f x.keyed r
  step-IsReserved s f (discards_plan t i c w) a x r = discard_plan-IsReserved t i c w s f x.keyed r
  step-IsReserved s f (releases_plan p) a x r = idle-IsReserved p s f a r
  step-IsReserved s f (consumes_undo t k c w) a x r = consume_undo_token-IsReserved t k c w s f r
  step-IsReserved s f (releases_undo t) a x r =
      unfold release_undo_token in IsReserved-of_same s _ f refl refl r
  step-IsReserved s f (invalidates_document w u v) a x r =
      unfold invalidate_document in invalidate_plans-IsReserved _ _ s f x.keyed x.distinct_plans r
  step-IsReserved s f (invalidates_workspace w) a x r =
      unfold invalidate_workspace in purge-IsReserved _ _ s f x r
  step-IsReserved s f (invalidates_session i) a x r =
      unfold invalidate_session in purge-IsReserved _ _ s f x r
  step-IsReserved s f (sweeps t) a x r = unfold sweep in purge-IsReserved _ _ s f x r
  step-IsReserved s f closes a x r = close-IsReserved s

  Reach-IsBounded : {s : EditStore} {f : List String} → Reach platform s f → IsBounded s
  Reach-IsBounded (start o s e) = new_store-IsBounded o s e
  Reach-IsBounded (next {s = s} c a r) = step-IsBounded platform s c (Reach-IsBounded r)

  pub Reach-IsIndexed : {s : EditStore} {f : List String} → Reach platform s f → IsIndexed s
  Reach-IsIndexed (start o s e) = new_store-IsIndexed o s e
  Reach-IsIndexed (next {s = s} c a r) =
      step-IsIndexed platform s c (Reach-IsBounded r) (Reach-IsIndexed r)

  -- However the calls come, a close among them, while no key is released that a live plan has: the adapter's
  -- key of each live plan is reserved, no other live plan and no plan in flight has it, and the key of
  -- each plan in flight is reserved. A key is in flight from the call that takes its plan out until
  -- a release of this key or a close.
  pub Reach-IsReserved : {s : EditStore} {f : List String} → Reach platform s f → IsReserved s f
  Reach-IsReserved (start o s e) = new_store-IsReserved o s e
  Reach-IsReserved (next {s = s} {flight = f} c a r) =
      step-IsReserved s f c a (Reach-IsIndexed r) (Reach-IsReserved r)
