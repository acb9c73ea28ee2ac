-- ===== src/Router/Edits/Spared.antt =====
-- What a refused edit leaves in the store (packages/bridge-daemon/src/routing/application-router.ts).
use junon.Shared.{
  ℕ, String, ◌≡◌, refl, false, none, some, arith, contains, contains-remove, inl, inr, ◌⊎◌,
}
use junon.Shared.Results.{ok, err, Result-cases}
use junon.Shared.Maps.{get, delete, get-delete}
use junon.EditStore.Data.{StoredPlan, StoreError, EditStore}
use junon.EditStore.Removal.{
  internal_key, delete_plan, release_plan, release_undo_token, take_reason,
}
use junon.EditStore.Removal.Purge.{IsIndexed}
use junon.EditStore.Plans.{consume_plan, find_plan}
use junon.Router.Data.{EditOperation, no_edit, prepare, apply, discard, undo, Router, Refusal}
use junon.Router.Sending.{send_failed}
use junon.Router.Table.{release_operation, remove_route}
use junon.Router.Requests.{admit_request, add_route, route_request}
use junon.Router.Edits.{
  Call, release, route_operation, assert_trusted, hand_over, apply_plan, asked_for,
}

abbrev pub reservation : StoredPlan → String
reservation p = internal_key p.adapter_session_id p.adapter_plan.plan_id

-- The plan has left neither the store nor, where it did, its reservation behind.
abbrev pub Spares : String → StoredPlan → EditStore → Type 0
Spares plan_id p t =
    (get plan_id t.plans ≡ some p)
    ⊎ (get plan_id t.plans ≡ none) × (contains (reservation p) t.internal_plans ≡ false)

contains-release :
    (p : StoredPlan) (s : EditStore)
    → contains (reservation p) (release_plan p s).internal_plans ≡ false
unfolding release_plan
contains-release p s =
    ground (arith, contains-remove (reservation p) (reservation p) s.internal_plans)

release_operation-plans :
    (o : EditOperation) (s : EditStore) → (release_operation o s).plans ≡ s.plans
unfolding release_operation release_plan release_undo_token
release_operation-plans no_edit s = refl
release_operation-plans prepare s = refl
release_operation-plans (apply p) s = refl
release_operation-plans (discard p) s = refl
release_operation-plans (undo t) s = refl

route_operation-plans :
    (q : Call) (o : EditOperation) (s : Router)
    → (route_operation q o s).1.edit_store.plans ≡ s.edit_store.plans
unfolding route_operation route_request add_route remove_route send_failed
route_operation-plans q o s =
    elim (Result-cases (admit_request q.draw q.forwards (asked_for q o) s)) [
      | inl (e, stop) ↦ ground (arith, stop)
      | inr (r, admitted) ↦
          ground (arith, admitted, release_operation-plans r.edit_operation s.edit_store)
    ]

hand_over-plans :
    (q : Call) (adapter_session_id : String) (o : EditOperation) (s : Router)
    → (hand_over q adapter_session_id o s).1.edit_store.plans ≡ s.edit_store.plans
unfolding hand_over release
hand_over-plans q adapter_session_id o s =
    let released = release_operation-plans o s.edit_store in
    let routed = route_operation-plans q o s in
    let after = release_operation-plans o (route_operation q o s).1.edit_store in
    ground (arith, released, routed, after)

hand_over-released :
    (q : Call) (adapter_session_id : String) (p : StoredPlan) (s : Router) (e : Refusal)
    → (hand_over q adapter_session_id (apply p) s).0 ≡ err e
    → contains
        (reservation p)
        (hand_over q adapter_session_id (apply p) s).1.edit_store.internal_plans
      ≡ false
unfolding hand_over release release_operation
hand_over-released q adapter_session_id p s e h = ground (
  arith,
  contains-release p s.edit_store,
  contains-release p (route_operation q (apply p) s).1.edit_store,
)

consume_plan-Spares :
    (now : ℕ) (plan_id by workspace_id : String) (epoch : ℕ) (s : EditStore) (p : StoredPlan)
    (e : StoreError)
    → IsIndexed s
    → get plan_id s.plans ≡ some p
    → (consume_plan now plan_id by workspace_id epoch s).0 ≡ err e
    → Spares plan_id p (consume_plan now plan_id by workspace_id epoch s).1
unfolding consume_plan find_plan delete_plan take_reason
consume_plan-Spares now plan_id by workspace_id epoch s p e x there h =
    let id = x.keyed plan_id p there in
    let gone = get-delete p.public_plan.plan_id plan_id s.plans in
    let free = contains-release p (record s { plans = delete p.public_plan.plan_id s.plans }) in
    ground (arith, id, gone, free)

consume_plan-takes :
    (now : ℕ) (plan_id by workspace_id : String) (epoch : ℕ) (s : EditStore) (p q : StoredPlan)
    → IsIndexed s
    → get plan_id s.plans ≡ some p
    → (consume_plan now plan_id by workspace_id epoch s).0 ≡ ok q
    → (q ≡ p) × (get plan_id (consume_plan now plan_id by workspace_id epoch s).1.plans ≡ none)
unfolding consume_plan find_plan delete_plan
consume_plan-takes now plan_id by workspace_id epoch s p q x there h =
    let id = x.keyed plan_id p there in
    let gone = get-delete p.public_plan.plan_id plan_id s.plans in ground (arith, id, gone)

hand_over-Spares :
    (q : Call) (plan_id : String) (p : StoredPlan) (s : Router) (e : Refusal)
    → get plan_id s.edit_store.plans ≡ none
    → (hand_over q p.adapter_session_id (apply p) s).0 ≡ err e
    → Spares plan_id p (hand_over q p.adapter_session_id (apply p) s).1.edit_store
hand_over-Spares q plan_id p s e gone refused =
    let plans = hand_over-plans q p.adapter_session_id (apply p) s in
    inr (ground (arith, plans, gone), hand_over-released q p.adapter_session_id p s e refused)

-- Whatever refuses the application of a plan of an indexed store, the plan is afterwards still in the store,
-- or it is gone and its adapter's ID is free again: no refusal leaves an ID reserved for a plan that no
-- consumer can name.
pub apply_plan-Spares :
    (q : Call) (plan_id : String) (p : StoredPlan) (s : Router) (e : Refusal)
    → IsIndexed s.edit_store
    → get plan_id s.edit_store.plans ≡ some p
    → (apply_plan q plan_id s).0 ≡ err e
    → Spares plan_id p (apply_plan q plan_id s).1.edit_store
unfolding apply_plan
apply_plan-Spares q plan_id p s e x there refused =
    elim (Result-cases (assert_trusted q.workspace_id s.registry)) [
      | inl (y, stop) ↦ rw (apply_plan, stop) (inl there)
      | inr (w, trusted) ↦
          let by = q.asked.consumer_session_id in
          let out = consume_plan q.now plan_id by q.workspace_id w.workspace_epoch s.edit_store in
          elim (Result-cases out.0) [
            | inl (y, stop) ↦
                rw (apply_plan, trusted, stop)
                  (consume_plan-Spares q.now plan_id by q.workspace_id w.workspace_epoch
                    s.edit_store p y x there stop)
            | inr (p', taken) ↦
                let (same, gone) =
                  consume_plan-takes q.now plan_id by q.workspace_id w.workspace_epoch s.edit_store
                    p p' x there taken in
                let s' : Router = record s { edit_store = out.1 } in
                let took : out.0 ≡ ok p = ground (arith, taken, same) in
                let failed : (hand_over q p.adapter_session_id (apply p) s').0 ≡ err e =
                  ground (arith, trusted, took, refused) in
                rw (apply_plan, trusted, took) (hand_over-Spares q plan_id p s' e gone failed)
          ]
    ]
