-- ===== src/EditStore/Lifecycle/Stale.antt =====
-- A plan whose document changed is refused with the document's revision, once
-- (packages/bridge-daemon/src/plan/in-memory-edit-store.ts).
use junon.Shared.{
  ℕ, suc, ◌+◌, ◌≤◌, String, ◌≡◌, refl, Bool, true, ◌&&◌, none, some, List, [], ◌∷◌, arith, ◌==◌,
  if◌then◌else◌, length, any,
}
use junon.Shared.Maps.{Map, get, set, values, get-set, get-delete, length-set}
use junon.Shared.Maps.Distinct.{any-get}
use junon.EditStore.Data.{
  Revision, StoredPlan, StalePlanReason, EditStore, plan_not_found, stale_document, err,
}
use junon.EditStore.Removal.{
  remember_reason, invalidate_one, invalidate_each, invalidate_plans, depends_on,
  invalidate_document, take_reason, remember_if, delete_plan,
}
use junon.EditStore.Removal.Loops.{forget_oldest-short}
use junon.EditStore.Removal.Tokens.{get-invalidate_plans}
use junon.EditStore.Removal.Purge.{IsIndexed}
use junon.EditStore.Plans.{find_plan, consume_plan}

length-values {ℓ} : {V : Type ℓ} (m : Map V) → length (values m) ≡ length m
unfolding values
length-values [] = refl
length-values ((k, v) ∷ m) = omega (arith, length-values m)

module _ (test : StoredPlan → Bool) (r : StalePlanReason) where
  -- While there is room, one round remembers the reason for the plan that it drops.
  remember_one :
      (k : String) (p : StoredPlan) (acc : ℕ × EditStore)
      → suc (length acc.1.invalidation_reasons) ≤ 256
      → (get k (invalidate_one test (some r) p acc).1.invalidation_reasons ≡ (
          if test p && p.public_plan.plan_id == k
          then some r
          else get k acc.1.invalidation_reasons))
        × (length (invalidate_one test (some r) p acc).1.invalidation_reasons
            ≤ suc (length acc.1.invalidation_reasons))
  unfolding invalidate_one remember_if remember_reason delete_plan
  remember_one k p (n, s) room =
      let id = p.public_plan.plan_id in
      let grown = length-set id r s.invalidation_reasons in
      let whole = forget_oldest-short (set id r s.invalidation_reasons) in
      let at = get-set id k r s.invalidation_reasons in
      (ground (arith, grown, whole, at), ground (arith, grown, whole))

  get-remember_each :
      (k : String) (ps : List StoredPlan) (acc : ℕ × EditStore)
      → length acc.1.invalidation_reasons + length ps ≤ 256
      → get k (invalidate_each test (some r) ps acc).1.invalidation_reasons ≡ (
          if any (λ p. test p && p.public_plan.plan_id == k) ps
          then some r
          else get k acc.1.invalidation_reasons)
  unfolding invalidate_each any
  get-remember_each k [] acc room = refl
  get-remember_each k (p ∷ ps) acc room =
      let (one, grown) = remember_one k p acc (omega arith) in
      ground (
        arith,
        one,
        get-remember_each k ps (invalidate_one test (some r) p acc) (omega (arith, grown)),
      )

  remembered :
      (k : String) (p : StoredPlan) (s : EditStore)
      → length s.invalidation_reasons + length s.plans ≤ 256
      → get k s.plans ≡ some p
      → p.public_plan.plan_id ≡ k
      → test p ≡ true
      → get k (invalidate_plans test (some r) s).1.invalidation_reasons ≡ some r
  unfolding invalidate_plans
  remembered k p s room found id met = ground (
    arith,
    get-remember_each k (values s.plans) (0, s) (omega (arith, length-values s.plans)),
    any-get (λ q. test q && q.public_plan.plan_id == k) k p s.plans found,
  )

-- Nothing is stored under the ID, and a reason is remembered for it.
stale_then_missing :
    (k : String) (r : StalePlanReason) (t : EditStore) (now later : ℕ)
    (consumer workspace consumer' workspace' : String) (epoch epoch' : ℕ)
    → get k t.plans ≡ none
    → get k t.invalidation_reasons ≡ some r
    → ((consume_plan now k consumer workspace epoch t).0 ≡ err (stale_document r))
      × ((consume_plan later k consumer' workspace' epoch'
            (consume_plan now k consumer workspace epoch t).1).0
          ≡ err plan_not_found)
unfolding consume_plan find_plan take_reason
stale_then_missing k r t now later consumer workspace consumer' workspace' epoch epoch' gone known =
    (ground arith, ground (arith, get-delete k k t.invalidation_reasons))

-- In an indexed store, of a live plan with a precondition on the document that changed: whoever
-- first asks for it is told STALE_DOCUMENT, with the workspace, the document and the revision of
-- the change, and whoever asks next, the plan's own consumer too, is told PLAN_NOT_FOUND. So it is
-- while the reasons and the plans together are at most 256.
pub consume-invalidate_document :
    (s : EditStore) (k : String) (p : StoredPlan) (workspace_id uri : String) (revision : Revision)
    (now later : ℕ) (consumer workspace consumer' workspace' : String) (epoch epoch' : ℕ)
    → IsIndexed s
    → length s.invalidation_reasons + length s.plans ≤ 256
    → get k s.plans ≡ some p
    → depends_on workspace_id uri p ≡ true
    → let t = (invalidate_document workspace_id uri (some revision) s).1 in
      ((consume_plan now k consumer workspace epoch t).0
        ≡ err (
            stale_document
              (record { workspace_id = workspace_id; uri = uri; current_revision = revision })))
      × ((consume_plan later k consumer' workspace' epoch'
            (consume_plan now k consumer workspace epoch t).1).0
          ≡ err plan_not_found)
unfolding invalidate_document
consume-invalidate_document s k p w u revision now later c v c' v' e e' x room found met =
    let r : StalePlanReason = record { workspace_id = w; uri = u; current_revision = revision } in
    let gone = get-invalidate_plans (depends_on w u) (some r) s k x.keyed x.distinct_plans in
    stale_then_missing k r (invalidate_plans (depends_on w u) (some r) s).1 now later c v c' v' e e'
      (ground (arith, gone, found, met))
      (remembered (depends_on w u) r k p s room found (x.keyed k p found) met)
