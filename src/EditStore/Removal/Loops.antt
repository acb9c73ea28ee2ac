-- ===== src/EditStore/Removal/Loops.antt =====
-- What the loop of `#invalidatePlans` leaves of the store
-- (packages/bridge-daemon/src/plan/in-memory-edit-store.ts).
use junon.Shared.{
  ℕ, ◌+◌, ◌≤◌, String, ◌≡◌, refl, Bool, ◌&&◌, not, Option, none, List, [], ◌∷◌, arith, ◌==◌,
  if◌then◌else◌, any, contains, length, keep, contains-remove,
}
use junon.Shared.Maps.{Map, get, values, get-delete}
use junon.EditStore.Data.{StalePlanReason, StoredPlan, EditStore}
use junon.EditStore.Removal.{
  internal_key, forget_oldest, invalidate_one, invalidate_each, invalidate_plans,
}

abbrev pub plan_key : StoredPlan → String
plan_key p = internal_key p.adapter_session_id p.adapter_plan.plan_id

pub forget_oldest-short : (m : Map StalePlanReason) → length m ≤ 256 → forget_oldest m ≡ m
unfolding forget_oldest
forget_oldest-short [] h = refl
forget_oldest-short (e ∷ m) h = ground arith

module _ (pred : StoredPlan → Bool) (reason : Option StalePlanReason) where
  get-invalidate_one :
      (k : String) (p : StoredPlan) (acc : ℕ × EditStore)
      → get k (invalidate_one pred reason p acc).1.plans
        ≡ (if pred p && p.public_plan.plan_id == k then none else get k acc.1.plans)
  unfolding invalidate_one
  get-invalidate_one k p (n, s) = ground (arith, get-delete p.public_plan.plan_id k s.plans)

  contains-invalidate_one :
      (key : String) (p : StoredPlan) (acc : ℕ × EditStore)
      → contains key (invalidate_one pred reason p acc).1.internal_plans
        ≡ (not (pred p && plan_key p == key) && contains key acc.1.internal_plans)
  unfolding invalidate_one
  contains-invalidate_one key p (n, s) =
      ground (arith, contains-remove (plan_key p) key s.internal_plans)

  pub get-invalidate_each :
      (k : String) (ps : List StoredPlan) (acc : ℕ × EditStore)
      → get k (invalidate_each pred reason ps acc).1.plans
        ≡ (if any (λ p. pred p && p.public_plan.plan_id == k) ps then none else get k acc.1.plans)
  unfolding invalidate_each any
  get-invalidate_each k [] acc = refl
  get-invalidate_each k (p ∷ ps) acc = ground (
    arith,
    get-invalidate_each k ps (invalidate_one pred reason p acc),
    get-invalidate_one k p acc,
  )

  pub contains-invalidate_each :
      (key : String) (ps : List StoredPlan) (acc : ℕ × EditStore)
      → contains key (invalidate_each pred reason ps acc).1.internal_plans
        ≡ (not (any (λ p. pred p && plan_key p == key) ps) && contains key acc.1.internal_plans)
  unfolding invalidate_each any
  contains-invalidate_each key [] acc = ground arith
  contains-invalidate_each key (p ∷ ps) acc = ground (
    arith,
    contains-invalidate_each key ps (invalidate_one pred reason p acc),
    contains-invalidate_one key p acc,
  )

  -- The count is of the plans that met the test.
  pub count-invalidate_each :
      (ps : List StoredPlan) (acc : ℕ × EditStore)
      → (invalidate_each pred reason ps acc).0 ≡ acc.0 + length (keep pred ps)
  unfolding invalidate_each keep
  count-invalidate_each [] acc = omega arith
  count-invalidate_each (p ∷ ps) (n, s) =
      unfold invalidate_one in
      ground (arith, count-invalidate_each ps (invalidate_one pred reason p (n, s)))

  pub count-invalidate_plans :
      (s : EditStore) → (invalidate_plans pred reason s).0 ≡ length (keep pred (values s.plans))
  unfolding invalidate_plans
  count-invalidate_plans s = omega (arith, count-invalidate_each (values s.plans) (0, s))
