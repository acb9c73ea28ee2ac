-- ===== src/EditStore/Reservation.antt =====
-- The adapter's plan IDs that packages/bridge-daemon/src/plan/in-memory-edit-store.ts holds reserved,
-- for the plans that are live and for those that a route has taken out and not yet released.
pub mod Keeps
pub mod Reach
pub mod Key
use junon.Shared.{
  ℕ, String, ◌≡◌, refl, Bool, true, false, ◌&&◌, ◌||◌, not, Option, none, some, List, [], ◌∷◌,
  contains, remove,
}
use junon.Shared.Maps.{get}
use junon.EditStore.Data.{StoredPlan, EditStore, Result, ok, err}
use junon.EditStore.Removal.Loops.{plan_key}

-- `flight` has the keys of the plans that were taken out and not yet released.
pub record IsReserved (s : EditStore) (flight : List String) : Type 0 where
  -- The key of a live plan is reserved,
  pub live :
      (k : String) (p : StoredPlan)
      → get k s.plans ≡ some p
      → contains (plan_key p) s.internal_plans ≡ true
  -- no other live plan has it,
  pub apart :
      (j k : String) (p q : StoredPlan)
      → get j s.plans ≡ some p
      → get k s.plans ≡ some q
      → plan_key p ≡ plan_key q
      → j ≡ k
  -- nor has one in flight,
  pub grounded :
      (k : String) (p : StoredPlan) → get k s.plans ≡ some p → contains (plan_key p) flight ≡ false
  -- whose key is reserved too.
  pub flying : (key : String) → contains key flight ≡ true → contains key s.internal_plans ≡ true
