-- ===== src/EditStore/Reservation/Keeps.antt =====
-- Each operation of packages/bridge-daemon/src/plan/in-memory-edit-store.ts keeps the reservations.
use junon.Shared.{
  String, ◌≡◌, Bool, true, false, ◌&&◌, Option, some, List, ◌∷◌, arith, ◌==◌, any, contains,
  contains-add, contains-remove, Bool-cases, inl, inr,
}
use junon.Shared.Maps.{get, has, values, get-set, get-delete}
use junon.Shared.Maps.Distinct.{Distinct, get-any}
use junon.EditStore.Data.{EditPlan, StoredPlan, StalePlanReason, PlanCreationContext, EditStore}
use junon.EditStore.Removal.{internal_key, delete_plan, invalidate_plans}
use junon.EditStore.Removal.Loops.{plan_key, contains-invalidate_each}
use junon.EditStore.Removal.Tokens.{Keyed, get-invalidate_plans}
use junon.EditStore.Plans.{new_stored_plan, store_plan}
use junon.EditStore.Reservation.{IsReserved}

module _ (test : StoredPlan → Bool) (reason : Option StalePlanReason) (s : EditStore)
    (f : List String) (keyed : Keyed s.plans) (d : Distinct s.plans) (r : IsReserved s f) where
  kept :
      (k : String) (p : StoredPlan)
      → get k (invalidate_plans test reason s).1.plans ≡ some p
      → (get k s.plans ≡ some p) × (test p ≡ false)
  kept k p e =
      let h = get-invalidate_plans test reason s k keyed d in (ground (arith, h), ground (arith, h))

  -- A key that a plan out of the test's reach holds, live or in flight, is not given up.
  unclaimed :
      (key : String)
      → ((j : String) (q : StoredPlan) → get j s.plans ≡ some q → plan_key q ≡ key → test q ≡ false)
      → any (λ q. test q && plan_key q == key) (values s.plans) ≡ false
  unclaimed key spared =
      elim (Bool-cases (any (λ q. test q && plan_key q == key) (values s.plans))) [
        | inr none_is ↦ none_is
        | inl hit ↦
            let (j, q, found, met) = get-any (λ q. test q && plan_key q == key) s.plans d hit in
            absurd (ground (arith, spared j q found))
      ]

  held :
      (key : String)
      → contains key s.internal_plans ≡ true
      → any (λ q. test q && plan_key q == key) (values s.plans) ≡ false
      → contains key (invalidate_plans test reason s).1.internal_plans ≡ true
  unfolding invalidate_plans
  held key h u = ground (arith, contains-invalidate_each test reason key (values s.plans) (0, s))

  pub invalidate_plans-IsReserved : IsReserved (invalidate_plans test reason s).1 f
  invalidate_plans-IsReserved = record {
    live = λ k p e.
        let (found, spared) = kept k p e in
        held (plan_key p) (r.live k p found) (
          unclaimed (plan_key p)
            λ j q other same. cc (r.apart j k q p other found same, other, found, spared));
    apart = λ j k p q e h. r.apart j k p q (kept j p e).0 (kept k q h).0;
    grounded = λ k p e. r.grounded k p (kept k p e).0;
    flying = λ key h.
        held key (r.flying key h)
          (unclaimed key λ j q other same. absurd (cc (r.grounded j q other, h, same)));
  }

-- A new plan under a key that nothing reserves.
pub store_plan-IsReserved :
    (public_plan plan : EditPlan) (c : PlanCreationContext) (s : EditStore) (f : List String)
    → has public_plan.plan_id s.plans ≡ false
    → contains (internal_key c.adapter_session_id plan.plan_id) s.internal_plans ≡ false
    → IsReserved s f
    → IsReserved (store_plan public_plan plan c s) f
unfolding store_plan
store_plan-IsReserved public_plan plan c s f new unused r =
    let id = public_plan.plan_id in
    let stored = new_stored_plan public_plan plan c in
    let at = λ (k : String). get-set id k stored s.plans in
    let reserved = λ (key : String). contains-add (plan_key stored) key s.internal_plans in
    record {
      live = λ k p e. ground (arith, at k, reserved (plan_key p), r.live k p);
      apart =
          λ j k p q e h same. ground (arith, at j, at k, r.live j p, r.live k q, r.apart j k p q);
      grounded = λ k p e. ground (arith, at k, r.grounded k p, r.flying (plan_key stored));
      flying = λ key h. ground (arith, reserved key, r.flying key h);
    }

-- A live plan leaves, and its key stays reserved, for the flight.
pub take_off-IsReserved :
    (k : String) (p : StoredPlan) (s : EditStore) (f : List String)
    → Keyed s.plans
    → get k s.plans ≡ some p
    → IsReserved s f
    → IsReserved (delete_plan p false s) (plan_key p ∷ f)
unfolding delete_plan contains
take_off-IsReserved k p s f keyed found r =
    let id = keyed k p found in
    let at = λ (j : String). get-delete p.public_plan.plan_id j s.plans in
    record {
      live = λ j q e. ground (arith, at j, r.live j q);
      apart = λ i j q q' e h same. ground (arith, at i, at j, r.apart i j q q');
      grounded = λ j q e. ground (arith, id, at j, r.grounded j q, r.apart k j p q found);
      flying = λ key h. ground (arith, r.flying key, r.live k p found);
    }

-- A live plan leaves, and gives up its key.
pub drop-IsReserved :
    (k : String) (p : StoredPlan) (s : EditStore) (f : List String)
    → Keyed s.plans
    → get k s.plans ≡ some p
    → IsReserved s f
    → IsReserved (delete_plan p true s) f
unfolding delete_plan
drop-IsReserved k p s f keyed found r =
    let id = keyed k p found in
    let at = λ (j : String). get-delete p.public_plan.plan_id j s.plans in
    let freed = λ (key : String). contains-remove (plan_key p) key s.internal_plans in
    record {
      live =
          λ j q e. ground (arith, id, at j, freed (plan_key q), r.live j q, r.apart k j p q found);
      apart = λ i j q q' e h same. ground (arith, at i, at j, r.apart i j q q');
      grounded = λ j q e. ground (arith, at j, r.grounded j q);
      flying = λ key h. ground (arith, freed key, r.flying key h, r.grounded k p found);
    }
