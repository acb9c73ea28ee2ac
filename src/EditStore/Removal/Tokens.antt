-- ===== src/EditStore/Removal/Tokens.antt =====
-- What the loops over the undo tokens leave of the store, and what the loops together drop
-- (packages/bridge-daemon/src/plan/in-memory-edit-store.ts).
use junon.Shared.{
  ℕ, String, ◌≡◌, refl, ◌∙◌, Bool, false, ◌&&◌, not, Option, none, some, List, [], ◌∷◌, arith, ◌==◌,
  if◌then◌else◌, any, contains, contains-remove, Bool-cases, Option-cases, inl, inr,
}
use junon.Shared.Maps.{Map, get, values, get-delete}
use junon.Shared.Maps.Distinct.{Distinct, any-get, get-any}
use junon.EditStore.Data.{StalePlanReason, StoredPlan, StoredUndoToken, EditStore}
use junon.EditStore.Removal.{
  internal_key, delete_undo_token, drop_tokens, invalidate_one, invalidate_each, invalidate_plans,
  remember_if,
}
use junon.EditStore.Removal.Loops.{get-invalidate_each}

-- The plans, and what stands beside them, before and after an operation that writes to tokens alone.
pub record SamePlans (s t : EditStore) : Type 0 where
  pub plans : t.plans ≡ s.plans
  pub internal_plans : t.internal_plans ≡ s.internal_plans
  pub reasons : t.invalidation_reasons ≡ s.invalidation_reasons

pub drop_tokens-SamePlans :
    (pred : StoredUndoToken → Bool) (ts : Map StoredUndoToken) (s : EditStore)
    → SamePlans s (drop_tokens pred ts s)
unfolding drop_tokens
drop_tokens-SamePlans pred [] s = record { plans = refl; internal_plans = refl; reasons = refl }
drop_tokens-SamePlans pred ((id, t) ∷ rest) s =
    let ih = drop_tokens-SamePlans pred rest (if pred t then delete_undo_token id t s else s) in
    unfold delete_undo_token in
    record {
      plans = ground (arith, ih.plans);
      internal_plans = ground (arith, ih.internal_plans);
      reasons = ground (arith, ih.reasons);
    }

-- What a removal by a test leaves of what a map finds.
abbrev pub surviving {ℓ} : {V : Type ℓ} → (V → Bool) → Option V → Option V
surviving p none = none
surviving p (some v) = if p v then none else some v

-- Every plan is stored under its own ID.
abbrev pub Keyed : Map StoredPlan → Type 0
Keyed m = (k : String) (p : StoredPlan) → get k m ≡ some p → p.public_plan.plan_id ≡ k

matches : (StoredPlan → Bool) → String → StoredPlan → Bool
matches test k p = test p && p.public_plan.plan_id == k

any-matches :
    (test : StoredPlan → Bool) (k : String) (m : Map StoredPlan)
    → Keyed m
    → Distinct m
    → (if any (matches test k) (values m) then none else get k m) ≡ surviving test (get k m)
unfolding matches
any-matches test k m keyed d = elim (Bool-cases (any (matches test k) (values m))) [
  | inl hit ↦
      let (j, p, found, met) = get-any (matches test k) m d hit in
      let id = keyed j p found in ground (arith, hit, found, met, id)
  | inr miss ↦ elim (Option-cases (get k m)) [
    | inl absent ↦ ground (arith, miss, absent)
    | inr (p, found) ↦
        ground (arith, miss, found, keyed k p found, any-get (matches test k) k p m found)
  ]
]

module _ (plan_test : StoredPlan → Bool) (reason : Option StalePlanReason) (s : EditStore) where
  -- The plans that the loop leaves are those that do not meet the test.
  pub get-invalidate_plans :
      (k : String)
      → Keyed s.plans
      → Distinct s.plans
      → get k (invalidate_plans plan_test reason s).1.plans ≡ surviving plan_test (get k s.plans)
  unfolding invalidate_plans matches
  get-invalidate_plans k keyed d =
      get-invalidate_each plan_test reason k (values s.plans) (0, s)
      ∙ any-matches plan_test k s.plans keyed d

met : {V : Type 0} → (V → Bool) → Option V → Bool
met p none = false
met p (some v) = p v

get-drop_tokens :
    (pred : StoredUndoToken → Bool) (k : String) (ts : Map StoredUndoToken) (s : EditStore)
    → Distinct ts
    → get k (drop_tokens pred ts s).undo_tokens
      ≡ (if met pred (get k ts) then none else get k s.undo_tokens)
unfolding drop_tokens met get
get-drop_tokens pred k [] s d = refl
get-drop_tokens pred k ((id, t) ∷ rest) s d =
    let s' : EditStore = if pred t then delete_undo_token id t s else s in
    let ih = get-drop_tokens pred k rest s' d.1 in
    unfold delete_undo_token in ground (arith, ih, get-delete id k s.undo_tokens)

abbrev pub token_key : StoredUndoToken → String
token_key t = internal_key t.adapter_session_id t.adapter_token.id

pub contains-drop_tokens :
    (pred : StoredUndoToken → Bool) (key : String) (ts : Map StoredUndoToken) (s : EditStore)
    → contains key (drop_tokens pred ts s).internal_undo_tokens ≡ (
        not (any (λ t. pred t && token_key t == key) (values ts))
        && contains key s.internal_undo_tokens)
unfolding drop_tokens any values
contains-drop_tokens pred key [] s = ground arith
contains-drop_tokens pred key ((id, t) ∷ rest) s =
    let s' : EditStore = if pred t then delete_undo_token id t s else s in
    let ih = contains-drop_tokens pred key rest s' in
    unfold delete_undo_token in
    ground (arith, ih, contains-remove (token_key t) key s.internal_undo_tokens)

-- The undo tokens that the loop leaves are those that do not meet the test.
pub get-drop_own_tokens :
    (pred : StoredUndoToken → Bool) (k : String) (s : EditStore)
    → Distinct s.undo_tokens
    → get k (drop_tokens pred s.undo_tokens s).undo_tokens ≡ surviving pred (get k s.undo_tokens)
unfolding met
get-drop_own_tokens pred k s d = ground (arith, get-drop_tokens pred k s.undo_tokens s d)

invalidate_one-tokens :
    (test : StoredPlan → Bool) (reason : Option StalePlanReason) (p : StoredPlan)
    (acc : ℕ × EditStore)
    → ((invalidate_one test reason p acc).1.undo_tokens ≡ acc.1.undo_tokens)
      × ((invalidate_one test reason p acc).1.internal_undo_tokens ≡ acc.1.internal_undo_tokens)
unfolding invalidate_one remember_if
invalidate_one-tokens test reason p (n, s) = (ground arith, ground arith)

invalidate_each-tokens :
    (test : StoredPlan → Bool) (reason : Option StalePlanReason) (ps : List StoredPlan)
    (acc : ℕ × EditStore)
    → ((invalidate_each test reason ps acc).1.undo_tokens ≡ acc.1.undo_tokens)
      × ((invalidate_each test reason ps acc).1.internal_undo_tokens ≡ acc.1.internal_undo_tokens)
unfolding invalidate_each
invalidate_each-tokens test reason [] acc = (refl, refl)
invalidate_each-tokens test reason (p ∷ ps) acc =
    let (a, b) = invalidate_one-tokens test reason p acc in
    let (c, d) = invalidate_each-tokens test reason ps (invalidate_one test reason p acc) in
    (c ∙ a, d ∙ b)

pub invalidate_plans-tokens :
    (test : StoredPlan → Bool) (reason : Option StalePlanReason) (s : EditStore)
    → ((invalidate_plans test reason s).1.undo_tokens ≡ s.undo_tokens)
      × ((invalidate_plans test reason s).1.internal_undo_tokens ≡ s.internal_undo_tokens)
unfolding invalidate_plans
invalidate_plans-tokens test reason s = invalidate_each-tokens test reason (values s.plans) (0, s)
