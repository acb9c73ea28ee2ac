-- ===== src/EditStore/Shrinks.antt =====
-- What every operation of packages/bridge-daemon/src/plan/in-memory-edit-store.ts that drops entries
-- keeps: the limits, the sizes, and that the keys of its maps are distinct.
use junon.Shared.{
  ℕ, ◌≤◌, String, ◌≡◌, refl, ◌∙◌, Bool, true, false, Option, none, some, List, [], ◌∷◌, arith,
  length, Bool-cases, Option-cases, inl, inr,
}
use junon.Shared.Maps.{Map, set, delete, count, length-delete-le, count-delete-le, values}
use junon.Shared.Maps.Distinct.{Distinct, delete-Distinct}
use junon.EditStore.Data.{
  StalePlanReason, StoredPlan, StoredUndoToken, EditStore, Revision, UndoToken,
}
use junon.EditStore.Removal.{
  release_plan, release_undo_token, delete_plan, delete_undo_token, forget_oldest, remember_reason,
  take_reason, remember_if, invalidate_one, invalidate_each, invalidate_plans, drop_tokens,
  invalidate_document, sweep, close, purge,
}
use junon.EditStore.Plans.{find_plan, consume_plan, discard_plan}
use junon.EditStore.Undo.{find_token, consume_undo_token}

pub record Shrinks (s t : EditStore) : Type 0 where
  pub lifetime : t.maximum_plan_lifetime_ms ≡ s.maximum_plan_lifetime_ms
  pub entries : t.maximum_entries ≡ s.maximum_entries
  pub per_consumer : t.maximum_entries_per_consumer ≡ s.maximum_entries_per_consumer
  pub fewer_plans : length t.plans ≤ length s.plans
  pub fewer_tokens : length t.undo_tokens ≤ length s.undo_tokens
  pub plans_of : (q : StoredPlan → Bool) → count q t.plans ≤ count q s.plans
  pub tokens_of : (q : StoredUndoToken → Bool) → count q t.undo_tokens ≤ count q s.undo_tokens
  pub distinct_plans : Distinct s.plans → Distinct t.plans
  pub distinct_tokens : Distinct s.undo_tokens → Distinct t.undo_tokens
  pub remembered : length s.invalidation_reasons ≤ 256 → length t.invalidation_reasons ≤ 256

pub Shrinks-refl : (s : EditStore) → Shrinks s s
Shrinks-refl s = record {
  lifetime = refl;
  entries = refl;
  per_consumer = refl;
  fewer_plans = omega arith;
  fewer_tokens = omega arith;
  plans_of = λ q. omega arith;
  tokens_of = λ q. omega arith;
  distinct_plans = λ d. d;
  distinct_tokens = λ d. d;
  remembered = λ h. h;
}

pub Shrinks-trans : (s t u : EditStore) → Shrinks s t → Shrinks t u → Shrinks s u
Shrinks-trans s t u a b = record {
  lifetime = b.lifetime ∙ a.lifetime;
  entries = b.entries ∙ a.entries;
  per_consumer = b.per_consumer ∙ a.per_consumer;
  fewer_plans = omega (arith, a.fewer_plans, b.fewer_plans);
  fewer_tokens = omega (arith, a.fewer_tokens, b.fewer_tokens);
  plans_of = λ q. omega (arith, a.plans_of q, b.plans_of q);
  tokens_of = λ q. omega (arith, a.tokens_of q, b.tokens_of q);
  distinct_plans = λ d. b.distinct_plans (a.distinct_plans d);
  distinct_tokens = λ d. b.distinct_tokens (a.distinct_tokens d);
  remembered = λ h. b.remembered (a.remembered h);
}

pub release_plan-Shrinks : (p : StoredPlan) (s : EditStore) → Shrinks s (release_plan p s)
unfolding release_plan
release_plan-Shrinks p s = ground arith

pub release_undo_token-Shrinks :
    (t : StoredUndoToken) (s : EditStore) → Shrinks s (release_undo_token t s)
unfolding release_undo_token
release_undo_token-Shrinks t s = ground arith

delete_plan-Shrinks : (p : StoredPlan) (b : Bool) (s : EditStore) → Shrinks s (delete_plan p b s)
unfolding delete_plan
delete_plan-Shrinks p true s = grind (arith, length-delete-le, count-delete-le, delete-Distinct)
delete_plan-Shrinks p false s = grind (arith, length-delete-le, count-delete-le, delete-Distinct)

delete_token-Shrinks :
    (id : String) (s : EditStore) → Shrinks s (record s { undo_tokens = delete id s.undo_tokens })
delete_token-Shrinks id s = grind (arith, length-delete-le, count-delete-le, delete-Distinct)

length-forget_oldest : (m : Map StalePlanReason) → length (forget_oldest m) ≤ 256
unfolding forget_oldest
length-forget_oldest [] = omega arith
length-forget_oldest (e ∷ m) = ground (arith, length-forget_oldest m)

remember_if-Shrinks :
    (reason : Option StalePlanReason) (plan_id : String) (s : EditStore)
    → Shrinks s (remember_if reason plan_id s)
unfolding remember_if
remember_if-Shrinks none plan_id s = Shrinks-refl s
remember_if-Shrinks (some reason) plan_id s =
    unfold remember_reason in
    grind (arith, length-forget_oldest (set plan_id reason s.invalidation_reasons))

invalidate_one-Shrinks :
    (pred : StoredPlan → Bool) (reason : Option StalePlanReason) (p : StoredPlan)
    (acc : ℕ × EditStore)
    → Shrinks acc.1 (invalidate_one pred reason p acc).1
unfolding invalidate_one
invalidate_one-Shrinks pred reason p (n, s) = elim (Bool-cases (pred p)) [
  | inl hit ↦ rw hit (
      Shrinks-trans s (delete_plan p true s) _ (delete_plan-Shrinks p true s)
        (remember_if-Shrinks reason p.public_plan.plan_id (delete_plan p true s)))
  | inr miss ↦ rw miss (Shrinks-refl s)
]

invalidate_each-Shrinks :
    (pred : StoredPlan → Bool) (reason : Option StalePlanReason) (ps : List StoredPlan)
    (acc : ℕ × EditStore)
    → Shrinks acc.1 (invalidate_each pred reason ps acc).1
unfolding invalidate_each
invalidate_each-Shrinks pred reason [] acc = Shrinks-refl acc.1
invalidate_each-Shrinks pred reason (p ∷ ps) acc =
    Shrinks-trans _ _ _ (invalidate_one-Shrinks pred reason p acc)
      (invalidate_each-Shrinks pred reason ps (invalidate_one pred reason p acc))

pub invalidate_plans-Shrinks :
    (pred : StoredPlan → Bool) (reason : Option StalePlanReason) (s : EditStore)
    → Shrinks s (invalidate_plans pred reason s).1
unfolding invalidate_plans
invalidate_plans-Shrinks pred reason s = invalidate_each-Shrinks pred reason (values s.plans) (0, s)

delete_undo_token-Shrinks :
    (id : String) (t : StoredUndoToken) (s : EditStore) → Shrinks s (delete_undo_token id t s)
unfolding delete_undo_token
delete_undo_token-Shrinks id t s =
    Shrinks-trans s _ _ (delete_token-Shrinks id s) (release_undo_token-Shrinks t _)

pub drop_tokens-Shrinks :
    (pred : StoredUndoToken → Bool) (ts : Map StoredUndoToken) (s : EditStore)
    → Shrinks s (drop_tokens pred ts s)
unfolding drop_tokens
drop_tokens-Shrinks pred [] s = Shrinks-refl s
drop_tokens-Shrinks pred ((id, t) ∷ rest) s = elim (Bool-cases (pred t)) [
  | inl hit ↦ rw hit (
      Shrinks-trans s (delete_undo_token id t s) _ (delete_undo_token-Shrinks id t s)
        (drop_tokens-Shrinks pred rest (delete_undo_token id t s)))
  | inr miss ↦ rw miss (drop_tokens-Shrinks pred rest s)
]

pub invalidate_document-Shrinks :
    (workspace_id uri : String) (revision : Option Revision) (s : EditStore)
    → Shrinks s (invalidate_document workspace_id uri revision s).1
unfolding invalidate_document
invalidate_document-Shrinks workspace_id uri revision s = invalidate_plans-Shrinks _ _ s

pub purge-Shrinks :
    (plan_test : StoredPlan → Bool) (token_test : StoredUndoToken → Bool) (s : EditStore)
    → Shrinks s (purge plan_test token_test s).1
unfolding purge
purge-Shrinks plan_test token_test s =
    let s' = (invalidate_plans plan_test none s).1 in
    Shrinks-trans s s' _ (invalidate_plans-Shrinks plan_test none s)
      (drop_tokens-Shrinks token_test s'.undo_tokens s')

pub sweep-Shrinks : (now : ℕ) (s : EditStore) → Shrinks s (sweep now s)
unfolding sweep
sweep-Shrinks now s = purge-Shrinks _ _ s

pub close-Shrinks : (s : EditStore) → Shrinks s (close s)
unfolding close
close-Shrinks s = unfold count in grind arith

pub take_reason-Shrinks : (plan_id : String) (s : EditStore) → Shrinks s (take_reason plan_id s).1
unfolding take_reason
take_reason-Shrinks plan_id s = grind (arith, length-delete-le)

pub consume_plan-Shrinks :
    (now : ℕ) (plan_id consumer workspace_id : String) (epoch : ℕ) (s : EditStore)
    → Shrinks s (consume_plan now plan_id consumer workspace_id epoch s).1
unfolding consume_plan
consume_plan-Shrinks now plan_id consumer workspace_id epoch s =
    elim (Option-cases (find_plan plan_id consumer workspace_id s)) [
      | inl missing ↦ rw (missing, consume_plan) (take_reason-Shrinks plan_id s)
      | inr (p, found) ↦
          rw (found, consume_plan)
            (ground (arith, delete_plan-Shrinks p true s, delete_plan-Shrinks p false s))
    ]

pub discard_plan-Shrinks :
    (now : ℕ) (plan_id consumer workspace_id : String) (s : EditStore)
    → Shrinks s (discard_plan now plan_id consumer workspace_id s).1
unfolding discard_plan
discard_plan-Shrinks now plan_id consumer workspace_id s =
    elim (Option-cases (find_plan plan_id consumer workspace_id s)) [
      | inl missing ↦ rw (missing, discard_plan) (Shrinks-refl s)
      | inr (p, found) ↦
          rw (found, discard_plan)
            (ground (arith, delete_plan-Shrinks p true s, delete_plan-Shrinks p false s))
    ]

pub consume_undo_token-Shrinks :
    (now : ℕ) (token : UndoToken) (consumer workspace_id : String) (s : EditStore)
    → Shrinks s (consume_undo_token now token consumer workspace_id s).1
unfolding consume_undo_token
consume_undo_token-Shrinks now token consumer workspace_id s =
    elim (Option-cases (find_token token consumer workspace_id s)) [
      | inl missing ↦ rw (missing, consume_undo_token) (Shrinks-refl s)
      | inr (t, found) ↦
          let s' : EditStore = record s { undo_tokens = delete token.id s.undo_tokens } in
          let kept = delete_token-Shrinks token.id s in
          rw (found, consume_undo_token)
            (ground (arith, kept, Shrinks-trans s s' _ kept (release_undo_token-Shrinks t s')))
    ]
