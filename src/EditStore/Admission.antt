-- ===== src/EditStore/Admission.antt =====
-- What `createPlan` and `createUndoToken` have checked of what they let in
-- (packages/bridge-daemon/src/plan/in-memory-edit-store.ts).
use junon.Shared.{
  ℕ, ◌<◌, String, ◌≡◌, true, false, Option, none, some, List, [], ◌∷◌, arith, contains, add, inl,
  inr,
}
use junon.Shared.Maps.{has}
use junon.Clock.{parse}
use junon.Uri.{UrlPlatform}
use junon.EditStore.Data.{
  Precondition, ChangeSummary, EditPlan, UndoToken, PlanCreationContext, UndoCreationContext,
  EditStore, ok, >>=-eq-ok, Result-cases,
}
use junon.EditStore.Ids.{is_valid_id, unique_id, unique_id-ok}
use junon.EditStore.Removal.{internal_key}
use junon.EditStore.Plans.{
  assert_capacity, within_a_root, check_preconditions, check_changes, check_expiry, check_plan,
  publish, admit_plan,
}
use junon.EditStore.Undo.{check_token_expiry, check_token, publish_token, admit_token}

check_expiry-ok : (o : Option ℕ) (now t : ℕ) → check_expiry o now ≡ ok t → (o ≡ some t) × (now < t)
unfolding check_expiry
check_expiry-ok none now t e = cc
check_expiry-ok (some u) now t e = ground arith

-- The documents of a plan's preconditions are distinct, of the context's epoch and inside its roots.
abbrev pub PreconditionsHold :
    UrlPlatform → PlanCreationContext → List String → List Precondition → Type 0
PreconditionsHold platform c seen [] = Unit
PreconditionsHold platform c seen (p ∷ ps) =
    (contains p.uri seen ≡ false)
    × (p.workspace_epoch ≡ c.workspace_epoch)
    × (within_a_root platform c.workspace_root_uris p.uri ≡ true)
    × PreconditionsHold platform c (add p.uri seen) ps

abbrev uris : List Precondition → List String → List String
uris [] seen = seen
uris (p ∷ ps) seen = uris ps (add p.uri seen)

check_preconditions-ok :
    (platform : UrlPlatform) (c : PlanCreationContext) (seen : List String) (ps : List Precondition)
    (out : List String)
    → check_preconditions platform c seen ps ≡ ok out
    → PreconditionsHold platform c seen ps × (out ≡ uris ps seen)
unfolding check_preconditions
check_preconditions-ok platform c seen [] out e = (tt, ground arith)
check_preconditions-ok platform c seen (p ∷ ps) out e =
    let (held, names) = check_preconditions-ok platform c (add p.uri seen) ps out (ground arith) in
    ((ground arith, ground arith, ground arith, held), names)

-- The documents of a plan's changes are distinct, under a precondition each, and inside the roots.
abbrev pub ChangesHold :
    UrlPlatform → PlanCreationContext → List String → List String → List ChangeSummary → Type 0
ChangesHold platform c preconditions seen [] = Unit
ChangesHold platform c preconditions seen (h ∷ hs) =
    (contains h.uri seen ≡ false)
    × (contains h.uri preconditions ≡ true)
    × (within_a_root platform c.workspace_root_uris h.uri ≡ true)
    × ChangesHold platform c preconditions (add h.uri seen) hs

check_changes-ok :
    (platform : UrlPlatform) (c : PlanCreationContext) (preconditions seen : List String)
    (hs : List ChangeSummary)
    → check_changes platform c preconditions seen hs ≡ ok tt
    → ChangesHold platform c preconditions seen hs
unfolding check_changes
check_changes-ok platform c preconditions seen [] e = tt
check_changes-ok platform c preconditions seen (h ∷ hs) e = (
  ground arith,
  ground arith,
  ground arith,
  check_changes-ok platform c preconditions (add h.uri seen) hs (ground arith),
)

-- What is so of a plan that passes the checks of `createPlan`.
pub record Checked (platform : UrlPlatform) (now : ℕ) (plan : EditPlan) (c : PlanCreationContext)
    (s : EditStore) (expiration : ℕ) : Type 0 where
  pub room : assert_capacity c.consumer_session_id s ≡ ok tt
  pub adapter : plan.adapter_id ≡ c.adapter_id
  pub session : plan.session_id ≡ c.adapter_session_id
  pub workspace : plan.workspace_id ≡ c.workspace_id
  pub readable : parse plan.expires_at ≡ some expiration
  pub in_time : now < expiration
  pub preconditions : PreconditionsHold platform c [] plan.preconditions
  pub changes : ChangesHold platform c (uris plan.preconditions []) [] plan.changes
  pub unused : contains (internal_key c.adapter_session_id plan.plan_id) s.internal_plans ≡ false

check_plan-Checked :
    (platform : UrlPlatform) (now : ℕ) (plan : EditPlan) (c : PlanCreationContext) (s : EditStore)
    (t : ℕ)
    → check_plan platform now plan c s ≡ ok t
    → Checked platform now plan c s t
unfolding check_plan
check_plan-Checked platform now plan c s t e =
    elim (Result-cases (check_expiry (parse plan.expires_at) now)) [
      | inl (x, bad) ↦ absurd (ground arith)
      | inr (u, readable) ↦
          elim (Result-cases (check_preconditions platform c [] plan.preconditions)) [
            | inl (x, bad) ↦ absurd (ground arith)
            | inr (names, known) ↦
                let (held, named) =
                  check_preconditions-ok platform c [] plan.preconditions names known in
                let (text, later) = check_expiry-ok (parse plan.expires_at) now u readable in
                record {
                  room = ground arith;
                  adapter = ground arith;
                  session = ground arith;
                  workspace = ground arith;
                  readable = ground arith;
                  in_time = ground arith;
                  preconditions = held;
                  changes =
                      check_changes-ok platform c _ [] plan.changes (rw (← named) (ground arith));
                  unused = ground arith;
                }
          ]
    ]

-- What is so of the plan that the consumer sees.
pub record Admitted (platform : UrlPlatform) (now : ℕ) (plan : EditPlan) (c : PlanCreationContext)
    (s : EditStore) (out : EditPlan) : Type 0 where
  pub expiration : ℕ
  pub checked : Checked platform now plan c s expiration
  pub valid : is_valid_id "plan_" out.plan_id ≡ true
  pub fresh : has out.plan_id s.plans ≡ false
  pub published : out ≡ publish now out.plan_id plan c s expiration

pub admit_plan-Admitted :
    (platform : UrlPlatform) (draw : ℕ → String) (now : ℕ) (plan : EditPlan)
    (c : PlanCreationContext) (s : EditStore) (out : EditPlan)
    → admit_plan platform draw now plan c s ≡ ok out
    → Admitted platform now plan c s out
unfolding admit_plan publish
admit_plan-Admitted platform draw now plan c s out e =
    let (t, passed_checks, e₁) = >>=-eq-ok (check_plan platform now plan c s) _ out e in
    let (id, drawn, e₂) = >>=-eq-ok (unique_id "plan_" draw s.plans) _ out e₁ in
    let (valid, fresh) = unique_id-ok "plan_" draw s.plans id drawn in
    record {
      expiration = t;
      checked = check_plan-Checked platform now plan c s t passed_checks;
      valid = ground arith;
      fresh = ground arith;
      published = ground arith;
    }

pub record CheckedToken (now : ℕ) (token : UndoToken) (c : UndoCreationContext) (s : EditStore)
    (expiration : Option ℕ) : Type 0 where
  pub room : assert_capacity c.consumer_session_id s ≡ ok tt
  pub adapter : token.adapter_id ≡ c.adapter_id
  pub session : token.session_id ≡ c.adapter_session_id
  pub workspace : token.workspace_id ≡ c.workspace_id
  pub in_time : check_token_expiry token.expires_at now ≡ ok expiration
  pub unused : contains (internal_key c.adapter_session_id token.id) s.internal_undo_tokens ≡ false

check_token-Checked :
    (now : ℕ) (token : UndoToken) (c : UndoCreationContext) (s : EditStore) (t : Option ℕ)
    → check_token now token c s ≡ ok t
    → CheckedToken now token c s t
unfolding check_token
check_token-Checked now token c s t e =
    elim (Result-cases (check_token_expiry token.expires_at now)) [
      | inl (x, bad) ↦ absurd (ground arith)
      | inr (u, readable) ↦ record {
        room = ground arith;
        adapter = ground arith;
        session = ground arith;
        workspace = ground arith;
        in_time = ground arith;
        unused = ground arith;
      }
    ]

pub record AdmittedToken (now : ℕ) (token : UndoToken) (c : UndoCreationContext) (s : EditStore)
    (out : UndoToken) : Type 0 where
  pub expiration : Option ℕ
  pub checked : CheckedToken now token c s expiration
  pub valid : is_valid_id "undo_" out.id ≡ true
  pub fresh : has out.id s.undo_tokens ≡ false
  pub published : out ≡ publish_token now out.id token c s expiration

pub admit_token-Admitted :
    (draw : ℕ → String) (now : ℕ) (token : UndoToken) (c : UndoCreationContext) (s : EditStore)
    (out : UndoToken)
    → admit_token draw now token c s ≡ ok out
    → AdmittedToken now token c s out
unfolding admit_token publish_token
admit_token-Admitted draw now token c s out e =
    let (t, passed_checks, e₁) = >>=-eq-ok (check_token now token c s) _ out e in
    let (id, drawn, e₂) = >>=-eq-ok (unique_id "undo_" draw s.undo_tokens) _ out e₁ in
    let (valid, fresh) = unique_id-ok "undo_" draw s.undo_tokens id drawn in
    record {
      expiration = t;
      checked = check_token-Checked now token c s t passed_checks;
      valid = ground arith;
      fresh = ground arith;
      published = ground arith;
    }
