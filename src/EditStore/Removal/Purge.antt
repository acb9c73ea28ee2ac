-- ===== src/EditStore/Removal/Purge.antt =====
-- What `invalidateWorkspace`, `invalidateSession`, `invalidateDocument` and `sweep` leave of the store
-- (packages/bridge-daemon/src/plan/in-memory-edit-store.ts).
use junon.Shared.{ℕ, String, ◌≡◌, ◌∙◌, ap, Bool, Option, none, length, keep}
use junon.Shared.Maps.{Map, get, values}
use junon.Shared.Maps.Distinct.{Distinct}
use junon.EditStore.Data.{StoredPlan, StoredUndoToken, EditStore, Revision}
use junon.EditStore.Removal.{
  invalidate_plans, purge, depends_on, invalidate_document, plan_in_workspace, token_in_workspace,
  invalidate_workspace, plan_of_session, token_of_session, invalidate_session, plan_expired_at,
  token_expired_at, sweep,
}
use junon.EditStore.Removal.Loops.{count-invalidate_plans}
use junon.EditStore.Removal.Tokens.{
  Keyed, surviving, drop_tokens-SamePlans, get-invalidate_plans, get-drop_own_tokens,
  invalidate_plans-tokens,
}

-- The plans and the undo tokens that `t` has are those of `s` that meet neither test.
pub record Purged (plan_test : StoredPlan → Bool) (token_test : StoredUndoToken → Bool)
    (s t : EditStore) : Type 0 where
  pub plans : (k : String) → get k t.plans ≡ surviving plan_test (get k s.plans)
  pub tokens : (k : String) → get k t.undo_tokens ≡ surviving token_test (get k s.undo_tokens)

-- What the laws below ask of a store; both maps have it after any calls.
pub record IsIndexed (s : EditStore) : Type 0 where
  pub keyed : Keyed s.plans
  pub distinct_plans : Distinct s.plans
  pub distinct_tokens : Distinct s.undo_tokens

pub purge-Purged :
    (plan_test : StoredPlan → Bool) (token_test : StoredUndoToken → Bool) (s : EditStore)
    → IsIndexed s
    → Purged plan_test token_test s (purge plan_test token_test s).1
unfolding purge
purge-Purged plan_test token_test s x =
    let s' = (invalidate_plans plan_test none s).1 in
    let same = drop_tokens-SamePlans token_test s'.undo_tokens s' in
    let (tokens, _) = invalidate_plans-tokens plan_test none s in
    record {
      plans = λ k.
          ap (get k) same.plans ∙ get-invalidate_plans plan_test none s k x.keyed x.distinct_plans;
      tokens = λ k.
          get-drop_own_tokens token_test k s' (rw tokens x.distinct_tokens)
          ∙ ap (λ (m : Map StoredUndoToken). surviving token_test (get k m)) tokens;
    }

-- In an indexed store, the sweep drops exactly the plans and the undo tokens whose time has come.
pub sweep-Purged :
    (now : ℕ) (s : EditStore)
    → IsIndexed s
    → Purged (plan_expired_at now) (token_expired_at now) s (sweep now s)
unfolding sweep
sweep-Purged now s x = purge-Purged (plan_expired_at now) (token_expired_at now) s x

-- In an indexed store, the end of a session drops exactly the plans and the undo tokens that it
-- made or serves.
pub invalidate_session-Purged :
    (session_id : String) (s : EditStore)
    → IsIndexed s
    → Purged
        (plan_of_session session_id)
        (token_of_session session_id)
        s
        (invalidate_session session_id s)
unfolding invalidate_session
invalidate_session-Purged session_id s x = purge-Purged _ _ s x

-- In an indexed store, the end of a workspace drops exactly the plans and the undo tokens in it.
pub invalidate_workspace-Purged :
    (workspace_id : String) (s : EditStore)
    → IsIndexed s
    → Purged
        (plan_in_workspace workspace_id)
        (token_in_workspace workspace_id)
        s
        (invalidate_workspace workspace_id s).1
unfolding invalidate_workspace
invalidate_workspace-Purged workspace_id s x = purge-Purged _ _ s x

-- In an indexed store, a change of a document drops exactly the plans with a precondition on it,
-- no undo token, and returns the number of those plans.
pub invalidate_document-exact :
    (workspace_id uri : String) (revision : Option Revision) (s : EditStore)
    → IsIndexed s
    → ((k : String)
        → get k (invalidate_document workspace_id uri revision s).1.plans
          ≡ surviving (depends_on workspace_id uri) (get k s.plans))
      × ((invalidate_document workspace_id uri revision s).1.undo_tokens ≡ s.undo_tokens)
      × ((invalidate_document workspace_id uri revision s).0
          ≡ length (keep (depends_on workspace_id uri) (values s.plans)))
unfolding invalidate_document
invalidate_document-exact workspace_id uri revision s x = (
  (λ k. get-invalidate_plans _ _ s k x.keyed x.distinct_plans),
  (invalidate_plans-tokens _ _ s).0,
  count-invalidate_plans _ _ s,
)
