-- ===== src/EditStore/Step.antt =====
-- The calls that the daemon makes of an `InMemoryEditStore`
-- (packages/bridge-daemon/src/plan/in-memory-edit-store.ts), as steps of its state.
use junon.Shared.{ℕ, String, Option, List, [], ◌∷◌}
use junon.Uri.{UrlPlatform}
use junon.EditStore.Data.{
  Revision, EditPlan, UndoToken, StoredPlan, StoredUndoToken, PlanCreationContext,
  UndoCreationContext, EditStore,
}
use junon.EditStore.Removal.{
  release_plan, release_undo_token, invalidate_document, invalidate_workspace, invalidate_session,
  sweep, close,
}
use junon.EditStore.Plans.{create_plan, consume_plan, discard_plan}
use junon.EditStore.Undo.{create_undo_token, consume_undo_token}

-- The numbers are the times that the call reads, and the functions the texts that its ID factory draws.
pub data Call : Type 0 where
  creates_plan : (ℕ → String) → ℕ → ℕ → EditPlan → PlanCreationContext → Call
  consumes_plan : ℕ → String → String → String → ℕ → Call
  discards_plan : ℕ → String → String → String → Call
  releases_plan : StoredPlan → Call
  creates_undo : (ℕ → String) → ℕ → ℕ → UndoToken → UndoCreationContext → Call
  consumes_undo : ℕ → UndoToken → String → String → Call
  releases_undo : StoredUndoToken → Call
  invalidates_document : String → String → Option Revision → Call
  invalidates_workspace : String → Call
  invalidates_session : String → Call
  sweeps : ℕ → Call
  closes : Call

module _ (platform : UrlPlatform) where
  unfoldable pub step : EditStore → Call → EditStore
  step s (creates_plan draw swept_at now plan c) =
      (create_plan platform draw swept_at now plan c s).1
  step s (consumes_plan now plan_id consumer workspace_id epoch) =
      (consume_plan now plan_id consumer workspace_id epoch s).1
  step s (discards_plan now plan_id consumer workspace_id) =
      (discard_plan now plan_id consumer workspace_id s).1
  step s (releases_plan p) = release_plan p s
  step s (creates_undo draw swept_at now token c) =
      (create_undo_token draw swept_at now token c s).1
  step s (consumes_undo now token consumer workspace_id) =
      (consume_undo_token now token consumer workspace_id s).1
  step s (releases_undo t) = release_undo_token t s
  step s (invalidates_document workspace_id uri revision) =
      (invalidate_document workspace_id uri revision s).1
  step s (invalidates_workspace workspace_id) = (invalidate_workspace workspace_id s).1
  step s (invalidates_session session_id) = invalidate_session session_id s
  step s (sweeps now) = sweep now s
  step s closes = close s

  unfoldable pub run : EditStore → List Call → EditStore
  unfolding step
  run s [] = s
  run s (c ∷ cs) = run (step s c) cs
