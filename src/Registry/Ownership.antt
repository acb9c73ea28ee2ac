-- ===== src/Registry/Ownership.antt =====
-- A session writes no workspace of another session's adapter
-- (packages/bridge-daemon/src/session/session-registry.ts).
use junon.Shared.{String, ◌≡◌, ◌≢◌, some, List, [], ◌∷◌, arith, Option-cases, inl, inr, add}
use junon.Shared.Maps.{get, get-set, get-delete}
use junon.Registry.Data.{Workspace, Registry, WorkspaceRecord, ok, Result-cases}
use junon.Registry.Ops.{
  open_session, touch, remove_adapter, close_session, register_adapter, unregister_adapter,
  check_workspaces, add_workspace, add_workspaces, assert_adapter_ownership,
  assert_workspace_ownership, get_workspace, new_workspace_record,
}
use junon.Registry.Updates.{
  update_capabilities, open_workspace, close_workspace, update_workspace_roots,
  update_workspace_status, update_workspace_trust,
}
use junon.Registry.Removal.{get-delete_own}
use junon.Registry.Consistent.{IsConsistent, holder}
use junon.Registry.Consistent.Keeps.{register_adapter-Registered}
use junon.Registry.Consistent.Changes.{
  Changed, update_workspace_roots-Changed, update_workspace_status-Changed,
  update_workspace_trust-Changed,
}
use junon.Registry.Step.{
  Call, opens, touches, closes, registers, unregisters, updates_capabilities, opens_workspace,
  closes_workspace, updates_roots, updates_status, updates_trust, step,
}

-- The session that a call comes from.
abbrev pub actor : Call → String
actor (opens connection) = connection.session.session_id
actor (touches now session_id) = session_id
actor (closes session_id) = session_id
actor (registers session_id params) = session_id
actor (unregisters session_id adapter_id) = session_id
actor (updates_capabilities session_id adapter_id capabilities) = session_id
actor (opens_workspace session_id w) = session_id
actor (closes_workspace session_id workspace_id adapter_id) = session_id
actor (updates_roots session_id workspace_id adapter_id roots epoch) = session_id
actor (updates_status session_id status) = session_id
actor (updates_trust session_id workspace_id adapter_id trust) = session_id

add_workspaces-keeps :
    (adapter_id k : String) (seen : List String) (ws : List Workspace) (r t : Registry)
    (w : WorkspaceRecord)
    → check_workspaces adapter_id seen ws r ≡ ok tt
    → get k r.workspaces ≡ some w
    → get k t.workspaces ≡ some w
    → get k (add_workspaces ws t).workspaces ≡ some w
unfolding check_workspaces add_workspaces add_workspace
add_workspaces-keeps adapter_id k seen [] r t w e found kept = kept
add_workspaces-keeps adapter_id k seen (v ∷ vs) r t w e found kept =
    add_workspaces-keeps adapter_id k (add v.workspace_id seen) vs r (add_workspace v t) w
      (ground arith) found
      (ground (arith, get-set v.workspace_id k (new_workspace_record v) t.workspaces))

module _ (r : Registry) (k other : String) (w : WorkspaceRecord) (c : IsConsistent r)
    (found : get k r.workspaces ≡ some w)
    (owner : holder (get w.workspace.adapter_id r.adapters) ≡ some other) where
  removed_keeps :
      (adapter_id session_id : String)
      → session_id ≢ other
      → holder (get adapter_id r.adapters) ≡ some session_id
      → get k (remove_adapter adapter_id r).1.workspaces ≡ some w
  unfolding remove_adapter
  removed_keeps adapter_id session_id apart holds =
      ground (arith, get-delete_own adapter_id k r c.wired.keyed c.wired.distinct)

  closes_keeps :
      (session_id : String)
      → session_id ≢ other
      → get k (close_session session_id r).1.workspaces ≡ some w
  unfolding close_session remove_adapter
  closes_keeps i apart = elim (Option-cases (get i r.sessions)) [
    | inl absent ↦ ground (arith, absent)
    | inr (s, there) ↦ elim (Option-cases (get i r.adapter_by_session)) [
      | inl free ↦ ground (arith, there, free)
      | inr (own, holds) ↦ ground (
        arith,
        there,
        holds,
        c.wired.held i own holds,
        get-delete_own own k r c.wired.keyed c.wired.distinct,
      )
    ]
  ]

  Changed-keeps :
      (session_id workspace_id : String) (t : Registry) (before after : WorkspaceRecord)
      → Changed session_id workspace_id r t before after
      → session_id ≢ other
      → get k t.workspaces ≡ some w
  Changed-keeps session_id workspace_id t before after x apart =
      rw x.written (ground (arith, x.found, x.owner, get-set workspace_id k after r.workspaces))

  -- In a consistent registry, a call of one session leaves the workspaces of every other session's
  -- adapter as they are: their roots, epochs, trust and status.
  pub step-foreign : (call : Call) → actor call ≢ other → get k (step r call).workspaces ≡ some w
  unfolding step open_session touch
  step-foreign (opens conn) apart = ground arith
  step-foreign (touches now i) apart = ground arith
  step-foreign (closes i) apart = closes_keeps i apart
  step-foreign (registers i params) apart = elim (Result-cases (register_adapter i params r)) [
    | inl (x, refused) ↦ ground (arith, refused)
    | inr ((out, t), e) ↦
        let (session, x) = register_adapter-Registered i params r t out e in
        rw (e, step)
          (rw x.written (
            add_workspaces-keeps params.adapter_id k [] params.workspaces r _ w x.unused found
              found))
  ]
  step-foreign (unregisters i a) apart =
      unfold unregister_adapter assert_adapter_ownership in ground (arith, removed_keeps a i apart)
  step-foreign (updates_capabilities i a m) apart =
      unfold update_capabilities assert_adapter_ownership in ground arith
  step-foreign (opens_workspace i v) apart =
      unfold open_workspace assert_adapter_ownership add_workspace in
      ground (arith, get-set v.workspace_id k (new_workspace_record v) r.workspaces)
  step-foreign (closes_workspace i j a) apart =
      unfold close_workspace assert_workspace_ownership get_workspace assert_adapter_ownership in
      ground (arith, get-delete j k r.workspaces)
  step-foreign (updates_roots i j a roots n) apart =
      elim (Result-cases (update_workspace_roots i j a roots n r)) [
        | inl (x, refused) ↦ ground (arith, refused)
        | inr (t, e) ↦
            let (before, x, later) = update_workspace_roots-Changed i j a roots n r t e in
            rw (e, step) (Changed-keeps i j t before _ x apart)
      ]
  step-foreign (updates_status i s) apart = elim (Result-cases (update_workspace_status i s r)) [
    | inl (x, refused) ↦ ground (arith, refused)
    | inr (t, e) ↦
        let (before, x) = update_workspace_status-Changed i s r t e in
        rw (e, step) (Changed-keeps i s.workspace_id t before _ x apart)
  ]
  step-foreign (updates_trust i j a u) apart =
      elim (Result-cases (update_workspace_trust i j a u r)) [
        | inl (x, refused) ↦ ground (arith, refused)
        | inr (t, e) ↦
            let (before, x) = update_workspace_trust-Changed i j a u r t e in
            rw (e, step) (Changed-keeps i j t before _ x apart)
      ]
