-- ===== src/Registry/Consistent/Changes.antt =====
-- The updates of what is registered in packages/bridge-daemon/src/session/session-registry.ts: each
-- writes one record in place, and keeps whose it is.
use junon.Shared.{ℕ, ◌<◌, String, ◌≡◌, refl, some, List, arith, Option-cases, inl, inr}
use junon.Shared.Maps.{Map, get, set}
use junon.Registry.Data.{
  AdapterRecord, Capability, WorkspaceRoot, WorkspaceRecord, WorkspaceStatus, Trust, Registry, ok,
}
use junon.Registry.Ops.{assert_adapter_ownership, get_workspace, assert_workspace_ownership}
use junon.Registry.Updates.{
  update_capabilities, update_workspace_roots, update_workspace_status, update_workspace_trust,
}
use junon.Registry.Consistent.{IsConsistent, holder}
use junon.Registry.Consistent.Writes.{set_workspace-IsConsistent, change_adapter-IsConsistent}

-- The workspace's record before and after, and that the session's adapter is the one that has it.
pub record Changed (session_id workspace_id : String) (r t : Registry)
    (before after : WorkspaceRecord) : Type 0 where
  pub found : get workspace_id r.workspaces ≡ some before
  pub owner : holder (get before.workspace.adapter_id r.adapters) ≡ some session_id
  pub written : t ≡ record r { workspaces = set workspace_id after r.workspaces }
  pub same_id : after.workspace.workspace_id ≡ before.workspace.workspace_id
  pub same_adapter : after.workspace.adapter_id ≡ before.workspace.adapter_id

Changed-IsConsistent :
    (session_id workspace_id : String) (r t : Registry) (before after : WorkspaceRecord)
    → Changed session_id workspace_id r t before after
    → IsConsistent r
    → IsConsistent t
Changed-IsConsistent session_id workspace_id r t before after x c =
    let named = c.wired.keyed workspace_id before x.found in
    let based = c.wired.based workspace_id before x.found in
    rw x.written (
      set_workspace-IsConsistent workspace_id after r (ground (arith, x.same_id, named))
        (ground (arith, x.same_adapter, based)) c)

-- New roots are taken only from the session whose adapter has the workspace and only with a later
-- epoch; they replace the roots and the epoch, and nothing else of any record.
pub update_workspace_roots-Changed :
    (session_id workspace_id adapter_id : String) (roots : List WorkspaceRoot) (epoch : ℕ)
    (r t : Registry)
    → update_workspace_roots session_id workspace_id adapter_id roots epoch r ≡ ok t
    → (before : WorkspaceRecord) × Changed session_id workspace_id r t before (record before {
      workspace = record before.workspace { roots = roots; workspace_epoch = epoch };
    })
      × (before.workspace.workspace_epoch < epoch)
unfolding update_workspace_roots assert_adapter_ownership
update_workspace_roots-Changed session_id workspace_id adapter_id roots epoch r t e =
    elim (Option-cases (get workspace_id r.workspaces)) [
      | inl absent ↦ absurd (ground (arith, absent))
      | inr (w, found) ↦ (
        w,
        record {
          found = found;
          owner = ground (arith, found);
          written = ground (arith, found);
          same_id = refl;
          same_adapter = refl;
        },
        ground (arith, found),
      )
    ]

-- A status replaces the status alone.
pub update_workspace_status-Changed :
    (session_id : String) (status : WorkspaceStatus) (r t : Registry)
    → update_workspace_status session_id status r ≡ ok t
    → (before : WorkspaceRecord) × Changed session_id status.workspace_id r t before
        (record before { status = status })
unfolding update_workspace_status assert_workspace_ownership get_workspace assert_adapter_ownership
update_workspace_status-Changed session_id status r t e =
    elim (Option-cases (get status.workspace_id r.workspaces)) [
      | inl absent ↦ absurd (ground (arith, absent))
      | inr (w, found) ↦ (
        w,
        record {
          found = found;
          owner = ground (arith, found);
          written = ground (arith, found);
          same_id = refl;
          same_adapter = refl;
        },
      )
    ]

-- A trust level replaces the trust level alone.
pub update_workspace_trust-Changed :
    (session_id workspace_id adapter_id : String) (trust : Trust) (r t : Registry)
    → update_workspace_trust session_id workspace_id adapter_id trust r ≡ ok t
    → (before : WorkspaceRecord) × Changed session_id workspace_id r t before
        (record before { workspace = record before.workspace { trust = trust } })
unfolding update_workspace_trust assert_adapter_ownership
update_workspace_trust-Changed session_id workspace_id adapter_id trust r t e =
    elim (Option-cases (get workspace_id r.workspaces)) [
      | inl absent ↦ absurd (ground (arith, absent))
      | inr (w, found) ↦ (
        w,
        record {
          found = found;
          owner = ground (arith, found);
          written = ground (arith, found);
          same_id = refl;
          same_adapter = refl;
        },
      )
    ]

pub update_workspace_roots-IsConsistent :
    (session_id workspace_id adapter_id : String) (roots : List WorkspaceRoot) (epoch : ℕ)
    (r t : Registry)
    → update_workspace_roots session_id workspace_id adapter_id roots epoch r ≡ ok t
    → IsConsistent r
    → IsConsistent t
update_workspace_roots-IsConsistent session_id workspace_id adapter_id roots epoch r t e c =
    let (w, x, later) =
      update_workspace_roots-Changed session_id workspace_id adapter_id roots epoch r t e in
    Changed-IsConsistent session_id workspace_id r t w _ x c

pub update_workspace_status-IsConsistent :
    (session_id : String) (status : WorkspaceStatus) (r t : Registry)
    → update_workspace_status session_id status r ≡ ok t
    → IsConsistent r
    → IsConsistent t
update_workspace_status-IsConsistent session_id status r t e c =
    let (w, x) = update_workspace_status-Changed session_id status r t e in
    Changed-IsConsistent session_id status.workspace_id r t w _ x c

pub update_workspace_trust-IsConsistent :
    (session_id workspace_id adapter_id : String) (trust : Trust) (r t : Registry)
    → update_workspace_trust session_id workspace_id adapter_id trust r ≡ ok t
    → IsConsistent r
    → IsConsistent t
update_workspace_trust-IsConsistent session_id workspace_id adapter_id trust r t e c =
    let (w, x) = update_workspace_trust-Changed session_id workspace_id adapter_id trust r t e in
    Changed-IsConsistent session_id workspace_id r t w _ x c

pub update_capabilities-IsConsistent :
    (session_id adapter_id : String) (capabilities : Map Capability) (r t : Registry)
    → update_capabilities session_id adapter_id capabilities r ≡ ok t
    → IsConsistent r
    → IsConsistent t
unfolding update_capabilities assert_adapter_ownership
update_capabilities-IsConsistent session_id adapter_id capabilities r t e c =
    elim (Option-cases (get adapter_id r.adapters)) [
      | inl absent ↦ absurd (ground (arith, absent))
      | inr (a, found) ↦
          let b : AdapterRecord = record a {
            adapter = record a.adapter { capabilities = capabilities };
          } in
          let written : t ≡ record r { adapters = set adapter_id b r.adapters } =
            ground (arith, found) in
          let says = c.wired.described adapter_id a found in
          rw written (change_adapter-IsConsistent adapter_id a b r found refl says c)
    ]
