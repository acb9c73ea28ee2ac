-- ===== src/Registry/Consistent/Writes.antt =====
-- The single writes to the maps of packages/bridge-daemon/src/session/session-registry.ts keep them
-- consistent.
use junon.Shared.{
  String, ◌≡◌, refl, true, none, some, List, [], ◌∷◌, arith, all, Option-cases, inl, inr,
}
use junon.Shared.Maps.{get, has, set, delete, get-set, get-delete}
use junon.Shared.Maps.Distinct.{set-Distinct, delete-Distinct}
use junon.Registry.Data.{adapter, AdapterRecord, Workspace, WorkspaceRecord, Registry}
use junon.Registry.Ops.{
  of_adapter, workspaces_of, remove_adapter, add_workspace, add_workspaces, new_workspace_record,
}
use junon.Registry.Removal.{get-delete_own, delete_all-Distinct}
use junon.Registry.Consistent.{IsWired, IsConsistent, role_of}

-- A write of a workspace whose adapter is registered, under its own ID.
pub set_workspace-IsConsistent :
    (k : String) (w : WorkspaceRecord) (r : Registry)
    → w.workspace.workspace_id ≡ k
    → has w.workspace.adapter_id r.adapters ≡ true
    → IsConsistent r
    → IsConsistent (record r { workspaces = set k w r.workspaces })
set_workspace-IsConsistent k w r named there c =
    let x = c.wired in
    let at = λ (j : String). get-set k j w r.workspaces in
    record {
      wired = record {
        keyed = λ j v e. ground (arith, at j, x.keyed j v);
        distinct = set-Distinct k w r.workspaces x.distinct;
        based = λ j v e. ground (arith, at j, x.based j v);
        described = x.described;
        owned = x.owned;
        held = x.held;
      };
      serving = c.serving;
    }

pub delete_workspace-IsConsistent :
    (k : String) (r : Registry)
    → IsConsistent r
    → IsConsistent (record r { workspaces = delete k r.workspaces })
delete_workspace-IsConsistent k r c =
    let x = c.wired in
    let at = λ (j : String). get-delete k j r.workspaces in
    record {
      wired = record {
        keyed = λ j v e. ground (arith, at j, x.keyed j v);
        distinct = delete-Distinct k r.workspaces x.distinct;
        based = λ j v e. ground (arith, at j, x.based j v);
        described = x.described;
        owned = x.owned;
        held = x.held;
      };
      serving = c.serving;
    }

pub add_workspaces-IsConsistent :
    (adapter_id : String) (ws : List Workspace) (r : Registry)
    → all (of_adapter adapter_id) ws ≡ true
    → has adapter_id r.adapters ≡ true
    → IsConsistent r
    → IsConsistent (add_workspaces ws r)
unfolding add_workspaces add_workspace all
add_workspaces-IsConsistent adapter_id [] r own there c = c
add_workspaces-IsConsistent adapter_id (w ∷ ws) r own there c =
    add_workspaces-IsConsistent adapter_id ws (add_workspace w r) (ground arith) there
      (set_workspace-IsConsistent w.workspace_id (new_workspace_record w) r refl (ground arith) c)

-- An adapter that is new, for a session that has none and is an adapter's.
pub set_adapter-IsConsistent :
    (k : String) (a : AdapterRecord) (r : Registry)
    → (a.adapter.adapter_id ≡ k) × (a.adapter.session_id ≡ a.session_id)
    → role_of (get a.session_id r.sessions) ≡ some adapter
    → get k r.adapters ≡ none
    → get a.session_id r.adapter_by_session ≡ none
    → IsConsistent r
    → IsConsistent (record r {
      adapters = set k a r.adapters;
      adapter_by_session = set a.session_id k r.adapter_by_session;
    })
set_adapter-IsConsistent k a r says role new free c =
    let x = c.wired in
    let at = λ (j : String). get-set k j a r.adapters in
    let by = λ (j : String). get-set a.session_id j k r.adapter_by_session in
    record {
      wired = record {
        keyed = x.keyed;
        distinct = x.distinct;
        based = λ j v e. ground (arith, at v.workspace.adapter_id, x.based j v);
        described = λ j b e. ground (arith, at j, x.described j b);
        owned = λ j b e. ground (arith, at j, by b.session_id, x.owned j b);
        held = λ i j e. ground (arith, at j, by i, x.held i j);
      };
      serving = λ j b e. ground (arith, at j, c.serving j b);
    }

-- A write to an adapter's record in place.
pub change_adapter-IsConsistent :
    (k : String) (a b : AdapterRecord) (r : Registry)
    → get k r.adapters ≡ some a
    → b.session_id ≡ a.session_id
    → (b.adapter.adapter_id ≡ k) × (b.adapter.session_id ≡ b.session_id)
    → IsConsistent r
    → IsConsistent (record r { adapters = set k b r.adapters })
change_adapter-IsConsistent k a b r found same says c =
    let x = c.wired in
    let at = λ (j : String). get-set k j b r.adapters in
    record {
      wired = record {
        keyed = x.keyed;
        distinct = x.distinct;
        based = λ j v e. ground (arith, at v.workspace.adapter_id, x.based j v);
        described = λ j d e. ground (arith, at j, x.described j d);
        owned = λ j d e. ground (arith, at j, x.owned j d, x.owned k a);
        held = λ i j e. ground (arith, at j, x.held i j);
      };
      serving = λ j d e. ground (arith, at j, c.serving j d, c.serving k a);
    }

-- `#removeAdapter`, of what the registry held before.
pub remove_adapter-IsWired :
    (k : String) (r : Registry) → IsWired r → IsWired (remove_adapter k r).1
unfolding remove_adapter
remove_adapter-IsWired k r x = elim (Option-cases (get k r.adapters)) [
  | inl absent ↦ rw (absent, remove_adapter) x
  | inr (a, found) ↦
      rw (found, remove_adapter)
        (let at = λ (j : String). get-delete k j r.adapters in
          let by = λ (j : String). get-delete a.session_id j r.adapter_by_session in
          let left = λ (j : String). get-delete_own k j r x.keyed x.distinct in
          record {
            keyed = λ j v e. ground (arith, left j, x.keyed j v);
            distinct = delete_all-Distinct (workspaces_of k r) r.workspaces x.distinct;
            based = λ j v e. ground (arith, left j, at v.workspace.adapter_id, x.based j v);
            described = λ j b e. ground (arith, at j, x.described j b);
            owned = λ j b e. ground (arith, at j, by b.session_id, x.owned j b, x.owned k a);
            held = λ i j e. ground (arith, at j, by i, x.held i j, x.owned k a);
          })
]
