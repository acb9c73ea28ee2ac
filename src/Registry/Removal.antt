-- ===== src/Registry/Removal.antt =====
-- What `#removeAdapter` of packages/bridge-daemon/src/session/session-registry.ts removes.
use junon.Shared.{
  String, ◌≡◌, refl, ◌∙◌, Bool, ◌&&◌, Option, none, some, List, [], ◌∷◌, arith, ◌==◌, map,
  if◌then◌else◌, any, keep, Bool-cases, Option-cases, inl, inr,
}
use junon.Shared.Maps.{Map, get, delete, values, get-delete}
use junon.Shared.Maps.Distinct.{Distinct, any-get, get-any, delete-Distinct}
use junon.Registry.Data.{Workspace, WorkspaceRecord, Registry}
use junon.Registry.Ops.{of_adapter, workspaces_of, delete_all}

named : String → Workspace → Bool
named k w = w.workspace_id == k

get-delete_all :
    (k : String) (ws : List Workspace) (m : Map WorkspaceRecord)
    → get k (delete_all ws m) ≡ (if any (named k) ws then none else get k m)
unfolding delete_all any named
get-delete_all k [] m = refl
get-delete_all k (w ∷ ws) m =
    ground (arith, get-delete_all k ws (delete w.workspace_id m), get-delete w.workspace_id k m)

pub delete_all-Distinct :
    (ws : List Workspace) (m : Map WorkspaceRecord) → Distinct m → Distinct (delete_all ws m)
unfolding delete_all
delete_all-Distinct [] m d = d
delete_all-Distinct (w ∷ ws) m d =
    delete_all-Distinct ws (delete w.workspace_id m) (delete-Distinct w.workspace_id m d)

-- Every workspace is stored under its own ID.
abbrev pub Keyed : Map WorkspaceRecord → Type 0
Keyed m = (k : String) (w : WorkspaceRecord) → get k m ≡ some w → w.workspace.workspace_id ≡ k

matches : String → String → WorkspaceRecord → Bool
matches adapter_id k w = of_adapter adapter_id w.workspace && w.workspace.workspace_id == k

any-keep :
    (adapter_id k : String) (ws : List WorkspaceRecord)
    → any (named k) (keep (of_adapter adapter_id) (map (λ (w : WorkspaceRecord). w.workspace) ws))
      ≡ any (matches adapter_id k) ws
unfolding any keep matches named
any-keep adapter_id k [] = refl
any-keep adapter_id k (w ∷ ws) = ground (arith, any-keep adapter_id k ws)

-- What the removal of an adapter leaves of what a map of workspaces finds.
abbrev pub without : String → Option WorkspaceRecord → Option WorkspaceRecord
without adapter_id none = none
without adapter_id (some w) = if w.workspace.adapter_id == adapter_id then none else some w

any-matches :
    (adapter_id k : String) (m : Map WorkspaceRecord)
    → Keyed m
    → Distinct m
    → (if any (matches adapter_id k) (values m) then none else get k m)
      ≡ without adapter_id (get k m)
unfolding matches
any-matches adapter_id k m keyed d = elim (Bool-cases (any (matches adapter_id k) (values m))) [
  | inl hit ↦
      let (j, w, found, met) = get-any (matches adapter_id k) m d hit in
      let id = keyed j w found in ground (arith, hit, found, met, id)
  | inr miss ↦ elim (Option-cases (get k m)) [
    | inl absent ↦ ground (arith, miss, absent)
    | inr (w, found) ↦
        ground (arith, miss, found, keyed k w found, any-get (matches adapter_id k) k w m found)
  ]
]

-- The workspaces that the loop leaves are those of the other adapters.
pub get-delete_own :
    (adapter_id k : String) (r : Registry)
    → Keyed r.workspaces
    → Distinct r.workspaces
    → get k (delete_all (workspaces_of adapter_id r) r.workspaces)
      ≡ without adapter_id (get k r.workspaces)
unfolding workspaces_of
get-delete_own adapter_id k r keyed d =
    let same = any-keep adapter_id k (values r.workspaces) in
    get-delete_all k (workspaces_of adapter_id r) r.workspaces
    ∙ rw same (any-matches adapter_id k r.workspaces keyed d)
