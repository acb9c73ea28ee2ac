-- ===== src/Registry/Consistent/Keeps.antt =====
-- The registration of an adapter and what it changes later, in
-- packages/bridge-daemon/src/session/session-registry.ts, keep the maps consistent.
use junon.Shared.{String, ◌≡◌, refl, true, none, some, List, [], ◌∷◌, arith, all, add, inl, inr}
use junon.Shared.Maps.{get, set, delete, get-set}
use junon.Registry.Data.{
  Role, adapter, consumer, same_role, Session, Adapter, AdapterRecord, Workspace, RegisterParams,
  Registry, ok, Result-cases,
}
use junon.Registry.Ops.{
  of_adapter, require_session_role, new_workspace_record, add_workspace, add_workspaces,
  check_workspaces, new_adapter, register_adapter, assert_adapter_ownership, unregister_adapter,
  remove_adapter, get_workspace, assert_workspace_ownership,
}
use junon.Registry.Updates.{open_workspace, close_workspace}
use junon.Registry.Consistent.{IsConsistent, role_of}
use junon.Registry.Consistent.Writes.{
  set_workspace-IsConsistent, delete_workspace-IsConsistent, add_workspaces-IsConsistent,
  set_adapter-IsConsistent,
}
use junon.Registry.Consistent.Sessions.{remove_adapter-IsConsistent}

check_workspaces-all :
    (adapter_id : String) (seen : List String) (ws : List Workspace) (r : Registry)
    → check_workspaces adapter_id seen ws r ≡ ok tt
    → all (of_adapter adapter_id) ws ≡ true
unfolding check_workspaces all
check_workspaces-all adapter_id seen [] r e = refl
check_workspaces-all adapter_id seen (w ∷ ws) r e =
    ground (arith, check_workspaces-all adapter_id (add w.workspace_id seen) ws r)

-- What a registration has checked, and the registry that it writes.
pub record Registered (session_id : String) (params : RegisterParams) (r t : Registry)
    (session : Session) : Type 0 where
  pub role : role_of (get session_id r.sessions) ≡ some adapter
  pub new : get params.adapter_id r.adapters ≡ none
  pub free : get session_id r.adapter_by_session ≡ none
  pub own : all (of_adapter params.adapter_id) params.workspaces ≡ true
  pub unused : check_workspaces params.adapter_id [] params.workspaces r ≡ ok tt
  pub written :
      t
      ≡ add_workspaces params.workspaces (record r {
        adapters =
            set params.adapter_id
              (record { adapter = new_adapter session_id session params; session_id = session_id })
              r.adapters;
        adapter_by_session = set session_id params.adapter_id r.adapter_by_session;
      })

same_role-eq : (a b : Role) → same_role a b ≡ true → a ≡ b
unfolding same_role
same_role-eq adapter adapter e = refl
same_role-eq adapter consumer e = cc
same_role-eq consumer adapter e = cc
same_role-eq consumer consumer e = refl

require_session_role-role :
    (session_id : String) (role : Role) (r : Registry) (session : Session)
    → require_session_role session_id role r ≡ ok session
    → role_of (get session_id r.sessions) ≡ some role
unfolding require_session_role
require_session_role-role session_id role r session e =
    ground (arith, same_role-eq session.role role)

pub register_adapter-Registered :
    (session_id : String) (params : RegisterParams) (r t : Registry)
    (out : Adapter × List Workspace)
    → register_adapter session_id params r ≡ ok (out, t)
    → (session : Session) × Registered session_id params r t session
unfolding register_adapter
register_adapter-Registered session_id params r t out e =
    elim (Result-cases (require_session_role session_id adapter r)) [
      | inl (x, refused) ↦ absurd (ground (arith, refused))
      | inr (session, found) ↦
          let unused : check_workspaces params.adapter_id [] params.workspaces r ≡ ok tt =
            ground (arith, found) in
          (
            session,
            record {
              role = require_session_role-role session_id adapter r session found;
              new = ground (arith, found);
              free = ground (arith, found);
              own = check_workspaces-all params.adapter_id [] params.workspaces r unused;
              unused = unused;
              written = ground (arith, found);
            },
          )
    ]

pub register_adapter-IsConsistent :
    (session_id : String) (params : RegisterParams) (r t : Registry)
    (out : Adapter × List Workspace)
    → register_adapter session_id params r ≡ ok (out, t)
    → IsConsistent r
    → IsConsistent t
register_adapter-IsConsistent session_id params r t out e c =
    let (session, x) = register_adapter-Registered session_id params r t out e in
    let a : AdapterRecord = record {
      adapter = new_adapter session_id session params;
      session_id = session_id;
    } in
    rw x.written (
      add_workspaces-IsConsistent params.adapter_id params.workspaces _ x.own
        (ground (arith, get-set params.adapter_id params.adapter_id a r.adapters))
        (set_adapter-IsConsistent params.adapter_id a r (refl, refl) x.role x.new x.free c))

pub unregister_adapter-IsConsistent :
    (session_id adapter_id : String) (r t : Registry) (gone : List Workspace)
    → unregister_adapter session_id adapter_id r ≡ ok (gone, t)
    → IsConsistent r
    → IsConsistent t
unfolding unregister_adapter
unregister_adapter-IsConsistent session_id adapter_id r t gone e c =
    let removed : t ≡ (remove_adapter adapter_id r).1 = ground arith in
    rw removed (remove_adapter-IsConsistent adapter_id r c)

pub open_workspace-IsConsistent :
    (session_id : String) (w : Workspace) (r t : Registry)
    → open_workspace session_id w r ≡ ok t
    → IsConsistent r
    → IsConsistent t
unfolding open_workspace assert_adapter_ownership add_workspace
open_workspace-IsConsistent session_id w r t e c =
    let opened : t
        ≡ record r { workspaces = set w.workspace_id (new_workspace_record w) r.workspaces } =
      ground arith in
    rw opened
      (set_workspace-IsConsistent w.workspace_id (new_workspace_record w) r refl (ground arith) c)

pub close_workspace-IsConsistent :
    (session_id workspace_id adapter_id : String) (r t : Registry)
    → close_workspace session_id workspace_id adapter_id r ≡ ok t
    → IsConsistent r
    → IsConsistent t
unfolding close_workspace assert_workspace_ownership get_workspace assert_adapter_ownership
close_workspace-IsConsistent session_id workspace_id adapter_id r t e c =
    let closed : t ≡ record r { workspaces = delete workspace_id r.workspaces } = ground arith in
    rw closed (delete_workspace-IsConsistent workspace_id r c)
