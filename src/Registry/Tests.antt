-- ===== src/Registry/Tests.antt =====
-- A registry with two adapters, and the theorems at it.
use junon.Shared.{
  ℕ, String, ◌≡◌, ◌≢◌, refl, ap, ◌==◌, true, false, ◌⊎◌, none, some, List, [], ◌∷◌, text_discrete,
  keep, contains, add,
}
use junon.Shared.Maps.{get, has, set, delete, values}
use junon.Registry.Data.{
  Role, adapter, same_role, Connection, Workspace, WorkspaceRoot, RegisterParams, SessionRecord,
  AdapterRecord, WorkspaceRecord, RemovedSession, Registry, new_registry, unknown,
  workspace_not_found, ok, err,
}
use junon.Registry.Ops.{
  open_session, require_session_role, check_workspaces, add_workspaces, add_workspace,
  register_adapter, close_session, remove_adapter, workspaces_of, delete_all,
  assert_adapter_ownership, new_workspace_record, new_adapter,
}
use junon.Registry.Updates.{get_workspace_connection, update_workspace_roots}
use junon.Registry.Consistent.{IsConsistent, holder}
use junon.Registry.Step.{
  Call, opens, registers, closes_workspace, step, run, run-new_registry-IsConsistent,
}
use junon.Registry.Routes.{Serves, Closed, get_workspace_connection-total, close_session-Closed}
use junon.Registry.Ownership.{actor, step-foreign}

abbrev connect : String → Role → ℕ → Connection
connect id role n = record {
  session = record {
    session_id = id;
    role = role;
    protocol_version = "1.0.0";
    client_name = "test";
    connected_at = "2026-01-01T00:00:00.000Z";
    last_activity_at = "2026-01-01T00:00:00.000Z";
  };
  socket = n;
}

abbrev root : WorkspaceRoot
root = record { root_id = "root_1"; name = "w"; uri = "file:///w" }

abbrev folder : String → String → Workspace
folder id adapter_id = record {
  workspace_id = id;
  adapter_id = adapter_id;
  name = "w";
  roots = root ∷ [];
  workspace_epoch = 1;
  trust = unknown;
}

abbrev ide : String → List Workspace → RegisterParams
ide adapter_id ws = record {
  adapter_id = adapter_id;
  name = "code";
  version = "1";
  ide_kind = "vscode";
  ide_version = "1";
  position_encodings = "utf-16" ∷ [];
  capabilities = [];
  workspaces = ws;
}

abbrev calls : List Call
calls =
    opens (connect "s1" adapter 1)
    ∷ opens (connect "s2" adapter 2)
    ∷ registers "s1" (ide "a1" (folder "w1" "a1" ∷ folder "w2" "a1" ∷ []))
    ∷ registers "s2" (ide "a2" (folder "w3" "a2" ∷ []))
    ∷ []

abbrev two : Registry
two = run new_registry calls

run-new_registry-IsConsistent_example : IsConsistent (run new_registry calls)
run-new_registry-IsConsistent_example = run-new_registry-IsConsistent calls

two_workspaces : has "w3" two.workspaces ≡ true
unfolding run step open_session register_adapter require_session_role same_role check_workspaces
    contains add add_workspaces add_workspace get set text_discrete
two_workspaces = refl

get_workspace_connection-total_example :
    ((get "w3" two.workspaces ≡ none)
      × (get_workspace_connection "w3" two ≡ err workspace_not_found))
    ⊎ ((w : WorkspaceRecord) × (a : AdapterRecord) × (s : SessionRecord) × (get "w3" two.workspaces
          ≡ some w)
        × Serves two w a s
        × (get_workspace_connection "w3" two ≡ ok s.connection))
get_workspace_connection-total_example =
    get_workspace_connection-total "w3" two run-new_registry-IsConsistent_example

w3_connection : get_workspace_connection "w3" two ≡ ok (connect "s2" adapter 2)
unfolding get_workspace_connection run step open_session register_adapter require_session_role
    same_role check_workspaces contains add add_workspaces add_workspace get set text_discrete
w3_connection = refl

abbrev gone : RemovedSession
gone = record {
  session = (connect "s1" adapter 1).session;
  adapter = some (new_adapter "s1" (connect "s1" adapter 1).session (ide "a1" []));
  workspaces = folder "w1" "a1" ∷ folder "w2" "a1" ∷ [];
}

s1_ends : (close_session "s1" two).0 ≡ some gone
unfolding close_session remove_adapter workspaces_of delete_all delete values keep run step
    open_session register_adapter require_session_role same_role check_workspaces contains add
    add_workspaces add_workspace get set text_discrete
s1_ends = refl

close_session-Closed_example : Closed "s1" two (close_session "s1" two).1 gone
close_session-Closed_example =
    close_session-Closed "s1" two gone run-new_registry-IsConsistent_example s1_ends

w3_found : get "w3" two.workspaces ≡ some (new_workspace_record (folder "w3" "a2"))
unfolding run step open_session register_adapter require_session_role same_role check_workspaces
    contains add add_workspaces add_workspace get set text_discrete
w3_found = refl

w3_owner : holder (get "a2" two.adapters) ≡ some "s2"
unfolding run step open_session register_adapter require_session_role same_role check_workspaces
    contains add add_workspaces add_workspace get set text_discrete
w3_owner = refl

s1_is_other : actor (closes_workspace "s1" "w3" "a2") ≢ "s2"
unfolding text_discrete
s1_is_other e = let same : true ≡ false = ap (λ (x : String). "s1" == x) e in cc same

step-foreign_example :
    get "w3" (step two (closes_workspace "s1" "w3" "a2")).workspaces
    ≡ some (new_workspace_record (folder "w3" "a2"))
step-foreign_example =
    step-foreign two "w3" "s2" (new_workspace_record (folder "w3" "a2"))
      run-new_registry-IsConsistent_example w3_found w3_owner (closes_workspace "s1" "w3" "a2")
      s1_is_other

abbrev moved : Registry
moved = record two {
  workspaces =
      set "w3"
        (record (new_workspace_record (folder "w3" "a2")) {
          workspace = record (folder "w3" "a2") { roots = []; workspace_epoch = 2 };
        })
        two.workspaces;
}

w3_moves : update_workspace_roots "s2" "w3" "a2" [] 2 two ≡ ok moved
unfolding update_workspace_roots assert_adapter_ownership run step open_session register_adapter
    require_session_role same_role check_workspaces contains add add_workspaces add_workspace get
    set text_discrete
w3_moves = refl
