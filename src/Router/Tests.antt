-- ===== src/Router/Tests.antt =====
-- A router with one adapter and one consumer, and the theorems at it.
mod Replies
mod Messages
use junon.Shared.{
  ℕ, String, ◌≡◌, ◌≢◌, refl, ap, ◌==◌, true, false, none, some, List, [], ◌∷◌, arith, text_discrete,
  keep, contains, add,
}
use junon.Shared.Results.{ok, err}
use junon.Shared.Texts.{after_prefix}
use junon.Shared.Maps.{get, has, set, values, count}
use junon.Uri.Plain.{plain}
use junon.EditStore.Data.{EditStore, EditPlan, StoredPlan}
use junon.EditStore.Removal.{internal_key, plan_in_workspace, token_in_workspace}
use junon.EditStore.Removal.Purge.{IsIndexed, Purged}
use junon.Clock.{iso}
use junon.Registry.Data.{
  Role, adapter, consumer, same_role, Connection, native, Workspace, Registry, new_registry,
  unknown,
}
use junon.Registry.Ops.{
  open_session, require_session_role, check_workspaces, add_workspaces, add_workspace,
  register_adapter, get_workspace, new_workspace_record,
}
use junon.Registry.Updates.{get_workspace_connection, get_capabilities, check_named}
use junon.Registry.Consistent.{IsConsistent, holder}
use junon.Registry.Step.{opens, registers, run, step, run-new_registry-IsConsistent, Call}
use junon.Router.Data.{
  active, cancelled, no_edit, Route, Router, Refusal, request_key, key_of, lift,
}
use junon.Router.Table.{
  Asked, is_full, in_flight_of, is_unavailable, needs_capability, is_stale, next_route_id,
  forget_route, cancel_by_consumer,
}
use junon.Router.Requests.{check_capability, new_route, admit_request, route_request}
use junon.Router.Tabled.{IsTabled}
use junon.Router.Steps.{
  requests, cancels, forgets, new_router, run as route_all, run-new_router-IsTabled,
}
use junon.Router.Reuse.{forget_route-loses}
use junon.Router.Notifications.{workspace_closed, trust_changed, apply_notification}
use junon.Router.Foreign.{plan_within, apply_notification-foreign, workspace_closed-drops}
use junon.Router.Routed.{Routed, route_request-Routed}

abbrev connect : String → Role → ℕ → Connection
connect id role n = record {
  session = record {
    session_id = id;
    role = role;
    protocol_version = "0.1.0";
    client_name = "test";
    connected_at = "t";
    last_activity_at = "t";
  };
  socket = n;
}

abbrev folder : Workspace
folder = record {
  workspace_id = "w1";
  adapter_id = "a1";
  name = "w";
  roots = record { root_id = "r"; name = "w"; uri = "/w" } ∷ [];
  workspace_epoch = 1;
  trust = unknown;
}

abbrev calls : List Call
calls =
    opens (connect "s1" adapter 1)
    ∷ opens (connect "s2" adapter 2)
    ∷ opens (connect "c1" consumer 3)
    ∷ registers "s1" (record {
      adapter_id = "a1";
      name = "code";
      version = "1";
      ide_kind = "vscode";
      ide_version = "1";
      position_encodings = "utf-16" ∷ [];
      capabilities = ("symbol/find", record { support = native; detail = "" }) ∷ [];
      workspaces = folder ∷ [];
    })
    ∷ []

abbrev registry : Registry
registry = run new_registry calls

registry-IsConsistent : IsConsistent registry
registry-IsConsistent = run-new_registry-IsConsistent calls

abbrev shown : EditPlan
shown = record {
  plan_id = "plan_X";
  adapter_id = "a1";
  session_id = "c1";
  workspace_id = "w1";
  expires_at = iso 900000;
  operation = "rename";
  guarantee = "semantic";
  atomicity = "semantic";
  preconditions = [];
  changes = [];
  warnings = [];
}

abbrev plan : StoredPlan
plan = record {
  public_plan = shown;
  adapter_plan = shown;
  consumer_session_id = "c1";
  adapter_session_id = "s1";
  workspace_epoch = 1;
}

abbrev store : EditStore
store = record {
  plans = ("plan_X", plan) ∷ [];
  internal_plans = internal_key "s1" "plan_X" ∷ [];
  invalidation_reasons = [];
  undo_tokens = [];
  internal_undo_tokens = [];
  maximum_plan_lifetime_ms = 300000;
  maximum_entries = 1024;
  maximum_entries_per_consumer = 128;
}

store-IsIndexed : IsIndexed store
unfolding get
store-IsIndexed = record {
  keyed = λ k p e. ground arith;
  distinct_plans = (refl, tt);
  distinct_tokens = tt;
}

abbrev router : Router
router = new_router registry store 4 2

abbrev ask : Asked
ask = record {
  consumer_session_id = "c1";
  consumer_id = "number:1";
  method = "symbol/find";
  workspace_id = some "w1";
  handle = none;
  target_document_uri = none;
  search_limit = none;
  edit_operation = no_edit;
}

abbrev draw : ℕ → String
draw n = "route_a"

run-new_router-IsTabled_example : IsTabled (
    route_all router
      (requests draw true true ask ∷ cancels "c1" "number:1" ∷ forgets "route_a" ∷ []))
run-new_router-IsTabled_example =
    run-new_router-IsTabled registry store 4 2
      (requests draw true true ask ∷ cancels "c1" "number:1" ∷ forgets "route_a" ∷ [])

sent_to_adapter : (route_request draw true true ask router).0 ≡ ok "route_a"
unfolding route_request admit_request check_capability new_route lift is_full in_flight_of count
    values keep next_route_id after_prefix get_workspace_connection get_workspace get_capabilities
    check_named needs_capability is_unavailable is_stale request_key run step open_session
    register_adapter require_session_role same_role check_workspaces contains add add_workspaces
    add_workspace get set text_discrete
sent_to_adapter = refl

route_request-Routed_example :
    (workspace_id : String) × (r : Route) × (c : Connection) × (w : Workspace) × Routed ask router
      (route_request draw true true ask router).1
      "route_a"
      workspace_id
      r
      c
      w
route_request-Routed_example =
    route_request-Routed draw true true ask router "route_a" sent_to_adapter

w1_found : get "w1" registry.workspaces ≡ some (new_workspace_record folder)
unfolding run step open_session register_adapter require_session_role same_role check_workspaces
    contains add add_workspaces add_workspace get set text_discrete
w1_found = refl

w1_owner : holder (get "a1" registry.adapters) ≡ some "s1"
unfolding run step open_session register_adapter require_session_role same_role check_workspaces
    contains add add_workspaces add_workspace get set text_discrete
w1_owner = refl

s2_is_other : (◌≢◌ {A = String} "s2" "s1")
unfolding text_discrete
s2_is_other e = let same : true ≡ false = ap (λ (x : String). "s2" == x) e in cc same

plan_found : get "plan_X" store.plans ≡ some plan
unfolding get text_discrete
plan_found = refl

apply_notification-foreign_example :
    (get "w1"
        (apply_notification plain "s2"
          (trust_changed "w1" "a1" unknown)
          router).1.registry.workspaces
      ≡ some (new_workspace_record folder))
    × (plan_within "w1" (
          get "plan_X"
            (apply_notification plain "s2"
              (trust_changed "w1" "a1" unknown)
              router).1.edit_store.plans)
        ≡ plan_within "w1" (get "plan_X" store.plans))
apply_notification-foreign_example =
    apply_notification-foreign plain router "s2" "w1" "plan_X" "s1" (new_workspace_record folder)
      registry-IsConsistent store-IsIndexed w1_found w1_owner s2_is_other
      (trust_changed "w1" "a1" unknown) refl

workspace_closed-drops_example :
    ((e : Refusal) × ((apply_notification plain "s2" (workspace_closed "w1" "a1") router).0
        ≡ err e))
    × ((apply_notification plain "s2" (workspace_closed "w1" "a1") router).1.registry ≡ registry)
    × Purged
        (plan_in_workspace "w1")
        (token_in_workspace "w1")
        store
        (apply_notification plain "s2" (workspace_closed "w1" "a1") router).1.edit_store
workspace_closed-drops_example =
    workspace_closed-drops plain "s2" "w1" "a1" "s1" router (new_workspace_record folder)
      store-IsIndexed w1_found w1_owner s2_is_other

abbrev old : Route
old = record (new_route ask "w1" (connect "s1" adapter 1) "route_a") { state = cancelled }

abbrev new : Route
new = record old { route_id = "route_b"; state = active }

abbrev reused : Router
reused = record router {
  routes = ("route_a", old) ∷ ("route_b", new) ∷ [];
  consumer_requests = (request_key "c1" "number:1", "route_b") ∷ [];
}

forget_route-loses_example :
    (get "route_b" (forget_route "route_a" reused).routes ≡ some new)
    × (has (key_of new) (forget_route "route_a" reused).consumer_requests ≡ false)
    × (cancel_by_consumer "c1" "number:1" (forget_route "route_a" reused)
        ≡ ([], forget_route "route_a" reused))
unfolding get text_discrete new_route
forget_route-loses_example = forget_route-loses reused old new refl refl refl refl refl refl
