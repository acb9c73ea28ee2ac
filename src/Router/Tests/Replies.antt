-- ===== src/Router/Tests/Replies.antt =====
-- The theorems on responses and edits at a router with one route.
use junon.Shared.{
  ℕ, zero, suc, ◌≡◌, ◌↔◌, refl, true, none, some, [], ◌∷◌, arith, text_discrete, length-keep-le,
  keep, contains, add, all,
}
use junon.Shared.Results.{ok, err}
use junon.Shared.Maps.{get, delete, set, values, count}
use junon.Shared.Json.{
  Json, text, array, object, no_items, item, Fields, no_fields, field, get_field,
}
use junon.Uri.Plain.{plain}
use junon.EditStore.Data.{StoredPlan, UndoToken}
use junon.EditStore.Removal.{delete_plan, sweep, purge}
use junon.Registry.Data.{
  Workspace, Registry, RegistryError, new_registry, adapter, consumer, trusted, same_role,
}
use junon.Registry.Ops.{
  get_workspace, open_session, require_session_role, check_workspaces, add_workspaces,
  add_workspace, register_adapter,
}
use junon.Registry.Updates.{get_workspace_connection, get_capabilities, check_named}
use junon.Registry.Step.{opens, registers, run, step}
use junon.Router.Payload.{
  Symbols, no_symbols, symbol_and, symbol, ModifiedDocument, Result, failure, success,
}
use junon.Router.Data.{active, apply, no_edit, Route, Router, request_key, lift, of_registry}
use junon.Router.Table.{
  expire_route, active_of, in_flight_of, is_full, next_route_id, needs_capability, is_unavailable,
  is_stale,
}
use junon.Router.Tabled.{IsTabled}
use junon.Router.Bounds.{
  routed_symbols_within_bounds, result_of, too_many_locations, routed_symbols, bounded_loop,
  push_items, children_of,
}
use junon.Router.Bounds.Exact.{within_bounds, routed_symbols_within_bounds-exact}
use junon.Router.Results.{assert_routed_document_symbols, is_symbol_method, is_location_method}
use junon.Router.Results.Listed.{Owned, assert_routed_document_symbols-Owned}
use junon.Router.Modified.{
  assert_modified_documents, check_modified, check_planned, check_complete, change_uris,
  preconditions_by_uri, editor_version_advanced, version_advanced,
}
use junon.Router.Notifications.{assert_workspace_document, find_root}
use junon.Uri.{is_uri_within_workspace_root, same_origin, normalized_uri_segments, every_matches}
use junon.Uri.Segments.{normalize}
use junon.Router.Modified.Reported.{Reported, assert_modified_documents-Reported}
use junon.Router.Responses.{
  empty_result, transform_edit_response, check_modification, check_diagnostics_of,
}
use junon.Router.Responses.Tokens.{transform_edit_response-exposes}
use junon.Router.Answers.{Setting, handle_response, is_unbounded}
use junon.Router.Answers.Settled.{Settled, answers, handle_response-Settled}
use junon.Router.Answers.Foreign.{handle_response-foreign}
use junon.Router.Answers.Repeated.{handle_response-repeats}
use junon.Router.Edits.{
  Call, apply_plan, assert_trusted, hand_over, assert_stored_adapter, route_operation,
}
use junon.Router.Requests.{route_request, admit_request, check_capability, new_route}
use junon.EditStore.Plans.{consume_plan, find_plan, total}
use junon.Clock.{passed, parse}
use junon.Shared.Texts.{after_prefix, includes, split}
use junon.Router.Edits.Authority.{Applied, apply_plan-Applied}
use junon.Router.Edits.Spared.{Spares, apply_plan-Spares}
use junon.Router.Tests.{
  connect, folder, registry, store, store-IsIndexed, plan, router, ask, draw, plan_found,
}

-- A symbol with so many levels of children below it.
abbrev nested : ℕ → Json
nested zero = object no_fields
nested (suc n) = object (field "children" (array (item (nested n) no_items)) no_fields)

abbrev reply : ℕ → Fields
reply n = field "id" (text "route_a") (
    field "result" (object (field "symbols" (array (item (nested n) no_items)) no_fields))
      no_fields)

routed_symbols_within_bounds-exact_example :
    routed_symbols_within_bounds 5001 (reply 3) ≡ some (within_bounds (reply 3))
routed_symbols_within_bounds-exact_example =
    routed_symbols_within_bounds-exact 5001 (reply 3) (omega arith)

abbrev pub route : Route
route = record {
  route_id = "route_a";
  method = "document/getSymbols";
  workspace_id = "w1";
  target_document_uri = some "/w/a";
  search_limit = none;
  consumer_id = "number:1";
  consumer_session_id = "c1";
  adapter_session_id = "s1";
  state = active;
  edit_operation = no_edit;
}

abbrev pub busy : Router
busy = record router {
  routes = ("route_a", route) ∷ [];
  consumer_requests = (request_key "c1" "number:1", "route_a") ∷ [];
}

abbrev one_symbol : Symbols
one_symbol =
    symbol_and
      (symbol (record { id = "h1"; adapter_id = "a1"; session_id = "s1"; valid_until_epoch = 1 })
        "/w/a" no_symbols)
      no_symbols

assert_routed_document_symbols-Owned_example :
    (assert_routed_document_symbols plain route one_symbol registry ≡ ok tt)
    ↔ Owned plain route one_symbol registry
assert_routed_document_symbols-Owned_example =
    assert_routed_document_symbols-Owned plain route one_symbol registry

abbrev setting : Setting
setting = record {
  platform = plain;
  parse = λ method value. some (failure "INTERNAL_ERROR" none);
  accepts = λ method answer. true;
  draw = draw;
  swept_at = 0;
  now = 0;
}

handle_response-Settled_example :
    Settled setting route
      (reply 3)
      (failure "INTERNAL_ERROR" none)
      busy
      (handle_response setting (connect "s1" adapter 1) (object (reply 3)) busy).1
      (handle_response setting (connect "s1" adapter 1) (object (reply 3)) busy).0
unfolding get_field get text_discrete same_role
handle_response-Settled_example =
    handle_response-Settled setting (connect "s1" adapter 1) (reply 3) "route_a" route
      (failure "INTERNAL_ERROR" none) busy refl refl refl refl refl

busy-IsTabled : IsTabled busy
unfolding get request_key count values in_flight_of
busy-IsTabled = record {
  distinct = (refl, tt);
  keyed = λ k r e. ground arith;
  live = λ k id e. ground arith;
  all_bounded = omega arith;
  each_bounded = λ c. ground (arith, length-keep-le (active_of c) (route ∷ []));
}

handle_response-foreign_example :
    get "route_a"
      (handle_response setting (connect "s2" adapter 2) (object (reply 3)) busy).1.routes
    ≡ some route
unfolding get text_discrete
handle_response-foreign_example =
    handle_response-foreign setting (connect "s2" adapter 2) (object (reply 3)) "route_a" route busy
      busy-IsTabled refl refl

too_deep : is_unbounded "document/getSymbols" (reply 65) ≡ true
unfolding is_unbounded is_symbol_method is_location_method routed_symbols_within_bounds result_of
    too_many_locations routed_symbols bounded_loop push_items children_of get_field text_discrete
too_deep = refl

handle_response-repeats_example :
    (answers (expire_route "route_a" busy).0 ≡ ("c1", "number:1") ∷ [])
    × (answers
          (handle_response setting
            (connect "s1" adapter 1)
            (object (reply 65))
            (expire_route "route_a" busy).1).0
        ≡ ("c1", "number:1") ∷ [])
unfolding get_field get text_discrete same_role
handle_response-repeats_example =
    handle_response-repeats setting (connect "s1" adapter 1) (reply 65) "route_a" route busy
      busy-IsTabled refl refl refl refl refl too_deep

abbrev trusting : Registry
trusting = run new_registry (
    opens (connect "s1" adapter 1)
    ∷ opens (connect "c1" consumer 3)
    ∷ registers "s1" (record {
      adapter_id = "a1";
      name = "code";
      version = "1";
      ide_kind = "vscode";
      ide_version = "1";
      position_encodings = "utf-16" ∷ [];
      capabilities = [];
      workspaces = (record folder { trust = trusted }) ∷ [];
    })
    ∷ [])

abbrev editing : Router
editing = record router { registry = trusting }

abbrev call : Call
call = record {
  asked = record ask { method = "workspace/applyPlan" };
  workspace_id = "w1";
  now = 0;
  draw = draw;
  forwards = true;
  sent = true;
}

applied : (apply_plan call "plan_X" editing).0 ≡ ok "route_a"
unfolding apply_plan assert_trusted hand_over assert_stored_adapter route_operation consume_plan
    find_plan delete_plan passed parse route_request admit_request check_capability new_route lift
    is_full in_flight_of count values keep next_route_id after_prefix get_workspace_connection
    get_workspace get_capabilities check_named needs_capability is_unavailable is_stale request_key
    run step open_session register_adapter require_session_role same_role check_workspaces contains
    add add_workspaces add_workspace get set delete text_discrete
applied = refl

apply_plan-Applied_example :
    (w : Workspace) × (p : StoredPlan) × (r : Route) × Applied call "plan_X" "route_a" editing
      (apply_plan call "plan_X" editing).1
      w
      p
      r
apply_plan-Applied_example =
    apply_plan-Applied call "plan_X" "route_a" editing store-IsIndexed applied

-- The workspace of `router` is not trusted.
refused : (apply_plan call "plan_X" router).0 ≡ err (of_registry RegistryError.permission_denied)
unfolding apply_plan assert_trusted lift get_workspace run step open_session register_adapter
    require_session_role same_role check_workspaces contains add add_workspaces add_workspace get
    set text_discrete
refused = refl

apply_plan-Spares_example : Spares "plan_X" plan (apply_plan call "plan_X" router).1.edit_store
apply_plan-Spares_example =
    apply_plan-Spares call "plan_X" plan router (of_registry RegistryError.permission_denied)
      store-IsIndexed plan_found refused

abbrev changed_plan : StoredPlan
changed_plan = record plan {
  public_plan = record (plan.public_plan) {
    preconditions =
        record { uri = "/w/a"; editor_version = some 3; content_hash = "h3"; workspace_epoch = 1 }
        ∷ [];
    changes = record { uri = "/w/a"; edit_count = 1 } ∷ [];
  };
}

abbrev modified : ModifiedDocument
modified = record {
  document = record {
    workspace_id = "w1";
    root_id = "r";
    uri = "/w/a";
    revision = record { editor_version = some 4; content_hash = "h4"; workspace_epoch = 1 };
  };
  before_hash = "h3";
  after_hash = "h4";
}

abbrev w1 : Workspace
w1 = record folder { trust = trusted }

w1_there : get_workspace "w1" trusting ≡ ok w1
unfolding get_workspace run step open_session register_adapter require_session_role same_role
    check_workspaces contains add add_workspaces add_workspace get set text_discrete
w1_there = refl

reported :
    assert_modified_documents plain route (modified ∷ []) (some changed_plan) true trusting ≡ ok tt
unfolding assert_modified_documents check_modified check_planned check_complete change_uris
    preconditions_by_uri editor_version_advanced version_advanced assert_workspace_document
    find_root lift get_workspace run step open_session register_adapter require_session_role
    same_role check_workspaces contains add add_workspaces add_workspace get set all text_discrete
    is_uri_within_workspace_root same_origin normalized_uri_segments includes normalize split
    every_matches
reported = refl

assert_modified_documents-Reported_example :
    Reported plain route changed_plan trusting (modified ∷ []) w1
assert_modified_documents-Reported_example =
    assert_modified_documents-Reported plain route changed_plan trusting (modified ∷ []) w1 w1_there
      reported

abbrev token : UndoToken
token = record {
  id = "u";
  adapter_id = "a1";
  session_id = "s1";
  workspace_id = "w1";
  expires_at = none;
}

abbrev outcome : Result
outcome = record empty_result { modified_documents = some (modified ∷ []); undo_token = some token }

abbrev applying : Route
applying = record route { edit_operation = apply changed_plan }

-- A store with room for one plan, which has one.
abbrev full : Router
full = record router {
  registry = trusting;
  edit_store = record store { maximum_entries = 1; maximum_entries_per_consumer = 1 };
}

outcome_checked : check_modification plain applying outcome trusting ≡ ok tt
unfolding check_modification check_diagnostics_of assert_modified_documents check_modified
    check_planned check_complete change_uris preconditions_by_uri editor_version_advanced
    version_advanced assert_workspace_document find_root lift get_workspace run step open_session
    register_adapter require_session_role same_role check_workspaces contains add add_workspaces
    add_workspace get set all text_discrete is_uri_within_workspace_root same_origin
    normalized_uri_segments includes normalize split every_matches
outcome_checked = refl

transform_edit_response-exposes_example :
    (transform_edit_response plain draw 0 0 applying outcome full).0 ≡ ok (success outcome)
unfolding total sweep purge values passed
transform_edit_response-exposes_example =
    transform_edit_response-exposes plain draw 0 0 applying changed_plan outcome token w1 full refl
      outcome_checked refl w1_there refl
