-- ===== src/EditStore/Tests.antt =====
-- A store with one plan, and the theorems at it.
use junon.EditStore.Admission.{Admitted}
use junon.EditStore.Bounds.{IsBounded, run-new_store-IsBounded}
use junon.EditStore.Step.{Call, creates_plan, consumes_plan, releases_plan, sweeps, step, run}
use junon.EditStore.Removal.Purge.{IsIndexed}
use junon.EditStore.Removal.Loops.{plan_key}
use junon.EditStore.Reservation.{IsReserved}
use junon.EditStore.Reservation.Reach.{start, next, flight_after, is_live, Reach-IsReserved}
use junon.EditStore.Lifecycle.{
  TakenOut, consume_plan-TakenOut, create-consume, create_plan-Admitted,
}
use junon.EditStore.Lifecycle.Stale.{consume-invalidate_document}
use junon.EditStore.Lifecycle.Undo.{TakenBack, consume_undo_token-TakenBack}
use junon.EditStore.Undo.{
  create_undo_token, consume_undo_token, new_stored_token, check_token, check_token_expiry,
  publish_token, admit_token, earliest, find_token, undo_tokens_equal,
}
use junon.Shared.{
  ℕ, ◌+◌, String, ◌≡◌, refl, true, none, some, [], ◌∷◌, arith, text_discrete, any, contains, add,
  keep, List, false,
}
use junon.Shared.Maps.{get, set, delete, values, count}
use junon.Clock.{iso, parse, passed, same_text}
use junon.Uri.Plain.{plain}
use junon.Uri.{is_uri_within_workspace_root, normalized_uri_segments, every_matches, same_origin}
use junon.Shared.Texts.{includes, split, text_length, after_prefix}
use junon.Uri.Segments.{normalize}
use junon.EditStore.Data.{
  Revision, EditPlan, StoredPlan, PlanCreationContext, UndoToken, UndoCreationContext, EditStore,
  Options, new_store, ok, err, plan_not_found, stale_document, provider_failed, repeated_live_id,
}
use junon.EditStore.Ids.{unique_id, is_valid_id}
use junon.EditStore.Removal.{
  internal_key, sweep, purge, invalidate_plans, drop_tokens, delete_plan, invalidate_document,
}
use junon.EditStore.Plans.{
  create_plan, admit_plan, check_plan, check_expiry, check_preconditions, check_changes, publish,
  store_plan, new_stored_plan, consume_plan, find_plan, assert_capacity,
}

abbrev rename : EditPlan
rename = record {
  plan_id = "plan_a";
  adapter_id = "adapter_1";
  session_id = "session_ide";
  workspace_id = "workspace_1";
  expires_at = iso 900000;
  operation = "rename";
  guarantee = "semantic";
  atomicity = "semantic";
  preconditions =
      record { uri = "/w/a.ts"; editor_version = some 3; content_hash = "h3"; workspace_epoch = 1 }
      ∷ [];
  changes = record { uri = "/w/a.ts"; edit_count = 2 } ∷ [];
  warnings = [];
}

abbrev route : PlanCreationContext
route = record {
  consumer_session_id = "session_agent";
  adapter_session_id = "session_ide";
  adapter_id = "adapter_1";
  workspace_id = "workspace_1";
  workspace_epoch = 1;
  workspace_root_uris = "/w" ∷ [];
}

abbrev draw : ℕ → String
draw n = "plan_X"

abbrev defaults : Options
defaults = record {
  maximum_plan_lifetime_ms = none;
  maximum_entries = none;
  maximum_entries_per_consumer = none;
  sweep_interval_ms = none;
}

abbrev empty : EditStore
empty = record {
  plans = [];
  internal_plans = [];
  invalidation_reasons = [];
  undo_tokens = [];
  internal_undo_tokens = [];
  maximum_plan_lifetime_ms = 300000;
  maximum_entries = 1024;
  maximum_entries_per_consumer = 128;
}

empty_is_new : new_store defaults ≡ some empty
unfolding new_store
empty_is_new = refl

-- What the consumer sees of the plan: a new ID, its own session, five minutes.
abbrev shown : EditPlan
shown = record rename { plan_id = "plan_X"; session_id = "session_agent"; expires_at = iso 301000 }

prepared : (create_plan plain draw 1000 1000 rename route empty).0 ≡ ok shown
unfolding create_plan sweep purge invalidate_plans drop_tokens admit_plan check_plan check_expiry
    check_preconditions check_changes publish unique_id is_valid_id after_prefix text_length
    assert_capacity count get values contains add any parse is_uri_within_workspace_root
    normalized_uri_segments every_matches same_origin includes split normalize text_discrete
    internal_key keep
prepared = refl

abbrev held : StoredPlan
held = new_stored_plan shown rename route

abbrev one : EditStore
one = record empty {
  plans = ("plan_X", held) ∷ [];
  internal_plans = internal_key "session_ide" "plan_a" ∷ [];
}

one-IsIndexed : IsIndexed one
unfolding get
one-IsIndexed = record {
  keyed = λ k p e. ground arith;
  distinct_plans = (refl, tt);
  distinct_tokens = tt;
}

one-step : step plain empty (creates_plan draw 1000 1000 rename route) ≡ one
unfolding step create_plan store_plan sweep purge invalidate_plans drop_tokens admit_plan check_plan
    check_expiry check_preconditions check_changes publish unique_id is_valid_id after_prefix
    text_length assert_capacity count get set values contains add any parse
    is_uri_within_workspace_root normalized_uri_segments every_matches same_origin includes split
    normalize text_discrete keep
one-step = refl

taken_out : (consume_plan 2000 "plan_X" "session_agent" "workspace_1" 1 one).0 ≡ ok held
unfolding consume_plan find_plan get delete_plan passed text_discrete
taken_out = refl

create_plan-Admitted_example : Admitted plain 1000 rename route (sweep 1000 empty) shown
create_plan-Admitted_example =
    create_plan-Admitted plain draw 1000 1000 rename route empty shown prepared

-- The adapter's plan is already in the store.
repeated :
    (create_plan plain draw 1000 1000 rename route one).0 ≡ err (provider_failed repeated_live_id)
unfolding create_plan store_plan sweep purge invalidate_plans drop_tokens admit_plan check_plan
    check_expiry check_preconditions check_changes publish unique_id is_valid_id after_prefix
    text_length assert_capacity count get set values contains add any parse passed
    is_uri_within_workspace_root normalized_uri_segments every_matches same_origin includes split
    normalize text_discrete keep internal_key
repeated = refl

create-consume_example :
    ((consume_plan 2000 "plan_X" "session_agent" "workspace_1" 1
        (create_plan plain draw 1000 1000 rename route empty).1).0
      ≡ ok held)
    × (shown.session_id ≡ "session_agent")
    × (shown.workspace_id ≡ "workspace_1")
    × (passed shown.expires_at (1000 + 300000) ≡ true)
    × (shown.changes ≡ rename.changes)
unfolding passed
create-consume_example =
    create-consume plain draw 1000 1000 2000 rename route empty shown prepared refl

consume_plan-TakenOut_example :
    TakenOut 2000 "plan_X" "session_agent" "workspace_1" 1 one
      (consume_plan 2000 "plan_X" "session_agent" "workspace_1" 1 one).1
      held
consume_plan-TakenOut_example =
    consume_plan-TakenOut 2000 "plan_X" "session_agent" "workspace_1" 1 one held one-IsIndexed
      taken_out

abbrev edited : Revision
edited = record { editor_version = some 4; content_hash = "h4"; workspace_epoch = 1 }

consume-invalidate_document_example :
    ((consume_plan 2000 "plan_X" "session_agent" "workspace_1" 1
        (invalidate_document "workspace_1" "/w/a.ts" (some edited) one).1).0
      ≡ err (
          stale_document
            (record { workspace_id = "workspace_1"; uri = "/w/a.ts"; current_revision = edited })))
    × ((consume_plan 3000 "plan_X" "session_agent" "workspace_1" 1
          (consume_plan 2000 "plan_X" "session_agent" "workspace_1" 1
            (invalidate_document "workspace_1" "/w/a.ts" (some edited) one).1).1).0
        ≡ err plan_not_found)
unfolding get any text_discrete
consume-invalidate_document_example =
    consume-invalidate_document one "plan_X" held "workspace_1" "/w/a.ts" edited 2000 3000
      "session_agent" "workspace_1" "session_agent" "workspace_1" 1 1 one-IsIndexed (omega arith)
      refl refl

run-new_store-IsBounded_example :
    IsBounded (run plain empty (creates_plan draw 1000 1000 rename route ∷ sweeps 400000 ∷ []))
run-new_store-IsBounded_example =
    run-new_store-IsBounded plain defaults empty
      (creates_plan draw 1000 1000 rename route ∷ sweeps 400000 ∷ []) empty_is_new

abbrev prepares : Call
prepares = creates_plan draw 1000 1000 rename route

abbrev takes : Call
takes = consumes_plan 2000 "plan_X" "session_agent" "workspace_1" 1

abbrev prepared_store : EditStore
prepared_store = step plain empty prepares

abbrev taken_store : EditStore
taken_store = step plain prepared_store takes

abbrev flying : List String
flying = flight_after prepared_store takes (flight_after empty prepares [])

no_longer_live : is_live (plan_key held) taken_store.plans ≡ false
unfolding is_live step create_plan store_plan sweep purge invalidate_plans drop_tokens admit_plan
    check_plan check_expiry check_preconditions check_changes publish unique_id is_valid_id
    after_prefix text_length assert_capacity count get set values contains add any parse
    is_uri_within_workspace_root normalized_uri_segments every_matches same_origin includes split
    normalize text_discrete keep internal_key consume_plan find_plan delete_plan delete passed
    same_text
no_longer_live = refl

abbrev released_store : EditStore
released_store = step plain taken_store (releases_plan held)

-- The plan is prepared, taken out, released by its route, and its ID is reserved again.
Reach-IsReserved_example :
    IsReserved
      (step plain released_store prepares)
      (flight_after released_store prepares (flight_after taken_store (releases_plan held) flying))
Reach-IsReserved_example = Reach-IsReserved plain (
    next prepares tt (
      next (releases_plan held) no_longer_live
        (next takes tt (next prepares tt (start defaults empty empty_is_new)))))

abbrev undo : UndoToken
undo = record {
  id = "undo_a";
  adapter_id = "adapter_1";
  session_id = "session_ide";
  workspace_id = "workspace_1";
  expires_at = none;
}

abbrev undo_route : UndoCreationContext
undo_route = record {
  consumer_session_id = "session_agent";
  adapter_session_id = "session_ide";
  adapter_id = "adapter_1";
  workspace_id = "workspace_1";
}

abbrev draw_undo : ℕ → String
draw_undo n = "undo_X"

abbrev undo_shown : UndoToken
undo_shown = record undo {
  id = "undo_X";
  session_id = "session_agent";
  expires_at = some (iso 301000);
}

issued : (create_undo_token draw_undo 1000 1000 undo undo_route empty).0 ≡ ok undo_shown
unfolding create_undo_token sweep purge invalidate_plans drop_tokens admit_token check_token
    check_token_expiry publish_token earliest unique_id is_valid_id after_prefix text_length
    assert_capacity count get values contains add text_discrete internal_key keep
issued = refl

abbrev tokens : EditStore
tokens = record empty {
  undo_tokens = ("undo_X", new_stored_token undo_shown undo undo_route) ∷ [];
  internal_undo_tokens = internal_key "session_ide" "undo_a" ∷ [];
}

given_back :
    (consume_undo_token 2000 undo_shown "session_agent" "workspace_1" tokens).0
    ≡ ok (new_stored_token undo_shown undo undo_route)
unfolding consume_undo_token find_token undo_tokens_equal get delete passed same_text text_discrete
given_back = refl

consume_undo_token-TakenBack_example :
    TakenBack 2000 undo_shown "session_agent" "workspace_1" tokens
      (consume_undo_token 2000 undo_shown "session_agent" "workspace_1" tokens).1
      (new_stored_token undo_shown undo undo_route)
consume_undo_token-TakenBack_example =
    consume_undo_token-TakenBack 2000 undo_shown "session_agent" "workspace_1" tokens
      (new_stored_token undo_shown undo undo_route) given_back
