-- ===== src/EditStore/Data.antt =====
-- The records of packages/bridge-daemon/src/plan/in-memory-edit-store.ts, and the state of the store.
pub use junon.Shared.Results.{Fallible, ok, err, ◌>>=◌, ◌>>◌, refuse_if, Result-cases}
use junon.Shared.{
  ℕ, ◌*◌, ◌-◌, ◌^◌, String, Bool, ◌&&◌, Option, none, some, List, [], not, leb, ltb, if◌then◌else◌,
  ◌≡◌, refl,
}
use junon.Shared.Maps.{Map}
use junon.Clock.{Timestamp}

pub record Revision : Type 0 where
  pub editor_version : Option ℕ
  pub content_hash : String
  pub workspace_epoch : ℕ

pub record Precondition : Type 0 where
  pub uri : String
  pub editor_version : Option ℕ
  pub content_hash : String
  pub workspace_epoch : ℕ

pub record ChangeSummary : Type 0 where
  pub uri : String
  pub edit_count : ℕ

-- The operation, the guarantee and the atomicity are passed on as they came.
pub record EditPlan : Type 0 where
  pub plan_id : String
  pub adapter_id : String
  pub session_id : String
  pub workspace_id : String
  pub expires_at : Timestamp
  pub operation : String
  pub guarantee : String
  pub atomicity : String
  pub preconditions : List Precondition
  pub changes : List ChangeSummary
  pub warnings : List String

pub record UndoToken : Type 0 where
  pub id : String
  pub adapter_id : String
  pub session_id : String
  pub workspace_id : String
  pub expires_at : Option Timestamp

pub record StalePlanReason : Type 0 where
  pub workspace_id : String
  pub uri : String
  pub current_revision : Revision

-- The conditions that a `PROVIDER_FAILED` names, one for each text of the source.
pub data Rule : Type 0 where
  another_adapter another_session another_workspace : Rule
  unreadable_expiry already_expired : Rule
  repeated_precondition another_epoch precondition_outside_roots : Rule
  repeated_change change_without_precondition change_outside_roots : Rule
  repeated_live_id : Rule

-- `EditStoreError` by its code, and the plain `Error` of the ID factory.
pub data StoreError : Type 0 where
  plan_expired plan_not_found precondition_failed : StoreError
  provider_failed : Rule → StoreError
  stale_document : StalePlanReason → StoreError
  no_unique_id : StoreError

abbrev pub Result {ℓ} : Type ℓ → Type ℓ
Result A = Fallible StoreError A

pub record StoredPlan : Type 0 where
  pub public_plan : EditPlan
  pub adapter_plan : EditPlan
  pub consumer_session_id : String
  pub adapter_session_id : String
  pub workspace_epoch : ℕ

pub record StoredUndoToken : Type 0 where
  pub public_token : UndoToken
  pub adapter_token : UndoToken
  pub consumer_session_id : String
  pub adapter_session_id : String

pub record PlanCreationContext : Type 0 where
  pub consumer_session_id : String
  pub adapter_session_id : String
  pub adapter_id : String
  pub workspace_id : String
  pub workspace_epoch : ℕ
  pub workspace_root_uris : List String

pub record UndoCreationContext : Type 0 where
  pub consumer_session_id : String
  pub adapter_session_id : String
  pub adapter_id : String
  pub workspace_id : String

-- The fields of `InMemoryEditStore` that change, and its limits.
pub record EditStore : Type 0 where
  pub plans : Map StoredPlan
  pub internal_plans : List String
  pub invalidation_reasons : Map StalePlanReason
  pub undo_tokens : Map StoredUndoToken
  pub internal_undo_tokens : List String
  pub maximum_plan_lifetime_ms : ℕ
  pub maximum_entries : ℕ
  pub maximum_entries_per_consumer : ℕ

pub record Options : Type 0 where
  pub maximum_plan_lifetime_ms : Option ℕ
  pub maximum_entries : Option ℕ
  pub maximum_entries_per_consumer : Option ℕ
  pub sweep_interval_ms : Option ℕ

abbrev pub max_remembered_invalidations : ℕ
max_remembered_invalidations = 256

-- `value ?? fallback`
abbrev pub or_default {ℓ} : {A : Type ℓ} → Option A → A → A
or_default none d = d
or_default (some a) d = a

-- `Number.isSafeInteger(value) && value >= 1`
is_limit : ℕ → Bool
is_limit n = leb n (2 ^ 53 - 1) && leb 1 n

-- The constructor; `none` where it throws.
unfoldable pub new_store : Options → Option EditStore
unfolding is_limit
new_store o =
    let lifetime = or_default o.maximum_plan_lifetime_ms (5 * 60000) in
    let entries = or_default o.maximum_entries 1024 in
    let per_consumer = or_default o.maximum_entries_per_consumer 128 in
    let interval = or_default o.sweep_interval_ms 30000 in
    if not (is_limit lifetime && is_limit entries && is_limit per_consumer && is_limit interval)
    then none
    else if ltb entries per_consumer
    then none
    else some (record {
      plans = [];
      internal_plans = [];
      invalidation_reasons = [];
      undo_tokens = [];
      internal_undo_tokens = [];
      maximum_plan_lifetime_ms = lifetime;
      maximum_entries = entries;
      maximum_entries_per_consumer = per_consumer;
    })

-- What a successful bind was made of.
pub >>=-eq-ok {ℓ κ} :
    {A : Type ℓ} {B : Type κ} (m : Result A) (f : A → Result B) (b : B)
    → (m >>= f) ≡ ok b
    → (a : A) × (m ≡ ok a) × (f a ≡ ok b)
>>=-eq-ok (ok a) f b h = (a, refl, h)
>>=-eq-ok (err e) f b h = cc
