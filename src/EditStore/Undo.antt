-- ===== src/EditStore/Undo.antt =====
-- The undo tokens of packages/bridge-daemon/src/plan/in-memory-edit-store.ts.
use junon.Shared.{
  ℕ, ◌+◌, String, Bool, true, false, ◌&&◌, Option, none, some, not, leb, min, ◌==◌, contains, add,
  if◌then◌else◌,
}
use junon.Shared.Maps.{get, set, delete}
use junon.Clock.{Timestamp, iso, parse, same_text}
use junon.EditStore.Data.{
  UndoToken, plan_expired, plan_not_found, provider_failed, another_adapter, another_session,
  another_workspace, unreadable_expiry, already_expired, repeated_live_id, Result, ok, err, ◌>>=◌,
  ◌>>◌, refuse_if, StoredUndoToken, UndoCreationContext, EditStore,
}
use junon.EditStore.Ids.{unique_id}
use junon.EditStore.Removal.{internal_key, release_undo_token, sweep, passed_if_any}
use junon.EditStore.Plans.{assert_capacity}

unfoldable pub same_expiry : Option Timestamp → Option Timestamp → Bool
same_expiry none none = true
same_expiry (some a) (some b) = same_text a b
same_expiry _ _ = false

unfoldable pub undo_tokens_equal : UndoToken → UndoToken → Bool
unfolding same_expiry
undo_tokens_equal left right =
    left.id == right.id
    && left.adapter_id == right.adapter_id
    && left.session_id == right.session_id
    && left.workspace_id == right.workspace_id
    && same_expiry left.expires_at right.expires_at

-- The adapter's expiry, checked; `none` where the token has none.
unfoldable pub check_token_expiry : Option Timestamp → ℕ → Result (Option ℕ)
check_token_expiry none now = ok none
check_token_expiry (some text) now = elim (parse text) [
  | none ↦ err (provider_failed unreadable_expiry)
  | some t ↦ if leb t now then err (provider_failed already_expired) else ok (some t)
]

-- `Math.min(adapterExpiration ?? Number.POSITIVE_INFINITY, limit)`
unfoldable pub earliest : Option ℕ → ℕ → ℕ
earliest none limit = limit
earliest (some t) limit = min t limit

unfoldable pub check_token : ℕ → UndoToken → UndoCreationContext → EditStore → Result (Option ℕ)
unfolding check_token_expiry
check_token now token c s = do
  assert_capacity c.consumer_session_id s
  refuse_if (not (token.adapter_id == c.adapter_id)) (provider_failed another_adapter)
  refuse_if (not (token.session_id == c.adapter_session_id)) (provider_failed another_session)
  refuse_if (not (token.workspace_id == c.workspace_id)) (provider_failed another_workspace)
  expiration ← check_token_expiry token.expires_at now
  refuse_if (contains (internal_key c.adapter_session_id token.id) s.internal_undo_tokens)
      (provider_failed repeated_live_id)
  ok expiration

unfoldable pub publish_token :
    ℕ → String → UndoToken → UndoCreationContext → EditStore → Option ℕ → UndoToken
unfolding earliest
publish_token now id token c s expiration = record token {
  id = id;
  session_id = c.consumer_session_id;
  expires_at = some (iso (earliest expiration (now + s.maximum_plan_lifetime_ms)));
}

abbrev pub new_stored_token : UndoToken → UndoToken → UndoCreationContext → StoredUndoToken
new_stored_token public_token token c = record {
  public_token = public_token;
  adapter_token = token;
  consumer_session_id = c.consumer_session_id;
  adapter_session_id = c.adapter_session_id;
}

unfoldable pub store_token : UndoToken → UndoToken → UndoCreationContext → EditStore → EditStore
store_token public_token token c s = record s {
  undo_tokens = set public_token.id (new_stored_token public_token token c) s.undo_tokens;
  internal_undo_tokens = add (internal_key c.adapter_session_id token.id) s.internal_undo_tokens;
}

-- What `createUndoToken` makes of a swept store, before it writes.
unfoldable pub admit_token :
    (ℕ → String) → ℕ → UndoToken → UndoCreationContext → EditStore → Result UndoToken
admit_token draw now token c s = do
  expiration ← check_token now token c s
  id ← unique_id "undo_" draw s.undo_tokens
  ok (publish_token now id token c s expiration)

unfoldable pub create_undo_token :
    (ℕ → String)
    → ℕ
    → ℕ
    → UndoToken
    → UndoCreationContext
    → EditStore
    → Result UndoToken × EditStore
create_undo_token draw swept_at now token c s₀ =
    let s = sweep swept_at s₀ in
    elim (admit_token draw now token c s) [
      | err e ↦ (err e, s)
      | ok public_token ↦ (ok public_token, store_token public_token token c s)
    ]

-- The stored token that a consumer's token names, if it repeats it in every field.
unfoldable pub find_token : UndoToken → String → String → EditStore → Option StoredUndoToken
unfolding undo_tokens_equal
find_token token consumer_session_id workspace_id s = elim (get token.id s.undo_tokens) [
  | none ↦ none
  | some t ↦
      if t.consumer_session_id == consumer_session_id
        && t.public_token.workspace_id == workspace_id
        && undo_tokens_equal t.public_token token
      then some t
      else none
]

unfoldable pub consume_undo_token :
    ℕ → UndoToken → String → String → EditStore → Result StoredUndoToken × EditStore
consume_undo_token now token consumer_session_id workspace_id s =
    elim (find_token token consumer_session_id workspace_id s) [
      | none ↦ (err plan_not_found, s)
      | some t ↦
          let s' : EditStore = record s { undo_tokens = delete token.id s.undo_tokens } in
          if passed_if_any t.public_token.expires_at now
          then (err plan_expired, release_undo_token t s')
          else (ok t, s')
    ]
