-- ===== src/EditStore/Lifecycle/Undo.antt =====
-- The life of an undo token in packages/bridge-daemon/src/plan/in-memory-edit-store.ts: shown to the
-- consumer after an edit, and taken back once, in every field as it was shown.
use junon.Shared.{
  ℕ, String, ◌≡◌, ap, ◌∙◌, true, false, none, some, arith, ◌==◌, if◌then◌else◌, inl, inr,
}
use junon.Shared.Maps.{get, get-set, get-delete}
use junon.Clock.{iso, same_text}
use junon.EditStore.Data.{
  UndoToken, StoredUndoToken, UndoCreationContext, EditStore, ok, Result-cases,
}
use junon.EditStore.Removal.{sweep, passed_if_any}
use junon.EditStore.Undo.{
  same_expiry, undo_tokens_equal, publish_token, new_stored_token, store_token, admit_token,
  create_undo_token, find_token, consume_undo_token,
}
use junon.EditStore.Admission.{AdmittedToken, admit_token-Admitted}

undo_tokens_equal_refl :
    (token : UndoToken) (t : ℕ)
    → token.expires_at ≡ some (iso t)
    → undo_tokens_equal token token ≡ true
unfolding undo_tokens_equal same_text
undo_tokens_equal_refl token t e = ground arith

publish_token-parts :
    (now : ℕ) (token : UndoToken) (c : UndoCreationContext) (s : EditStore) (out : UndoToken)
    → AdmittedToken now token c s out
    → (out.session_id ≡ c.consumer_session_id)
      × (out.workspace_id ≡ c.workspace_id)
      × (undo_tokens_equal out out ≡ true)
unfolding publish_token
publish_token-parts now token c s out a = (
  ap (λ (q : UndoToken). q.session_id) a.published,
  ap (λ (q : UndoToken). q.workspace_id) a.published ∙ a.checked.workspace,
  undo_tokens_equal_refl out _ (ap (λ (q : UndoToken). q.expires_at) a.published),
)

store-consume_undo :
    (later : ℕ) (token out : UndoToken) (c : UndoCreationContext) (s : EditStore)
    → out.workspace_id ≡ c.workspace_id
    → undo_tokens_equal out out ≡ true
    → passed_if_any out.expires_at later ≡ false
    → (consume_undo_token later out c.consumer_session_id c.workspace_id
        (store_token out token c s)).0
      ≡ ok (new_stored_token out token c)
unfolding consume_undo_token find_token store_token
store-consume_undo later token out c s same eq fresh =
    ground (arith, get-set out.id out.id (new_stored_token out token c) s.undo_tokens)

-- An undo token that the store has just issued is taken back from its consumer until its time, and
-- gives the adapter's token as it came; the consumer sees its own session.
pub create-consume_undo :
    (draw : ℕ → String) (swept_at now later : ℕ) (token : UndoToken) (c : UndoCreationContext)
    (s : EditStore) (out : UndoToken)
    → (create_undo_token draw swept_at now token c s).0 ≡ ok out
    → passed_if_any out.expires_at later ≡ false
    → ((consume_undo_token later out c.consumer_session_id c.workspace_id
          (create_undo_token draw swept_at now token c s).1).0
        ≡ ok (new_stored_token out token c))
      × (out.session_id ≡ c.consumer_session_id)
unfolding create_undo_token
create-consume_undo draw swept_at now later token c s out e fresh =
    let s' = sweep swept_at s in
    elim (Result-cases (admit_token draw now token c s')) [
      | inl (x, refused) ↦ absurd (ground (arith, refused))
      | inr (p, admitted) ↦
          let same : p ≡ out = ground (arith, admitted) in
          let admitted' : admit_token draw now token c s' ≡ ok out = admitted ∙ ap ok same in
          let a = admit_token-Admitted draw now token c s' out admitted' in
          let (session, workspace, eq) = publish_token-parts now token c s' out a in
          (
            rw (admitted', create_undo_token)
                (store-consume_undo later token out c s' workspace eq fresh),
            session,
          )
    ]

-- What the store has checked of a token that it takes back, and what is left of it.
pub record TakenBack (now : ℕ) (token : UndoToken) (consumer workspace_id : String)
    (s t : EditStore) (p : StoredUndoToken) : Type 0 where
  pub stored : get token.id s.undo_tokens ≡ some p
  pub same_consumer : p.consumer_session_id ≡ consumer
  pub same_workspace : p.public_token.workspace_id ≡ workspace_id
  pub same_adapter : p.public_token.adapter_id ≡ token.adapter_id
  pub same_session : p.public_token.session_id ≡ token.session_id
  pub same_expiry : same_expiry p.public_token.expires_at token.expires_at ≡ true
  pub in_time : passed_if_any p.public_token.expires_at now ≡ false
  pub tokens :
      (k : String) → get k t.undo_tokens ≡ (if token.id == k then none else get k s.undo_tokens)
  pub reserved : t.internal_undo_tokens ≡ s.internal_undo_tokens

-- A token is taken back only from its consumer, for its workspace, before it expires, and if every
-- field is as it was issued; it leaves the store, no other token does, and its adapter's ID stays
-- reserved.
pub consume_undo_token-TakenBack :
    (now : ℕ) (token : UndoToken) (consumer workspace_id : String) (s : EditStore)
    (p : StoredUndoToken)
    → (consume_undo_token now token consumer workspace_id s).0 ≡ ok p
    → TakenBack now token consumer workspace_id s
        (consume_undo_token now token consumer workspace_id s).1
        p
unfolding consume_undo_token find_token undo_tokens_equal
consume_undo_token-TakenBack now token consumer workspace_id s p e =
    let at = λ (k : String). get-delete token.id k s.undo_tokens in
    record {
      stored = ground arith;
      same_consumer = ground arith;
      same_workspace = ground arith;
      same_adapter = ground arith;
      same_session = ground arith;
      same_expiry = ground arith;
      in_time = ground arith;
      tokens = λ k. ground (arith, at k);
      reserved = ground arith;
    }
