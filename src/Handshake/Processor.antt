-- ===== src/Handshake/Processor.antt =====
-- `HandshakeProcessor` of packages/bridge-daemon/src/session/handshake-processor.ts, with the tests on
-- tokens of packages/bridge-daemon/src/security/authentication-token.ts. The digest and its comparison
-- belong to node:crypto, and the classification of a message to the schema's validator.
use junon.Shared.{String, Bool, ◌&&◌, not, Option, none, some, List, [], ◌∷◌, leb, if◌then◌else◌}
use junon.Shared.Texts.{all_id_chars, text_length, after_prefix}
use junon.Handshake.Versions.{
  no_version, invalid_token, invalid_session_id, Sign, compare_protocol_versions, not_positive,
  supported_versions, select_version, Result, ok, err, ◌>>=◌, ◌>>◌, refuse_if,
}

pub record Crypto : Type 0 where
  pub sha256 : String → String
  pub timing_safe_equal : String → String → Bool

-- `/^[A-Za-z0-9_-]{43,512}$/`
unfoldable pub is_authentication_token : String → Bool
is_authentication_token token =
    all_id_chars token && leb 43 (text_length token) && leb (text_length token) 512

unfoldable pub authentication_tokens_equal : Crypto → String → String → Bool
authentication_tokens_equal crypto expected supplied =
    is_authentication_token expected
    && is_authentication_token supplied
    && crypto.timing_safe_equal (crypto.sha256 expected) (crypto.sha256 supplied)

pub data SessionRole : Type 0 where
  adapter_role consumer_role : SessionRole

-- A valid request; the topology is passed on as text.
pub record Request : Type 0 where
  pub id : String
  pub token : String
  pub role : SessionRole
  pub client_name : String
  pub client_version : String
  pub client_topology : String
  pub minimum : String
  pub maximum : String

-- `classifyBridgeHandshakeRequest`
pub data Classified : Type 0 where
  authentication_issue invalid_message : Classified
  valid : Request → Classified

pub record AuthenticatedSession : Type 0 where
  pub session_id : String
  pub role : SessionRole
  pub protocol_version : String
  pub client_name : String
  pub client_version : String
  pub client_topology : String
  pub connected_at : String
  pub last_activity_at : String

-- The response's fields that are not constants; `id` is `none` for null.
pub data Outcome : Type 0 where
  accepted : String → AuthenticatedSession → Outcome
  authentication_failed : Option String → Outcome
  invalid_request : Option String → Outcome
  unsupported_protocol_version : String → String → String → Outcome

pub record Processor : Type 0 where
  pub expected_token : String
  pub versions : List String

-- The constructor, on the versions of the options or of the package.
unfoldable pub new_processor : String → List String → Result Processor
new_processor token versions = do
  refuse_if (not (is_authentication_token token)) invalid_token
  sorted ← supported_versions versions
  ok (record { expected_token = token; versions = sorted })

-- `versions[0]` and `versions.at(-1)`.
unfoldable pub first : List String → Option String
first [] = none
first (v ∷ vs) = some v

unfoldable pub last : List String → Option String
last [] = none
last (v ∷ []) = some v
last (v ∷ w ∷ vs) = last (w ∷ vs)

unfoldable pub unsupported : String → Option String → Option String → Result Outcome
unsupported id (some low) (some high) = ok (unsupported_protocol_version id low high)
unsupported id _ _ = err no_version

new_session : String → String → Request → String → AuthenticatedSession
new_session session_id now request version = record {
  session_id = session_id;
  role = request.role;
  protocol_version = version;
  client_name = request.client_name;
  client_version = request.client_version;
  client_topology = request.client_topology;
  connected_at = now;
  last_activity_at = now;
}

-- The end of `process`, after the selection.
unfoldable pub settle : Processor → String → String → Request → Option String → Result Outcome
unfolding new_session
settle p session_id now request none = unsupported request.id (first p.versions) (last p.versions)
settle p session_id now request (some version) = do
  refuse_if (not (after_prefix "session_" session_id)) invalid_session_id
  ok (accepted request.id (new_session session_id now request version))

is_positive : Sign → Bool
is_positive sign = not (not_positive sign)

unfoldable pub negotiate : Processor → String → String → Request → Result Outcome
unfolding is_positive
negotiate p session_id now request =
    let rest =
      select_version request.minimum request.maximum p.versions
      >>= settle p session_id now request in
    compare_protocol_versions request.minimum request.maximum >>= λ sign.
    if is_positive sign then ok (invalid_request (some request.id)) else rest

-- `process`, of the ID that `recoverResponseId` finds and the classified message, with the ID that the
-- factory draws and the ISO text of the time.
unfoldable pub process :
    Crypto → Processor → String → String → Option String → Classified → Result Outcome
process crypto p session_id now id authentication_issue = ok (authentication_failed id)
process crypto p session_id now id invalid_message = ok (invalid_request id)
process crypto p session_id now id (valid request) =
    if not (authentication_tokens_equal crypto p.expected_token request.token)
    then ok (authentication_failed (some request.id))
    else negotiate p session_id now request
