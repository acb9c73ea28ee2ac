-- ===== src/Handshake/Tests.antt =====
-- A processor with three versions, and the theorems at it.
use junon.Shared.{String, ◌≡◌, refl, true, none, List, [], ◌∷◌, all, contains, text_discrete, ◌==◌}
use junon.Shared.Texts.{split, after_prefix, all_id_chars, text_length}
use junon.Handshake.Versions.{
  parse_protocol_version, compare_parsed, compare_parts, compare_part, compare_protocol_versions,
  not_positive, not_negative, insert, sort_versions, distinct, some_version, supported_versions,
  in_range, upper_bound, select_version, ok,
}
use junon.Handshake.Processor.{
  Crypto, is_authentication_token, authentication_tokens_equal, Request, consumer_role, valid,
  AuthenticatedSession, accepted, unsupported_protocol_version, Processor, new_processor, first,
  last, unsupported, settle, negotiate, process,
}
use junon.Handshake.Outcomes.{Accepted, process-Accepted}
use junon.Handshake.Total.{is_version}

abbrev given : List String
given = "0.10.0" ∷ "0.1.0" ∷ "1.2.0" ∷ "0.1.0" ∷ []

abbrev sorted : List String
sorted = "0.1.0" ∷ "0.10.0" ∷ "1.2.0" ∷ []

given-sorted : supported_versions given ≡ ok sorted
unfolding supported_versions distinct contains sort_versions some_version insert
    compare_protocol_versions compare_parsed compare_parts compare_part parse_protocol_version split
    not_positive text_discrete
given-sorted = refl

abbrev crypto : Crypto
crypto = record { sha256 = λ s. s; timing_safe_equal = λ s t. s == t }

abbrev token : String
token = "0123456789012345678901234567890123456789abc"

abbrev processor : Processor
processor = record { expected_token = token; versions = sorted }

processor_made : new_processor token given ≡ ok processor
unfolding new_processor is_authentication_token all_id_chars text_length supported_versions distinct
    contains sort_versions some_version insert compare_protocol_versions compare_parsed
    compare_parts compare_part parse_protocol_version split not_positive text_discrete
processor_made = refl

abbrev ask : String → String → Request
ask minimum maximum = record {
  id = "1";
  token = token;
  role = consumer_role;
  client_name = "agent";
  client_version = "1";
  client_topology = "local";
  minimum = minimum;
  maximum = maximum;
}

abbrev session : AuthenticatedSession
session = record {
  session_id = "session_a";
  role = consumer_role;
  protocol_version = "0.10.0";
  client_name = "agent";
  client_version = "1";
  client_topology = "local";
  connected_at = "now";
  last_activity_at = "now";
}

accepts :
    process crypto processor "session_a" "now" none (valid (ask "0.2.0" "1.0.0"))
    ≡ ok (accepted "1" session)
unfolding process negotiate settle authentication_tokens_equal is_authentication_token all_id_chars
    text_length after_prefix select_version in_range upper_bound compare_protocol_versions
    compare_parsed compare_parts compare_part parse_protocol_version split not_positive not_negative
    text_discrete
accepts = refl

process-Accepted_example : Accepted crypto processor "session_a" "now" (ask "0.2.0" "1.0.0") session
process-Accepted_example =
    process-Accepted crypto token given processor "session_a" "now" none (ask "0.2.0" "1.0.0") "1"
      session processor_made accepts

refuses :
    process crypto processor "session_a" "now" none (valid (ask "2.0.0" "2.9.0"))
    ≡ ok (unsupported_protocol_version "1" "0.1.0" "1.2.0")
unfolding process negotiate settle unsupported first last authentication_tokens_equal
    is_authentication_token all_id_chars text_length after_prefix select_version in_range
    upper_bound compare_protocol_versions compare_parsed compare_parts compare_part
    parse_protocol_version split not_positive not_negative text_discrete
refuses = refl

all_versions : all is_version processor.versions ≡ true
unfolding all is_version parse_protocol_version split text_discrete
all_versions = refl

low_version : is_version "0.2.0" ≡ true
unfolding is_version parse_protocol_version split text_discrete
low_version = refl

high_version : is_version "1.0.0" ≡ true
unfolding is_version parse_protocol_version split text_discrete
high_version = refl

well_named : after_prefix "session_" "session_a" ≡ true
unfolding after_prefix
well_named = refl

-- A single version is not read when the processor is made.
unread : supported_versions ("latest" ∷ []) ≡ ok ("latest" ∷ [])
unfolding supported_versions distinct contains sort_versions some_version insert text_discrete
unread = refl
