-- ===== src/Uri/Plain.antt =====
-- A platform for tests: its URIs are all paths of one origin, with nothing encoded.
use junon.Shared.{some}
use junon.Uri.{UrlPlatform}

abbrev pub plain : UrlPlatform
plain = record {
  new_url = λ uri. some (record {
    protocol = "file:";
    username = "";
    password = "";
    host = "";
    search = "";
    hash = "";
    pathname = uri;
  });
  decode_uri_component = λ text. some text;
}
