-- ===== src/Uri.antt =====
-- packages/protocol/src/workspace-uri.ts: when a document's URI lies inside a workspace root.
-- `new URL` and `decodeURIComponent` belong to the platform, so they are arguments.
pub mod Segments
pub mod Containment
pub mod Plain
mod Tests
use junon.Shared.{
  String, Bool, true, false, ◌&&◌, ◌||◌, Option, none, some, List, [], ◌∷◌, ◌==◌, if◌then◌else◌,
}
use junon.Shared.Texts.{includes, split}
use Segments.{normalize}

-- The parts of a `URL` object that the check reads.
pub record Url : Type 0 where
  pub protocol : String
  pub username : String
  pub password : String
  pub host : String
  pub search : String
  pub hash : String
  pub pathname : String

-- `none` where the platform's function throws.
pub record UrlPlatform : Type 0 where
  pub new_url : String → Option Url
  pub decode_uri_component : String → Option String

unfoldable pub normalized_uri_segments : UrlPlatform → String → Option (List String)
normalized_uri_segments p pathname = elim (p.decode_uri_component pathname) [
  | none ↦ none
  | some decoded ↦
      if includes 0 decoded || includes 92 decoded then none else normalize [] (split b'/' decoded)
]

-- `rootSegments.every((segment, index) => documentSegments[index] === segment)`
unfoldable pub every_matches : List String → List String → Bool
every_matches [] ds = true
every_matches (r ∷ rs) [] = false
every_matches (r ∷ rs) (d ∷ ds) = d == r && every_matches rs ds

unfoldable pub same_origin : Url → Url → Bool
same_origin d r =
    d.protocol == r.protocol
    && d.username == r.username
    && d.password == r.password
    && d.host == r.host
    && d.search == r.search
    && d.hash == r.hash

within_segments : Option (List String) → Option (List String) → Bool
within_segments none rs = false
within_segments (some ds) none = false
within_segments (some ds) (some rs) = every_matches rs ds

within_url : UrlPlatform → Option Url → Option Url → Bool
within_url p none r = false
within_url p (some d) none = false
within_url p (some d) (some r) =
    same_origin d r
    && within_segments (normalized_uri_segments p d.pathname) (normalized_uri_segments p r.pathname)

unfoldable pub is_uri_within_workspace_root : UrlPlatform → String → String → Bool
unfolding within_url within_segments
is_uri_within_workspace_root p document_uri root_uri =
    within_url p (p.new_url document_uri) (p.new_url root_uri)
