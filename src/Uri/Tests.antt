-- ===== src/Uri/Tests.antt =====
-- The containment check at concrete paths.
use junon.Shared.{◌≡◌, refl, true, false, text_discrete}
use junon.Uri.{is_uri_within_workspace_root, normalized_uri_segments, every_matches, same_origin}
use junon.Shared.Texts.{includes, split}
use junon.Uri.Segments.{normalize}
use junon.Uri.Containment.{Inside, within-Inside}
use junon.Uri.Plain.{plain}

accepts_below : is_uri_within_workspace_root plain "/w/src/./a.ts" "/w" ≡ true
unfolding is_uri_within_workspace_root normalized_uri_segments every_matches same_origin includes
    split normalize text_discrete
accepts_below = refl

rejects_escape : is_uri_within_workspace_root plain "/w/../etc/passwd" "/w" ≡ false
unfolding is_uri_within_workspace_root normalized_uri_segments every_matches same_origin includes
    split normalize text_discrete
rejects_escape = refl

accepts_inner : is_uri_within_workspace_root plain "/w/src" "/w" ≡ true
unfolding is_uri_within_workspace_root normalized_uri_segments every_matches same_origin includes
    split normalize text_discrete
accepts_inner = refl

accepts_deep : is_uri_within_workspace_root plain "/w/src/./a.ts" "/w/src" ≡ true
unfolding is_uri_within_workspace_root normalized_uri_segments every_matches same_origin includes
    split normalize text_discrete
accepts_deep = refl

within-Inside_example : Inside plain "/w/src/./a.ts" "/w"
within-Inside_example = within-Inside plain "/w/src/./a.ts" "/w" accepts_below
