-- ===== src/Uri/Containment.antt =====
-- What packages/protocol/src/workspace-uri.ts promises of a URI that it accepts.
use junon.Shared.{
  String, ◌≡◌, refl, ap, true, Option, none, some, List, [], ◌∷◌, ◌++◌, arith, all, Option-cases,
  inl, inr,
}
use junon.Uri.Segments.{is_plain, normalize-plain}
use junon.Shared.Texts.{split}
use junon.Uri.{
  Url, UrlPlatform, normalized_uri_segments, every_matches, same_origin, within_segments,
  within_url, is_uri_within_workspace_root,
}

every_matches-append :
    (rs ds : List String) → every_matches rs ds ≡ true → (rest : List String) × (ds ≡ rs ++ rest)
unfolding every_matches
every_matches-append [] ds h = (ds, refl)
every_matches-append (r ∷ rs) [] h = cc
every_matches-append (r ∷ rs) (d ∷ ds) h =
    let (rest, e) = every_matches-append rs ds (ground arith) in (rest, ground (arith, e))

every_matches-prefix : (rs rest : List String) → every_matches rs (rs ++ rest) ≡ true
unfolding every_matches
every_matches-prefix [] rest = refl
every_matches-prefix (r ∷ rs) rest = ground (arith, every_matches-prefix rs rest)

every_matches_trans :
    (rs ds es : List String)
    → every_matches rs ds ≡ true
    → every_matches ds es ≡ true
    → every_matches rs es ≡ true
unfolding every_matches
every_matches_trans [] ds es h k = refl
every_matches_trans (r ∷ rs) [] es h k = cc
every_matches_trans (r ∷ rs) (d ∷ ds) [] h k = cc
every_matches_trans (r ∷ rs) (d ∷ ds) (e ∷ es) h k = ground (arith, every_matches_trans rs ds es)

within_segments-prefix :
    (ds rs : Option (List String))
    → within_segments ds rs ≡ true
    → (segments : List String) × (rest : List String) × (ds ≡ some (segments ++ rest))
      × (rs ≡ some segments)
unfolding within_segments
within_segments-prefix none rs h = cc
within_segments-prefix (some ds) none h = cc
within_segments-prefix (some ds) (some rs) h =
    let (rest, e) = every_matches-append rs ds h in (rs, rest, ap some e, refl)

-- What an accepted pair of URIs is made of: both parse, they agree in all but the path, both paths
-- normalise, the root's segments begin the document's, and no segment is empty or a dot segment.
pub record Inside (p : UrlPlatform) (document_uri root_uri : String) : Type 0 where
  pub document : Url
  pub root : Url
  pub segments : List String
  pub rest : List String
  pub document_parses : p.new_url document_uri ≡ some document
  pub root_parses : p.new_url root_uri ≡ some root
  pub origin : same_origin document root ≡ true
  pub root_path : normalized_uri_segments p root.pathname ≡ some segments
  pub document_path : normalized_uri_segments p document.pathname ≡ some (segments ++ rest)
  pub no_dots : all is_plain (segments ++ rest) ≡ true

within_segments_trans :
    (xs ys zs : Option (List String))
    → within_segments xs ys ≡ true
    → within_segments ys zs ≡ true
    → within_segments xs zs ≡ true
unfolding within_segments
within_segments_trans (some xs) (some ys) (some zs) h k = every_matches_trans zs ys xs k h
within_segments_trans none ys zs h k = cc
within_segments_trans (some xs) none zs h k = cc
within_segments_trans (some xs) (some ys) none h k = cc

same_origin_trans :
    (a b c : Url) → same_origin a b ≡ true → same_origin b c ≡ true → same_origin a c ≡ true
unfolding same_origin
same_origin_trans a b c h k = ground arith

module _ (p : UrlPlatform) where
  normalized-plain :
      (pathname : String) (out : List String)
      → normalized_uri_segments p pathname ≡ some out
      → all is_plain out ≡ true
  unfolding normalized_uri_segments all
  normalized-plain pathname out e = elim (Option-cases (p.decode_uri_component pathname)) [
    | inl bad ↦ ground arith
    | inr (decoded, good) ↦ ground (arith, normalize-plain [] (split b'/' decoded) out)
  ]

  within_url-parts :
      (d r : Option Url)
      → within_url p d r ≡ true
      → (document : Url) × (root : Url) × (d ≡ some document)
        × (r ≡ some root)
        × (same_origin document root ≡ true)
        × (within_segments
              (normalized_uri_segments p document.pathname)
              (normalized_uri_segments p root.pathname)
            ≡ true)
  unfolding within_url
  within_url-parts none r h = cc
  within_url-parts (some d) none h = cc
  within_url-parts (some d) (some r) h = (d, r, refl, refl, ground arith, ground arith)

  -- A URI that the check accepts lies below the root, segment by segment, with no dot segment left.
  pub within-Inside :
      (document_uri root_uri : String)
      → is_uri_within_workspace_root p document_uri root_uri ≡ true
      → Inside p document_uri root_uri
  unfolding is_uri_within_workspace_root
  within-Inside document_uri root_uri h =
      let (d, r, ed, er, same, within) = within_url-parts _ _ h in
      let (segments, rest, pd, pr) = within_segments-prefix _ _ within in
      record {
        document = d;
        root = r;
        segments = segments;
        rest = rest;
        document_parses = ed;
        root_parses = er;
        origin = same;
        root_path = pr;
        document_path = pd;
        no_dots = normalized-plain d.pathname (segments ++ rest) pd;
      }

  -- The converse: such a pair is accepted.
  pub Inside-within :
      (document_uri root_uri : String)
      → Inside p document_uri root_uri
      → is_uri_within_workspace_root p document_uri root_uri ≡ true
  unfolding is_uri_within_workspace_root within_url within_segments
  Inside-within document_uri root_uri i =
      rw (i.document_parses, i.root_parses, i.origin, i.document_path, i.root_path)
        (every_matches-prefix i.segments i.rest)

  within_url_trans :
      (a b c : Option Url)
      → within_url p a b ≡ true
      → within_url p b c ≡ true
      → within_url p a c ≡ true
  unfolding within_url
  within_url_trans (some a) (some b) (some c) h k = ground (
    arith,
    same_origin_trans a b c,
    within_segments_trans (normalized_uri_segments p a.pathname)
        (normalized_uri_segments p b.pathname) (normalized_uri_segments p c.pathname),
  )
  within_url_trans none b c h k = cc
  within_url_trans (some a) none c h k = cc
  within_url_trans (some a) (some b) none h k = cc

  -- A document inside a root that is inside another root is inside that other root.
  pub within_trans :
      (document_uri inner_uri outer_uri : String)
      → is_uri_within_workspace_root p document_uri inner_uri ≡ true
      → is_uri_within_workspace_root p inner_uri outer_uri ≡ true
      → is_uri_within_workspace_root p document_uri outer_uri ≡ true
  unfolding is_uri_within_workspace_root
  within_trans document_uri inner_uri outer_uri h k =
      within_url_trans (p.new_url document_uri) (p.new_url inner_uri) (p.new_url outer_uri) h k
