-- ===== src/Uri/Segments.antt =====
-- Path segments, split at `/` and normalised, as `normalizedUriSegments` of
-- packages/protocol/src/workspace-uri.ts does.
use junon.Shared.{
  String, ◌≡◌, refl, Bool, true, ◌||◌, Option, none, some, List, [], ◌∷◌, arith, ◌==◌, not, all,
  Option-cases, inl, inr, if◌then◌else◌,
}

-- `segments.push` writes at the end, and `segments.pop` takes from there.
push : String → List String → List String
push s [] = s ∷ []
push s (t ∷ ts) = t ∷ push s ts

drop_last : String → List String → List String
drop_last t [] = []
drop_last t (u ∷ us) = t ∷ drop_last u us

-- `none` where `..` leads above the root.
pop : List String → Option (List String)
unfolding drop_last
pop [] = none
pop (t ∷ ts) = some (drop_last t ts)

-- One round of the loop over the segments.
advance : List String → String → Option (List String)
unfolding push pop
advance segments s =
    if s == "" || s == "."
    then some segments
    else if s == ".."
    then pop segments
    else some (push s segments)

unfoldable pub normalize : List String → List String → Option (List String)
unfolding advance
normalize segments [] = some segments
normalize segments (s ∷ rest) = elim (advance segments s) [
  | none ↦ none
  | some next ↦ normalize next rest
]

-- A segment that stands for a name: not empty, and no dot segment.
unfoldable pub is_plain : String → Bool
is_plain s = not (s == "" || s == "." || s == "..")

push-plain :
    (s : String) (ts : List String)
    → is_plain s ≡ true
    → all is_plain ts ≡ true
    → all is_plain (push s ts) ≡ true
unfolding push all
push-plain s [] h k = ground arith
push-plain s (t ∷ ts) h k = ground (arith, push-plain s ts)

drop_last-plain :
    (t : String) (ts : List String)
    → all is_plain (t ∷ ts) ≡ true
    → all is_plain (drop_last t ts) ≡ true
unfolding drop_last all
drop_last-plain t [] k = refl
drop_last-plain t (u ∷ us) k = ground (arith, drop_last-plain u us)

advance-plain :
    (segments : List String) (s : String) (next : List String)
    → all is_plain segments ≡ true
    → advance segments s ≡ some next
    → all is_plain next ≡ true
unfolding advance is_plain
advance-plain [] s next k e = ground (arith, push-plain s [])
advance-plain (t ∷ ts) s next k e = ground (arith, push-plain s (t ∷ ts), drop_last-plain t ts)

pub normalize-plain :
    (segments rest : List String) (out : List String)
    → all is_plain segments ≡ true
    → normalize segments rest ≡ some out
    → all is_plain out ≡ true
unfolding normalize
normalize-plain segments [] out k e = ground arith
normalize-plain segments (s ∷ rest) out k e = elim (Option-cases (advance segments s)) [
  | inl stop ↦ cc stop
  | inr (next, go) ↦
      normalize-plain next rest out (advance-plain segments s next k go) (rw (go, normalize) at e)
]
