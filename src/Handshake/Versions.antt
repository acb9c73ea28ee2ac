-- ===== src/Handshake/Versions.antt =====
-- The versions of the protocol in packages/bridge-daemon/src/session/handshake-processor.ts: how they
-- are read, compared, sorted and selected.
pub use junon.Shared.Results.{Fallible, ok, err, ◌>>=◌, ◌>>◌, refuse_if, Result-cases}
use Prim.Native.Char.{code}
use junon.Shared.{
  ℕ, ◌+◌, ◌-◌, ◌*◌, String, Bool, true, false, ◌&&◌, not, Option, none, some, List, [], ◌∷◌, ltb,
  leb, eqb, ◌==◌, if◌then◌else◌, contains,
}
use junon.Shared.Texts.{split}

pub data HandshakeError : Type 0 where
  unstable_version no_version invalid_token invalid_session_id : HandshakeError

abbrev pub Result {ℓ} : Type ℓ → Type ℓ
Result A = Fallible HandshakeError A

pub record Version : Type 0 where
  pub major : ℕ
  pub minor : ℕ
  pub patch : ℕ

is_digit : ℕ → Bool
is_digit c = leb b'0' c && leb c b'9'

-- `[0-9]*`, as the decimal number that it writes after `n`.
digits : ℕ → String → Option ℕ
unfolding is_digit
digits n String.[] = some n
digits n (String.◌∷◌ c s) =
    let rest = digits (10 * n + (code c - b'0')) s in if is_digit (code c) then rest else none

-- `0|[1-9][0-9]*`, by `BigInt`.
number : String → Option ℕ
unfolding digits
number String.[] = none
number (String.◌∷◌ c s) =
    if eqb (code c) b'0' && not (s == "") then none else digits 0 (String.◌∷◌ c s)

version_of : List String → Option Version
unfolding number
version_of (a ∷ b ∷ c ∷ []) = elim (number a) [
  | none ↦ none
  | some major ↦ elim (number b) [
    | none ↦ none
    | some minor ↦ elim (number c) [
      | none ↦ none
      | some patch ↦ some (record { major = major; minor = minor; patch = patch })
    ]
  ]
]
version_of _ = none

unfoldable pub parse_protocol_version : String → Option Version
unfolding version_of
parse_protocol_version version = version_of (split b'.' version)

-- The result of a comparison: -1, 0 or 1.
pub data Sign : Type 0 where
  negative zero_sign positive : Sign

-- One round of the loop over the parts.
unfoldable pub compare_part : ℕ → ℕ → Sign → Sign
compare_part left right rest =
    if ltb left right then negative else if ltb right left then positive else rest

unfoldable pub compare_parts : Version → Version → Sign
unfolding compare_part
compare_parts v w =
    compare_part v.major w.major
      (compare_part v.minor w.minor (compare_part v.patch w.patch zero_sign))

unfoldable pub compare_parsed : Option Version → Option Version → Result Sign
unfolding compare_parts
compare_parsed none w = err unstable_version
compare_parsed (some v) none = err unstable_version
compare_parsed (some v) (some w) = ok (compare_parts v w)

unfoldable pub compare_protocol_versions : String → String → Result Sign
unfolding compare_parsed
compare_protocol_versions left right =
    compare_parsed (parse_protocol_version left) (parse_protocol_version right)

-- `sign <= 0` and `sign >= 0`.
unfoldable pub not_positive : Sign → Bool
not_positive positive = false
not_positive _ = true

unfoldable pub not_negative : Sign → Bool
not_negative negative = false
not_negative _ = true

-- The sort of the constructor, by insertion. A list of one version is not compared.
unfoldable pub insert : String → List String → Result (List String)
insert v [] = ok (v ∷ [])
insert v (u ∷ us) =
    let rest = insert v us in
    do
      sign ← compare_protocol_versions v u
      if not_positive sign then ok (v ∷ u ∷ us) else do later ← rest; ok (u ∷ later)

unfoldable pub sort_versions : List String → Result (List String)
unfolding insert
sort_versions [] = ok []
sort_versions (v ∷ vs) = do rest ← sort_versions vs; insert v rest

-- `new Set(versions)`, with the members seen before.
unfoldable pub distinct : List String → List String → List String
distinct seen [] = []
distinct seen (v ∷ vs) =
    let rest = distinct (v ∷ seen) vs in if contains v seen then distinct seen vs else v ∷ rest

unfoldable pub some_version : List String → Result (List String)
some_version [] = err no_version
some_version (v ∷ vs) = ok (v ∷ vs)

unfoldable pub supported_versions : List String → Result (List String)
supported_versions vs = do sorted ← sort_versions (distinct [] vs); some_version sorted

unfoldable pub upper_bound : Result Sign → Result Bool
upper_bound (err e) = err e
upper_bound (ok sign) = ok (not_positive sign)

-- The test of `findLast`, whose second comparison is made only if the first one holds.
unfoldable pub in_range : String → String → String → Result Bool
unfolding upper_bound
in_range minimum maximum version = do
  low ← compare_protocol_versions version minimum
  if not_negative low then upper_bound (compare_protocol_versions version maximum) else ok false

-- `findLast`: a later version that serves is found first.
unfoldable pub select_version : String → String → List String → Result (Option String)
select_version minimum maximum [] = ok none
select_version minimum maximum (v ∷ vs) = do
  later ← select_version minimum maximum vs
  elim later [
    | some u ↦ ok (some u)
    | none ↦ do serves ← in_range minimum maximum v; ok (if serves then some v else none)
  ]
