-- ===== src/Handshake/Total.antt =====
-- When `process` of packages/bridge-daemon/src/session/handshake-processor.ts answers, and does not throw.
use junon.Shared.{
  String, ◌≡◌, refl, Bool, true, Option, none, List, [], ◌∷◌, arith, all, Option-cases, inl, inr,
}
use junon.Shared.Maps.{is_some}
use junon.Shared.Texts.{after_prefix}
use junon.Handshake.Versions.{
  Sign, parse_protocol_version, compare_parts, compare_parsed, compare_protocol_versions,
  upper_bound, in_range, select_version, some_version, supported_versions, sort_versions, distinct,
  ok, Result-cases,
}
use junon.Handshake.Processor.{
  Crypto, Request, valid, Outcome, Processor, new_processor, process, first, last, negotiate,
  settle, unsupported,
}

-- A version that the pattern reads.
unfoldable pub is_version : String → Bool
is_version v = is_some (parse_protocol_version v)

compare_total :
    (u v : String)
    → is_version u ≡ true
    → is_version v ≡ true
    → (sign : Sign) × (compare_protocol_versions u v ≡ ok sign)
unfolding is_version compare_protocol_versions compare_parsed
compare_total u v h k = elim (Option-cases (parse_protocol_version u)) [
  | inl stop ↦ absurd (ground (arith, stop))
  | inr (a, pu) ↦ elim (Option-cases (parse_protocol_version v)) [
    | inl stop ↦ absurd (ground (arith, stop))
    | inr (b, pv) ↦ (compare_parts a b, ground (arith, pu, pv))
  ]
]

in_range_total :
    (minimum maximum v : String)
    → is_version minimum ≡ true
    → is_version maximum ≡ true
    → is_version v ≡ true
    → (b : Bool) × (in_range minimum maximum v ≡ ok b)
unfolding in_range upper_bound
in_range_total minimum maximum v h k l =
    let (low, made) = compare_total v minimum l h in
    let (high, there) = compare_total v maximum l k in
    elim (Result-cases (in_range minimum maximum v)) [
      | inl (x, stop) ↦ absurd (ground (arith, made, there, stop))
      | inr found ↦ found
    ]

select_version_total :
    (minimum maximum : String) (vs : List String)
    → is_version minimum ≡ true
    → is_version maximum ≡ true
    → all is_version vs ≡ true
    → (o : Option String) × (select_version minimum maximum vs ≡ ok o)
unfolding select_version all
select_version_total minimum maximum [] h k l = (none, refl)
select_version_total minimum maximum (v ∷ vs) h k l =
    let (later, done) = select_version_total minimum maximum vs h k (ground arith) in
    let (b, tested) = in_range_total minimum maximum v h k (ground arith) in
    elim (Result-cases (select_version minimum maximum (v ∷ vs))) [
      | inl (x, stop) ↦ absurd (ground (arith, done, tested, stop))
      | inr found ↦ found
    ]

last-is_some : (v : String) (vs : List String) → is_some (last (v ∷ vs)) ≡ true
unfolding last
last-is_some v [] = refl
last-is_some v (w ∷ ws) = last-is_some w ws

some_version-ends :
    (vs out : List String)
    → some_version vs ≡ ok out
    → (is_some (first out) ≡ true) × (is_some (last out) ≡ true)
unfolding some_version first
some_version-ends [] out e = cc
some_version-ends (v ∷ vs) out e =
    let same : out ≡ v ∷ vs = ground arith in rw same (refl, last-is_some v vs)

new_processor-ends :
    (token : String) (versions : List String) (p : Processor)
    → new_processor token versions ≡ ok p
    → (is_some (first p.versions) ≡ true) × (is_some (last p.versions) ≡ true)
unfolding new_processor supported_versions
new_processor-ends token versions p made =
    elim (Result-cases (sort_versions (distinct [] versions))) [
      | inl (x, stop) ↦ absurd (ground (arith, stop))
      | inr (sorted, done) ↦ some_version-ends sorted p.versions (ground (arith, done))
    ]

-- A processor of the constructor answers a valid request, if its versions and the ends of the
-- range in the request are versions, and the factory draws a well-formed ID.
pub process-answers :
    (crypto : Crypto) (token : String) (versions : List String) (p : Processor)
    (session_id now : String) (id : Option String) (request : Request)
    → new_processor token versions ≡ ok p
    → all is_version p.versions ≡ true
    → is_version request.minimum ≡ true
    → is_version request.maximum ≡ true
    → after_prefix "session_" session_id ≡ true
    → (outcome : Outcome) × (process crypto p session_id now id (valid request) ≡ ok outcome)
unfolding process negotiate settle unsupported
process-answers crypto token versions p session_id now id request made own h k named =
    let ends = new_processor-ends token versions p made in
    let (sign, ordered) = compare_total request.minimum request.maximum h k in
    let (o, chosen) = select_version_total request.minimum request.maximum p.versions h k own in
    elim (Result-cases (process crypto p session_id now id (valid request))) [
      | inl (x, stop) ↦ absurd (ground (arith, ordered, chosen, ends, stop))
      | inr answered ↦ answered
    ]
