-- ===== src/Handshake/Selection.antt =====
-- What the constructor and `findLast` of packages/bridge-daemon/src/session/handshake-processor.ts make
-- of the supported versions.
use junon.Shared.{
  String, ◌≡◌, ap, ◌∙◌, Bool, true, false, ◌&&◌, ◌||◌, not, none, some, List, [], ◌∷◌, arith, all,
  inl, inr, ◌==◌, contains,
}
use junon.Handshake.Versions.{
  compare_protocol_versions, insert, sort_versions, distinct, some_version, supported_versions,
  upper_bound, in_range, select_version, ok, Result-cases,
}
use junon.Handshake.Order.{at_most, at_most_flip, at_most_refl, ascending, insert-ascending}

contains-insert :
    (w v : String) (us out : List String)
    → insert v us ≡ ok out
    → contains w out ≡ (v == w || contains w us)
unfolding insert contains
contains-insert w v [] out e = ground arith
contains-insert w v (u ∷ us) out e = elim (Result-cases (compare_protocol_versions v u)) [
  | inl (x, stop) ↦ ground (arith, stop)
  | inr (sign, made) ↦ elim (Result-cases (insert v us)) [
    | inl (x, stop) ↦ ground (arith, made, stop)
    | inr (later, done) ↦ ground (arith, made, done, contains-insert w v us later done)
  ]
]

contains-distinct :
    (w : String) (seen vs : List String)
    → contains w (distinct seen vs) ≡ (contains w vs && not (contains w seen))
unfolding distinct contains
contains-distinct w seen [] = ground arith
contains-distinct w seen (v ∷ vs) =
    ground (arith, contains-distinct w seen vs, contains-distinct w (v ∷ seen) vs)

sort_versions-ascending :
    (vs out : List String)
    → sort_versions vs ≡ ok out
    → (ascending out ≡ true) × ((w : String) → contains w out ≡ contains w vs)
unfolding sort_versions ascending contains
sort_versions-ascending [] out e = (ground arith, λ w. ground arith)
sort_versions-ascending (v ∷ vs) out e = elim (Result-cases (sort_versions vs)) [
  | inl (x, stop) ↦ absurd (ground (arith, stop))
  | inr (rest, done) ↦
      let put : insert v rest ≡ ok out = ground (arith, done) in
      let (sorted, same) = sort_versions-ascending vs rest done in
      (
        insert-ascending v rest out put sorted,
        λ w. ground (arith, contains-insert w v rest out put, same w),
      )
]

some_version_same : (vs out : List String) → some_version vs ≡ ok out → vs ≡ out
unfolding some_version
some_version_same [] out e = cc
some_version_same (v ∷ vs) out e = ground arith

-- The supported versions that the constructor keeps are those that it was given, each before the
-- later ones.
pub supported_versions-ascending :
    (vs out : List String)
    → supported_versions vs ≡ ok out
    → (ascending out ≡ true) × ((w : String) → contains w out ≡ contains w vs)
unfolding supported_versions contains
supported_versions-ascending vs out e = elim (Result-cases (sort_versions (distinct [] vs))) [
  | inl (x, stop) ↦ absurd (ground (arith, stop))
  | inr (sorted, done) ↦
      let same : sorted ≡ out = some_version_same sorted out (ground (arith, done)) in
      let (up, members) = sort_versions-ascending (distinct [] vs) out (done ∙ ap ok same) in
      (up, λ w. ground (arith, members w, contains-distinct w [] vs))
]

in_range-eq :
    (minimum maximum v : String) (b : Bool)
    → in_range minimum maximum v ≡ ok b
    → b ≡ (at_most minimum v && at_most v maximum)
unfolding in_range upper_bound
in_range-eq minimum maximum v b e = elim (Result-cases (compare_protocol_versions v minimum)) [
  | inl (x, stop) ↦ ground (arith, stop)
  | inr (low, made) ↦ elim (Result-cases (compare_protocol_versions v maximum)) [
    | inl (x, stop) ↦ ground (arith, made, stop, at_most_flip v minimum low made)
    | inr (high, there) ↦
        unfold at_most in ground (arith, made, there, at_most_flip v minimum low made)
  ]
]

-- No version of the list is in the range.
abbrev pub NoneInRange : String → String → List String → Type 0
NoneInRange minimum maximum vs =
    (u : String) → contains u vs ≡ true → (at_most minimum u && at_most u maximum) ≡ false

-- A version of the list, in the range, and no other one of the list in the range is above it.
pub record Highest (minimum maximum : String) (vs : List String) (v : String) : Type 0 where
  pub supported : contains v vs ≡ true
  pub from_minimum : at_most minimum v ≡ true
  pub to_maximum : at_most v maximum ≡ true
  pub highest :
      (u : String)
      → contains u vs ≡ true
      → (at_most minimum u && at_most u maximum) ≡ true
      → at_most u v ≡ true

-- The lack of a version is reported only if none in the range is supported.
pub select_version-none :
    (minimum maximum : String) (vs : List String)
    → select_version minimum maximum vs ≡ ok none
    → NoneInRange minimum maximum vs
unfolding select_version contains
select_version-none minimum maximum [] e u member = cc
select_version-none minimum maximum (v ∷ vs) e u member =
    elim (Result-cases (select_version minimum maximum vs)) [
      | inl (x, stop) ↦ ground (arith, stop)
      | inr (none, later) ↦ elim (Result-cases (in_range minimum maximum v)) [
        | inl (x, stop) ↦ ground (arith, later, stop)
        | inr (b, tested) ↦ ground (
          arith,
          later,
          tested,
          in_range-eq minimum maximum v b tested,
          select_version-none minimum maximum vs later u,
        )
      ]
      | inr (some w, later) ↦ ground (arith, later)
    ]

own_at_most : (u v : String) → at_most u v ≡ true → at_most u u ≡ true
unfolding at_most
own_at_most u v h = elim (Result-cases (compare_protocol_versions u v)) [
  | inl (x, stop) ↦ ground (arith, stop)
  | inr (sign, made) ↦ unfold at_most in ground (arith, at_most_refl u sign v made)
]

pub member-at_most :
    (u v : String) (vs : List String)
    → all (at_most v) vs ≡ true
    → contains u vs ≡ true
    → at_most v u ≡ true
unfolding all contains
member-at_most u v [] h k = cc
member-at_most u v (w ∷ ws) h k = ground (arith, member-at_most u v ws)

-- `findLast` on versions in their order: what it returns is supported and in the range, and no
-- supported version in the range is above it.
pub select_version-Highest :
    (minimum maximum : String) (vs : List String) (v : String)
    → ascending vs ≡ true
    → select_version minimum maximum vs ≡ ok (some v)
    → Highest minimum maximum vs v
unfolding select_version ascending contains
select_version-Highest minimum maximum [] v up e = absurd (ground arith)
select_version-Highest minimum maximum (u ∷ us) v up e =
    elim (Result-cases (select_version minimum maximum us)) [
      | inl (x, stop) ↦ absurd (ground (arith, stop))
      | inr (none, later) ↦ elim (Result-cases (in_range minimum maximum u)) [
        | inl (x, stop) ↦ absurd (ground (arith, later, stop))
        | inr (b, tested) ↦
            let b_is = in_range-eq minimum maximum u b tested in
            let rest = select_version-none minimum maximum us later in
            record {
              supported = ground (arith, later, tested, b_is);
              from_minimum = ground (arith, later, tested, b_is);
              to_maximum = ground (arith, later, tested, b_is);
              highest = λ w member within.
                  ground (arith, later, tested, b_is, rest w, own_at_most u maximum);
            }
      ]
      | inr (some w, later) ↦
          let h = select_version-Highest minimum maximum us w (ground arith) later in
          record {
            supported = ground (arith, later, h.supported);
            from_minimum = ground (arith, later, h.from_minimum);
            to_maximum = ground (arith, later, h.to_maximum);
            highest = λ t member within.
                ground (arith, later, h.highest t, h.supported, member-at_most w u us);
          }
    ]
