-- ===== src/Handshake/Order.antt =====
-- The order of the protocol's versions, as compareProtocolVersions of
-- packages/bridge-daemon/src/session/handshake-processor.ts decides it, and its sort.
use junon.Shared.{
  String, ◌≡◌, refl, Bool, true, false, ◌&&◌, List, [], ◌∷◌, arith, all, Option-cases, inl, inr,
}
use junon.Handshake.Versions.{
  Version, parse_protocol_version, Sign, compare_part, compare_parts, compare_parsed,
  compare_protocol_versions, not_positive, not_negative, insert, Result, ok, err, Result-cases,
}

-- `compareProtocolVersions(u, v) <= 0`, where both are versions.
abbrev pub holds_not_positive : Result Sign → Bool
holds_not_positive (err e) = false
holds_not_positive (ok sign) = not_positive sign

unfoldable pub at_most : String → String → Bool
at_most u v = holds_not_positive (compare_protocol_versions u v)

parts_trans :
    (u v w : Version)
    → not_positive (compare_parts u v) ≡ true
    → not_positive (compare_parts v w) ≡ true
    → not_positive (compare_parts u w) ≡ true
unfolding compare_parts compare_part not_positive
parts_trans u v w h k = ground arith

parts_total :
    (u v : Version)
    → not_positive (compare_parts u v) ≡ false
    → not_positive (compare_parts v u) ≡ true
unfolding compare_parts compare_part not_positive
parts_total u v h = ground arith

parts_flip : (u v : Version) → not_negative (compare_parts u v) ≡ not_positive (compare_parts v u)
unfolding compare_parts compare_part not_positive not_negative
parts_flip u v = ground arith

parts_refl : (u : Version) → not_positive (compare_parts u u) ≡ true
unfolding compare_parts compare_part not_positive
parts_refl u = ground arith

pub at_most_trans : (u v w : String) → at_most u v ≡ true → at_most v w ≡ true → at_most u w ≡ true
unfolding at_most compare_protocol_versions compare_parsed
at_most_trans u v w h k = elim (Option-cases (parse_protocol_version u)) [
  | inl stop ↦ ground (arith, stop)
  | inr (a, pu) ↦ elim (Option-cases (parse_protocol_version v)) [
    | inl stop ↦ ground (arith, pu, stop)
    | inr (b, pv) ↦ elim (Option-cases (parse_protocol_version w)) [
      | inl stop ↦ ground (arith, pv, stop)
      | inr (c, pw) ↦ ground (arith, pu, pv, pw, parts_trans a b c)
    ]
  ]
]

-- A comparison that is made decides the order one way or the other.
pub at_most_total :
    (u v : String) (sign : Sign)
    → compare_protocol_versions u v ≡ ok sign
    → not_positive sign ≡ false
    → at_most v u ≡ true
unfolding at_most compare_protocol_versions compare_parsed
at_most_total u v sign e h = elim (Option-cases (parse_protocol_version u)) [
  | inl stop ↦ ground (arith, stop)
  | inr (a, pu) ↦ elim (Option-cases (parse_protocol_version v)) [
    | inl stop ↦ ground (arith, pu, stop)
    | inr (b, pv) ↦ ground (arith, pu, pv, parts_total a b)
  ]
]

pub at_most_flip :
    (u v : String) (sign : Sign)
    → compare_protocol_versions u v ≡ ok sign
    → not_negative sign ≡ at_most v u
unfolding at_most compare_protocol_versions compare_parsed
at_most_flip u v sign e = elim (Option-cases (parse_protocol_version u)) [
  | inl stop ↦ ground (arith, stop)
  | inr (a, pu) ↦ elim (Option-cases (parse_protocol_version v)) [
    | inl stop ↦ ground (arith, pu, stop)
    | inr (b, pv) ↦ ground (arith, pu, pv, parts_flip a b)
  ]
]

pub at_most_refl :
    (u : String) (sign : Sign) (v : String)
    → compare_protocol_versions u v ≡ ok sign
    → at_most u u ≡ true
unfolding at_most compare_protocol_versions compare_parsed
at_most_refl u sign v e = elim (Option-cases (parse_protocol_version u)) [
  | inl stop ↦ ground (arith, stop)
  | inr (a, pu) ↦ ground (arith, pu, parts_refl a)
]

pub all-at_most :
    (u v : String) (ws : List String)
    → at_most u v ≡ true
    → all (at_most v) ws ≡ true
    → all (at_most u) ws ≡ true
unfolding all
all-at_most u v [] h k = refl
all-at_most u v (w ∷ ws) h k = ground (arith, at_most_trans u v w, all-at_most u v ws)

-- No version stands after a later one.
unfoldable pub ascending : List String → Bool
ascending [] = true
ascending (v ∷ vs) = all (at_most v) vs && ascending vs

all-insert :
    (p : String → Bool) (v : String) (us out : List String)
    → insert v us ≡ ok out
    → all p out ≡ (p v && all p us)
unfolding insert all
all-insert p v [] out e = ground arith
all-insert p v (u ∷ us) out e = elim (Result-cases (compare_protocol_versions v u)) [
  | inl (x, stop) ↦ ground (arith, stop)
  | inr (sign, made) ↦ elim (Result-cases (insert v us)) [
    | inl (x, stop) ↦ ground (arith, made, stop)
    | inr (later, done) ↦ ground (arith, made, done, all-insert p v us later done)
  ]
]

made_least :
    (v u : String) (us : List String) (sign : Sign)
    → compare_protocol_versions v u ≡ ok sign
    → not_positive sign ≡ true
    → all (at_most u) us ≡ true
    → (at_most v u ≡ true) × (all (at_most v) us ≡ true)
unfolding at_most
made_least v u us sign made h k =
    let least : at_most v u ≡ true = ground (arith, made) in (least, all-at_most v u us least k)

pub insert-ascending :
    (v : String) (us out : List String)
    → insert v us ≡ ok out
    → ascending us ≡ true
    → ascending out ≡ true
unfolding insert ascending all
insert-ascending v [] out e h = ground arith
insert-ascending v (u ∷ us) out e h = elim (Result-cases (compare_protocol_versions v u)) [
  | inl (x, stop) ↦ ground (arith, stop)
  | inr (sign, made) ↦ elim (Result-cases (insert v us)) [
    | inl (x, stop) ↦ ground (arith, made, stop, made_least v u us sign made)
    | inr (later, done) ↦ ground (
      arith,
      made,
      done,
      insert-ascending v us later done,
      all-insert (at_most u) v us later done,
      at_most_total v u sign made,
      made_least v u us sign made,
    )
  ]
]
