-- ===== src/Router/Bounds.antt =====
-- `routedSymbolsWithinBounds` of packages/bridge-daemon/src/routing/application-router.ts: the test of a
-- routed payload before its schema is read. The last of `pending` stands first in the model's list.
pub mod Exact
use junon.Shared.{
  ℕ, zero, suc, ◌+◌, Bool, true, false, ◌||◌, Option, none, some, List, [], ◌∷◌, ltb, if◌then◌else◌,
}
use junon.Shared.Json.{
  Json, null, boolean, number, text, array, object, Items, no_items, item, Fields, get_field,
  as_record, as_array,
}

abbrev pub max_routed_document_symbols : ℕ
max_routed_document_symbols = 5000

abbrev pub max_routed_symbol_depth : ℕ
max_routed_symbol_depth = 64

-- `IDEBP_MAX_SYMBOL_LOCATIONS`
abbrev pub max_symbol_locations : ℕ
max_symbol_locations = 1000

abbrev pub count_items : Items → ℕ
count_items no_items = 0
count_items (item x xs) = suc (count_items xs)

-- `current.symbol["children"]`, where the symbol is a record and they are an array.
unfoldable pub children_of : Json → Items
children_of (object fs) = elim (get_field "children" fs) [
  | none ↦ no_items
  | some v ↦ elim (as_array v) [ none ↦ no_items | some xs ↦ xs ]
]
children_of _ = no_items

unfoldable pub push_items : ℕ → Items → List (Json × ℕ) → List (Json × ℕ)
push_items depth no_items pending = pending
push_items depth (item x xs) pending = push_items depth xs ((x, depth) ∷ pending)

-- The loop, with so many rounds left; `none` where they do not last.
unfoldable pub bounded_loop : ℕ → ℕ → List (Json × ℕ) → Option Bool
bounded_loop rounds count [] = some true
bounded_loop zero count ((x, depth) ∷ pending) = none
bounded_loop (suc rounds) count ((x, depth) ∷ pending) =
    let rest = bounded_loop rounds (count + 1) (push_items (depth + 1) (children_of x) pending) in
    if ltb max_routed_document_symbols (count + 1) || ltb max_routed_symbol_depth depth
    then some false
    else rest

-- The symbols of a result: its array `symbols`, or its `symbol` alone.
unfoldable pub routed_symbols : Fields → Option Items
routed_symbols result =
    let single : Option Items = elim (get_field "symbol" result) [
      | none ↦ none
      | some one ↦ some (item one no_items)
    ] in
    elim (get_field "symbols" result) [
      | none ↦ single
      | some v ↦ elim (as_array v) [ none ↦ single | some xs ↦ some xs ]
    ]

unfoldable pub too_many_locations : Fields → Bool
too_many_locations result = elim (get_field "locations" result) [
  | none ↦ false
  | some v ↦ elim (as_array v) [
    | none ↦ false
    | some xs ↦ ltb max_symbol_locations (count_items xs)
  ]
]

unfoldable pub result_of : Fields → Option Fields
result_of value = elim (get_field "result" value) [ none ↦ none | some v ↦ as_record v ]

unfoldable pub routed_symbols_within_bounds : ℕ → Fields → Option Bool
routed_symbols_within_bounds rounds value = elim (result_of value) [
  | none ↦ some true
  | some result ↦ if too_many_locations result then some false else elim (routed_symbols result) [
    | none ↦ some true
    | some symbols ↦ bounded_loop rounds 0 (push_items 0 symbols [])
  ]
]
