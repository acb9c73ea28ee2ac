-- ===== src/Router/Bounds/Exact.antt =====
-- What the loop of `routedSymbolsWithinBounds` decides, by a recursion on the payload.
use junon.Shared.{
  ℕ, zero, suc, ◌+◌, ◌<◌, ◌≤◌, ◌≡◌, refl, ap, Bool, true, ◌&&◌, ◌==◌, not, none, some, List, [],
  ◌∷◌, ltb, leb, arith, if◌then◌else◌, Option-cases, Bool-cases, inl, inr,
}
use junon.Shared.Json.{
  Json, null, boolean, number, text, array, object, Items, no_items, item, Fields, no_fields, field,
  get_field,
}
use junon.Router.Bounds.{
  max_routed_document_symbols, max_routed_symbol_depth, children_of, push_items, bounded_loop,
  routed_symbols, too_many_locations, result_of, routed_symbols_within_bounds,
}

abbrev larger : ℕ → ℕ → ℕ
larger a b = if leb a b then b else a

unfoldable mutual
  -- How many symbols stand in a symbol, itself included.
  pub nodes : Json → ℕ
  nodes (object fs) = suc (field_nodes fs)
  nodes null = 1
  nodes (boolean b) = 1
  nodes (number n) = 1
  nodes (text t) = 1
  nodes (array xs) = 1

  field_nodes : Fields → ℕ
  field_nodes no_fields = 0
  field_nodes (field name value fs) =
      if name == "children" then array_nodes value else field_nodes fs

  array_nodes : Json → ℕ
  array_nodes (array xs) = forest_nodes xs
  array_nodes null = 0
  array_nodes (boolean b) = 0
  array_nodes (number n) = 0
  array_nodes (text t) = 0
  array_nodes (object fs) = 0

  pub forest_nodes : Items → ℕ
  forest_nodes no_items = 0
  forest_nodes (item x xs) = nodes x + forest_nodes xs

unfoldable mutual
  -- How many levels a symbol has, its own included.
  pub levels : Json → ℕ
  levels (object fs) = suc (field_levels fs)
  levels null = 1
  levels (boolean b) = 1
  levels (number n) = 1
  levels (text t) = 1
  levels (array xs) = 1

  field_levels : Fields → ℕ
  field_levels no_fields = 0
  field_levels (field name value fs) =
      if name == "children" then array_levels value else field_levels fs

  array_levels : Json → ℕ
  array_levels (array xs) = forest_levels xs
  array_levels null = 0
  array_levels (boolean b) = 0
  array_levels (number n) = 0
  array_levels (text t) = 0
  array_levels (object fs) = 0

  pub forest_levels : Items → ℕ
  forest_levels no_items = 0
  forest_levels (item x xs) = larger (levels x) (forest_levels xs)

-- A waiting symbol at its depth reaches no deeper than the limit.
abbrev reaches : ℕ → Json → Bool
reaches depth x = leb (depth + levels x) (max_routed_symbol_depth + 1)

unfoldable all_reach : ℕ → Items → Bool
all_reach depth no_items = true
all_reach depth (item x xs) = reaches depth x && all_reach depth xs

unfoldable stack_nodes : List (Json × ℕ) → ℕ
stack_nodes [] = 0
stack_nodes ((x, depth) ∷ pending) = nodes x + stack_nodes pending

unfoldable stack_reaches : List (Json × ℕ) → Bool
stack_reaches [] = true
stack_reaches ((x, depth) ∷ pending) = reaches depth x && stack_reaches pending

stack_nodes-push_items :
    (depth : ℕ) (xs : Items) (pending : List (Json × ℕ))
    → stack_nodes (push_items depth xs pending) ≡ forest_nodes xs + stack_nodes pending
unfolding push_items stack_nodes forest_nodes
stack_nodes-push_items depth no_items pending = omega arith
stack_nodes-push_items depth (item x xs) pending =
    ground (arith, stack_nodes-push_items depth xs ((x, depth) ∷ pending))

stack_reaches-push_items :
    (depth : ℕ) (xs : Items) (pending : List (Json × ℕ))
    → stack_reaches (push_items depth xs pending) ≡ (all_reach depth xs && stack_reaches pending)
unfolding push_items stack_reaches all_reach
stack_reaches-push_items depth no_items pending = refl
stack_reaches-push_items depth (item x xs) pending =
    ground (arith, stack_reaches-push_items depth xs ((x, depth) ∷ pending))

all_reach-levels :
    (depth : ℕ) (xs : Items)
    → depth ≤ max_routed_symbol_depth + 1
    → all_reach depth xs ≡ leb (depth + forest_levels xs) (max_routed_symbol_depth + 1)
unfolding all_reach forest_levels
all_reach-levels depth no_items h = ground arith
all_reach-levels depth (item x xs) h = ground (arith, all_reach-levels depth xs h)

field_nodes-children : (fs : Fields) → field_nodes fs ≡ forest_nodes (children_of (object fs))
unfolding children_of get_field field_nodes forest_nodes
field_nodes-children no_fields = refl
field_nodes-children (field name null fs) = ground (arith, field_nodes-children fs)
field_nodes-children (field name (boolean b) fs) = ground (arith, field_nodes-children fs)
field_nodes-children (field name (number n) fs) = ground (arith, field_nodes-children fs)
field_nodes-children (field name (text t) fs) = ground (arith, field_nodes-children fs)
field_nodes-children (field name (array xs) fs) = ground (arith, field_nodes-children fs)
field_nodes-children (field name (object gs) fs) = ground (arith, field_nodes-children fs)

field_levels-children : (fs : Fields) → field_levels fs ≡ forest_levels (children_of (object fs))
unfolding children_of get_field field_levels forest_levels
field_levels-children no_fields = refl
field_levels-children (field name null fs) = ground (arith, field_levels-children fs)
field_levels-children (field name (boolean b) fs) = ground (arith, field_levels-children fs)
field_levels-children (field name (number n) fs) = ground (arith, field_levels-children fs)
field_levels-children (field name (text t) fs) = ground (arith, field_levels-children fs)
field_levels-children (field name (array xs) fs) = ground (arith, field_levels-children fs)
field_levels-children (field name (object gs) fs) = ground (arith, field_levels-children fs)

nodes-children : (x : Json) → nodes x ≡ suc (forest_nodes (children_of x))
unfolding nodes children_of forest_nodes
nodes-children (object fs) = ap suc (field_nodes-children fs)
nodes-children null = refl
nodes-children (boolean b) = refl
nodes-children (number n) = refl
nodes-children (text t) = refl
nodes-children (array xs) = refl

levels-children : (x : Json) → levels x ≡ suc (forest_levels (children_of x))
unfolding levels children_of forest_levels
levels-children (object fs) = ap suc (field_levels-children fs)
levels-children null = refl
levels-children (boolean b) = refl
levels-children (number n) = refl
levels-children (text t) = refl
levels-children (array xs) = refl

reaches-children :
    (depth : ℕ) (x : Json)
    → reaches depth x
      ≡ (not (ltb max_routed_symbol_depth depth) && all_reach (depth + 1) (children_of x))
reaches-children depth x =
    ground (arith, levels-children x, all_reach-levels (depth + 1) (children_of x))

bounded_loop_lem :
    (rounds count : ℕ) (pending : List (Json × ℕ))
    → count ≤ max_routed_document_symbols
    → max_routed_document_symbols < count + rounds
    → bounded_loop rounds count pending
      ≡ some
          (leb (count + stack_nodes pending) max_routed_document_symbols && stack_reaches pending)
unfolding bounded_loop stack_nodes stack_reaches
bounded_loop_lem rounds count [] low enough = ground arith
bounded_loop_lem zero count ((x, depth) ∷ pending) low enough = absurd (omega arith)
bounded_loop_lem (suc rounds) count ((x, depth) ∷ pending) low enough =
    let next = push_items (depth + 1) (children_of x) pending in
    let total = stack_nodes-push_items (depth + 1) (children_of x) pending in
    let deepest = stack_reaches-push_items (depth + 1) (children_of x) pending in
    let here = nodes-children x in
    let deep = reaches-children depth x in
    elim (Bool-cases (ltb max_routed_document_symbols (count + 1))) [
      | inl many ↦ rw many (ground arith)
      | inr few ↦ elim (Bool-cases (ltb max_routed_symbol_depth depth)) [
        | inl low' ↦ rw (few, low') (ground arith)
        | inr high ↦
            let rest = bounded_loop_lem rounds (count + 1) next (ground arith) (omega arith) in
            rw (few, high, rest, total, deepest, here, deep) (ground arith)
      ]
    ]

-- What the test is of a payload, by a recursion on it.
unfoldable pub within_bounds : Fields → Bool
within_bounds value = elim (result_of value) [
  | none ↦ true
  | some result ↦ not (too_many_locations result) && elim (routed_symbols result) [
    | none ↦ true
    | some symbols ↦
        leb (forest_nodes symbols) max_routed_document_symbols
        && leb (forest_levels symbols) (max_routed_symbol_depth + 1)
  ]
]

-- For every payload, with more rounds than the number of symbols that is allowed, the loop ends, and it
-- accepts exactly when there are at most 1000 locations, and the symbols with all their descendants are at
-- most 5000 and none of them is more than 64 levels below the top.
pub routed_symbols_within_bounds-exact :
    (rounds : ℕ) (value : Fields)
    → max_routed_document_symbols < rounds
    → routed_symbols_within_bounds rounds value ≡ some (within_bounds value)
unfolding routed_symbols_within_bounds within_bounds stack_nodes stack_reaches
routed_symbols_within_bounds-exact rounds value enough = elim (Option-cases (result_of value)) [
  | inl none_there ↦ rw (none_there, routed_symbols_within_bounds, within_bounds) refl
  | inr (result, found) ↦ elim (Bool-cases (too_many_locations result)) [
    | inl many ↦ rw (found, many, routed_symbols_within_bounds, within_bounds) refl
    | inr few ↦ elim (Option-cases (routed_symbols result)) [
      | inl nothing ↦ rw (found, few, nothing, routed_symbols_within_bounds, within_bounds) refl
      | inr (symbols, there) ↦
          rw
            (
              found,
              few,
              there,
              routed_symbols_within_bounds,
              within_bounds,
              bounded_loop_lem rounds 0 (push_items 0 symbols []) (omega arith) (omega arith),
              stack_nodes-push_items 0 symbols [],
              stack_reaches-push_items 0 symbols [],
              all_reach-levels 0 symbols (omega arith),
            )
            (ground arith)
    ]
  ]
]
