-- ===== src/Router/Results/Listed.antt =====
-- The loop of `#assertRoutedDocumentSymbols` in packages/bridge-daemon/src/routing/application-router.ts
-- against a list of the symbols.
use junon.Shared.{
  ℕ, zero, suc, ◌+◌, ◌<◌, ◌≤◌, ◌≡◌, refl, sym, ◌∙◌, String, Bool, true, ◌&&◌, not, List, [], ◌∷◌,
  ◌++◌, arith, ltb, leb, length, all, add, ◌==◌, ◌↔◌, Bool-cases, Option-cases, inl, inr, some, map,
}
use mathlib.Core.List.{append_assoc, append-nil}
use junon.Shared.Fresh.{are_distinct, admits, admits-distinct}
use junon.Shared.Results.{ok, refuse_if, Result-cases}
use junon.Uri.{UrlPlatform}
use junon.Registry.Data.{Workspace, Registry}
use junon.Registry.Ops.{get_workspace}
use junon.Router.Payload.{
  Symbol, Symbols, symbol, no_symbols, symbol_and, handle_of, document_uri_of, children_of,
}
use junon.Router.Data.{Route, provider_failed, lift}
use junon.Router.Bounds.{max_routed_document_symbols, max_routed_symbol_depth}
use junon.Router.Results.{
  push_symbols, is_foreign, is_unowned, in_some_root, symbols_loop, assert_routed_document_symbols,
}

-- The symbols with their descendants and depths, in the order in which the loop comes to them.
unfoldable pub visited : ℕ → Symbols → List (Symbol × ℕ)
visited depth no_symbols = []
visited depth (symbol_and (symbol h uri children) xs) =
    visited depth xs ++ ((symbol h uri children, depth) ∷ visited (depth + 1) children)

unfoldable waiting : List (Symbol × ℕ) → List (Symbol × ℕ)
waiting [] = []
waiting ((x, depth) ∷ pending) =
    (x, depth) ∷ (visited (depth + 1) (children_of x) ++ waiting pending)

waiting-push_symbols :
    (depth : ℕ) (xs : Symbols) (pending : List (Symbol × ℕ))
    → waiting (push_symbols depth xs pending) ≡ visited depth xs ++ waiting pending
unfolding waiting push_symbols visited
waiting-push_symbols depth no_symbols pending = refl
waiting-push_symbols depth (symbol_and (symbol h uri children) xs) pending =
    waiting-push_symbols depth xs ((symbol h uri children, depth) ∷ pending)
    ∙ sym (
        append_assoc (visited depth xs)
          ((symbol h uri children, depth) ∷ visited (depth + 1) children) (waiting pending))

module _ (platform : UrlPlatform) (target : String) (w : Workspace) (r : Route) where
  -- What a symbol at its depth has to be.
  abbrev pub is_fine : Symbol × ℕ → Bool
  is_fine (x, depth) =
      not (ltb max_routed_symbol_depth depth)
      && not (is_foreign (handle_of x) w r)
      && in_some_root platform (document_uri_of x) w
      && document_uri_of x == target

  abbrev pub id_of : Symbol × ℕ → String
  id_of (x, depth) = (handle_of x).id

  abbrev accepts : ℕ → List String → List (Symbol × ℕ) → Bool
  accepts count handles xs =
      leb (count + length xs) max_routed_document_symbols && admits is_fine id_of handles xs

  symbols_loop_lem :
      (rounds count : ℕ) (handles : List String) (pending : List (Symbol × ℕ))
      → count ≤ max_routed_document_symbols
      → max_routed_document_symbols < count + rounds
      → symbols_loop platform rounds count handles pending target w r
        ≡ refuse_if (not (accepts count handles (waiting pending))) provider_failed
  unfolding symbols_loop waiting admits is_unowned
  symbols_loop_lem rounds count handles [] low enough = ground arith
  symbols_loop_lem zero count handles ((x, depth) ∷ pending) low enough = absurd (omega arith)
  symbols_loop_lem (suc rounds) count handles ((x, depth) ∷ pending) low enough =
      let seen = add (handle_of x).id handles in
      let next = push_symbols (depth + 1) (children_of x) pending in
      elim (Bool-cases (ltb max_routed_document_symbols (count + 1))) [
        | inl many ↦ rw many (ground (arith))
        | inr few ↦
            let rest = symbols_loop_lem rounds (count + 1) seen next (ground arith) (omega arith) in
            let order = waiting-push_symbols (depth + 1) (children_of x) pending in
            rw (rest, order) (ground arith)
      ]

-- The symbols that a consumer may be told of, for a routed document.
pub record Owned (platform : UrlPlatform) (r : Route) (symbols : Symbols) (g : Registry)
    : Type 0 where
  pub workspace : Workspace
  pub target : String
  pub routed : get_workspace r.workspace_id g ≡ ok workspace
  pub asked : r.target_document_uri ≡ some target
  pub few : length (visited 0 symbols) ≤ max_routed_document_symbols
  pub fine : all (is_fine platform target workspace r) (visited 0 symbols) ≡ true
  pub distinct : are_distinct (map (id_of platform target workspace r) (visited 0 symbols)) ≡ true

assert_symbols-accepts :
    (platform : UrlPlatform) (r : Route) (symbols : Symbols) (g : Registry) (w : Workspace)
    (target : String)
    → get_workspace r.workspace_id g ≡ ok w
    → r.target_document_uri ≡ some target
    → assert_routed_document_symbols platform r symbols g
      ≡ refuse_if
          (not (
            leb (length (visited 0 symbols)) max_routed_document_symbols
            && all (is_fine platform target w r) (visited 0 symbols)
            && are_distinct (map (id_of platform target w r) (visited 0 symbols))))
          provider_failed
unfolding waiting assert_routed_document_symbols lift
assert_symbols-accepts platform r symbols g w target found asked =
    let order = waiting-push_symbols 0 symbols [] in
    let loop =
      symbols_loop_lem platform target w r (max_routed_document_symbols + 1) 0 []
        (push_symbols 0 symbols []) (omega arith) (omega arith) in
    let fresh =
      admits-distinct (is_fine platform target w r) (id_of platform target w r)
        (visited 0 symbols) in
    let order' = order ∙ append-nil (visited 0 symbols) in
    ground (arith, found, asked, rw order' at loop, fresh)

-- A tree of document symbols is accepted exactly when the routed workspace is registered and the request
-- named a document, the symbols with all their descendants are at most 5000, each is at most 64 levels
-- down, with a handle of the routed adapter, session and epoch and the URI of the named document, which
-- lies in a root of the workspace, and no two of them have one handle ID.
pub assert_routed_document_symbols-Owned :
    (platform : UrlPlatform) (r : Route) (symbols : Symbols) (g : Registry)
    → (assert_routed_document_symbols platform r symbols g ≡ ok tt) ↔ Owned platform r symbols g
unfolding lift assert_routed_document_symbols
assert_routed_document_symbols-Owned platform r symbols g =
    elim (Result-cases (get_workspace r.workspace_id g)) [
      | inl (e, missing) ↦
          (λ h. absurd (ground (arith, missing)), λ o. absurd (ground (arith, missing, o.routed)))
      | inr (w, found) ↦ elim (Option-cases r.target_document_uri) [
        | inl none_asked ↦
            (λ h. absurd (ground (arith, found)), λ o. absurd (ground (arith, none_asked, o.asked)))
        | inr (target, asked) ↦
            let exact = assert_symbols-accepts platform r symbols g w target found asked in
            (
              λ h. record {
                workspace = w;
                target = target;
                routed = found;
                asked = asked;
                few = ground (arith, exact, h);
                fine = ground (arith, exact, h);
                distinct = ground (arith, exact, h);
              },
              λ o.
                  let exact' =
                    assert_symbols-accepts platform r symbols g o.workspace o.target o.routed
                      o.asked in
                  ground (arith, exact', o.few, o.fine, o.distinct),
            )
      ]
    ]
