-- ===== src/Router/Results.antt =====
-- `#assertRoutedDocumentResult` of packages/bridge-daemon/src/routing/application-router.ts, with the
-- tests that it calls: what a result may say of the routed workspace.
pub mod Listed
use junon.Shared.{
  ℕ, zero, suc, ◌+◌, String, Bool, false, ◌&&◌, ◌||◌, not, Option, none, some, List, [], ◌∷◌, ltb,
  eqb, any, contains, add, length, ◌==◌, if◌then◌else◌,
}
use junon.Shared.Results.{Fallible, ok, err, ◌>>=◌, ◌>>◌, refuse_if, required}
use junon.Uri.{UrlPlatform, is_uri_within_workspace_root}
use junon.Registry.Data.{Workspace, WorkspaceRoot, Registry}
use junon.Registry.Ops.{get_workspace}
use junon.Router.Payload.{
  Document, ResultHandle, Symbol, Symbols, no_symbols, symbol_and, handle_of, document_uri_of,
  children_of, count_symbols, SymbolLocation, Diagnostic, DocumentDiagnostics, Result,
}
use junon.Router.Data.{Route, Refusal, provider_failed, lift}
use junon.Router.Bounds.{max_routed_document_symbols, max_routed_symbol_depth, max_symbol_locations}
use junon.Router.Notifications.{assert_workspace_uri, assert_workspace_document}

-- `IDEBP_DEFAULT_SYMBOL_SEARCH_LIMIT`
abbrev pub default_symbol_search_limit : ℕ
default_symbol_search_limit = 200

-- `IDEBP_MAX_DIAGNOSTIC_DOCUMENTS`
abbrev pub max_diagnostic_documents : ℕ
max_diagnostic_documents = 500

-- `IDEBP_MAX_DIAGNOSTICS_PER_DOCUMENT`
abbrev pub max_diagnostics_per_document : ℕ
max_diagnostics_per_document = 1000

abbrev pub search_limit_of : Route → ℕ
search_limit_of r = elim r.search_limit [ none ↦ default_symbol_search_limit | some n ↦ n ]

-- A handle of another adapter, session or epoch.
unfoldable pub is_foreign : ResultHandle → Workspace → Route → Bool
is_foreign h w r =
    not (h.adapter_id == w.adapter_id)
    || not (h.session_id == r.adapter_session_id)
    || not (eqb h.valid_until_epoch w.workspace_epoch)

unfoldable pub push_symbols : ℕ → Symbols → List (Symbol × ℕ) → List (Symbol × ℕ)
push_symbols depth no_symbols pending = pending
push_symbols depth (symbol_and x xs) pending = push_symbols depth xs ((x, depth) ∷ pending)

-- `SYMBOL_LOCATION_METHODS`
unfoldable pub is_location_method : String → Bool
is_location_method method =
    method == "symbol/getDefinition"
    || method == "symbol/getReferences"
    || method == "symbol/getImplementations"
    || method == "symbol/getHierarchy"

-- `SYMBOL_RESULT_METHODS`
unfoldable pub is_symbol_method : String → Bool
is_symbol_method method =
    method == "document/getSymbols"
    || method == "workspace/searchSymbols"
    || method == "symbol/resolveAt"

unfoldable pub names_a_document : String → Bool
names_a_document method =
    method == "document/read"
    || method == "document/getRevision"
    || method == "document/getSymbols"
    || method == "symbol/resolveAt"

module _ (platform : UrlPlatform) where
  abbrev pub in_some_root : String → Workspace → Bool
  in_some_root uri w =
      any (λ (root : WorkspaceRoot). is_uri_within_workspace_root platform uri root.uri) w.roots

  -- What refuses a symbol wherever it stands.
  unfoldable pub is_unowned : Symbol → List String → Workspace → Route → Bool
  is_unowned x handles w r =
      is_foreign (handle_of x) w r
      || contains (handle_of x).id handles
      || not (in_some_root (document_uri_of x) w)

  -- The loop of `#assertRoutedSymbolLocations`.
  unfoldable pub check_locations :
      List String → List SymbolLocation → Workspace → Route → Fallible Refusal (Unit {0})
  check_locations handles [] w r = ok tt
  check_locations handles (entry ∷ entries) w r =
      let plain = check_locations handles entries w r in
      refuse_if (not (in_some_root entry.uri w)) provider_failed >> elim entry.symbol [
        | none ↦ plain
        | some x ↦
            refuse_if (is_unowned x handles w r) provider_failed
            >> check_locations (add (handle_of x).id handles) entries w r
      ]

  unfoldable pub assert_routed_symbol_locations :
      Route → List SymbolLocation → Registry → Fallible Refusal (Unit {0})
  unfolding lift
  assert_routed_symbol_locations r locations g = do
    w ← lift (get_workspace r.workspace_id g)
    refuse_if (ltb max_symbol_locations (length locations)) provider_failed
    check_locations [] locations w r

  -- The loop of `#assertRoutedDocumentSymbols`, with so many rounds left.
  unfoldable pub symbols_loop :
      ℕ
      → ℕ
      → List String
      → List (Symbol × ℕ)
      → String
      → Workspace
      → Route
      → Fallible Refusal (Unit {0})
  symbols_loop rounds count handles [] target w r = ok tt
  symbols_loop zero count handles ((x, depth) ∷ pending) target w r = err provider_failed
  symbols_loop (suc rounds) count handles ((x, depth) ∷ pending) target w r =
      refuse_if
        (ltb max_routed_document_symbols (count + 1)
          || ltb max_routed_symbol_depth depth
          || is_unowned x handles w r
          || not (document_uri_of x == target))
        provider_failed
      >> symbols_loop rounds (count + 1) (add (handle_of x).id handles)
          (push_symbols (depth + 1) (children_of x) pending) target w r

  -- One round more than the number of symbols that is allowed is enough.
  unfoldable pub assert_routed_document_symbols :
      Route → Symbols → Registry → Fallible Refusal (Unit {0})
  unfolding lift
  assert_routed_document_symbols r symbols g = do
    w ← lift (get_workspace r.workspace_id g)
    target ← required r.target_document_uri provider_failed
    symbols_loop (max_routed_document_symbols + 1) 0 [] (push_symbols 0 symbols []) target w r

  -- The loop of `#assertRoutedSearchSymbols`.
  unfoldable pub check_hits :
      List String → Symbols → Workspace → Route → Fallible Refusal (Unit {0})
  check_hits handles no_symbols w r = ok tt
  check_hits handles (symbol_and x xs) w r =
      refuse_if (ltb 0 (count_symbols (children_of x)) || is_unowned x handles w r) provider_failed
      >> check_hits (add (handle_of x).id handles) xs w r

  unfoldable pub assert_routed_search_symbols :
      Route → Symbols → Registry → Fallible Refusal (Unit {0})
  unfolding lift
  assert_routed_search_symbols r symbols g = do
    w ← lift (get_workspace r.workspace_id g)
    refuse_if (ltb (search_limit_of r) (count_symbols symbols)) provider_failed
    check_hits [] symbols w r

  unfoldable pub check_related : String → List String → Registry → Fallible Refusal (Unit {0})
  check_related workspace_id [] g = ok tt
  check_related workspace_id (uri ∷ uris) g =
      assert_workspace_uri platform workspace_id uri g >> check_related workspace_id uris g

  unfoldable pub check_each_related :
      String → List Diagnostic → Registry → Fallible Refusal (Unit {0})
  check_each_related workspace_id [] g = ok tt
  check_each_related workspace_id (d ∷ ds) g =
      let rest = check_each_related workspace_id ds g in
      elim d.related [ none ↦ rest | some uris ↦ check_related workspace_id uris g >> rest ]

  -- The loop of `#assertRoutedDiagnostics`.
  unfoldable pub check_snapshot :
      List String → List DocumentDiagnostics → Route → Registry → Fallible Refusal (Unit {0})
  check_snapshot seen [] r g = ok tt
  check_snapshot seen (entry ∷ entries) r g =
      refuse_if
        (ltb max_diagnostics_per_document (length entry.diagnostics)
          || contains entry.document.uri seen)
        provider_failed
      >> assert_workspace_document platform r.workspace_id entry.document g
      >> check_each_related r.workspace_id entry.diagnostics g
      >> check_snapshot (add entry.document.uri seen) entries r g

  unfoldable pub assert_routed_diagnostics :
      Route → List DocumentDiagnostics → Registry → Fallible Refusal (Unit {0})
  assert_routed_diagnostics r documents g =
      refuse_if (ltb max_diagnostic_documents (length documents)) provider_failed
      >> check_snapshot [] documents r g

  abbrev pub about_target : Document → Option String → Bool
  about_target d none = false
  about_target d (some uri) = d.uri == uri

  -- A field that is not there is read as `undefined`, and the call throws.
  unfoldable pub assert_document_of : Route → Result → Registry → Fallible Refusal (Unit {0})
  assert_document_of r result g =
      let resolved : Fallible Refusal (Unit {0}) = elim result.symbol [
        | none ↦ ok tt
        | some x ↦ assert_routed_document_symbols r (symbol_and x no_symbols) g
      ] in
      let listed : Fallible Refusal (Unit {0}) =
        required result.symbols provider_failed >>= λ symbols.
        assert_routed_document_symbols r symbols g in
      let by_method : Fallible Refusal (Unit {0}) =
        if r.method == "document/getSymbols"
        then listed
        else if r.method == "symbol/resolveAt"
        then resolved
        else ok tt in
      required result.document provider_failed >>= λ document.
      assert_workspace_document platform r.workspace_id document g
      >> refuse_if (not (about_target document r.target_document_uri)) provider_failed
      >> by_method

  unfoldable pub assert_routed_document_result :
      Route → Result → Registry → Fallible Refusal (Unit {0})
  unfolding assert_document_of
  assert_routed_document_result r result g =
      let hits : Fallible Refusal (Unit {0}) =
        required result.symbols provider_failed >>= λ symbols.
        assert_routed_search_symbols r symbols g in
      let found : Fallible Refusal (Unit {0}) =
        required result.locations provider_failed >>= λ locations.
        assert_routed_symbol_locations r locations g in
      let snapshot : Fallible Refusal (Unit {0}) =
        required result.documents provider_failed >>= λ documents.
        assert_routed_diagnostics r documents g in
      if r.method == "workspace/searchSymbols"
      then hits
      else if is_location_method r.method
      then found
      else if r.method == "diagnostics/getSnapshot"
      then snapshot
      else if names_a_document r.method
      then assert_document_of r result g
      else ok tt
