-- ===== src/Router/Payload.antt =====
-- What a response carries, as packages/bridge-daemon/src/routing/application-router.ts reads it: the
-- records of packages/protocol/src/generated.ts, with the fields that the router tests.
use junon.Shared.{ℕ, suc, String, Bool, Option, List}
use junon.EditStore.Data.{Revision, EditPlan, UndoToken}

pub record Document : Type 0 where
  pub workspace_id : String
  pub root_id : String
  pub uri : String
  pub revision : Revision

pub record ResultHandle : Type 0 where
  pub id : String
  pub adapter_id : String
  pub session_id : String
  pub valid_until_epoch : ℕ

mutual
  -- A handle, the document of the locator, and the children.
  pub data Symbol : Type 0 where
    symbol : ResultHandle → String → Symbols → Symbol

  pub data Symbols : Type 0 where
    no_symbols : Symbols
    symbol_and : Symbol → Symbols → Symbols

abbrev pub handle_of : Symbol → ResultHandle
handle_of (symbol h uri children) = h

abbrev pub document_uri_of : Symbol → String
document_uri_of (symbol h uri children) = uri

abbrev pub children_of : Symbol → Symbols
children_of (symbol h uri children) = children

abbrev pub count_symbols : Symbols → ℕ
count_symbols no_symbols = 0
count_symbols (symbol_and x xs) = suc (count_symbols xs)

pub record SymbolLocation : Type 0 where
  pub uri : String
  pub symbol : Option Symbol

-- The URIs of the related information, where there is any.
pub record Diagnostic : Type 0 where
  pub related : Option (List String)

pub record DocumentDiagnostics : Type 0 where
  pub document : Document
  pub diagnostics : List Diagnostic

pub record ModifiedDocument : Type 0 where
  pub document : Document
  pub before_hash : String
  pub after_hash : String

-- `value["result"]`: each method has some of the fields.
pub record Result : Type 0 where
  pub symbols : Option Symbols
  pub symbol : Option Symbol
  pub locations : Option (List SymbolLocation)
  pub documents : Option (List DocumentDiagnostics)
  pub document : Option Document
  pub plan : Option EditPlan
  pub plan_id : Option String
  pub modified_documents : Option (List ModifiedDocument)
  pub diagnostics : Option (List DocumentDiagnostics)
  pub undo_token : Option UndoToken
  pub truncated : Bool

-- `error.data.details`, where it is a record.
pub record Details : Type 0 where
  pub workspace_id : Option String
  pub plan_id : Option String
  pub modified_documents : Option (List ModifiedDocument)

-- A response, less its ID: an error with `error.data`, or a result.
pub data Response : Type 0 where
  failure : String → Option Details → Response
  success : Result → Response
