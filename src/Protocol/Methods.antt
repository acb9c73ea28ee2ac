-- ===== src/Protocol/Methods.antt =====
-- The catalogues of methods in packages/protocol/src/application-validation.ts. A method is its name.
use junon.Shared.{String, Bool, List, [], ◌∷◌, ◌++◌, contains}

abbrev pub adapter_originated_methods : List String
adapter_originated_methods = "ide/register" ∷ "ide/unregister" ∷ "ide/ping" ∷ []

abbrev pub consumer_local_methods : List String
consumer_local_methods =
    "bridge/getStatus" ∷ "bridge/listAdapters" ∷ "bridge/listSessions" ∷ "ide/getCapabilities"
    ∷ "workspace/list" ∷ "workspace/get" ∷ "workspace/getStatus" ∷ []

abbrev pub routed_methods : List String
routed_methods =
    "document/read" ∷ "document/getRevision" ∷ "document/getSymbols" ∷ "workspace/searchSymbols"
    ∷ "workspace/searchTodos" ∷ "workspace/listBookmarks" ∷ "symbol/resolveAt"
    ∷ "symbol/getDefinition" ∷ "symbol/getReferences" ∷ "symbol/getImplementations"
    ∷ "symbol/getHierarchy" ∷ "diagnostics/getSnapshot" ∷ "refactor/prepare"
    ∷ "refactor/prepareRename" ∷ "workspace/applyPlan" ∷ "workspace/discardPlan" ∷ "workspace/undo"
    ∷ []

-- `Object.keys(applicationContractReferences)`
abbrev pub application_methods : List String
application_methods =
    "bridge/getStatus" ∷ "bridge/listAdapters" ∷ "bridge/listSessions" ∷ "diagnostics/getSnapshot"
    ∷ "document/read" ∷ "document/getRevision" ∷ "document/getSymbols" ∷ "refactor/prepare"
    ∷ "refactor/prepareRename" ∷ "workspace/applyPlan" ∷ "workspace/discardPlan" ∷ "workspace/undo"
    ∷ "ide/register" ∷ "ide/unregister" ∷ "ide/ping" ∷ "ide/getCapabilities"
    ∷ "workspace/searchSymbols" ∷ "workspace/searchTodos" ∷ "workspace/listBookmarks"
    ∷ "symbol/resolveAt" ∷ "symbol/getDefinition" ∷ "symbol/getReferences"
    ∷ "symbol/getImplementations" ∷ "symbol/getHierarchy" ∷ "workspace/list" ∷ "workspace/get"
    ∷ "workspace/getStatus" ∷ []

abbrev pub adapter_outbound_notifications : List String
adapter_outbound_notifications =
    "adapter/capabilitiesChanged" ∷ "workspace/opened" ∷ "workspace/closed"
    ∷ "workspace/rootsChanged" ∷ "workspace/readinessChanged" ∷ "workspace/trustChanged"
    ∷ "document/opened" ∷ "document/changed" ∷ "document/saved" ∷ "document/closed"
    ∷ "document/deleted" ∷ "document/renamed" ∷ "diagnostics/changed" ∷ []

abbrev pub consumer_inbound_notifications : List String
consumer_inbound_notifications = adapter_outbound_notifications ++ ("adapter/disconnected" ∷ [])

-- `isIDEBPApplicationMethod`
unfoldable pub is_application_method : String → Bool
is_application_method method = contains method application_methods
