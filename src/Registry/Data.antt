-- ===== src/Registry/Data.antt =====
-- The records of packages/bridge-daemon/src/session/session-registry.ts, and the registry's state.
pub use junon.Shared.Results.{Fallible, ok, err, ◌>>=◌, ◌>>◌, refuse_if, required, Result-cases}
use junon.Shared.{ℕ, String, Bool, true, false, Option, List, []}
use junon.Shared.Maps.{Map}

pub data Role : Type 0 where
  adapter consumer : Role

-- `left === right`, for roles.
unfoldable pub same_role : Role → Role → Bool
same_role adapter adapter = true
same_role consumer consumer = true
same_role _ _ = false

-- Dates are texts that the registry only passes on.
pub record Session : Type 0 where
  pub session_id : String
  pub role : Role
  pub protocol_version : String
  pub client_name : String
  pub connected_at : String
  pub last_activity_at : String

-- A transport's connection: the session that it authenticated, and which socket it is.
pub record Connection : Type 0 where
  pub session : Session
  pub socket : ℕ

pub data Support : Type 0 where
  native provider adapter unavailable : Support

-- What the daemon reads of a capability, and the rest of it as text.
pub record Capability : Type 0 where
  pub support : Support
  pub detail : String

pub record Adapter : Type 0 where
  pub adapter_id : String
  pub session_id : String
  pub name : String
  pub version : String
  pub ide_kind : String
  pub ide_version : String
  pub position_encodings : List String
  pub capabilities : Map Capability
  pub connected_at : String

pub record WorkspaceRoot : Type 0 where
  pub root_id : String
  pub name : String
  pub uri : String

pub data Trust : Type 0 where
  trusted untrusted unknown : Trust

pub record Workspace : Type 0 where
  pub workspace_id : String
  pub adapter_id : String
  pub name : String
  pub roots : List WorkspaceRoot
  pub workspace_epoch : ℕ
  pub trust : Trust

-- `progress` is the percentage, where it is known.
pub record WorkspaceStatus : Type 0 where
  pub workspace_id : String
  pub state : String
  pub capabilities_unavailable : List String
  pub progress : Option ℕ

pub record RegisterParams : Type 0 where
  pub adapter_id : String
  pub name : String
  pub version : String
  pub ide_kind : String
  pub ide_version : String
  pub position_encodings : List String
  pub capabilities : Map Capability
  pub workspaces : List Workspace

pub record SessionRecord : Type 0 where
  pub connection : Connection
  pub snapshot : Session

pub record AdapterRecord : Type 0 where
  pub adapter : Adapter
  pub session_id : String

pub record WorkspaceRecord : Type 0 where
  pub workspace : Workspace
  pub status : WorkspaceStatus

pub record RemovedSession : Type 0 where
  pub session : Session
  pub adapter : Option Adapter
  pub workspaces : List Workspace

pub record Registry : Type 0 where
  pub sessions : Map SessionRecord
  pub adapters : Map AdapterRecord
  pub adapter_by_session : Map String
  pub workspaces : Map WorkspaceRecord

abbrev pub new_registry : Registry
new_registry = record { sessions = []; adapters = []; adapter_by_session = []; workspaces = [] }

-- `SessionRegistryError` by its code.
pub data RegistryError : Type 0 where
  adapter_not_found workspace_not_found permission_denied precondition_failed : RegistryError

abbrev pub Result {ℓ} : Type ℓ → Type ℓ
Result A = Fallible RegistryError A
