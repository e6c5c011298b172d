-- ===== src/Routing/Contract.antt =====
-- src/cloud-routing-contract.ts: records, inputs, errors, and the normalisation of identifiers.
-- `Date.parse` accepts formats that an engine chooses, so it is an argument, and so is the text of
-- the current instant. An error's `details` lists the fields that the source gives it.
pub mod Capabilities
pub mod Laws
use xautojs_devspace.Prelude.{
  ℕ, String, Bool, false, Option, none, some, List, [], ◌∷◌, ◌++◌, get_or, if◌then◌else◌,
}
use xautojs_devspace.Prelude.Int.{ℤ, leb_ℤ}
use xautojs_devspace.Prelude.Text.{Text, text, text_le, truthy, trim}
use xautojs_devspace.Prelude.Result.{Result, ok, err, ◌>>=◌}
use Prim.Native.String

-- src/identity.ts
pub record WorkspaceIdentity : Type 0 where
  pub tenant_id : Text
  pub user_id : Text

pub data DeviceStatus : Type 0 where
  online offline revoked : DeviceStatus

pub data WorkspaceStatus : Type 0 where
  active expired revoked : WorkspaceStatus

pub data ToolCallStatus : Type 0 where
  routed completed failed cancelled : ToolCallStatus

-- src/remote-mcp-tool-executor.ts
pub data RemoteMcpToolName : Type 0 where
  open_workspace read_file write_file edit_file grep_files find_files : RemoteMcpToolName
  list_directory run_shell show_changes : RemoteMcpToolName

pub data RoutingErrorCode : Type 0 where
  invalid_route_input pairing_required device_not_found device_offline : RoutingErrorCode
  device_forbidden workspace_not_found workspace_forbidden : RoutingErrorCode
  session_expired tool_call_conflict : RoutingErrorCode

pub record RoutingError : Type 0 where
  pub code : RoutingErrorCode
  pub message : String
  pub retryable : Bool
  pub details : List (String × Text)

-- An error whose `retryable` is left out.
abbrev pub routing_error : RoutingErrorCode → String → List (String × Text) → RoutingError
routing_error code message details = record {
  code = code;
  message = message;
  retryable = false;
  details = details;
}

pub record DeviceRecord : Type 0 where
  pub device_id : Text
  pub owner : WorkspaceIdentity
  pub label : Option Text
  pub capabilities : List Text
  pub status : DeviceStatus
  pub registered_at : Text
  pub last_seen_at : Text
  pub expires_at : Option Text

pub record WorkspaceRouteRecord : Type 0 where
  pub workspace_id : Text
  pub owner : WorkspaceIdentity
  pub mcp_session_id : Text
  pub conversation_session_id : Option Text
  pub device_id : Text
  pub workspace_ref : Option Text
  pub status : WorkspaceStatus
  pub created_at : Text
  pub last_routed_at : Option Text
  pub expires_at : Option Text

pub record ToolCallRecord : Type 0 where
  pub tool_call_id : Text
  pub owner : WorkspaceIdentity
  pub mcp_session_id : Text
  pub conversation_session_id : Option Text
  pub workspace_id : Text
  pub device_id : Text
  pub tool : Option RemoteMcpToolName
  pub status : ToolCallStatus
  pub created_at : Text
  pub last_seen_at : Text
  pub deadline_at : Option Text
  pub completed_at : Option Text

pub record SessionBindingRecord : Type 0 where
  pub owner : WorkspaceIdentity
  pub mcp_session_id : Text
  pub conversation_session_id : Option Text
  pub device_id : Text
  pub bound_at : Text
  pub last_seen_at : Text
  pub expires_at : Option Text

pub record ResolvedRoute : Type 0 where
  pub workspace : WorkspaceRouteRecord
  pub device : DeviceRecord
  pub tool_call : Option ToolCallRecord
  pub routed_at : Text

pub record RegisterDeviceInput : Type 0 where
  pub owner : WorkspaceIdentity
  pub device_id : Text
  pub label : Option Text
  pub capabilities : Option (List Text)
  pub status : Option DeviceStatus
  pub now : Option Text
  pub expires_at : Option Text

pub record SetDeviceStatusInput : Type 0 where
  pub owner : WorkspaceIdentity
  pub device_id : Text
  pub status : DeviceStatus
  pub now : Option Text

pub record BindWorkspaceInput : Type 0 where
  pub owner : WorkspaceIdentity
  pub mcp_session_id : Text
  pub conversation_session_id : Option Text
  pub workspace_id : Text
  pub device_id : Text
  pub workspace_ref : Option Text
  pub now : Option Text
  pub expires_at : Option Text

pub record ResolveWorkspaceInput : Type 0 where
  pub owner : WorkspaceIdentity
  pub mcp_session_id : Text
  pub conversation_session_id : Option Text
  pub workspace_id : Text
  pub tool_call_id : Option Text
  pub tool : Option RemoteMcpToolName
  pub now : Option Text
  pub deadline_at : Option Text

pub record CompleteToolCallInput : Type 0 where
  pub owner : WorkspaceIdentity
  pub tool_call_id : Text
  pub status : Option ToolCallStatus
  pub now : Option Text

pub record BindSessionInput : Type 0 where
  pub owner : WorkspaceIdentity
  pub mcp_session_id : Text
  pub conversation_session_id : Option Text
  pub device_id : Text
  pub now : Option Text
  pub expires_at : Option Text

pub record ResolveSessionInput : Type 0 where
  pub owner : WorkspaceIdentity
  pub mcp_session_id : Text
  pub conversation_session_id : Option Text
  pub device_id : Option Text
  pub now : Option Text

abbrev pub blank_error : String → String → RoutingError
blank_error name complaint =
    routing_error invalid_route_input (String.◌++◌ name complaint) (("field", text name) ∷ [])

unfoldable pub normalize_required_id : Option Text → String → Result RoutingError Text
normalize_required_id none name = err (blank_error name " is required.")
normalize_required_id (some value) name =
    let normalized = trim value in
    if truthy normalized then ok normalized else err (blank_error name " is required.")

unfoldable pub normalize_optional_id : Option Text → String → Result RoutingError (Option Text)
normalize_optional_id none name = ok none
normalize_optional_id (some value) name =
    let normalized = trim value in
    if truthy normalized then ok (some normalized) else err (blank_error name " cannot be empty.")

unfoldable pub normalize_owner : WorkspaceIdentity → Result RoutingError WorkspaceIdentity
normalize_owner owner = do
  tenant ← normalize_required_id (some owner.tenant_id) "owner.tenantId"
  user ← normalize_required_id (some owner.user_id) "owner.userId"
  ok (record { tenant_id = tenant; user_id = user })

-- "\x1f", which joins the parts of a key.
abbrev pub separator : ℕ
separator = 31

unfoldable pub owner_key : WorkspaceIdentity → Result RoutingError Text
owner_key owner = do
  normalized ← normalize_owner owner
  ok (normalized.tenant_id ++ (separator ∷ normalized.user_id))

unfoldable pub is_expired : (Text → Option ℤ) → Option Text → Text → Bool
is_expired date_parse none now = false
is_expired date_parse (some expires_at) now =
    if truthy expires_at
    then elim (date_parse expires_at) [
      | none ↦ text_le expires_at now
      | some expires_time ↦ elim (date_parse now) [
        | none ↦ text_le expires_at now
        | some now_time ↦ leb_ℤ expires_time now_time
      ]
    ]
    else false

-- `clock` is what `new Date().toISOString()` gives.
unfoldable pub route_now : Text → Option Text → Result RoutingError Text
route_now clock now = do given ← normalize_optional_id now "now"; ok (get_or given clock)
