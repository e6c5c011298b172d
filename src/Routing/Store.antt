-- ===== src/Routing/Store.antt =====
-- src/cloud-routing-store.ts: `InMemoryCloudRoutingStore`. The records that the source clones are
-- values here, so a copy is the record itself.
pub mod Methods
pub mod ToolCalls
pub mod Frames
pub mod Keyed
pub mod History
pub mod Owners
pub mod Resolve
pub mod Kept
pub mod Recorded
use xautojs_devspace.Prelude.Result
use xautojs_devspace.Prelude.{
  Bool, Option, String, [], false, if◌then◌else◌, none, not, some, true, ℕ, ◌&&◌, ◌++◌, ◌==◌, ◌||◌,
  ◌∷◌,
}
use xautojs_devspace.Prelude.Int.{ℤ}
use xautojs_devspace.Prelude.JsMap.{JsMap}
use xautojs_devspace.Prelude.Result.{Result, err, ok, ◌>>=◌}
use xautojs_devspace.Prelude.Text.{Text, option_text_eq, option_truthy, text_eq}
use xautojs_devspace.Routing.Contract.{
  DeviceRecord, DeviceStatus, RemoteMcpToolName, RoutingError, ToolCallRecord, WorkspaceIdentity,
  WorkspaceRouteRecord, WorkspaceStatus, device_not_found, device_offline, edit_file, expired,
  find_files, grep_files, is_expired, list_directory, online, open_workspace, owner_key, read_file,
  routing_error, run_shell, separator, session_expired, show_changes, workspace_forbidden,
  write_file,
}

pub record RoutingStore : Type 0 where
  pub devices : JsMap DeviceRecord
  pub workspace_routes : JsMap WorkspaceRouteRecord
  pub tool_call_routes : JsMap ToolCallRecord

abbrev pub empty : RoutingStore
empty = record { devices = []; workspace_routes = []; tool_call_routes = [] }

unfoldable pub scoped_key : WorkspaceIdentity → Text → Result RoutingError Text
unfolding owner_key
scoped_key owner id = Result.◌>>=◌ (owner_key owner) λ key. ok (key ++ (separator ∷ id))

-- Tool names as numbers, to compare them.
abbrev pub tool_index : RemoteMcpToolName → ℕ
tool_index open_workspace = 0
tool_index read_file = 1
tool_index write_file = 2
tool_index edit_file = 3
tool_index grep_files = 4
tool_index find_files = 5
tool_index list_directory = 6
tool_index run_shell = 7
tool_index show_changes = 8

-- `a === b` for a tool name or undefined
unfoldable pub tool_eq : Option RemoteMcpToolName → Option RemoteMcpToolName → Bool
tool_eq none none = true
tool_eq none (some _) = false
tool_eq (some _) none = false
tool_eq (some a) (some b) = tool_index a == tool_index b

unfoldable pub same_workspace_binding : WorkspaceRouteRecord → Text → Option Text → Text → Bool
same_workspace_binding existing mcp_session_id conversation_session_id device_id =
    text_eq existing.mcp_session_id mcp_session_id
    && option_text_eq existing.conversation_session_id conversation_session_id
    && text_eq existing.device_id device_id

unfoldable pub same_tool_call_route :
    ToolCallRecord → WorkspaceRouteRecord → Option RemoteMcpToolName → Bool
same_tool_call_route existing route tool =
    text_eq existing.mcp_session_id route.mcp_session_id
    && option_text_eq existing.conversation_session_id route.conversation_session_id
    && text_eq existing.workspace_id route.workspace_id
    && text_eq existing.device_id route.device_id
    && tool_eq existing.tool tool

abbrev pub is_online : DeviceStatus → Bool
is_online online = true
is_online _ = false

abbrev pub is_device_revoked : DeviceStatus → Bool
is_device_revoked DeviceStatus.revoked = true
is_device_revoked _ = false

abbrev pub is_route_expired : WorkspaceStatus → Bool
is_route_expired expired = true
is_route_expired _ = false

abbrev pub is_route_revoked : WorkspaceStatus → Bool
is_route_revoked WorkspaceStatus.revoked = true
is_route_revoked _ = false

-- The error for a device that is unknown or revoked.
abbrev pub unregistered : Text → RoutingError
unregistered device_id =
    routing_error device_not_found "Device is not registered for this owner."
      (("deviceId", device_id) ∷ [])

module _ (date_parse : Text → Option ℤ) where
  unfoldable pub assert_workspace_routeable :
      WorkspaceRouteRecord → Text → Option Text → Text → Result RoutingError (Unit {0})
  assert_workspace_routeable route mcp_session_id conversation_session_id now =
      let of_workspace : String × Text = ("workspaceId", route.workspace_id) in
      if not (text_eq route.mcp_session_id mcp_session_id)
      then err (
          routing_error workspace_forbidden "workspaceId belongs to another MCP session."
            (of_workspace ∷ ("mcpSessionId", mcp_session_id) ∷ []))
      else if option_truthy route.conversation_session_id
          && not (option_text_eq route.conversation_session_id conversation_session_id)
      then err (
          routing_error workspace_forbidden "workspaceId belongs to another conversation session."
            (of_workspace ∷ []))
      else if is_route_revoked route.status
      then err (routing_error workspace_forbidden "workspace route is revoked." (of_workspace ∷ []))
      else if is_route_expired route.status || is_expired date_parse route.expires_at now
      then err (routing_error session_expired "workspace route is expired." (of_workspace ∷ []))
      else ok tt

  -- It also narrows `device`, so it returns the device that it finds.
  unfoldable pub assert_device_routeable :
      Option DeviceRecord → Text → Text → Result RoutingError DeviceRecord
  assert_device_routeable none device_id now = err (unregistered device_id)
  assert_device_routeable (some device) device_id now =
      if is_device_revoked device.status
      then err (unregistered device_id)
      else if is_expired date_parse device.expires_at now
      then err
          (routing_error session_expired "Device route is expired." (("deviceId", device_id) ∷ []))
      else if not (is_online device.status)
      then err (record {
        code = device_offline;
        message = "Device is offline.";
        retryable = true;
        details = ("deviceId", device_id) ∷ [];
      })
      else ok device
