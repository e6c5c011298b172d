-- ===== src/Channel/Messages.antt =====
-- The messages of src/cloud-device-channel-protocol.ts and the answers of
-- src/remote-mcp-tool-executor.ts. `J` stands for the values that the channel passes on unread
-- (`unknown` in the source), and `protocolVersion`, which is always 1, is left out.
use xautojs_devspace.Prelude.{Bool, List, Option}
use xautojs_devspace.Prelude.Text.{Text}
use xautojs_devspace.Routing.Contract.{RemoteMcpToolName}

pub record WorkspaceCatalogEntry : Type 0 where
  pub workspace_ref : Text
  pub display_name : Text
  pub root_label : Text
  pub capabilities : List Text

pub record ToolCallMessage (J : Type 0) : Type 0 where
  pub device_id : Text
  pub tool_call_id : Text
  pub tool : RemoteMcpToolName
  pub context : J
  pub workspace_id : Option Text
  pub input : J
  pub deadline_at : Option Text

pub record ToolCancelMessage : Type 0 where
  pub device_id : Text
  pub tool_call_id : Text
  pub reason : Text

pub data GatewayMessage (J : Type 0) : Type 0 where
  tool_call_message : ToolCallMessage J → GatewayMessage J
  tool_cancel_message : ToolCancelMessage → GatewayMessage J

-- `details`, as the channel writes them or as the device sends them.
pub data Details (J : Type 0) : Type 0 where
  channel_details : Text → Option Text → Option Text → Details J
  device_details : J → Details J

pub record RemoteMcpToolError (J : Type 0) : Type 0 where
  pub code : Text
  pub message : Text
  pub retryable : Option Bool
  pub details : Option (Details J)

pub data RemoteMcpToolResult (J : Type 0) : Type 0 where
  tool_ok : J → RemoteMcpToolResult J
  tool_error : RemoteMcpToolError J → RemoteMcpToolResult J

pub record HelloMessage : Type 0 where
  pub device_id : Text
  pub desktop_instance_id : Option Text
  pub agent_version : Option Text
  pub capabilities : List Text
  pub time : Text

pub record HeartbeatMessage : Type 0 where
  pub device_id : Text
  pub connection_id : Option Text
  pub time : Text

pub record WorkspaceCatalogMessage : Type 0 where
  pub device_id : Text
  pub catalog_version : Option Text
  pub workspaces : List WorkspaceCatalogEntry
  pub time : Text

pub record ToolResultMessage (J : Type 0) : Type 0 where
  pub device_id : Option Text
  pub tool_call_id : Text
  pub result : RemoteMcpToolResult J

pub data AgentMessage (J : Type 0) : Type 0 where
  hello_message : HelloMessage → AgentMessage J
  heartbeat_message : HeartbeatMessage → AgentMessage J
  workspace_catalog_message : WorkspaceCatalogMessage → AgentMessage J
  tool_result_message : ToolResultMessage J → AgentMessage J

-- `createCloudDeviceToolResultMessage` and `createCloudDeviceToolErrorMessage`
unfoldable pub create_result_message :
    {J : Type 0} → Option Text → Text → RemoteMcpToolResult J → AgentMessage J
create_result_message device_id tool_call_id result =
    tool_result_message
      (record { device_id = device_id; tool_call_id = tool_call_id; result = result })

unfoldable pub create_tool_cancel_message : {J : Type 0} → ToolCancelMessage → GatewayMessage J
create_tool_cancel_message input = tool_cancel_message (record {
  device_id = input.device_id;
  tool_call_id = input.tool_call_id;
  reason = input.reason;
})
