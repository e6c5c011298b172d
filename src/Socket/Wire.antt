-- ===== src/Socket/Wire.antt =====
-- The values that a device writes, as `JSON.stringify` reads them:
-- src/cloud-device-channel-protocol.ts, src/local-agent-outbound-client.ts.
use xautojs_devspace.Channel.Messages.{
  AgentMessage, Details, HeartbeatMessage, HelloMessage, RemoteMcpToolError, RemoteMcpToolResult,
  ToolResultMessage, WorkspaceCatalogEntry, WorkspaceCatalogMessage, channel_details,
  device_details, heartbeat_message, hello_message, tool_error, tool_ok, tool_result_message,
  workspace_catalog_message,
}
use xautojs_devspace.Prelude.{Bool, List, Option, [], false, none, some, true, ◌∷◌}
use xautojs_devspace.Prelude.Json.{
  Json, JsonFields, JsonItems, field, item, json_array, json_bool, json_natural, json_object,
  json_text, no_fields, no_items, optional_field,
}
use xautojs_devspace.Prelude.Text.{Text, text}

unfoldable pub texts_json : List Text → JsonItems
texts_json [] = no_items
texts_json (s ∷ rest) = item (json_text s) (texts_json rest)

unfoldable pub entry_json : WorkspaceCatalogEntry → Json
unfolding texts_json text
entry_json entry = json_object (
    field (text "workspaceRef") (json_text entry.workspace_ref) (
      field (text "displayName") (json_text entry.display_name) (
        field (text "rootLabel") (json_text entry.root_label)
          (field (text "capabilities") (json_array (texts_json entry.capabilities)) no_fields))))

unfoldable pub entries_json : List WorkspaceCatalogEntry → JsonItems
unfolding entry_json
entries_json [] = no_items
entries_json (e ∷ rest) = item (entry_json e) (entries_json rest)

-- `{ type, protocolVersion: 1, … }`
unfoldable pub message_json : Text → JsonFields → Json
unfolding text
message_json type_name rest = json_object (
    field (text "type") (json_text type_name)
      (field (text "protocolVersion") (json_natural 1) rest))

-- The hello of `sendHello`.
unfoldable pub hello_json : HelloMessage → Json
unfolding message_json texts_json optional_field text
hello_json m = message_json (text "agent.hello") (
    field (text "deviceId") (json_text m.device_id) (
      optional_field (text "desktopInstanceId") m.desktop_instance_id (
        optional_field (text "agentVersion") m.agent_version (
          field (text "capabilities") (json_array (texts_json m.capabilities))
            (field (text "time") (json_text m.time) no_fields)))))

-- The heartbeat of `startHeartbeat`, which leaves the connection out.
unfoldable pub heartbeat_json : HeartbeatMessage → Json
unfolding message_json optional_field text
heartbeat_json m = message_json (text "agent.heartbeat") (
    field (text "deviceId") (json_text m.device_id) (
      optional_field (text "connectionId") m.connection_id
        (field (text "time") (json_text m.time) no_fields)))

-- `createCloudDeviceWorkspaceCatalogMessage`
unfoldable pub workspace_catalog_json : WorkspaceCatalogMessage → Json
unfolding message_json entries_json optional_field text
workspace_catalog_json m = message_json (text "workspace.catalog") (
    field (text "deviceId") (json_text m.device_id) (
      optional_field (text "catalogVersion") m.catalog_version (
        field (text "workspaces") (json_array (entries_json m.workspaces))
          (field (text "time") (json_text m.time) no_fields))))

abbrev pub optional_json : Text → Option Json → JsonFields → JsonFields
optional_json name none rest = rest
optional_json name (some v) rest = field name v rest

abbrev pub optional_bool : Text → Option Bool → JsonFields → JsonFields
optional_bool name none rest = rest
optional_bool name (some b) rest = field name (json_bool b) rest

-- The details of a device's error are as they are; those of the channel are an object.
unfoldable pub details_json : Details Json → Json
unfolding optional_field text
details_json (device_details d) = d
details_json (channel_details device_id tool_call_id connection_id) = json_object (
    field (text "deviceId") (json_text device_id) (
      optional_field (text "toolCallId") tool_call_id
        (optional_field (text "connectionId") connection_id no_fields)))

unfoldable pub error_json : RemoteMcpToolError Json → Json
unfolding details_json text
error_json e = json_object (
    field (text "code") (json_text e.code) (
      field (text "message") (json_text e.message) (
        optional_bool (text "retryable") e.retryable (
          optional_json (text "details")
            (elim e.details [ none ↦ none | some d ↦ some (details_json d) ]) no_fields))))

unfoldable pub outcome_fields : RemoteMcpToolResult Json → JsonFields
unfolding error_json text
outcome_fields (tool_ok result) =
    field (text "ok") (json_bool true) (field (text "result") result no_fields)
outcome_fields (tool_error e) =
    field (text "ok") (json_bool false) (field (text "error") (error_json e) no_fields)

-- `createCloudDeviceToolResultMessage` and `createCloudDeviceToolErrorMessage`
unfoldable pub tool_result_json : ToolResultMessage Json → Json
unfolding message_json outcome_fields optional_field text
tool_result_json m = message_json (text "tool.result") (
    optional_field (text "deviceId") m.device_id
      (field (text "toolCallId") (json_text m.tool_call_id) (outcome_fields m.result)))

unfoldable pub agent_message_json : AgentMessage Json → Json
unfolding hello_json heartbeat_json workspace_catalog_json tool_result_json
agent_message_json (hello_message m) = hello_json m
agent_message_json (heartbeat_message m) = heartbeat_json m
agent_message_json (workspace_catalog_message m) = workspace_catalog_json m
agent_message_json (tool_result_message m) = tool_result_json m
