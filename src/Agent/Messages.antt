-- ===== src/Agent/Messages.antt =====
-- What a device accepts from the gateway: `isGatewayMessage` of src/local-agent-outbound-client.ts
-- over what `JSON.parse` gives, the message that such a value is, and the values that the gateway
-- writes: src/cloud-device-channel-protocol.ts. A tool whose name is not one of the protocol's, which
-- the device lets through, is none here.
use xautojs_devspace.Channel.Messages.{
  GatewayMessage, ToolCallMessage, tool_call_message, tool_cancel_message,
}
use xautojs_devspace.Prelude.{
  Bool, List, Option, [], false, get_or, if◌then◌else◌, is_some, none, some, ◌&&◌, ◌∷◌,
}
use xautojs_devspace.Prelude.Json.{
  Json, as_text, field, get_field, is_record, is_text, json_null, json_text, no_fields,
  optional_field,
}
use xautojs_devspace.Prelude.Text.{Text, text, text_eq}
use xautojs_devspace.Receiver.{AgentEffect, AgentHost, handle_gateway_message}
use xautojs_devspace.Routing.Contract.{
  RemoteMcpToolName, edit_file, find_files, grep_files, list_directory, open_workspace, read_file,
  run_shell, show_changes, write_file,
}
use xautojs_devspace.Socket.Messages.{has_type, has_version, text_field}
use xautojs_devspace.Socket.Wire.{agent_message_json, message_json}

unfoldable pub tool_name : RemoteMcpToolName → Text
unfolding text
tool_name open_workspace = text "open_workspace"
tool_name read_file = text "read_file"
tool_name write_file = text "write_file"
tool_name edit_file = text "edit_file"
tool_name grep_files = text "grep_files"
tool_name find_files = text "find_files"
tool_name list_directory = text "list_directory"
tool_name run_shell = text "run_shell"
tool_name show_changes = text "show_changes"

abbrev pub all_tools : List RemoteMcpToolName
all_tools =
    open_workspace ∷ read_file ∷ write_file ∷ edit_file ∷ grep_files ∷ find_files ∷ list_directory
    ∷ run_shell ∷ show_changes ∷ []

unfoldable pub find_tool : Text → List RemoteMcpToolName → Option RemoteMcpToolName
unfolding tool_name text_eq
find_tool name [] = none
find_tool name (t ∷ ts) = if text_eq (tool_name t) name then some t else find_tool name ts

unfoldable pub is_tool_cancel_message : Json → Bool
unfolding get_field text
is_tool_cancel_message value =
    is_text (get_field (text "deviceId") value)
    && is_text (get_field (text "toolCallId") value)
    && is_text (get_field (text "reason") value)

unfoldable pub is_tool_call_message : Json → Bool
unfolding get_field text
is_tool_call_message value =
    is_text (get_field (text "deviceId") value)
    && is_text (get_field (text "toolCallId") value)
    && is_text (get_field (text "tool") value)
    && (elim (get_field (text "context") value) [ none ↦ false | some context ↦ is_record context ])
    && is_some (get_field (text "input") value)

unfoldable pub is_gateway_message : Json → Bool
unfolding has_version has_type is_tool_cancel_message is_tool_call_message text
is_gateway_message value =
    is_record value
    && has_version value
    && (if has_type (text "tool.cancel") value
        then is_tool_cancel_message value
        else has_type (text "tool.call") value && is_tool_call_message value)

unfoldable pub gateway_message_of : Json → Option (GatewayMessage Json)
unfolding has_type text_field get_field find_tool text
gateway_message_of value =
    if has_type (text "tool.cancel") value
    then some (
        tool_cancel_message (record {
          device_id = text_field (text "deviceId") value;
          tool_call_id = text_field (text "toolCallId") value;
          reason = text_field (text "reason") value;
        }))
    else elim (find_tool (text_field (text "tool") value) all_tools) [
      | none ↦ none
      | some t ↦ some (
          tool_call_message (record {
            device_id = text_field (text "deviceId") value;
            tool_call_id = text_field (text "toolCallId") value;
            tool = t;
            context = get_or (get_field (text "context") value) json_null;
            workspace_id = as_text (get_field (text "workspaceId") value);
            input = get_or (get_field (text "input") value) json_null;
            deadline_at = as_text (get_field (text "deadlineAt") value);
          }))
    ]

-- `parseGatewayMessage`, of what `JSON.parse` gives, where it does not throw.
unfoldable pub parse_gateway_message : Option Json → Option (GatewayMessage Json)
unfolding is_gateway_message gateway_message_of
parse_gateway_message none = none
parse_gateway_message (some value) =
    if is_gateway_message value then gateway_message_of value else none

-- `JSON.stringify` of what `connection.send` is given.
unfoldable pub tool_call_json : ToolCallMessage Json → Json
unfolding message_json optional_field tool_name text
tool_call_json m = message_json (text "tool.call") (
    field (text "deviceId") (json_text m.device_id) (
      field (text "toolCallId") (json_text m.tool_call_id) (
        field (text "tool") (json_text (tool_name m.tool)) (
          field (text "context") m.context (
            optional_field (text "workspaceId") m.workspace_id (
              field (text "input") m.input
                (optional_field (text "deadlineAt") m.deadline_at no_fields)))))))

unfoldable pub gateway_message_json : GatewayMessage Json → Json
unfolding message_json tool_call_json text
gateway_message_json (tool_call_message m) = tool_call_json m
gateway_message_json (tool_cancel_message m) = message_json (text "tool.cancel") (
    field (text "deviceId") (json_text m.device_id) (
      field (text "toolCallId") (json_text m.tool_call_id)
        (field (text "reason") (json_text m.reason) no_fields)))

-- The device's `handleGatewayMessage`: what it does, and what it sends back where the socket is open.
unfoldable pub handle_gateway_data :
    AgentHost → Option Json → List AgentEffect → List AgentEffect × Option Json
handle_gateway_data host raw effects = elim (parse_gateway_message raw) [
  | none ↦ (effects, none)
  | some message ↦
      let (after, response) = handle_gateway_message host message effects in
      (after, elim response [ none ↦ none | some answer ↦ some (agent_message_json answer) ])
]
