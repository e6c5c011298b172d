-- ===== src/Socket/Messages.antt =====
-- What the gateway accepts from a device: `isAgentMessage` of src/cloud-device-websocket-route.ts
-- over what `JSON.parse` gives, the message that such a value is, and the values that the device
-- writes: src/cloud-device-channel-protocol.ts.
use xautojs_devspace.Channel.Messages.{
  AgentMessage, RemoteMcpToolError, RemoteMcpToolResult, WorkspaceCatalogEntry, device_details,
  heartbeat_message, hello_message, tool_error, tool_ok, tool_result_message,
  workspace_catalog_message,
}
use xautojs_devspace.Prelude.{
  Bool, List, Option, [], false, get_or, if◌then◌else◌, is_some, none, some, true, ◌&&◌, ◌==◌, ◌∷◌,
}
use xautojs_devspace.Prelude.Json.{
  Json, JsonItems, as_text, get_field, is_optional_text, is_record, is_text, item, json_array,
  json_bool, json_natural, json_null, json_text, no_items,
}
use xautojs_devspace.Prelude.Text.{Text, text, text_eq}

unfoldable pub every_text : JsonItems → Bool
every_text no_items = true
every_text (item v rest) = is_text (some v) && every_text rest

-- `Array.isArray(value) && value.every((x) => typeof x === "string")`
unfoldable pub is_text_array : Option Json → Bool
unfolding every_text
is_text_array (some (json_array items)) = every_text items
is_text_array _ = false

unfoldable pub is_bool : Option Json → Bool
is_bool (some (json_bool b)) = true
is_bool _ = false

unfoldable pub has_type : Text → Json → Bool
unfolding get_field text_eq text
has_type name value = elim (get_field (text "type") value) [
  | some (json_text s) ↦ text_eq s name
  | _ ↦ false
]

unfoldable pub is_hello_message : Json → Bool
unfolding has_type get_field is_text_array text
is_hello_message value =
    is_record value
    && has_type (text "agent.hello") value
    && is_text (get_field (text "deviceId") value)
    && is_text (get_field (text "time") value)
    && is_text_array (get_field (text "capabilities") value)
    && is_optional_text (get_field (text "desktopInstanceId") value)
    && is_optional_text (get_field (text "agentVersion") value)

unfoldable pub is_heartbeat_message : Json → Bool
unfolding has_type get_field text
is_heartbeat_message value =
    is_record value
    && has_type (text "agent.heartbeat") value
    && is_text (get_field (text "deviceId") value)
    && is_text (get_field (text "time") value)
    && is_optional_text (get_field (text "connectionId") value)

unfoldable pub is_workspace_catalog_entry : Json → Bool
unfolding get_field is_text_array text
is_workspace_catalog_entry value =
    is_record value
    && is_text (get_field (text "workspaceRef") value)
    && is_text (get_field (text "displayName") value)
    && is_text (get_field (text "rootLabel") value)
    && is_text_array (get_field (text "capabilities") value)

unfoldable pub every_entry : JsonItems → Bool
unfolding is_workspace_catalog_entry
every_entry no_items = true
every_entry (item v rest) = is_workspace_catalog_entry v && every_entry rest

unfoldable pub is_entry_array : Option Json → Bool
unfolding every_entry
is_entry_array (some (json_array items)) = every_entry items
is_entry_array _ = false

unfoldable pub is_workspace_catalog_message : Json → Bool
unfolding has_type get_field is_entry_array text
is_workspace_catalog_message value =
    is_record value
    && has_type (text "workspace.catalog") value
    && is_text (get_field (text "deviceId") value)
    && is_text (get_field (text "time") value)
    && is_optional_text (get_field (text "catalogVersion") value)
    && is_entry_array (get_field (text "workspaces") value)

-- `value.ok ? "result" in value : isRecord(value.error)`
unfoldable pub has_outcome : Json → Bool
unfolding get_field text
has_outcome value = elim (get_field (text "ok") value) [
  | some (json_bool true) ↦ is_some (get_field (text "result") value)
  | _ ↦ elim (get_field (text "error") value) [ none ↦ false | some error ↦ is_record error ]
]

unfoldable pub is_tool_result_message : Json → Bool
unfolding has_type get_field is_bool has_outcome text
is_tool_result_message value =
    is_record value
    && has_type (text "tool.result") value
    && is_text (get_field (text "toolCallId") value)
    && is_bool (get_field (text "ok") value)
    && is_optional_text (get_field (text "deviceId") value)
    && has_outcome value

-- `value.protocolVersion === 1`
unfoldable pub has_version : Json → Bool
unfolding get_field text
has_version value = elim (get_field (text "protocolVersion") value) [
  | some (json_natural n) ↦ n == 1
  | _ ↦ false
]

unfoldable pub is_agent_message : Json → Bool
unfolding has_type has_version is_hello_message is_heartbeat_message is_workspace_catalog_message
    is_tool_result_message text
is_agent_message value =
    is_record value
    && has_version value
    && (if has_type (text "agent.hello") value
        then is_hello_message value
        else if has_type (text "agent.heartbeat") value
        then is_heartbeat_message value
        else if has_type (text "workspace.catalog") value
        then is_workspace_catalog_message value
        else has_type (text "tool.result") value && is_tool_result_message value)

-- The parts of a value that was accepted.
unfoldable pub text_field : Text → Json → Text
unfolding get_field
text_field name value = get_or (as_text (get_field name value)) []

unfoldable pub texts_of : JsonItems → List Text
texts_of no_items = []
texts_of (item v rest) = get_or (as_text (some v)) [] ∷ texts_of rest

unfoldable pub text_array : Option Json → List Text
unfolding texts_of
text_array (some (json_array items)) = texts_of items
text_array _ = []

unfoldable pub entry_of : Json → WorkspaceCatalogEntry
unfolding text_field text_array get_field text
entry_of value = record {
  workspace_ref = text_field (text "workspaceRef") value;
  display_name = text_field (text "displayName") value;
  root_label = text_field (text "rootLabel") value;
  capabilities = text_array (get_field (text "capabilities") value);
}

unfoldable pub entries_of : JsonItems → List WorkspaceCatalogEntry
unfolding entry_of
entries_of no_items = []
entries_of (item v rest) = entry_of v ∷ entries_of rest

unfoldable pub entry_array : Option Json → List WorkspaceCatalogEntry
unfolding entries_of
entry_array (some (json_array items)) = entries_of items
entry_array _ = []

-- The error of a result; a code or a message that is not a string, which the gateway lets through,
-- reads as the empty one.
unfoldable pub error_of : Json → RemoteMcpToolError Json
unfolding text_field get_field text
error_of value = record {
  code = text_field (text "code") value;
  message = text_field (text "message") value;
  retryable = elim (get_field (text "retryable") value) [ some (json_bool b) ↦ some b | _ ↦ none ];
  details = elim (get_field (text "details") value) [
    | none ↦ none
    | some d ↦ some (device_details d)
  ];
}

unfoldable pub result_of : Json → RemoteMcpToolResult Json
unfolding error_of get_field text
result_of value = elim (get_field (text "ok") value) [
  | some (json_bool true) ↦ tool_ok (get_or (get_field (text "result") value) json_null)
  | _ ↦ tool_error (error_of (get_or (get_field (text "error") value) json_null))
]

unfoldable pub message_of : Json → AgentMessage Json
unfolding has_type text_field text_array entry_array result_of get_field text
message_of value =
    if has_type (text "agent.hello") value
    then hello_message (record {
      device_id = text_field (text "deviceId") value;
      desktop_instance_id = as_text (get_field (text "desktopInstanceId") value);
      agent_version = as_text (get_field (text "agentVersion") value);
      capabilities = text_array (get_field (text "capabilities") value);
      time = text_field (text "time") value;
    })
    else if has_type (text "agent.heartbeat") value
    then heartbeat_message (record {
      device_id = text_field (text "deviceId") value;
      connection_id = as_text (get_field (text "connectionId") value);
      time = text_field (text "time") value;
    })
    else if has_type (text "workspace.catalog") value
    then workspace_catalog_message (record {
      device_id = text_field (text "deviceId") value;
      catalog_version = as_text (get_field (text "catalogVersion") value);
      workspaces = entry_array (get_field (text "workspaces") value);
      time = text_field (text "time") value;
    })
    else tool_result_message (record {
      device_id = as_text (get_field (text "deviceId") value);
      tool_call_id = text_field (text "toolCallId") value;
      result = result_of value;
    })

-- `parseAgentMessage`, of what `JSON.parse` gives, where it does not throw.
unfoldable pub parse_agent_message : Option Json → Option (AgentMessage Json)
unfolding is_agent_message message_of
parse_agent_message none = none
parse_agent_message (some value) = if is_agent_message value then some (message_of value) else none
