-- ===== src/Socket/RoundTrip.antt =====
-- What the gateway makes of the values that a device writes: `parseAgentMessage` of
-- src/cloud-device-websocket-route.ts after src/cloud-device-channel-protocol.ts and
-- src/local-agent-outbound-client.ts.
use xautojs_devspace.Channel.Messages.{
  AgentMessage, Details, HeartbeatMessage, HelloMessage, RemoteMcpToolError, RemoteMcpToolResult,
  ToolResultMessage, WorkspaceCatalogEntry, WorkspaceCatalogMessage, channel_details,
  device_details, heartbeat_message, hello_message, tool_error, tool_ok, tool_result_message,
  workspace_catalog_message,
}
use xautojs_devspace.Prelude.{Bool, List, Option, [], ap, none, refl, some, true, ◌∷◌, ◌≡◌}
use xautojs_devspace.Prelude.Json.{Json, find_field, get_field, optional_field}
use xautojs_devspace.Prelude.Text.{Text, text, text_eq}
use xautojs_devspace.Socket.Messages.{
  entries_of, entry_array, entry_of, error_of, every_entry, every_text, has_outcome, has_type,
  has_version, is_agent_message, is_bool, is_entry_array, is_heartbeat_message, is_hello_message,
  is_text_array, is_tool_result_message, is_workspace_catalog_entry, is_workspace_catalog_message,
  message_of, parse_agent_message, result_of, text_array, text_field, texts_of,
}
use xautojs_devspace.Socket.Wire.{
  agent_message_json, details_json, entries_json, entry_json, error_json, heartbeat_json,
  hello_json, message_json, outcome_fields, texts_json, tool_result_json, workspace_catalog_json,
}

every_text-texts_json : (xs : List Text) → every_text (texts_json xs) ≡ true
unfolding every_text texts_json
every_text-texts_json [] = refl
every_text-texts_json (x ∷ xs) = every_text-texts_json xs

texts_of-texts_json : (xs : List Text) → texts_of (texts_json xs) ≡ xs
unfolding texts_of texts_json
texts_of-texts_json [] = refl
texts_of-texts_json (x ∷ xs) = ap (λ (t : List Text). x ∷ t) (texts_of-texts_json xs)

every_entry-entries_json : (es : List WorkspaceCatalogEntry) → every_entry (entries_json es) ≡ true
unfolding every_entry entries_json is_workspace_catalog_entry get_field find_field text text_eq
    is_text_array entry_json
every_entry-entries_json [] = refl
every_entry-entries_json (e ∷ es) =
    rw (every_text-texts_json e.capabilities) (every_entry-entries_json es)

entries_of-entries_json : (es : List WorkspaceCatalogEntry) → entries_of (entries_json es) ≡ es
unfolding entries_of entries_json entry_of text_field get_field find_field text text_eq text_array
    entry_json
entries_of-entries_json [] = refl
entries_of-entries_json (e ∷ es) =
    rw (texts_of-texts_json e.capabilities)
      (ap (λ (t : List WorkspaceCatalogEntry). e ∷ t) (entries_of-entries_json es))

reading : Unit {0}
unfolding parse_agent_message is_agent_message message_of has_type has_version is_hello_message
    is_heartbeat_message is_workspace_catalog_message is_tool_result_message get_field find_field
    text_eq text is_text_array text_field text_array is_entry_array entry_array is_bool has_outcome
    result_of error_of message_json hello_json heartbeat_json workspace_catalog_json
    tool_result_json optional_field outcome_fields error_json details_json agent_message_json
reading = tt

parse-hello_json :
    (device : Text) (instance_id version : Option Text) (capabilities : List Text) (time : Text)
    → let m : HelloMessage = record {
      device_id = device;
      desktop_instance_id = instance_id;
      agent_version = version;
      capabilities = capabilities;
      time = time;
    } in
      parse_agent_message (some (hello_json m)) ≡ some (hello_message m)
unfolding reading
parse-hello_json device none none capabilities time =
    rw (every_text-texts_json capabilities) (rw (texts_of-texts_json capabilities) refl)
parse-hello_json device none (some v) capabilities time =
    rw (every_text-texts_json capabilities) (rw (texts_of-texts_json capabilities) refl)
parse-hello_json device (some i) none capabilities time =
    rw (every_text-texts_json capabilities) (rw (texts_of-texts_json capabilities) refl)
parse-hello_json device (some i) (some v) capabilities time =
    rw (every_text-texts_json capabilities) (rw (texts_of-texts_json capabilities) refl)

parse-heartbeat_json :
    (device : Text) (connection : Option Text) (time : Text)
    → let m : HeartbeatMessage = record {
      device_id = device;
      connection_id = connection;
      time = time;
    } in
      parse_agent_message (some (heartbeat_json m)) ≡ some (heartbeat_message m)
unfolding reading
parse-heartbeat_json device none time = refl
parse-heartbeat_json device (some c) time = refl

parse-workspace_catalog_json :
    (device : Text) (version : Option Text) (entries : List WorkspaceCatalogEntry) (time : Text)
    → let m : WorkspaceCatalogMessage = record {
      device_id = device;
      catalog_version = version;
      workspaces = entries;
      time = time;
    } in
      parse_agent_message (some (workspace_catalog_json m)) ≡ some (workspace_catalog_message m)
unfolding reading
parse-workspace_catalog_json device none entries time =
    rw (every_entry-entries_json entries) (rw (entries_of-entries_json entries) refl)
parse-workspace_catalog_json device (some v) entries time =
    rw (every_entry-entries_json entries) (rw (entries_of-entries_json entries) refl)

-- A device's error has the details that the tool gave, or none.
abbrev pub IsDeviceResult : RemoteMcpToolResult Json → Type 0
IsDeviceResult (tool_ok result) = Unit {0}
IsDeviceResult (tool_error e) = elim e.details [ some (channel_details _ _ _) ↦ ⊥ | _ ↦ Unit {0} ]

error_of-error_json :
    (code message : Text) (retryable : Option Bool) (details : Option (Details Json))
    → let e : RemoteMcpToolError Json = record {
      code = code;
      message = message;
      retryable = retryable;
      details = details;
    } in
      IsDeviceResult (tool_error e) → error_of (error_json e) ≡ e
unfolding reading
error_of-error_json code message none none d = refl
error_of-error_json code message (some b) none d = refl
error_of-error_json code message none (some (device_details j)) d = refl
error_of-error_json code message (some b) (some (device_details j)) d = refl
error_of-error_json code message r (some (channel_details x y z)) d = absurd d

pub parse-tool_result_json :
    (device : Option Text) (tool_call_id : Text) (result : RemoteMcpToolResult Json)
    → IsDeviceResult result
    → let m : ToolResultMessage Json = record {
      device_id = device;
      tool_call_id = tool_call_id;
      result = result;
    } in
      parse_agent_message (some (tool_result_json m)) ≡ some (tool_result_message m)
unfolding reading
parse-tool_result_json none id (tool_ok result) d = refl
parse-tool_result_json (some device) id (tool_ok result) d = refl
parse-tool_result_json none id (tool_error e) d =
    rw (error_of-error_json e.code e.message e.retryable e.details d) refl
parse-tool_result_json (some device) id (tool_error e) d =
    rw (error_of-error_json e.code e.message e.retryable e.details d) refl

abbrev pub IsDeviceMessage : AgentMessage Json → Type 0
IsDeviceMessage (tool_result_message m) = IsDeviceResult m.result
IsDeviceMessage _ = Unit {0}

-- Every message that a device writes, where the details of an error are the tool's own, is accepted
-- by the gateway and read as the same message.
pub parse-agent_message_json :
    (m : AgentMessage Json)
    → IsDeviceMessage m
    → parse_agent_message (some (agent_message_json m)) ≡ some m
unfolding agent_message_json
parse-agent_message_json (hello_message m) d =
    parse-hello_json m.device_id m.desktop_instance_id m.agent_version m.capabilities m.time
parse-agent_message_json (heartbeat_message m) d =
    parse-heartbeat_json m.device_id m.connection_id m.time
parse-agent_message_json (workspace_catalog_message m) d =
    parse-workspace_catalog_json m.device_id m.catalog_version m.workspaces m.time
parse-agent_message_json (tool_result_message m) d =
    parse-tool_result_json m.device_id m.tool_call_id m.result d
