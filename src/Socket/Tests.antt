-- ===== src/Socket/Tests.antt =====
-- A device that says hello, answers and leaves, and the theorems there.
use xautojs_devspace.Channel.{
  PendingToolCall, RegisteredConnection, answer_of, clear_timer, finish, handle_device_message,
  idle, normalize_channel_capabilities, public_connection_record, register_connection, reject_each,
  resolved, unregister_connection,
}
use xautojs_devspace.Channel.Messages.{
  AgentMessage, HelloMessage, ToolResultMessage, hello_message, tool_error, tool_ok,
  tool_result_message,
}
use xautojs_devspace.Connections.{
  ConnectionRecord, ConnectionStatus, connection_key, record_connected, record_disconnected,
}
use xautojs_devspace.Prelude.{Option, [], arith, false, none, refl, some, true, ◌∷◌, ◌≡◌, ◌≢◌, ◌⊎◌}
use xautojs_devspace.Prelude.JsMap.{delete, get, put}
use xautojs_devspace.Prelude.Json.{Json, find_field, get_field, json_null, optional_field}
use xautojs_devspace.Prelude.Result.{ok}
use xautojs_devspace.Prelude.Text.{Text, option_text_eq, text, text_eq, trim, truthy}
use xautojs_devspace.Routing.Contract.{
  normalize_optional_id, normalize_owner, normalize_required_id, owner_key, route_now,
}
use xautojs_devspace.Routing.Contract.Capabilities.{normalize_capabilities}
use xautojs_devspace.Routing.Keys.{key_of}
use xautojs_devspace.Routing.Store.{empty, scoped_key}
use xautojs_devspace.Routing.Store.Methods.{register_device, set_device_status}
use xautojs_devspace.Socket.{
  GatewayServices, SocketAuth, SocketState, close_socket, device_id_of, greet, handle_heartbeat,
  handle_workspace_catalog, hello_matches_auth, join, on_catalog, on_records, on_routing, pass_on,
}
use xautojs_devspace.Socket.Crossing.{
  on_close-early, on_close-replaced, on_message-crosses, replaced,
}
use xautojs_devspace.Socket.Events.{
  admit, admit_first, handle_admission, handle_admitted, handle_hello, leave, on_close, on_message,
  or_close,
}
use xautojs_devspace.Socket.Laws.{on_message-IsAuthorized}
use xautojs_devspace.Socket.Messages.{
  every_text, has_outcome, has_type, has_version, is_agent_message, is_bool, is_heartbeat_message,
  is_hello_message, is_text_array, is_tool_result_message, is_workspace_catalog_message, message_of,
  parse_agent_message, result_of, text_array, text_field, texts_of,
}
use xautojs_devspace.Socket.RoundTrip.{parse-agent_message_json}
use xautojs_devspace.Socket.Wire.{
  agent_message_json, hello_json, message_json, outcome_fields, texts_json, tool_result_json,
}

socket : Unit {0}
unfolding on_message on_close admit admit_first handle_admission handle_hello handle_admitted
    or_close close_socket leave greet join pass_on handle_heartbeat handle_workspace_catalog
    on_routing on_records on_catalog hello_matches_auth device_id_of register_device
    set_device_status register_connection unregister_connection reject_each handle_device_message
    finish clear_timer answer_of record_connected record_disconnected connection_key get put delete
    text_eq text trim normalize_owner normalize_required_id normalize_optional_id route_now
    scoped_key owner_key normalize_capabilities normalize_channel_capabilities
    public_connection_record parse_agent_message is_agent_message message_of has_type has_version
    is_hello_message is_heartbeat_message is_tool_result_message is_workspace_catalog_message
    get_field find_field is_text_array text_field text_array texts_of every_text is_bool has_outcome
    result_of message_json hello_json tool_result_json optional_field outcome_fields
    agent_message_json texts_json option_text_eq
socket = tt

abbrev clock : Text
clock = text "2026-01-01T00:00:00.000Z"

abbrev auth : SocketAuth
auth = record {
  owner = record { tenant_id = text "acme"; user_id = text "ann" };
  device_id = some (text "laptop");
  desktop_instance_id = none;
  expires_at = none;
}

abbrev hello : HelloMessage
hello = record {
  device_id = text "laptop";
  desktop_instance_id = none;
  agent_version = some (text "1.0");
  capabilities = text "shell" ∷ [];
  time = clock;
}

abbrev services : GatewayServices
services = record {
  routing = empty;
  channel = idle;
  records = record { connections = [] };
  catalog = record { records = [] };
}

abbrev fresh : SocketState
fresh = record {
  socket = record { hello = none; connection_id = none; closes = [] };
  services = services;
}

abbrev wire_hello : Option Json
wire_hello = some (agent_message_json (hello_message hello))

abbrev joined : SocketState
joined = on_message auth 1 clock (text "a") wire_hello fresh

hello_joins : joined.socket.connection_id ≡ some (text "conn_a")
unfolding socket
hello_joins = refl

early_result_refused :
    (on_message auth 1 clock
      (text "a")
      (some (
        agent_message_json (
          tool_result_message
            (record { device_id = none; tool_call_id = text "c1"; result = tool_ok json_null }))))
      fresh).socket.closes
    ≡ (1008, text "hello_required") ∷ []
unfolding socket
early_result_refused = refl

leaves_no_connection :
    get (text "laptop") (on_close auth 1 clock (text "a") joined).services.channel.connections
    ≡ none
unfolding socket
leaves_no_connection = refl

abbrev answer : AgentMessage Json
answer = tool_result_message (record {
  device_id = some (text "laptop");
  tool_call_id = text "c1";
  result = tool_error (record {
    code = text "LOCAL_APPROVAL_DENIED";
    message = text "Local approval denied.";
    retryable = some false;
    details = none;
  });
})

parse-agent_message_json_example :
    parse_agent_message (some (agent_message_json answer)) ≡ some answer
parse-agent_message_json_example = parse-agent_message_json answer tt

on_message-IsAuthorized_example :
    ((said : HelloMessage) × (joined.socket.hello ≡ some said)
      × (hello_matches_auth said auth ≡ true))
    ⊎ ((joined.socket.hello ≡ none) × (joined.services ≡ fresh.services))
on_message-IsAuthorized_example =
    on_message-IsAuthorized auth 1 clock (text "a") wire_hello fresh tt

-- The laptop connects again, while its first socket is still there: the second one has said hello
-- and waits for the registration of the device.
abbrev again : SocketState
again = (greet auth 2 clock (text "b") hello (record joined { socket = fresh.socket })).0

first_said : joined.socket.hello ≡ some hello
unfolding socket
first_said = refl

again_said : again.socket.hello ≡ some hello
unfolding socket
again_said = refl

abbrev first_socket : SocketState
first_socket =
    replaced auth auth 1 2 clock (text "a") clock (text "b") joined again hello hello first_said
      again_said refl

abbrev second_record : ConnectionRecord
second_record = record {
  owner = auth.owner;
  device_id = text "laptop";
  connection_id = text "conn_b";
  status = ConnectionStatus.online;
  capabilities = text "shell" ∷ [];
  desktop_instance_id = none;
  agent_version = some (text "1.0");
  connected_at = clock;
  last_heartbeat_at = clock;
  disconnected_at = none;
}

laptop_key : connection_key auth.owner (text "laptop") ≡ ok (key_of auth.owner (text "laptop"))
unfolding socket
laptop_key = refl

second_recorded :
    get (key_of auth.owner (text "laptop")) first_socket.services.records.connections
    ≡ some second_record
unfolding socket
second_recorded = refl

first_joined : joined.socket.connection_id ≡ some (text "conn_a")
unfolding socket
first_joined = refl

owner_parses : normalize_owner auth.owner ≡ ok auth.owner
unfolding socket
owner_parses = refl

device_parses : normalize_required_id (some hello.device_id) "deviceId" ≡ ok (text "laptop")
unfolding socket
device_parses = refl

connection_parses : normalize_required_id (some (text "conn_a")) "connectionId" ≡ ok (text "conn_a")
unfolding socket
connection_parses = refl

other_connection : text "conn_b" ≢ text "conn_a"
unfolding socket
other_connection e = ground arith

given : truthy (text "conn_a") ≡ true
unfolding socket
given = refl

on_close-replaced_example :
    ((current : RegisteredConnection) × (get
          (text "laptop")
          first_socket.services.channel.connections
        ≡ some current)
      × (current.connection ≡ 2))
    × (get
          (text "laptop")
          (on_close auth 1 clock (text "a") first_socket).services.channel.connections
        ≡ none)
    × ((on_close auth 1 clock (text "a") first_socket).services.records
        ≡ first_socket.services.records)
on_close-replaced_example =
    on_close-replaced auth auth 1 2 clock (text "a") clock (text "b") joined again hello hello
      first_said again_said refl (text "conn_a") auth.owner (text "laptop") (text "conn_a")
      (key_of auth.owner (text "laptop")) second_record first_joined given owner_parses
      device_parses connection_parses laptop_key second_recorded other_connection

-- The hello waits for the registration of the device.
abbrev greeted : SocketState
greeted = (greet auth 1 clock (text "a") hello fresh).0

greeted_said : greeted.socket.hello ≡ some hello
unfolding socket
greeted_said = refl

greeted_waits : greeted.socket.connection_id ≡ none
unfolding socket
greeted_waits = refl

on_close-early_example :
    (on_close auth 1 clock (text "a") greeted ≡ greeted)
    × ((registered : RegisteredConnection) × (get
            (text "laptop")
            (join auth 1 clock
              (text "a")
              hello
              (on_close auth 1 clock (text "a") greeted)).0.services.channel.connections
          ≡ some registered)
        × (registered.connection ≡ 1))
on_close-early_example =
    on_close-early auth 1 clock (text "a") greeted hello greeted_said greeted_waits

-- A call of a phone waits, and the laptop answers it.
abbrev phone_call : PendingToolCall
phone_call = record { device_id = text "phone"; promise = 0 }

abbrev waiting : SocketState
waiting = record joined {
  services = record joined.services {
    channel = record joined.services.channel {
      pending_tool_calls = (text "c9", phone_call) ∷ [];
      calls = 1;
    };
  };
}

abbrev foreign : ToolResultMessage Json
foreign = record { device_id = none; tool_call_id = text "c9"; result = tool_ok json_null }

abbrev wire_foreign : Option Json
wire_foreign = some (agent_message_json (tool_result_message foreign))

waiting_said : waiting.socket.hello ≡ some hello
unfolding socket
waiting_said = refl

phone_waits : get foreign.tool_call_id waiting.services.channel.pending_tool_calls ≡ some phone_call
unfolding socket
phone_waits = refl

phone_unanswered : answer_of phone_call.promise waiting.services.channel.settled ≡ none
unfolding socket
phone_unanswered = refl

other_device : phone_call.device_id ≢ hello.device_id
unfolding socket
other_device e = ground arith

on_message-crosses_example :
    answer_of 0 (on_message auth 1 clock (text "a") wire_foreign waiting).services.channel.settled
    ≡ some (resolved (tool_ok json_null))
on_message-crosses_example =
    on_message-crosses auth 1 clock (text "a") waiting hello waiting_said wire_foreign foreign
      phone_call (parse-agent_message_json (tool_result_message foreign) tt) refl phone_waits
      other_device phone_unanswered
