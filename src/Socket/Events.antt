-- ===== src/Socket/Events.antt =====
-- The events of a device's socket: src/cloud-device-websocket-route.ts.
use xautojs_devspace.Channel.{unregister_connection}
use xautojs_devspace.Channel.Messages.{
  AgentMessage, HelloMessage, heartbeat_message, hello_message, tool_result_message,
  workspace_catalog_message,
}
use xautojs_devspace.Connections.{record_disconnected}
use xautojs_devspace.Prelude.{Option, if◌then◌else◌, none, some, ℕ}
use xautojs_devspace.Prelude.Json.{Json}
use xautojs_devspace.Prelude.Result.{err, ok}
use xautojs_devspace.Prelude.State.{◌>>◌}
use xautojs_devspace.Prelude.Text.{Text, text, truthy}
use xautojs_devspace.Routing.Contract.{DeviceStatus}
use xautojs_devspace.Routing.Store.Methods.{set_device_status}
use xautojs_devspace.Socket.{
  SocketAuth, SocketMethod, SocketState, close_socket, device_id_of, differs, greet,
  handle_heartbeat, handle_workspace_catalog, hello_matches_auth, join, on_records, on_routing,
  pass_on, settled_anyway, with_channel,
}
use xautojs_devspace.Socket.Messages.{parse_agent_message}

-- The checks of a message, before anything is awaited.
pub data Admission : Type 0 where
  refused : ℕ → Text → Admission
  greeting : HelloMessage → Admission
  admitted : AgentMessage Json → Admission

unfoldable pub admit_first : SocketAuth → AgentMessage Json → Admission
unfolding hello_matches_auth text
admit_first auth (hello_message message) =
    if hello_matches_auth message auth
    then greeting message
    else refused 1008 (text "auth_device_mismatch")
admit_first auth _ = refused 1008 (text "hello_required")

unfoldable pub admit : SocketAuth → Option HelloMessage → AgentMessage Json → Admission
unfolding admit_first device_id_of text
admit auth none message = admit_first auth message
admit auth (some hello) message =
    if differs (device_id_of message) (some hello.device_id)
    then refused 1008 (text "device_mismatch")
    else admitted message

module _ (auth : SocketAuth) (connection : ℕ) (clock uuid : Text) where
  -- The handler of a hello, where nothing else runs while it waits.
  unfoldable pub handle_hello : HelloMessage → SocketMethod (Unit {0})
  handle_hello message =
      greet auth connection clock uuid message
      >> join auth connection clock uuid message
      >> pass_on auth connection clock uuid (hello_message message)

  unfoldable pub handle_admitted : AgentMessage Json → SocketMethod (Unit {0})
  handle_admitted (heartbeat_message m) = handle_heartbeat auth connection clock uuid m
  handle_admitted (workspace_catalog_message m) =
      handle_workspace_catalog auth connection clock uuid m
  handle_admitted (hello_message m) = pass_on auth connection clock uuid (hello_message m)
  handle_admitted (tool_result_message m) =
      pass_on auth connection clock uuid (tool_result_message m)

  -- `.catch(() => { websocket.close(1011, "gateway_error") })`
  unfoldable pub or_close : SocketMethod (Unit {0}) → SocketState → SocketState
  unfolding close_socket text
  or_close m s = elim (m s).1 [
    | ok done ↦ (m s).0
    | err e ↦ close_socket 1011 (text "gateway_error") (m s).0
  ]

  unfoldable pub handle_admission : Admission → SocketState → SocketState
  handle_admission (refused code reason) s = close_socket code reason s
  handle_admission (greeting message) s = or_close (handle_hello message) s
  handle_admission (admitted message) s = or_close (handle_admitted message) s

  -- The listener of "message", of what `JSON.parse` gives where it does not throw.
  unfoldable pub on_message : Option Json → SocketState → SocketState
  unfolding text
  on_message raw s = elim (parse_agent_message raw) [
    | none ↦ close_socket 1003 (text "invalid_message") s
    | some message ↦ handle_admission (admit auth s.socket.hello message) s
  ]

  unfoldable pub leave : HelloMessage → Text → SocketState → SocketState
  unfolding unregister_connection on_routing set_device_status on_records record_disconnected text
  leave hello connection_id s =
      settled_anyway
        (on_records (
          record_disconnected clock (record {
            owner = auth.owner;
            device_id = hello.device_id;
            connection_id = connection_id;
            now = none;
          })))
        (settled_anyway
          (on_routing (
            set_device_status clock (record {
              owner = auth.owner;
              device_id = hello.device_id;
              status = DeviceStatus.offline;
              now = none;
            })))
          (with_channel (unregister_connection hello.device_id (text "websocket_closed")) s))

  -- The listener of "close", where nothing else runs while it waits.
  unfoldable pub on_close : SocketState → SocketState
  on_close s = elim s.socket.hello [
    | none ↦ s
    | some hello ↦ elim s.socket.connection_id [
      | none ↦ s
      | some connection_id ↦ if truthy connection_id then leave hello connection_id s else s
    ]
  ]
