-- ===== src/Socket.antt =====
-- src/cloud-device-websocket-route.ts: a device's socket at the gateway, over the routing store, the
-- device channel, the connection store and the catalog. `authenticate` and the sockets of `ws` are
-- outside: their answers and events are arguments, and the closes that a socket is asked for are
-- listed. The handler of a hello is cut at its two awaits: `greet`, `join` and `pass_on`.
pub mod Messages
pub mod Wire
pub mod RoundTrip
pub mod Events
pub mod Laws
pub mod Crossing
mod Tests
use xautojs_devspace.Catalog.{CatalogStore, record_catalog}
use xautojs_devspace.Channel.{Channel, handle_device_message, register_connection}
use xautojs_devspace.Channel.Messages.{
  AgentMessage, HeartbeatMessage, HelloMessage, WorkspaceCatalogMessage, heartbeat_message,
  hello_message, tool_result_message, workspace_catalog_message,
}
use xautojs_devspace.Connections.{
  ConnectionRecord, ConnectionStore, record_connected, record_heartbeat,
}
use xautojs_devspace.Prelude.{
  Bool, List, Option, [], false, if◌then◌else◌, none, not, some, true, ℕ, ◌&&◌, ◌++◌, ◌∷◌,
}
use xautojs_devspace.Prelude.Json.{Json}
use xautojs_devspace.Prelude.Result.{Result, err, ok}
use xautojs_devspace.Prelude.State.{Method, gets, modify, pure, ◌>>=◌, ◌>>◌}
use xautojs_devspace.Prelude.Text.{Text, option_text_eq, truthy}
use xautojs_devspace.Routing.Contract.{DeviceRecord, DeviceStatus, RoutingError, WorkspaceIdentity}
use xautojs_devspace.Routing.Store.{RoutingStore}
use xautojs_devspace.Routing.Store.Methods.{register_device, set_device_status}

-- `CloudDeviceWebSocketAuthContext`
pub record SocketAuth : Type 0 where
  pub owner : WorkspaceIdentity
  pub device_id : Option Text
  pub desktop_instance_id : Option Text
  pub expires_at : Option Text

-- What becomes of an upgrade.
pub data UpgradeOutcome : Type 0 where
  ignored destroyed : UpgradeOutcome
  accepted : SocketAuth → UpgradeOutcome

-- `onUpgrade`, where `authenticate` throws, or answers.
unfoldable pub on_upgrade : Bool → Result Text (Option SocketAuth) → UpgradeOutcome
on_upgrade false answer = ignored
on_upgrade true (err e) = destroyed
on_upgrade true (ok none) = destroyed
on_upgrade true (ok (some auth)) = accepted auth

pub record GatewayServices : Type 0 where
  pub routing : RoutingStore
  pub channel : Channel Json
  pub records : ConnectionStore
  pub catalog : CatalogStore

-- The variables of `handleDeviceSocket`.
pub record DeviceSocket : Type 0 where
  pub hello : Option HelloMessage
  pub connection_id : Option Text
  pub closes : List (ℕ × Text)

pub record SocketState : Type 0 where
  pub socket : DeviceSocket
  pub services : GatewayServices

abbrev pub SocketMethod : Type 0 → Type 0
SocketMethod A = Method SocketState RoutingError A

-- A method of one service; its result is not read.
unfoldable pub on_routing : {A : Type 0} → Method RoutingStore RoutingError A → SocketMethod A
on_routing m s =
    let (t, r) = m s.services.routing in
    (record s { services = record s.services { routing = t } }, r)

unfoldable pub on_records : {A : Type 0} → Method ConnectionStore RoutingError A → SocketMethod A
on_records m s =
    let (t, r) = m s.services.records in
    (record s { services = record s.services { records = t } }, r)

unfoldable pub on_catalog : {A : Type 0} → Method CatalogStore RoutingError A → SocketMethod A
on_catalog m s =
    let (t, r) = m s.services.catalog in
    (record s { services = record s.services { catalog = t } }, r)

abbrev pub with_channel : (Channel Json → Channel Json) → SocketState → SocketState
with_channel f s = record s { services = record s.services { channel = f s.services.channel } }

-- `.catch(() => undefined)`
abbrev pub settled_anyway : {A : Type 0} → SocketMethod A → SocketState → SocketState
settled_anyway m s = (m s).0

unfoldable pub close_socket : ℕ → Text → SocketState → SocketState
close_socket code reason s = record s {
  socket = record s.socket { closes = s.socket.closes ++ (code, reason) ∷ [] };
}

-- `given && given !== other`
abbrev pub differs : Option Text → Option Text → Bool
differs none other = false
differs (some given) other = truthy given && not (option_text_eq (some given) other)

unfoldable pub hello_matches_auth : HelloMessage → SocketAuth → Bool
hello_matches_auth message auth =
    if differs auth.device_id (some message.device_id)
    then false
    else not (differs auth.desktop_instance_id message.desktop_instance_id)

-- `message.deviceId`
unfoldable pub device_id_of : AgentMessage Json → Option Text
device_id_of (hello_message m) = some m.device_id
device_id_of (heartbeat_message m) = some m.device_id
device_id_of (workspace_catalog_message m) = some m.device_id
device_id_of (tool_result_message m) = m.device_id

-- `connection` is the socket's `CloudDeviceConnection`; `uuid` the id that the channel draws.
module _ (auth : SocketAuth) (connection : ℕ) (clock uuid : Text) where
  -- Up to the first await.
  unfoldable pub greet : HelloMessage → SocketMethod DeviceRecord
  unfolding on_routing register_device
  greet message = do
    modify λ s. record s { socket = record s.socket { hello = some message } }
    on_routing (
        register_device clock (record {
          owner = auth.owner;
          device_id = message.device_id;
          label = none;
          capabilities = some message.capabilities;
          status = some DeviceStatus.online;
          now = some message.time;
          expires_at = auth.expires_at;
        }))

  -- Between the awaits.
  unfoldable pub join : HelloMessage → SocketMethod ConnectionRecord
  unfolding register_connection on_records record_connected
  join message = do
    channel ← gets λ s. s.services.channel
    let (after, registered) =
        register_connection clock uuid
          (record {
            device_id = message.device_id;
            connection = connection;
            connection_id = none;
            capabilities = some message.capabilities;
            now = some message.time;
          })
          channel
    modify λ s. record (with_channel (λ c. after) s) {
      socket = record s.socket { connection_id = some registered.connection_id };
    }
    on_records (
        record_connected clock (record {
          owner = auth.owner;
          device_id = message.device_id;
          connection_id = registered.connection_id;
          capabilities = some message.capabilities;
          desktop_instance_id = message.desktop_instance_id;
          agent_version = message.agent_version;
          now = some message.time;
        }))

  -- After the second await, and for a result.
  unfoldable pub pass_on : AgentMessage Json → SocketMethod (Unit {0})
  unfolding handle_device_message
  pass_on message = modify (with_channel (handle_device_message message))

  unfoldable pub handle_heartbeat : HeartbeatMessage → SocketMethod (Unit {0})
  unfolding pass_on on_routing set_device_status on_records record_heartbeat
  handle_heartbeat message = do
    pass_on (heartbeat_message message)
    on_routing (
        set_device_status clock (record {
          owner = auth.owner;
          device_id = message.device_id;
          status = DeviceStatus.online;
          now = some message.time;
        }))
    current ← gets λ s. s.socket.connection_id
    elim current [
      | none ↦ pure tt
      | some connection_id ↦
          if truthy connection_id
          then (do
            on_records (
                record_heartbeat clock (record {
                  owner = auth.owner;
                  device_id = message.device_id;
                  connection_id = connection_id;
                  now = some message.time;
                }))
            pure tt)
          else pure tt
    ]

  unfoldable pub handle_workspace_catalog : WorkspaceCatalogMessage → SocketMethod (Unit {0})
  unfolding on_catalog record_catalog
  handle_workspace_catalog message = do
    on_catalog (
        record_catalog clock (record {
          owner = auth.owner;
          device_id = message.device_id;
          catalog_version = message.catalog_version;
          workspaces = message.workspaces;
          now = some message.time;
        }))
    pure tt
