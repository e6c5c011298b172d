-- ===== src/Connections.antt =====
-- src/cloud-device-connection-store.ts: `InMemoryCloudDeviceConnectionStore`, which device is
-- connected, by which connection, and since when. `listConnections`, which only reads, is left out.
pub mod Laws
mod Tests
use xautojs_devspace.Prelude.Result
use xautojs_devspace.Prelude.{List, Option, if◌then◌else◌, none, not, some, ◌++◌, ◌∷◌}
use xautojs_devspace.Prelude.JsMap.{JsMap, get, put}
use xautojs_devspace.Prelude.Result.{Result, ok}
use xautojs_devspace.Prelude.State.{Method, gets, lift, modify, pure, ◌>>=◌, ◌>>◌}
use xautojs_devspace.Prelude.Text.{Text, text_eq}
use xautojs_devspace.Routing.Contract.{
  RoutingError, WorkspaceIdentity, normalize_optional_id, normalize_owner, normalize_required_id,
  owner_key, route_now, separator,
}
use xautojs_devspace.Routing.Contract.Capabilities.{normalize_capabilities}

pub data ConnectionStatus : Type 0 where
  online offline : ConnectionStatus

pub record ConnectionRecord : Type 0 where
  pub owner : WorkspaceIdentity
  pub device_id : Text
  pub connection_id : Text
  pub status : ConnectionStatus
  pub capabilities : List Text
  pub desktop_instance_id : Option Text
  pub agent_version : Option Text
  pub connected_at : Text
  pub last_heartbeat_at : Text
  pub disconnected_at : Option Text

pub record ConnectedInput : Type 0 where
  pub owner : WorkspaceIdentity
  pub device_id : Text
  pub connection_id : Text
  pub capabilities : Option (List Text)
  pub desktop_instance_id : Option Text
  pub agent_version : Option Text
  pub now : Option Text

-- The input of a heartbeat and of a disconnection.
pub record ConnectionInput : Type 0 where
  pub owner : WorkspaceIdentity
  pub device_id : Text
  pub connection_id : Text
  pub now : Option Text

pub record ConnectionStore : Type 0 where
  pub connections : JsMap ConnectionRecord

abbrev pub ConnectionMethod : Type 0 → Type 0
ConnectionMethod A = Method ConnectionStore RoutingError A

unfoldable pub connection_key : WorkspaceIdentity → Text → Result RoutingError Text
unfolding owner_key
connection_key owner device_id =
    Result.◌>>=◌ (owner_key owner) λ key. ok (key ++ (separator ∷ device_id))

-- `existing?.connectedAt ?? now`
abbrev first_connected : Option ConnectionRecord → Text → Text
first_connected none now = now
first_connected (some existing) now = existing.connected_at

module _ (clock : Text) where
  unfoldable pub record_connected : ConnectedInput → ConnectionMethod ConnectionRecord
  record_connected input = do
    owner ← lift (normalize_owner input.owner)
    device_id ← lift (normalize_required_id (some input.device_id) "deviceId")
    connection_id ← lift (normalize_required_id (some input.connection_id) "connectionId")
    now ← lift (route_now clock input.now)
    key ← lift (connection_key owner device_id)
    existing ← gets λ store. get key store.connections
    capabilities ← lift (normalize_capabilities input.capabilities)
    instance_id ← lift (normalize_optional_id input.desktop_instance_id "desktopInstanceId")
    agent_version ← lift (normalize_optional_id input.agent_version "agentVersion")
    let connected : ConnectionRecord = record {
      owner = owner;
      device_id = device_id;
      connection_id = connection_id;
      status = ConnectionStatus.online;
      capabilities = capabilities;
      desktop_instance_id = instance_id;
      agent_version = agent_version;
      connected_at = first_connected existing now;
      last_heartbeat_at = now;
      disconnected_at = none;
    }
    modify λ store. record store { connections = put key connected store.connections }
    pure connected

  -- `{ ...existing, status: "online", lastHeartbeatAt: …, disconnectedAt: undefined }`
  abbrev pub beaten : ConnectionRecord → Text → ConnectionRecord
  beaten existing now = record existing {
    status = ConnectionStatus.online;
    last_heartbeat_at = now;
    disconnected_at = none;
  }

  -- `{ ...existing, status: "offline", lastHeartbeatAt: now, disconnectedAt: now }`
  abbrev pub dropped : ConnectionRecord → Text → ConnectionRecord
  dropped existing now = record existing {
    status = ConnectionStatus.offline;
    last_heartbeat_at = now;
    disconnected_at = some now;
  }

  -- What follows the look-up, in the heartbeat and in the disconnection: `change` is what is written.
  touch :
      (ConnectionRecord → Text → ConnectionRecord)
      → Option ConnectionRecord
      → Text
      → Text
      → Option Text
      → ConnectionMethod (Option ConnectionRecord)
  touch change none key connection_id now_input = pure none
  touch change (some existing) key connection_id now_input =
      if not (text_eq existing.connection_id connection_id) then pure none else (do
        now ← lift (route_now clock now_input)
        modify
            λ store. record store { connections = put key (change existing now) store.connections }
        pure (some (change existing now)))

  unfoldable pub record_heartbeat : ConnectionInput → ConnectionMethod (Option ConnectionRecord)
  unfolding touch
  record_heartbeat input = do
    owner ← lift (normalize_owner input.owner)
    device_id ← lift (normalize_required_id (some input.device_id) "deviceId")
    connection_id ← lift (normalize_required_id (some input.connection_id) "connectionId")
    key ← lift (connection_key owner device_id)
    existing ← gets λ store. get key store.connections
    touch beaten existing key connection_id input.now

  unfoldable pub record_disconnected : ConnectionInput → ConnectionMethod (Option ConnectionRecord)
  unfolding touch
  record_disconnected input = do
    owner ← lift (normalize_owner input.owner)
    device_id ← lift (normalize_required_id (some input.device_id) "deviceId")
    connection_id ← lift (normalize_required_id (some input.connection_id) "connectionId")
    key ← lift (connection_key owner device_id)
    existing ← gets λ store. get key store.connections
    touch dropped existing key connection_id input.now

unfoldable pub get_connection :
    WorkspaceIdentity → Text → ConnectionMethod (Option ConnectionRecord)
get_connection owner_input device_id_input = do
  owner ← lift (normalize_owner owner_input)
  device_id ← lift (normalize_required_id (some device_id_input) "deviceId")
  key ← lift (connection_key owner device_id)
  gets λ store. get key store.connections
