-- ===== src/Connections/Tests.antt =====
-- A connection that was replaced, and the theorems there.
use mathlib.Core.List.{[], ◌∷◌}
use xautojs_devspace.Connections.{
  ConnectionInput, ConnectionRecord, ConnectionStatus, ConnectionStore, connection_key,
  record_connected, record_disconnected, record_heartbeat,
}
use xautojs_devspace.Prelude.{arith, false, none, refl, some, ◌++◌, ◌≡◌, ◌≢◌}
use xautojs_devspace.Prelude.JsMap.{get, put}
use xautojs_devspace.Prelude.Result.{ok}
use xautojs_devspace.Prelude.Text.{Text, text, text_eq, trim}
use xautojs_devspace.Prelude.Text.Laws.{text_eq_iff}
use xautojs_devspace.Routing.Contract.{
  WorkspaceIdentity, normalize_optional_id, normalize_owner, normalize_required_id, owner_key,
  route_now, separator,
}

connections : Unit {0}
unfolding record_connected record_heartbeat record_disconnected connection_key normalize_owner
    normalize_required_id normalize_optional_id route_now trim text get put text_eq owner_key
connections = tt

abbrev clock : Text
clock = text "2026-01-01T00:00:00.000Z"

abbrev ann : WorkspaceIdentity
ann = record { tenant_id = text "acme"; user_id = text "ann" }

abbrev current : ConnectionRecord
current = record {
  owner = ann;
  device_id = text "laptop";
  connection_id = text "conn_2";
  status = ConnectionStatus.online;
  capabilities = [];
  desktop_instance_id = none;
  agent_version = none;
  connected_at = clock;
  last_heartbeat_at = clock;
  disconnected_at = none;
}

abbrev device_key : Text
device_key = (text "acme" ++ (separator ∷ text "ann")) ++ (separator ∷ text "laptop")

abbrev store : ConnectionStore
store = record { connections = (device_key, current) ∷ [] }

abbrev from : Text → ConnectionInput
from connection_id = record {
  owner = ann;
  device_id = text "laptop";
  connection_id = connection_id;
  now = none;
}

ann_parsed : normalize_owner ann ≡ ok ann
unfolding connections
ann_parsed = refl

laptop_parsed : normalize_required_id (some (text "laptop")) "deviceId" ≡ ok (text "laptop")
unfolding connections
laptop_parsed = refl

key_made : connection_key ann (text "laptop") ≡ ok device_key
unfolding connections
key_made = refl

stored : get device_key store.connections ≡ some current
unfolding connections
stored = refl

old_parsed : normalize_required_id (some (text "conn_1")) "connectionId" ≡ ok (text "conn_1")
unfolding connections
old_parsed = refl

current_parsed : normalize_required_id (some (text "conn_2")) "connectionId" ≡ ok (text "conn_2")
unfolding connections
current_parsed = refl

differ : text_eq (text "conn_2") (text "conn_1") ≡ false
unfolding connections
differ = refl

replaced : current.connection_id ≢ text "conn_1"
replaced e = absurd (ground (arith, differ, (text_eq_iff (text "conn_2") (text "conn_1")).1 e))

now_parsed : route_now clock none ≡ ok clock
unfolding connections
now_parsed = refl
