-- ===== src/Connections/Laws.antt =====
-- Stale connections: src/cloud-device-connection-store.ts.
use xautojs_devspace.Connections.{
  ConnectedInput, ConnectionInput, ConnectionRecord, ConnectionStatus, ConnectionStore,
  connection_key, record_connected, record_disconnected, record_heartbeat,
}
use xautojs_devspace.Prelude.{arith, none, some, ◌≡◌, ◌≢◌, ◌⊎◌}
use xautojs_devspace.Prelude.JsMap.{Entries, Entries-get, Entries-put, get, get-put}
use xautojs_devspace.Prelude.Result.{ok}
use xautojs_devspace.Prelude.Text.{Text}
use xautojs_devspace.Prelude.Text.Laws.{text_eq_iff, text_eq_refl}
use xautojs_devspace.Routing.Contract.{
  WorkspaceIdentity, normalize_owner, normalize_required_id, route_now,
}

abbrev pub ConnectionKeyed : Text → ConnectionRecord → Type 0
ConnectionKeyed key c = connection_key c.owner c.device_id ≡ ok key

-- The record says offline exactly where it has a time of disconnection.
abbrev pub IsConsistent : ConnectionRecord → Type 0
IsConsistent c =
    ((c.status ≡ ConnectionStatus.online) × (c.disconnected_at ≡ none))
    ⊎ ((c.status ≡ ConnectionStatus.offline) × (c.disconnected_at ≡ some c.last_heartbeat_at))

-- What holds of each entry of the store.
abbrev pub GoodConnection : Text → ConnectionRecord → Type 0
GoodConnection key c = ConnectionKeyed key c × IsConsistent c

module _ (clock : Text) (store : ConnectionStore)
    (good : Entries GoodConnection store.connections) where
  pub record_connected-Good :
      (input : ConnectedInput)
      → Entries GoodConnection (record_connected clock input store).0.connections
  unfolding record_connected
  record_connected-Good input = grind (arith, Entries-put)

  pub record_heartbeat-Good :
      (input : ConnectionInput)
      → Entries GoodConnection (record_heartbeat clock input store).0.connections
  unfolding record_heartbeat
  record_heartbeat-Good input = grind (arith, Entries-put, Entries-get)

  pub record_disconnected-Good :
      (input : ConnectionInput)
      → Entries GoodConnection (record_disconnected clock input store).0.connections
  unfolding record_disconnected
  record_disconnected-Good input = grind (arith, Entries-put, Entries-get)

module _ (clock : Text) (store : ConnectionStore) (input : ConnectionInput)
    (owner : WorkspaceIdentity) (device_id connection_id key : Text)
    (o : normalize_owner input.owner ≡ ok owner)
    (d : normalize_required_id (some input.device_id) "deviceId" ≡ ok device_id)
    (c : normalize_required_id (some input.connection_id) "connectionId" ≡ ok connection_id)
    (k : connection_key owner device_id ≡ ok key) where
  -- A heartbeat or a disconnection whose ids parse and that names another connection than the current
  -- one, such as one that was replaced, answers nothing and changes nothing.
  pub stale_ignored :
      (existing : ConnectionRecord)
      → get key store.connections ≡ some existing
      → existing.connection_id ≢ connection_id
      → (record_heartbeat clock input store ≡ (store, ok none))
        × (record_disconnected clock input store ≡ (store, ok none))
  unfolding record_heartbeat record_disconnected
  stale_ignored existing found stale =
      ground (arith, text_eq_iff existing.connection_id connection_id)

  -- A disconnection by the current connection, whose ids and instant parse, marks the device offline from that instant on, and
  -- keeps its connection, its capabilities and the time of its first connection.
  pub record_disconnected_lem :
      (existing : ConnectionRecord) (now : Text)
      → get key store.connections ≡ some existing
      → existing.connection_id ≡ connection_id
      → route_now clock input.now ≡ ok now
      → (get key (record_disconnected clock input store).0.connections
          ≡ some (record existing {
            status = ConnectionStatus.offline;
            last_heartbeat_at = now;
            disconnected_at = some now;
          }))
  unfolding record_disconnected
  record_disconnected_lem existing now found same n =
      grind (arith, get-put, text_eq_iff existing.connection_id connection_id, text_eq_refl)
