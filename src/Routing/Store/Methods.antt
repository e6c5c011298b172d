-- ===== src/Routing/Store/Methods.antt =====
-- The methods of `InMemoryCloudRoutingStore` in src/cloud-routing-store.ts, statement by statement.
-- They hold no `await`, so a call runs as one step. `clock` is the current instant of the call.
use xautojs_devspace.Prelude.{Bool, Option, [], false, get_or, none, not, some, ◌∷◌}
use xautojs_devspace.Prelude.Int.{ℤ}
use xautojs_devspace.Prelude.JsMap.{get, put}
use xautojs_devspace.Prelude.State.{
  Method, gets, lift, modify, or_throw, pure, throw_if, ◌>>=◌, ◌>>◌,
}
use xautojs_devspace.Prelude.Text.{Text}
use xautojs_devspace.Routing.Contract.{
  BindWorkspaceInput, DeviceRecord, RegisterDeviceInput, RoutingError, SetDeviceStatusInput,
  WorkspaceIdentity, WorkspaceRouteRecord, active, normalize_optional_id, normalize_owner,
  normalize_required_id, online, route_now, routing_error, workspace_forbidden,
}
use xautojs_devspace.Routing.Contract.Capabilities.{normalize_capabilities}
use xautojs_devspace.Routing.Store.{
  RoutingStore, assert_device_routeable, same_workspace_binding, scoped_key, unregistered,
}

abbrev pub StoreMethod : Type 0 → Type 0
StoreMethod A = Method RoutingStore RoutingError A

-- `existing?.registeredAt ?? now`
abbrev first_registered : Option DeviceRecord → Text → Text
first_registered none now = now
first_registered (some existing) now = existing.registered_at

-- `existing?.createdAt ?? now`
abbrev first_created : Option WorkspaceRouteRecord → Text → Text
first_created none now = now
first_created (some existing) now = existing.created_at

-- `existing?.lastRoutedAt`
abbrev previously_routed : Option WorkspaceRouteRecord → Option Text
previously_routed none = none
previously_routed (some existing) = existing.last_routed_at

-- `existing && !sameWorkspaceBinding(existing, …)`
abbrev bound_elsewhere : Option WorkspaceRouteRecord → Text → Option Text → Text → Bool
bound_elsewhere none session conversation device = false
bound_elsewhere (some existing) session conversation device =
    not (same_workspace_binding existing session conversation device)

module _ (clock : Text) where
  unfoldable pub register_device : RegisterDeviceInput → StoreMethod DeviceRecord
  register_device input = do
    owner ← lift (normalize_owner input.owner)
    device_id ← lift (normalize_required_id (some input.device_id) "deviceId")
    key ← lift (scoped_key owner device_id)
    now ← lift (route_now clock input.now)
    existing ← gets λ store. get key store.devices
    label ← lift (normalize_optional_id input.label "label")
    capabilities ← lift (normalize_capabilities input.capabilities)
    expires_at ← lift (normalize_optional_id input.expires_at "expiresAt")
    let device : DeviceRecord = record {
      device_id = device_id;
      owner = owner;
      label = label;
      capabilities = capabilities;
      status = get_or input.status online;
      registered_at = first_registered existing now;
      last_seen_at = now;
      expires_at = expires_at;
    }
    modify λ store. record store { devices = put key device store.devices }
    pure device

  unfoldable pub set_device_status : SetDeviceStatusInput → StoreMethod DeviceRecord
  set_device_status input = do
    owner ← lift (normalize_owner input.owner)
    device_id ← lift (normalize_required_id (some input.device_id) "deviceId")
    key ← lift (scoped_key owner device_id)
    found ← gets λ store. get key store.devices
    existing ← or_throw found (unregistered device_id)
    now ← lift (route_now clock input.now)
    let updated : DeviceRecord = record existing { status = input.status; last_seen_at = now }
    modify λ store. record store { devices = put key updated store.devices }
    pure updated

unfoldable pub get_device : WorkspaceIdentity → Text → StoreMethod (Option DeviceRecord)
get_device owner_input device_id_input = do
  owner ← lift (normalize_owner owner_input)
  device_id ← lift (normalize_required_id (some device_id_input) "deviceId")
  key ← lift (scoped_key owner device_id)
  gets λ store. get key store.devices

module _ (date_parse : Text → Option ℤ) (clock : Text) where
  unfoldable pub bind_workspace_route : BindWorkspaceInput → StoreMethod WorkspaceRouteRecord
  bind_workspace_route input = do
    owner ← lift (normalize_owner input.owner)
    session ← lift (normalize_required_id (some input.mcp_session_id) "mcpSessionId")
    conversation ←
        lift (normalize_optional_id input.conversation_session_id "conversationSessionId")
    workspace_id ← lift (normalize_required_id (some input.workspace_id) "workspaceId")
    device_id ← lift (normalize_required_id (some input.device_id) "deviceId")
    now ← lift (route_now clock input.now)
    device_key ← lift (scoped_key owner device_id)
    device ← gets λ store. get device_key store.devices
    lift (assert_device_routeable date_parse device device_id now)
    route_key ← lift (scoped_key owner workspace_id)
    existing ← gets λ store. get route_key store.workspace_routes
    throw_if (bound_elsewhere existing session conversation device_id) (
        routing_error workspace_forbidden
          "workspaceId is already bound to another MCP session, conversation, or device."
          (("workspaceId", workspace_id) ∷ ("mcpSessionId", session) ∷ []))
    workspace_ref ← lift (normalize_optional_id input.workspace_ref "workspaceRef")
    expires_at ← lift (normalize_optional_id input.expires_at "expiresAt")
    let route : WorkspaceRouteRecord = record {
      workspace_id = workspace_id;
      owner = owner;
      mcp_session_id = session;
      conversation_session_id = conversation;
      device_id = device_id;
      workspace_ref = workspace_ref;
      status = active;
      created_at = first_created existing now;
      last_routed_at = previously_routed existing;
      expires_at = expires_at;
    }
    modify λ store. record store { workspace_routes = put route_key route store.workspace_routes }
    pure route
