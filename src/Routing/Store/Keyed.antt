-- ===== src/Routing/Store/Keyed.antt =====
-- Each record of the store stands under the key of its own owner and id.
use xautojs_devspace.Prelude.{Option, arith, none, some, ◌≡◌}
use xautojs_devspace.Prelude.Int.{ℤ}
use xautojs_devspace.Prelude.JsMap.{Entries, Entries-get, Entries-put}
use xautojs_devspace.Prelude.Result.{ok}
use xautojs_devspace.Prelude.Text.{Text}
use xautojs_devspace.Routing.Contract.{
  BindWorkspaceInput, CompleteToolCallInput, DeviceRecord, RegisterDeviceInput, RemoteMcpToolName,
  ResolveWorkspaceInput, SetDeviceStatusInput, ToolCallRecord, WorkspaceIdentity,
  WorkspaceRouteRecord,
}
use xautojs_devspace.Routing.Store.{RoutingStore, scoped_key}
use xautojs_devspace.Routing.Store.Methods.{
  bind_workspace_route, register_device, set_device_status,
}
use xautojs_devspace.Routing.Store.ToolCalls.{
  complete_tool_call_route, record_if_identified, resolve_workspace_route,
}

abbrev pub DeviceKeyed : Text → DeviceRecord → Type 0
DeviceKeyed key device = scoped_key device.owner device.device_id ≡ ok key

abbrev pub RouteKeyed : Text → WorkspaceRouteRecord → Type 0
RouteKeyed key route = scoped_key route.owner route.workspace_id ≡ ok key

abbrev pub CallKeyed : Text → ToolCallRecord → Type 0
CallKeyed key call = scoped_key call.owner call.tool_call_id ≡ ok key

pub record IsKeyed (store : RoutingStore) : Type 0 where
  pub devices : Entries DeviceKeyed store.devices
  pub routes : Entries RouteKeyed store.workspace_routes
  pub calls : Entries CallKeyed store.tool_call_routes

module _ (clock : Text) {store : RoutingStore} (keyed : IsKeyed store) where
  pub register_device-IsKeyed :
      (input : RegisterDeviceInput) → IsKeyed (register_device clock input store).0
  unfolding register_device
  register_device-IsKeyed input = grind (arith, Entries-put)

  pub set_device_status-IsKeyed :
      (input : SetDeviceStatusInput) → IsKeyed (set_device_status clock input store).0
  unfolding set_device_status
  set_device_status-IsKeyed input = grind (arith, Entries-put, Entries-get)

  pub complete_tool_call_route-IsKeyed :
      (input : CompleteToolCallInput) → IsKeyed (complete_tool_call_route clock input store).0
  unfolding complete_tool_call_route
  complete_tool_call_route-IsKeyed input = grind (arith, Entries-put, Entries-get)

  module _ (date_parse : Text → Option ℤ) where
    pub bind_workspace_route-IsKeyed :
        (input : BindWorkspaceInput) → IsKeyed (bind_workspace_route date_parse clock input store).0
    unfolding bind_workspace_route
    bind_workspace_route-IsKeyed input = grind (arith, Entries-put)

module _ {store : RoutingStore} (keyed : IsKeyed store) where
  pub record_if_identified-IsKeyed :
      (id : Option Text) (owner : WorkspaceIdentity) (route : WorkspaceRouteRecord)
      (tool : Option RemoteMcpToolName) (now : Text) (deadline : Option Text)
      → IsKeyed (record_if_identified id owner route tool now deadline store).0
  unfolding record_if_identified
  record_if_identified-IsKeyed none owner route tool now deadline = keyed
  record_if_identified-IsKeyed (some id) owner route tool now deadline =
      grind (arith, Entries-put, Entries-get)

pub resolve_workspace_route-IsKeyed :
    (date_parse : Text → Option ℤ) (clock : Text) {store : RoutingStore}
    → IsKeyed store
    → (input : ResolveWorkspaceInput)
    → IsKeyed (resolve_workspace_route date_parse clock input store).0
unfolding resolve_workspace_route
resolve_workspace_route-IsKeyed date_parse clock {store} keyed input =
    grind (arith, Entries-put, Entries-get, record_if_identified-IsKeyed)
