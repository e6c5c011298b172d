-- ===== src/Routing/Store/Frames.antt =====
-- What each method of `InMemoryCloudRoutingStore` (src/cloud-routing-store.ts) leaves alone, also
-- where it throws.
use xautojs_devspace.Prelude.{Option, arith, none, refl, some, ◌≡◌}
use xautojs_devspace.Prelude.Int.{ℤ}
use xautojs_devspace.Prelude.Result.{err}
use xautojs_devspace.Prelude.Text.{Text}
use xautojs_devspace.Routing.Contract.{
  BindWorkspaceInput, CompleteToolCallInput, RegisterDeviceInput, RemoteMcpToolName,
  ResolveWorkspaceInput, RoutingError, SetDeviceStatusInput, WorkspaceIdentity,
  WorkspaceRouteRecord,
}
use xautojs_devspace.Routing.Store.{RoutingStore}
use xautojs_devspace.Routing.Store.Methods.{
  bind_workspace_route, register_device, set_device_status,
}
use xautojs_devspace.Routing.Store.ToolCalls.{
  complete_tool_call_route, record_if_identified, resolve_workspace_route,
}

pub record_if_identified-devices :
    (id : Option Text) (owner : WorkspaceIdentity) (route : WorkspaceRouteRecord)
    (tool : Option RemoteMcpToolName) (now : Text) (deadline : Option Text) (store : RoutingStore)
    → (record_if_identified id owner route tool now deadline store).0.devices ≡ store.devices
unfolding record_if_identified
record_if_identified-devices none owner route tool now deadline store = refl
record_if_identified-devices (some id) owner route tool now deadline store = ground arith

pub record_if_identified-routes :
    (id : Option Text) (owner : WorkspaceIdentity) (route : WorkspaceRouteRecord)
    (tool : Option RemoteMcpToolName) (now : Text) (deadline : Option Text) (store : RoutingStore)
    → (record_if_identified id owner route tool now deadline store).0.workspace_routes
      ≡ store.workspace_routes
unfolding record_if_identified
record_if_identified-routes none owner route tool now deadline store = refl
record_if_identified-routes (some id) owner route tool now deadline store = ground arith

module _ (date_parse : Text → Option ℤ) (clock : Text) (store : RoutingStore) where
  pub bind_workspace_route-devices :
      (input : BindWorkspaceInput)
      → (bind_workspace_route date_parse clock input store).0.devices ≡ store.devices
  unfolding bind_workspace_route
  bind_workspace_route-devices input = ground arith

  pub resolve_workspace_route-devices :
      (input : ResolveWorkspaceInput)
      → (resolve_workspace_route date_parse clock input store).0.devices ≡ store.devices
  unfolding resolve_workspace_route
  resolve_workspace_route-devices input = grind (arith, record_if_identified-devices)

module _ (clock : Text) (store : RoutingStore) where
  pub complete_tool_call_route-devices :
      (input : CompleteToolCallInput)
      → (complete_tool_call_route clock input store).0.devices ≡ store.devices
  unfolding complete_tool_call_route
  complete_tool_call_route-devices input = ground arith

  -- A registration or a change of status that throws writes nothing; nor does any other method
  -- that is refused before its only write.
  pub register_device-err :
      (input : RegisterDeviceInput) {e : RoutingError}
      → (register_device clock input store).1 ≡ err e
      → (register_device clock input store).0 ≡ store
  unfolding register_device
  register_device-err input h = ground arith

  pub set_device_status-err :
      (input : SetDeviceStatusInput) {e : RoutingError}
      → (set_device_status clock input store).1 ≡ err e
      → (set_device_status clock input store).0 ≡ store
  unfolding set_device_status
  set_device_status-err input h = ground arith

  pub complete_tool_call_route-err :
      (input : CompleteToolCallInput) {e : RoutingError}
      → (complete_tool_call_route clock input store).1 ≡ err e
      → (complete_tool_call_route clock input store).0 ≡ store
  unfolding complete_tool_call_route
  complete_tool_call_route-err input h = ground arith

module _ (date_parse : Text → Option ℤ) (clock : Text) (store : RoutingStore) where
  pub bind_workspace_route-err :
      (input : BindWorkspaceInput) {e : RoutingError}
      → (bind_workspace_route date_parse clock input store).1 ≡ err e
      → (bind_workspace_route date_parse clock input store).0 ≡ store
  unfolding bind_workspace_route
  bind_workspace_route-err input h = ground arith

pub record_if_identified-err :
    (id : Option Text) (owner : WorkspaceIdentity) (route : WorkspaceRouteRecord)
    (tool : Option RemoteMcpToolName) (now : Text) (deadline : Option Text) (store : RoutingStore)
    {e : RoutingError}
    → (record_if_identified id owner route tool now deadline store).1 ≡ err e
    → (record_if_identified id owner route tool now deadline store).0 ≡ store
unfolding record_if_identified
record_if_identified-err none owner route tool now deadline store h = cc
record_if_identified-err (some id) owner route tool now deadline store h = ground arith

pub resolve_workspace_route-err :
    (date_parse : Text → Option ℤ) (clock : Text) (store : RoutingStore)
    (input : ResolveWorkspaceInput) {e : RoutingError}
    → (resolve_workspace_route date_parse clock input store).1 ≡ err e
    → (resolve_workspace_route date_parse clock input store).0.tool_call_routes
      ≡ store.tool_call_routes
unfolding resolve_workspace_route
resolve_workspace_route-err date_parse clock store input h = grind (arith, record_if_identified-err)
