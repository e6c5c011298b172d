-- ===== src/Routing/Store/History.antt =====
-- Histories of calls of `InMemoryCloudRoutingStore` (src/cloud-routing-store.ts), each with the
-- instant at which it runs. A call that throws ends there, and the next one finds what it wrote.
use xautojs_devspace.Prelude.{List, Option, [], ◌∷◌}
use xautojs_devspace.Prelude.Int.{ℤ}
use xautojs_devspace.Prelude.Text.{Text}
use xautojs_devspace.Routing.Contract.{
  BindWorkspaceInput, CompleteToolCallInput, RegisterDeviceInput, ResolveWorkspaceInput,
  SetDeviceStatusInput,
}
use xautojs_devspace.Routing.Store.{RoutingStore, empty}
use xautojs_devspace.Routing.Store.Keyed.{
  IsKeyed, bind_workspace_route-IsKeyed, complete_tool_call_route-IsKeyed, register_device-IsKeyed,
  resolve_workspace_route-IsKeyed, set_device_status-IsKeyed,
}
use xautojs_devspace.Routing.Store.Methods.{
  bind_workspace_route, register_device, set_device_status,
}
use xautojs_devspace.Routing.Store.ToolCalls.{complete_tool_call_route, resolve_workspace_route}

-- The methods that write.
pub data StoreCall : Type 0 where
  register : RegisterDeviceInput → StoreCall
  set_status : SetDeviceStatusInput → StoreCall
  bind : BindWorkspaceInput → StoreCall
  resolve : ResolveWorkspaceInput → StoreCall
  complete : CompleteToolCallInput → StoreCall

module _ (date_parse : Text → Option ℤ) where
  unfoldable pub perform : Text → StoreCall → RoutingStore → RoutingStore
  perform clock (register input) store = (register_device clock input store).0
  perform clock (set_status input) store = (set_device_status clock input store).0
  perform clock (bind input) store = (bind_workspace_route date_parse clock input store).0
  perform clock (resolve input) store = (resolve_workspace_route date_parse clock input store).0
  perform clock (complete input) store = (complete_tool_call_route clock input store).0

  unfoldable pub run : List (Text × StoreCall) → RoutingStore → RoutingStore
  run [] store = store
  run ((clock, call) ∷ rest) store = run rest (perform clock call store)

  pub perform-IsKeyed :
      (clock : Text) (call : StoreCall) {store : RoutingStore}
      → IsKeyed store
      → IsKeyed (perform clock call store)
  unfolding perform
  perform-IsKeyed clock (register input) k = register_device-IsKeyed clock k input
  perform-IsKeyed clock (set_status input) k = set_device_status-IsKeyed clock k input
  perform-IsKeyed clock (bind input) k = bind_workspace_route-IsKeyed clock k date_parse input
  perform-IsKeyed clock (resolve input) k = resolve_workspace_route-IsKeyed date_parse clock k input
  perform-IsKeyed clock (complete input) k = complete_tool_call_route-IsKeyed clock k input

  run-IsKeyed_from :
      (calls : List (Text × StoreCall)) {store : RoutingStore}
      → IsKeyed store
      → IsKeyed (run calls store)
  unfolding run
  run-IsKeyed_from [] k = k
  run-IsKeyed_from ((clock, call) ∷ rest) k = run-IsKeyed_from rest (perform-IsKeyed clock call k)

  -- Whatever calls are made of a new store, each record stands under the key of its own owner and
  -- id, in all three maps.
  pub run-IsKeyed : (calls : List (Text × StoreCall)) → IsKeyed (run calls empty)
  run-IsKeyed calls = run-IsKeyed_from calls (record { devices = tt; routes = tt; calls = tt })
