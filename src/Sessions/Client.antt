-- ===== src/Sessions/Client.antt =====
-- The pairing service over the routing store: what `routingStore.getDevice` answers.
use xautojs_devspace.Prelude.{arith, ◌≡◌}
use xautojs_devspace.Prelude.Text.{Text}
use xautojs_devspace.Routing.Contract.{WorkspaceIdentity}
use xautojs_devspace.Routing.Store.{RoutingStore}
use xautojs_devspace.Routing.Store.Methods.{get_device}
use xautojs_devspace.Sessions.{DeviceLookup}

abbrev pub lookup_in : RoutingStore → DeviceLookup
lookup_in store owner device_id = (get_device owner device_id store).1

-- `getDevice` changes nothing, so the pairing service leaves the routing store alone.
pub get_device-unchanged :
    (owner : WorkspaceIdentity) (device_id : Text) (store : RoutingStore)
    → (get_device owner device_id store).0 ≡ store
unfolding get_device
get_device-unchanged owner device_id store = ground arith
