-- ===== src/Routing/Tests.antt =====
-- A device, a workspace bound to it and a tool call, run through the store, and the theorems there.
use mathlib.Core.List.{[], ◌∷◌}
use xautojs_devspace.Prelude.{List, Option, arith, inl, none, refl, some, ◌++◌, ◌≡◌}
use xautojs_devspace.Prelude.Int.{ℤ}
use xautojs_devspace.Prelude.JsMap.{get, put}
use xautojs_devspace.Prelude.Result.{ok}
use xautojs_devspace.Prelude.Text.{Text, option_text_eq, text, text_eq, text_le, trim}
use xautojs_devspace.Routing.Contract.{
  BindWorkspaceInput, DeviceRecord, DeviceStatus, RegisterDeviceInput, ResolveWorkspaceInput,
  ResolvedRoute, ToolCallRecord, WorkspaceIdentity, WorkspaceRouteRecord, active, is_expired,
  normalize_optional_id, normalize_owner, normalize_required_id, read_file, route_now, separator,
}
use xautojs_devspace.Routing.Contract.Capabilities.{normalize_capabilities}
use xautojs_devspace.Routing.Contract.Laws.{IsNormalOwner}
use xautojs_devspace.Routing.Crossing.{get_device_crosses}
use xautojs_devspace.Routing.Keys.{IsPlainOwner, key_of}
use xautojs_devspace.Routing.Store.{
  RoutingStore, assert_device_routeable, assert_workspace_routeable, empty, same_tool_call_route,
  same_workspace_binding, scoped_key, tool_eq,
}
use xautojs_devspace.Routing.Store.History.{
  StoreCall, bind, complete, perform, register, resolve, run, run-IsKeyed,
}
use xautojs_devspace.Routing.Store.Kept.{KeptCall, KeptRoute, run-call_kept, run-route_kept}
use xautojs_devspace.Routing.Store.Keyed.{IsKeyed}
use xautojs_devspace.Routing.Store.Methods.{
  bind_workspace_route, get_device, register_device, set_device_status,
}
use xautojs_devspace.Routing.Store.Owners.{get_device-own}
use xautojs_devspace.Routing.Store.Resolve.{
  IsParsed, IsRouteable, resolve_workspace_route-IsRouteable,
  resolve_workspace_route_of_IsRouteable,
}
use xautojs_devspace.Routing.Store.ToolCalls.{
  complete_tool_call_route, new_tool_call, normalize_tool_call_id, resolve_workspace_route,
}

routing : Unit {0}
unfolding run perform register_device set_device_status get_device bind_workspace_route
    resolve_workspace_route complete_tool_call_route normalize_tool_call_id normalize_owner
    normalize_required_id normalize_optional_id normalize_capabilities scoped_key route_now trim
    text get put text_eq option_text_eq assert_workspace_routeable assert_device_routeable
    same_workspace_binding same_tool_call_route tool_eq is_expired text_le
routing = tt

abbrev no_dates : Text → Option ℤ
no_dates _ = none

abbrev clock : Text
clock = text "2026-01-01T00:00:00.000Z"

abbrev ann : WorkspaceIdentity
ann = record { tenant_id = text "acme"; user_id = text "ann" }

abbrev laptop : RegisterDeviceInput
laptop = record {
  owner = ann;
  device_id = text " laptop ";
  label = none;
  capabilities = some (text "shell" ∷ text "edit" ∷ text "shell" ∷ []);
  status = none;
  now = none;
  expires_at = none;
}

abbrev project : BindWorkspaceInput
project = record {
  owner = ann;
  mcp_session_id = text "s1";
  conversation_session_id = none;
  workspace_id = text "w1";
  device_id = text "laptop";
  workspace_ref = none;
  now = none;
  expires_at = none;
}

abbrev ask : ResolveWorkspaceInput
ask = record {
  owner = ann;
  mcp_session_id = text "s1";
  conversation_session_id = none;
  workspace_id = text "w1";
  tool_call_id = none;
  tool = some read_file;
  now = none;
  deadline_at = none;
}

abbrev history : List (Text × StoreCall)
history = (clock, register laptop) ∷ (clock, bind project) ∷ []

abbrev store : RoutingStore
store = run no_dates history empty

abbrev laptop_device : DeviceRecord
laptop_device = record {
  device_id = text "laptop";
  owner = ann;
  label = none;
  capabilities = text "edit" ∷ text "shell" ∷ [];
  status = DeviceStatus.online;
  registered_at = clock;
  last_seen_at = clock;
  expires_at = none;
}

abbrev project_route : WorkspaceRouteRecord
project_route = record {
  workspace_id = text "w1";
  owner = ann;
  mcp_session_id = text "s1";
  conversation_session_id = none;
  device_id = text "laptop";
  workspace_ref = none;
  status = active;
  created_at = clock;
  last_routed_at = none;
  expires_at = none;
}

registered : (get_device ann (text "laptop") store).1 ≡ ok (some laptop_device)
unfolding routing
registered = refl

abbrev resolved : ResolvedRoute
resolved = record {
  workspace = record project_route { last_routed_at = some clock };
  device = laptop_device;
  tool_call = none;
  routed_at = clock;
}

resolves : (resolve_workspace_route no_dates clock ask store).1 ≡ ok resolved
unfolding routing
resolves = refl

ask-IsParsed : IsParsed clock ask ann (text "s1") none (text "w1") clock
unfolding routing
ask-IsParsed = record {
  owner_parsed = refl;
  session_parsed = refl;
  conversation_parsed = refl;
  workspace_parsed = refl;
  now_parsed = refl;
}

resolve_workspace_route-IsRouteable_example :
    (route : WorkspaceRouteRecord) × IsRouteable no_dates store ann
      (text "s1")
      none
      (text "w1")
      clock
      route
      laptop_device
    × (resolved.workspace ≡ record route { last_routed_at = some clock })
    × (clock ≡ clock)
resolve_workspace_route-IsRouteable_example =
    resolve_workspace_route-IsRouteable no_dates clock ask ann (text "s1") none (text "w1") clock
      ask-IsParsed store {r = resolved} resolves

project-IsRouteable :
    IsRouteable no_dates store ann (text "s1") none (text "w1") clock project_route laptop_device
unfolding routing
project-IsRouteable = record {
  route_found = refl;
  same_session = refl;
  same_conversation = inl refl;
  route_active = refl;
  route_current = refl;
  device_found = refl;
  device_online = refl;
  device_current = refl;
}

resolve_workspace_route_of_IsRouteable_example :
    resolve_workspace_route no_dates clock ask store ≡ (
      record store {
        workspace_routes =
            put
              (key_of ann (text "w1"))
              (record project_route { last_routed_at = some clock })
              store.workspace_routes;
      },
      ok resolved,
    )
resolve_workspace_route_of_IsRouteable_example =
    resolve_workspace_route_of_IsRouteable no_dates clock ask ann (text "s1") none (text "w1") clock
      ask-IsParsed store project_route laptop_device refl project-IsRouteable

abbrev named_ask : ResolveWorkspaceInput
named_ask = record ask { tool_call_id = some (text "tc1") }

abbrev later : List (Text × StoreCall)
later = (clock, resolve named_ask) ∷ (clock, bind project) ∷ []

abbrev ann_key : Text → Text
ann_key id = key_of ann id

project_stored : get (ann_key (text "w1")) store.workspace_routes ≡ some project_route
unfolding routing
project_stored = refl

run-route_kept_example :
    KeptRoute project_route (get (ann_key (text "w1")) (run no_dates later store).workspace_routes)
run-route_kept_example =
    run-route_kept no_dates (ann_key (text "w1")) project_route later store project_stored

abbrev first_call : ToolCallRecord
first_call = new_tool_call ann project_route (text "tc1") (some read_file) clock none

abbrev called : RoutingStore
called = perform no_dates clock (resolve named_ask) store

call_stored : get (ann_key (text "tc1")) called.tool_call_routes ≡ some first_call
unfolding routing
call_stored = refl

abbrev completion : List (Text × StoreCall)
completion =
    (clock, complete (record { owner = ann; tool_call_id = text "tc1"; status = none; now = none }))
    ∷ []

run-call_kept_example :
    KeptCall first_call
      (get (ann_key (text "tc1")) (run no_dates completion called).tool_call_routes)
run-call_kept_example =
    run-call_kept no_dates (ann_key (text "tc1")) first_call completion called call_stored

run-IsKeyed_example : IsKeyed store
run-IsKeyed_example = run-IsKeyed no_dates history

ann_plain : IsPlainOwner ann
unfolding text
ann_plain = omega arith

get_device-own_example :
    (laptop_device.owner.tenant_id ≡ trim ann.tenant_id)
    × (laptop_device.owner.user_id ≡ trim ann.user_id)
    × (laptop_device.device_id ≡ trim (text "laptop"))
get_device-own_example =
    get_device-own no_dates history ann (text "laptop") (ann_plain, (ann_plain, tt)) ann_plain
      registered

ann_normal : IsNormalOwner ann
unfolding routing
ann_normal = record {
  tenant_trimmed = refl;
  user_trimmed = refl;
  tenant_given = refl;
  user_given = refl;
}

-- The user "ann\x1fx" registers a device "d"; the user "ann" reads it.
abbrev ann_x : WorkspaceIdentity
ann_x = record { tenant_id = text "acme"; user_id = text "ann" ++ (separator ∷ text "x") }

abbrev hidden : RegisterDeviceInput
hidden = record laptop { owner = ann_x; device_id = text "d" }

abbrev hidden_device : DeviceRecord
hidden_device = record laptop_device { owner = ann_x; device_id = text "d" }

ann_x_normal : IsNormalOwner ann_x
unfolding routing
ann_x_normal = record {
  tenant_trimmed = refl;
  user_trimmed = refl;
  tenant_given = refl;
  user_given = refl;
}

hidden_trimmed : trim (text "x" ++ (separator ∷ text "d")) ≡ text "x" ++ (separator ∷ text "d")
unfolding routing
hidden_trimmed = refl

hidden_registered : (register_device clock hidden empty).1 ≡ ok hidden_device
unfolding routing
hidden_registered = refl

get_device_crosses_example :
    (get_device ann (text "x" ++ (separator ∷ text "d")) (register_device clock hidden empty).0).1
    ≡ ok (some hidden_device)
get_device_crosses_example =
    get_device_crosses clock (text "acme") (text "ann") (text "x") hidden empty hidden_device refl
      ann_x_normal ann_normal hidden_trimmed hidden_registered
