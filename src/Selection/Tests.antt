-- ===== src/Selection/Tests.antt =====
-- A session that connects to the one workspace of its laptop, and the theorem there.
use xautojs_devspace.Catalog.{
  CatalogRecord, catalog_key_prefix, list_workspaces, sort_records, with_prefix,
}
use xautojs_devspace.Prelude.{[], none, refl, some, ◌++◌, ◌∷◌, ◌≡◌}
use xautojs_devspace.Prelude.Int.{pos}
use xautojs_devspace.Prelude.JsMap.{get, put}
use xautojs_devspace.Prelude.Result.{ok}
use xautojs_devspace.Prelude.Text.{
  Text, option_text_eq, slice_to, starts_with, text, text_eq, text_le, trim,
}
use xautojs_devspace.Routing.Contract.{
  DeviceRecord, DeviceStatus, WorkspaceIdentity, active, is_expired, normalize_optional_id,
  normalize_owner, normalize_required_id, owner_key, route_now, separator,
}
use xautojs_devspace.Routing.Store.{assert_device_routeable, scoped_key}
use xautojs_devspace.Routing.Store.Methods.{bind_workspace_route, get_device}
use xautojs_devspace.Selection.{
  ConnectInput, ConnectResult, ExecutionContext, SelectionHost, Services, bind_selected, connect,
  connect_on, connected, deterministic_workspace_id, find_ref, record_connection,
  require_catalog_entry, selection_fingerprint, stable_fingerprint,
}
use xautojs_devspace.Selection.Laws.{IsListed, connect-IsListed}
use xautojs_devspace.Sessions.{
  bind_device, binding_key, resolve_begin, resolve_device, resolve_finish,
}

selecting : Unit {0}
unfolding connect connect_on require_catalog_entry bind_selected record_connection find_ref
    stable_fingerprint deterministic_workspace_id selection_fingerprint list_workspaces with_prefix
    sort_records catalog_key_prefix resolve_device resolve_begin resolve_finish bind_device
    binding_key get_device bind_workspace_route scoped_key assert_device_routeable normalize_owner
    normalize_required_id normalize_optional_id route_now owner_key is_expired trim text get put
    text_eq option_text_eq text_le starts_with slice_to
selecting = tt

abbrev clock : Text
clock = text "2026-01-01T00:00:00.000Z"

abbrev host : SelectionHost
host = record {
  date_parse = λ _. none;
  locale_compare = λ _ _. pos 0;
  json_string = λ s. s;
  digest = λ s. s;
}

abbrev ann : WorkspaceIdentity
ann = record { tenant_id = text "acme"; user_id = text "ann" }

abbrev laptop : DeviceRecord
laptop = record {
  device_id = text "laptop";
  owner = ann;
  label = none;
  capabilities = [];
  status = DeviceStatus.online;
  registered_at = clock;
  last_seen_at = clock;
  expires_at = none;
}

abbrev laptop_key : Text
laptop_key = (text "acme" ++ (separator ∷ text "ann")) ++ (separator ∷ text "laptop")

abbrev site : CatalogRecord
site = record {
  owner = ann;
  device_id = text "laptop";
  workspace_ref = text "site";
  display_name = text "The site";
  root_label = text "~/site";
  capabilities = [];
  catalog_version = none;
  last_seen_at = clock;
}

abbrev services : Services
services = record {
  pairing = record { bindings = [] };
  routing = record {
    devices = (laptop_key, laptop) ∷ [];
    workspace_routes = [];
    tool_call_routes = [];
  };
  catalog = record { records = (laptop_key ++ (separator ∷ text "site"), site) ∷ [] };
  audit = none;
}

abbrev session : ExecutionContext
session = record { owner = ann; mcp_session_id = text "s1"; conversation_session_id = none }

abbrev wish : ConnectInput
wish = record {
  workspace_ref = text " site ";
  device_id = some (text "laptop");
  workspace_id = some (text "w1");
  idempotency_key = none;
  expires_at = none;
}

abbrev answer : ConnectResult
answer = record {
  workspace_id = text "w1";
  workspace_ref = text "site";
  device_id = text "laptop";
  display_name = text "The site";
  root_label = text "~/site";
  capabilities = [];
  route = record {
    workspace_id = text "w1";
    owner = ann;
    mcp_session_id = text "s1";
    conversation_session_id = none;
    device_id = text "laptop";
    workspace_ref = some (text "site");
    status = active;
    created_at = clock;
    last_routed_at = none;
    expires_at = none;
  };
  idempotency_key = none;
}

connects : (connect host clock (text "u1") session wish services).1 ≡ ok (connected answer)
unfolding selecting
connects = refl

connect-IsListed_example : IsListed host session wish.workspace_ref services.catalog answer
connect-IsListed_example =
    connect-IsListed host clock (text "u1") session wish services {r = answer} connects
