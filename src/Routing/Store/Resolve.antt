-- ===== src/Routing/Store/Resolve.antt =====
-- When `resolveWorkspaceRoute` of src/cloud-routing-store.ts finds a route, and which.
use xautojs_devspace.Prelude.{
  Option, Option-cases, arith, false, inl, inr, none, refl, some, ◌↔◌, ◌∙◌, ◌≡◌, ◌≢◌, ◌⊎◌,
}
use xautojs_devspace.Prelude.Int.{ℤ}
use xautojs_devspace.Prelude.JsMap.{get, put}
use xautojs_devspace.Prelude.Result.{ok}
use xautojs_devspace.Prelude.Text.{Text, option_truthy}
use xautojs_devspace.Prelude.Text.Laws.{option_text_eq_iff, text_eq_iff}
use xautojs_devspace.Routing.Contract.{
  DeviceRecord, ResolveWorkspaceInput, ResolvedRoute, WorkspaceIdentity, WorkspaceRouteRecord,
  active, is_expired, normalize_optional_id, normalize_owner, normalize_required_id, online,
  route_now,
}
use xautojs_devspace.Routing.Contract.Laws.{normalize_owner-IsNormalOwner}
use xautojs_devspace.Routing.Keys.{key_of, scoped_key_of_IsNormalOwner}
use xautojs_devspace.Routing.Store.{
  RoutingStore, assert_device_routeable, assert_workspace_routeable, scoped_key,
}
use xautojs_devspace.Routing.Store.ToolCalls.{normalize_tool_call_id, resolve_workspace_route}

-- What the fields of an input are normalised to.
pub record IsParsed (clock : Text) (input : ResolveWorkspaceInput) (owner : WorkspaceIdentity)
    (session : Text) (conversation : Option Text) (workspace_id now : Text) : Type 0 where
  pub owner_parsed : normalize_owner input.owner ≡ ok owner
  pub session_parsed : normalize_required_id (some input.mcp_session_id) "mcpSessionId" ≡ ok session
  pub conversation_parsed :
      normalize_optional_id input.conversation_session_id "conversationSessionId" ≡ ok conversation
  pub workspace_parsed :
      normalize_required_id (some input.workspace_id) "workspaceId" ≡ ok workspace_id
  pub now_parsed : route_now clock input.now ≡ ok now

-- The store has an active route of this owner, for this session and conversation, to a device of
-- this owner that is online; neither is expired.
pub record IsRouteable (date_parse : Text → Option ℤ) (store : RoutingStore)
    (owner : WorkspaceIdentity) (session : Text) (conversation : Option Text)
    (workspace_id now : Text) (route : WorkspaceRouteRecord) (device : DeviceRecord) : Type 0 where
  pub route_found : get (key_of owner workspace_id) store.workspace_routes ≡ some route
  pub same_session : route.mcp_session_id ≡ session
  pub same_conversation :
      (option_truthy route.conversation_session_id ≡ false)
      ⊎ (route.conversation_session_id ≡ conversation)
  pub route_active : route.status ≡ active
  pub route_current : is_expired date_parse route.expires_at now ≡ false
  pub device_found : get (key_of owner route.device_id) store.devices ≡ some device
  pub device_online : device.status ≡ online
  pub device_current : is_expired date_parse device.expires_at now ≡ false

module _ (date_parse : Text → Option ℤ) where
  pub assert_workspace_routeable_iff :
      (route : WorkspaceRouteRecord) (session : Text) (conversation : Option Text) (now : Text)
      → (assert_workspace_routeable date_parse route session conversation now ≡ ok tt) ↔ (
          (route.mcp_session_id ≡ session)
          × ((option_truthy route.conversation_session_id ≡ false)
              ⊎ (route.conversation_session_id ≡ conversation))
          × (route.status ≡ active)
          × (is_expired date_parse route.expires_at now ≡ false))
  unfolding assert_workspace_routeable
  assert_workspace_routeable_iff route session conversation now = ground (
    arith,
    text_eq_iff route.mcp_session_id session,
    option_text_eq_iff route.conversation_session_id conversation,
  )

  pub assert_device_routeable_iff :
      (found : Option DeviceRecord) (id now : Text) (device : DeviceRecord)
      → (assert_device_routeable date_parse found id now ≡ ok device) ↔ (
          (found ≡ some device)
          × (device.status ≡ online)
          × (is_expired date_parse device.expires_at now ≡ false))
  unfolding assert_device_routeable
  assert_device_routeable_iff none id now device = ground arith
  assert_device_routeable_iff (some d) id now device = ground arith

module _ (date_parse : Text → Option ℤ) (clock : Text) (input : ResolveWorkspaceInput)
    (owner : WorkspaceIdentity) (session : Text) (conversation : Option Text)
    (workspace_id now : Text)
    (parsed : IsParsed clock input owner session conversation workspace_id now)
    (store : RoutingStore) where
  pub normal_key : (id : Text) → scoped_key owner id ≡ ok (key_of owner id)
  normal_key id =
      scoped_key_of_IsNormalOwner owner id
        (normalize_owner-IsNormalOwner input.owner parsed.owner_parsed)

  device_missing :
      (device_id : Text) (device : DeviceRecord)
      → assert_device_routeable date_parse none device_id now ≢ ok device
  unfolding assert_device_routeable
  device_missing device_id device = ground arith

  -- What a call that returns has checked.
  record Checked (r : ResolvedRoute) : Type 0 where
    route : WorkspaceRouteRecord
    device : Option DeviceRecord
    route_found : get (key_of owner workspace_id) store.workspace_routes ≡ some route
    device_found : get (key_of owner route.device_id) store.devices ≡ device
    route_checked : assert_workspace_routeable date_parse route session conversation now ≡ ok tt
    device_checked : assert_device_routeable date_parse device route.device_id now ≡ ok r.device
    returned : r.workspace ≡ record route { last_routed_at = some now }
    stamped : r.routed_at ≡ now

  checked :
      {r : ResolvedRoute}
      → (resolve_workspace_route date_parse clock input store).1 ≡ ok r
      → Checked r
  unfolding resolve_workspace_route
  checked {r} h = elim (Option-cases (get (key_of owner workspace_id) store.workspace_routes)) [
    | inl missing ↦ absurd (ground (arith, normal_key workspace_id))
    | inr (route, found) ↦ record {
      route = route;
      device = get (key_of owner route.device_id) store.devices;
      route_found = found;
      device_found = refl;
      route_checked = ground (arith, normal_key workspace_id, normal_key route.device_id);
      device_checked = ground (arith, normal_key workspace_id, normal_key route.device_id);
      returned = ground (arith, normal_key workspace_id, normal_key route.device_id);
      stamped = ground (arith, normal_key workspace_id, normal_key route.device_id);
    }
  ]

  -- A call whose input parses and that returns, with a tool call or without, found a route of the
  -- workspace that is of the same session, of the same conversation or of none, active and not expired, and a device of
  -- the route that is online and not expired; it returns that device, and that route with the
  -- instant of the call.
  pub resolve_workspace_route-IsRouteable :
      {r : ResolvedRoute}
      → (resolve_workspace_route date_parse clock input store).1 ≡ ok r
      → (route : WorkspaceRouteRecord) × IsRouteable date_parse store owner session conversation
          workspace_id now route r.device
        × (r.workspace ≡ record route { last_routed_at = some now })
        × (r.routed_at ≡ now)
  resolve_workspace_route-IsRouteable {r} h =
      let c = checked h in
      let (same_session, same_conversation, route_active, route_current) =
        (assert_workspace_routeable_iff date_parse c.route session conversation now).0
          c.route_checked in
      let (found, device_online, device_current) =
        (assert_device_routeable_iff date_parse c.device c.route.device_id now r.device).0
          c.device_checked in
      (
        c.route,
        record {
          route_found = c.route_found;
          same_session = same_session;
          same_conversation = same_conversation;
          route_active = route_active;
          route_current = route_current;
          device_found = c.device_found ∙ found;
          device_online = device_online;
          device_current = device_current;
        },
        c.returned,
        c.stamped,
      )

  -- Where the store has an active route of the workspace for the same session and the same conversation or none, and
  -- the route's device is online, and neither is expired, a call whose input parses and that names no
  -- tool call returns these, and only stamps the route with its instant.
  pub resolve_workspace_route_of_IsRouteable :
      (route : WorkspaceRouteRecord) (device : DeviceRecord)
      → input.tool_call_id ≡ none
      → IsRouteable date_parse store owner session conversation workspace_id now route device
      → let routed : WorkspaceRouteRecord = record route { last_routed_at = some now } in
        resolve_workspace_route date_parse clock input store ≡ (
          record store {
            workspace_routes = put (key_of owner workspace_id) routed store.workspace_routes;
          },
          ok (record { workspace = routed; device = device; tool_call = none; routed_at = now }),
        )
  unfolding resolve_workspace_route normalize_tool_call_id
  resolve_workspace_route_of_IsRouteable route device no_call v = ground (
    arith,
    normal_key workspace_id,
    normal_key route.device_id,
    assert_workspace_routeable_iff date_parse route session conversation now,
    assert_device_routeable_iff date_parse (some device) route.device_id now device,
  )
