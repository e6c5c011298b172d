-- ===== src/Routing/Store/ToolCalls.antt =====
-- The methods of `InMemoryCloudRoutingStore` in src/cloud-routing-store.ts that route a tool call:
use xautojs_devspace.Prelude.Result
use xautojs_devspace.Prelude.{Option, [], get_or, if◌then◌else◌, none, not, some, ◌∷◌}
use xautojs_devspace.Prelude.Int.{ℤ}
use xautojs_devspace.Prelude.JsMap.{get, put}
use xautojs_devspace.Prelude.Result.{Result, err, ok}
use xautojs_devspace.Prelude.State.{gets, lift, modify, or_throw, pure, ◌>>=◌, ◌>>◌}
use xautojs_devspace.Prelude.Text.{Text, truthy}
use xautojs_devspace.Routing.Contract.{
  CompleteToolCallInput, RemoteMcpToolName, ResolveWorkspaceInput, ResolvedRoute, RoutingError,
  ToolCallRecord, WorkspaceIdentity, WorkspaceRouteRecord, completed, normalize_optional_id,
  normalize_owner, normalize_required_id, route_now, routed, routing_error, tool_call_conflict,
  workspace_not_found,
}
use xautojs_devspace.Routing.Store.{
  assert_device_routeable, assert_workspace_routeable, same_tool_call_route, scoped_key,
}
use xautojs_devspace.Routing.Store.Methods.{StoreMethod}

-- `resolveWorkspaceRoute`, `getToolCallRoute`, `completeToolCallRoute`, and `recordToolCallRoute`,
-- which the first calls after it has written `lastRoutedAt`.

-- `input.toolCallId === undefined ? undefined : normalize…`
unfoldable pub normalize_tool_call_id : Option Text → Result RoutingError (Option Text)
normalize_tool_call_id none = ok none
normalize_tool_call_id (some id) =
    Result.◌>>=◌ (normalize_required_id (some id) "toolCallId") λ normalized. ok (some normalized)

-- The record of a call that was not routed before.
abbrev pub new_tool_call :
    WorkspaceIdentity
    → WorkspaceRouteRecord
    → Text
    → Option RemoteMcpToolName
    → Text
    → Option Text
    → ToolCallRecord
new_tool_call owner route tool_call_id tool now deadline_at = record {
  tool_call_id = tool_call_id;
  owner = owner;
  mcp_session_id = route.mcp_session_id;
  conversation_session_id = route.conversation_session_id;
  workspace_id = route.workspace_id;
  device_id = route.device_id;
  tool = tool;
  status = routed;
  created_at = now;
  last_seen_at = now;
  deadline_at = deadline_at;
  completed_at = none;
}

abbrev pub call_conflict : Text → RoutingError
call_conflict tool_call_id =
    routing_error tool_call_conflict
      "toolCallId has already been routed to a different workspace, device, or tool."
      (("toolCallId", tool_call_id) ∷ [])

-- The record to write, whether the call was routed before or not.
unfoldable pub next_tool_call :
    Option ToolCallRecord
    → WorkspaceIdentity
    → WorkspaceRouteRecord
    → Text
    → Option RemoteMcpToolName
    → Text
    → Option Text
    → Result RoutingError ToolCallRecord
next_tool_call none owner route tool_call_id tool now deadline_at =
    ok (new_tool_call owner route tool_call_id tool now deadline_at)
next_tool_call (some existing) owner route tool_call_id tool now deadline_at =
    if not (same_tool_call_route existing route tool)
    then err (call_conflict tool_call_id)
    else ok (record existing { last_seen_at = now })

unfoldable pub record_tool_call_route :
    WorkspaceIdentity
    → WorkspaceRouteRecord
    → Text
    → Option RemoteMcpToolName
    → Text
    → Option Text
    → StoreMethod ToolCallRecord
unfolding next_tool_call
record_tool_call_route owner route tool_call_id_input tool now deadline_input = do
  tool_call_id ← lift (normalize_required_id (some tool_call_id_input) "toolCallId")
  key ← lift (scoped_key owner tool_call_id)
  deadline_at ← lift (normalize_optional_id deadline_input "deadlineAt")
  existing ← gets λ store. get key store.tool_call_routes
  call ← lift (next_tool_call existing owner route tool_call_id tool now deadline_at)
  modify λ store. record store { tool_call_routes = put key call store.tool_call_routes }
  pure call

-- `toolCallId ? this.recordToolCallRoute(…) : undefined`
unfoldable pub record_if_identified :
    Option Text
    → WorkspaceIdentity
    → WorkspaceRouteRecord
    → Option RemoteMcpToolName
    → Text
    → Option Text
    → StoreMethod (Option ToolCallRecord)
unfolding record_tool_call_route
record_if_identified none owner route tool now deadline_at = pure none
record_if_identified (some tool_call_id) owner route tool now deadline_at =
    if truthy tool_call_id
    then (do
      call ← record_tool_call_route owner route tool_call_id tool now deadline_at
      pure (some call))
    else pure none

abbrev pub unknown_workspace : Text → RoutingError
unknown_workspace workspace_id =
    routing_error workspace_not_found "workspaceId is unknown for this owner."
      (("workspaceId", workspace_id) ∷ [])

module _ (date_parse : Text → Option ℤ) (clock : Text) where
  unfoldable pub resolve_workspace_route : ResolveWorkspaceInput → StoreMethod ResolvedRoute
  unfolding record_if_identified
  resolve_workspace_route input = do
    owner ← lift (normalize_owner input.owner)
    session ← lift (normalize_required_id (some input.mcp_session_id) "mcpSessionId")
    conversation ←
        lift (normalize_optional_id input.conversation_session_id "conversationSessionId")
    workspace_id ← lift (normalize_required_id (some input.workspace_id) "workspaceId")
    tool_call_id ← lift (normalize_tool_call_id input.tool_call_id)
    now ← lift (route_now clock input.now)
    route_key ← lift (scoped_key owner workspace_id)
    found ← gets λ store. get route_key store.workspace_routes
    route ← or_throw found (unknown_workspace workspace_id)
    lift (assert_workspace_routeable date_parse route session conversation now)
    device_key ← lift (scoped_key owner route.device_id)
    device_found ← gets λ store. get device_key store.devices
    device ← lift (assert_device_routeable date_parse device_found route.device_id now)
    let updated : WorkspaceRouteRecord = record route { last_routed_at = some now }
    modify λ store. record store { workspace_routes = put route_key updated store.workspace_routes }
    tool_call ← record_if_identified tool_call_id owner updated input.tool now input.deadline_at
    pure (record { workspace = updated; device = device; tool_call = tool_call; routed_at = now })

unfoldable pub get_tool_call_route : WorkspaceIdentity → Text → StoreMethod (Option ToolCallRecord)
get_tool_call_route owner_input tool_call_id_input = do
  owner ← lift (normalize_owner owner_input)
  tool_call_id ← lift (normalize_required_id (some tool_call_id_input) "toolCallId")
  key ← lift (scoped_key owner tool_call_id)
  gets λ store. get key store.tool_call_routes

module _ (clock : Text) where
  -- What is written for a call that was routed.
  complete_found :
      Text → Option ToolCallRecord → CompleteToolCallInput → StoreMethod (Option ToolCallRecord)
  complete_found key none input = pure none
  complete_found key (some existing) input = do
    now ← lift (route_now clock input.now)
    let updated : ToolCallRecord = record existing {
      status = get_or input.status completed;
      last_seen_at = now;
      completed_at = some now;
    }
    modify λ store. record store { tool_call_routes = put key updated store.tool_call_routes }
    pure (some updated)

  unfoldable pub complete_tool_call_route :
      CompleteToolCallInput → StoreMethod (Option ToolCallRecord)
  unfolding complete_found
  complete_tool_call_route input = do
    owner ← lift (normalize_owner input.owner)
    tool_call_id ← lift (normalize_required_id (some input.tool_call_id) "toolCallId")
    key ← lift (scoped_key owner tool_call_id)
    existing ← gets λ store. get key store.tool_call_routes
    complete_found key existing input
