-- ===== src/Routing/Store/Kept.antt =====
-- What no history of calls changes in the records of src/cloud-routing-store.ts: a workspace stays
-- with its session, conversation and device, and a tool call with its route and its tool.
use xautojs_devspace.Prelude.{
  ==_iff, List, Option, [], ap, arith, none, refl, some, suc, sym, true, zero, ℕ, ◌∙◌, ◌∷◌, ◌≡◌,
}
use xautojs_devspace.Prelude.Int.{ℤ}
use xautojs_devspace.Prelude.JsMap.{get, get-put}
use xautojs_devspace.Prelude.Text.{Text}
use xautojs_devspace.Prelude.Text.Laws.{option_text_eq_iff, text_eq_iff}
use xautojs_devspace.Routing.Contract.{
  BindWorkspaceInput, CompleteToolCallInput, RemoteMcpToolName, ResolveWorkspaceInput,
  ToolCallRecord, WorkspaceIdentity, WorkspaceRouteRecord, edit_file, find_files, grep_files,
  list_directory, open_workspace, read_file, run_shell, show_changes, write_file,
}
use xautojs_devspace.Routing.Store.{
  RoutingStore, same_tool_call_route, same_workspace_binding, tool_eq, tool_index,
}
use xautojs_devspace.Routing.Store.Frames.{record_if_identified-routes}
use xautojs_devspace.Routing.Store.History.{
  StoreCall, bind, complete, perform, register, resolve, run, set_status,
}
use xautojs_devspace.Routing.Store.Methods.{
  bind_workspace_route, register_device, set_device_status,
}
use xautojs_devspace.Routing.Store.ToolCalls.{
  complete_tool_call_route, record_if_identified, resolve_workspace_route,
}

tool_of_index : ℕ → RemoteMcpToolName
tool_of_index zero = open_workspace
tool_of_index (suc zero) = read_file
tool_of_index (suc (suc zero)) = write_file
tool_of_index (suc (suc (suc zero))) = edit_file
tool_of_index (suc (suc (suc (suc zero)))) = grep_files
tool_of_index (suc (suc (suc (suc (suc zero))))) = find_files
tool_of_index (suc (suc (suc (suc (suc (suc zero)))))) = list_directory
tool_of_index (suc (suc (suc (suc (suc (suc (suc zero))))))) = run_shell
tool_of_index _ = show_changes

tool_of_index-tool_index : (t : RemoteMcpToolName) → tool_of_index (tool_index t) ≡ t
unfolding tool_of_index
tool_of_index-tool_index open_workspace = refl
tool_of_index-tool_index read_file = refl
tool_of_index-tool_index write_file = refl
tool_of_index-tool_index edit_file = refl
tool_of_index-tool_index grep_files = refl
tool_of_index-tool_index find_files = refl
tool_of_index-tool_index list_directory = refl
tool_of_index-tool_index run_shell = refl
tool_of_index-tool_index show_changes = refl

eq_of_tool_eq : (a b : Option RemoteMcpToolName) → tool_eq a b ≡ true → a ≡ b
unfolding tool_eq
eq_of_tool_eq none none h = refl
eq_of_tool_eq none (some b) h = cc
eq_of_tool_eq (some a) none h = cc
eq_of_tool_eq (some a) (some b) h =
    let e : tool_index a ≡ tool_index b = (==_iff _ _).0 h in
    ap some (sym (tool_of_index-tool_index a) ∙ ap tool_of_index e ∙ tool_of_index-tool_index b)

pub record SameRoute (r s : WorkspaceRouteRecord) : Type 0 where
  pub session : r.mcp_session_id ≡ s.mcp_session_id
  pub conversation : r.conversation_session_id ≡ s.conversation_session_id
  pub device : r.device_id ≡ s.device_id
  pub created : r.created_at ≡ s.created_at

pub record SameCall (c d : ToolCallRecord) : Type 0 where
  pub session : c.mcp_session_id ≡ d.mcp_session_id
  pub conversation : c.conversation_session_id ≡ d.conversation_session_id
  pub workspace : c.workspace_id ≡ d.workspace_id
  pub device : c.device_id ≡ d.device_id
  pub tool : c.tool ≡ d.tool
  pub created : c.created_at ≡ d.created_at
  pub deadline : c.deadline_at ≡ d.deadline_at

abbrev pub KeptRoute : WorkspaceRouteRecord → Option WorkspaceRouteRecord → Type 0
KeptRoute r none = ⊥
KeptRoute r (some s) = SameRoute r s

abbrev pub KeptCall : ToolCallRecord → Option ToolCallRecord → Type 0
KeptCall c none = ⊥
KeptCall c (some d) = SameCall c d

eq_of_same_workspace_binding :
    (route : WorkspaceRouteRecord) (session : Text) (conversation : Option Text) (device : Text)
    → same_workspace_binding route session conversation device ≡ true
    → (route.mcp_session_id ≡ session)
      × (route.conversation_session_id ≡ conversation)
      × (route.device_id ≡ device)
unfolding same_workspace_binding
eq_of_same_workspace_binding route session conversation device h = ground (
  arith,
  text_eq_iff route.mcp_session_id session,
  option_text_eq_iff route.conversation_session_id conversation,
  text_eq_iff route.device_id device,
)

eq_of_same_tool_call_route :
    (call : ToolCallRecord) (route : WorkspaceRouteRecord) (tool : Option RemoteMcpToolName)
    → same_tool_call_route call route tool ≡ true
    → (call.mcp_session_id ≡ route.mcp_session_id)
      × (call.conversation_session_id ≡ route.conversation_session_id)
      × (call.workspace_id ≡ route.workspace_id)
      × (call.device_id ≡ route.device_id)
      × (call.tool ≡ tool)
unfolding same_tool_call_route
eq_of_same_tool_call_route call route tool h = ground (
  arith,
  text_eq_iff call.mcp_session_id route.mcp_session_id,
  option_text_eq_iff call.conversation_session_id route.conversation_session_id,
  text_eq_iff call.workspace_id route.workspace_id,
  text_eq_iff call.device_id route.device_id,
  eq_of_tool_eq call.tool tool,
)

module _ (date_parse : Text → Option ℤ) (clock : Text) (store : RoutingStore) (key : Text)
    (route : WorkspaceRouteRecord) where
  bind_workspace_route-KeptRoute :
      (input : BindWorkspaceInput)
      → KeptRoute route (get key store.workspace_routes)
      → KeptRoute route
          (get key (bind_workspace_route date_parse clock input store).0.workspace_routes)
  unfolding bind_workspace_route
  bind_workspace_route-KeptRoute input h =
      grind (arith, get-put, text_eq_iff, eq_of_same_workspace_binding)

  resolve_workspace_route-KeptRoute :
      (input : ResolveWorkspaceInput)
      → KeptRoute route (get key store.workspace_routes)
      → KeptRoute route
          (get key (resolve_workspace_route date_parse clock input store).0.workspace_routes)
  unfolding resolve_workspace_route
  resolve_workspace_route-KeptRoute input h =
      grind (arith, get-put, text_eq_iff, record_if_identified-routes)

module _ (key : Text) (call : ToolCallRecord) where
  record_if_identified-KeptCall :
      (id : Option Text) (owner : WorkspaceIdentity) (route : WorkspaceRouteRecord)
      (tool : Option RemoteMcpToolName) (now : Text) (deadline : Option Text) (store : RoutingStore)
      → KeptCall call (get key store.tool_call_routes)
      → KeptCall call
          (get key (record_if_identified id owner route tool now deadline store).0.tool_call_routes)
  unfolding record_if_identified
  record_if_identified-KeptCall none owner route tool now deadline store h = h
  record_if_identified-KeptCall (some id) owner route tool now deadline store h =
      grind (arith, get-put, text_eq_iff)

  resolve_workspace_route-KeptCall :
      (date_parse : Text → Option ℤ) (clock : Text) (store : RoutingStore)
      (input : ResolveWorkspaceInput)
      → KeptCall call (get key store.tool_call_routes)
      → KeptCall call
          (get key (resolve_workspace_route date_parse clock input store).0.tool_call_routes)
  unfolding resolve_workspace_route
  resolve_workspace_route-KeptCall date_parse clock store input h =
      grind (arith, record_if_identified-KeptCall)

  complete_tool_call_route-KeptCall :
      (clock : Text) (store : RoutingStore) (input : CompleteToolCallInput)
      → KeptCall call (get key store.tool_call_routes)
      → KeptCall call (get key (complete_tool_call_route clock input store).0.tool_call_routes)
  unfolding complete_tool_call_route
  complete_tool_call_route-KeptCall clock store input h = grind (arith, get-put, text_eq_iff)

module _ (date_parse : Text → Option ℤ) (clock : Text) (store : RoutingStore) (key : Text) where
  perform-KeptRoute :
      (route : WorkspaceRouteRecord) (step : StoreCall)
      → KeptRoute route (get key store.workspace_routes)
      → KeptRoute route (get key (perform date_parse clock step store).workspace_routes)
  unfolding perform register_device set_device_status complete_tool_call_route
  perform-KeptRoute route (register input) h = ground arith
  perform-KeptRoute route (set_status input) h = ground arith
  perform-KeptRoute route (bind input) h =
      bind_workspace_route-KeptRoute date_parse clock store key route input h
  perform-KeptRoute route (resolve input) h =
      resolve_workspace_route-KeptRoute date_parse clock store key route input h
  perform-KeptRoute route (complete input) h = ground arith

  perform-KeptCall :
      (call : ToolCallRecord) (step : StoreCall)
      → KeptCall call (get key store.tool_call_routes)
      → KeptCall call (get key (perform date_parse clock step store).tool_call_routes)
  unfolding perform register_device set_device_status bind_workspace_route
  perform-KeptCall call (register input) h = ground arith
  perform-KeptCall call (set_status input) h = ground arith
  perform-KeptCall call (bind input) h = ground arith
  perform-KeptCall call (resolve input) h =
      resolve_workspace_route-KeptCall key call date_parse clock store input h
  perform-KeptCall call (complete input) h =
      complete_tool_call_route-KeptCall key call clock store input h

module _ (date_parse : Text → Option ℤ) (key : Text) where
  run-KeptRoute :
      (route : WorkspaceRouteRecord) (calls : List (Text × StoreCall)) (store : RoutingStore)
      → KeptRoute route (get key store.workspace_routes)
      → KeptRoute route (get key (run date_parse calls store).workspace_routes)
  unfolding run
  run-KeptRoute route [] store h = h
  run-KeptRoute route ((clock, step) ∷ rest) store h =
      run-KeptRoute route rest (perform date_parse clock step store)
        (perform-KeptRoute date_parse clock store key route step h)

  run-KeptCall :
      (call : ToolCallRecord) (calls : List (Text × StoreCall)) (store : RoutingStore)
      → KeptCall call (get key store.tool_call_routes)
      → KeptCall call (get key (run date_parse calls store).tool_call_routes)
  unfolding run
  run-KeptCall call [] store h = h
  run-KeptCall call ((clock, step) ∷ rest) store h =
      run-KeptCall call rest (perform date_parse clock step store)
        (perform-KeptCall date_parse clock store key call step h)

  -- Once a workspace is bound, it stays bound to the same session, conversation and device through
  -- every history of calls, by whatever owners, and keeps its time of creation.
  pub run-route_kept :
      (route : WorkspaceRouteRecord) (calls : List (Text × StoreCall)) (store : RoutingStore)
      → get key store.workspace_routes ≡ some route
      → KeptRoute route (get key (run date_parse calls store).workspace_routes)
  run-route_kept route calls store h = run-KeptRoute route calls store (rw h (ground arith))

  -- Once a tool call is routed, it keeps its session, conversation, workspace, device, tool,
  -- deadline and time of creation through every history of calls.
  pub run-call_kept :
      (call : ToolCallRecord) (calls : List (Text × StoreCall)) (store : RoutingStore)
      → get key store.tool_call_routes ≡ some call
      → KeptCall call (get key (run date_parse calls store).tool_call_routes)
  run-call_kept call calls store h = run-KeptCall call calls store (rw h (ground arith))
