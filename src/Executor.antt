-- ===== src/Executor.antt =====
-- src/gateway-mcp-tool-executor.ts: `GatewayMcpToolExecutor`, which carries a tool call of an MCP
-- session to the session's desktop, over the routing store and the pairing service; and
-- src/remote-mcp-tool-executor.ts: `RemoteMcpToolExecutor`, which hands it to a transport. The
-- device channel is an argument: while a call waits for the device other calls may run, so its
-- answer comes with the services as they are then. Each message that is handed to it is listed.
pub mod Remote
pub mod Ended
pub mod Laws
mod Tests
use xautojs_devspace.Channel.Messages.{
  Details, RemoteMcpToolError, RemoteMcpToolResult, ToolCallMessage, tool_error, tool_ok,
}
use xautojs_devspace.Prelude.{
  Bool, List, Option, [], false, get_or, if◌then◌else◌, none, some, true, ◌++◌, ◌∷◌,
}
use xautojs_devspace.Prelude.Int.{ℤ}
use xautojs_devspace.Prelude.Result.{Result, err, ok}
use xautojs_devspace.Prelude.State.{Method, gets, lift, pure, throw, ◌>>=◌, ◌>>◌}
use xautojs_devspace.Prelude.Text.{Text, text}
use xautojs_devspace.Routing.Contract.{
  RemoteMcpToolName, ResolveWorkspaceInput, RoutingError, ToolCallStatus, WorkspaceIdentity,
  completed, edit_file, failed, find_files, grep_files, list_directory, open_workspace, read_file,
  run_shell, show_changes, write_file,
}
use xautojs_devspace.Routing.Store.{RoutingStore}
use xautojs_devspace.Routing.Store.Methods.{bind_workspace_route}
use xautojs_devspace.Routing.Store.ToolCalls.{complete_tool_call_route, resolve_workspace_route}
use xautojs_devspace.Sessions.{Bindings, resolve_device}
use xautojs_devspace.Sessions.Client.{lookup_in}

-- `DevspaceToolExecutionContext`
pub record ToolContext : Type 0 where
  pub mcp_session_id : Text
  pub owner : WorkspaceIdentity
  pub conversation_session_id : Option Text
  pub device_id : Option Text
  pub tool_call_id : Option Text

-- `RemoteMcpToolExecutionError`
pub record ExecutionError (J : Type 0) : Type 0 where
  pub code : Text
  pub message : Text
  pub retryable : Bool
  pub details : Option (Details J)

unfoldable pub execution_error : {J : Type 0} → RemoteMcpToolError J → ExecutionError J
execution_error error = record {
  code = error.code;
  message = error.message;
  retryable = get_or error.retryable false;
  details = error.details;
}

-- What the executor throws.
pub data ToolFailure (J : Type 0) : Type 0 where
  routing_failed : RoutingError → ToolFailure J
  execution_failed : ExecutionError J → ToolFailure J
  other_failure : Text → ToolFailure J

pub record RouteServices : Type 0 where
  pub pairing : Bindings
  pub routing : RoutingStore

pub record ExecutorState (J : Type 0) : Type 0 where
  pub services : RouteServices
  pub handed : List (ToolCallMessage J)

-- `Date.parse`, `randomUUID`, the device channel, and the parts of an input and of a result that
-- are read: `input.path`, `input.workspaceId`, `result.workspace.id`.
pub record ExecutorHost (J : Type 0) : Type 0 where
  pub date_parse : Text → Option ℤ
  pub random_uuid : Text
  pub channel :
      ToolCallMessage J
      → RouteServices
      → RouteServices × Result (ToolFailure J) (RemoteMcpToolResult J)
  pub context_value : ToolContext → J
  pub path_of : J → Text
  pub workspace_id_of : J → Text
  pub opened_id : J → Result (ToolFailure J) Text

abbrev pub ExecutorMethod : Type 0 → Type 0 → Type 0
ExecutorMethod J A = Method (ExecutorState J) (ToolFailure J) A

module _ {J : Type 0} where
  lift_error : {A : Type 0} → Result RoutingError A → Result (ToolFailure J) A
  lift_error (ok a) = ok a
  lift_error (err e) = err (routing_failed e)

  -- A method of one service.
  unfoldable pub on_routes : {A : Type 0} → Method RoutingStore RoutingError A → ExecutorMethod J A
  unfolding lift_error
  on_routes m s =
      let (t, r) = m s.services.routing in
      (record s { services = record s.services { routing = t } }, lift_error r)

  unfoldable pub on_pairings : {A : Type 0} → Method Bindings RoutingError A → ExecutorMethod J A
  unfolding lift_error
  on_pairings m s =
      let (t, r) = m s.services.pairing in
      (record s { services = record s.services { pairing = t } }, lift_error r)

  -- `.catch(() => undefined)`
  unfoldable pub swallow : {A : Type 0} → ExecutorMethod J A → ExecutorMethod J (Unit {0})
  swallow m s = ((m s).0, ok tt)

  -- `createCloudDeviceToolCallMessage`, whose context has the device and the call written in.
  unfoldable pub create_tool_call_message :
      (ToolContext → J)
      → Text
      → Text
      → RemoteMcpToolName
      → ToolContext
      → Option Text
      → J
      → ToolCallMessage J
  create_tool_call_message context_value device_id tool_call_id tool context workspace_id input =
      record {
        device_id = device_id;
        tool_call_id = tool_call_id;
        tool = tool;
        context =
            context_value
              (record context { device_id = some device_id; tool_call_id = some tool_call_id });
        workspace_id = workspace_id;
        input = input;
        deadline_at = none;
      }

  unfoldable pub is_execution_error : ToolFailure J → Bool
  is_execution_error (execution_failed e) = true
  is_execution_error _ = false

module _ {J : Type 0} (host : ExecutorHost J) where
  unfoldable pub tool_call_id_of : ToolContext → Text
  unfolding text
  tool_call_id_of context = get_or context.tool_call_id (text "tc_" ++ host.random_uuid)

  -- What is asked of `resolveWorkspaceRoute`.
  abbrev pub route_input : RemoteMcpToolName → ToolContext → Text → ResolveWorkspaceInput
  route_input tool context workspace_id = record {
    owner = context.owner;
    mcp_session_id = context.mcp_session_id;
    conversation_session_id = context.conversation_session_id;
    workspace_id = workspace_id;
    tool_call_id = some (tool_call_id_of context);
    tool = some tool;
    now = none;
    deadline_at = none;
  }

  unfoldable pub send : ToolCallMessage J → ExecutorMethod J (RemoteMcpToolResult J)
  send message s =
      let (after, answer) = host.channel message s.services in
      (record { services = after; handed = s.handed ++ message ∷ [] }, answer)

module _ {J : Type 0} (later : Text) where
  unfoldable pub complete_tool_call :
      ToolContext → Text → ToolCallStatus → ExecutorMethod J (Unit {0})
  unfolding swallow on_routes complete_tool_call_route
  complete_tool_call context tool_call_id status = swallow (
      on_routes (
        complete_tool_call_route later (record {
          owner = context.owner;
          tool_call_id = tool_call_id;
          status = some status;
          now = none;
        })))

  -- The `try` block, from the answer on.
  unfoldable pub finish_response : ToolContext → Text → RemoteMcpToolResult J → ExecutorMethod J J
  unfolding complete_tool_call execution_error
  finish_response context tool_call_id (tool_error error) = do
    complete_tool_call context tool_call_id failed
    throw (execution_failed (execution_error error))
  finish_response context tool_call_id (tool_ok result) = do
    complete_tool_call context tool_call_id completed
    pure result

  -- `catch (error)`
  unfoldable pub finish_thrown :
      ToolContext
      → Text
      → ExecutorState J × Result (ToolFailure J) J
      → ExecutorState J × Result (ToolFailure J) J
  unfolding complete_tool_call is_execution_error
  finish_thrown context tool_call_id (s, ok result) = (s, ok result)
  finish_thrown context tool_call_id (s, err e) =
      if is_execution_error e
      then (s, err e)
      else ((complete_tool_call context tool_call_id failed s).0, err e)

-- A call begins at the instant `clock` and has its answer at the instant `later`.
module _ {J : Type 0} (host : ExecutorHost J) (clock later : Text) where
  unfoldable pub open_workspace_at : ToolContext → J → ExecutorMethod J J
  unfolding on_pairings on_routes resolve_device bind_workspace_route tool_call_id_of send
      create_tool_call_message execution_error
  open_workspace_at context input = do
    routes ← gets λ s. s.services.routing
    paired ← on_pairings (
        resolve_device host.date_parse clock (lookup_in routes) (record {
          owner = context.owner;
          mcp_session_id = context.mcp_session_id;
          conversation_session_id = context.conversation_session_id;
          device_id = context.device_id;
          now = none;
        }))
    response ← send host (
        create_tool_call_message host.context_value paired.device_id (tool_call_id_of host context)
          open_workspace context none input)
    elim response [
      | tool_error error ↦ throw (execution_failed (execution_error error))
      | tool_ok result ↦ do
        workspace_id ← lift (host.opened_id result)
        on_routes (
            bind_workspace_route host.date_parse later (record {
              owner = context.owner;
              mcp_session_id = context.mcp_session_id;
              conversation_session_id = context.conversation_session_id;
              workspace_id = workspace_id;
              device_id = paired.device_id;
              workspace_ref = some (host.path_of input);
              now = none;
              expires_at = none;
            }))
        pure result
    ]

  -- The `try` statement.
  unfoldable pub send_and_finish : ToolContext → Text → ToolCallMessage J → ExecutorMethod J J
  unfolding send finish_response finish_thrown
  send_and_finish context tool_call_id message s =
      finish_thrown later context tool_call_id
        ((send host message >>= finish_response later context tool_call_id) s)

  unfoldable pub call_workspace_tool :
      RemoteMcpToolName → ToolContext → Text → J → ExecutorMethod J J
  unfolding on_routes resolve_workspace_route tool_call_id_of create_tool_call_message
      send_and_finish
  call_workspace_tool tool context workspace_id input = do
    let tool_call_id : Text = tool_call_id_of host context
    route ←
        on_routes (
          resolve_workspace_route host.date_parse clock
            (route_input host tool context workspace_id))
    send_and_finish context tool_call_id (
        create_tool_call_message host.context_value route.device.device_id tool_call_id tool context
          (some workspace_id) input)

  -- The methods of the executor by the tool; `workspace_id` is their second argument, which
  -- `open_workspace` and `show_changes` have not.
  unfoldable pub execute_tool : RemoteMcpToolName → ToolContext → Text → J → ExecutorMethod J J
  unfolding open_workspace_at call_workspace_tool
  execute_tool open_workspace context workspace_id input = open_workspace_at context input
  execute_tool read_file context workspace_id input =
      call_workspace_tool read_file context workspace_id input
  execute_tool write_file context workspace_id input =
      call_workspace_tool write_file context workspace_id input
  execute_tool edit_file context workspace_id input =
      call_workspace_tool edit_file context workspace_id input
  execute_tool grep_files context workspace_id input =
      call_workspace_tool grep_files context workspace_id input
  execute_tool find_files context workspace_id input =
      call_workspace_tool find_files context workspace_id input
  execute_tool list_directory context workspace_id input =
      call_workspace_tool list_directory context workspace_id input
  execute_tool run_shell context workspace_id input =
      call_workspace_tool run_shell context workspace_id input
  execute_tool show_changes context workspace_id input =
      call_workspace_tool show_changes context (host.workspace_id_of input) input
