-- ===== src/Executor/Remote.antt =====
-- src/remote-mcp-tool-executor.ts: `RemoteMcpToolExecutor`. What is handed to the transport is listed.
use xautojs_devspace.Channel.Messages.{RemoteMcpToolResult, tool_error, tool_ok}
use xautojs_devspace.Executor.{
  ToolContext, ToolFailure, execution_error, execution_failed, other_failure,
}
use xautojs_devspace.Prelude.{
  List, Option, [], get_or, if◌then◌else◌, none, not, some, ◌++◌, ◌||◌, ◌∷◌,
}
use xautojs_devspace.Prelude.Result.{Result, err, ok}
use xautojs_devspace.Prelude.State.{Method, lift, modify, pure, throw, ◌>>=◌, ◌>>◌}
use xautojs_devspace.Prelude.Text.{Text, text, trim, truthy}
use xautojs_devspace.Routing.Contract.{
  RemoteMcpToolName, edit_file, find_files, grep_files, list_directory, open_workspace, read_file,
  run_shell, show_changes, write_file,
}

pub record RemoteMcpToolCall (J : Type 0) : Type 0 where
  pub tool_call_id : Text
  pub tool : RemoteMcpToolName
  pub context : ToolContext
  pub workspace_id : Option Text
  pub input : J

-- The transport, `randomUUID`, and `input.workspaceId`.
pub record RemoteHost (J : Type 0) : Type 0 where
  pub call : RemoteMcpToolCall J → Result (ToolFailure J) (RemoteMcpToolResult J)
  pub random_uuid : Text
  pub workspace_id_of : J → Text

abbrev pub RemoteMethod : Type 0 → Type 0 → Type 0
RemoteMethod J A = Method (List (RemoteMcpToolCall J)) (ToolFailure J) A

module _ {J : Type 0} where
  unfoldable pub assert_execution_context : ToolContext → Result (ToolFailure J) (Unit {0})
  unfolding trim text
  assert_execution_context context =
      if not (truthy (trim context.mcp_session_id))
      then err (other_failure (text "Missing MCP session execution context."))
      else if not (truthy (trim context.owner.tenant_id))
          || not (truthy (trim context.owner.user_id))
      then err (other_failure (text "Missing owner execution context."))
      else ok tt

  module _ (host : RemoteHost J) where
    unfoldable pub call_remote :
        RemoteMcpToolName → ToolContext → J → Option Text → RemoteMethod J J
    unfolding assert_execution_context text execution_error
    call_remote tool context input workspace_id = do
      lift (assert_execution_context context)
      let given : RemoteMcpToolCall J = record {
        tool_call_id = get_or context.tool_call_id (text "tc_" ++ host.random_uuid);
        tool = tool;
        context = context;
        workspace_id = workspace_id;
        input = input;
      }
      modify λ calls. calls ++ given ∷ []
      response ← lift (host.call given)
      elim response [
        | tool_error error ↦ throw (execution_failed (execution_error error))
        | tool_ok result ↦ pure result
      ]

    -- The methods by the tool.
    unfoldable pub execute_remotely : RemoteMcpToolName → ToolContext → Text → J → RemoteMethod J J
    unfolding call_remote
    execute_remotely open_workspace context workspace_id input =
        call_remote open_workspace context input none
    execute_remotely read_file context workspace_id input =
        call_remote read_file context input (some workspace_id)
    execute_remotely write_file context workspace_id input =
        call_remote write_file context input (some workspace_id)
    execute_remotely edit_file context workspace_id input =
        call_remote edit_file context input (some workspace_id)
    execute_remotely grep_files context workspace_id input =
        call_remote grep_files context input (some workspace_id)
    execute_remotely find_files context workspace_id input =
        call_remote find_files context input (some workspace_id)
    execute_remotely list_directory context workspace_id input =
        call_remote list_directory context input (some workspace_id)
    execute_remotely run_shell context workspace_id input =
        call_remote run_shell context input (some workspace_id)
    execute_remotely show_changes context workspace_id input =
        call_remote show_changes context input (some (host.workspace_id_of input))
