-- ===== src/Receiver.antt =====
-- src/local-agent-receiver.ts: `LocalAgentToolReceiver`, the desktop's end of a tool call. The
-- executor and the prompt are arguments that answer or throw; what is asked of them is listed, in
-- order. `path_of` and `command_of` are the input's fields of these names, which are strings by the
-- types of the inputs that have them.
pub mod Laws
mod Tests
use xautojs_devspace.Channel.Messages.{
  AgentMessage, GatewayMessage, RemoteMcpToolError, ToolCallMessage, create_result_message,
  device_details, tool_call_message, tool_cancel_message, tool_error, tool_ok,
}
use xautojs_devspace.Prelude.{
  Bool, List, Option, [], false, get_or, if◌then◌else◌, length, ltb, none, not, some, ◌++◌, ◌∷◌,
}
use xautojs_devspace.Prelude.Json.{
  Json, JsonFields, field, json_object, json_text, no_fields, optional_field,
}
use xautojs_devspace.Prelude.Result.{Result, err, ok}
use xautojs_devspace.Prelude.State.{Method, lift, modify, pure, throw_if, ◌>>=◌, ◌>>◌}
use xautojs_devspace.Prelude.Text.{Text, slice_to, text, text_eq, trim, truthy}
use xautojs_devspace.Routing.Contract.{
  RemoteMcpToolName, edit_file, find_files, grep_files, list_directory, open_workspace, read_file,
  run_shell, show_changes, write_file,
}

-- An approval is asked for by these tools.
pub data ApprovalTool : Type 0 where
  approve_write approve_edit approve_shell : ApprovalTool

pub data ApprovalRisk : Type 0 where
  medium_risk high_risk : ApprovalRisk

pub record ApprovalRequest : Type 0 where
  pub tool_call_id : Text
  pub tool : ApprovalTool
  pub workspace_id : Text
  pub context : Json
  pub input : Json
  pub risk : ApprovalRisk
  pub title : Text
  pub message : Text

pub record ApprovalDecision : Type 0 where
  pub approved : Bool
  pub reason : Option Text
  pub approved_by : Option Text

-- What is thrown, as far as `localAgentError` reads it.
pub record ThrownError : Type 0 where
  pub code : Option Text
  pub message : Text
  pub retryable : Option Bool
  pub details : Option Json

-- What the receiver does on the desktop.
pub data AgentEffect : Type 0 where
  asked : ApprovalRequest → AgentEffect
  executed : RemoteMcpToolName → Json → Option Text → Json → AgentEffect

-- What the receiver is built over.
pub record AgentHost : Type 0 where
  pub execute : RemoteMcpToolName → Json → Option Text → Json → Result ThrownError Json
  pub prompt : Option (ApprovalRequest → Result ThrownError ApprovalDecision)
  pub path_of : Json → Text
  pub command_of : Json → Text

abbrev pub ReceiverMethod : Type 0 → Type 0
ReceiverMethod A = Method (List AgentEffect) ThrownError A

abbrev pub plain_error : Text → ThrownError
plain_error message = record { code = none; message = message; retryable = none; details = none }

unfoldable pub approval_tool_name : ApprovalTool → Text
unfolding text
approval_tool_name approve_write = text "write_file"
approval_tool_name approve_edit = text "edit_file"
approval_tool_name approve_shell = text "run_shell"

-- `LocalAgentApprovalDeniedError`; a reason that is not there is left out of the details.
unfoldable pub approval_denied : ApprovalTool → Text → Text → Option Text → ThrownError
unfolding text approval_tool_name optional_field
approval_denied tool tool_call_id workspace_id reason = record {
  code = some (text "LOCAL_APPROVAL_DENIED");
  message = elim reason [
    | none ↦ text "Local approval denied."
    | some why ↦
        if truthy why then text "Local approval denied: " ++ why else text "Local approval denied."
  ];
  retryable = some false;
  details = some (
      json_object (
        field (text "tool") (json_text (approval_tool_name tool)) (
          field (text "toolCallId") (json_text tool_call_id) (
            field (text "workspaceId") (json_text workspace_id)
              (optional_field (text "reason") reason no_fields)))));
}

-- `if (!workspaceId?.trim()) throw …; return workspaceId`
unfoldable pub required_workspace_id : Option Text → Result ThrownError Text
unfolding trim text
required_workspace_id none = err (plain_error (text "workspaceId is required for this tool call."))
required_workspace_id (some workspace_id) =
    if truthy (trim workspace_id)
    then ok workspace_id
    else err (plain_error (text "workspaceId is required for this tool call."))

-- The value of a field that is written over, or added at the end.
unfoldable pub set_field : Text → Json → JsonFields → JsonFields
unfolding text_eq
set_field name value no_fields = field name value no_fields
set_field name value (field k v rest) =
    let others = set_field name value rest in
    if text_eq k name then field name value rest else field k v others

-- `{ ...message.context, deviceId, toolCallId }`
unfoldable pub call_context : ToolCallMessage Json → Json
unfolding text set_field
call_context message =
    let fields : JsonFields = elim message.context [ json_object given ↦ given | _ ↦ no_fields ] in
    json_object (
      set_field (text "toolCallId") (json_text message.tool_call_id)
        (set_field (text "deviceId") (json_text message.device_id) fields))

-- `localAgentError`
unfoldable pub local_agent_error : ThrownError → RemoteMcpToolError Json
unfolding text
local_agent_error error = record {
  code = get_or error.code (text "LOCAL_TOOL_FAILED");
  message = error.message;
  retryable = some (get_or error.retryable false);
  details = elim error.details [ none ↦ none | some d ↦ some (device_details d) ];
}

unfoldable pub approval_request :
    ToolCallMessage Json → ApprovalTool → Text → ApprovalRisk → Text → ApprovalRequest
unfolding call_context text
approval_request message tool workspace_id risk title = record {
  tool_call_id = message.tool_call_id;
  tool = tool;
  workspace_id = workspace_id;
  context = call_context message;
  input = message.input;
  risk = risk;
  title = title;
  message = title ++ (text " in workspace " ++ (workspace_id ++ text "."));
}

-- `catch (error) { return createCloudDeviceToolErrorMessage(…) }`
unfoldable pub answer_message :
    ToolCallMessage Json
    → List AgentEffect × Result ThrownError Json
    → List AgentEffect × AgentMessage Json
unfolding create_result_message local_agent_error
answer_message message (effects, ok result) =
    (effects, create_result_message (some message.device_id) message.tool_call_id (tool_ok result))
answer_message message (effects, err error) = (
  effects,
  create_result_message (some message.device_id) message.tool_call_id
      (tool_error (local_agent_error error)),
)

module _ (host : AgentHost) where
  open host use {execute, prompt, path_of, command_of}

  unfoldable pub write_approval_title : Json → Text
  unfolding text
  write_approval_title input = text "Write " ++ path_of input

  unfoldable pub edit_approval_title : Json → Text
  unfolding text
  edit_approval_title input = text "Edit " ++ path_of input

  -- A command of more than 80 code units is cut.
  unfoldable pub shell_approval_title : Json → Text
  unfolding text slice_to
  shell_approval_title input =
      let command : Text = command_of input in
      text "Run shell command: "
      ++ (if ltb 80 (length command) then slice_to 77 command ++ text "..." else command)

  -- A call of the executor.
  unfoldable pub run_tool : RemoteMcpToolName → Json → Option Text → Json → ReceiverMethod Json
  run_tool tool context workspace_id input = do
    modify λ effects. effects ++ executed tool context workspace_id input ∷ []
    lift (execute tool context workspace_id input)

  unfoldable pub require_approval :
      ToolCallMessage Json → ApprovalTool → Text → ApprovalRisk → Text → ReceiverMethod (Unit {0})
  unfolding approval_request approval_denied
  require_approval message tool workspace_id risk title = elim prompt [
    | none ↦ pure tt
    | some request_approval ↦ do
      let request : ApprovalRequest = approval_request message tool workspace_id risk title
      modify λ effects. effects ++ asked request ∷ []
      decision ← lift (request_approval request)
      throw_if (not decision.approved)
          (approval_denied tool message.tool_call_id workspace_id decision.reason)
  ]

  -- A tool that reads, for a workspace.
  unfoldable pub run_in_workspace : ToolCallMessage Json → ReceiverMethod Json
  unfolding required_workspace_id run_tool call_context
  run_in_workspace message = do
    workspace_id ← lift (required_workspace_id message.workspace_id)
    run_tool message.tool (call_context message) (some workspace_id) message.input

  -- A tool that asks first.
  unfoldable pub run_approved :
      ToolCallMessage Json → ApprovalTool → ApprovalRisk → Text → ReceiverMethod Json
  unfolding required_workspace_id run_tool require_approval call_context
  run_approved message tool risk title = do
    workspace_id ← lift (required_workspace_id message.workspace_id)
    require_approval message tool workspace_id risk title
    run_tool message.tool (call_context message) (some workspace_id) message.input

  unfoldable pub execute_as : RemoteMcpToolName → ToolCallMessage Json → ReceiverMethod Json
  unfolding run_in_workspace run_approved run_tool call_context write_approval_title
      edit_approval_title shell_approval_title
  execute_as open_workspace message =
      run_tool message.tool (call_context message) none message.input
  execute_as read_file message = run_in_workspace message
  execute_as write_file message =
      run_approved message approve_write medium_risk (write_approval_title message.input)
  execute_as edit_file message =
      run_approved message approve_edit medium_risk (edit_approval_title message.input)
  execute_as grep_files message = run_in_workspace message
  execute_as find_files message = run_in_workspace message
  execute_as list_directory message = run_in_workspace message
  execute_as run_shell message =
      run_approved message approve_shell high_risk (shell_approval_title message.input)
  execute_as show_changes message = run_tool message.tool (call_context message) none message.input

  unfoldable pub execute_tool_call : ToolCallMessage Json → ReceiverMethod Json
  unfolding execute_as
  execute_tool_call message = execute_as message.tool message

  unfoldable pub handle_tool_call :
      ToolCallMessage Json → List AgentEffect → List AgentEffect × AgentMessage Json
  unfolding answer_message
  handle_tool_call message effects = answer_message message (execute_tool_call message effects)

  unfoldable pub handle_gateway_message :
      GatewayMessage Json → List AgentEffect → List AgentEffect × Option (AgentMessage Json)
  handle_gateway_message (tool_cancel_message message) effects = (effects, none)
  handle_gateway_message (tool_call_message message) effects =
      let (after, answer) = handle_tool_call message effects in (after, some answer)
