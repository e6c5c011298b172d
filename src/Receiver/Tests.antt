-- ===== src/Receiver/Tests.antt =====
-- A command that is approved, denied or not asked about, and the theorems there.
use xautojs_devspace.Channel.Messages.{ToolCallMessage, create_result_message}
use xautojs_devspace.Prelude.{In, List, [], inl, inr, length, none, refl, some, ◌++◌, ◌∷◌, ◌≡◌, ◌≤◌}
use xautojs_devspace.Prelude.Json.{Json, field, json_object, json_text, no_fields, optional_field}
use xautojs_devspace.Prelude.Result.{Result, ok}
use xautojs_devspace.Prelude.Text.{Text, slice_to, text, text_eq, trim}
use xautojs_devspace.Receiver.{
  AgentEffect, AgentHost, ApprovalDecision, ApprovalRequest, ThrownError, answer_message,
  approval_denied, approval_request, approval_tool_name, approve_shell, asked, call_context,
  edit_approval_title, execute_as, execute_tool_call, executed, handle_tool_call, high_risk,
  local_agent_error, require_approval, required_workspace_id, run_approved, run_in_workspace,
  run_tool, set_field, shell_approval_title, write_approval_title,
}
use xautojs_devspace.Receiver.Laws.{
  IsApproved, handle_tool_call-IsApproved, length-shell_approval_title,
}
use xautojs_devspace.Routing.Contract.{run_shell}

receiving : Unit {0}
unfolding handle_tool_call execute_tool_call execute_as run_approved run_in_workspace run_tool
    require_approval approval_request approval_denied required_workspace_id call_context set_field
    answer_message local_agent_error create_result_message shell_approval_title write_approval_title
    edit_approval_title slice_to text text_eq trim optional_field approval_tool_name
receiving = tt

abbrev input : Json
input = json_text (text "ls")

-- Only calls of `c1` are approved.
abbrev asks : ApprovalRequest → Result ThrownError ApprovalDecision
asks request = ok (record {
  approved = text_eq request.tool_call_id (text "c1");
  reason = some (text "no");
  approved_by = none;
})

abbrev agent : AgentHost
agent = record {
  execute = λ tool context workspace given. ok given;
  prompt = some asks;
  path_of = λ given. text "a.txt";
  command_of = λ given. text "ls";
}

abbrev shell_call : Text → ToolCallMessage Json
shell_call tool_call_id = record {
  device_id = text "laptop";
  tool_call_id = tool_call_id;
  tool = run_shell;
  context = json_object no_fields;
  workspace_id = some (text "w1");
  input = input;
  deadline_at = none;
}

abbrev effects : Text → List AgentEffect
effects tool_call_id = (handle_tool_call agent (shell_call tool_call_id) []).0

abbrev shell_context : Json
shell_context = json_object (
    field (text "deviceId") (json_text (text "laptop"))
      (field (text "toolCallId") (json_text (text "c1")) no_fields))

shell_executed :
    In (executed run_shell shell_context (some (text "w1")) input) (effects (text "c1"))
unfolding receiving
shell_executed = inr (inl refl)

denied_executes_nothing :
    effects (text "c2")
    ≡ asked (
        approval_request
          (shell_call (text "c2"))
          approve_shell
          (text "w1")
          high_risk
          (text "Run shell command: ls"))
      ∷ []
unfolding receiving
denied_executes_nothing = refl

handle_tool_call-IsApproved_example :
    (workspace_id : Text) × (some (text "w1") ≡ some workspace_id)
    × (input ≡ (shell_call (text "c1")).input)
    × IsApproved asks (effects (text "c1")) (text "c1") workspace_id input
handle_tool_call-IsApproved_example =
    handle_tool_call-IsApproved agent asks refl (shell_call (text "c1")) run_shell shell_context
      (some (text "w1")) input tt shell_executed

length-shell_approval_title_example :
    (length (shell_approval_title agent input) ≤ 99)
    × (length (text "ls") ≤ 80
        → shell_approval_title agent input ≡ text "Run shell command: " ++ text "ls")
length-shell_approval_title_example = length-shell_approval_title agent input
