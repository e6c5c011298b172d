-- ===== src/Agent/EndToEnd.antt =====
-- A call over the wire and its answer back: src/local-agent-outbound-client.ts,
-- src/local-agent-receiver.ts and src/cloud-device-websocket-route.ts.
use xautojs_devspace.Agent.Messages.{
  all_tools, find_tool, gateway_message_json, gateway_message_of, handle_gateway_data,
  is_gateway_message, is_tool_call_message, is_tool_cancel_message, parse_gateway_message,
  tool_call_json, tool_name,
}
use xautojs_devspace.Channel.{Channel, PendingToolCall, answer_of, handle_device_message, resolved}
use xautojs_devspace.Channel.Messages.{
  AgentMessage, RemoteMcpToolResult, ToolCallMessage, ToolResultMessage, create_result_message,
  device_details, tool_call_message, tool_error, tool_ok, tool_result_message,
}
use xautojs_devspace.Prelude.{List, Option, false, get_or, none, refl, some, true, ◌≡◌}
use xautojs_devspace.Prelude.JsMap.{get}
use xautojs_devspace.Prelude.Json.{Json, find_field, get_field, is_record, optional_field}
use xautojs_devspace.Prelude.Result.{Result, err, ok}
use xautojs_devspace.Prelude.Text.{Text, text, text_eq}
use xautojs_devspace.Receiver.{
  AgentEffect, AgentHost, ThrownError, answer_message, execute_tool_call, handle_gateway_message,
  handle_tool_call, local_agent_error,
}
use xautojs_devspace.Routing.Contract.{
  RemoteMcpToolName, edit_file, find_files, grep_files, list_directory, open_workspace, read_file,
  run_shell, show_changes, write_file,
}
use xautojs_devspace.Socket.Crossing.{handle_device_message-settled}
use xautojs_devspace.Socket.Messages.{has_type, has_version, parse_agent_message, text_field}
use xautojs_devspace.Socket.RoundTrip.{IsDeviceResult, parse-tool_result_json}
use xautojs_devspace.Socket.Wire.{agent_message_json, message_json, tool_result_json}

find_tool-tool_name : (t : RemoteMcpToolName) → find_tool (tool_name t) all_tools ≡ some t
unfolding find_tool tool_name text text_eq
find_tool-tool_name open_workspace = refl
find_tool-tool_name read_file = refl
find_tool-tool_name write_file = refl
find_tool-tool_name edit_file = refl
find_tool-tool_name grep_files = refl
find_tool-tool_name find_files = refl
find_tool-tool_name list_directory = refl
find_tool-tool_name run_shell = refl
find_tool-tool_name show_changes = refl

reading_calls : Unit {0}
unfolding parse_gateway_message is_gateway_message gateway_message_of is_tool_cancel_message
    is_tool_call_message has_type has_version get_field find_field text_field text text_eq
    message_json optional_field tool_call_json gateway_message_json
reading_calls = tt

parse-tool_call_json :
    (device call : Text) (tool : RemoteMcpToolName) (context : Json) (workspace : Option Text)
    (input : Json) (deadline : Option Text)
    → is_record context ≡ true
    → let m : ToolCallMessage Json = record {
      device_id = device;
      tool_call_id = call;
      tool = tool;
      context = context;
      workspace_id = workspace;
      input = input;
      deadline_at = deadline;
    } in
      parse_gateway_message (some (tool_call_json m)) ≡ some (tool_call_message m)
unfolding reading_calls
parse-tool_call_json device call tool context none input none c =
    rw c (rw (find_tool-tool_name tool) refl)
parse-tool_call_json device call tool context none input (some d) c =
    rw c (rw (find_tool-tool_name tool) refl)
parse-tool_call_json device call tool context (some w) input none c =
    rw c (rw (find_tool-tool_name tool) refl)
parse-tool_call_json device call tool context (some w) input (some d) c =
    rw c (rw (find_tool-tool_name tool) refl)

-- The result that a device answers with.
abbrev pub result_for : Result ThrownError Json → RemoteMcpToolResult Json
result_for (ok result) = tool_ok result
result_for (err e) = tool_error (local_agent_error e)

result_for-IsDeviceResult : (r : Result ThrownError Json) → IsDeviceResult (result_for r)
unfolding local_agent_error
result_for-IsDeviceResult (ok result) = tt
result_for-IsDeviceResult (err e) =
    elim e.details
      as (λ o. IsDeviceResult (
        tool_error (record {
          code = get_or e.code (text "LOCAL_TOOL_FAILED");
          message = e.message;
          retryable = some (get_or e.retryable false);
          details = elim o [ none ↦ none | some d ↦ some (device_details d) ];
        }))) [ none ↦ tt | some d ↦ tt ]

answer_message-result :
    (m : ToolCallMessage Json) (outcome : List AgentEffect × Result ThrownError Json)
    → (answer_message m outcome).1
      ≡ tool_result_message (record {
        device_id = some m.device_id;
        tool_call_id = m.tool_call_id;
        result = result_for outcome.1;
      })
unfolding answer_message create_result_message
answer_message-result m (effects, ok result) = refl
answer_message-result m (effects, err e) = refl

module _ (host : AgentHost) (m : ToolCallMessage Json) (given : is_record m.context ≡ true)
    (effects : List AgentEffect) where
  abbrev answer : ToolResultMessage Json
  answer = record {
    device_id = some m.device_id;
    tool_call_id = m.tool_call_id;
    result = result_for (execute_tool_call host m effects).1;
  }

  parse-gateway_message_json :
      parse_gateway_message (some (gateway_message_json (tool_call_message m)))
      ≡ some (tool_call_message m)
  unfolding gateway_message_json
  parse-gateway_message_json =
      parse-tool_call_json m.device_id m.tool_call_id m.tool m.context m.workspace_id m.input
        m.deadline_at given

  handled :
      (handle_gateway_message host (tool_call_message m) effects).1
      ≡ some (tool_result_message answer)
  unfolding handle_gateway_message handle_tool_call
  handled = rw (answer_message-result m (execute_tool_call host m effects)) refl

  handle_gateway_data-answer :
      (handle_gateway_data host (some (gateway_message_json (tool_call_message m))) effects).1
      ≡ some (tool_result_json answer)
  unfolding handle_gateway_data agent_message_json
  handle_gateway_data-answer =
      rw (handle_gateway_data, parse-gateway_message_json) (rw handled refl)

  -- A call whose context is an object, sent to the device as JSON, is answered by it as JSON, and the
  -- answer, read by the gateway and given to the channel in which the call waits unanswered, answers
  -- it with the result of the tool, or with the error that the tool or the approval threw.
  pub handle_gateway_data-answers :
      (c : Channel Json) (waiting : PendingToolCall)
      → get m.tool_call_id c.pending_tool_calls ≡ some waiting
      → answer_of waiting.promise c.settled ≡ none
      → (message : AgentMessage Json) × (parse_agent_message
            (handle_gateway_data host (some (gateway_message_json (tool_call_message m))) effects).1
          ≡ some message)
        × (answer_of waiting.promise (handle_device_message message c).settled
            ≡ some (resolved (result_for (execute_tool_call host m effects).1)))
  handle_gateway_data-answers c waiting pending unanswered = (
    tool_result_message answer,
    rw handle_gateway_data-answer (
        parse-tool_result_json answer.device_id answer.tool_call_id answer.result
          (result_for-IsDeviceResult (execute_tool_call host m effects).1)),
    handle_device_message-settled answer waiting c pending unanswered,
  )
