-- ===== src/Agent/Tests.antt =====
-- A client that connects, beats, stops and starts again, and the theorems there.
use xautojs_devspace.Agent.{
  Client, ClientEvent, ClientOptions, beats, clear_interval, closes, new_client, on_open,
  on_socket_close, opens, publish_catalog, run_client, send_heartbeat, send_hello, send_json, start,
  start_catalog_refresh, start_heartbeat, starts, step, stop, stop_catalog_refresh, stop_heartbeat,
  stops, ticks,
}
use xautojs_devspace.Agent.Closing.{on_socket_close-forgets}
use xautojs_devspace.Agent.EndToEnd.{handle_gateway_data-answers, result_for}
use xautojs_devspace.Agent.Lifecycle.{
  AgentConfig, AgentEvent, Lifecycle, agent_restarts, agent_starts, agent_step, client_does,
  make_client, no_agent, normalize_config, normalize_headers, required_agent_string, restart_agent,
  run_agent, start_agent, stop_agent,
}
use xautojs_devspace.Agent.Messages.{gateway_message_json, handle_gateway_data}
use xautojs_devspace.Agent.Single.{IsSingle, run_agent-IsSingle}
use xautojs_devspace.Channel.{
  Channel, PendingToolCall, answer_of, handle_device_message, idle, normalize_channel_capabilities,
  resolved,
}
use xautojs_devspace.Channel.Messages.{AgentMessage, ToolCallMessage, tool_call_message}
use xautojs_devspace.Prelude.{Bool, List, [], false, length, none, refl, some, true, ℕ, ◌∷◌, ◌≡◌}
use xautojs_devspace.Prelude.JsMap.{get, put}
use xautojs_devspace.Prelude.Json.{Json, json_object, json_text, no_fields}
use xautojs_devspace.Prelude.Result.{ok}
use xautojs_devspace.Prelude.Text.{Text, text, text_eq, trim}
use xautojs_devspace.Receiver.{
  AgentHost, call_context, execute_as, execute_tool_call, required_workspace_id, run_in_workspace,
  run_tool,
}
use xautojs_devspace.Routing.Contract.{read_file}
use xautojs_devspace.Socket.Messages.{parse_agent_message}

connecting : Unit {0}
unfolding run_client step start stop on_open send_hello send_heartbeat publish_catalog
    on_socket_close start_heartbeat stop_heartbeat start_catalog_refresh stop_catalog_refresh
    clear_interval send_json beats normalize_channel_capabilities text
connecting = tt

abbrev options : ClientOptions
options = record {
  device_id = text "laptop";
  desktop_instance_id = none;
  agent_version = none;
  capabilities = none;
  has_catalog_provider = true;
}

abbrev all_open : ℕ → Bool
all_open _ = true

abbrev time : Text
time = text "2026-01-01T00:00:00.000Z"

abbrev at : ClientEvent → (ℕ → Bool) × Text × ClientEvent
at event = (all_open, time, event)

abbrev beating : List ((ℕ → Bool) × Text × ClientEvent)
beating = at starts ∷ at opens ∷ at (ticks 0) ∷ at opens ∷ []

abbrev beating_client : Client
beating_client = run_client options beating new_client

-- The intervals of the first opening were cleared by the second.
two_intervals : length beating_client.running ≡ 2
unfolding connecting
two_intervals = refl

three_sent : length beating_client.sent ≡ 3
unfolding connecting
three_sent = refl

-- The close of the first socket is seen after the client was started again.
second_left_open :
    (run_client options
      (at starts ∷ at (stops (text "bye")) ∷ at starts ∷ at closes ∷ at (stops (text "bye")) ∷ [])
      new_client).closed
    ≡ (0, text "bye") ∷ []
unfolding connecting
second_left_open = refl

on_socket_close-forgets_example :
    ((stop (text "bye") (on_socket_close beating_client)).socket ≡ none)
    × ((stop (text "bye") (on_socket_close beating_client)).closed ≡ beating_client.closed)
on_socket_close-forgets_example = on_socket_close-forgets beating_client (text "bye")

abbrev config : AgentConfig
config = record {
  url = text " wss://gateway ";
  auth_token = text "token";
  device_id = text "laptop";
  capabilities = none;
  desktop_instance_id = none;
  agent_version = none;
  has_catalog_provider = false;
  headers = some ((text "authorization", text "other") ∷ (text " x-trace ", text " 1 ") ∷ []);
}

-- It starts, its socket opens, it restarts, and a start without a device fails.
abbrev lives : List (AgentEvent (λ s. s))
lives =
    agent_starts config time time (ok tt)
    ∷ client_does all_open time opens
    ∷ agent_restarts time time (ok tt)
    ∷ agent_starts (record config { device_id = text " " }) time time (ok tt)
    ∷ []

abbrev agent : Lifecycle
agent = run_agent (λ s. s) lives no_agent

two_left : length agent.left ≡ 2
unfolding run_agent agent_step start_agent restart_agent stop_agent normalize_config
    required_agent_string normalize_headers make_client trim text
two_left = refl

own_token :
    (make_client (λ s. s) (record config { headers = none })).headers
    ≡ (text "authorization", text "Bearer token") ∷ []
unfolding make_client text put
own_token = refl

run_agent-IsSingle_example : IsSingle agent
run_agent-IsSingle_example = run_agent-IsSingle (λ s. s) lives

abbrev desktop : AgentHost
desktop = record {
  execute = λ tool context workspace given. ok (json_text (text "hello"));
  prompt = none;
  path_of = λ given. text "a.txt";
  command_of = λ given. text "ls";
}

abbrev read_call : ToolCallMessage Json
read_call = record {
  device_id = text "laptop";
  tool_call_id = text "c1";
  tool = read_file;
  context = json_object no_fields;
  workspace_id = some (text "w1");
  input = json_text (text "a.txt");
  deadline_at = none;
}

abbrev waiting_call : PendingToolCall
waiting_call = record { device_id = text "laptop"; promise = 0 }

abbrev waiting_channel : Channel Json
waiting_channel = record idle { pending_tool_calls = (text "c1", waiting_call) ∷ []; calls = 1 }

call_waits : get read_call.tool_call_id waiting_channel.pending_tool_calls ≡ some waiting_call
unfolding get text text_eq
call_waits = refl

call_unanswered : answer_of waiting_call.promise waiting_channel.settled ≡ none
unfolding answer_of
call_unanswered = refl

-- A file that is read needs no approval, and what it holds comes back.
read_result : (execute_tool_call desktop read_call []).1 ≡ ok (json_text (text "hello"))
unfolding execute_tool_call execute_as run_in_workspace run_tool required_workspace_id call_context
    text trim
read_result = refl

handle_gateway_data-answers_example :
    (message : AgentMessage Json) × (parse_agent_message
        (handle_gateway_data desktop
          (some (gateway_message_json (tool_call_message read_call)))
          []).1
      ≡ some message)
    × (answer_of 0 (handle_device_message message waiting_channel).settled
        ≡ some (resolved (result_for (execute_tool_call desktop read_call []).1)))
handle_gateway_data-answers_example =
    handle_gateway_data-answers desktop read_call refl [] waiting_channel waiting_call call_waits
      call_unanswered
