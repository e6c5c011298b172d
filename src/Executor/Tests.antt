-- ===== src/Executor/Tests.antt =====
-- A workspace that is opened, a call that succeeds and one that fails, and the theorems there.
use xautojs_devspace.Routing.Store.History.{run}
use xautojs_devspace.Routing.Store.History.{run}
use xautojs_devspace.Channel.Messages.{RemoteMcpToolResult, ToolCallMessage, tool_error, tool_ok}
use xautojs_devspace.Executor.{
  ExecutorHost, ExecutorState, RouteServices, ToolContext, ToolFailure, call_workspace_tool,
  complete_tool_call, create_tool_call_message, execute_tool, execution_error, finish_response,
  finish_thrown, is_execution_error, on_pairings, on_routes, open_workspace_at, route_input, send,
  send_and_finish, swallow, tool_call_id_of,
}
use xautojs_devspace.Executor.Ended.{ended}
use xautojs_devspace.Executor.Laws.{call_workspace_tool-Ended, call_workspace_tool-IsRouteable}
use xautojs_devspace.Prelude.{In, [], arith, inl, inr, none, refl, some, ◌∷◌, ◌≡◌, ◌⊎◌}
use xautojs_devspace.Prelude.JsMap.{get, put}
use xautojs_devspace.Prelude.Result.{Result, ok}
use xautojs_devspace.Prelude.Text.{Text, option_text_eq, text, text_eq, text_le, trim}
use xautojs_devspace.Routing.Contract.{
  DeviceRecord, DeviceStatus, RemoteMcpToolName, ResolvedRoute, ToolCallRecord, WorkspaceIdentity,
  WorkspaceRouteRecord, active, failed, is_expired, normalize_optional_id, normalize_owner,
  normalize_required_id, open_workspace, owner_key, read_file, route_now, write_file,
}
use xautojs_devspace.Routing.Keys.{key_of}
use xautojs_devspace.Routing.Store.{
  assert_device_routeable, assert_workspace_routeable, same_tool_call_route, same_workspace_binding,
  scoped_key, tool_eq,
}
use xautojs_devspace.Routing.Store.Kept.{SameCall}
use xautojs_devspace.Routing.Store.Methods.{bind_workspace_route, get_device}
use xautojs_devspace.Routing.Store.Resolve.{IsParsed, IsRouteable}
use xautojs_devspace.Routing.Store.ToolCalls.{
  complete_tool_call_route, new_tool_call, next_tool_call, normalize_tool_call_id,
  record_if_identified, record_tool_call_route, resolve_workspace_route,
}
use xautojs_devspace.Sessions.{
  binding_key, resolve_begin, resolve_device, resolve_finish, same_binding,
}

gateway : Unit {0}
unfolding call_workspace_tool send_and_finish finish_thrown finish_response complete_tool_call
    swallow on_routes on_pairings send create_tool_call_message tool_call_id_of execution_error
    is_execution_error open_workspace_at execute_tool resolve_device resolve_begin resolve_finish
    binding_key same_binding owner_key bind_workspace_route resolve_workspace_route
    complete_tool_call_route get_device record_if_identified record_tool_call_route next_tool_call
    normalize_tool_call_id normalize_owner normalize_required_id normalize_optional_id scoped_key
    route_now trim text get put text_eq option_text_eq assert_workspace_routeable
    assert_device_routeable same_workspace_binding same_tool_call_route tool_eq is_expired text_le
gateway = tt

abbrev clock : Text
clock = text "2026-01-01T00:00:00.000Z"

abbrev later : Text
later = text "2026-01-01T00:00:05.000Z"

abbrev ann : WorkspaceIdentity
ann = record { tenant_id = text "acme"; user_id = text "ann" }

abbrev laptop : DeviceRecord
laptop = record {
  device_id = text "laptop";
  owner = ann;
  label = none;
  capabilities = [];
  status = DeviceStatus.online;
  registered_at = clock;
  last_seen_at = clock;
  expires_at = none;
}

-- The device opens `w1`, reads files and fails at the rest.
abbrev answer_of : RemoteMcpToolName → RemoteMcpToolResult Text
answer_of open_workspace = tool_ok (text "w1")
answer_of read_file = tool_ok (text "hello")
answer_of _ =
    tool_error
      (record { code = text "DENIED"; message = text "Denied."; retryable = none; details = none })

abbrev host : ExecutorHost Text
host = record {
  date_parse = λ iso. none;
  random_uuid = text "u1";
  channel = λ message services. (services, ok (answer_of message.tool));
  context_value = λ context. [];
  path_of = λ input. input;
  workspace_id_of = λ input. text "w1";
  opened_id = λ result. ok result;
}

abbrev context : ToolContext
context = record {
  mcp_session_id = text "s1";
  owner = ann;
  conversation_session_id = none;
  device_id = some (text "laptop");
  tool_call_id = some (text "c1");
}

abbrev start : ExecutorState Text
start = record {
  services = record {
    pairing = record { bindings = [] };
    routing = record {
      devices = (key_of ann (text "laptop"), laptop) ∷ [];
      workspace_routes = [];
      tool_call_routes = [];
    };
  };
  handed = [];
}

abbrev opened : ExecutorState Text
opened =
    (execute_tool host clock clock open_workspace context [] (text "/home/ann/project") start).0

abbrev reading : ExecutorState Text × Result (ToolFailure Text) Text
reading = execute_tool host clock later read_file context (text "w1") (text "a.txt") opened

abbrev writing : ExecutorState Text × Result (ToolFailure Text) Text
writing = execute_tool host clock later write_file context (text "w1") (text "a.txt") opened

read_returns : reading.1 ≡ ok (text "hello")
unfolding gateway
read_returns = refl

-- The record of the call that failed is there, as failed.
write_fails :
    (some failed)
    ≡ (elim (get (key_of ann (text "c1")) writing.0.services.routing.tool_call_routes) [
      | none ↦ none
      | some call ↦ some call.status
    ])
unfolding gateway
write_fails = refl

abbrev project : WorkspaceRouteRecord
project = record {
  workspace_id = text "w1";
  owner = ann;
  mcp_session_id = text "s1";
  conversation_session_id = none;
  device_id = text "laptop";
  workspace_ref = some (text "/home/ann/project");
  status = active;
  created_at = clock;
  last_routed_at = some clock;
  expires_at = none;
}

abbrev routed_read : ResolvedRoute
routed_read = record {
  workspace = project;
  device = laptop;
  tool_call = some (new_tool_call ann project (text "c1") (some read_file) clock none);
  routed_at = clock;
}

read_routed :
    (resolve_workspace_route host.date_parse clock
      (route_input host read_file context (text "w1"))
      opened.services.routing).1
    ≡ ok routed_read
unfolding gateway
read_routed = refl

read-IsParsed :
    IsParsed clock
      (route_input host read_file context (text "w1"))
      ann
      (text "s1")
      none
      (text "w1")
      clock
unfolding gateway
read-IsParsed = record {
  owner_parsed = refl;
  session_parsed = refl;
  conversation_parsed = refl;
  workspace_parsed = refl;
  now_parsed = refl;
}

id_parses :
    normalize_required_id (some (tool_call_id_of host context)) "toolCallId" ≡ ok (text "c1")
unfolding gateway
id_parses = refl

later_parses : route_now later none ≡ ok later
unfolding gateway
later_parses = refl

channel_waits :
    (m : ToolCallMessage Text) (services : RouteServices)
    → (host.channel m services).0.routing ≡ run host.date_parse [] services.routing
unfolding run
channel_waits m services = refl

abbrev outcome : ExecutorState Text × Result (ToolFailure Text) Text
outcome = call_workspace_tool host clock later read_file context (text "w1") (text "a.txt") opened

call_workspace_tool-Ended_example :
    (first last : ToolCallRecord) × (routed_read.tool_call ≡ some first)
    × SameCall first last
    × (get (key_of ann (text "c1")) outcome.0.services.routing.tool_call_routes ≡ some last)
    × (last.status ≡ ended outcome.1)
    × (last.completed_at ≡ some later)
call_workspace_tool-Ended_example =
    call_workspace_tool-Ended host clock later context read_file (text "w1") (text "a.txt") ann
      (text "s1") none (text "w1") (text "c1") clock read-IsParsed id_parses (λ m. []) channel_waits
      (λ m services e thrown. absurd (ground arith)) later later_parses opened read_routed

abbrev first_message : ToolCallMessage Text
first_message =
    create_tool_call_message host.context_value (text "laptop") (text "c1") read_file context
      (some (text "w1")) (text "a.txt")

was_handed : In first_message outcome.0.handed
unfolding gateway
was_handed = inr (inl refl)

call_workspace_tool-IsRouteable_example :
    In first_message opened.handed
    ⊎ ((route : WorkspaceRouteRecord) × (device : DeviceRecord) × IsRouteable host.date_parse
          opened.services.routing ann
          (text "s1")
          none
          (text "w1")
          clock
          route
          device
        × (first_message
            ≡ create_tool_call_message host.context_value device.device_id
                (tool_call_id_of host context)
                read_file
                context
                (some (text "w1"))
                (text "a.txt")))
call_workspace_tool-IsRouteable_example =
    call_workspace_tool-IsRouteable host clock later context read_file (text "w1") (text "a.txt")
      ann (text "s1") none (text "w1") (text "c1") clock read-IsParsed id_parses opened
      first_message was_handed
