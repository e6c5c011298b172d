-- ===== src/Executor/Ended.antt =====
-- The record of a tool call once it has an answer: `completeToolCall` in
-- src/gateway-mcp-tool-executor.ts.
use xautojs_devspace.Channel.Messages.{RemoteMcpToolResult, tool_error, tool_ok}
use xautojs_devspace.Executor.{
  ExecutorHost, ExecutorState, ToolContext, ToolFailure, complete_tool_call, execution_failed,
  finish_response, finish_thrown, is_execution_error, on_routes, other_failure, routing_failed,
  swallow, tool_call_id_of,
}
use xautojs_devspace.Prelude.{Option, arith, false, none, refl, some, ◌≡◌}
use xautojs_devspace.Prelude.JsMap.{get, get-put}
use xautojs_devspace.Prelude.Result.{Result, err, ok}
use xautojs_devspace.Prelude.State.{continue}
use xautojs_devspace.Prelude.Text.{Text}
use xautojs_devspace.Prelude.Text.Laws.{text_eq_refl}
use xautojs_devspace.Routing.Contract.{
  ToolCallRecord, ToolCallStatus, WorkspaceIdentity, completed, failed, normalize_owner,
  normalize_required_id, route_now,
}
use xautojs_devspace.Routing.Store.{scoped_key}
use xautojs_devspace.Routing.Store.Kept.{KeptCall, SameCall}
use xautojs_devspace.Routing.Store.ToolCalls.{complete_tool_call_route}

-- The status in which the record of a call ends.
abbrev pub ended : {J : Type 0} → Result (ToolFailure J) J → ToolCallStatus
ended (ok result) = completed
ended (err e) = failed

module _ {J : Type 0} (host : ExecutorHost J) (clock later : Text) (context : ToolContext)
    (owner : WorkspaceIdentity) (tool_call_id key : Text)
    (owner_parsed : normalize_owner context.owner ≡ ok owner)
    (id_parsed : normalize_required_id (some (tool_call_id_of host context)) "toolCallId"
      ≡ ok tool_call_id)
    (key_made : scoped_key owner tool_call_id ≡ ok key) where
  complete_tool_call-put :
      (status : ToolCallStatus) (s : ExecutorState J) (call : ToolCallRecord) (now : Text)
      → route_now later none ≡ ok now
      → get key s.services.routing.tool_call_routes ≡ some call
      → get key
          (complete_tool_call later context
            (tool_call_id_of host context)
            status
            s).0.services.routing.tool_call_routes
        ≡ some (record call { status = status; last_seen_at = now; completed_at = some now })
  unfolding complete_tool_call swallow on_routes complete_tool_call_route
  complete_tool_call-put status s call now n h = ground (
    arith,
    get-put key key (record call { status = status; last_seen_at = now; completed_at = some now })
        s.services.routing.tool_call_routes,
    text_eq_refl key,
  )

  abbrev pub Ended : ToolCallRecord → Text → ExecutorState J × Result (ToolFailure J) J → Type 0
  Ended call now (s, outcome) =
      get key s.services.routing.tool_call_routes
      ≡ some (record call { status = ended outcome; last_seen_at = now; completed_at = some now })

  pub finish-Ended :
      (s : ExecutorState J) (answer : Result (ToolFailure J) (RemoteMcpToolResult J))
      (call : ToolCallRecord) (now : Text)
      → ((e : ToolFailure J) → answer ≡ err e → is_execution_error e ≡ false)
      → route_now later none ≡ ok now
      → get key s.services.routing.tool_call_routes ≡ some call
      → Ended call now (
          finish_thrown later context
            (tool_call_id_of host context)
            (continue (finish_response later context (tool_call_id_of host context)) (s, answer)))
  unfolding finish_thrown finish_response is_execution_error
  finish-Ended s (ok (tool_ok result)) call now plain n h =
      complete_tool_call-put completed s call now n h
  finish-Ended s (ok (tool_error error)) call now plain n h =
      complete_tool_call-put failed s call now n h
  finish-Ended s (err e) call now plain n h =
      rw (plain e refl) (complete_tool_call-put failed s call now n h)

module _ {J : Type 0} (later : Text) (context : ToolContext) (id : Text) where
  -- Nothing is handed to the channel after the answer.
  pub finish-handed :
      (s : ExecutorState J) (answer : Result (ToolFailure J) (RemoteMcpToolResult J))
      → (finish_thrown later context id
          (continue (finish_response later context id) (s, answer))).0.handed
        ≡ s.handed
  unfolding finish_thrown finish_response complete_tool_call swallow on_routes is_execution_error
  finish-handed s (ok (tool_ok result)) = refl
  finish-handed s (ok (tool_error error)) = refl
  finish-handed s (err (execution_failed e)) = refl
  finish-handed s (err (routing_failed e)) = refl
  finish-handed s (err (other_failure e)) = refl

-- A record that was kept is there.
pub found_kept :
    (call : ToolCallRecord) (found : Option ToolCallRecord)
    → KeptCall call found
    → (last : ToolCallRecord) × (found ≡ some last) × SameCall call last
found_kept call none k = absurd k
found_kept call (some last) k = (last, refl, k)
