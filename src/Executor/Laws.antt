-- ===== src/Executor/Laws.antt =====
-- What becomes of a tool call that the gateway carries: src/gateway-mcp-tool-executor.ts.
use xautojs_devspace.Channel.Messages.{ToolCallMessage}
use xautojs_devspace.Executor.{
  ExecutorHost, ExecutorState, RouteServices, ToolContext, ToolFailure, call_workspace_tool,
  create_tool_call_message, is_execution_error, on_routes, route_input, send, send_and_finish,
  tool_call_id_of,
}
use xautojs_devspace.Executor.Ended.{ended, finish-Ended, finish-handed, found_kept}
use xautojs_devspace.Prelude.{
  In, In-append, List, Option, [], false, inl, inr, none, refl, some, ◌++◌, ◌∷◌, ◌≡◌, ◌⊎◌,
}
use xautojs_devspace.Prelude.JsMap.{get}
use xautojs_devspace.Prelude.Result.{Result, Result-cases, err, ok}
use xautojs_devspace.Prelude.Text.{Text}
use xautojs_devspace.Routing.Contract.{
  DeviceRecord, RemoteMcpToolName, ResolvedRoute, RoutingError, ToolCallRecord, WorkspaceIdentity,
  WorkspaceRouteRecord, normalize_required_id, route_now,
}
use xautojs_devspace.Routing.Contract.Laws.{
  normalize_owner-IsNormalOwner, normalize_required_id-eq-ok, normalize_required_id_again,
}
use xautojs_devspace.Routing.Keys.{key_of, scoped_key_of_IsNormalOwner}
use xautojs_devspace.Routing.Store.History.{StoreCall, run}
use xautojs_devspace.Routing.Store.Kept.{SameCall, run-call_kept}
use xautojs_devspace.Routing.Store.Recorded.{resolve_workspace_route-recorded}
use xautojs_devspace.Routing.Store.Resolve.{
  IsParsed, IsRouteable, resolve_workspace_route-IsRouteable,
}
use xautojs_devspace.Routing.Store.ToolCalls.{normalize_tool_call_id, resolve_workspace_route}

module _ {J : Type 0} (host : ExecutorHost J) (clock later : Text) (context : ToolContext)
    (tool : RemoteMcpToolName) (workspace_input : Text) (input : J) (owner : WorkspaceIdentity)
    (session : Text) (conversation : Option Text) (workspace_id tool_call_id now : Text)
    (parsed : IsParsed clock
      (route_input host tool context workspace_input)
      owner
      session
      conversation
      workspace_id
      now)
    (id_parsed : normalize_required_id (some (tool_call_id_of host context)) "toolCallId"
      ≡ ok tool_call_id) where
  abbrev message_to : Text → ToolCallMessage J
  message_to device_id =
      create_tool_call_message host.context_value device_id (tool_call_id_of host context) tool
        context (some workspace_input) input

  abbrev after_routing : ExecutorState J → ExecutorState J
  after_routing s = record s {
    services = record s.services {
      routing =
          (resolve_workspace_route host.date_parse clock
            (route_input host tool context workspace_input) s.services.routing).0;
    };
  }

  identified : normalize_tool_call_id (some (tool_call_id_of host context)) ≡ ok (some tool_call_id)
  unfolding normalize_tool_call_id
  identified = rw id_parsed refl

  -- A call that is routed sends its message.
  call_workspace_tool-routed :
      (s : ExecutorState J) {r : ResolvedRoute}
      → (resolve_workspace_route host.date_parse clock
          (route_input host tool context workspace_input)
          s.services.routing).1
        ≡ ok r
      → call_workspace_tool host clock later tool context workspace_input input s
        ≡ send_and_finish host clock later context
            (tool_call_id_of host context)
            (message_to r.device.device_id)
            (after_routing s)
  unfolding call_workspace_tool on_routes
  call_workspace_tool-routed s h = rw h refl

  -- Where the call's owner, session, conversation, workspace, tool call id and instants parse, the
  -- call is routed, the channel throws no `RemoteMcpToolExecutionError` of its own, and what other
  -- calls do to the routing store while this one waits is a history of its operations: the record
  -- with which the call was routed is kept, with its session, workspace, device and tool, and it ends
  -- completed if the call returns and failed if it throws, at the instant of the answer.
  pub call_workspace_tool-Ended :
      (others : ToolCallMessage J → List (Text × StoreCall))
      → ((m : ToolCallMessage J) (services : RouteServices)
          → (host.channel m services).0.routing ≡ run host.date_parse (others m) services.routing)
      → ((m : ToolCallMessage J) (services : RouteServices) (e : ToolFailure J)
          → (host.channel m services).1 ≡ err e
          → is_execution_error e ≡ false)
      → (later_now : Text) → route_now later none ≡ ok later_now
      → (s : ExecutorState J) {r : ResolvedRoute}
      → (resolve_workspace_route host.date_parse clock
          (route_input host tool context workspace_input)
          s.services.routing).1
        ≡ ok r
      → let outcome : ExecutorState J × Result (ToolFailure J) J =
          call_workspace_tool host clock later tool context workspace_input input s in
        (first last : ToolCallRecord) × (r.tool_call ≡ some first)
        × SameCall first last
        × (get (key_of owner tool_call_id) outcome.0.services.routing.tool_call_routes ≡ some last)
        × (last.status ≡ ended outcome.1)
        × (last.completed_at ≡ some later_now)
  unfolding send_and_finish send
  call_workspace_tool-Ended others waits plain later_now n s {r} h =
      let key : Text = key_of owner tool_call_id in
      let (trimmed, given) =
        normalize_required_id-eq-ok (tool_call_id_of host context) "toolCallId" id_parsed in
      let (first, same, stored) =
        resolve_workspace_route-recorded host.date_parse clock
          (route_input host tool context workspace_input) owner session conversation workspace_id
          now parsed s.services.routing tool_call_id identified given
          (normalize_required_id_again (tool_call_id_of host context) "toolCallId" "toolCallId"
            id_parsed)
          h in
      let message : ToolCallMessage J = message_to r.device.device_id in
      let waiting : ExecutorState J = after_routing s in
      let answered : RouteServices = (host.channel message waiting.services).0 in
      let (call, found, kept) = found_kept first (get key answered.routing.tool_call_routes) (
        rw (waits message waiting.services) (
          run-call_kept host.date_parse key first (others message) waiting.services.routing
            stored)) in
      let ends =
        finish-Ended host clock later context owner tool_call_id key parsed.owner_parsed id_parsed
          (scoped_key_of_IsNormalOwner owner tool_call_id
            (normalize_owner-IsNormalOwner context.owner parsed.owner_parsed))
          (send host message waiting).0 (send host message waiting).1 call later_now
          (λ e thrown. plain message waiting.services e thrown) n found in
      (
        first,
        record call {
          status =
              ended
                (send_and_finish host clock later context (tool_call_id_of host context) message
                  waiting).1;
          last_seen_at = later_now;
          completed_at = some later_now;
        },
        same,
        record {
          session = kept.session;
          conversation = kept.conversation;
          workspace = kept.workspace;
          device = kept.device;
          tool = kept.tool;
          created = kept.created;
          deadline = kept.deadline;
        },
        rw (call_workspace_tool-routed s h) ends,
        rw (call_workspace_tool-routed s h) refl,
        refl,
      )

  send_and_finish-handed :
      (message : ToolCallMessage J) (s : ExecutorState J)
      → (send_and_finish host clock later context (tool_call_id_of host context) message s).0.handed
        ≡ s.handed ++ message ∷ []
  unfolding send_and_finish send
  send_and_finish-handed message s =
      finish-handed later context (tool_call_id_of host context) (send host message s).0
        (send host message s).1

  call_workspace_tool-unrouted :
      (s : ExecutorState J) {e : RoutingError}
      → (resolve_workspace_route host.date_parse clock
          (route_input host tool context workspace_input)
          s.services.routing).1
        ≡ err e
      → (call_workspace_tool host clock later tool context workspace_input input s).0.handed
        ≡ s.handed
  unfolding call_workspace_tool on_routes
  call_workspace_tool-unrouted s h = rw h refl

  -- Where the call's owner, session, conversation, workspace, id and instant parse, each message that the
  -- channel is given for the call is for the device of a route of this owner's that is active and not
  -- expired and of the same session, and of the same conversation or of none, and the device is online and not expired.
  pub call_workspace_tool-IsRouteable :
      (s : ExecutorState J) (message : ToolCallMessage J)
      → In message
          (call_workspace_tool host clock later tool context workspace_input input s).0.handed
      → In message s.handed
        ⊎ ((route : WorkspaceRouteRecord) × (device : DeviceRecord) × IsRouteable host.date_parse
              s.services.routing owner session conversation workspace_id now route device
            × (message ≡ message_to device.device_id))
  call_workspace_tool-IsRouteable s message =
      elim (Result-cases
        (resolve_workspace_route host.date_parse clock
          (route_input host tool context workspace_input) s.services.routing).1) [
            | inr (e, refused) ↦ rw (call_workspace_tool-unrouted s refused) (λ m. inl m)
            | inl (r, found) ↦
                let (route, v, _, _) =
                  resolve_workspace_route-IsRouteable host.date_parse clock
                    (route_input host tool context workspace_input) owner session conversation
                    workspace_id now parsed s.services.routing found in
                rw (call_workspace_tool-routed s found) (
                  rw (send_and_finish-handed (message_to r.device.device_id) (after_routing s))
                    (λ m. elim (In-append message s.handed (message_to r.device.device_id ∷ []) m) [
                      | inl before ↦ inl before
                      | inr new ↦ elim new [
                        | inl same ↦ inr (route, r.device, v, same)
                        | inr none_left ↦ elim none_left [ ]
                      ]
                    ]))
          ]
