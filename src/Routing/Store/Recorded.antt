-- ===== src/Routing/Store/Recorded.antt =====
-- A call that is routed under an id has its record: `resolveWorkspaceRoute` of
-- src/cloud-routing-store.ts.
use xautojs_devspace.Prelude.{Option, arith, inl, inr, refl, some, true, ◌≡◌}
use xautojs_devspace.Prelude.Int.{ℤ}
use xautojs_devspace.Prelude.JsMap.{get, get-put, put}
use xautojs_devspace.Prelude.Result.{Result, Result-cases, err, ok}
use xautojs_devspace.Prelude.Text.{Text, truthy}
use xautojs_devspace.Prelude.Text.Laws.{text_eq_refl}
use xautojs_devspace.Routing.Contract.{
  DeviceRecord, RemoteMcpToolName, ResolveWorkspaceInput, ResolvedRoute, RoutingError,
  ToolCallRecord, WorkspaceIdentity, WorkspaceRouteRecord, normalize_optional_id,
  normalize_required_id,
}
use xautojs_devspace.Routing.Keys.{key_of}
use xautojs_devspace.Routing.Store.{RoutingStore, scoped_key}
use xautojs_devspace.Routing.Store.Resolve.{
  IsParsed, IsRouteable, assert_device_routeable_iff, assert_workspace_routeable_iff, normal_key,
  resolve_workspace_route-IsRouteable,
}
use xautojs_devspace.Routing.Store.ToolCalls.{
  next_tool_call, normalize_tool_call_id, record_if_identified, record_tool_call_route,
  resolve_workspace_route,
}

module _ (owner : WorkspaceIdentity) (tool_call_id key : Text)
    (key_made : scoped_key owner tool_call_id ≡ ok key)
    (normal : normalize_required_id (some tool_call_id) "toolCallId" ≡ ok tool_call_id)
    (given : truthy tool_call_id ≡ true) where
  record_if_identified-recorded :
      (route : WorkspaceRouteRecord) (tool : Option RemoteMcpToolName) (now : Text)
      (deadline : Option Text) (store : RoutingStore) {found : Option ToolCallRecord}
      → (record_if_identified (some tool_call_id) owner route tool now deadline store).1 ≡ ok found
      → (call : ToolCallRecord) × (found ≡ some call)
        × (get key
              (record_if_identified
                (some tool_call_id)
                owner
                route
                tool
                now
                deadline
                store).0.tool_call_routes
            ≡ some call)
  unfolding record_if_identified record_tool_call_route
  record_if_identified-recorded route tool now deadline store {found} = rw given (
      rw normal (
        rw key_made (elim (Result-cases (normalize_optional_id deadline "deadlineAt")) [
          | inr (e, bad) ↦ rw bad (λ h. absurd (ground arith))
          | inl (deadline_at, good) ↦
              elim (Result-cases (
                next_tool_call (get key store.tool_call_routes) owner route tool_call_id tool now
                  deadline_at)) [
                    | inl (call, next) ↦ rw good (
                        rw next (λ h. (
                          call,
                          cc,
                          rw (get-put key key call store.tool_call_routes)
                              (rw (text_eq_refl key) refl),
                        )))
                    | inr (e, refused) ↦ rw good (rw refused (λ h. absurd (ground arith)))
                  ]
        ])))

module _ (date_parse : Text → Option ℤ) (clock : Text) (input : ResolveWorkspaceInput)
    (owner : WorkspaceIdentity) (session : Text) (conversation : Option Text)
    (workspace_id now : Text)
    (parsed : IsParsed clock input owner session conversation workspace_id now)
    (store : RoutingStore) (tool_call_id : Text)
    (identified : normalize_tool_call_id input.tool_call_id ≡ ok (some tool_call_id)) where
  -- A call of a route that can be taken comes to the recording of its tool call.
  abbrev recording :
      WorkspaceRouteRecord → RoutingStore × Result RoutingError (Option ToolCallRecord)
  recording stamped =
      record_if_identified (some tool_call_id) owner stamped input.tool now input.deadline_at
        (record store {
          workspace_routes = put (key_of owner workspace_id) stamped store.workspace_routes;
        })

  abbrev answer_of :
      WorkspaceRouteRecord
      → DeviceRecord
      → Result RoutingError (Option ToolCallRecord)
      → Result RoutingError ResolvedRoute
  answer_of stamped device (ok call) =
      ok (record { workspace = stamped; device = device; tool_call = call; routed_at = now })
  answer_of stamped device (err e) = err e

  resolve_workspace_route-recording :
      (route : WorkspaceRouteRecord) (device : DeviceRecord)
      → IsRouteable date_parse store owner session conversation workspace_id now route device
      → let stamped : WorkspaceRouteRecord = record route { last_routed_at = some now } in
        resolve_workspace_route date_parse clock input store
        ≡ ((recording stamped).0, answer_of stamped device (recording stamped).1)
  unfolding resolve_workspace_route
  resolve_workspace_route-recording route device v = ground (
    arith,
    normal_key date_parse clock input owner session conversation workspace_id now parsed store
        workspace_id,
    normal_key date_parse clock input owner session conversation workspace_id now parsed store
        route.device_id,
    assert_workspace_routeable_iff date_parse route session conversation now,
    assert_device_routeable_iff date_parse (some device) route.device_id now device,
  )

  -- A call that returns has the record of its tool call in the store, and answers with it.
  pub resolve_workspace_route-recorded :
      truthy tool_call_id ≡ true
      → normalize_required_id (some tool_call_id) "toolCallId" ≡ ok tool_call_id
      → {r : ResolvedRoute} → (resolve_workspace_route date_parse clock input store).1 ≡ ok r
      → (call : ToolCallRecord) × (r.tool_call ≡ some call)
        × (get
              (key_of owner tool_call_id)
              (resolve_workspace_route date_parse clock input store).0.tool_call_routes
            ≡ some call)
  resolve_workspace_route-recorded given normal {r} h =
      let (route, v, same_route, same_now) =
        resolve_workspace_route-IsRouteable date_parse clock input owner session conversation
          workspace_id now parsed store h in
      let runs = resolve_workspace_route-recording route r.device v in
      let stamped : WorkspaceRouteRecord = record route { last_routed_at = some now } in
      elim (Result-cases (recording stamped).1) [
        | inr (e, refused) ↦ absurd (ground (arith, runs, refused, h))
        | inl (found, recorded) ↦
            let (call, same, stored) =
              record_if_identified-recorded owner tool_call_id (key_of owner tool_call_id)
                (normal_key date_parse clock input owner session conversation workspace_id now
                  parsed store tool_call_id)
                normal given stamped input.tool now input.deadline_at _ recorded in
            (call, ground (arith, runs, recorded, same, h), rw runs stored)
      ]
