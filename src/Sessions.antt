-- ===== src/Sessions.antt =====
-- src/cloud-session-binding.ts: `InMemoryCloudSessionBindingService`, which pairs an MCP session
-- with a desktop device. What the awaited `routingStore.getDevice` answers is the argument
-- `lookup`. `resolveDevice` reads its map before that `await` and writes it after: the two halves
-- are `resolve_begin` and `resolve_finish`, and other calls may run between them.
pub mod Laws
pub mod Client
mod Tests
use xautojs_devspace.Prelude.Result
use xautojs_devspace.Prelude.{
  Bool, Option, [], false, get_or, if◌then◌else◌, none, not, some, true, ◌&&◌, ◌++◌, ◌∷◌,
}
use xautojs_devspace.Prelude.Int.{ℤ}
use xautojs_devspace.Prelude.JsMap.{JsMap, delete, get, put}
use xautojs_devspace.Prelude.Result.{Result, ok}
use xautojs_devspace.Prelude.State.{Method, gets, lift, modify, pure, throw, throw_if, ◌>>=◌, ◌>>◌}
use xautojs_devspace.Prelude.Text.{Text, option_text_eq, option_truthy, text_eq, truthy}
use xautojs_devspace.Routing.Contract.{
  BindSessionInput, DeviceRecord, ResolveSessionInput, RoutingError, SessionBindingRecord,
  WorkspaceIdentity, device_forbidden, is_expired, normalize_optional_id, normalize_owner,
  normalize_required_id, owner_key, pairing_required, route_now, routing_error, separator,
  session_expired, workspace_forbidden,
}
use xautojs_devspace.Routing.Store.{assert_device_routeable}

pub record Bindings : Type 0 where
  pub bindings : JsMap SessionBindingRecord

abbrev pub BindingMethod : Type 0 → Type 0
BindingMethod A = Method Bindings RoutingError A

-- What `routingStore.getDevice(owner, deviceId)` answers at the time of the call.
abbrev pub DeviceLookup : Type 0
DeviceLookup = WorkspaceIdentity → Text → Result RoutingError (Option DeviceRecord)

unfoldable pub binding_key : WorkspaceIdentity → Text → Result RoutingError Text
unfolding owner_key
binding_key owner mcp_session_id =
    Result.◌>>=◌ (owner_key owner) λ key. ok (key ++ (separator ∷ mcp_session_id))

unfoldable pub same_binding : SessionBindingRecord → Option Text → Text → Bool
same_binding existing conversation device_id =
    option_text_eq existing.conversation_session_id conversation
    && text_eq existing.device_id device_id

-- `existing && !sameBinding(existing, …)`
abbrev paired_elsewhere : Option SessionBindingRecord → Option Text → Text → Bool
paired_elsewhere none conversation device_id = false
paired_elsewhere (some existing) conversation device_id =
    not (same_binding existing conversation device_id)

-- `existing?.boundAt ?? now`
abbrev first_bound : Option SessionBindingRecord → Text → Text
first_bound none now = now
first_bound (some existing) now = existing.bound_at

-- A call of `resolveDevice` that waits: for the device of an existing binding, or in `bindDevice`.
pub data Pending : Type 0 where
  checking : WorkspaceIdentity → Text → SessionBindingRecord → Text → Pending
  binding : BindSessionInput → Pending

module _ (date_parse : Text → Option ℤ) (clock : Text) (lookup : DeviceLookup) where
  unfoldable pub bind_device : BindSessionInput → BindingMethod SessionBindingRecord
  bind_device input = do
    owner ← lift (normalize_owner input.owner)
    session ← lift (normalize_required_id (some input.mcp_session_id) "mcpSessionId")
    conversation ←
        lift (normalize_optional_id input.conversation_session_id "conversationSessionId")
    device_id ← lift (normalize_required_id (some input.device_id) "deviceId")
    now ← lift (route_now clock input.now)
    expires_at ← lift (normalize_optional_id input.expires_at "expiresAt")
    device ← lift (lookup owner device_id)
    lift (assert_device_routeable date_parse device device_id now)
    key ← lift (binding_key owner session)
    existing ← gets λ s. get key s.bindings
    throw_if (paired_elsewhere existing conversation device_id) (
        routing_error workspace_forbidden
          "MCP session is already paired with another conversation or device."
          (("mcpSessionId", session) ∷ []))
    let bound : SessionBindingRecord = record {
      owner = owner;
      mcp_session_id = session;
      conversation_session_id = conversation;
      device_id = device_id;
      bound_at = first_bound existing now;
      last_seen_at = now;
      expires_at = expires_at;
    }
    modify λ s. record s { bindings = put key bound s.bindings }
    pure bound

abbrev pub pairing_required_error : Text → RoutingError
pairing_required_error session =
    routing_error pairing_required "MCP session is not paired with a Desktop device."
      (("mcpSessionId", session) ∷ [])

-- `if (isCloudRouteExpired(existing.expiresAt, now)) { this.bindings.delete(key); throw … }`
drop_if : Bool → Text → Text → BindingMethod (Unit {0})
drop_if true key session = do
  modify λ s. record s { bindings = delete key s.bindings }
  throw (
      routing_error session_expired "MCP session device pairing is expired."
        (("mcpSessionId", session) ∷ []))
drop_if false key session = pure tt

-- `requestedDeviceId && existing.deviceId !== requestedDeviceId`
abbrev asks_other_device : Option Text → SessionBindingRecord → Bool
asks_other_device none existing = false
asks_other_device (some requested) existing =
    truthy requested && not (text_eq existing.device_id requested)

module _ (date_parse : Text → Option ℤ) where
  -- The checks of a session that is paired, up to the `await`.
  check_existing :
      SessionBindingRecord
      → WorkspaceIdentity
      → Text
      → Text
      → Option Text
      → Option Text
      → Text
      → BindingMethod Pending
  unfolding drop_if
  check_existing existing owner key session conversation requested now = do
    throw_if
        (option_truthy existing.conversation_session_id
          && not (option_text_eq existing.conversation_session_id conversation))
        (routing_error workspace_forbidden "MCP session is paired with another conversation."
          (("mcpSessionId", session) ∷ []))
    throw_if (asks_other_device requested existing) (
        routing_error device_forbidden "MCP session is paired with another device."
          (("deviceId", get_or requested []) ∷ []))
    drop_if (is_expired date_parse existing.expires_at now) key session
    pure (checking owner key existing now)

  -- `if (!requestedDeviceId) throw …; return this.bindDevice(…)`
  pair_requested :
      WorkspaceIdentity → Text → Option Text → Option Text → Text → BindingMethod Pending
  pair_requested owner session conversation none now = throw (pairing_required_error session)
  pair_requested owner session conversation (some requested) now =
      if truthy requested
      then pure (
          binding (record {
            owner = owner;
            mcp_session_id = session;
            conversation_session_id = conversation;
            device_id = requested;
            now = some now;
            expires_at = none;
          }))
      else throw (pairing_required_error session)

  begin_with :
      Option SessionBindingRecord
      → WorkspaceIdentity
      → Text
      → Text
      → Option Text
      → Option Text
      → Text
      → BindingMethod Pending
  unfolding check_existing pair_requested
  begin_with none owner key session conversation requested now =
      pair_requested owner session conversation requested now
  begin_with (some existing) owner key session conversation requested now =
      check_existing existing owner key session conversation requested now

  unfoldable pub resolve_begin : Text → ResolveSessionInput → BindingMethod Pending
  unfolding begin_with
  resolve_begin clock input = do
    owner ← lift (normalize_owner input.owner)
    session ← lift (normalize_required_id (some input.mcp_session_id) "mcpSessionId")
    conversation ←
        lift (normalize_optional_id input.conversation_session_id "conversationSessionId")
    requested ← lift (normalize_optional_id input.device_id "deviceId")
    now ← lift (route_now clock input.now)
    key ← lift (binding_key owner session)
    existing ← gets λ s. get key s.bindings
    begin_with existing owner key session conversation requested now

  unfoldable pub resolve_finish : Text → DeviceLookup → Pending → BindingMethod SessionBindingRecord
  unfolding bind_device
  resolve_finish clock lookup (binding input) = bind_device date_parse clock lookup input
  resolve_finish clock lookup (checking owner key existing now) = do
    device ← lift (lookup owner existing.device_id)
    lift (assert_device_routeable date_parse device existing.device_id now)
    let updated : SessionBindingRecord = record existing { last_seen_at = now }
    modify λ s. record s { bindings = put key updated s.bindings }
    pure updated

  -- `resolveDevice` where no other call runs while it waits.
  unfoldable pub resolve_device :
      Text → DeviceLookup → ResolveSessionInput → BindingMethod SessionBindingRecord
  resolve_device clock lookup input = do
    pending ← resolve_begin clock input
    resolve_finish clock lookup pending
