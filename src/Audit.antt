-- ===== src/Audit.antt =====
-- src/cloud-control-plane-audit.ts: `InMemoryCloudControlPlaneAuditStore`, the event log of the
-- control plane and its idempotency records. `Answer` is the type of an event's result; the random
-- part of an event's id is the argument `uuid`.
pub mod Recorded
pub mod Laws
mod Tests
use xautojs_devspace.Prelude.Result
use xautojs_devspace.Prelude.{List, Option, [], none, not, some, ◌++◌, ◌∷◌}
use xautojs_devspace.Prelude.JsMap.{JsMap, get, put}
use xautojs_devspace.Prelude.Result.{Result, ok}
use xautojs_devspace.Prelude.State.{Method, gets, lift, modify, pure, throw_if, ◌>>=◌, ◌>>◌}
use xautojs_devspace.Prelude.Text.{Text, option_text_eq, text}
use xautojs_devspace.Routing.Contract.{
  RoutingError, WorkspaceIdentity, normalize_optional_id, normalize_owner, normalize_required_id,
  owner_key, route_now, routing_error, separator, tool_call_conflict,
}

pub data AuditAction : Type 0 where
  device_code_create device_code_approve device_code_poll : AuditAction
  connect_desktop connect_workspace route_tool_call : AuditAction

-- `succeeded` is the source's "completed".
pub data AuditStatus : Type 0 where
  started succeeded failed conflict : AuditStatus

pub record AuditEvent (Answer : Type 0) : Type 0 where
  pub event_id : Text
  pub owner : Option WorkspaceIdentity
  pub action : AuditAction
  pub status : AuditStatus
  pub idempotency_key : Option Text
  pub request_fingerprint : Option Text
  pub result : Option Answer
  pub error_code : Option Text
  pub created_at : Text

pub record RecordEventInput (Answer : Type 0) : Type 0 where
  pub owner : Option WorkspaceIdentity
  pub action : AuditAction
  pub status : AuditStatus
  pub idempotency_key : Option Text
  pub request_fingerprint : Option Text
  pub result : Option Answer
  pub error_code : Option Text
  pub now : Option Text

pub record AuditStore (Answer : Type 0) : Type 0 where
  pub events : List (AuditEvent Answer)
  pub idempotency : JsMap (AuditEvent Answer)

unfoldable pub action_name : AuditAction → Text
unfolding text
action_name device_code_create = text "device_code.create"
action_name device_code_approve = text "device_code.approve"
action_name device_code_poll = text "device_code.poll"
action_name connect_desktop = text "connect_desktop"
action_name connect_workspace = text "connect_workspace"
action_name route_tool_call = text "route_tool_call"

-- `owner ? normalizeCloudRouteOwner(owner) : undefined`
unfoldable pub normalize_optional_owner :
    Option WorkspaceIdentity → Result RoutingError (Option WorkspaceIdentity)
normalize_optional_owner none = ok none
normalize_optional_owner (some owner) =
    Result.◌>>=◌ (normalize_owner owner) λ normal. ok (some normal)

unfoldable pub idempotency_map_key :
    WorkspaceIdentity → AuditAction → Text → Result RoutingError Text
idempotency_map_key owner action idempotency_key = Result.◌>>=◌ (owner_key owner) λ key.
    Result.◌>>=◌ (normalize_required_id (some idempotency_key) "idempotencyKey")
      λ normal. ok ((key ++ (separator ∷ action_name action)) ++ (separator ∷ normal))

unfoldable pub fingerprint_conflict : AuditAction → Text → RoutingError
fingerprint_conflict action idempotency_key =
    routing_error tool_call_conflict "Idempotency key was already used with a different request."
      (("action", action_name action) ∷ ("idempotencyKey", idempotency_key) ∷ [])

module _ {Answer : Type 0} where
  unfoldable pub normalize_audit_event :
      Text → Text → RecordEventInput Answer → Result RoutingError (AuditEvent Answer)
  unfolding normalize_optional_owner text
  normalize_audit_event clock uuid input =
      Result.◌>>=◌ (normalize_optional_owner input.owner) λ owner.
        Result.◌>>=◌ (normalize_optional_id input.idempotency_key "idempotencyKey") λ key.
          Result.◌>>=◌ (normalize_optional_id input.request_fingerprint "requestFingerprint")
            λ print. Result.◌>>=◌ (normalize_optional_id input.error_code "errorCode") λ error_code.
              Result.◌>>=◌ (route_now clock input.now) λ now. ok (record {
                event_id = text "audit_" ++ uuid;
                owner = owner;
                action = input.action;
                status = input.status;
                idempotency_key = key;
                request_fingerprint = print;
                result = input.result;
                error_code = error_code;
                created_at = now;
              })

  unfoldable pub record_event :
      Text
      → Text
      → RecordEventInput Answer
      → Method (AuditStore Answer) RoutingError (AuditEvent Answer)
  record_event clock uuid input = do
    event ← lift (normalize_audit_event clock uuid input)
    modify λ s. record s { events = s.events ++ event ∷ [] }
    pure event

  -- The event of an earlier request under this key; `replay` is true in every answer.
  unfoldable pub find_idempotency :
      WorkspaceIdentity
      → AuditAction
      → Text
      → Method (AuditStore Answer) RoutingError (Option (AuditEvent Answer))
  find_idempotency owner action idempotency_key = do
    key ← lift (idempotency_map_key owner action idempotency_key)
    gets λ s. get key s.idempotency

  -- What follows the look-up of an earlier event.
  unfoldable pub record_new_or_replay :
      Text
      → Text
      → RecordEventInput Answer
      → WorkspaceIdentity
      → Text
      → Text
      → Text
      → Option (AuditEvent Answer)
      → Method (AuditStore Answer) RoutingError (AuditEvent Answer)
  record_new_or_replay clock uuid input owner idempotency_key fingerprint key (some existing) = do
    throw_if (not (option_text_eq existing.request_fingerprint (some fingerprint)))
        (fingerprint_conflict input.action idempotency_key)
    pure existing
  record_new_or_replay clock uuid input owner idempotency_key fingerprint key none = do
    event ← lift (
        normalize_audit_event clock uuid (record input {
          owner = some owner;
          idempotency_key = some idempotency_key;
          request_fingerprint = some fingerprint;
        }))
    modify
        λ s. record s { events = s.events ++ event ∷ []; idempotency = put key event s.idempotency }
    pure event

  -- The owner, the key and the fingerprint are required of `input`, and stand before it here.
  unfoldable pub record_idempotency :
      Text
      → Text
      → WorkspaceIdentity
      → Text
      → Text
      → RecordEventInput Answer
      → Method (AuditStore Answer) RoutingError (AuditEvent Answer)
  unfolding record_new_or_replay
  record_idempotency clock uuid owner_input key_input fingerprint input = do
    owner ← lift (normalize_owner owner_input)
    idempotency_key ← lift (normalize_required_id (some key_input) "idempotencyKey")
    key ← lift (idempotency_map_key owner input.action idempotency_key)
    existing ← gets λ s. get key s.idempotency
    record_new_or_replay clock uuid input owner idempotency_key fingerprint key existing
