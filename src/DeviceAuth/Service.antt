-- ===== src/DeviceAuth/Service.antt =====
-- The methods of `CloudDeviceAuthorizationService` in src/cloud-device-code-auth.ts. `clock` is the
-- current instant, `uuid` and `event_uuid` are what `randomUUID` gives, and `seeds` what
-- `randomBytes(5).toString("hex")` gives in the rounds of `uniqueUserCode`.
use xautojs_devspace.Audit.{
  AuditAction, AuditEvent, AuditStatus, AuditStore, device_code_approve, device_code_poll,
  record_event, succeeded,
}
use xautojs_devspace.DeviceAuth.{
  ApproveInput, AuthorizationFailure, AuthorizationRecord, AuthorizationStatus, Authorizations,
  Host, ServiceOptions, TokenAnswer, access_denied, add_seconds, approved, authorization_error,
  authorization_pending, denied, expired_token, get_by_device_code, get_by_user_code,
  invalid_device_code, invalid_user_code, normalize_user_code, polled_too_soon, routing,
  routing_failure, same_approved_target, slow_down, write_record,
}
use xautojs_devspace.Prelude.{
  Bool, Option, false, get_or, if◌then◌else◌, none, not, some, true, ◌&&◌,
}
use xautojs_devspace.Prelude.Result.{Result, err, ok}
use xautojs_devspace.Prelude.State.{
  Method, gets, lift, modify, or_throw, pure, throw, throw_if, ◌>>=◌, ◌>>◌,
}
use xautojs_devspace.Prelude.Text.{Text, text}
use xautojs_devspace.Routing.Contract.{
  RoutingError, WorkspaceIdentity, is_expired, normalize_optional_id, normalize_owner,
  normalize_required_id, route_now,
}

abbrev pub ServiceMethod : Type 0 → Type 0
ServiceMethod A = Method Authorizations AuthorizationFailure A

abbrev pub denied_error : AuthorizationFailure
denied_error = authorization_error access_denied "Device authorization was denied." false

abbrev pub expired_error : AuthorizationFailure
expired_error = authorization_error expired_token "Device code is expired." false

abbrev pub unknown_user_code : AuthorizationFailure
unknown_user_code = authorization_error invalid_user_code "User code was not found." false

abbrev pub unknown_device_code : AuthorizationFailure
unknown_device_code = authorization_error invalid_device_code "Device code was not found." false

abbrev pub is_denied : AuthorizationStatus → Bool
is_denied denied = true
is_denied _ = false

abbrev pub is_approved : AuthorizationStatus → Bool
is_approved approved = true
is_approved _ = false

abbrev pub is_given {ℓ} : {A : Type ℓ} → Option A → Bool
is_given none = false
is_given (some _) = true

-- `a ?? b`
abbrev pub or_else {ℓ} : {A : Type ℓ} → Option A → Option A → Option A
or_else none b = b
or_else (some a) b = some a

-- The service's state after the audit store has recorded an event or thrown.
after_recording :
    Authorizations
    → AuditStore (Unit {0}) × Result RoutingError (AuditEvent (Unit {0}))
    → Authorizations × Result AuthorizationFailure (Unit {0})
after_recording s (log, ok event) = (record s { audit = some log }, ok tt)
after_recording s (log, err e) = (record s { audit = some log }, err (routing_failure e))

-- `await this.options.auditStore?.recordEvent(…)`
unfoldable pub audit_event :
    Text
    → Text
    → Option WorkspaceIdentity
    → AuditAction
    → AuditStatus
    → Option Text
    → Text
    → ServiceMethod (Unit {0})
unfolding after_recording
audit_event clock uuid owner action status error_code now s = elim s.audit [
  | none ↦ (s, ok tt)
  | some log ↦ after_recording s (
      record_event clock uuid
        (record {
          owner = owner;
          action = action;
          status = status;
          idempotency_key = none;
          request_fingerprint = none;
          result = none;
          error_code = error_code;
          now = some now;
        })
        log)
]

abbrev pub other_target_error : AuthorizationFailure
other_target_error =
    authorization_error access_denied
      "Device authorization is already approved for another owner or device." false

abbrev pub slow_down_error : AuthorizationFailure
slow_down_error = authorization_error slow_down "Polling interval has not elapsed yet." true

abbrev pub pending_error : AuthorizationFailure
pending_error =
    authorization_error authorization_pending "Device authorization is still pending." true

-- `cloudRouteNow(input.now ?? this.now())`
unfoldable pub service_now : Text → Option Text → Result AuthorizationFailure Text
unfolding routing
service_now clock now = routing (route_now clock (some (get_or now clock)))

-- `this.store.update({ ...existing, status: "approved", … })` and the audit event
unfoldable pub write_approval :
    Text
    → Text
    → AuthorizationRecord
    → WorkspaceIdentity
    → Option Text
    → Option Text
    → Text
    → ServiceMethod AuthorizationRecord
write_approval clock event_uuid existing owner device_id instance_id now = do
  let updated : AuthorizationRecord = record existing {
    status = approved;
    owner = some owner;
    device_id = device_id;
    desktop_instance_id = instance_id;
    approved_at = some now;
  }
  modify (write_record updated)
  audit_event clock event_uuid (some owner) device_code_approve succeeded none now
  pure updated

module _ (host : Host) (options : ServiceOptions) (clock : Text) where
  open host use {date_parse, to_upper_case, issue_token}

  unfoldable pub approve : Text → ApproveInput → ServiceMethod AuthorizationRecord
  approve event_uuid input = do
    now ← lift (service_now clock input.now)
    user_code ← lift (normalize_user_code host input.user_code)
    found ← gets (get_by_user_code host user_code)
    existing ← or_throw found unknown_user_code
    throw_if (is_expired date_parse (some existing.expires_at) now) expired_error
    throw_if (is_denied existing.status) denied_error
    owner ← lift (routing (normalize_owner input.owner))
    given_device ← lift (routing (normalize_optional_id input.device_id "deviceId"))
    given_instance ←
        lift (routing (normalize_optional_id input.desktop_instance_id "desktopInstanceId"))
    let device_id : Option Text = or_else given_device existing.device_id
    let instance_id : Option Text = or_else given_instance existing.desktop_instance_id
    let same : Bool = same_approved_target existing owner device_id instance_id
    if is_approved existing.status && is_given existing.owner
        then (do throw_if (not same) other_target_error; pure existing)
        else write_approval clock event_uuid existing owner device_id instance_id now

  unfoldable pub deny : Text → Text → Option Text → ServiceMethod AuthorizationRecord
  deny event_uuid user_code_input now_input = do
    now ← lift (service_now clock now_input)
    user_code ← lift (normalize_user_code host user_code_input)
    found ← gets (get_by_user_code host user_code)
    existing ← or_throw found unknown_user_code
    let updated : AuthorizationRecord = record existing { status = denied; denied_at = some now }
    modify (write_record updated)
    audit_event clock event_uuid updated.owner device_code_approve AuditStatus.failed
        (some (text "ACCESS_DENIED")) now
    pure updated

  -- `{ ...existing, lastPolledAt: now }`
  abbrev pub polled : AuthorizationRecord → Text → AuthorizationRecord
  polled existing now = record existing { last_polled_at = some now }

  -- `poll` for an approved record and its owner.
  issue : Text → AuthorizationRecord → WorkspaceIdentity → Text → ServiceMethod TokenAnswer
  issue event_uuid existing owner now = do
    expires_at ← lift (add_seconds host now options.token_ttl_seconds)
    let token : Text =
        issue_token owner.tenant_id owner.user_id existing.device_id existing.desktop_instance_id
          now expires_at options.token_secret
    modify (write_record (polled existing now))
    audit_event clock event_uuid (some owner) device_code_poll succeeded none now
    pure (record {
      access_token = token;
      expires_at = expires_at;
      owner = owner;
      device_id = existing.device_id;
      desktop_instance_id = existing.desktop_instance_id;
    })

  -- `if (existing.status !== "approved" || !existing.owner) …`
  poll_owner :
      Text → AuthorizationRecord → Option WorkspaceIdentity → Text → ServiceMethod TokenAnswer
  unfolding issue
  poll_owner event_uuid existing none now = do
    modify (write_record (polled existing now))
    throw pending_error
  poll_owner event_uuid existing (some owner) now =
      if not (is_approved existing.status)
      then (do modify (write_record (polled existing now)); throw pending_error)
      else issue event_uuid existing owner now

  unfoldable pub poll : Text → Text → Option Text → ServiceMethod TokenAnswer
  unfolding poll_owner
  poll event_uuid device_code_input now_input = do
    now ← lift (service_now clock now_input)
    device_code ← lift (routing (normalize_required_id (some device_code_input) "deviceCode"))
    found ← gets (get_by_device_code device_code)
    existing ← or_throw found unknown_device_code
    throw_if (is_expired date_parse (some existing.expires_at) now) expired_error
    throw_if (is_denied existing.status) denied_error
    if polled_too_soon host existing.last_polled_at now existing.interval_seconds
        then (do modify (write_record (polled existing now)); throw slow_down_error)
        else poll_owner event_uuid existing existing.owner now
