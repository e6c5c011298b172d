-- ===== src/DeviceAuth/Flow.antt =====
-- The device-code flow of src/cloud-device-code-auth.ts from `approve` to `poll`.
-- What was parsed parses again.
-- What was parsed parses again.
use xautojs_devspace.Audit.{
  AuditAction, AuditEvent, AuditStatus, AuditStore, device_code_poll, normalize_audit_event,
  normalize_optional_owner, record_event, succeeded,
}
use xautojs_devspace.DeviceAuth.{
  ApproveInput, AuthorizationRecord, Authorizations, Host, ServiceOptions, TokenAnswer, add_seconds,
  get_by_device_code, polled_too_soon, routing, write_record,
}
use xautojs_devspace.DeviceAuth.Approval.{IsApproved, approve-IsApproved}
use xautojs_devspace.DeviceAuth.Service.{approve, audit_event, poll, service_now}
use xautojs_devspace.DeviceAuth.Status.{Sound}
use xautojs_devspace.Prelude.{
  Option, Option-cases, [], arith, false, get_or, inl, inr, none, refl, some, ◌++◌, ◌∷◌, ◌≡◌,
}
use xautojs_devspace.Prelude.JsMap.{Entries, get, get-put_same}
use xautojs_devspace.Prelude.Result.{ok}
use xautojs_devspace.Prelude.Text.{Text}
use xautojs_devspace.Prelude.Text.Laws.{trim-trim}
use xautojs_devspace.Routing.Contract.{
  WorkspaceIdentity, is_expired, normalize_optional_id, normalize_owner, normalize_required_id,
  route_now,
}

normalize_owner_again :
    (given : WorkspaceIdentity) {owner : WorkspaceIdentity}
    → normalize_owner given ≡ ok owner
    → normalize_owner owner ≡ ok owner
unfolding normalize_owner normalize_required_id
normalize_owner_again given {owner} h =
    ground (arith, trim-trim given.tenant_id, trim-trim given.user_id)

route_now_again :
    (clock other given : Text) {now : Text}
    → route_now clock (some given) ≡ ok now
    → route_now other (some now) ≡ ok now
unfolding route_now normalize_optional_id
route_now_again clock other given {now} h = ground (arith, trim-trim given)

service_now_again :
    (clock other : Text) (given : Option Text) {now : Text}
    → service_now clock given ≡ ok now
    → route_now other (some now) ≡ ok now
unfolding service_now routing
service_now_again clock other given {now} h =
    route_now_again clock other (get_or given clock) {now = now} (ground arith)

module _ (clock uuid : Text) (owner : WorkspaceIdentity) (action : AuditAction)
    (status : AuditStatus) (now : Text) where
  record_event-ok :
      (log : AuditStore (Unit {0}))
      → normalize_owner owner ≡ ok owner
      → route_now clock (some now) ≡ ok now
      → (event : AuditEvent (Unit {0})) × (record_event clock uuid
            (record {
              owner = some owner;
              action = action;
              status = status;
              idempotency_key = none;
              request_fingerprint = none;
              result = none;
              error_code = none;
              now = some now;
            })
            log
          ≡ (record log { events = log.events ++ event ∷ [] }, ok event))
  unfolding record_event normalize_audit_event normalize_optional_id normalize_optional_owner
  record_event-ok log o n = rw (o, n) (_, refl)

  audit_event-ok :
      (s : Authorizations)
      → normalize_owner owner ≡ ok owner
      → route_now clock (some now) ≡ ok now
      → (audit : Option (AuditStore (Unit {0}))) × (audit_event clock uuid
            (some owner)
            action
            status
            none
            now
            s
          ≡ (record s { audit = audit }, ok tt))
  unfolding audit_event
  audit_event-ok s o n = elim (Option-cases s.audit) [
    | inl quiet ↦ (none, rw quiet refl)
    | inr (log, kept) ↦
        let (event, e) = record_event-ok log o n in
        (some (record log { events = log.events ++ event ∷ [] }), rw (kept, e) refl)
  ]

module _ (host : Host) (options : ServiceOptions) (clock event_uuid : Text) (t : Authorizations)
    (e : AuthorizationRecord) (now_input : Option Text) (now expires_at : Text)
    (n : service_now clock now_input ≡ ok now)
    (d : normalize_required_id (some e.device_code) "deviceCode" ≡ ok e.device_code)
    (current : is_expired host.date_parse (some e.expires_at) now ≡ false)
    (patient : polled_too_soon host e.last_polled_at now e.interval_seconds ≡ false)
    (later : add_seconds host now options.token_ttl_seconds ≡ ok expires_at) where
  abbrev pub issued_to : WorkspaceIdentity → TokenAnswer
  issued_to owner = record {
    access_token =
        host.issue_token owner.tenant_id owner.user_id e.device_id e.desktop_instance_id now
          expires_at options.token_secret;
    expires_at = expires_at;
    owner = owner;
    device_id = e.device_id;
    desktop_instance_id = e.desktop_instance_id;
  }

  poll_of_IsApproved :
      (given : WorkspaceIdentity) (a : IsApproved given e t)
      → ((poll host options clock event_uuid e.device_code now_input t).1 ≡ ok (issued_to a.owner))
        × (get e.device_code
              (poll host options clock event_uuid e.device_code now_input t).0.by_device_code
            ≡ some (record e { last_polled_at = some now }))
  unfolding poll get_by_device_code routing write_record
  poll_of_IsApproved given a =
      let polled : AuthorizationRecord = record e { last_polled_at = some now } in
      let (audit, recorded) =
        audit_event-ok clock event_uuid a.owner device_code_poll succeeded now
          (unfold write_record in write_record polled t) (normalize_owner_again given a.parsed)
          (service_now_again clock clock now_input {now = now} n) in
      (
        ground (arith, a.stored, a.status, a.owned, recorded),
        ground (
          arith,
          a.stored,
          a.status,
          a.owned,
          recorded,
          get-put_same e.device_code polled t.by_device_code,
        ),
      )

-- Where a user code is approved, whether an audit log is kept or not, and in the store each record
-- stands under its own device code and has an owner if it is approved, a poll of the record's
-- device code next, whose instant parses and is before the record's expiry and not too shortly
-- after its last poll, returns a token for the owner that was approved, normalised, with the
-- record's device and instance, and stamps the record, provided that the device code has no blanks
-- around it and the token's expiry can be written.
pub approve-poll :
    (host : Host) (options : ServiceOptions) (clock event_uuid later_clock later_uuid : Text)
    (input : ApproveInput) (s : Authorizations) (e : AuthorizationRecord) (now_input : Option Text)
    (now expires_at : Text)
    → Entries Sound s.by_device_code
    → (approve host options clock event_uuid input s).1 ≡ ok e
    → service_now later_clock now_input ≡ ok now
    → normalize_required_id (some e.device_code) "deviceCode" ≡ ok e.device_code
    → is_expired host.date_parse (some e.expires_at) now ≡ false
    → polled_too_soon host e.last_polled_at now e.interval_seconds ≡ false
    → add_seconds host now options.token_ttl_seconds ≡ ok expires_at
    → let after =
        poll host options later_clock later_uuid e.device_code now_input
          (approve host options clock event_uuid input s).0 in
      (owner : WorkspaceIdentity) × (normalize_owner input.owner ≡ ok owner)
      × (after.1
          ≡ ok (record {
            access_token =
                host.issue_token owner.tenant_id owner.user_id e.device_id e.desktop_instance_id now
                  expires_at options.token_secret;
            expires_at = expires_at;
            owner = owner;
            device_id = e.device_id;
            desktop_instance_id = e.desktop_instance_id;
          }))
      × (get e.device_code after.0.by_device_code ≡ some (record e { last_polled_at = some now }))
approve-poll host options clock event_uuid later_clock later_uuid input s e now_input now expires_at
      sound h n d current patient later =
    let a = approve-IsApproved host options clock event_uuid input s {e = e} sound h in
    let (answered, stamped) =
      poll_of_IsApproved host options later_clock later_uuid
        (approve host options clock event_uuid input s).0 e now_input now expires_at n d current
        patient later input.owner a in
    (a.owner, a.parsed, answered, stamped)
