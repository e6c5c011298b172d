-- ===== src/DeviceAuth/Methods.antt =====
-- Every method of the service in src/cloud-device-code-auth.ts moves records forward only.
use xautojs_devspace.Audit.{AuditAction, AuditStatus}
use xautojs_devspace.DeviceAuth.{
  ApproveInput, AuthorizationRecord, Authorizations, Host, ServiceOptions, approved, denied,
  get_by_device_code, get_by_user_code, write_record,
}
use xautojs_devspace.DeviceAuth.Service.{
  approve, audit_event, deny, is_approved, is_denied, is_given, poll, write_approval,
}
use xautojs_devspace.DeviceAuth.Status.{
  IsStored, Since, get_by_device_code-IsStored, get_by_user_code-IsStored, write_record-Since,
}
use xautojs_devspace.Prelude.{Option, arith, false, refl, some, ◌&&◌, ◌≡◌}
use xautojs_devspace.Prelude.Text.{Text}
use xautojs_devspace.Routing.Contract.{WorkspaceIdentity}

-- `Since`, with its fields hidden.
unfoldable pub HasProgressed : Text → AuthorizationRecord → Authorizations → Type 0
HasProgressed key r s = Since key r s

module _ (key : Text) (r : AuthorizationRecord) (s : Authorizations) where
  audited :
      (clock uuid : Text) (owner : Option WorkspaceIdentity) (action : AuditAction)
      (status : AuditStatus) (error_code : Option Text) (now : Text)
      → HasProgressed key r s
      → HasProgressed key r (audit_event clock uuid owner action status error_code now s).0
  unfolding HasProgressed audit_event
  audited clock uuid owner action status error_code now h = ground arith

  found_by_user_code :
      (host : Host) (code : Text) {e : AuthorizationRecord}
      → HasProgressed key r s
      → get_by_user_code host code s ≡ some e
      → IsStored e s
  unfolding HasProgressed
  found_by_user_code host code h found = get_by_user_code-IsStored host code s h.sound found

  found_by_device_code :
      (code : Text) {e : AuthorizationRecord}
      → HasProgressed key r s
      → get_by_device_code code s ≡ some e
      → IsStored e s
  unfolding HasProgressed
  found_by_device_code code h found = get_by_device_code-IsStored code s h.sound found

  module _ (e : AuthorizationRecord) (h : HasProgressed key r s) (stored : IsStored e s) where
    denied_written :
        (now : Text)
        → HasProgressed key r (write_record (record e { status = denied; denied_at = some now }) s)
    unfolding HasProgressed
    denied_written now =
        write_record-Since key r s e (record e { status = denied; denied_at = some now }) h stored
          (ground arith) (ground arith)

    polled_written :
        (now : Text) → HasProgressed key r (write_record (record e { last_polled_at = some now }) s)
    unfolding HasProgressed
    polled_written now =
        write_record-Since key r s e (record e { last_polled_at = some now }) h stored
          (ground arith) stored.owned

    approved_written :
        (owner : WorkspaceIdentity) (device instance : Option Text) (now : Text)
        → is_denied e.status ≡ false
        → is_approved e.status && is_given e.owner ≡ false
        → HasProgressed key r (
            write_record
              (record e {
                status = approved;
                owner = some owner;
                device_id = device;
                desktop_instance_id = instance;
                approved_at = some now;
              })
              s)
    unfolding HasProgressed
    approved_written owner device instance now open_still unsettled =
        write_record-Since key r s e _ h stored (ground (arith, stored.owned)) refl

module _ (host : Host) (options : ServiceOptions) (clock event_uuid : Text) (key : Text)
    (r : AuthorizationRecord) (s : Authorizations) (h : HasProgressed key r s) where
  pub deny-HasProgressed :
      (user_code : Text) (now : Option Text)
      → HasProgressed key r (deny host options clock event_uuid user_code now s).0
  unfolding deny
  deny-HasProgressed user_code now = grind (arith, audited, found_by_user_code, denied_written)

  pub poll-HasProgressed :
      (device_code : Text) (now : Option Text)
      → HasProgressed key r (poll host options clock event_uuid device_code now s).0
  unfolding poll
  poll-HasProgressed device_code now = grind (arith, audited, found_by_device_code, polled_written)

  pub approve-HasProgressed :
      (input : ApproveInput) → HasProgressed key r (approve host options clock event_uuid input s).0
  unfolding approve write_approval
  approve-HasProgressed input = grind (arith, audited, found_by_user_code, approved_written)
