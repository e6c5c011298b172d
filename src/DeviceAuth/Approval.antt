-- ===== src/DeviceAuth/Approval.antt =====
-- What `approve` of src/cloud-device-code-auth.ts leaves in the store.
-- What an approval leaves: the record of the answer is stored, approved for the normal owner.
use xautojs_devspace.Audit.{AuditAction, AuditStatus, device_code_approve, succeeded}
use xautojs_devspace.DeviceAuth.{
  ApproveInput, AuthorizationRecord, AuthorizationStatus, Authorizations, Host, ServiceOptions,
  approved, get_by_user_code, normalize_user_code, owner_eq, routing, same_approved_target,
  write_record,
}
use xautojs_devspace.DeviceAuth.Service.{
  ServiceMethod, approve, audit_event, is_approved, is_given, or_else, other_target_error,
  service_now, write_approval,
}
use xautojs_devspace.DeviceAuth.Status.{IsStored, Sound, get_by_user_code-IsStored}
use xautojs_devspace.Prelude.{
  Bool, Bool-cases, Option, Option-cases, ap, arith, if◌then◌else◌, inl, inr, none, not, some,
  subst, sym, true, ◌&&◌, ◌∙◌, ◌≡◌,
}
use xautojs_devspace.Prelude.JsMap.{Entries, get, get-put_same}
use xautojs_devspace.Prelude.Result.{Result-cases, ok}
use xautojs_devspace.Prelude.State.{pure, throw_if, ◌>>◌}
use xautojs_devspace.Prelude.Text.{Text}
use xautojs_devspace.Prelude.Text.Laws.{text_eq_iff}
use xautojs_devspace.Routing.Contract.{WorkspaceIdentity, normalize_optional_id, normalize_owner}

pub record IsApproved (given : WorkspaceIdentity) (e : AuthorizationRecord) (t : Authorizations)
    : Type 0 where
  pub owner : WorkspaceIdentity
  pub parsed : normalize_owner given ≡ ok owner
  pub stored : get e.device_code t.by_device_code ≡ some e
  pub status : e.status ≡ approved
  pub owned : e.owner ≡ some owner

audit_event-kept :
    (clock uuid : Text) (owner : Option WorkspaceIdentity) (action : AuditAction)
    (status : AuditStatus) (error_code : Option Text) (now : Text) (s : Authorizations)
    → (audit_event clock uuid owner action status error_code now s).0.by_device_code
      ≡ s.by_device_code
unfolding audit_event
audit_event-kept clock uuid owner action status error_code now s = ground arith

is_approved-eq : (status : AuthorizationStatus) → is_approved status ≡ true → status ≡ approved
is_approved-eq status h = ground arith

same_approved_target-owner :
    (existing : AuthorizationRecord) (owner : WorkspaceIdentity)
    (device_id instance_id : Option Text)
    → same_approved_target existing owner device_id instance_id ≡ true
    → existing.owner ≡ some owner
unfolding same_approved_target owner_eq
same_approved_target-owner existing owner device_id instance_id h =
    elim (Option-cases existing.owner) [
      | inl missing ↦ absurd (ground arith)
      | inr (current, owned) ↦ ground (
        arith,
        text_eq_iff current.tenant_id owner.tenant_id,
        text_eq_iff current.user_id owner.user_id,
      )
    ]

write_approval-stored :
    (clock event_uuid : Text) (existing : AuthorizationRecord) (owner : WorkspaceIdentity)
    (device_id instance_id : Option Text) (now : Text) (s : Authorizations)
    {e : AuthorizationRecord}
    → (write_approval clock event_uuid existing owner device_id instance_id now s).1 ≡ ok e
    → (get e.device_code
          (write_approval clock event_uuid existing owner device_id instance_id now
            s).0.by_device_code
        ≡ some e)
      × (e.status ≡ approved)
      × (e.owner ≡ some owner)
unfolding write_approval write_record
write_approval-stored clock event_uuid existing owner device_id instance_id now s {e} h =
    let updated : AuthorizationRecord = record existing {
      status = approved;
      owner = some owner;
      device_id = device_id;
      desktop_instance_id = instance_id;
      approved_at = some now;
    } in
    ground (
      arith,
      audit_event-kept clock event_uuid (some owner) device_code_approve succeeded none now
          (unfold write_record in write_record updated s),
      get-put_same existing.device_code updated s.by_device_code,
    )

module _ (host : Host) (options : ServiceOptions) (clock event_uuid : Text) (input : ApproveInput)
    (s : Authorizations) where
  -- What `approve` does once everything has parsed and the record is found.
  settled_or_written :
      AuthorizationRecord
      → WorkspaceIdentity
      → Option Text
      → Option Text
      → Text
      → ServiceMethod AuthorizationRecord
  settled_or_written existing owner device_id instance_id now =
      let same : Bool = same_approved_target existing owner device_id instance_id in
      if is_approved existing.status && is_given existing.owner
      then throw_if (not same) other_target_error >> pure existing
      else write_approval clock event_uuid existing owner device_id instance_id now

  settled_or_written-IsApproved :
      (existing : AuthorizationRecord) (owner : WorkspaceIdentity)
      (device_id instance_id : Option Text) (now : Text) {e : AuthorizationRecord}
      → IsStored existing s
      → normalize_owner input.owner ≡ ok owner
      → (settled_or_written existing owner device_id instance_id now s).1 ≡ ok e
      → IsApproved input.owner e (settled_or_written existing owner device_id instance_id now s).0
  unfolding settled_or_written
  settled_or_written-IsApproved existing owner device_id instance_id now {e} old o h =
      elim (Bool-cases (is_approved existing.status && is_given existing.owner)) [
        | inl settled ↦
            elim (Bool-cases (same_approved_target existing owner device_id instance_id)) [
              | inr other ↦ absurd (ground arith)
              | inl same ↦
                  let owned =
                    same_approved_target-owner existing owner device_id instance_id same in
                  record {
                    owner = owner;
                    parsed = o;
                    stored = ground (arith, old.stored);
                    status = ground arith;
                    owned = ground (arith, owned);
                  }
            ]
        | inr pending_still ↦
            let (stored, status, owned) =
              write_approval-stored clock event_uuid existing owner device_id instance_id now s
                {e = e} (ground arith) in
            record {
              owner = owner;
              parsed = o;
              stored = ground (arith, stored);
              status = status;
              owned = owned;
            }
      ]

  approve-found :
      {e : AuthorizationRecord}
      → (approve host options clock event_uuid input s).1 ≡ ok e
      → (existing : AuthorizationRecord) × (code : Text) × (owner : WorkspaceIdentity)
        × (device_id : Option Text) × (instance_id : Option Text) × (now : Text) × (get_by_user_code
              host code s
            ≡ some existing)
        × (normalize_owner input.owner ≡ ok owner)
        × (approve host options clock event_uuid input s
            ≡ settled_or_written existing owner device_id instance_id now s)
  unfolding approve routing settled_or_written
  approve-found {e} h = elim (Result-cases (service_now clock input.now)) [
    | inr (x, refused) ↦ absurd (ground arith)
    | inl (now, n) ↦ elim (Result-cases (normalize_user_code host input.user_code)) [
      | inr (x, refused) ↦ absurd (ground arith)
      | inl (code, c) ↦ elim (Option-cases (get_by_user_code host code s)) [
        | inl missing ↦ absurd (ground arith)
        | inr (existing, found) ↦ elim (Result-cases (normalize_owner input.owner)) [
          | inr (x, refused) ↦ absurd (ground arith)
          | inl (owner, o) ↦
              elim (Result-cases (normalize_optional_id input.device_id "deviceId")) [
                | inr (x, refused) ↦ absurd (ground arith)
                | inl (device_id, d) ↦
                    elim (Result-cases
                      (normalize_optional_id input.desktop_instance_id "desktopInstanceId")) [
                        | inr (x, refused) ↦ absurd (ground arith)
                        | inl (instance_id, i) ↦ (
                          existing,
                          code,
                          owner,
                          or_else device_id existing.device_id,
                          or_else instance_id existing.desktop_instance_id,
                          now,
                          found,
                          o,
                          ground arith,
                        )
                      ]
              ]
        ]
      ]
    ]
  ]

  pub approve-IsApproved :
      {e : AuthorizationRecord}
      → Entries Sound s.by_device_code
      → (approve host options clock event_uuid input s).1 ≡ ok e
      → IsApproved input.owner e (approve host options clock event_uuid input s).0
  approve-IsApproved {e} sound h =
      let (existing, code, owner, device_id, instance_id, now, found, o, same) =
        approve-found {e = e} h in
      subst (IsApproved input.owner e) (ap (λ r. r.0) (sym same)) (
        settled_or_written-IsApproved existing owner device_id instance_id now {e = e}
          (get_by_user_code-IsStored host code s sound found) o (ap (λ r. r.1) (sym same) ∙ h))
