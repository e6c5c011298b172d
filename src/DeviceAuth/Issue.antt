-- ===== src/DeviceAuth/Issue.antt =====
-- When `poll` of src/cloud-device-code-auth.ts gives a token, and for whom.
use xautojs_devspace.DeviceAuth.{
  AuthorizationRecord, Authorizations, Host, ServiceOptions, TokenAnswer, approved,
  get_by_device_code, polled_too_soon, routing,
}
use xautojs_devspace.DeviceAuth.Service.{poll, service_now}
use xautojs_devspace.Prelude.{Option, Option-cases, arith, false, inl, inr, some, ◌≡◌}
use xautojs_devspace.Prelude.JsMap.{get}
use xautojs_devspace.Prelude.Result.{ok}
use xautojs_devspace.Prelude.Text.{Text}
use xautojs_devspace.Routing.Contract.{is_expired, normalize_required_id}

-- `IsIssued`: the record of the code is approved for the owner of the answer, and so on.
pub record IsIssued (host : Host) (s : Authorizations) (device_code now : Text)
    (answer : TokenAnswer) (e : AuthorizationRecord) : Type 0 where
  pub found : get device_code s.by_device_code ≡ some e
  pub status : e.status ≡ approved
  pub owner : e.owner ≡ some answer.owner
  pub device : answer.device_id ≡ e.device_id
  pub instance_id : answer.desktop_instance_id ≡ e.desktop_instance_id
  pub current : is_expired host.date_parse (some e.expires_at) now ≡ false
  pub patient : polled_too_soon host e.last_polled_at now e.interval_seconds ≡ false

module _ (host : Host) (options : ServiceOptions) (clock event_uuid : Text) (s : Authorizations)
    (device_code_input : Text) (now_input : Option Text) (now device_code : Text)
    (n : service_now clock now_input ≡ ok now)
    (d : normalize_required_id (some device_code_input) "deviceCode" ≡ ok device_code) where
  -- A poll whose instant and device code parse and that returns a token found under the code a
  -- record that is approved for the owner of the answer, not expired and not polled too shortly
  -- before; the answer has its device and instance, and the token is signed for its tenant, user,
  -- device and instance, from the instant of the poll to the expiry in the answer.
  pub poll-IsIssued :
      {answer : TokenAnswer}
      → (poll host options clock event_uuid device_code_input now_input s).1 ≡ ok answer
      → (e : AuthorizationRecord) × IsIssued host s device_code now answer e
        × (answer.access_token
            ≡ host.issue_token answer.owner.tenant_id answer.owner.user_id e.device_id
                e.desktop_instance_id now answer.expires_at options.token_secret)
  unfolding poll get_by_device_code routing
  poll-IsIssued {answer} h = elim (Option-cases (get device_code s.by_device_code)) [
    | inl missing ↦ absurd (ground arith)
    | inr (e, found) ↦ (e, ground arith, ground arith)
  ]
