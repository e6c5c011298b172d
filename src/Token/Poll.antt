-- ===== src/Token/Poll.antt =====
-- The token that a poll of src/cloud-device-code-auth.ts gives, checked by src/cloud-gateway-auth.ts.
-- `issueCloudGatewayDeviceToken` as the service calls it. A token that cannot be issued is empty here;
-- the theorem is about payloads that can.
use xautojs_devspace.DeviceAuth.{Authorizations, Host, ServiceOptions, TokenAnswer}
use xautojs_devspace.DeviceAuth.Issue.{poll-IsIssued}
use xautojs_devspace.DeviceAuth.Service.{poll, polled, service_now}
use xautojs_devspace.Prelude.{Option, [], arith, false, some, ◌≡◌}
use xautojs_devspace.Prelude.Result.{Result, err, ok}
use xautojs_devspace.Prelude.Text.{Text}
use xautojs_devspace.Routing.Contract.{normalize_required_id}
use xautojs_devspace.Token.{
  AuthError, TokenHost, TokenPayload, is_token_expired, issue_device_token, normalize_payload,
  verify_device_token,
}
use xautojs_devspace.Token.Laws.{IsFaithful, context_of, verify-issue}

abbrev pub token_payload : Text → Text → Option Text → Option Text → Text → Text → TokenPayload
token_payload tenant user device instance_id issued expires = record {
  tenant_id = tenant;
  user_id = user;
  device_id = device;
  desktop_instance_id = instance_id;
  issued_at = some issued;
  expires_at = some expires;
}

abbrev issued_or_empty : Result AuthError Text → Text
issued_or_empty (ok token) = token
issued_or_empty (err _) = []

abbrev pub issuing_host : TokenHost → Host → Host
issuing_host tokens host = record host {
  issue_token = λ tenant user device instance_id issued expires secret. issued_or_empty (
      issue_device_token tokens (token_payload tenant user device instance_id issued expires)
        secret);
}

module _ (tokens : TokenHost) (host : Host) (options : ServiceOptions) (clock event_uuid : Text)
    (s : Authorizations) (device_code_input : Text) (now_input : Option Text)
    (now device_code : Text) (n : service_now clock now_input ≡ ok now)
    (d : normalize_required_id (some device_code_input) "deviceCode" ≡ ok device_code) where
  -- The token of a poll, whose instant and device code parse, verifies under the service's secret
  -- until it expires, to the owner, device, instance and expiry of the poll's answer, trimmed, where
  -- its payload can be issued and the encodings give it back.
  pub poll-verify :
      (later : Text) {answer : TokenAnswer} {p : TokenPayload}
      → (poll (issuing_host tokens host) options clock event_uuid device_code_input now_input s).1
        ≡ ok answer
      → normalize_payload (
          token_payload answer.owner.tenant_id answer.owner.user_id answer.device_id
            answer.desktop_instance_id now answer.expires_at)
        ≡ ok p
      → IsFaithful tokens options.token_secret p
      → is_token_expired tokens p.expires_at later ≡ false
      → verify_device_token tokens answer.access_token options.token_secret later
        ≡ ok (context_of p)
  unfolding issue_device_token
  poll-verify later {answer} {p} polled normal faithful fresh =
      let (e, issued, token) =
        poll-IsIssued (issuing_host tokens host) options clock event_uuid s device_code_input
          now_input now device_code n d {answer = answer} polled in
      let payload : TokenPayload =
        token_payload answer.owner.tenant_id answer.owner.user_id answer.device_id
          answer.desktop_instance_id now answer.expires_at in
      verify-issue tokens options.token_secret later payload {p = p} normal answer.access_token
        (ground (arith, token, issued.device, issued.instance_id, normal)) faithful fresh
