-- ===== src/Token/Tests.antt =====
-- A token that is issued, shown and read, and the theorems there.
use xautojs_devspace.DeviceAuth.{
  AuthorizationRecord, Authorizations, Host, ServiceOptions, TokenAnswer, add_seconds, approved,
  get_by_device_code, polled_too_soon, routing, write_record,
}
use xautojs_devspace.DeviceAuth.Service.{audit_event, poll, service_now}
use xautojs_devspace.Prelude.{[], arith, false, if◌then◌else◌, none, refl, some, ◌∷◌, ◌≡◌}
use xautojs_devspace.Prelude.Int.{pos}
use xautojs_devspace.Prelude.JsMap.{get, put}
use xautojs_devspace.Prelude.Json.{find_field, get_field, optional_field}
use xautojs_devspace.Prelude.Result.{ok}
use xautojs_devspace.Prelude.Text.{Text, text, text_eq, text_le, trim}
use xautojs_devspace.Routing.Contract.{
  is_expired, normalize_optional_id, normalize_required_id, route_now,
}
use xautojs_devspace.Token.{
  TokenHost, TokenPayload, authenticate, context_of_payload, extract_bearer_token, is_token_expired,
  issue_device_token, normalize_payload, optional_token_field, parse_payload, payload_json,
  payload_of_json, required_token_field, sign_token_body, split_dots, token_body, token_text,
  verify_body, verify_device_token, verify_parts,
}
use xautojs_devspace.Token.Laws.{IsFaithful, IsSigned, context_of, verify-IsSigned, verify-issue}
use xautojs_devspace.Token.Poll.{issuing_host, poll-verify, token_payload}

tokens : Unit {0}
unfolding issue_device_token normalize_payload required_token_field optional_token_field token_text
    token_body sign_token_body verify_device_token verify_parts split_dots verify_body parse_payload
    payload_of_json payload_json get_field find_field optional_field is_token_expired
    context_of_payload poll service_now routing normalize_required_id route_now get_by_device_code
    add_seconds polled_too_soon write_record audit_event is_expired normalize_optional_id trim text
    get put text_eq text_le extract_bearer_token authenticate
tokens = tt

abbrev clock : Text
clock = text "2026-01-01T00:00:00.000Z"

abbrev tomorrow : Text
tomorrow = text "2026-01-02T00:00:00.000Z"

abbrev secret : Text
secret = text "secret"

abbrev shown : TokenPayload
shown = record {
  tenant_id = text "acme";
  user_id = text "ann";
  device_id = some (text "laptop");
  desktop_instance_id = none;
  issued_at = some clock;
  expires_at = some tomorrow;
}

-- One signature and one body, which are those of the payload above.
abbrev token_host : TokenHost
token_host = record {
  hmac = λ s body. text "sig";
  base64url_encode = λ s. text "e30";
  base64url_decode = λ s. text "{}";
  json_stringify = λ j. text "{}";
  json_parse = λ s. some (payload_json shown);
  date_parse = λ iso. some (pos (if text_eq iso clock then 0 else 86400000));
}

abbrev given : TokenPayload
given = record shown { tenant_id = text " acme " }

given_normal : normalize_payload given ≡ ok shown
unfolding tokens
given_normal = refl

abbrev token : Text
token = text "v1.e30.sig"

given_issued : issue_device_token token_host given secret ≡ ok token
unfolding tokens
given_issued = refl

shown-IsFaithful : IsFaithful token_host secret shown
unfolding tokens
shown-IsFaithful = record {
  body_plain = ground arith;
  body_given = refl;
  signature_plain = ground arith;
  signature_given = refl;
  decoded = refl;
  parsed = refl;
}

shown_fresh : is_token_expired token_host shown.expires_at clock ≡ false
unfolding tokens
shown_fresh = refl

verify-issue_example : verify_device_token token_host token secret clock ≡ ok (context_of shown)
verify-issue_example =
    verify-issue token_host secret clock given {p = shown} given_normal token given_issued
      shown-IsFaithful shown_fresh

token_verified : verify_device_token token_host token secret clock ≡ ok (context_of shown)
unfolding tokens
token_verified = refl

verify-IsSigned_example : IsSigned token_host token secret clock (context_of shown)
verify-IsSigned_example =
    verify-IsSigned token_host secret clock token {context = context_of shown} token_verified

-- The header is read whatever its case, and its token is the rest.
bearer_read :
    extract_bearer_token token_host (some (text " bEARER  v1.e30.sig ")) none false ≡ some token
unfolding tokens
bearer_read = refl

abbrev host : Host
host = record {
  date_parse = token_host.date_parse;
  to_iso_string = λ time. some tomorrow;
  to_upper_case = λ s. s;
  issue_token = λ tenant user device instance_id issued expires secret. [];
}

abbrev options : ServiceOptions
options = record {
  token_secret = secret;
  verification_uri = text "https://devspace.example/device";
  authorization_ttl_seconds = 900;
  token_ttl_seconds = 86400;
  poll_interval_seconds = 5;
}

abbrev granted : AuthorizationRecord
granted = record {
  device_code = text "dev_1";
  user_code = text "ABCD-1234";
  status = approved;
  client_name = none;
  device_id = some (text "laptop");
  desktop_instance_id = none;
  owner = some (record { tenant_id = text "acme"; user_id = text "ann" });
  created_at = clock;
  expires_at = tomorrow;
  interval_seconds = 5;
  approved_at = some clock;
  denied_at = none;
  last_polled_at = none;
}

abbrev authorizations : Authorizations
authorizations = record {
  by_device_code = (text "dev_1", granted) ∷ [];
  by_user_code = (text "ABCD-1234", text "dev_1") ∷ [];
  audit = none;
}

abbrev answer : TokenAnswer
answer = record {
  access_token = token;
  expires_at = tomorrow;
  owner = record { tenant_id = text "acme"; user_id = text "ann" };
  device_id = some (text "laptop");
  desktop_instance_id = none;
}

now_parsed : service_now clock none ≡ ok clock
unfolding tokens
now_parsed = refl

code_parsed : normalize_required_id (some (text "dev_1")) "deviceCode" ≡ ok (text "dev_1")
unfolding tokens
code_parsed = refl

polled_token :
    (poll
      (issuing_host token_host host)
      options
      clock
      (text "e1")
      (text "dev_1")
      none
      authorizations).1
    ≡ ok answer
unfolding tokens
polled_token = refl

answer_normal :
    normalize_payload (
      token_payload answer.owner.tenant_id answer.owner.user_id answer.device_id
        answer.desktop_instance_id clock answer.expires_at)
    ≡ ok shown
unfolding tokens
answer_normal = refl

poll-verify_example :
    verify_device_token token_host answer.access_token options.token_secret clock
    ≡ ok (context_of shown)
poll-verify_example =
    poll-verify token_host host options clock (text "e1") authorizations (text "dev_1") none clock
      (text "dev_1") now_parsed code_parsed clock {answer = answer} {p = shown} polled_token
      answer_normal shown-IsFaithful shown_fresh
