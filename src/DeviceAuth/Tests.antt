-- ===== src/DeviceAuth/Tests.antt =====
-- An authorization that is approved, polled and denied, and the theorems there.
use xautojs_devspace.Audit.{normalize_audit_event, normalize_optional_owner, record_event}
use xautojs_devspace.DeviceAuth.{
  ApproveInput, AuthorizationFailure, AuthorizationRecord, Authorizations, Host, ServiceOptions,
  TokenAnswer, add_seconds, approved, get_by_device_code, get_by_user_code, normalize_user_code,
  owner_eq, pending, polled_too_soon, routing, same_approved_target, write_record,
}
use xautojs_devspace.DeviceAuth.Create.{
  exhausted_error, format_user_code, unique_user_code, unique_user_code_in,
}
use xautojs_devspace.DeviceAuth.Flow.{approve-poll}
use xautojs_devspace.DeviceAuth.History.{
  AuthorizationCall, approving, denying, perform, polling, run, run-Progressed,
}
use xautojs_devspace.DeviceAuth.Issue.{IsIssued, poll-IsIssued}
use xautojs_devspace.DeviceAuth.Service.{
  approve, audit_event, deny, poll, service_now, write_approval,
}
use xautojs_devspace.DeviceAuth.Status.{Progressed, Sound}
use xautojs_devspace.DeviceAuth.Unique.{IsFresh, IsTaken, unique_user_code_lem}
use xautojs_devspace.Prelude.{
  All, In, List, [], false, if◌then◌else◌, none, refl, some, ◌++◌, ◌∷◌, ◌≡◌, ◌⊎◌,
}
use xautojs_devspace.Prelude.Int.{pos}
use xautojs_devspace.Prelude.JsMap.{Entries, get, put}
use xautojs_devspace.Prelude.Result.{Result, err, ok}
use xautojs_devspace.Prelude.Text.{Text, option_text_eq, text, text_eq, text_le, trim}
use xautojs_devspace.Routing.Contract.{
  WorkspaceIdentity, is_expired, normalize_optional_id, normalize_owner, normalize_required_id,
  route_now,
}

authorizing : Unit {0}
unfolding approve deny poll perform run service_now routing normalize_user_code
    normalize_required_id normalize_optional_id normalize_owner route_now get_by_user_code
    get_by_device_code add_seconds polled_too_soon same_approved_target owner_eq write_record
    audit_event write_approval is_expired trim text get put text_eq option_text_eq text_le
authorizing = tt

abbrev clock : Text
clock = text "2026-01-01T00:00:00.000Z"

-- No instant parses, so none is expired and no lifetime can be written.
abbrev host : Host
host = record {
  date_parse = λ _. none;
  to_iso_string = λ _. none;
  to_upper_case = λ s. s;
  issue_token = λ tenant user device instance_id now expiry secret. tenant ++ user;
}

-- `clock` is the instant 0, and every other one is 900 seconds later.
abbrev dated_host : Host
dated_host = record host {
  date_parse = λ iso. some (pos (if text_eq iso clock then 0 else 900000));
  to_iso_string = λ _. some (text "2026-01-02T00:00:00.000Z");
}

abbrev options : ServiceOptions
options = record {
  token_secret = text "secret";
  verification_uri = text "https://devspace.example/device";
  authorization_ttl_seconds = 900;
  token_ttl_seconds = 3600;
  poll_interval_seconds = 5;
}

abbrev ann : WorkspaceIdentity
ann = record { tenant_id = text "acme"; user_id = text "ann" }

abbrev asked : AuthorizationRecord
asked = record {
  device_code = text "dev_1";
  user_code = text "ABCD-1234";
  status = pending;
  client_name = none;
  device_id = some (text "laptop");
  desktop_instance_id = none;
  owner = none;
  created_at = clock;
  expires_at = text "2026-01-01T00:15:00.000Z";
  interval_seconds = 5;
  approved_at = none;
  denied_at = none;
  last_polled_at = none;
}

abbrev granted : AuthorizationRecord
granted = record asked { status = approved; owner = some ann; approved_at = some clock }

abbrev with_record : AuthorizationRecord → Authorizations
with_record r = record {
  by_device_code = (text "dev_1", r) ∷ [];
  by_user_code = (text "ABCD-1234", text "dev_1") ∷ [];
  audit = none;
}

abbrev calls : List (Text × Text × AuthorizationCall)
calls =
    (clock, text "e1", polling (text "dev_1") none)
    ∷ (
      clock,
      text "e2",
      approving (record {
        user_code = text "ABCD-1234";
        owner = ann;
        device_id = none;
        desktop_instance_id = none;
        now = none;
      }),
    )
    ∷ (clock, text "e3", denying (text "ABCD-1234") none)
    ∷ []

asked-Sound : Entries Sound (with_record asked).by_device_code
asked-Sound = ((refl, refl), tt)

asked_found : get (text "dev_1") (with_record asked).by_device_code ≡ some asked
unfolding authorizing
asked_found = refl

run-Progressed_example :
    Progressed asked
      (get (text "dev_1") (run host options calls (with_record asked)).by_device_code)
run-Progressed_example =
    run-Progressed host options (text "dev_1") asked calls (with_record asked) asked-Sound
      asked_found

now_parsed : service_now clock none ≡ ok clock
unfolding authorizing
now_parsed = refl

code_parsed : normalize_required_id (some (text "dev_1")) "deviceCode" ≡ ok (text "dev_1")
unfolding authorizing
code_parsed = refl

granted_found : get (text "dev_1") (with_record granted).by_device_code ≡ some granted
unfolding authorizing
granted_found = refl

abbrev answer : TokenAnswer
answer = record {
  access_token = text "acme" ++ text "ann";
  expires_at = text "2026-01-02T00:00:00.000Z";
  owner = ann;
  device_id = some (text "laptop");
  desktop_instance_id = none;
}

issued :
    (poll dated_host options clock (text "e1") (text "dev_1") none (with_record granted)).1
    ≡ ok answer
unfolding authorizing
issued = refl

poll-IsIssued_example :
    (e : AuthorizationRecord) × IsIssued dated_host
      (with_record granted)
      (text "dev_1")
      clock
      answer
      e
    × (answer.access_token
        ≡ dated_host.issue_token answer.owner.tenant_id answer.owner.user_id e.device_id
            e.desktop_instance_id clock answer.expires_at options.token_secret)
poll-IsIssued_example =
    poll-IsIssued dated_host options clock (text "e1") (with_record granted) (text "dev_1") none
      clock (text "dev_1") now_parsed code_parsed {answer = answer} issued

-- The same authorization, before it is approved, with an audit log.
abbrev logged : Authorizations
logged = record (with_record asked) { audit = some (record { events = []; idempotency = [] }) }

abbrev approval : ApproveInput
approval = record {
  user_code = text "ABCD-1234";
  owner = ann;
  device_id = none;
  desktop_instance_id = none;
  now = none;
}

approval_given : (approve dated_host options clock (text "e1") approval logged).1 ≡ ok granted
unfolding authorizing record_event normalize_audit_event normalize_optional_owner
approval_given = refl

current : is_expired dated_host.date_parse (some granted.expires_at) clock ≡ false
unfolding authorizing
current = refl

patient : polled_too_soon dated_host granted.last_polled_at clock granted.interval_seconds ≡ false
unfolding authorizing
patient = refl

later : add_seconds dated_host clock options.token_ttl_seconds ≡ ok answer.expires_at
unfolding authorizing
later = refl

abbrev after_approval : Authorizations × Result AuthorizationFailure TokenAnswer
after_approval =
    poll dated_host options clock (text "e2") (text "dev_1") none
      (approve dated_host options clock (text "e1") approval logged).0

approve-poll_example :
    (owner : WorkspaceIdentity) × (normalize_owner ann ≡ ok owner)
    × (after_approval.1
        ≡ ok (record {
          access_token =
              dated_host.issue_token owner.tenant_id owner.user_id granted.device_id
                granted.desktop_instance_id clock answer.expires_at options.token_secret;
          expires_at = answer.expires_at;
          owner = owner;
          device_id = granted.device_id;
          desktop_instance_id = granted.desktop_instance_id;
        }))
    × (get (text "dev_1") after_approval.0.by_device_code
        ≡ some (record granted { last_polled_at = some clock }))
approve-poll_example =
    approve-poll dated_host options clock (text "e1") clock (text "e2") approval logged granted none
      clock answer.expires_at asked-Sound approval_given now_parsed code_parsed current patient
      later

-- The first five seeds give a code that is taken.
abbrev five : Text → List Text
five seed = seed ∷ seed ∷ seed ∷ seed ∷ seed ∷ []

abbrev seeds : List Text
seeds = five (text "0a1b2c3d4e") ++ (five (text "5f") ++ (five (text "6f") ++ five (text "7f")))

abbrev coded : Authorizations
coded = record (with_record (record asked { user_code = text "0a1b-2c3d" })) {
  by_user_code = (text "0a1b-2c3d", text "dev_1") ∷ [];
}

sixth_code : unique_user_code host seeds coded ≡ ok (text "5f00-0000")
unfolding unique_user_code unique_user_code_in format_user_code get_by_user_code text get text_eq
sixth_code = refl

unique_user_code_lem_example :
    ((code : Text) × (seed : Text) × In seed seeds
      × IsFresh host coded seed code
      × (unique_user_code host seeds coded ≡ ok code))
    ⊎ (All (IsTaken host coded) seeds × (unique_user_code host seeds coded ≡ err exhausted_error))
unique_user_code_lem_example = unique_user_code_lem host coded seeds refl
