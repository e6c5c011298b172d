-- ===== src/DeviceAuth.antt =====
-- src/cloud-device-code-auth.ts: `InMemoryCloudDeviceAuthorizationStore` and
-- `CloudDeviceAuthorizationService`, the device-code flow by which a desktop gets its token.
-- A call runs to its end before the next one starts: the awaits inside a method are not split.
pub mod Service
pub mod Create
pub mod Unique
pub mod History
pub mod Issue
pub mod Approval
pub mod Flow
pub mod Status
pub mod Methods
mod Tests
use xautojs_devspace.Prelude.Result
use xautojs_devspace.Audit.{AuditStore}
use xautojs_devspace.Prelude.{Bool, Option, String, false, if◌then◌else◌, none, some, ℕ, ◌&&◌, ◌*◌}
use xautojs_devspace.Prelude.Int.{ltb_ℤ, pos, ℤ, ◌+ℤ◌, ◌-ℤ◌}
use xautojs_devspace.Prelude.JsMap.{JsMap, get, put}
use xautojs_devspace.Prelude.Result.{Result, err, ok, ◌>>=◌}
use xautojs_devspace.Prelude.Text.{Text, option_text_eq, text_eq, truthy}
use xautojs_devspace.Routing.Contract.{RoutingError, WorkspaceIdentity, normalize_required_id}

pub data AuthorizationStatus : Type 0 where
  pending approved denied : AuthorizationStatus

-- `intervalSeconds` and the lifetimes are whole numbers of seconds.
pub record AuthorizationRecord : Type 0 where
  pub device_code : Text
  pub user_code : Text
  pub status : AuthorizationStatus
  pub client_name : Option Text
  pub device_id : Option Text
  pub desktop_instance_id : Option Text
  pub owner : Option WorkspaceIdentity
  pub created_at : Text
  pub expires_at : Text
  pub interval_seconds : ℕ
  pub approved_at : Option Text
  pub denied_at : Option Text
  pub last_polled_at : Option Text

pub record CreateInput : Type 0 where
  pub client_name : Option Text
  pub device_id : Option Text
  pub desktop_instance_id : Option Text
  pub now : Option Text
  pub expires_in_seconds : Option ℕ
  pub interval_seconds : Option ℕ

pub record CreateAnswer : Type 0 where
  pub device_code : Text
  pub user_code : Text
  pub verification_uri : Text
  pub expires_at : Text
  pub expires_in_seconds : ℕ
  pub interval_seconds : ℕ

pub record ApproveInput : Type 0 where
  pub user_code : Text
  pub owner : WorkspaceIdentity
  pub device_id : Option Text
  pub desktop_instance_id : Option Text
  pub now : Option Text

pub record TokenAnswer : Type 0 where
  pub access_token : Text
  pub expires_at : Text
  pub owner : WorkspaceIdentity
  pub device_id : Option Text
  pub desktop_instance_id : Option Text

pub data AuthorizationErrorCode : Type 0 where
  authorization_pending slow_down expired_token access_denied : AuthorizationErrorCode
  invalid_device_code invalid_user_code : AuthorizationErrorCode

-- What a method may throw: a `CloudDeviceAuthorizationError` with its `retryable`, a
-- `CloudRoutingError`, or the `RangeError` of `toISOString`.
pub data AuthorizationFailure : Type 0 where
  authorization_error : AuthorizationErrorCode → String → Bool → AuthorizationFailure
  routing_failure : RoutingError → AuthorizationFailure
  range_error : AuthorizationFailure

-- What the service uses of its surroundings: `Date`, `toUpperCase`, and the token's signature.
pub record Host : Type 0 where
  pub date_parse : Text → Option ℤ
  pub to_iso_string : ℤ → Option Text
  pub to_upper_case : Text → Text
  pub issue_token : Text → Text → Option Text → Option Text → Text → Text → Text → Text

-- The service's options, with the defaults filled in.
pub record ServiceOptions : Type 0 where
  pub token_secret : Text
  pub verification_uri : Text
  pub authorization_ttl_seconds : ℕ
  pub token_ttl_seconds : ℕ
  pub poll_interval_seconds : ℕ

pub record Authorizations : Type 0 where
  pub by_device_code : JsMap AuthorizationRecord
  pub by_user_code : JsMap Text
  pub audit : Option (AuditStore (Unit {0}))

-- `create` and `update` of the store, which write the same.
unfoldable pub write_record : AuthorizationRecord → Authorizations → Authorizations
write_record r s = record s {
  by_device_code = put r.device_code r s.by_device_code;
  by_user_code = put r.user_code r.device_code s.by_user_code;
}

unfoldable pub get_by_device_code : Text → Authorizations → Option AuthorizationRecord
get_by_device_code device_code s = get device_code s.by_device_code

-- `if (!deviceCode) return undefined; return this.getByDeviceCode(deviceCode)`
record_of_code : Option Text → Authorizations → Option AuthorizationRecord
unfolding get_by_device_code
record_of_code none s = none
record_of_code (some device_code) s =
    if truthy device_code then get_by_device_code device_code s else none

module _ (host : Host) where
  open host use {date_parse, to_iso_string, to_upper_case}

  unfoldable pub get_by_user_code : Text → Authorizations → Option AuthorizationRecord
  unfolding record_of_code
  get_by_user_code user_code s = record_of_code (get (to_upper_case user_code) s.by_user_code) s

  -- `new Date(Date.parse(iso) + seconds * 1_000).toISOString()`
  unfoldable pub add_seconds : Text → ℕ → Result AuthorizationFailure Text
  add_seconds iso seconds = elim (date_parse iso) [
    | none ↦ err range_error
    | some time ↦ elim (to_iso_string (time +ℤ pos (seconds * 1000))) [
      | none ↦ err range_error
      | some later ↦ ok later
    ]
  ]

  -- `lastPolledAt && Date.parse(now) - Date.parse(lastPolledAt) < intervalSeconds * 1_000`
  unfoldable pub polled_too_soon : Option Text → Text → ℕ → Bool
  polled_too_soon none now interval = false
  polled_too_soon (some last) now interval = truthy last && elim (date_parse now) [
    | none ↦ false
    | some now_time ↦ elim (date_parse last) [
      | none ↦ false
      | some last_time ↦ ltb_ℤ (now_time -ℤ last_time) (pos (interval * 1000))
    ]
  ]

unfoldable pub routing {ℓ} : {A : Type ℓ} → Result RoutingError A → Result AuthorizationFailure A
routing (ok a) = ok a
routing (err e) = err (routing_failure e)

unfoldable pub normalize_user_code : Host → Text → Result AuthorizationFailure Text
unfolding routing
normalize_user_code host value =
    Result.◌>>=◌ (routing (normalize_required_id (some value) "userCode"))
      λ code. ok (host.to_upper_case code)

unfoldable pub owner_eq : WorkspaceIdentity → WorkspaceIdentity → Bool
owner_eq a b = text_eq a.tenant_id b.tenant_id && text_eq a.user_id b.user_id

unfoldable pub same_approved_target :
    AuthorizationRecord → WorkspaceIdentity → Option Text → Option Text → Bool
unfolding owner_eq
same_approved_target existing owner device_id desktop_instance_id = elim existing.owner [
  | none ↦ false
  | some current ↦
      owner_eq current owner
      && option_text_eq existing.device_id device_id
      && option_text_eq existing.desktop_instance_id desktop_instance_id
]
