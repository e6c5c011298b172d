-- ===== src/Token.antt =====
-- src/cloud-gateway-auth.ts: the signed token that a desktop shows to the gateway. What
-- `createHmac("sha256", secret).update(body).digest("base64url")`, `Buffer`'s base64url,
-- `JSON.stringify`, `JSON.parse` and `Date.parse` do is the argument `TokenHost`.
pub mod Laws
pub mod Poll
mod Tests
use xautojs_devspace.Prelude.Result
use xautojs_devspace.Prelude.{
  Bool, List, Option, String, [], any, false, get_or, if◌then◌else◌, leb, none, not, some, ℕ, ◌&&◌,
  ◌++◌, ◌+◌, ◌==◌, ◌||◌, ◌∷◌,
}
use xautojs_devspace.Prelude.Int.{leb_ℤ, ℤ}
use xautojs_devspace.Prelude.Json.{
  Json, as_text, field, get_field, is_record, json_natural, json_object, json_text, no_fields,
  optional_field,
}
use xautojs_devspace.Prelude.Result.{Result, err, ok, ◌>>=◌}
use xautojs_devspace.Prelude.Text.{Text, is_white, text, text_eq, trim, truthy}
use xautojs_devspace.Routing.Contract.{WorkspaceIdentity}

pub record TokenHost : Type 0 where
  pub hmac : Text → Text → Text
  pub base64url_encode : Text → Text
  pub base64url_decode : Text → Text
  pub json_stringify : Json → Text
  pub json_parse : Text → Option Json
  pub date_parse : Text → Option ℤ

-- `CloudGatewayDeviceTokenPayload`; the version is left out where the token is issued.
pub record TokenPayload : Type 0 where
  pub tenant_id : Text
  pub user_id : Text
  pub device_id : Option Text
  pub desktop_instance_id : Option Text
  pub issued_at : Option Text
  pub expires_at : Option Text

pub record DeviceAuthContext : Type 0 where
  pub owner : WorkspaceIdentity
  pub device_id : Option Text
  pub desktop_instance_id : Option Text
  pub expires_at : Option Text

pub data AuthErrorCode : Type 0 where
  auth_missing auth_invalid auth_expired : AuthErrorCode

pub data AuthError : Type 0 where
  auth_error : AuthErrorCode → Text → AuthError

pub record AuthOptions : Type 0 where
  pub secret : Text
  pub allow_query_token : Option Bool

abbrev pub invalid : String → AuthError
invalid message = auth_error auth_invalid (text message)

unfoldable pub required_token_field : Text → String → Result AuthError Text
unfolding trim text
required_token_field value name =
    let trimmed : Text = trim value in
    if truthy trimmed
    then ok trimmed
    else err (auth_error auth_invalid (text name ++ text " is required in device auth token."))

-- `trimmed || undefined`
unfoldable pub optional_token_field : Option Text → Option Text
unfolding trim
optional_token_field none = none
optional_token_field (some value) =
    let trimmed : Text = trim value in if truthy trimmed then some trimmed else none

-- The object that is signed, with its version.
unfoldable pub payload_json : TokenPayload → Json
unfolding text optional_field
payload_json p = json_object (
    field (text "version") (json_natural 1) (
      field (text "tenantId") (json_text p.tenant_id) (
        field (text "userId") (json_text p.user_id) (
          optional_field (text "deviceId") p.device_id (
            optional_field (text "desktopInstanceId") p.desktop_instance_id (
              optional_field (text "issuedAt") p.issued_at
                (optional_field (text "expiresAt") p.expires_at no_fields)))))))

-- `token.split(".")`
unfoldable pub split_dots : Text → List Text
split_dots [] = [] ∷ []
split_dots (c ∷ s) =
    let rest = split_dots s in
    if c == 46
    then [] ∷ rest
    else elim rest [ [] ↦ (c ∷ []) ∷ [] | part ∷ parts ↦ (c ∷ part) ∷ parts ]

unfoldable pub normalize_payload : TokenPayload → Result AuthError TokenPayload
unfolding required_token_field optional_token_field
normalize_payload p = Result.◌>>=◌ (required_token_field p.tenant_id "tenantId") λ tenant_id.
    Result.◌>>=◌ (required_token_field p.user_id "userId") λ user_id. ok (record {
      tenant_id = tenant_id;
      user_id = user_id;
      device_id = optional_token_field p.device_id;
      desktop_instance_id = optional_token_field p.desktop_instance_id;
      issued_at = optional_token_field p.issued_at;
      expires_at = optional_token_field p.expires_at;
    })

module _ (host : TokenHost) where
  open host use {hmac, base64url_encode, base64url_decode, json_stringify, json_parse, date_parse}

  unfoldable pub sign_token_body : Text → Text → Text
  sign_token_body body secret = hmac secret body

  unfoldable pub token_body : TokenPayload → Text
  unfolding payload_json
  token_body p = base64url_encode (json_stringify (payload_json p))

  -- `v1.${body}.${signature}`
  unfoldable pub token_text : Text → Text → Text
  unfolding sign_token_body
  token_text body secret = 118 ∷ 49 ∷ 46 ∷ body ++ (46 ∷ sign_token_body body secret)

  unfoldable pub issue_device_token : TokenPayload → Text → Result AuthError Text
  issue_device_token payload secret =
      Result.◌>>=◌ (normalize_payload payload)
        λ normalized. ok (token_text (token_body normalized) secret)

  -- The version is that of this file, or another one.
  unfoldable pub payload_of_json : Json → Bool × TokenPayload
  unfolding get_field text
  payload_of_json parsed = (
    elim (get_field (text "version") parsed) [ some (json_natural n) ↦ n == 1 | _ ↦ false ],
    record {
      tenant_id = get_or (as_text (get_field (text "tenantId") parsed)) [];
      user_id = get_or (as_text (get_field (text "userId") parsed)) [];
      device_id = as_text (get_field (text "deviceId") parsed);
      desktop_instance_id = as_text (get_field (text "desktopInstanceId") parsed);
      issued_at = as_text (get_field (text "issuedAt") parsed);
      expires_at = as_text (get_field (text "expiresAt") parsed);
    },
  )

  -- What a `throw` inside the `try` and a failed `JSON.parse` come to is the same error.
  unfoldable pub parse_payload : Text → Result AuthError (Bool × TokenPayload)
  unfolding payload_of_json text
  parse_payload body = elim (json_parse (base64url_decode body)) [
    | none ↦ err (invalid "Device auth token payload is invalid.")
    | some parsed ↦
        if is_record parsed
        then ok (payload_of_json parsed)
        else err (invalid "Device auth token payload is invalid.")
  ]

  -- `payload.expiresAt && Date.parse(payload.expiresAt) <= Date.parse(now)`
  unfoldable pub is_token_expired : Option Text → Text → Bool
  is_token_expired none now = false
  is_token_expired (some expires_at) now = truthy expires_at && elim (date_parse expires_at) [
    | none ↦ false
    | some expiry ↦ elim (date_parse now) [ none ↦ false | some instant ↦ leb_ℤ expiry instant ]
  ]

  unfoldable pub context_of_payload : TokenPayload → Result AuthError DeviceAuthContext
  unfolding required_token_field optional_token_field
  context_of_payload p = Result.◌>>=◌ (required_token_field p.tenant_id "tenantId") λ tenant_id.
      Result.◌>>=◌ (required_token_field p.user_id "userId") λ user_id. ok (record {
        owner = record { tenant_id = tenant_id; user_id = user_id };
        device_id = optional_token_field p.device_id;
        desktop_instance_id = optional_token_field p.desktop_instance_id;
        expires_at = optional_token_field p.expires_at;
      })

  unfoldable pub verify_body : Text → Text → Result AuthError DeviceAuthContext
  verify_body body now = Result.◌>>=◌ (parse_payload body) λ parsed.
      if not parsed.0
      then err (invalid "Device auth token version is unsupported.")
      else if is_token_expired parsed.1.expires_at now
      then err (auth_error auth_expired (text "Device auth token is expired."))
      else context_of_payload parsed.1

  -- `safeEqual` compares UTF-8 bytes: beside a signature, which is ASCII, that is equality.
  unfoldable pub verify_parts : List Text → Text → Text → Result AuthError DeviceAuthContext
  unfolding text text_eq sign_token_body verify_body
  verify_parts (version ∷ body ∷ signature ∷ []) secret now =
      if not (text_eq version (text "v1"))
      then err (invalid "Device auth token has an invalid format.")
      else if not
          (truthy body && truthy signature && text_eq signature (sign_token_body body secret))
      then err (invalid "Device auth token signature is invalid.")
      else verify_body body now
  verify_parts _ secret now = err (invalid "Device auth token has an invalid format.")

  unfoldable pub verify_device_token : Text → Text → Text → Result AuthError DeviceAuthContext
  unfolding verify_parts split_dots
  verify_device_token token secret now = verify_parts (split_dots token) secret now

  -- `/^Bearer\s+(.+)$/i`: the letters in either case, blanks, and a rest with no line terminator.
  drop_bearer : Text → Text → Option Text
  drop_bearer [] s = some s
  drop_bearer (c ∷ cs) [] = none
  drop_bearer (c ∷ cs) (d ∷ s) =
      let rest = drop_bearer cs s in
      if d == c || (leb 65 d && leb d 90 && d + 32 == c) then rest else none

  is_line_terminator : ℕ → Bool
  is_line_terminator c = c == 10 || c == 13 || c == 8232 || c == 8233

  bearer_rest : Text → Option Text
  unfolding trim is_white is_line_terminator any
  bearer_rest [] = none
  bearer_rest (c ∷ s) =
      let token : Text = trim (c ∷ s) in
      if is_white c && truthy token && not (any is_line_terminator token) then some token else none

  -- `request.headers.authorization` and the query's `access_token`.
  unfoldable pub extract_bearer_token : Option Text → Option Text → Bool → Option Text
  unfolding drop_bearer bearer_rest text trim
  extract_bearer_token authorization access_token allow_query_token =
      let from_query : Option Text =
        if allow_query_token then optional_token_field access_token else none in
      elim authorization [
        | none ↦ from_query
        | some header ↦ elim (drop_bearer (text "bearer") (trim header)) [
          | none ↦ from_query
          | some rest ↦ elim (bearer_rest rest) [ none ↦ from_query | some token ↦ some token ]
        ]
      ]

  -- The authenticator that `createSignedCloudDeviceWebSocketAuthenticator` makes.
  unfoldable pub authenticate :
      AuthOptions → Text → Option Text → Option Text → Result AuthError (Option DeviceAuthContext)
  unfolding required_token_field
  authenticate options now authorization access_token =
      Result.◌>>=◌ (required_token_field options.secret "secret") λ secret.
        elim (extract_bearer_token authorization access_token
          (get_or options.allow_query_token false)) [
            | none ↦ ok none
            | some token ↦
                Result.◌>>=◌ (verify_device_token token secret now) λ context. ok (some context)
          ]
