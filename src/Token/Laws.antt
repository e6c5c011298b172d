-- ===== src/Token/Laws.antt =====
-- A token of src/cloud-gateway-auth.ts that is issued verifies, and what verifies was signed.
use xautojs_devspace.Prelude.{
  All, List, Option, String, [], ap, arith, false, inl, inr, none, refl, some, true, ◌++◌, ◌∷◌, ◌≡◌,
  ◌≢◌,
}
use xautojs_devspace.Prelude.Json.{find_field, get_field, optional_field}
use xautojs_devspace.Prelude.Result.{Result-cases, ok}
use xautojs_devspace.Prelude.Text.{Text, text, text_eq, truthy}
use xautojs_devspace.Prelude.Text.Laws.{text_eq_iff, text_eq_refl, trim-trim}
use xautojs_devspace.Token.{
  DeviceAuthContext, TokenHost, TokenPayload, context_of_payload, is_token_expired,
  issue_device_token, normalize_payload, optional_token_field, parse_payload, payload_json,
  payload_of_json, required_token_field, sign_token_body, split_dots, token_body, token_text,
  verify_body, verify_device_token, verify_parts,
}

abbrev pub NoDot : Text → Type 0
NoDot s = All (λ c. c ≢ 46) s

split_dots-plain : (s : Text) → NoDot s → split_dots s ≡ s ∷ []
unfolding split_dots
split_dots-plain [] h = refl
split_dots-plain (c ∷ s) h = ground (arith, h.0, split_dots-plain s h.1)

split_dots-dot : (s t : Text) → NoDot s → split_dots (s ++ (46 ∷ t)) ≡ s ∷ split_dots t
unfolding split_dots
split_dots-dot [] t h = refl
split_dots-dot (c ∷ s) t h = ground (arith, h.0, split_dots-dot s t h.1)

payload_of_fields :
    (host : TokenHost) (tenant user : Text) (device instance_id issued expires : Option Text)
    → let p : TokenPayload = record {
      tenant_id = tenant;
      user_id = user;
      device_id = device;
      desktop_instance_id = instance_id;
      issued_at = issued;
      expires_at = expires;
    } in
      payload_of_json host (payload_json p) ≡ (true, p)
unfolding payload_of_json payload_json find_field get_field optional_field text text_eq
payload_of_fields host tenant user none none none none = refl
payload_of_fields host tenant user (some d) none none none = refl
payload_of_fields host tenant user d (some i) none none = ground arith
payload_of_fields host tenant user d i (some a) none = ground arith
payload_of_fields host tenant user d i a (some e) = ground arith

payload_of_json-payload_json :
    (host : TokenHost) (p : TokenPayload) → payload_of_json host (payload_json p) ≡ (true, p)
payload_of_json-payload_json host p =
    payload_of_fields host p.tenant_id p.user_id p.device_id p.desktop_instance_id p.issued_at
      p.expires_at

required-trimmed :
    (value : Text) (name again : String) {t : Text}
    → required_token_field value name ≡ ok t
    → required_token_field t again ≡ ok t
unfolding required_token_field
required-trimmed value name again {t} h = ground (arith, trim-trim value)

optional-trimmed :
    (o : Option Text) → optional_token_field (optional_token_field o) ≡ optional_token_field o
unfolding optional_token_field
optional-trimmed none = refl
optional-trimmed (some value) = ground (arith, trim-trim value)

-- What the payload `p` is read as by whoever shows the token.
abbrev pub context_of : TokenPayload → DeviceAuthContext
context_of p = record {
  owner = record { tenant_id = p.tenant_id; user_id = p.user_id };
  device_id = p.device_id;
  desktop_instance_id = p.desktop_instance_id;
  expires_at = p.expires_at;
}

context_of_payload-normal :
    (host : TokenHost) (payload : TokenPayload) {p : TokenPayload}
    → normalize_payload payload ≡ ok p
    → context_of_payload host p ≡ ok (context_of p)
unfolding normalize_payload context_of_payload
context_of_payload-normal host payload {p} h = ground (
  arith,
  required-trimmed payload.tenant_id "tenantId" "tenantId" {t = p.tenant_id},
  required-trimmed payload.user_id "userId" "userId" {t = p.user_id},
  optional-trimmed payload.device_id,
  optional-trimmed payload.desktop_instance_id,
  optional-trimmed payload.expires_at,
)

-- What the signature and the encodings give for one payload: base64url has no dot and gives its text
-- back, and so does JSON.
pub record IsFaithful (host : TokenHost) (secret : Text) (p : TokenPayload) : Type 0 where
  pub body_plain : NoDot (token_body host p)
  pub body_given : truthy (token_body host p) ≡ true
  pub signature_plain : NoDot (sign_token_body host (token_body host p) secret)
  pub signature_given : truthy (sign_token_body host (token_body host p) secret) ≡ true
  pub decoded : host.base64url_decode (token_body host p) ≡ host.json_stringify (payload_json p)
  pub parsed : host.json_parse (host.json_stringify (payload_json p)) ≡ some (payload_json p)

module _ (host : TokenHost) (secret now : Text) (payload : TokenPayload) {p : TokenPayload}
    (normal : normalize_payload payload ≡ ok p) where
  parse_payload-body :
      IsFaithful host secret p → parse_payload host (token_body host p) ≡ ok (true, p)
  unfolding parse_payload payload_json
  parse_payload-body f =
      rw (parse_payload, f.decoded, f.parsed) (ap ok (payload_of_json-payload_json host p))

  verify_body-normal :
      IsFaithful host secret p
      → is_token_expired host p.expires_at now ≡ false
      → verify_body host (token_body host p) now ≡ ok (context_of p)
  unfolding verify_body
  verify_body-normal f fresh =
      ground (arith, parse_payload-body f, context_of_payload-normal host payload normal)

  split_token :
      IsFaithful host secret p
      → split_dots (token_text host (token_body host p) secret)
        ≡ (118 ∷ 49 ∷ []) ∷ token_body host p ∷ sign_token_body host (token_body host p) secret ∷ []
  unfolding token_text split_dots
  split_token f = ground (
    arith,
    split_dots-dot (token_body host p) (sign_token_body host (token_body host p) secret)
        f.body_plain,
    split_dots-plain (sign_token_body host (token_body host p) secret) f.signature_plain,
  )

  -- A token that was issued verifies, under the same secret and at any instant at which it is not
  -- expired, to the owner, the device, the instance and the expiry of its payload, trimmed, where
  -- decoding and parsing give back what was encoded, and the body and the signature are not empty
  -- and have no dot.
  pub verify-issue :
      (token : Text)
      → issue_device_token host payload secret ≡ ok token
      → IsFaithful host secret p
      → is_token_expired host p.expires_at now ≡ false
      → verify_device_token host token secret now ≡ ok (context_of p)
  unfolding verify_device_token issue_device_token
  verify-issue token issued f fresh = ground (
    arith,
    normal,
    split_token f,
    verify_body-normal f fresh,
    f.body_given,
    f.signature_given,
    text_eq_refl (sign_token_body host (token_body host p) secret),
  )

-- What a token that verifies was made of.
pub record IsSigned (host : TokenHost) (token secret now : Text) (context : DeviceAuthContext)
    : Type 0 where
  pub body : Text
  pub payload : TokenPayload
  pub parts : split_dots token ≡ (118 ∷ 49 ∷ []) ∷ body ∷ sign_token_body host body secret ∷ []
  pub parsed : parse_payload host body ≡ ok (true, payload)
  pub current : is_token_expired host payload.expires_at now ≡ false
  pub read : context_of_payload host payload ≡ ok context

module _ (host : TokenHost) (secret now : Text) where
  verify_body-ok :
      (body : Text) {context : DeviceAuthContext}
      → verify_body host body now ≡ ok context
      → (payload : TokenPayload) × (parse_payload host body ≡ ok (true, payload))
        × (is_token_expired host payload.expires_at now ≡ false)
        × (context_of_payload host payload ≡ ok context)
  unfolding verify_body
  verify_body-ok body {context} h = elim (Result-cases (parse_payload host body)) [
    | inr (e, thrown) ↦ absurd (ground arith)
    | inl ((known, payload), parsed) ↦ (payload, ground arith, ground arith, ground arith)
  ]

  verify_parts-IsSigned :
      (token : Text) (parts : List Text) {context : DeviceAuthContext}
      → split_dots token ≡ parts
      → verify_parts host parts secret now ≡ ok context
      → IsSigned host token secret now context
  unfolding verify_parts
  verify_parts-IsSigned token [] e h = cc
  verify_parts-IsSigned token (v ∷ []) e h = cc
  verify_parts-IsSigned token (v ∷ body ∷ []) e h = cc
  verify_parts-IsSigned token (v ∷ body ∷ signature ∷ x ∷ rest) e h = cc
  verify_parts-IsSigned token (v ∷ body ∷ signature ∷ []) {context} e h =
      let (payload, parsed, current, read) =
        verify_body-ok body {context = context} (ground arith) in
      record {
        body = body;
        payload = payload;
        parts = ground (
          arith,
          text_eq_iff v (118 ∷ 49 ∷ []),
          text_eq_iff signature (sign_token_body host body secret),
        );
        parsed = parsed;
        current = current;
        read = read;
      }

  -- A token that verifies consists of the version, a body and that body's signature under the
  -- secret; the body parses to a payload of this version that is not expired, and the answer is
  -- what that payload says.
  pub verify-IsSigned :
      (token : Text) {context : DeviceAuthContext}
      → verify_device_token host token secret now ≡ ok context
      → IsSigned host token secret now context
  unfolding verify_device_token
  verify-IsSigned token {context} h =
      verify_parts-IsSigned token (split_dots token) {context = context} refl h
