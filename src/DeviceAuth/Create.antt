-- ===== src/DeviceAuth/Create.antt =====
-- `create` of `CloudDeviceAuthorizationService` in src/cloud-device-code-auth.ts, with
-- `uniqueUserCode` and `formatUserCode`. `seeds` has a seed for each of the twenty rounds.
use xautojs_devspace.Audit.{device_code_create, succeeded}
use xautojs_devspace.DeviceAuth.{
  AuthorizationFailure, AuthorizationRecord, Authorizations, CreateAnswer, CreateInput, Host,
  ServiceOptions, add_seconds, get_by_user_code, pending, routing, routing_failure, write_record,
}
use xautojs_devspace.DeviceAuth.Service.{ServiceMethod, audit_event, service_now}
use xautojs_devspace.Prelude.{
  Bool, List, [], get_or, if◌then◌else◌, leb, none, some, suc, zero, ℕ, ◌&&◌, ◌++◌, ◌||◌, ◌∷◌,
}
use xautojs_devspace.Prelude.Result.{Result, err, ok}
use xautojs_devspace.Prelude.State.{gets, lift, modify, pure, ◌>>=◌, ◌>>◌}
use xautojs_devspace.Prelude.Text.{Text, text}
use xautojs_devspace.Routing.Contract.{normalize_optional_id, routing_error, tool_call_conflict}

abbrev pub exhausted_error : AuthorizationFailure
exhausted_error =
    routing_failure
      (routing_error tool_call_conflict "Unable to allocate a unique device user code." [])

is_alphanumeric : ℕ → Bool
is_alphanumeric c = leb 48 c && leb c 57 || leb 65 c && leb c 90 || leb 97 c && leb c 122

-- `seed.replace(/[^a-zA-Z0-9]/g, "")`
keep_alphanumeric : Text → Text
unfolding is_alphanumeric
keep_alphanumeric [] = []
keep_alphanumeric (c ∷ s) =
    if is_alphanumeric c then c ∷ keep_alphanumeric s else keep_alphanumeric s

-- `slice(0, n).padEnd(n, "0")`
fit : ℕ → Text → Text
fit zero s = []
fit (suc n) [] = 48 ∷ fit n []
fit (suc n) (c ∷ s) = c ∷ fit n s

skip : ℕ → Text → Text
skip zero s = s
skip (suc n) [] = []
skip (suc n) (c ∷ s) = skip n s

unfoldable pub format_user_code : Host → Text → Text
unfolding keep_alphanumeric fit skip
format_user_code host seed =
    let raw : Text = fit 8 (host.to_upper_case (keep_alphanumeric seed)) in
    fit 4 raw ++ (45 ∷ skip 4 raw)

-- The rounds of `uniqueUserCode`: at most `rounds` of them, one seed each.
unfoldable pub unique_user_code_in :
    Host → ℕ → List Text → Authorizations → Result AuthorizationFailure Text
unique_user_code_in host zero seeds s = err exhausted_error
unique_user_code_in host (suc rounds) [] s = err exhausted_error
unique_user_code_in host (suc rounds) (seed ∷ seeds) s =
    let code : Text = format_user_code host seed in
    let rest = unique_user_code_in host rounds seeds s in
    elim (get_by_user_code host code s) [ none ↦ ok code | some _ ↦ rest ]

unfoldable pub unique_user_code :
    Host → List Text → Authorizations → Result AuthorizationFailure Text
unfolding unique_user_code_in
unique_user_code host seeds s = unique_user_code_in host 20 seeds s

module _ (host : Host) (options : ServiceOptions) (clock : Text) where
  unfoldable pub create : Text → Text → List Text → CreateInput → ServiceMethod CreateAnswer
  create uuid event_uuid seeds input = do
    now ← lift (service_now clock input.now)
    let lifetime : ℕ = get_or input.expires_in_seconds options.authorization_ttl_seconds
    let interval : ℕ = get_or input.interval_seconds options.poll_interval_seconds
    expires_at ← lift (add_seconds host now lifetime)
    code ← gets (unique_user_code host seeds)
    user_code ← lift code
    client_name ← lift (routing (normalize_optional_id input.client_name "clientName"))
    device_id ← lift (routing (normalize_optional_id input.device_id "deviceId"))
    instance_id ←
        lift (routing (normalize_optional_id input.desktop_instance_id "desktopInstanceId"))
    let created : AuthorizationRecord = record {
      device_code = text "dc_" ++ uuid;
      user_code = user_code;
      status = pending;
      client_name = client_name;
      device_id = device_id;
      desktop_instance_id = instance_id;
      owner = none;
      created_at = now;
      expires_at = expires_at;
      interval_seconds = interval;
      approved_at = none;
      denied_at = none;
      last_polled_at = none;
    }
    modify (write_record created)
    audit_event clock event_uuid none device_code_create succeeded none now
    pure (record {
      device_code = created.device_code;
      user_code = user_code;
      verification_uri = options.verification_uri;
      expires_at = expires_at;
      expires_in_seconds = lifetime;
      interval_seconds = interval;
    })
