-- ===== src/Sessions/Tests.antt =====
-- A session that is paired with a device and resolved again, and the theorems there.
use mathlib.Core.List.{[], ◌∷◌}
use xautojs_devspace.Prelude.{Option, none, refl, some, ◌++◌, ◌≡◌}
use xautojs_devspace.Prelude.Int.{ℤ}
use xautojs_devspace.Prelude.JsMap.{get, put}
use xautojs_devspace.Prelude.Result.{ok}
use xautojs_devspace.Prelude.Text.{Text, option_text_eq, text, text_eq, text_le, trim}
use xautojs_devspace.Routing.Contract.{
  BindSessionInput, DeviceRecord, DeviceStatus, ResolveSessionInput, SessionBindingRecord,
  WorkspaceIdentity, is_expired, normalize_optional_id, normalize_owner, normalize_required_id,
  owner_key, route_now, separator,
}
use xautojs_devspace.Routing.Store.{assert_device_routeable}
use xautojs_devspace.Sessions.{
  Bindings, DeviceLookup, bind_device, binding_key, resolve_begin, resolve_device, resolve_finish,
  same_binding,
}
use xautojs_devspace.Sessions.Laws.{
  IsStamp, IsUsable, KeptPairing, resolve_device-IsUsable, resolve_device-KeptPairing,
}

sessions : Unit {0}
unfolding bind_device resolve_device resolve_begin resolve_finish binding_key same_binding
    normalize_owner normalize_required_id normalize_optional_id route_now trim text get put text_eq
    option_text_eq assert_device_routeable is_expired text_le owner_key
sessions = tt

abbrev no_dates : Text → Option ℤ
no_dates _ = none

abbrev clock : Text
clock = text "2026-01-01T00:00:00.000Z"

abbrev ann : WorkspaceIdentity
ann = record { tenant_id = text "acme"; user_id = text "ann" }

abbrev laptop : DeviceRecord
laptop = record {
  device_id = text "laptop";
  owner = ann;
  label = none;
  capabilities = [];
  status = DeviceStatus.online;
  registered_at = clock;
  last_seen_at = clock;
  expires_at = none;
}

abbrev answers : DeviceLookup
answers _ _ = ok (some laptop)

abbrev pairing : SessionBindingRecord
pairing = record {
  owner = ann;
  mcp_session_id = text "s1";
  conversation_session_id = none;
  device_id = text "laptop";
  bound_at = clock;
  last_seen_at = clock;
  expires_at = none;
}

abbrev session_key : Text
session_key = (text "acme" ++ (separator ∷ text "ann")) ++ (separator ∷ text "s1")

abbrev paired : Bindings
paired = record { bindings = (session_key, pairing) ∷ [] }

abbrev ask : ResolveSessionInput
ask = record {
  owner = ann;
  mcp_session_id = text "s1";
  conversation_session_id = none;
  device_id = none;
  now = none;
}

abbrev again : BindSessionInput
again = record {
  owner = ann;
  mcp_session_id = text "s1";
  conversation_session_id = none;
  device_id = text "laptop";
  now = none;
  expires_at = none;
}

resolves : (resolve_device no_dates clock answers ask paired).1 ≡ ok pairing
unfolding sessions
resolves = refl

ann_parsed : normalize_owner ann ≡ ok ann
unfolding sessions
ann_parsed = refl

now_parsed : route_now clock none ≡ ok clock
unfolding sessions
now_parsed = refl

clock-IsStamp : IsStamp clock
unfolding sessions
clock-IsStamp = record { trimmed = refl; given = refl }

pairing_stored : get session_key paired.bindings ≡ some pairing
unfolding sessions
pairing_stored = refl

resolve_device-IsUsable_example : IsUsable no_dates clock (answers ann (text "laptop"))
resolve_device-IsUsable_example =
    resolve_device-IsUsable no_dates clock answers paired ask ann clock clock-IsStamp ann_parsed
      now_parsed {b = pairing} resolves

resolve_device-KeptPairing_example :
    KeptPairing no_dates clock pairing
      (get session_key (resolve_device no_dates clock answers ask paired).0.bindings)
resolve_device-KeptPairing_example =
    resolve_device-KeptPairing no_dates clock answers paired session_key pairing pairing_stored ask
      now_parsed

rebound :
    get session_key (bind_device no_dates clock answers again paired).0.bindings ≡ some pairing
unfolding sessions
rebound = refl
