-- ===== src/Sessions/Laws.antt =====
-- What src/cloud-session-binding.ts keeps of a pairing, and when it answers with a device.
use xautojs_devspace.Prelude.{Option, arith, false, inl, inr, none, some, subst, true, ◌≡◌, ◌≢◌}
use xautojs_devspace.Prelude.Int.{ℤ}
use xautojs_devspace.Prelude.JsMap.{
  Entries, Entries-delete, Entries-get, Entries-put, get, get-delete, get-put,
}
use xautojs_devspace.Prelude.Result.{Result, Result-cases, err, ok}
use xautojs_devspace.Prelude.Text.{Text, trim, truthy}
use xautojs_devspace.Prelude.Text.Laws.{option_text_eq_iff, text_eq_iff, trim-trim}
use xautojs_devspace.Routing.Contract.{
  BindSessionInput, DeviceRecord, ResolveSessionInput, RoutingError, SessionBindingRecord,
  WorkspaceIdentity, is_expired, normalize_optional_id, normalize_owner, online, route_now,
}
use xautojs_devspace.Routing.Contract.Laws.{normalize_owner_again}
use xautojs_devspace.Routing.Store.{assert_device_routeable}
use xautojs_devspace.Sessions.{
  Bindings, DeviceLookup, Pending, bind_device, binding, binding_key, checking, resolve_begin,
  resolve_device, resolve_finish, same_binding,
}

pub record SamePairing (b c : SessionBindingRecord) : Type 0 where
  pub conversation : b.conversation_session_id ≡ c.conversation_session_id
  pub device : b.device_id ≡ c.device_id
  pub bound : b.bound_at ≡ c.bound_at

-- The pairing is still there, or it had run out by `now` and is gone.
abbrev pub KeptPairing :
    (Text → Option ℤ) → Text → SessionBindingRecord → Option SessionBindingRecord → Type 0
KeptPairing date_parse now b none = is_expired date_parse b.expires_at now ≡ true
KeptPairing date_parse now b (some c) = SamePairing b c

eq_of_same_binding :
    (b : SessionBindingRecord) (conversation : Option Text) (device_id : Text)
    → same_binding b conversation device_id ≡ true
    → (b.conversation_session_id ≡ conversation) × (b.device_id ≡ device_id)
unfolding same_binding
eq_of_same_binding b conversation device_id h = ground (
  arith,
  option_text_eq_iff b.conversation_session_id conversation,
  text_eq_iff b.device_id device_id,
)

-- Each pairing stands under the key of its own owner and session.
abbrev pub PairingKeyed : Text → SessionBindingRecord → Type 0
PairingKeyed key b = binding_key b.owner b.mcp_session_id ≡ ok key

module _ (date_parse : Text → Option ℤ) (clock : Text) (lookup : DeviceLookup) (s : Bindings) where
  pub bind_device-PairingKeyed :
      (input : BindSessionInput)
      → Entries PairingKeyed s.bindings
      → Entries PairingKeyed (bind_device date_parse clock lookup input s).0.bindings
  unfolding bind_device
  bind_device-PairingKeyed input h = grind (arith, Entries-put)

  pub resolve_device-PairingKeyed :
      (input : ResolveSessionInput)
      → Entries PairingKeyed s.bindings
      → Entries PairingKeyed (resolve_device date_parse clock lookup input s).0.bindings
  unfolding resolve_device resolve_begin resolve_finish
  resolve_device-PairingKeyed input h = grind (arith, Entries-put, Entries-delete, Entries-get)

  module _ (key : Text) (b : SessionBindingRecord) (h : get key s.bindings ≡ some b) where
    -- For a session that is paired, `bindDevice` for whatever session leaves the same conversation,
    -- device and time of pairing, whether the call returns or throws.
    pub bind_device-SamePairing :
        (input : BindSessionInput) {c : SessionBindingRecord}
        → get key (bind_device date_parse clock lookup input s).0.bindings ≡ some c
        → SamePairing b c
    unfolding bind_device
    bind_device-SamePairing input k = grind (arith, get-put, text_eq_iff, eq_of_same_binding)

    -- No call of `bindDevice` removes a pairing.
    pub bind_device-ne-none :
        (input : BindSessionInput)
        → get key (bind_device date_parse clock lookup input s).0.bindings ≢ none
    unfolding bind_device
    bind_device-ne-none input = grind (arith, get-put)

    -- For a session that is paired, `resolveDevice` for whatever session, at an instant that parses,
    -- leaves the same conversation, device and time of pairing, or has removed a pairing that had
    -- run out, whether the call returns or throws.
    pub resolve_device-KeptPairing :
        (input : ResolveSessionInput) {now : Text}
        → route_now clock input.now ≡ ok now
        → KeptPairing date_parse now b
            (get key (resolve_device date_parse clock lookup input s).0.bindings)
    unfolding resolve_device resolve_begin resolve_finish
    resolve_device-KeptPairing input n =
        grind (arith, get-put, get-delete, text_eq_iff, eq_of_same_binding)

-- The answer is a device that may be routed to at `now`.
abbrev pub IsUsable : (Text → Option ℤ) → Text → Result RoutingError (Option DeviceRecord) → Type 0
IsUsable date_parse now (err e) = ⊥
IsUsable date_parse now (ok none) = ⊥
IsUsable date_parse now (ok (some device)) =
    (device.status ≡ online) × (is_expired date_parse device.expires_at now ≡ false)

-- `resolveDevice` passes on the owner and the instant that it has normalised.
abbrev IsPendingFor : Text → WorkspaceIdentity → Text → Result RoutingError Pending → Type 0
IsPendingFor clock owner now (err e) = Unit
IsPendingFor clock owner now (ok (checking o key existing at)) = (o ≡ owner) × (at ≡ now)
IsPendingFor clock owner now (ok (binding input)) =
    (normalize_owner input.owner ≡ ok owner) × (route_now clock input.now ≡ ok now)

module _ (date_parse : Text → Option ℤ) (clock : Text) (lookup : DeviceLookup) (s : Bindings) where
  bind_device-IsUsable :
      (input : BindSessionInput) (owner : WorkspaceIdentity) (now : Text) {b : SessionBindingRecord}
      → normalize_owner input.owner ≡ ok owner
      → route_now clock input.now ≡ ok now
      → (bind_device date_parse clock lookup input s).1 ≡ ok b
      → IsUsable date_parse now (lookup owner b.device_id)
  unfolding bind_device assert_device_routeable
  bind_device-IsUsable input owner now e n h = ground arith

  resolve_finish-IsUsable :
      (owner : WorkspaceIdentity) (now : Text) (pending : Pending) {b : SessionBindingRecord}
      → IsPendingFor clock owner now (ok pending)
      → (resolve_finish date_parse clock lookup pending s).1 ≡ ok b
      → IsUsable date_parse now (lookup owner b.device_id)
  unfolding resolve_finish assert_device_routeable
  resolve_finish-IsUsable owner now (checking o key existing at) p h = ground arith
  resolve_finish-IsUsable owner now (binding input) p h =
      bind_device-IsUsable input owner now p.0 p.1 h

-- `toISOString` gives a text that is not blank and has no blanks at its ends.
pub record IsStamp (clock : Text) : Type 0 where
  pub trimmed : trim clock ≡ clock
  pub given : truthy clock ≡ true

route_now_again :
    (clock now : Text) (given : Option Text)
    → IsStamp clock
    → route_now clock given ≡ ok now
    → route_now clock (some now) ≡ ok now
unfolding route_now normalize_optional_id
route_now_again clock now none stamp h = ground arith
route_now_again clock now (some t) stamp h = ground (arith, trim-trim t)

module _ (date_parse : Text → Option ℤ) (clock : Text) (lookup : DeviceLookup) (s : Bindings)
    (input : ResolveSessionInput) (owner : WorkspaceIdentity) (now : Text) (stamp : IsStamp clock)
    (e : normalize_owner input.owner ≡ ok owner) (n : route_now clock input.now ≡ ok now) where
  resolve_begin-IsPendingFor :
      IsPendingFor clock owner now (resolve_begin date_parse clock input s).1
  unfolding resolve_begin
  resolve_begin-IsPendingFor =
      ground
        (arith, normalize_owner_again input.owner e, route_now_again clock now input.now stamp n)

  -- A call of `resolveDevice` whose owner and instant parse and that returns names a device that the
  -- routing store knows for this owner, that is online and not expired at that instant.
  pub resolve_device-IsUsable :
      {b : SessionBindingRecord}
      → (resolve_device date_parse clock lookup input s).1 ≡ ok b
      → IsUsable date_parse now (lookup owner b.device_id)
  unfolding resolve_device
  resolve_device-IsUsable {b} h = elim (Result-cases (resolve_begin date_parse clock input s).1) [
    | inr (x, thrown) ↦ absurd (ground arith)
    | inl (waiting, begun) ↦
        resolve_finish-IsUsable date_parse clock lookup (resolve_begin date_parse clock input s).0
          owner now waiting {b = b}
          (subst (IsPendingFor clock owner now) begun resolve_begin-IsPendingFor) (ground arith)
  ]
