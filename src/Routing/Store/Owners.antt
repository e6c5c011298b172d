-- ===== src/Routing/Store/Owners.antt =====
-- Histories of callers whose tenant and user ids are free of the separator. Then an owner sees its
-- own devices only. (Routing/Crossing.antt has the other case.)
use xautojs_devspace.Prelude.{All, List, Option, [], arith, inl, inr, some, sym, ◌∙◌, ◌∷◌, ◌≡◌}
use xautojs_devspace.Prelude.Int.{ℤ}
use xautojs_devspace.Prelude.JsMap.{Entries, Entries-get, Entries-put, get}
use xautojs_devspace.Prelude.Result.{Result-cases, ok}
use xautojs_devspace.Prelude.Text.{Text, trim}
use xautojs_devspace.Prelude.Text.Laws.{All-trim}
use xautojs_devspace.Routing.Contract.{
  DeviceRecord, RegisterDeviceInput, SetDeviceStatusInput, WorkspaceIdentity, normalize_owner,
  normalize_required_id,
}
use xautojs_devspace.Routing.Contract.Laws.{
  IsNormalOwner, normalize_owner-IsNormalOwner, normalize_owner-eq-ok, normalize_required_id-eq-ok,
}
use xautojs_devspace.Routing.Keys.{IsPlainOwner, scoped_key_injective}
use xautojs_devspace.Routing.Store.{RoutingStore, empty, scoped_key}
use xautojs_devspace.Routing.Store.Frames.{
  bind_workspace_route-devices, complete_tool_call_route-devices, resolve_workspace_route-devices,
}
use xautojs_devspace.Routing.Store.History.{
  StoreCall, bind, complete, perform, register, resolve, run, run-IsKeyed, set_status,
}
use xautojs_devspace.Routing.Store.Keyed.{DeviceKeyed}
use xautojs_devspace.Routing.Store.Methods.{get_device, register_device, set_device_status}

-- The owner of a call, and whether its ids are free of the separator.
abbrev pub IsPlainCall : StoreCall → Type 0
IsPlainCall (register input) = IsPlainOwner input.owner
IsPlainCall (set_status input) = IsPlainOwner input.owner
IsPlainCall (bind input) = IsPlainOwner input.owner
IsPlainCall (resolve input) = IsPlainOwner input.owner
IsPlainCall (complete input) = IsPlainOwner input.owner

pub normalize_owner-IsPlainOwner :
    (owner : WorkspaceIdentity) {normal : WorkspaceIdentity}
    → normalize_owner owner ≡ ok normal
    → IsPlainOwner owner
    → IsPlainOwner normal
normalize_owner-IsPlainOwner owner h (t, u) =
    let (et, eu, _, _) = normalize_owner-eq-ok owner h in
    (rw et (All-trim _ owner.tenant_id t), rw eu (All-trim _ owner.user_id u))

-- An owner that is normal and plain.
pub IsTrusted : WorkspaceIdentity → Type 0
IsTrusted owner = IsNormalOwner owner × IsPlainOwner owner

normalize_owner-IsTrusted :
    (owner : WorkspaceIdentity) {normal : WorkspaceIdentity}
    → normalize_owner owner ≡ ok normal
    → IsPlainOwner owner
    → IsTrusted normal
unfolding IsTrusted
normalize_owner-IsTrusted owner h p =
    (normalize_owner-IsNormalOwner owner h, normalize_owner-IsPlainOwner owner h p)

abbrev pub Trusted : Text → DeviceRecord → Type 0
Trusted _ device = IsTrusted device.owner

module _ (date_parse : Text → Option ℤ) (clock : Text) (store : RoutingStore)
    (trusted : Entries Trusted store.devices) where
  register_device-Trusted :
      (input : RegisterDeviceInput)
      → IsPlainOwner input.owner
      → Entries Trusted (register_device clock input store).0.devices
  unfolding register_device
  register_device-Trusted input p = grind (arith, Entries-put, normalize_owner-IsTrusted)

  set_device_status-Trusted :
      (input : SetDeviceStatusInput)
      → Entries Trusted (set_device_status clock input store).0.devices
  unfolding set_device_status
  set_device_status-Trusted input = grind (arith, Entries-put, Entries-get)

  perform-Trusted :
      (call : StoreCall)
      → IsPlainCall call
      → Entries Trusted (perform date_parse clock call store).devices
  unfolding perform
  perform-Trusted (register input) p = register_device-Trusted input p
  perform-Trusted (set_status input) p = set_device_status-Trusted input
  perform-Trusted (bind input) p =
      rw (bind_workspace_route-devices date_parse clock store input) trusted
  perform-Trusted (resolve input) p =
      rw (resolve_workspace_route-devices date_parse clock store input) trusted
  perform-Trusted (complete input) p =
      rw (complete_tool_call_route-devices clock store input) trusted

-- What a device that `get_device` returns is stored under.
get_device-eq-some :
    (owner : WorkspaceIdentity) (id : Text) (store : RoutingStore) {device : DeviceRecord}
    → (get_device owner id store).1 ≡ ok (some device)
    → (normal : WorkspaceIdentity) × (key : Text) × (device_id : Text) × (normalize_owner owner
        ≡ ok normal)
      × (normalize_required_id (some id) "deviceId" ≡ ok device_id)
      × (scoped_key normal device_id ≡ ok key)
      × (get key store.devices ≡ some device)
unfolding get_device
get_device-eq-some owner id store h = elim (Result-cases (normalize_owner owner)) [
  | inr (x, e) ↦ absurd (ground arith)
  | inl (normal, e) ↦ elim (Result-cases (normalize_required_id (some id) "deviceId")) [
    | inr (x, i) ↦ absurd (ground arith)
    | inl (device_id, i) ↦ elim (Result-cases (scoped_key normal device_id)) [
      | inr (x, k) ↦ absurd (ground arith)
      | inl (key, k) ↦ (normal, key, device_id, e, i, k, ground arith)
    ]
  ]
]

same_key :
    (owner other : WorkspaceIdentity) {normal : WorkspaceIdentity} {i j key : Text}
    → normalize_owner owner ≡ ok normal
    → IsPlainOwner owner
    → IsTrusted other
    → scoped_key normal i ≡ ok key
    → scoped_key other j ≡ ok key
    → (normal ≡ other) × (i ≡ j)
unfolding IsTrusted
same_key owner other {normal} {i} {j} e plain (n, p) h k =
    scoped_key_injective normal other i j (normalize_owner-IsNormalOwner owner e) n
      (normalize_owner-IsPlainOwner owner e plain) p h k

module _ (date_parse : Text → Option ℤ) where
  run-Trusted :
      (calls : List (Text × StoreCall)) (store : RoutingStore)
      → All (λ c. IsPlainCall c.1) calls
      → Entries Trusted store.devices
      → Entries Trusted (run date_parse calls store).devices
  unfolding run
  run-Trusted [] store p t = t
  run-Trusted ((clock, call) ∷ rest) store (p, ps) t =
      run-Trusted rest (perform date_parse clock call store) ps
        (perform-Trusted date_parse clock store t call p)

  -- After any history of callers whose tenant and user ids are free of the separator, such a caller
  -- gets only a device that was registered for the same tenant and user under the id asked for,
  -- up to blanks at the ends.
  pub get_device-own :
      (calls : List (Text × StoreCall)) (owner : WorkspaceIdentity) (id : Text)
      {device : DeviceRecord}
      → All (λ c. IsPlainCall c.1) calls
      → IsPlainOwner owner
      → (get_device owner id (run date_parse calls empty)).1 ≡ ok (some device)
      → (device.owner.tenant_id ≡ trim owner.tenant_id)
        × (device.owner.user_id ≡ trim owner.user_id)
        × (device.device_id ≡ trim id)
  get_device-own calls owner id {device} plain own found =
      let (normal, key, device_id, e, i, k, g) = get_device-eq-some owner id _ found in
      let trusted : IsTrusted device.owner =
        Entries-get Trusted key _ (run-Trusted calls empty plain tt) g in
      let keyed = Entries-get DeviceKeyed key _ (run-IsKeyed date_parse calls).devices g in
      let (same_owner, same_id) = same_key owner device.owner e own trusted k keyed in
      let (t, u, _, _) = normalize_owner-eq-ok owner e in
      (cc, cc, sym same_id ∙ (normalize_required_id-eq-ok id "deviceId" i).0)
