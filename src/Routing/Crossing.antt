-- ===== src/Routing/Crossing.antt =====
-- Owners whose ids hold the separator: `scopedKey` of src/cloud-routing-store.ts gives them the key
-- of another owner.
use mathlib.Core.List.{append_assoc}
use xautojs_devspace.Prelude.{[], arith, refl, some, subst, true, ℕ, ◌++◌, ◌∷◌, ◌≡◌}
use xautojs_devspace.Prelude.JsMap.{get, get-put}
use xautojs_devspace.Prelude.Result.{ok}
use xautojs_devspace.Prelude.Text.{Text, trim, truthy}
use xautojs_devspace.Prelude.Text.Laws.{text_eq_refl}
use xautojs_devspace.Routing.Contract.{DeviceRecord, RegisterDeviceInput, separator}
use xautojs_devspace.Routing.Contract.Laws.{
  IsNormalOwner, normalize_owner_of_IsNormalOwner, normalize_required_id_of_trimmed,
}
use xautojs_devspace.Routing.Keys.{key_of, scoped_key_of_IsNormalOwner}
use xautojs_devspace.Routing.Store.{RoutingStore}
use xautojs_devspace.Routing.Store.Methods.{get_device, register_device}

truthy-append : (a b : Text) (c : ℕ) → truthy (a ++ (c ∷ b)) ≡ true
truthy-append [] b c = refl
truthy-append (x ∷ a) b c = refl

-- A registration that returns has stored the device that it returns under the key of its owner.
pub register_device-stored :
    (clock : Text) (input : RegisterDeviceInput) (store : RoutingStore) {device : DeviceRecord}
    → IsNormalOwner input.owner
    → (register_device clock input store).1 ≡ ok device
    → (device.owner ≡ input.owner)
      × (get (key_of input.owner device.device_id) (register_device clock input store).0.devices
          ≡ some device)
unfolding register_device
register_device-stored clock input store n h = grind (
  arith,
  get-put,
  text_eq_refl,
  normalize_owner_of_IsNormalOwner input.owner n,
  λ (id : Text). scoped_key_of_IsNormalOwner input.owner id n,
)

module _ (tenant user extra id : Text) (store : RoutingStore) (device : DeviceRecord) where
  get_device_at_key :
      IsNormalOwner (record { tenant_id = tenant; user_id = user })
      → trim (extra ++ (separator ∷ id)) ≡ extra ++ (separator ∷ id)
      → get
          (key_of (record { tenant_id = tenant; user_id = user }) (extra ++ (separator ∷ id)))
          store.devices
        ≡ some device
      → (get_device
          (record { tenant_id = tenant; user_id = user })
          (extra ++ (separator ∷ id))
          store).1
        ≡ ok (some device)
  unfolding get_device
  get_device_at_key n t e = ground (
    arith,
    normalize_owner_of_IsNormalOwner (record { tenant_id = tenant; user_id = user }) n,
    normalize_required_id_of_trimmed (extra ++ (separator ∷ id)) "deviceId" t
        (truthy-append extra id separator),
    scoped_key_of_IsNormalOwner (record { tenant_id = tenant; user_id = user })
        (extra ++ (separator ∷ id)) n,
  )

-- After the owner (t, u\x1fx) has registered a device with the id d, the owner (t, u) gets that
-- device by asking for the id x\x1fd, where the owners and that id are trimmed.
pub get_device_crosses :
    (clock tenant user extra : Text) (input : RegisterDeviceInput) (store : RoutingStore)
    (device : DeviceRecord)
    → input.owner ≡ record { tenant_id = tenant; user_id = user ++ (separator ∷ extra) }
    → IsNormalOwner input.owner
    → IsNormalOwner (record { tenant_id = tenant; user_id = user })
    → trim (extra ++ (separator ∷ device.device_id)) ≡ extra ++ (separator ∷ device.device_id)
    → (register_device clock input store).1 ≡ ok device
    → (get_device
        (record { tenant_id = tenant; user_id = user })
        (extra ++ (separator ∷ device.device_id))
        (register_device clock input store).0).1
      ≡ ok (some device)
get_device_crosses clock tenant user extra input store device e holder reader trimmed h =
    get_device_at_key tenant user extra device.device_id (register_device clock input store).0
      device reader trimmed
      (subst (λ (k : Text). get k (register_device clock input store).0.devices ≡ some device)
        (rw e (simp append_assoc)) (register_device-stored clock input store holder h).1)
