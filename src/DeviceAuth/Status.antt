-- ===== src/DeviceAuth/Status.antt =====
-- How the record of a device code may change: src/cloud-device-code-auth.ts. An authorization goes
-- from pending to approved or denied, and from approved to denied, never back; once it is settled
-- its owner and its device stay.
use xautojs_devspace.DeviceAuth.{
  AuthorizationRecord, AuthorizationStatus, Authorizations, Host, approved, denied,
  get_by_device_code, get_by_user_code, pending, write_record,
}
use xautojs_devspace.DeviceAuth.Service.{is_approved, is_given}
use xautojs_devspace.Prelude.{
  Bool-cases, Option, Option-cases, ap, arith, false, inl, inr, none, not, refl, some, subst, sym,
  ℕ, ◌&&◌, ◌∙◌, ◌≡◌, ◌≤◌, ◌⊎◌,
}
use xautojs_devspace.Prelude.JsMap.{Entries, Entries-get, Entries-put, get, get-put}
use xautojs_devspace.Prelude.Text.{Text, text_eq, truthy}
use xautojs_devspace.Prelude.Text.Laws.{eq_of_text_eq}

abbrev pub rank : AuthorizationStatus → ℕ
rank pending = 0
rank approved = 1
rank denied = 2

pub record Progress (r u : AuthorizationRecord) : Type 0 where
  pub same_code : u.device_code ≡ r.device_code
  pub same_user_code : u.user_code ≡ r.user_code
  pub same_expiry : u.expires_at ≡ r.expires_at
  pub same_interval : u.interval_seconds ≡ r.interval_seconds
  pub forward : rank r.status ≤ rank u.status
  pub settled :
      (r.status ≡ pending)
      ⊎ (u.owner ≡ r.owner)
        × (u.device_id ≡ r.device_id)
        × (u.desktop_instance_id ≡ r.desktop_instance_id)

pub Progress-refl : (r : AuthorizationRecord) → Progress r r
Progress-refl r = ground arith

pub Progress-trans : (r e u : AuthorizationRecord) → Progress r e → Progress e u → Progress r u
Progress-trans r e u p q = ground arith

-- Each record stands under its own device code, and one that is approved has an owner.
abbrev pub IsOwnedWhenApproved : AuthorizationRecord → Type 0
IsOwnedWhenApproved r = is_approved r.status && not (is_given r.owner) ≡ false

abbrev pub Sound : Text → AuthorizationRecord → Type 0
Sound key r = (r.device_code ≡ key) × IsOwnedWhenApproved r

abbrev pub Progressed : AuthorizationRecord → Option AuthorizationRecord → Type 0
Progressed r none = ⊥
Progressed r (some u) = Progress r u

-- The store is sound, and the record `r` that stood under `key` has only gone forward.
pub record Since (key : Text) (r : AuthorizationRecord) (s : Authorizations) : Type 0 where
  pub sound : Entries Sound s.by_device_code
  pub progressed : Progressed r (get key s.by_device_code)

-- A record of the store.
pub record IsStored (e : AuthorizationRecord) (s : Authorizations) : Type 0 where
  pub stored : get e.device_code s.by_device_code ≡ some e
  pub owned : IsOwnedWhenApproved e

pub get_by_device_code-IsStored :
    (code : Text) (s : Authorizations) {e : AuthorizationRecord}
    → Entries Sound s.by_device_code
    → get_by_device_code code s ≡ some e
    → IsStored e s
unfolding get_by_device_code
get_by_device_code-IsStored code s {e} h found =
    let (same, owned) = Entries-get Sound code s.by_device_code h found in
    record { stored = simp same found; owned = owned }

pub get_by_user_code-IsStored :
    (host : Host) (code : Text) (s : Authorizations) {e : AuthorizationRecord}
    → Entries Sound s.by_device_code
    → get_by_user_code host code s ≡ some e
    → IsStored e s
unfolding get_by_user_code
get_by_user_code-IsStored host code s {e} h found =
    elim (Option-cases (get (host.to_upper_case code) s.by_user_code)) [
      | inl missing ↦ absurd (ground arith)
      | inr (device_code, known) ↦ elim (Bool-cases (truthy device_code)) [
        | inr falsy ↦ absurd (ground arith)
        | inl given ↦ get_by_device_code-IsStored device_code s h (ground arith)
      ]
    ]

write_record-Progressed :
    (key : Text) (r : AuthorizationRecord) (s : Authorizations) (e u : AuthorizationRecord)
    → Progressed r (get key s.by_device_code)
    → get e.device_code s.by_device_code ≡ some e
    → Progress e u
    → Progressed r (get key (write_record u s).by_device_code)
unfolding write_record
write_record-Progressed key r s e u h stored p =
    rw (get-put u.device_code key u s.by_device_code)
      (elim (Bool-cases (text_eq u.device_code key)) [
        | inr other ↦ rw other h
        | inl same ↦
            let here : get key s.by_device_code ≡ some e =
              ap (λ k. get k s.by_device_code)
                (sym (eq_of_text_eq u.device_code key same) ∙ p.same_code)
              ∙ stored in
            rw same (Progress-trans r e u (subst (Progressed r) here h) p)
      ])

-- Writing a record that goes forward from the one that is stored.
pub write_record-Since :
    (key : Text) (r : AuthorizationRecord) (s : Authorizations) (e u : AuthorizationRecord)
    → Since key r s
    → IsStored e s
    → Progress e u
    → IsOwnedWhenApproved u
    → Since key r (write_record u s)
unfolding write_record
write_record-Since key r s e u since stored p owned = record {
  sound = Entries-put Sound u.device_code u s.by_device_code (refl, owned) since.sound;
  progressed = write_record-Progressed key r s e u since.progressed stored.stored p;
}
