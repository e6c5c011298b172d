-- ===== src/Routing/Keys.antt =====
-- The keys that `scopedKey` of src/cloud-routing-store.ts builds, and when two of them are equal.
use mathlib.Core.List.{append_assoc}
use xautojs_devspace.Prelude.{All, [], ap, arith, refl, sym, ◌++◌, ◌∙◌, ◌∷◌, ◌≡◌, ◌≢◌}
use xautojs_devspace.Prelude.Result.{ok}
use xautojs_devspace.Prelude.Text.{Text}
use xautojs_devspace.Routing.Contract.{WorkspaceIdentity, owner_key, separator}
use xautojs_devspace.Routing.Contract.Laws.{IsNormalOwner, normalize_owner_of_IsNormalOwner}
use xautojs_devspace.Routing.Store.{scoped_key}

-- Text without the separator.
abbrev pub NoSeparator : Text → Type 0
NoSeparator = All (λ c. c ≢ separator)

pub append-separator_injective :
    (a b c d : Text)
    → NoSeparator a
    → NoSeparator c
    → a ++ (separator ∷ b) ≡ c ++ (separator ∷ d)
    → (a ≡ c) × (b ≡ d)
append-separator_injective [] b [] d p q e = (refl, cc)
append-separator_injective [] b (y ∷ c) d p q e = ground arith
append-separator_injective (x ∷ a) b [] d p q e = ground arith
append-separator_injective (x ∷ a) b (y ∷ c) d p q e =
    let (h, k) = append-separator_injective a b c d p.1 q.1 (ground arith) in (ground arith, k)

-- The key of an owner that is normal and of an id.
abbrev pub key_of : WorkspaceIdentity → Text → Text
key_of owner id = (owner.tenant_id ++ (separator ∷ owner.user_id)) ++ (separator ∷ id)

pub scoped_key_of_IsNormalOwner :
    (owner : WorkspaceIdentity) (id : Text)
    → IsNormalOwner owner
    → scoped_key owner id ≡ ok (key_of owner id)
unfolding scoped_key owner_key
scoped_key_of_IsNormalOwner owner id n = rw (normalize_owner_of_IsNormalOwner owner n)

-- Neither the tenant's id nor the user's has the separator in it.
abbrev pub IsPlainOwner : WorkspaceIdentity → Type 0
IsPlainOwner owner = NoSeparator owner.tenant_id × NoSeparator owner.user_id

pub key_of_injective :
    (o p : WorkspaceIdentity) (i j : Text)
    → IsPlainOwner o
    → IsPlainOwner p
    → key_of o i ≡ key_of p j
    → (o ≡ p) × (i ≡ j)
key_of_injective o p i j (ot, ou) (pt, pu) e =
    let (tenants, rest) =
      append-separator_injective o.tenant_id (o.user_id ++ (separator ∷ i)) p.tenant_id
        (p.user_id ++ (separator ∷ j)) ot pt
        (sym (append_assoc o.tenant_id (separator ∷ o.user_id) (separator ∷ i))
          ∙ e
          ∙ append_assoc p.tenant_id (separator ∷ p.user_id) (separator ∷ j)) in
    let (users, ids) = append-separator_injective o.user_id i p.user_id j ou pu rest in (cc, ids)

-- Two keys are equal only for the same owner and the same id, where the owners' ids are free of the
-- separator.
pub scoped_key_injective :
    (o p : WorkspaceIdentity) (i j : Text) {key : Text}
    → IsNormalOwner o
    → IsNormalOwner p
    → IsPlainOwner o
    → IsPlainOwner p
    → scoped_key o i ≡ ok key
    → scoped_key p j ≡ ok key
    → (o ≡ p) × (i ≡ j)
scoped_key_injective o p i j normal_o normal_p po pp h k =
    key_of_injective o p i j po pp
      (cc (scoped_key_of_IsNormalOwner o i normal_o, scoped_key_of_IsNormalOwner p j normal_p))

-- The owner (t, u\x1fx) with the id d has the key of the owner (t, u) with the id x\x1fd.
pub scoped_key_collision :
    (tenant user extra id : Text)
    → IsNormalOwner (record { tenant_id = tenant; user_id = user })
    → IsNormalOwner (record { tenant_id = tenant; user_id = user ++ (separator ∷ extra) })
    → scoped_key (record { tenant_id = tenant; user_id = user ++ (separator ∷ extra) }) id
      ≡ scoped_key (record { tenant_id = tenant; user_id = user }) (extra ++ (separator ∷ id))
scoped_key_collision tenant user extra id n m =
    scoped_key_of_IsNormalOwner _ id m
    ∙ ap ok (simp append_assoc)
    ∙ sym (scoped_key_of_IsNormalOwner _ (extra ++ (separator ∷ id)) n)
