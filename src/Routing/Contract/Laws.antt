-- ===== src/Routing/Contract/Laws.antt =====
-- What the normalisation of identifiers in src/cloud-routing-contract.ts establishes.
use xautojs_devspace.Prelude.{String, arith, some, true, ◌≡◌}
use xautojs_devspace.Prelude.Result.{ok}
use xautojs_devspace.Prelude.Text.{Text, trim, truthy}
use xautojs_devspace.Prelude.Text.Laws.{trim-trim}
use xautojs_devspace.Routing.Contract.{WorkspaceIdentity, normalize_owner, normalize_required_id}

-- A required identifier is accepted exactly when something is left of it after trimming.
pub normalize_required_id-eq-ok :
    (value : Text) (name : String) {id : Text}
    → normalize_required_id (some value) name ≡ ok id
    → (id ≡ trim value) × (truthy id ≡ true)
unfolding normalize_required_id
normalize_required_id-eq-ok value name h = ground arith

pub normalize_required_id_of_trimmed :
    (value : Text) (name : String)
    → trim value ≡ value
    → truthy value ≡ true
    → normalize_required_id (some value) name ≡ ok value
unfolding normalize_required_id
normalize_required_id_of_trimmed value name h k = ground arith

-- Normalising an identifier that was normalised changes nothing, under whatever name.
pub normalize_required_id_again :
    (value : Text) (name other : String) {id : Text}
    → normalize_required_id (some value) name ≡ ok id
    → normalize_required_id (some id) other ≡ ok id
normalize_required_id_again value name other h =
    let (e, t) = normalize_required_id-eq-ok value name h in
    normalize_required_id_of_trimmed _ other (rw e (trim-trim value)) t

pub normalize_owner-eq-ok :
    (owner : WorkspaceIdentity) {normal : WorkspaceIdentity}
    → normalize_owner owner ≡ ok normal
    → (normal.tenant_id ≡ trim owner.tenant_id)
      × (normal.user_id ≡ trim owner.user_id)
      × (truthy normal.tenant_id ≡ true)
      × (truthy normal.user_id ≡ true)
unfolding normalize_owner normalize_required_id
normalize_owner-eq-ok owner h = ground arith

-- An owner as `normalize_owner` returns it.
pub record IsNormalOwner (owner : WorkspaceIdentity) : Type 0 where
  pub tenant_trimmed : trim owner.tenant_id ≡ owner.tenant_id
  pub user_trimmed : trim owner.user_id ≡ owner.user_id
  pub tenant_given : truthy owner.tenant_id ≡ true
  pub user_given : truthy owner.user_id ≡ true

pub normalize_owner-IsNormalOwner :
    (owner : WorkspaceIdentity) {normal : WorkspaceIdentity}
    → normalize_owner owner ≡ ok normal
    → IsNormalOwner normal
normalize_owner-IsNormalOwner owner h =
    let (t, u, gt, gu) = normalize_owner-eq-ok owner h in
    record {
      tenant_trimmed = rw t (trim-trim owner.tenant_id);
      user_trimmed = rw u (trim-trim owner.user_id);
      tenant_given = gt;
      user_given = gu;
    }

pub normalize_owner_of_IsNormalOwner :
    (owner : WorkspaceIdentity) → IsNormalOwner owner → normalize_owner owner ≡ ok owner
unfolding normalize_owner
normalize_owner_of_IsNormalOwner owner n = ground (
  arith,
  normalize_required_id_of_trimmed owner.tenant_id "owner.tenantId",
  normalize_required_id_of_trimmed owner.user_id "owner.userId",
)

-- An owner that was normalised is not changed by normalising it again.
pub normalize_owner_again :
    (owner : WorkspaceIdentity) {normal : WorkspaceIdentity}
    → normalize_owner owner ≡ ok normal
    → normalize_owner normal ≡ ok normal
normalize_owner_again owner h =
    normalize_owner_of_IsNormalOwner _ (normalize_owner-IsNormalOwner owner h)
