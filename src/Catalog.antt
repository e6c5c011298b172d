-- ===== src/Catalog.antt =====
-- src/cloud-workspace-catalog-store.ts: `InMemoryCloudWorkspaceCatalogStore`, which workspaces each
-- device offers. `localeCompare` is an argument.
pub mod Stored
pub mod Laws
mod Tests
use xautojs_devspace.Prelude.Result
use xautojs_devspace.Channel.Messages.{WorkspaceCatalogEntry}
use xautojs_devspace.Prelude.{List, Option, [], if◌then◌else◌, some, ◌&&◌, ◌++◌, ◌∷◌}
use xautojs_devspace.Prelude.Int.{leb_ℤ, pos, ℤ}
use xautojs_devspace.Prelude.JsMap.{JsMap, put}
use xautojs_devspace.Prelude.Result.{Result, ok}
use xautojs_devspace.Prelude.State.{Method, gets, lift, modify, pure, ◌>>=◌, ◌>>◌}
use xautojs_devspace.Prelude.Text.{Text, slice_to, starts_with, trim, truthy}
use xautojs_devspace.Routing.Contract.{
  RoutingError, WorkspaceIdentity, normalize_optional_id, normalize_owner, normalize_required_id,
  owner_key, route_now, separator,
}
use xautojs_devspace.Routing.Contract.Capabilities.{normalize_capabilities}

pub record CatalogRecord : Type 0 where
  pub owner : WorkspaceIdentity
  pub device_id : Text
  pub workspace_ref : Text
  pub display_name : Text
  pub root_label : Text
  pub capabilities : List Text
  pub catalog_version : Option Text
  pub last_seen_at : Text

pub record RecordCatalogInput : Type 0 where
  pub owner : WorkspaceIdentity
  pub device_id : Text
  pub catalog_version : Option Text
  pub workspaces : List WorkspaceCatalogEntry
  pub now : Option Text

-- What `normalizeWorkspaceCatalogEntry` is given besides the entry.
pub record CatalogContext : Type 0 where
  pub owner : WorkspaceIdentity
  pub device_id : Text
  pub catalog_version : Option Text
  pub last_seen_at : Text

pub record CatalogStore : Type 0 where
  pub records : JsMap CatalogRecord

abbrev pub CatalogMethod : Type 0 → Type 0
CatalogMethod A = Method CatalogStore RoutingError A

unfoldable pub catalog_key_prefix : WorkspaceIdentity → Text → Result RoutingError Text
unfolding owner_key
catalog_key_prefix owner device_id =
    Result.◌>>=◌ (owner_key owner) λ key. ok (key ++ (separator ∷ device_id ++ (separator ∷ [])))

unfoldable pub catalog_key : WorkspaceIdentity → Text → Text → Result RoutingError Text
unfolding catalog_key_prefix
catalog_key owner device_id workspace_ref =
    Result.◌>>=◌ (catalog_key_prefix owner device_id) λ prefix. ok (prefix ++ workspace_ref)

unfoldable pub normalize_display_text : Text → Text → Text
unfolding trim slice_to
normalize_display_text value fallback =
    let trimmed : Text = trim value in if truthy trimmed then slice_to 200 trimmed else fallback

unfoldable pub normalize_catalog_entry :
    CatalogContext → WorkspaceCatalogEntry → Result RoutingError CatalogRecord
unfolding normalize_display_text
normalize_catalog_entry context input =
    Result.◌>>=◌ (normalize_required_id (some input.workspace_ref) "workspaceRef") λ workspace_ref.
      let display_name : Text = normalize_display_text input.display_name workspace_ref in
      let root_label : Text = normalize_display_text input.root_label display_name in
      Result.◌>>=◌ (normalize_capabilities (some input.capabilities)) λ capabilities. ok (record {
        owner = context.owner;
        device_id = context.device_id;
        workspace_ref = workspace_ref;
        display_name = display_name;
        root_label = root_label;
        capabilities = capabilities;
        catalog_version = context.catalog_version;
        last_seen_at = context.last_seen_at;
      })

-- `input.workspaces.map(…)`: the first entry that throws ends it.
unfoldable pub normalize_entries :
    CatalogContext → List WorkspaceCatalogEntry → Result RoutingError (List CatalogRecord)
unfolding normalize_catalog_entry
normalize_entries context [] = ok []
normalize_entries context (entry ∷ rest) =
    Result.◌>>=◌ (normalize_catalog_entry context entry)
      λ normalized. Result.◌>>=◌ (normalize_entries context rest) λ others. ok (normalized ∷ others)

-- `for (const key of this.records.keys()) if (key.startsWith(prefix)) this.records.delete(key)`
unfoldable pub delete_prefix : Text → JsMap CatalogRecord → JsMap CatalogRecord
unfolding starts_with
delete_prefix prefix [] = []
delete_prefix prefix ((k, r) ∷ m) =
    let rest = delete_prefix prefix m in if starts_with k prefix then rest else (k, r) ∷ rest

-- The loop that sets the records; `prefix ++ ref` is `catalogKey(owner, deviceId, ref)`.
unfoldable pub put_records : Text → List CatalogRecord → JsMap CatalogRecord → JsMap CatalogRecord
put_records prefix [] m = m
put_records prefix (r ∷ rs) m = put_records prefix rs (put (prefix ++ r.workspace_ref) r m)

-- `[...entries].filter(([key]) => key.startsWith(prefix)).map(([, record]) => …)`
unfoldable pub with_prefix : Text → JsMap CatalogRecord → List CatalogRecord
unfolding starts_with
with_prefix prefix [] = []
with_prefix prefix ((k, r) ∷ m) =
    let rest = with_prefix prefix m in if starts_with k prefix then r ∷ rest else rest

unfoldable pub record_catalog : Text → RecordCatalogInput → CatalogMethod (List CatalogRecord)
record_catalog clock input = do
  owner ← lift (normalize_owner input.owner)
  device_id ← lift (normalize_required_id (some input.device_id) "deviceId")
  catalog_version ← lift (normalize_optional_id input.catalog_version "catalogVersion")
  last_seen_at ← lift (route_now clock input.now)
  let context : CatalogContext = record {
    owner = owner;
    device_id = device_id;
    catalog_version = catalog_version;
    last_seen_at = last_seen_at;
  }
  normalized ← lift (normalize_entries context input.workspaces)
  prefix ← lift (catalog_key_prefix owner device_id)
  modify λ s. record s { records = put_records prefix normalized (delete_prefix prefix s.records) }
  pure normalized

unfoldable pub clear_device_catalog : WorkspaceIdentity → Text → CatalogMethod (Unit {0})
clear_device_catalog owner_input device_id_input = do
  owner ← lift (normalize_owner owner_input)
  device_id ← lift (normalize_required_id (some device_id_input) "deviceId")
  prefix ← lift (catalog_key_prefix owner device_id)
  modify λ s. record s { records = delete_prefix prefix s.records }

module _ (locale_compare : Text → Text → ℤ) where
  -- `left.displayName.localeCompare(right.displayName) || left.workspaceRef.localeCompare(…)`
  compare_records : CatalogRecord → CatalogRecord → ℤ
  compare_records left right =
      let by_name : ℤ = locale_compare left.display_name right.display_name in
      if leb_ℤ by_name (pos 0) && leb_ℤ (pos 0) by_name
      then locale_compare left.workspace_ref right.workspace_ref
      else by_name

  insert_record : CatalogRecord → List CatalogRecord → List CatalogRecord
  unfolding compare_records
  insert_record r [] = r ∷ []
  insert_record r (x ∷ xs) =
      let rest = insert_record r xs in
      if leb_ℤ (compare_records r x) (pos 0) then r ∷ x ∷ xs else x ∷ rest

  -- A stable sort.
  unfoldable pub sort_records : List CatalogRecord → List CatalogRecord
  unfolding insert_record
  sort_records [] = []
  sort_records (r ∷ rs) = insert_record r (sort_records rs)

  unfoldable pub list_workspaces : WorkspaceIdentity → Text → CatalogMethod (List CatalogRecord)
  unfolding sort_records
  list_workspaces owner_input device_id_input = do
    owner ← lift (normalize_owner owner_input)
    device_id ← lift (normalize_required_id (some device_id_input) "deviceId")
    prefix ← lift (catalog_key_prefix owner device_id)
    gets λ s. sort_records (with_prefix prefix s.records)
