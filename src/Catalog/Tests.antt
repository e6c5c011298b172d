-- ===== src/Catalog/Tests.antt =====
-- A catalog that replaces an older one, one with an entry that has no reference, and the theorems
-- there.
use xautojs_devspace.Catalog.{
  CatalogRecord, CatalogStore, RecordCatalogInput, catalog_key_prefix, delete_prefix,
  normalize_catalog_entry, normalize_display_text, normalize_entries, put_records, record_catalog,
}
use xautojs_devspace.Catalog.Laws.{record_catalog-replaced}
use xautojs_devspace.Catalog.Stored.{IsOneOf, last_under}
use xautojs_devspace.Channel.Messages.{WorkspaceCatalogEntry}
use xautojs_devspace.Prelude.{All, [], false, map, none, refl, some, ◌++◌, ◌∷◌, ◌≡◌}
use xautojs_devspace.Prelude.JsMap.{Entries, get, put}
use xautojs_devspace.Prelude.Result.{err, ok}
use xautojs_devspace.Prelude.Text.{Text, slice_to, starts_with, text, text_eq, text_le, trim}
use xautojs_devspace.Routing.Contract.{
  WorkspaceIdentity, blank_error, normalize_optional_id, normalize_owner, normalize_required_id,
  owner_key, route_now, separator,
}
use xautojs_devspace.Routing.Contract.Capabilities.{normalize_capabilities}

cataloguing : Unit {0}
unfolding record_catalog normalize_entries normalize_catalog_entry normalize_display_text
    catalog_key_prefix delete_prefix put_records normalize_owner normalize_required_id
    normalize_optional_id normalize_capabilities route_now owner_key trim text get put text_eq
    text_le starts_with slice_to
cataloguing = tt

abbrev clock : Text
clock = text "2026-01-01T00:00:00.000Z"

abbrev ann : WorkspaceIdentity
ann = record { tenant_id = text "acme"; user_id = text "ann" }

abbrev entry : Text → WorkspaceCatalogEntry
entry ref = record {
  workspace_ref = ref;
  display_name = text " ";
  root_label = text "site";
  capabilities = [];
}

abbrev catalog : Text → RecordCatalogInput
catalog ref = record {
  owner = ann;
  device_id = text "laptop";
  catalog_version = none;
  workspaces = entry ref ∷ [];
  now = none;
}

abbrev recorded : Text → CatalogRecord
recorded ref = record {
  owner = ann;
  device_id = text "laptop";
  workspace_ref = ref;
  display_name = ref;
  root_label = text "site";
  capabilities = [];
  catalog_version = none;
  last_seen_at = clock;
}

abbrev prefix : Text
prefix =
    (text "acme" ++ (separator ∷ text "ann")) ++ (separator ∷ text "laptop" ++ (separator ∷ []))

abbrev store : CatalogStore
store = record { records = (prefix ++ text "old", recorded (text "old")) ∷ [] }

ann_parsed : normalize_owner ann ≡ ok ann
unfolding cataloguing
ann_parsed = refl

laptop_parsed : normalize_required_id (some (text "laptop")) "deviceId" ≡ ok (text "laptop")
unfolding cataloguing
laptop_parsed = refl

prefix_made : catalog_key_prefix ann (text "laptop") ≡ ok prefix
unfolding cataloguing
prefix_made = refl

replaces : (record_catalog clock (catalog (text "new")) store).1 ≡ ok (recorded (text "new") ∷ [])
unfolding cataloguing
replaces = refl

one_left :
    (record_catalog clock (catalog (text "new")) store).0.records
    ≡ (prefix ++ text "new", recorded (text "new")) ∷ []
unfolding cataloguing
one_left = refl

refused :
    (record_catalog clock (catalog (text " ")) store).1
    ≡ err (blank_error "workspaceRef" " is required.")
unfolding cataloguing
refused = refl

record_catalog-replaced_example :
    (map (λ (r : CatalogRecord). r.workspace_ref) (recorded (text "new") ∷ [])
      ≡ map (λ (w : WorkspaceCatalogEntry). trim w.workspace_ref) (catalog (text "new")).workspaces)
    × All
        (λ r.
          get
            (prefix ++ r.workspace_ref)
            (record_catalog clock (catalog (text "new")) store).0.records
          ≡ last_under r.workspace_ref (recorded (text "new") ∷ []))
        (recorded (text "new") ∷ [])
    × Entries
        (IsOneOf prefix (recorded (text "new") ∷ []))
        (record_catalog clock (catalog (text "new")) store).0.records
    × ((j : Text)
        → starts_with j prefix ≡ false
        → get j (record_catalog clock (catalog (text "new")) store).0.records ≡ get j store.records)
record_catalog-replaced_example =
    record_catalog-replaced clock (catalog (text "new")) store ann (text "laptop") prefix ann_parsed
      laptop_parsed prefix_made {given = recorded (text "new") ∷ []} replaces
