-- ===== src/Catalog/Laws.antt =====
-- What recording a catalog of src/cloud-workspace-catalog-store.ts writes and what it leaves.
use xautojs_devspace.Catalog.{
  CatalogContext, CatalogRecord, CatalogStore, RecordCatalogInput, catalog_key_prefix,
  delete_prefix, normalize_catalog_entry, normalize_entries, put_records, record_catalog,
}
use xautojs_devspace.Catalog.Stored.{
  All-stored, IsOneOf, get-delete_prefix, get-put_records, last_under, put_records-IsOneOf,
}
use xautojs_devspace.Channel.Messages.{WorkspaceCatalogEntry}
use xautojs_devspace.Prelude.{All, List, [], arith, false, inl, inr, map, some, ◌++◌, ◌∙◌, ◌∷◌, ◌≡◌}
use xautojs_devspace.Prelude.JsMap.{Entries, get}
use xautojs_devspace.Prelude.Result.{Result-cases, err, ok}
use xautojs_devspace.Prelude.Text.{Text, starts_with, trim}
use xautojs_devspace.Routing.Contract.{
  RoutingError, WorkspaceIdentity, normalize_owner, normalize_required_id,
}

normalize_catalog_entry-ref :
    (context : CatalogContext) (w : WorkspaceCatalogEntry) {r : CatalogRecord}
    → normalize_catalog_entry context w ≡ ok r
    → r.workspace_ref ≡ trim w.workspace_ref
unfolding normalize_catalog_entry normalize_required_id
normalize_catalog_entry-ref context w {r} h = ground arith

normalize_entries-refs :
    (context : CatalogContext) (ws : List WorkspaceCatalogEntry) {rs : List CatalogRecord}
    → normalize_entries context ws ≡ ok rs
    → map (λ (r : CatalogRecord). r.workspace_ref) rs
      ≡ map (λ (w : WorkspaceCatalogEntry). trim w.workspace_ref) ws
unfolding normalize_entries map
normalize_entries-refs context [] {rs} h = ground arith
normalize_entries-refs context (w ∷ ws) {rs} h =
    elim (Result-cases (normalize_catalog_entry context w)) [
      | inr (e, refused) ↦ absurd (ground arith)
      | inl (r, made) ↦ elim (Result-cases (normalize_entries context ws)) [
        | inr (e, refused) ↦ absurd (ground arith)
        | inl (others, rest) ↦ ground (
          arith,
          normalize_catalog_entry-ref context w {r = r} made,
          normalize_entries-refs context ws {rs = others} rest,
        )
      ]
    ]

module _ (clock : Text) (input : RecordCatalogInput) (s : CatalogStore) where
  -- A catalog that is refused, for an id, an entry or an instant that does not parse, leaves the
  -- store as it was.
  pub record_catalog-err :
      {e : RoutingError}
      → (record_catalog clock input s).1 ≡ err e
      → (record_catalog clock input s).0 ≡ s
  unfolding record_catalog
  record_catalog-err {e} h = ground arith

  module _ (owner : WorkspaceIdentity) (device_id prefix : Text)
      (o : normalize_owner input.owner ≡ ok owner)
      (d : normalize_required_id (some input.device_id) "deviceId" ≡ ok device_id)
      (p : catalog_key_prefix owner device_id ≡ ok prefix) where
    written :
        {given : List CatalogRecord}
        → (record_catalog clock input s).1 ≡ ok given
        → (record_catalog clock input s).0.records
          ≡ put_records prefix given (delete_prefix prefix s.records)
    unfolding record_catalog
    written {given} h = ground arith

    normalized_refs :
        {given : List CatalogRecord}
        → (record_catalog clock input s).1 ≡ ok given
        → map (λ (r : CatalogRecord). r.workspace_ref) given
          ≡ map (λ (w : WorkspaceCatalogEntry). trim w.workspace_ref) input.workspaces
    unfolding record_catalog
    normalized_refs {given} h = grind (arith, normalize_entries-refs)

    -- A catalog that is recorded has a record for each entry that is given, in their order and under
    -- their trimmed references, and replaces the whole catalog of its owner and device: under the key
    -- of each such record stands the last of them with this reference, of the keys with the prefix
    -- there are only such records, and no other key changes.
    pub record_catalog-replaced :
        {given : List CatalogRecord}
        → (record_catalog clock input s).1 ≡ ok given
        → (map (λ (r : CatalogRecord). r.workspace_ref) given
            ≡ map (λ (w : WorkspaceCatalogEntry). trim w.workspace_ref) input.workspaces)
          × All
              (λ r.
                get (prefix ++ r.workspace_ref) (record_catalog clock input s).0.records
                ≡ last_under r.workspace_ref given)
              given
          × Entries (IsOneOf prefix given) (record_catalog clock input s).0.records
          × ((j : Text)
              → starts_with j prefix ≡ false
              → get j (record_catalog clock input s).0.records ≡ get j s.records)
    record_catalog-replaced {given} h = rw (written h) (
      normalized_refs h,
      All-stored prefix given (delete_prefix prefix s.records),
      put_records-IsOneOf prefix given s.records,
      λ j other.
          get-put_records prefix j given (delete_prefix prefix s.records) other
          ∙ get-delete_prefix prefix j s.records other,
    )
