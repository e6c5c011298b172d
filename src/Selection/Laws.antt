-- ===== src/Selection/Laws.antt =====
-- What `connectWorkspace` of src/cloud-workspace-selection-service.ts connects to.
use xautojs_devspace.Catalog.{CatalogRecord, CatalogStore, list_workspaces}
use xautojs_devspace.Prelude.{
  Bool-cases, In, List, [], ap, arith, inl, inr, none, some, subst, sym, ◌∙◌, ◌∷◌, ◌≡◌,
}
use xautojs_devspace.Prelude.Result.{Result-cases, ok}
use xautojs_devspace.Prelude.Text.{Text, text_eq, trim}
use xautojs_devspace.Prelude.Text.Laws.{eq_of_text_eq}
use xautojs_devspace.Routing.Contract.{ResolveSessionInput}
use xautojs_devspace.Selection.{
  ConnectInput, ConnectResult, ExecutionContext, SelectionHost, Services, bind_selected, connect,
  connect_on, connected, find_ref, require_catalog_entry,
}
use xautojs_devspace.Sessions.{resolve_device}
use xautojs_devspace.Sessions.Client.{lookup_in}

find_ref-In :
    (workspace_ref : Text) (rs : List CatalogRecord) {e : CatalogRecord}
    → find_ref workspace_ref rs ≡ some e
    → In e rs × (e.workspace_ref ≡ workspace_ref)
unfolding find_ref
find_ref-In workspace_ref [] {e} h = cc
find_ref-In workspace_ref (r ∷ rs) {e} h =
    elim (Bool-cases (text_eq r.workspace_ref workspace_ref)) [
      | inl here ↦
          let same : r ≡ e = ground arith in
          (inl (sym same), ap (λ x. x.workspace_ref) (sym same) ∙ eq_of_text_eq _ _ here)
      | inr other ↦ let (m, q) = find_ref-In workspace_ref rs {e = e} (ground arith) in (inr m, q)
    ]

module _ (host : SelectionHost) where
  -- The answer describes an entry of the catalog of the device it names, found by the reference
  -- that was asked for.
  pub record IsListed (context : ExecutionContext) (workspace_ref : Text) (catalog : CatalogStore)
      (r : ConnectResult) : Type 0 where
    pub entry : CatalogRecord
    pub entries : List CatalogRecord
    pub listed :
        (list_workspaces host.locale_compare context.owner r.device_id catalog).1 ≡ ok entries
    pub is_entry : In entry entries
    pub same_ref : entry.workspace_ref ≡ trim workspace_ref
    pub answered_ref : r.workspace_ref ≡ entry.workspace_ref
    pub answered_name : r.display_name ≡ entry.display_name
    pub answered_label : r.root_label ≡ entry.root_label

  require_catalog_entry-listed :
      (context : ExecutionContext) (device_id workspace_ref : Text) (s : Services)
      {e : CatalogRecord}
      → (require_catalog_entry host context device_id workspace_ref s).1 ≡ ok e
      → (rs : List CatalogRecord) × ((list_workspaces host.locale_compare context.owner device_id
            s.catalog).1
          ≡ ok rs)
        × In e rs
        × (e.workspace_ref ≡ trim workspace_ref)
  unfolding require_catalog_entry
  require_catalog_entry-listed context device_id workspace_ref s {e} h =
      elim (Result-cases
        (list_workspaces host.locale_compare context.owner device_id s.catalog).1) [
          | inr (x, thrown) ↦ absurd (ground arith)
          | inl (rs, listed) ↦
              let (m, q) = find_ref-In (trim workspace_ref) rs {e = e} (ground arith) in
              (rs, listed, m, q)
        ]

  bind_selected-answer :
      (clock uuid : Text) (context : ExecutionContext) (input : ConnectInput)
      (entry : CatalogRecord) (device_id workspace_id fingerprint : Text) (s : Services)
      {r : ConnectResult}
      → (bind_selected host clock uuid context input entry device_id workspace_id fingerprint s).1
        ≡ ok (connected r)
      → (r.device_id ≡ device_id)
        × (r.workspace_ref ≡ entry.workspace_ref)
        × (r.display_name ≡ entry.display_name)
        × (r.root_label ≡ entry.root_label)
  unfolding bind_selected
  bind_selected-answer clock uuid context input entry device_id workspace_id fingerprint s {r} h =
      ground arith

  connect_on-IsListed :
      (clock uuid : Text) (context : ExecutionContext) (input : ConnectInput) (device_id : Text)
      (s : Services) {r : ConnectResult}
      → (connect_on host clock uuid context input device_id s).1 ≡ ok (connected r)
      → IsListed context input.workspace_ref s.catalog r
  unfolding connect_on
  connect_on-IsListed clock uuid context input device_id s {r} h =
      elim (Result-cases (require_catalog_entry host context device_id input.workspace_ref s).1) [
        | inr (x, thrown) ↦ absurd (ground arith)
        | inl (entry, found) ↦
            let (rs, listed, m, same) =
              require_catalog_entry-listed context device_id input.workspace_ref s {e = entry}
                found in
            let answer : (r.device_id ≡ device_id)
                × (r.workspace_ref ≡ entry.workspace_ref)
                × (r.display_name ≡ entry.display_name)
                × (r.root_label ≡ entry.root_label) =
              grind (arith, bind_selected-answer) in
            record {
              entry = entry;
              entries = rs;
              listed =
                  subst
                    (λ d. (list_workspaces host.locale_compare context.owner d s.catalog).1 ≡ ok rs)
                    (sym answer.0) listed;
              is_entry = m;
              same_ref = same;
              answered_ref = answer.1;
              answered_name = answer.2;
              answered_label = answer.3;
            }
      ]

  abbrev pairing_input : ExecutionContext → ConnectInput → ResolveSessionInput
  pairing_input context input = record {
    owner = context.owner;
    mcp_session_id = context.mcp_session_id;
    conversation_session_id = context.conversation_session_id;
    device_id = input.device_id;
    now = none;
  }

  -- A call of `connectWorkspace` that connects, and does not replay, answers with the reference,
  -- the name and the label of an entry in the catalog of the device that it names, and that
  -- entry's reference is the one asked for, up to blanks at the ends.
  pub connect-IsListed :
      (clock uuid : Text) (context : ExecutionContext) (input : ConnectInput) (s : Services)
      {r : ConnectResult}
      → (connect host clock uuid context input s).1 ≡ ok (connected r)
      → IsListed context input.workspace_ref s.catalog r
  unfolding connect
  connect-IsListed clock uuid context input s {r} h =
      let pairing =
        resolve_device host.date_parse clock (lookup_in s.routing) (pairing_input context input)
          s.pairing in
      elim (Result-cases pairing.1) [
        | inr (x, thrown) ↦ absurd (ground arith)
        | inl (paired, bound) ↦
            connect_on-IsListed clock uuid context input paired.device_id
              (record s { pairing = pairing.0 }) {r = r} (ground arith)
      ]
