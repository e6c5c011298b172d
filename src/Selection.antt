-- ===== src/Selection.antt =====
-- src/cloud-workspace-selection-service.ts: `CloudWorkspaceSelectionService`, which connects an MCP
-- session to a workspace of its device's catalog, over the pairing service, the routing store, the
-- catalog and the audit store. The stamps of one call are taken at one instant, `clock`.
pub mod Laws
mod Tests
use xautojs_devspace.Audit.{
  AuditEvent, AuditStore, RecordEventInput, connect_workspace, find_idempotency, record_event,
  record_idempotency, succeeded,
}
use xautojs_devspace.Catalog.{CatalogRecord, CatalogStore, list_workspaces}
use xautojs_devspace.Prelude.{List, Option, [], get_or, if◌then◌else◌, none, not, some, ◌++◌, ◌∷◌}
use xautojs_devspace.Prelude.Int.{ℤ}
use xautojs_devspace.Prelude.Result.{err, ok}
use xautojs_devspace.Prelude.State.{Method, gets, or_throw, pure, throw_if, ◌>>=◌, ◌>>◌}
use xautojs_devspace.Prelude.Text.{Text, option_text_eq, slice_to, text, text_eq, trim, truthy}
use xautojs_devspace.Routing.Contract.{
  RoutingError, WorkspaceIdentity, WorkspaceRouteRecord, blank_error, routing_error,
  tool_call_conflict, workspace_not_found,
}
use xautojs_devspace.Routing.Store.{RoutingStore}
use xautojs_devspace.Routing.Store.Methods.{bind_workspace_route}
use xautojs_devspace.Sessions.{Bindings, resolve_device}
use xautojs_devspace.Sessions.Client.{lookup_in}

-- `DevspaceToolExecutionContext`, as far as it is read.
pub record ExecutionContext : Type 0 where
  pub owner : WorkspaceIdentity
  pub mcp_session_id : Text
  pub conversation_session_id : Option Text

pub record ConnectInput : Type 0 where
  pub workspace_ref : Text
  pub device_id : Option Text
  pub workspace_id : Option Text
  pub idempotency_key : Option Text
  pub expires_at : Option Text

-- `idempotentReplay` is in `ConnectAnswer`.
pub record ConnectResult : Type 0 where
  pub workspace_id : Text
  pub workspace_ref : Text
  pub device_id : Text
  pub display_name : Text
  pub root_label : Text
  pub capabilities : List Text
  pub route : WorkspaceRouteRecord
  pub idempotency_key : Option Text

-- `replayed r` is `{ ...r, idempotentReplay: true }`.
pub data ConnectAnswer : Type 0 where
  connected : ConnectResult → ConnectAnswer
  replayed : Option ConnectResult → ConnectAnswer

-- The four services, the audit store where there is one.
pub record Services : Type 0 where
  pub pairing : Bindings
  pub routing : RoutingStore
  pub catalog : CatalogStore
  pub audit : Option (AuditStore ConnectResult)

-- `Date.parse`, `localeCompare`, `JSON.stringify` of a string, and the sha256 digest in base64url.
pub record SelectionHost : Type 0 where
  pub date_parse : Text → Option ℤ
  pub locale_compare : Text → Text → ℤ
  pub json_string : Text → Text
  pub digest : Text → Text

abbrev pub ServicesMethod : Type 0 → Type 0
ServicesMethod A = Method Services RoutingError A

-- A method of one service, among the four.
on_pairing : {A : Type 0} → Method Bindings RoutingError A → ServicesMethod A
on_pairing m s = let (t, r) = m s.pairing in (record s { pairing = t }, r)

on_routing : {A : Type 0} → Method RoutingStore RoutingError A → ServicesMethod A
on_routing m s = let (t, r) = m s.routing in (record s { routing = t }, r)

on_catalog : {A : Type 0} → Method CatalogStore RoutingError A → ServicesMethod A
on_catalog m s = let (t, r) = m s.catalog in (record s { catalog = t }, r)

-- `this.auditStore?.…`
on_audit :
    {A : Type 0} → Method (AuditStore ConnectResult) RoutingError A → ServicesMethod (Option A)
on_audit m s = elim s.audit [
  | none ↦ (s, ok none)
  | some log ↦
      let (t, r) = m log in
      (record s { audit = some t }, elim r [ ok a ↦ ok (some a) | err e ↦ err e ])
]

-- `workspaces.find(…)`
unfoldable pub find_ref : Text → List CatalogRecord → Option CatalogRecord
unfolding text_eq
find_ref workspace_ref [] = none
find_ref workspace_ref (r ∷ rs) =
    let rest = find_ref workspace_ref rs in
    if text_eq r.workspace_ref workspace_ref then some r else rest

module _ (host : SelectionHost) where
  open host use {date_parse, locale_compare, json_string, digest}

  -- `stableControlPlaneFingerprint` of an object of strings, in the order of their names; the
  -- entries that are undefined are left out.
  json_entries : List (Text × Option Text) → List Text
  json_entries [] = []
  json_entries ((name, none) ∷ rest) = json_entries rest
  json_entries ((name, some value) ∷ rest) =
      (json_string name ++ (58 ∷ json_string value)) ∷ json_entries rest

  join_commas : List Text → Text
  join_commas [] = []
  join_commas (x ∷ []) = x
  join_commas (x ∷ y ∷ rest) = x ++ (44 ∷ join_commas (y ∷ rest))

  unfoldable pub stable_fingerprint : List (Text × Option Text) → Text
  unfolding json_entries join_commas
  stable_fingerprint entries = 123 ∷ join_commas (json_entries entries) ++ (125 ∷ [])

  unfoldable pub deterministic_workspace_id : ExecutionContext → Text → Text → Text
  unfolding stable_fingerprint text slice_to
  deterministic_workspace_id context device_id workspace_ref =
      text "cw_"
      ++ slice_to 24 (
          digest (
            stable_fingerprint (
              (text "conversationSessionId", context.conversation_session_id)
              ∷ (text "deviceId", some device_id)
              ∷ (text "mcpSessionId", some context.mcp_session_id)
              ∷ (text "tenantId", some context.owner.tenant_id)
              ∷ (text "userId", some context.owner.user_id)
              ∷ (text "workspaceRef", some workspace_ref)
              ∷ [])))

  unfoldable pub selection_fingerprint : ExecutionContext → Text → Text → Text → Text
  unfolding stable_fingerprint text
  selection_fingerprint context device_id workspace_id workspace_ref = stable_fingerprint (
      (text "conversationSessionId", context.conversation_session_id)
      ∷ (text "deviceId", some device_id)
      ∷ (text "mcpSessionId", some context.mcp_session_id)
      ∷ (text "workspaceId", some workspace_id)
      ∷ (text "workspaceRef", some workspace_ref)
      ∷ [])

  -- `input.workspaceId?.trim() || deterministicWorkspaceId(…)`
  chosen_workspace_id : Option Text → Text → Text
  unfolding trim
  chosen_workspace_id none fallback = fallback
  chosen_workspace_id (some given) fallback =
      let trimmed : Text = trim given in if truthy trimmed then trimmed else fallback

  unfoldable pub require_catalog_entry :
      ExecutionContext → Text → Text → ServicesMethod CatalogRecord
  unfolding on_catalog find_ref trim
  require_catalog_entry context device_id workspace_ref_input = do
    let workspace_ref : Text = trim workspace_ref_input
    throw_if (not (truthy workspace_ref)) (blank_error "workspaceRef" " is required.")
    workspaces ← on_catalog (list_workspaces locale_compare context.owner device_id)
    or_throw (find_ref workspace_ref workspaces) (
        routing_error workspace_not_found "workspaceRef is not in the selected Desktop catalog."
          (("deviceId", device_id) ∷ ("workspaceRef", workspace_ref) ∷ []))

  -- The key under which the call is recorded: `if (input.idempotencyKey)`.
  given_key : Option Text → Option Text
  given_key none = none
  given_key (some key) = if truthy key then some key else none

  -- The event of an earlier call under the key.
  find_replay : ExecutionContext → Option Text → ServicesMethod (Option (AuditEvent ConnectResult))
  unfolding on_audit
  find_replay context none = pure none
  find_replay context (some key) = do
    found ← on_audit (find_idempotency context.owner connect_workspace key)
    pure (get_or found none)

  unfoldable pub record_connection :
      Text
      → Text
      → ExecutionContext
      → Option Text
      → Text
      → ConnectResult
      → ServicesMethod (Unit {0})
  unfolding on_audit
  record_connection clock uuid context key fingerprint result = do
    let event : RecordEventInput ConnectResult = record {
      owner = some context.owner;
      action = connect_workspace;
      status = succeeded;
      idempotency_key = key;
      request_fingerprint = elim key [ none ↦ none | some _ ↦ some fingerprint ];
      result = some result;
      error_code = none;
      now = none;
    }
    recorded ← elim key [
      | none ↦ on_audit (record_event clock uuid event)
      | some k ↦ on_audit (record_idempotency clock uuid context.owner k fingerprint event)
    ]
    pure tt

  unfoldable pub bind_selected :
      Text
      → Text
      → ExecutionContext
      → ConnectInput
      → CatalogRecord
      → Text
      → Text
      → Text
      → ServicesMethod ConnectAnswer
  unfolding on_routing given_key
  bind_selected clock uuid context input entry device_id workspace_id fingerprint = do
    route ← on_routing (
        bind_workspace_route date_parse clock (record {
          owner = context.owner;
          mcp_session_id = context.mcp_session_id;
          conversation_session_id = context.conversation_session_id;
          workspace_id = workspace_id;
          device_id = device_id;
          workspace_ref = some entry.workspace_ref;
          now = none;
          expires_at = input.expires_at;
        }))
    let result : ConnectResult = record {
      workspace_id = route.workspace_id;
      workspace_ref = entry.workspace_ref;
      device_id = device_id;
      display_name = entry.display_name;
      root_label = entry.root_label;
      capabilities = entry.capabilities;
      route = route;
      idempotency_key = input.idempotency_key;
    }
    record_connection clock uuid context (given_key input.idempotency_key) fingerprint result
    pure (connected result)

  -- The event is that of a replay with the same fingerprint, that of another selection, or missing.
  answer_or_bind :
      Text
      → Text
      → ExecutionContext
      → ConnectInput
      → CatalogRecord
      → Text
      → Text
      → Text
      → Option (AuditEvent ConnectResult)
      → ServicesMethod ConnectAnswer
  unfolding bind_selected
  answer_or_bind clock uuid context input entry device_id workspace_id fingerprint none =
      bind_selected clock uuid context input entry device_id workspace_id fingerprint
  answer_or_bind clock uuid context input entry device_id workspace_id fingerprint (some event) = do
    throw_if (not (option_text_eq event.request_fingerprint (some fingerprint))) (
        routing_error tool_call_conflict
          "Idempotency key was already used with a different workspace selection."
          (("idempotencyKey", get_or input.idempotency_key []) ∷ []))
    pure (replayed event.result)

  -- `connectWorkspace` from the pairing on.
  unfoldable pub connect_on :
      Text → Text → ExecutionContext → ConnectInput → Text → ServicesMethod ConnectAnswer
  unfolding chosen_workspace_id find_replay given_key answer_or_bind
  connect_on clock uuid context input device_id = do
    entry ← require_catalog_entry context device_id input.workspace_ref
    let workspace_id : Text =
        chosen_workspace_id input.workspace_id
          (deterministic_workspace_id context device_id entry.workspace_ref)
    let fingerprint : Text =
        selection_fingerprint context device_id workspace_id entry.workspace_ref
    replay ← find_replay context (given_key input.idempotency_key)
    answer_or_bind clock uuid context input entry device_id workspace_id fingerprint replay

  unfoldable pub connect :
      Text → Text → ExecutionContext → ConnectInput → ServicesMethod ConnectAnswer
  unfolding on_pairing
  connect clock uuid context input = do
    store ← gets λ s. s.routing
    paired ← on_pairing (
        resolve_device date_parse clock (lookup_in store) (record {
          owner = context.owner;
          mcp_session_id = context.mcp_session_id;
          conversation_session_id = context.conversation_session_id;
          device_id = input.device_id;
          now = none;
        }))
    connect_on clock uuid context input paired.device_id
