-- ===== src/Audit/Tests.antt =====
-- A request that is sent twice, and the theorems there.
use mathlib.Core.List.{[], ◌∷◌}
use xautojs_devspace.Audit.{
  AuditEvent, AuditStore, RecordEventInput, action_name, connect_workspace, fingerprint_conflict,
  idempotency_map_key, normalize_audit_event, record_idempotency, succeeded,
}
use xautojs_devspace.Audit.Laws.{Request, record_idempotency_replay, run_requests}
use xautojs_devspace.Prelude.{none, refl, some, ℕ, ◌≡◌, ◌≢◌, ◌⊎◌}
use xautojs_devspace.Prelude.JsMap.{get, put}
use xautojs_devspace.Prelude.Result.{err, ok}
use xautojs_devspace.Prelude.Text.{Text, text, text_eq, trim}
use xautojs_devspace.Routing.Contract.{
  WorkspaceIdentity, normalize_optional_id, normalize_owner, normalize_required_id, owner_key,
  route_now,
}

audits : Unit {0}
unfolding record_idempotency normalize_audit_event idempotency_map_key action_name normalize_owner
    normalize_required_id normalize_optional_id route_now trim text get put text_eq owner_key
audits = tt

abbrev clock : Text
clock = text "2026-01-01T00:00:00.000Z"

abbrev ann : WorkspaceIdentity
ann = record { tenant_id = text "acme"; user_id = text "ann" }

abbrev event : AuditEvent ℕ
event = record {
  event_id = text "audit_1";
  owner = some ann;
  action = connect_workspace;
  status = succeeded;
  idempotency_key = some (text "k1");
  request_fingerprint = some (text "f1");
  result = some 7;
  error_code = none;
  created_at = clock;
}

abbrev request : Text → ℕ → RecordEventInput ℕ
request now result = record {
  owner = none;
  action = connect_workspace;
  status = succeeded;
  idempotency_key = none;
  request_fingerprint = none;
  result = some result;
  error_code = none;
  now = some now;
}

abbrev nothing : AuditStore ℕ
nothing = record { events = []; idempotency = [] }

-- The first request is recorded.
first_recorded :
    (record_idempotency clock (text "1") ann (text "k1") (text "f1") (request clock 7) nothing).1
    ≡ ok event
unfolding audits
first_recorded = refl

-- A request under another key.
abbrev other : Request ℕ
other = record {
  clock = clock;
  uuid = text "2";
  owner = ann;
  id = text "k2";
  fingerprint = text "f2";
  input = request clock 8;
}

plain : trim (text "f1") ≡ text "f1"
unfolding audits
plain = refl

-- The store when the second request comes.
abbrev before : AuditStore ℕ
before =
    run_requests (other ∷ [])
      (record_idempotency clock (text "1") ann (text "k1") (text "f1") (request clock 7) nothing).0

record_idempotency_replay_example :
    ((text "f3" ≡ text "f1")
      × (record_idempotency clock (text "3") ann (text "k1") (text "f3") (request clock 9) before
          ≡ (before, ok event)))
    ⊎ ((text "f3" ≢ text "f1")
        × (record_idempotency clock (text "3") ann (text "k1") (text "f3") (request clock 9) before
            ≡ (before, err (fingerprint_conflict connect_workspace (trim (text "k1"))))))
record_idempotency_replay_example =
    record_idempotency_replay clock (text "1") clock (text "3") ann (text "k1") (text "f1")
      (text "f3") (request clock 7) (request clock 9) (other ∷ []) nothing plain refl first_recorded
