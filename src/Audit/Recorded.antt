-- ===== src/Audit/Recorded.antt =====
-- What a request to `recordIdempotency` of src/cloud-control-plane-audit.ts leaves.
use xautojs_devspace.Audit.{
  AuditAction, AuditEvent, AuditStore, RecordEventInput, idempotency_map_key, normalize_audit_event,
  record_idempotency, record_new_or_replay,
}
use xautojs_devspace.Prelude.{Option, ap, arith, inl, inr, none, refl, some, sym, ◌∙◌, ◌≡◌}
use xautojs_devspace.Prelude.JsMap.{get, get-put_same}
use xautojs_devspace.Prelude.Result.{Result-cases, ok}
use xautojs_devspace.Prelude.Text.{Text, trim}
use xautojs_devspace.Prelude.Text.Laws.{option_text_eq_iff}
use xautojs_devspace.Routing.Contract.{
  WorkspaceIdentity, normalize_optional_id, normalize_owner, normalize_required_id,
}

normalize_required_id-trim :
    (id : Text) {trimmed : Text}
    → normalize_required_id (some id) "idempotencyKey" ≡ ok trimmed
    → trimmed ≡ trim id
unfolding normalize_required_id
normalize_required_id-trim id {trimmed} h = ground arith

module _ {Answer : Type 0} where
  -- What a request that gets an event leaves: the event stands under the request's key, with its
  -- fingerprint.
  pub record Recorded (owner : WorkspaceIdentity) (id fingerprint : Text) (action : AuditAction)
      (event : AuditEvent Answer) (s : AuditStore Answer) : Type 0 where
    pub normal : WorkspaceIdentity
    pub key : Text
    pub owner_parsed : normalize_owner owner ≡ ok normal
    pub id_parsed : normalize_required_id (some id) "idempotencyKey" ≡ ok (trim id)
    pub key_made : idempotency_map_key normal action (trim id) ≡ ok key
    pub stored : get key s.idempotency ≡ some event
    pub printed : event.request_fingerprint ≡ some fingerprint

  normalize_audit_event-fingerprint :
      (clock uuid fingerprint : Text) (input : RecordEventInput Answer) {event : AuditEvent Answer}
      → input.request_fingerprint ≡ some fingerprint
      → trim fingerprint ≡ fingerprint
      → normalize_audit_event clock uuid input ≡ ok event
      → event.request_fingerprint ≡ some fingerprint
  unfolding normalize_audit_event normalize_optional_id
  normalize_audit_event-fingerprint clock uuid fingerprint input given trimmed h = ground arith

  record_new_or_replay-recorded :
      (clock uuid : Text) (input : RecordEventInput Answer) (normal : WorkspaceIdentity)
      (id fingerprint key : Text) (found : Option (AuditEvent Answer)) (s : AuditStore Answer)
      {event : AuditEvent Answer}
      → trim fingerprint ≡ fingerprint
      → get key s.idempotency ≡ found
      → (record_new_or_replay clock uuid input normal id fingerprint key found s).1 ≡ ok event
      → (get key
            (record_new_or_replay clock uuid input normal id fingerprint key found s).0.idempotency
          ≡ some event)
        × (event.request_fingerprint ≡ some fingerprint)
  unfolding record_new_or_replay
  record_new_or_replay-recorded clock uuid input normal id fingerprint key (some existing) s {event}
        trimmed found h =
      ground (arith, option_text_eq_iff existing.request_fingerprint (some fingerprint))
  record_new_or_replay-recorded clock uuid input normal id fingerprint key none s {event} trimmed
        found h =
      let made : RecordEventInput Answer = record input {
        owner = some normal;
        idempotency_key = some id;
        request_fingerprint = some fingerprint;
      } in
      elim (Result-cases (normalize_audit_event clock uuid made)) [
        | inr (e, refused) ↦ absurd (ground arith)
        | inl (new, written) ↦
            let same : new ≡ event = ground arith in
            (
              ground (arith, get-put_same key new s.idempotency),
              normalize_audit_event-fingerprint clock uuid fingerprint made {event = event} refl
                  trimmed (ground arith),
            )
      ]

  module _ (clock uuid : Text) (owner : WorkspaceIdentity) (id fingerprint : Text)
      (input : RecordEventInput Answer) (s : AuditStore Answer) where
    pub record_idempotency-new_or_replay :
        {normal : WorkspaceIdentity} {trimmed key : Text}
        → normalize_owner owner ≡ ok normal
        → normalize_required_id (some id) "idempotencyKey" ≡ ok trimmed
        → idempotency_map_key normal input.action trimmed ≡ ok key
        → record_idempotency clock uuid owner id fingerprint input s
          ≡ record_new_or_replay clock uuid input normal trimmed fingerprint key
              (get key s.idempotency)
              s
    unfolding record_idempotency
    record_idempotency-new_or_replay o d k = rw (o, d, k) refl

    record_idempotency-parsed :
        {event : AuditEvent Answer}
        → (record_idempotency clock uuid owner id fingerprint input s).1 ≡ ok event
        → (normal : WorkspaceIdentity) × (key : Text) × (normalize_owner owner ≡ ok normal)
          × (normalize_required_id (some id) "idempotencyKey" ≡ ok (trim id))
          × (idempotency_map_key normal input.action (trim id) ≡ ok key)
    unfolding record_idempotency
    record_idempotency-parsed {event} h = elim (Result-cases (normalize_owner owner)) [
      | inr (e, x) ↦ absurd (ground arith)
      | inl (normal, o) ↦ elim (Result-cases (normalize_required_id (some id) "idempotencyKey")) [
        | inr (e, x) ↦ absurd (ground arith)
        | inl (given, d) ↦
            let same : given ≡ trim id = normalize_required_id-trim id {trimmed = given} d in
            let d' = d ∙ ap ok same in
            elim (Result-cases (idempotency_map_key normal input.action (trim id))) [
              | inr (e, x) ↦ absurd (ground arith)
              | inl (key, k) ↦ (normal, key, o, d', k)
            ]
      ]
    ]

    pub record_idempotency-Recorded :
        {event : AuditEvent Answer}
        → trim fingerprint ≡ fingerprint
        → (record_idempotency clock uuid owner id fingerprint input s).1 ≡ ok event
        → Recorded owner id fingerprint input.action event
            (record_idempotency clock uuid owner id fingerprint input s).0
    record_idempotency-Recorded {event} trimmed h =
        let (normal, key, o, d, k) = record_idempotency-parsed {event = event} h in
        let e = record_idempotency-new_or_replay o d k in
        let (stored, printed) =
          record_new_or_replay-recorded clock uuid input normal (trim id) fingerprint key
            (get key s.idempotency) s {event = event} trimmed refl (ap (λ r. r.1) (sym e) ∙ h) in
        record {
          normal = normal;
          key = key;
          owner_parsed = o;
          id_parsed = d;
          key_made = k;
          stored = ap (λ r. get key r.0.idempotency) e ∙ stored;
          printed = printed;
        }
