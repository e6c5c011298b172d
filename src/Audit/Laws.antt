-- ===== src/Audit/Laws.antt =====
-- Replays of a request: src/cloud-control-plane-audit.ts.
use xautojs_devspace.Audit.{
  AuditAction, AuditEvent, AuditStore, RecordEventInput, fingerprint_conflict, idempotency_map_key,
  record_idempotency, record_new_or_replay,
}
use xautojs_devspace.Audit.Recorded.{
  Recorded, record_idempotency-Recorded, record_idempotency-new_or_replay,
}
use xautojs_devspace.Prelude.{List, [], ap, arith, some, ◌∙◌, ◌∷◌, ◌≡◌, ◌≢◌, ◌⊎◌}
use xautojs_devspace.Prelude.JsMap.{get, get-put}
use xautojs_devspace.Prelude.Result.{err, ok}
use xautojs_devspace.Prelude.Text.{Text, trim}
use xautojs_devspace.Prelude.Text.Laws.{option_text_eq_iff, text_eq_iff}
use xautojs_devspace.Routing.Contract.{WorkspaceIdentity}

-- A request to `recordIdempotency`, with the instant and the random value it meets.
pub record Request (Answer : Type 0) : Type 0 where
  pub clock : Text
  pub uuid : Text
  pub owner : WorkspaceIdentity
  pub id : Text
  pub fingerprint : Text
  pub input : RecordEventInput Answer

module _ {Answer : Type 0} where
  -- The event stored under a key is never replaced, nor removed.
  pub record_idempotency-kept :
      (clock uuid : Text) (owner : WorkspaceIdentity) (id fingerprint : Text)
      (input : RecordEventInput Answer) (s : AuditStore Answer) (key : Text)
      {event : AuditEvent Answer}
      → get key s.idempotency ≡ some event
      → get key (record_idempotency clock uuid owner id fingerprint input s).0.idempotency
        ≡ some event
  unfolding record_idempotency
  record_idempotency-kept clock uuid owner id fingerprint input s key h =
      grind (arith, get-put, text_eq_iff)

  unfoldable pub run_requests : List (Request Answer) → AuditStore Answer → AuditStore Answer
  run_requests [] s = s
  run_requests (r ∷ rest) s =
      run_requests rest (record_idempotency r.clock r.uuid r.owner r.id r.fingerprint r.input s).0

  run_requests-kept :
      (requests : List (Request Answer)) (s : AuditStore Answer) (key : Text)
      {event : AuditEvent Answer}
      → get key s.idempotency ≡ some event
      → get key (run_requests requests s).idempotency ≡ some event
  unfolding run_requests
  run_requests-kept [] s key h = h
  run_requests-kept (r ∷ rest) s key {event} h =
      run_requests-kept rest
        (record_idempotency r.clock r.uuid r.owner r.id r.fingerprint r.input s).0 key
        {event = event}
        (record_idempotency-kept r.clock r.uuid r.owner r.id r.fingerprint r.input s key h)

  replayed :
      (clock uuid : Text) (owner : WorkspaceIdentity) (id fingerprint again : Text)
      (input : RecordEventInput Answer) (action : AuditAction) (s : AuditStore Answer)
      {event : AuditEvent Answer}
      → input.action ≡ action
      → Recorded owner id fingerprint action event s
      → ((again ≡ fingerprint)
          × (record_idempotency clock uuid owner id again input s ≡ (s, ok event)))
        ⊎ ((again ≢ fingerprint)
            × (record_idempotency clock uuid owner id again input s
                ≡ (s, err (fingerprint_conflict action (trim id)))))
  unfolding record_new_or_replay
  replayed clock uuid owner id fingerprint again input action s {event} same r =
      let e =
        record_idempotency-new_or_replay clock uuid owner id again input s r.owner_parsed
          r.id_parsed (ap (λ a. idempotency_map_key r.normal a (trim id)) same ∙ r.key_made) in
      rw (e, r.stored)
        (ground (arith, r.printed, same, option_text_eq_iff event.request_fingerprint (some again)))

  -- Where a request gets an event and its fingerprint has no blanks around it, whether it is the first
  -- under its key or not, then after any other requests a request of the same owner, id and action
  -- gets that very event if it has the same fingerprint, and is refused as a conflict if it has
  -- another one; nothing is written either way.
  pub record_idempotency_replay :
      (clock uuid now random : Text) (owner : WorkspaceIdentity) (id fingerprint again : Text)
      (input later : RecordEventInput Answer) (others : List (Request Answer))
      (s : AuditStore Answer) {event : AuditEvent Answer}
      → trim fingerprint ≡ fingerprint
      → later.action ≡ input.action
      → (record_idempotency clock uuid owner id fingerprint input s).1 ≡ ok event
      → let t =
          run_requests others (record_idempotency clock uuid owner id fingerprint input s).0 in
        ((again ≡ fingerprint)
          × (record_idempotency now random owner id again later t ≡ (t, ok event)))
        ⊎ ((again ≢ fingerprint)
            × (record_idempotency now random owner id again later t
                ≡ (t, err (fingerprint_conflict input.action (trim id)))))
  record_idempotency_replay clock uuid now random owner id fingerprint again input later others s
        {event} trimmed same h =
      let first =
        record_idempotency-Recorded clock uuid owner id fingerprint input s {event = event} trimmed
          h in
      replayed now random owner id fingerprint again later input.action _ {event = event} same
        (record {
          normal = first.normal;
          key = first.key;
          owner_parsed = first.owner_parsed;
          id_parsed = first.id_parsed;
          key_made = first.key_made;
          stored =
              run_requests-kept others
                (record_idempotency clock uuid owner id fingerprint input s).0 first.key
                {event = event} first.stored;
          printed = first.printed;
        })
