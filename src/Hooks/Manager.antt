-- ===== src/Hooks/Manager.antt =====
-- `NativeRuntimeHookManager` of src/native-agent-hooks.ts. What it appends to the agent store, which
-- is over SQL, is listed in a log. A handler is a function of its input.
use xautojs_devspace.Hooks.{
  HookDecision, HookInput, HookResult, HookRule, hook_allow, hook_ask, hook_audit_only, hook_block,
  hook_deny,
}
use xautojs_devspace.Hooks.Parse.{nullish}
use xautojs_devspace.Prelude.{
  Bool, List, Option, String, [], any, false, get_or, if◌then◌else◌, ltb, map, none, not, some,
  true, ℕ, ◌&&◌, ◌++◌, ◌||◌, ◌∷◌,
}
use xautojs_devspace.Prelude.JsMap.{JsMap, get, put}
use xautojs_devspace.Prelude.Json.{
  Json, JsonFields, as_text, field, find_field, json_bool, json_object, json_text, no_fields,
}
use xautojs_devspace.Prelude.Text.{Text, text, text_eq, truthy}

abbrev pub HookHandler : Type 0
HookHandler = HookInput → HookResult

pub record HookManager : Type 0 where
  pub handlers : JsMap (List HookHandler)
  pub rules : List HookRule

-- `store.appendRunEvent` with the type "run.hook.decision".
pub record RunEvent : Type 0 where
  pub agent_run_id : Text
  pub payload : JsonFields

-- `store.recordRuntimeHook`
pub record RuntimeHookRecord : Type 0 where
  pub agent_run_id : Option Text
  pub hook_event_name : Text
  pub decision : HookDecision
  pub payload : Option JsonFields
  pub result : JsonFields

pub record HookLog : Type 0 where
  pub run_events : List RunEvent
  pub runtime_hooks : List RuntimeHookRecord

unfoldable pub register : Text → HookHandler → HookManager → HookManager
register event_name handler m = record m {
  handlers = put event_name (get_or (get event_name m.handlers) [] ++ handler ∷ []) m.handlers;
}

unfoldable pub register_rule : HookRule → HookManager → HookManager
register_rule rule m = record m { rules = m.rules ++ rule ∷ [] }

abbrev pub default_hook_result : HookResult
default_hook_result = record {
  decision = hook_audit_only;
  continues = true;
  reason = none;
  audit_only = true;
  additional_context = none;
  rule_id = none;
}

unfoldable pub decision_rank : HookDecision → ℕ
decision_rank hook_audit_only = 0
decision_rank hook_allow = 1
decision_rank hook_ask = 2
decision_rank hook_deny = 3
decision_rank hook_block = 4

abbrev pub is_denying : HookDecision → Bool
is_denying hook_deny = true
is_denying hook_block = true
is_denying _ = false

unfoldable pub decision_name : HookDecision → Text
unfolding text
decision_name hook_audit_only = text "audit_only"
decision_name hook_allow = text "allow"
decision_name hook_ask = text "ask"
decision_name hook_deny = text "deny"
decision_name hook_block = text "block"

-- `includes(values, value)`
unfoldable pub includes_value : Option (List Text) → Option Text → Bool
unfolding any text_eq
includes_value none value = true
includes_value (some []) value = true
includes_value (some (v ∷ vs)) none = false
includes_value (some (v ∷ vs)) (some value) = any (text_eq value) (v ∷ vs)

unfoldable pub hook_rule_matches : HookRule → HookInput → Bool
unfolding includes_value find_field text
hook_rule_matches rule input =
    let payload : JsonFields = get_or input.payload no_fields in
    let at : String → Option Json = λ name. find_field (text name) payload in
    includes_value (some rule.events) (some input.hook_event_name)
    && includes_value rule.stages (as_text (at "stage"))
    && includes_value rule.workflow_ids (as_text (at "workflowId"))
    && includes_value rule.step_phases (as_text (nullish (at "stepPhase") (at "phase")))
    && includes_value rule.tool_names (as_text (at "toolName"))
    && includes_value rule.risks (as_text (at "risk"))
    && includes_value rule.policy_decisions
        (as_text (nullish (at "policyDecision") (at "decision")))

abbrev is_audit_only : HookDecision → Bool
is_audit_only hook_audit_only = true
is_audit_only _ = false

unfoldable pub hook_rule_result : HookRule → HookResult
hook_rule_result rule = record {
  decision = rule.decision;
  continues = get_or rule.continues (not (is_denying rule.decision));
  reason = rule.reason;
  audit_only = get_or rule.audit_only (is_audit_only rule.decision);
  additional_context = rule.additional_context;
  rule_id = some rule.id;
}

unfoldable pub merge_hook_results : HookResult → HookResult → HookResult
unfolding decision_rank
merge_hook_results previous next =
    if not next.continues
    then next
    else if not previous.continues
    then previous
    else if ltb (decision_rank previous.decision) (decision_rank next.decision)
    then next
    else previous

-- `...(value ? { name: value } : {})`
truthy_field : String → Option Text → JsonFields → JsonFields
unfolding text
truthy_field name none rest = rest
truthy_field name (some s) rest = if truthy s then field (text name) (json_text s) rest else rest

details_json : HookResult → JsonFields
unfolding truthy_field
details_json result = truthy_field "reason" result.reason (
    truthy_field "additionalContext" result.additional_context
      (truthy_field "ruleId" result.rule_id no_fields))

unfoldable pub hook_result_json : HookResult → JsonFields
unfolding details_json text decision_name
hook_result_json result = field (text "decision") (json_text (decision_name result.decision)) (
    field (text "continue") (json_bool result.continues)
      (field (text "auditOnly") (json_bool result.audit_only) (details_json result)))

unfoldable pub hook_decision_event_json : HookInput → HookResult → JsonFields
unfolding details_json text decision_name
hook_decision_event_json input result =
    field (text "hookEventName") (json_text input.hook_event_name) (
      field (text "decision") (json_text (decision_name result.decision)) (
        field (text "continue") (json_bool result.continues) (
          field (text "auditOnly") (json_bool result.audit_only) (
            field (text "hookPayload") (json_object (get_or input.payload no_fields))
              (details_json result)))))

-- `if (!input.agentRunId) return; await store.appendRunEvent(…)`
record_decision_event : HookInput → HookResult → HookLog → HookLog
unfolding hook_decision_event_json
record_decision_event input result log = elim input.agent_run_id [
  | none ↦ log
  | some id ↦
      if truthy id
      then record log {
        run_events =
            log.run_events
            ++ (record { agent_run_id = id; payload = hook_decision_event_json input result }) ∷ [];
      }
      else log
]

is_runtime_hook_record_event : Text → Bool
unfolding any text_eq text map
is_runtime_hook_record_event event_name =
    any (text_eq event_name)
      (map text ("PreToolUse" ∷ "PostToolUse" ∷ "PermissionRequest" ∷ "PostCompact" ∷ "Stop" ∷ []))

unfoldable pub record_hook_result : HookInput → HookResult → HookLog → HookLog
unfolding record_decision_event is_runtime_hook_record_event hook_result_json
record_hook_result input result log =
    let decided : HookLog = record_decision_event input result log in
    if not (is_runtime_hook_record_event input.hook_event_name) then decided else record decided {
      runtime_hooks =
          decided.runtime_hooks
          ++ (record {
            agent_run_id = input.agent_run_id;
            hook_event_name = input.hook_event_name;
            decision = result.decision;
            payload = input.payload;
            result = hook_result_json result;
          })
            ∷ [];
    }

-- The loop has returned a result, or it goes on with the result merged so far and whether any result
-- was observed.
pub data Progress : Type 0 where
  returned : HookResult → Progress
  ongoing : HookResult → Bool → Progress

-- The loop over the handlers.
unfoldable pub run_handlers :
    List HookHandler → HookInput → HookResult → Bool → HookLog → HookLog × Progress
run_handlers [] input final observed log = (log, ongoing final observed)
run_handlers (handler ∷ rest) input final observed log =
    let result : HookResult = handler input in
    let recorded : HookLog = record_hook_result input result log in
    elim result.continues [
      | false ↦ (recorded, returned result)
      | true ↦ run_handlers rest input (merge_hook_results final result) true recorded
    ]

-- The loop over the rules.
unfoldable pub run_rules :
    List HookRule → HookInput → HookResult → Bool → HookLog → HookLog × Progress
run_rules [] input final observed log = (log, ongoing final observed)
run_rules (rule ∷ rest) input final observed log =
    let result : HookResult = hook_rule_result rule in
    let recorded : HookLog = record_hook_result input result log in
    elim (hook_rule_matches rule input) [
      | false ↦ run_rules rest input final observed log
      | true ↦ elim result.continues [
        | false ↦ (recorded, returned result)
        | true ↦ run_rules rest input (merge_hook_results final result) true recorded
      ]
    ]

unfoldable pub finish_run : HookInput → HookLog × Progress → HookLog × HookResult
finish_run input (log, returned result) = (log, result)
finish_run input (log, ongoing final observed) =
    if not observed then (record_hook_result input final log, final) else (log, final)

unfoldable pub after_handlers : HookManager → HookInput → HookLog × Progress → HookLog × HookResult
unfolding finish_run
after_handlers m input (log, returned result) = (log, result)
after_handlers m input (log, ongoing final observed) =
    finish_run input (run_rules m.rules input final observed log)

unfoldable pub run_hooks : HookManager → HookInput → HookLog → HookLog × HookResult
unfolding after_handlers
run_hooks m input log = after_handlers m input (
    run_handlers (get_or (get input.hook_event_name m.handlers) []) input default_hook_result false
      log)

-- `isBlockingNativeRuntimeHookResult`
abbrev pub is_blocking : HookResult → Bool
is_blocking result = not result.continues || is_denying result.decision
