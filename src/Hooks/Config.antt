-- ===== src/Hooks/Config.antt =====
-- src/native-agent-hook-config.ts: rules for the hooks, read from JSON. `JSON.parse` is the argument
-- `json_parse`, which gives a message where it throws.
use xautojs_devspace.Hooks.{
  HookConfig, HookDecision, HookRule, hook_allow, hook_ask, hook_audit_only, hook_block, hook_deny,
}
use xautojs_devspace.Hooks.Parse.{
  Parsed, dotted, indexed, nullish, object_record, optional_array, optional_boolean,
  optional_string, parse_enum, parse_enum_list, parse_optional_enum_list,
  parse_optional_string_list, required_string,
}
use xautojs_devspace.Prelude.{
  List, Option, String, [], get_or, if◌then◌else◌, map, none, not, some, suc, true, ℕ, ◌++◌, ◌∷◌,
}
use xautojs_devspace.Prelude.Json.{Json, find_field, json_null, json_text}
use xautojs_devspace.Prelude.Result.{Result, err, ok, ◌>>=◌}
use xautojs_devspace.Prelude.Text.{Text, text, text_eq, trim, truthy}

unfoldable pub hook_events : List Text
unfolding text map
hook_events = map text (
    "Start" ∷ "WorkflowStep" ∷ "PreToolUse" ∷ "PostToolUse" ∷ "PermissionRequest" ∷ "PostCompact"
    ∷ "Stop" ∷ [])

unfoldable pub hook_stages : List Text
unfolding text map
hook_stages = map text ("before" ∷ "after" ∷ [])

unfoldable pub hook_decisions : List Text
unfolding text map
hook_decisions = map text ("allow" ∷ "block" ∷ "ask" ∷ "deny" ∷ "audit_only" ∷ [])

unfoldable pub tool_risks : List Text
unfolding text map
tool_risks = map text ("low" ∷ "medium" ∷ "high" ∷ [])

unfoldable pub workflow_phases : List Text
unfolding text map
workflow_phases = map text ("plan" ∷ "execute" ∷ "verify" ∷ "handoff" ∷ [])

-- The decision that one of `hook_decisions` names.
decision_of_text : Text → HookDecision
unfolding text text_eq
decision_of_text s =
    if text_eq s (text "allow")
    then hook_allow
    else if text_eq s (text "block")
    then hook_block
    else if text_eq s (text "ask")
    then hook_ask
    else if text_eq s (text "deny")
    then hook_deny
    else hook_audit_only

unfoldable pub parse_rule : Option Json → Text → Parsed HookRule
unfolding object_record required_string parse_enum_list parse_enum parse_optional_enum_list
    parse_optional_string_list optional_boolean optional_string dotted decision_of_text find_field
    text hook_events hook_stages hook_decisions tool_risks workflow_phases
parse_rule value source = do
  fields ← object_record value source
  let at : String → Option Json = λ name. find_field (text name) fields
  id ← required_string (at "id") (dotted source "id")
  events ←
      parse_enum_list (nullish (at "events") (at "event")) hook_events (dotted source "events") true
  decision ← parse_enum (at "decision") hook_decisions (dotted source "decision")
  stages ←
      parse_optional_enum_list (nullish (at "stages") (at "stage")) hook_stages
        (dotted source "stages")
  workflow_ids ←
      parse_optional_string_list (nullish (at "workflowIds") (at "workflowId"))
        (dotted source "workflowIds")
  phases ←
      parse_optional_enum_list (nullish (at "stepPhases") (at "stepPhase")) workflow_phases
        (dotted source "stepPhases")
  tool_names ←
      parse_optional_string_list (nullish (at "toolNames") (at "toolName"))
        (dotted source "toolNames")
  risks ←
      parse_optional_enum_list (nullish (at "risks") (at "risk")) tool_risks (dotted source "risks")
  policy_decisions ←
      parse_optional_enum_list (nullish (at "policyDecisions") (at "policyDecision")) hook_decisions
        (dotted source "policyDecisions")
  continues ← optional_boolean (at "continue") none (dotted source "continue")
  audits ← optional_boolean (at "auditOnly") none (dotted source "auditOnly")
  reason ← optional_string (at "reason") (dotted source "reason")
  additional_context ← optional_string (at "additionalContext") (dotted source "additionalContext")
  ok (record {
    id = id;
    events = events;
    stages = stages;
    workflow_ids = workflow_ids;
    step_phases = phases;
    tool_names = tool_names;
    risks = risks;
    policy_decisions = policy_decisions;
    decision = decision_of_text decision;
    continues = continues;
    audit_only = audits;
    reason = reason;
    additional_context = additional_context;
  })

parse_rules : List Json → ℕ → Text → Parsed (List HookRule)
unfolding parse_rule indexed
parse_rules [] index source = ok []
parse_rules (entry ∷ rest) index source = do
  rule ← parse_rule (some entry) (indexed source index)
  others ← parse_rules rest (suc index) source
  ok (rule ∷ others)

abbrev pub default_hook_config : HookConfig
default_hook_config = record { enabled = true; rules = [] }

parse_config_object : Option Json → Text → Parsed HookConfig
unfolding object_record optional_boolean optional_array parse_rules dotted find_field text
parse_config_object value source = do
  fields ← object_record value source
  enabled ←
      optional_boolean (find_field (text "enabled") fields) (some true) (dotted source "enabled")
  entries ← optional_array (find_field (text "rules") fields) (dotted source "rules")
  rules ← parse_rules entries 0 (dotted source "rules")
  ok (record { enabled = get_or enabled true; rules = rules })

unfoldable pub parse_hook_config : Option Json → Text → Parsed HookConfig
unfolding parse_config_object
parse_hook_config none source = ok default_hook_config
parse_hook_config (some json_null) source = ok default_hook_config
parse_hook_config (some (json_text [])) source = ok default_hook_config
parse_hook_config value source = parse_config_object value source

-- `raw` is the environment's DEVSPACE_NATIVE_RUNTIME_HOOKS.
unfoldable pub load_hook_config : (Text → Result Text Json) → Option Text → Parsed HookConfig
unfolding parse_hook_config text trim
load_hook_config json_parse none = ok default_hook_config
load_hook_config json_parse (some raw) =
    let trimmed : Text = trim raw in
    if not (truthy trimmed) then ok default_hook_config else elim (json_parse trimmed) [
      | err message ↦ err (text "Invalid DEVSPACE_NATIVE_RUNTIME_HOOKS: " ++ message)
      | ok value ↦ parse_hook_config (some value) (text "DEVSPACE_NATIVE_RUNTIME_HOOKS")
    ]
