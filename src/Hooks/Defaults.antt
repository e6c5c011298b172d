-- ===== src/Hooks/Defaults.antt =====
-- `defaultNativeRuntimeHooks` of src/native-agent-hooks.ts.
use xautojs_devspace.Hooks.{
  HookConfig, HookDecision, HookInput, HookResult, HookRule, hook_allow, hook_ask, hook_audit_only,
  hook_block, hook_deny,
}
use xautojs_devspace.Hooks.Manager.{HookHandler, HookManager, register, register_rule}
use xautojs_devspace.Prelude.{
  Bool, List, String, [], false, get_or, if◌then◌else◌, none, some, true, ◌∷◌,
}
use xautojs_devspace.Prelude.Json.{as_text, find_field, no_fields}
use xautojs_devspace.Prelude.Text.{option_text_eq, text, text_eq}

said : HookDecision → Bool → Bool → String → HookResult
unfolding text
said decision continues audits reason = record {
  decision = decision;
  continues = continues;
  reason = some (text reason);
  audit_only = audits;
  additional_context = none;
  rule_id = none;
}

-- `input.payload?.name` where it is a string, and whether it is the given one.
payload_is : HookInput → String → String → Bool
unfolding find_field text text_eq
payload_is input name value =
    option_text_eq (as_text (find_field (text name) (get_or input.payload no_fields)))
      (some (text value))

unfoldable pub pre_tool_use : HookHandler
unfolding said payload_is option_text_eq
pre_tool_use input =
    if payload_is input "decision" "block"
    then said hook_block false false "Tool use was blocked by native policy."
    else if payload_is input "decision" "audit_only"
    then said hook_audit_only true true
        "Tool use is allowed only with an audit record by native policy."
    else if payload_is input "risk" "high"
    then said hook_ask true false "High-risk tool use requires explicit native policy approval."
    else said hook_allow true false "Tool use passed default native hook policy."

unfoldable pub permission_request : HookHandler
unfolding said payload_is option_text_eq
permission_request input =
    if payload_is input "decision" "block"
    then said hook_deny false false "Permission request was blocked by native policy."
    else said hook_allow true false "Permission request allowed by default native hook policy."

unfoldable pub start_hook : HookHandler
unfolding said
start_hook input =
    said hook_audit_only true true
      "Native agent run started; workflow execution plan recorded for audit."

unfoldable pub workflow_step : HookHandler
unfolding said
workflow_step input = said hook_audit_only true true "Native workflow step recorded for audit."

unfoldable pub stop_hook : HookHandler
unfolding said
stop_hook input =
    said hook_audit_only true true "Native agent run stopped; final state recorded for audit."

register_rules : List HookRule → HookManager → HookManager
unfolding register_rule
register_rules [] m = m
register_rules (rule ∷ rest) m = register_rules rest (register_rule rule m)

abbrev pub no_hooks : HookManager
no_hooks = record { handlers = []; rules = [] }

unfoldable pub default_hooks : HookConfig → HookManager
unfolding register register_rules pre_tool_use permission_request start_hook workflow_step stop_hook
    text
default_hooks config =
    let manager : HookManager = register (text "Stop") stop_hook (
      register (text "WorkflowStep") workflow_step (
        register (text "Start") start_hook (
          register (text "PermissionRequest") permission_request
            (register (text "PreToolUse") pre_tool_use no_hooks)))) in
    if config.enabled then register_rules config.rules manager else manager
