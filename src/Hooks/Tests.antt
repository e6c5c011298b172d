-- ===== src/Hooks/Tests.antt =====
-- A configuration with one rule, a tool use that it denies, and the theorems there.
use xautojs_devspace.Hooks.{HookConfig, HookInput, HookResult, HookRule, hook_deny}
use xautojs_devspace.Hooks.Config.{load_hook_config, parse_hook_config, parse_rule}
use xautojs_devspace.Hooks.Defaults.{default_hooks}
use xautojs_devspace.Hooks.Manager.{
  HookLog, decision_rank, hook_rule_matches, hook_rule_result, includes_value, is_blocking,
  merge_hook_results, record_hook_result, register, register_rule, run_handlers, run_hooks,
  run_rules,
}
use xautojs_devspace.Hooks.Parse.{decimal, optional_array, parse_string_array}
use xautojs_devspace.Hooks.Reference.{
  decision_from, matching, opinions, run_hooks-blocked, run_hooks-decision_from,
}
use xautojs_devspace.Prelude.{In, [], any, false, inl, inr, map, none, refl, some, true, ◌∷◌, ◌≡◌}
use xautojs_devspace.Prelude.JsMap.{get, put}
use xautojs_devspace.Prelude.Json.{
  Json, field, find_field, item, json_array, json_bool, json_object, json_text, no_fields, no_items,
}
use xautojs_devspace.Prelude.Result.{err, ok}
use xautojs_devspace.Prelude.Text.{text, text_eq, trim}

hooking : Unit {0}
unfolding run_hooks run_handlers run_rules default_hooks register register_rule opinions matching
    map hook_rule_matches hook_rule_result merge_hook_results includes_value record_hook_result
    decision_rank load_hook_config parse_hook_config parse_rule parse_string_array optional_array
    find_field get put text text_eq trim any decimal
hooking = tt

-- `{ rules: [{ id: " no-shell ", event: "PreToolUse", toolName: ["shell", "shell"], decision: "deny",
--    continue: true }] }`
abbrev config_json : Json
config_json = json_object (
    field (text "rules")
      (json_array (
        item
          (json_object (
            field (text "id") (json_text (text " no-shell ")) (
              field (text "event") (json_text (text "PreToolUse")) (
                field (text "toolName")
                  (json_array
                    (item (json_text (text "shell")) (item (json_text (text "shell")) no_items)))
                  (field (text "decision") (json_text (text "deny"))
                    (field (text "continue") (json_bool true) no_fields))))))
          no_items))
      no_fields)

abbrev no_shell : HookRule
no_shell = record {
  id = text "no-shell";
  events = text "PreToolUse" ∷ [];
  stages = none;
  workflow_ids = none;
  step_phases = none;
  tool_names = some (text "shell" ∷ []);
  risks = none;
  policy_decisions = none;
  decision = hook_deny;
  continues = some true;
  audit_only = none;
  reason = none;
  additional_context = none;
}

abbrev config : HookConfig
config = record { enabled = true; rules = no_shell ∷ [] }

config_read : parse_hook_config (some config_json) (text "hooks") ≡ ok config
unfolding hooking
config_read = refl

-- The error names the entry at fault.
config_refused :
    parse_hook_config
      (some (
        json_object
          (field (text "rules") (json_array (item (json_object no_fields) no_items)) no_fields)))
      (text "hooks")
    ≡ err (text "hooks.rules[0].id is required.")
unfolding hooking
config_refused = refl

abbrev shell_use : HookInput
shell_use = record {
  agent_run_id = some (text "run_1");
  hook_event_name = text "PreToolUse";
  payload = some (field (text "toolName") (json_text (text "shell")) no_fields);
}

abbrev no_log : HookLog
no_log = record { run_events = []; runtime_hooks = [] }

abbrev denial : HookResult
denial = record {
  decision = hook_deny;
  continues = true;
  reason = none;
  audit_only = false;
  additional_context = none;
  rule_id = some (text "no-shell");
}

denied : (run_hooks (default_hooks config) shell_use no_log).1 ≡ denial
unfolding hooking
denied = refl

denial_heard : In denial (opinions (default_hooks config) shell_use)
unfolding hooking
denial_heard = inr (inl refl)

run_hooks-decision_from_example :
    (run_hooks (default_hooks config) shell_use no_log).1
    ≡ decision_from (opinions (default_hooks config) shell_use)
run_hooks-decision_from_example = run_hooks-decision_from (default_hooks config) shell_use no_log

run_hooks-blocked_example : is_blocking (run_hooks (default_hooks config) shell_use no_log).1 ≡ true
run_hooks-blocked_example =
    run_hooks-blocked (default_hooks config) shell_use no_log denial denial_heard refl
