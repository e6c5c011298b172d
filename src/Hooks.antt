-- ===== src/Hooks.antt =====
-- src/native-agent-hooks.ts and src/native-agent-hook-config.ts: hooks that decide about the steps of
-- a native agent's run, from handlers that are registered and from rules of a configuration.
-- `Parse` and `Config` read the configuration, `Manager` runs the hooks.
pub mod Parse
pub mod Config
pub mod Manager
pub mod Defaults
pub mod Reference
mod Tests
use xautojs_devspace.Policy.Commands.{audit_only}
use xautojs_devspace.Prelude.{Bool, List, Option}
use xautojs_devspace.Prelude.Json.{JsonFields}
use xautojs_devspace.Prelude.Text.{Text}

-- `NativeRuntimeHookDecision`
pub data HookDecision : Type 0 where
  hook_audit_only hook_allow hook_ask hook_deny hook_block : HookDecision

-- `NativeRuntimeHookRule`; the names of events, stages, phases, tools and risks are strings.
pub record HookRule : Type 0 where
  pub id : Text
  pub events : List Text
  pub stages : Option (List Text)
  pub workflow_ids : Option (List Text)
  pub step_phases : Option (List Text)
  pub tool_names : Option (List Text)
  pub risks : Option (List Text)
  pub policy_decisions : Option (List Text)
  pub decision : HookDecision
  pub continues : Option Bool
  pub audit_only : Option Bool
  pub reason : Option Text
  pub additional_context : Option Text

pub record HookConfig : Type 0 where
  pub enabled : Bool
  pub rules : List HookRule

pub record HookInput : Type 0 where
  pub agent_run_id : Option Text
  pub hook_event_name : Text
  pub payload : Option JsonFields

pub record HookResult : Type 0 where
  pub decision : HookDecision
  pub continues : Bool
  pub reason : Option Text
  pub audit_only : Bool
  pub additional_context : Option Text
  pub rule_id : Option Text
