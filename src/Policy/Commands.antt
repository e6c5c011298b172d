-- ===== src/Policy/Commands.antt =====
-- src/native-agent-policy.ts: the decision on a command, and the risk of a tool.
pub mod Laws
use xautojs_devspace.Policy.Roots.{Platform, is_path_inside_root}
use xautojs_devspace.Prelude.{
  Bool, List, Option, [], any, false, if◌then◌else◌, map, none, not, some, true, ◌&&◌, ◌++◌, ◌||◌,
  ◌∷◌,
}
use xautojs_devspace.Prelude.Text.{Text, includes, text, text_eq, trim, truthy}

pub data PermissionProfile : Type 0 where
  read_only workspace_write trusted_local : PermissionProfile

pub data ToolRisk : Type 0 where
  low medium high : ToolRisk

pub data PolicyDecision : Type 0 where
  allow block ask audit_only : PolicyDecision

pub record PolicyResult : Type 0 where
  pub decision : PolicyDecision
  pub risk : ToolRisk
  pub reason : Text
  pub approval_title : Option Text
  pub approval_message : Option Text

-- `internal` and `network` are false where the source leaves them out.
pub record CommandInput : Type 0 where
  pub permission_profile : PermissionProfile
  pub argv : List Text
  pub cwd : Text
  pub workspace_root : Option Text
  pub internal : Bool
  pub network : Bool

unfoldable pub high_risk_commands : List Text
unfolding text map
high_risk_commands = map text (
    "rm" ∷ "rmdir" ∷ "del" ∷ "erase" ∷ "format" ∷ "mkfs" ∷ "sudo" ∷ "su" ∷ "chmod" ∷ "chown"
    ∷ "curl" ∷ "wget" ∷ "ssh" ∷ "scp" ∷ "sftp" ∷ "powershell" ∷ "powershell.exe" ∷ "pwsh" ∷ "cmd"
    ∷ "cmd.exe" ∷ "bash" ∷ "sh" ∷ "zsh" ∷ [])

unfoldable pub medium_risk_commands : List Text
unfolding text map
medium_risk_commands =
    map text ("git" ∷ "npm" ∷ "npx" ∷ "pnpm" ∷ "yarn" ∷ "node" ∷ "python" ∷ "python3" ∷ [])

abbrev is_high : ToolRisk → Bool
is_high high = true
is_high _ = false

abbrev plain_result : PolicyDecision → Text → ToolRisk → PolicyResult
plain_result decision reason risk = record {
  decision = decision;
  risk = risk;
  reason = reason;
  approval_title = none;
  approval_message = none;
}

abbrev ask_result : Text → ToolRisk → Text → Text → PolicyResult
ask_result reason risk title message = record {
  decision = ask;
  risk = risk;
  reason = reason;
  approval_title = some title;
  approval_message = some message;
}

unfoldable pub command_risk : Text → CommandInput → ToolRisk
unfolding any text_eq high_risk_commands medium_risk_commands
command_risk command input =
    if input.network || any (text_eq command) high_risk_commands
    then high
    else if any (text_eq command) medium_risk_commands || input.internal
    then medium
    else low

module _ (platform : Platform) where
  open platform use {resolve, basename, to_lower_case, exec_path}

  unfoldable pub command_name : Text → Text
  command_name command_path = to_lower_case (basename command_path)

  unfoldable pub is_node_like : Text → Bool
  unfolding text_eq text
  is_node_like command =
      text_eq command (text "node")
      || text_eq command (text "node.exe")
      || text_eq command (to_lower_case (basename exec_path))

  -- `input.workspaceRoot && !isPathInsideRoot(resolve(input.cwd), resolve(input.workspaceRoot))`
  unfoldable pub is_outside : Option Text → Text → Bool
  is_outside none cwd = false
  is_outside (some root) cwd =
      truthy root && not (is_path_inside_root platform (resolve cwd) (resolve root))

  -- The decision of `workspace_write`, which is what is left after the other profiles.
  unfoldable pub decide_workspace_write : Text → ToolRisk → CommandInput → PolicyResult
  decide_workspace_write command risk input =
      if input.internal && is_node_like command
      then plain_result allow
          (text "Internal Xautojs workflow command is allowed for workspace_write.") risk
      else if is_high risk
      then ask_result (text "workspace_write requires approval for high-risk command: " ++ command)
          risk (text "Approve high-risk native command")
          ((text "Allow Xautojs to run high-risk command '" ++ command)
            ++ text "' inside the workspace?")
      else if input.network
      then ask_result (text "workspace_write requires approval for network-enabled commands.") high
          (text "Approve network-enabled native command")
          (text "Allow Xautojs to run a network-enabled command inside the workspace?")
      else plain_result allow
          (text "workspace_write permits low and medium risk local commands inside the workspace.")
          risk

  -- The decision on a command that is given and inside the workspace.
  unfoldable pub decide : PermissionProfile → Text → CommandInput → PolicyResult
  unfolding decide_workspace_write
  decide read_only program input =
      plain_result block (text "read_only native agent profile does not allow process execution.")
        medium
  decide trusted_local program input =
      let risk : ToolRisk = command_risk (command_name program) input in
      if is_high risk
      then plain_result audit_only
          (text "trusted_local permits the command but records a high-risk audit decision.") risk
      else plain_result allow (text "trusted_local permits the command.") risk
  decide workspace_write program input =
      let command : Text = command_name program in
      decide_workspace_write command (command_risk command input) input

  unfoldable pub evaluate_argv : List Text → CommandInput → PolicyResult
  unfolding decide
  evaluate_argv [] input = plain_result block (text "Command argv must not be empty.") high
  evaluate_argv (program ∷ _) input =
      if not (truthy (trim program))
      then plain_result block (text "Command argv must not be empty.") high
      else if is_outside input.workspace_root input.cwd
      then plain_result block (text "Command working directory is outside the workspace root.") high
      else decide input.permission_profile program input

  unfoldable pub evaluate_command_policy : CommandInput → PolicyResult
  unfolding evaluate_argv
  evaluate_command_policy input = evaluate_argv input.argv input

  -- `looksDangerous`
  unfoldable pub looks_dangerous : Text → Bool
  unfolding any includes text map
  looks_dangerous command =
      let lowered : Text = to_lower_case command in
      any (includes lowered) (
        map text
          ("rm -rf" ∷ "sudo " ∷ "curl " ∷ "wget " ∷ "powershell" ∷ "cmd.exe" ∷ "chmod 777" ∷ []))

  -- `command` is the input's field of that name, where it is a string.
  unfoldable pub classify_tool_risk : Text → Option Text → ToolRisk
  unfolding any text_eq text map looks_dangerous
  classify_tool_risk tool_name command =
      if any (text_eq tool_name) (map text ("read" ∷ "grep" ∷ "glob" ∷ "ls" ∷ []))
      then low
      else if any (text_eq tool_name) (map text ("write" ∷ "edit" ∷ []))
      then medium
      else if any (text_eq tool_name) (map text ("shell" ∷ "process" ∷ []))
      then high
      else elim command [ none ↦ medium | some c ↦ if looks_dangerous c then high else medium ]
