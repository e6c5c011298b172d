-- ===== src/Policy/Commands/Laws.antt =====
-- When src/native-agent-policy.ts lets a command run without asking.
use xautojs_devspace.Policy.Commands.{
  CommandInput, PermissionProfile, PolicyDecision, ToolRisk, allow, ask, audit_only, command_name,
  command_risk, decide, decide_workspace_write, evaluate_argv, evaluate_command_policy, high,
  is_node_like, is_outside, read_only, trusted_local, workspace_write,
}
use xautojs_devspace.Policy.Roots.{Platform}
use xautojs_devspace.Prelude.{
  List, [], arith, false, inl, refl, some, subst, sym, true, ◌∷◌, ◌≡◌, ◌≢◌, ◌⊎◌,
}
use xautojs_devspace.Prelude.Text.{Text, text, trim, truthy}

-- Access to the network makes the risk high.
command_risk_network :
    (command : Text) (input : CommandInput)
    → input.network ≡ true
    → command_risk command input ≡ high
unfolding command_risk
command_risk_network command input n = rw n

-- The command is executed, and nobody is asked.
abbrev pub Runs : PolicyDecision → Type 0
Runs decision = (decision ≡ allow) ⊎ (decision ≡ audit_only)

module _ (platform : Platform) where
  abbrev pub program_risk : Text → CommandInput → ToolRisk
  program_risk program input = command_risk (command_name platform program) input

  -- Where the decision to run a program is recorded as one of high risk.
  abbrev pub IsRecorded : Text → CommandInput → PolicyDecision → Type 0
  IsRecorded program input decision =
      ((decision ≡ audit_only)
        × (input.permission_profile ≡ trusted_local)
        × (program_risk program input ≡ high))
      ⊎ (decision ≡ allow)
        × ((input.permission_profile ≢ trusted_local) ⊎ (program_risk program input ≢ high))

  -- What lets a program run without a question.
  abbrev pub IsPermitted : Text → CommandInput → Type 0
  IsPermitted program input =
      (input.permission_profile ≡ trusted_local)
      ⊎ (input.permission_profile ≡ workspace_write)
        × ((program_risk program input ≢ high)
            ⊎ (input.internal ≡ true)
              × (is_node_like platform (command_name platform program) ≡ true))

  decide-Runs :
      (profile : PermissionProfile) (program : Text) (input : CommandInput)
      → profile ≡ input.permission_profile
      → Runs (decide platform profile program input).decision
      → IsPermitted program input
        × IsRecorded program input (decide platform profile program input).decision
  unfolding decide decide_workspace_write
  decide-Runs read_only program input e h = absurd (ground arith)
  decide-Runs trusted_local program input e h = (inl (sym e), ground arith)
  decide-Runs workspace_write program input e h = (ground arith, ground arith)

  -- The question of `workspace_write` about the network is never asked: a command with network
  -- access, whatever the program and the rest of the input, is allowed only where it is internal and
  -- node-like, and is else asked about as one of high risk.
  pub decide_workspace_write_network :
      (program : Text) (input : CommandInput)
      → input.network ≡ true
      → let result = decide_workspace_write platform program (command_risk program input) input in
        ((input.internal ≡ true)
          × (is_node_like platform program ≡ true)
          × (result.decision ≡ allow))
        ⊎ ((result.decision ≡ ask)
            × (result.approval_title ≡ some (text "Approve high-risk native command")))
  unfolding decide_workspace_write
  decide_workspace_write_network program input n =
      ground (arith, command_risk_network program input n)

  evaluate_argv-Runs :
      (argv : List Text) (input : CommandInput)
      → Runs (evaluate_argv platform argv input).decision
      → (program : Text) × (rest : List Text) × (argv ≡ program ∷ rest)
        × (truthy (trim program) ≡ true)
        × (is_outside platform input.workspace_root input.cwd ≡ false)
        × (evaluate_argv platform argv input
            ≡ decide platform input.permission_profile program input)
  unfolding evaluate_argv
  evaluate_argv-Runs [] input h = absurd (ground arith)
  evaluate_argv-Runs (program ∷ rest) input h =
      (program, rest, refl, ground arith, ground arith, ground arith)

  -- A command runs without a question, that is with the decision `allow` or `audit_only`, only if a
  -- program is given, the working directory is not outside the workspace, and the profile is
  -- `trusted_local`, or it is `workspace_write` and the risk not high or the command internal and
  -- node-like; the decision is `audit_only` exactly where the profile is `trusted_local` and the
  -- risk high.
  pub evaluate_command_policy-Runs :
      (input : CommandInput)
      → Runs (evaluate_command_policy platform input).decision
      → (program : Text) × (rest : List Text) × (input.argv ≡ program ∷ rest)
        × (truthy (trim program) ≡ true)
        × (is_outside platform input.workspace_root input.cwd ≡ false)
        × IsPermitted program input
        × IsRecorded program input (evaluate_command_policy platform input).decision
  unfolding evaluate_command_policy
  evaluate_command_policy-Runs input h =
      let (program, rest, e, given, inside, decided) = evaluate_argv-Runs input.argv input h in
      let (permitted, recorded) =
        decide-Runs input.permission_profile program input refl
          (subst (λ r. Runs r.decision) decided h) in
      (
        program,
        rest,
        e,
        given,
        inside,
        permitted,
        subst (λ r. IsRecorded program input r.decision) (sym decided) recorded,
      )
