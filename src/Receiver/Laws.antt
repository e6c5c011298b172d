-- ===== src/Receiver/Laws.antt =====
-- On the desktop, nothing is written or run without an approval, where approvals are asked for:
-- src/local-agent-receiver.ts.
use xautojs_devspace.Channel.Messages.{ToolCallMessage}
use xautojs_devspace.Prelude.{
  Bool-cases, In, List, Option, [], ap, arith, if◌then◌else◌, inl, inr, length, length-append, ltb,
  none, refl, some, subst, suc, sym, true, zero, ℕ, ◌++◌, ◌∷◌, ◌≡◌, ◌≤◌, ◌⊎◌,
}
use xautojs_devspace.Prelude.Json.{Json}
use xautojs_devspace.Prelude.Result.{Result, Result-cases, err, ok}
use xautojs_devspace.Prelude.Text.{Text, slice_to, text}
use xautojs_devspace.Receiver.{
  AgentEffect, AgentHost, ApprovalDecision, ApprovalRequest, ApprovalRisk, ApprovalTool,
  ThrownError, answer_message, approval_denied, approval_request, approve_edit, approve_shell,
  approve_write, asked, call_context, edit_approval_title, execute_as, execute_tool_call, executed,
  handle_tool_call, high_risk, medium_risk, require_approval, required_workspace_id, run_approved,
  run_in_workspace, run_tool, shell_approval_title, write_approval_title,
}
use xautojs_devspace.Routing.Contract.{
  RemoteMcpToolName, edit_file, find_files, grep_files, list_directory, open_workspace, read_file,
  run_shell, show_changes, write_file,
}

-- The tools that an approval is asked for.
abbrev pub NeedsApproval : RemoteMcpToolName → Type 0
NeedsApproval write_file = Unit {0}
NeedsApproval edit_file = Unit {0}
NeedsApproval run_shell = Unit {0}
NeedsApproval _ = ⊥

-- The prompt was asked about this workspace and input, and approved.
pub record IsApproved (request_approval : ApprovalRequest → Result ThrownError ApprovalDecision)
    (effects : List AgentEffect) (tool_call_id workspace_id : Text) (input : Json) : Type 0 where
  pub request : ApprovalRequest
  pub decision : ApprovalDecision
  pub was_asked : In (asked request) effects
  pub answered : request_approval request ≡ ok decision
  pub approved : decision.approved ≡ true
  pub same_call : request.tool_call_id ≡ tool_call_id
  pub same_workspace : request.workspace_id ≡ workspace_id
  pub same_input : request.input ≡ input

module _ (host : AgentHost)
    (request_approval : ApprovalRequest → Result ThrownError ApprovalDecision)
    (asks : host.prompt ≡ some request_approval) (message : ToolCallMessage Json) where
  abbrev Guarded : List AgentEffect → Type 0
  Guarded effects =
      (tool : RemoteMcpToolName) (context : Json) (workspace : Option Text) (input : Json)
      → NeedsApproval tool
      → In (executed tool context workspace input) effects
      → (workspace_id : Text) × (workspace ≡ some workspace_id)
        × (input ≡ message.input)
        × IsApproved request_approval effects message.tool_call_id workspace_id input

  executed_only :
      {tool other : RemoteMcpToolName} {c d : Json} {w v : Option Text} {i j : Json}
      → In (executed tool c w i) (executed other d v j ∷ [])
      → (tool ≡ other) × (c ≡ d) × (w ≡ v) × (i ≡ j)
  executed_only m = elim m [ inl e ↦ (cc, cc, cc, cc) | inr n ↦ elim n [ ] ]

  none_executed :
      {tool : RemoteMcpToolName} {c : Json} {w : Option Text} {i : Json} (r : ApprovalRequest)
      → ¬ (In (executed tool c w i) (asked r ∷ []))
  none_executed r m = elim m [ inl e ↦ cc | inr n ↦ elim n [ ] ]

  -- The prompt was asked, and threw, denied or approved.
  require_approval-cases :
      (tool : ApprovalTool) (workspace_id : Text) (risk : ApprovalRisk) (title : Text)
      → let r : ApprovalRequest = approval_request message tool workspace_id risk title in
        let outcome : List AgentEffect × Result ThrownError (Unit {0}) =
          require_approval host message tool workspace_id risk title [] in
        ((e : ThrownError) × (outcome ≡ (asked r ∷ [], err e)))
        ⊎ ((outcome ≡ (asked r ∷ [], ok tt))
            × ((d : ApprovalDecision) × (request_approval r ≡ ok d) × (d.approved ≡ true)))
  unfolding require_approval
  require_approval-cases tool workspace_id risk title =
      let r : ApprovalRequest = approval_request message tool workspace_id risk title in
      elim (Result-cases (request_approval r)) [
        | inr (e, thrown) ↦ rw asks (rw thrown (inl (e, refl)))
        | inl (d, decided) ↦ elim (Bool-cases d.approved) [
          | inl agreed ↦ inr (rw asks (rw decided (rw agreed refl)), (d, decided, agreed))
          | inr denied ↦ rw asks (
              rw decided (
                rw denied
                  (inl (approval_denied tool message.tool_call_id workspace_id d.reason, refl))))
        ]
      ]

  run_approved-Guarded :
      (tool : ApprovalTool) (risk : ApprovalRisk) (title : Text)
      → Guarded (run_approved host message tool risk title []).0
  unfolding run_approved run_tool
  run_approved-Guarded tool risk title t context workspace input needs =
      elim (Result-cases (required_workspace_id message.workspace_id)) [
        | inr (e, missing) ↦ rw missing (λ m. elim m [ ])
        | inl (workspace_id, given) ↦ elim (require_approval-cases tool workspace_id risk title) [
          | inl (e, stopped) ↦ rw given (rw stopped (λ m. absurd (none_executed _ m)))
          | inr (passed, (decision, answered, agreed)) ↦ rw given (
              rw passed (λ m. elim m [
                | inl e ↦ absurd (ground arith)
                | inr n ↦
                    let (same_tool, same_context, same_workspace, same_input) = executed_only n in
                    (
                      workspace_id,
                      same_workspace,
                      same_input,
                      record {
                        request = approval_request message tool workspace_id risk title;
                        decision = decision;
                        was_asked = inl refl;
                        answered = answered;
                        approved = agreed;
                        same_call = refl;
                        same_workspace = refl;
                        same_input = sym same_input;
                      },
                    )
              ]))
        ]
      ]

  -- A tool that needs no approval.
  executed-Guarded :
      ¬ NeedsApproval message.tool
      → (w : Option Text)
      → Guarded (executed message.tool (call_context message) w message.input ∷ [])
  executed-Guarded free w t context workspace input needs m =
      let (same_tool, same_context, same_workspace, same_input) = executed_only m in
      absurd (free (subst NeedsApproval same_tool needs))

  run_in_workspace-Guarded :
      ¬ NeedsApproval message.tool → Guarded (run_in_workspace host message []).0
  unfolding run_in_workspace run_tool
  run_in_workspace-Guarded free t context workspace input needs =
      elim (Result-cases (required_workspace_id message.workspace_id)) [
        | inr (e, missing) ↦ rw missing (λ m. elim m [ ])
        | inl (workspace_id, given) ↦
            rw given (executed-Guarded free (some workspace_id) t context workspace input needs)
      ]

  execute_as-Guarded :
      (t : RemoteMcpToolName) → message.tool ≡ t → Guarded (execute_as host t message []).0
  unfolding execute_as run_tool
  execute_as-Guarded open_workspace e = executed-Guarded (rw e (λ needs. needs)) none
  execute_as-Guarded show_changes e = executed-Guarded (rw e (λ needs. needs)) none
  execute_as-Guarded read_file e = run_in_workspace-Guarded (rw e (λ needs. needs))
  execute_as-Guarded grep_files e = run_in_workspace-Guarded (rw e (λ needs. needs))
  execute_as-Guarded find_files e = run_in_workspace-Guarded (rw e (λ needs. needs))
  execute_as-Guarded list_directory e = run_in_workspace-Guarded (rw e (λ needs. needs))
  execute_as-Guarded write_file e =
      run_approved-Guarded approve_write medium_risk (write_approval_title host message.input)
  execute_as-Guarded edit_file e =
      run_approved-Guarded approve_edit medium_risk (edit_approval_title host message.input)
  execute_as-Guarded run_shell e =
      run_approved-Guarded approve_shell high_risk (shell_approval_title host message.input)

  answer_message-effects :
      (outcome : List AgentEffect × Result ThrownError Json)
      → (answer_message message outcome).0 ≡ outcome.0
  unfolding answer_message
  answer_message-effects (effects, ok result) = refl
  answer_message-effects (effects, err e) = refl

  -- Where approvals are asked for, a call leads to a write, an edit or a shell command only for the
  -- input of the call and in a workspace for which the prompt was asked, and approved, in this call.
  pub handle_tool_call-IsApproved :
      (tool : RemoteMcpToolName) (context : Json) (workspace : Option Text) (input : Json)
      → NeedsApproval tool
      → In (executed tool context workspace input) (handle_tool_call host message []).0
      → (workspace_id : Text) × (workspace ≡ some workspace_id)
        × (input ≡ message.input)
        × IsApproved request_approval
            (handle_tool_call host message []).0
            message.tool_call_id
            workspace_id
            input
  unfolding handle_tool_call execute_tool_call
  handle_tool_call-IsApproved tool context workspace input =
      rw (answer_message-effects (execute_tool_call host message []))
        (execute_as-Guarded message.tool refl tool context workspace input)

length-slice_to : (n : ℕ) (s : Text) → length (slice_to n s) ≤ n
unfolding slice_to
length-slice_to zero s = omega arith
length-slice_to (suc n) [] = omega arith
length-slice_to (suc n) (c ∷ s) = omega (arith, length-slice_to n s)

length-shown :
    (command cut : Text)
    → length cut ≤ 80
    → length (if ltb 80 (length command) then cut else command) ≤ 80
length-shown command cut h = ground arith

shown_whole :
    (command cut : Text)
    → length command ≤ 80
    → (if ltb 80 (length command) then cut else command) ≡ command
shown_whole command cut h = ground arith

-- The title of the prompt for a command is at most 99 code units long, however long the command is,
-- and a command of at most 80 code units is shown whole.
pub length-shell_approval_title :
    (host : AgentHost) (input : Json)
    → let command : Text = host.command_of input in
      (length (shell_approval_title host input) ≤ 99)
      × (length command ≤ 80
          → shell_approval_title host input ≡ text "Run shell command: " ++ command)
unfolding shell_approval_title text
length-shell_approval_title host input =
    let command : Text = host.command_of input in
    let cut : Text = slice_to 77 command ++ text "..." in
    let cut_short : length cut ≤ 80 =
      omega (arith, length-append (slice_to 77 command) (text "..."), length-slice_to 77 command) in
    (
      omega (arith, length-shown command cut cut_short),
      λ short. ap (λ (s : Text). text "Run shell command: " ++ s) (shown_whole command cut short),
    )
