-- ===== src/Agent/Single.antt =====
-- One client at a time: src/desktop-outbound-agent-lifecycle.ts over
-- src/local-agent-outbound-client.ts.
-- A client that was left has no socket and no interval that runs.
use xautojs_devspace.Agent.{ClientEvent, new_client, step, stop}
use xautojs_devspace.Agent.Closing.{stop-quiet}
use xautojs_devspace.Agent.Intervals.{AllHeld, start-AllHeld, step-AllHeld}
use xautojs_devspace.Agent.Lifecycle.{
  AgentConfig, AgentEvent, AgentSnapshot, AgentStatus, Lifecycle, OutboundClient, agent_restarts,
  agent_running, agent_starts, agent_step, agent_stopped, agent_stops, client_does, make_client,
  no_agent, normalize_config, restart_agent, run_agent, start_agent, stop_agent,
}
use xautojs_devspace.Prelude.{
  All, All-append, Bool, List, Option, [], inl, inr, none, refl, some, ℕ, ◌∷◌, ◌≡◌,
}
use xautojs_devspace.Prelude.Result.{Result, Result-cases, ok}
use xautojs_devspace.Prelude.Text.{Text, text}

abbrev pub IsQuiet : OutboundClient → Type 0
IsQuiet c = (c.client.socket ≡ none) × (c.client.running ≡ [])

-- The snapshot says whether there is a client, whose intervals are held.
abbrev pub Shown : Option OutboundClient → AgentStatus → Type 0
Shown none agent_stopped = Unit {0}
Shown none agent_running = ⊥
Shown (some c) agent_stopped = ⊥
Shown (some c) agent_running = AllHeld c.client

pub record IsSingle (s : Lifecycle) : Type 0 where
  pub shown : Shown s.client s.snapshot.status
  pub quiet : All IsQuiet s.left

left-IsQuiet :
    (reason now : Text) (s : Lifecycle) (client : Option OutboundClient) (status : AgentStatus)
    → s.client ≡ client
    → Shown client status
    → All IsQuiet s.left
    → All IsQuiet (stop_agent reason now s).left
unfolding stop_agent
left-IsQuiet reason now s none status e shown quiet = rw e quiet
left-IsQuiet reason now s (some c) agent_stopped e shown quiet = absurd shown
left-IsQuiet reason now s (some c) agent_running e shown quiet = rw e (
    All-append IsQuiet s.left (record c { client = stop reason c.client } ∷ []) quiet
      (stop-quiet reason c.client shown, tt))

stop_agent-IsSingle :
    (reason now : Text) (s : Lifecycle) → IsSingle s → IsSingle (stop_agent reason now s)
unfolding stop_agent
stop_agent-IsSingle reason now s i = record {
  shown = tt;
  quiet = left-IsQuiet reason now s s.client s.snapshot.status refl i.shown i.quiet;
}

client_shown :
    (ready : ℕ → Bool) (now : Text) (event : ClientEvent) (c : OutboundClient)
    (status : AgentStatus)
    → Shown (some c) status
    → Shown (some (record c { client = step c.options ready now event c.client })) status
client_shown ready now event c agent_stopped shown = shown
client_shown ready now event c agent_running shown =
    step-AllHeld c.options ready now event c.client shown

module _ (to_lower : Text → Text) where
  start_agent-IsSingle :
      (config : AgentConfig) (stopping now : Text) (connected : Result Text (Unit {0}))
      (s : Lifecycle)
      → IsSingle s
      → IsSingle (start_agent to_lower config stopping now connected s).0
  unfolding start_agent make_client
  start_agent-IsSingle config stopping now connected s i =
      let before = stop_agent-IsSingle (text "restarting") stopping s i in
      elim (Result-cases (normalize_config to_lower config)) [
        | inr (e, bad) ↦ rw (start_agent, bad) before
        | inl (normalized, good) ↦ elim (Result-cases connected) [
          | inl (done, made) ↦
              rw (start_agent, good)
                (rw made (record { shown = start-AllHeld new_client tt; quiet = before.quiet }))
          | inr (e, unmade) ↦
              rw (start_agent, good) (rw unmade (record { shown = tt; quiet = before.quiet }))
        ]
      ]

  agent_step-IsSingle :
      (event : AgentEvent to_lower) (s : Lifecycle)
      → IsSingle s
      → IsSingle (agent_step to_lower event s)
  unfolding agent_step restart_agent
  agent_step-IsSingle (agent_starts config stopping now connected) s i =
      start_agent-IsSingle config stopping now connected s i
  agent_step-IsSingle (agent_restarts stopping now connected) s i =
      elim s.config
        as (λ o.
          IsSingle
            (elim o as (λ _. Lifecycle × Result Text AgentSnapshot) [
              | none ↦ (s, ok s.snapshot)
              | some config ↦ start_agent to_lower config stopping now connected s
            ]).0) [
              | none ↦ i
              | some config ↦ start_agent-IsSingle config stopping now connected s i
            ]
  agent_step-IsSingle (agent_stops reason now) s i = stop_agent-IsSingle reason now s i
  agent_step-IsSingle (client_does ready now event) s i =
      (elim s.client
          as (λ o.
            Shown o s.snapshot.status
            → IsSingle (elim o as (λ _. Lifecycle) [
              | none ↦ s
              | some c ↦ record s {
                client = some (record c { client = step c.options ready now event c.client });
              }
            ])) [
              | none ↦ λ shown. i
              | some c ↦ λ shown. record {
                shown = client_shown ready now event c s.snapshot.status shown;
                quiet = i.quiet;
              }
            ])
        i.shown

  run_agent-IsSingle_from :
      (events : List (AgentEvent to_lower)) (s : Lifecycle)
      → IsSingle s
      → IsSingle (run_agent to_lower events s)
  unfolding run_agent
  run_agent-IsSingle_from [] s i = i
  run_agent-IsSingle_from (event ∷ rest) s i =
      run_agent-IsSingle_from rest (agent_step to_lower event s) (agent_step-IsSingle event s i)

  -- Through every history of an agent, its calls and the events of its client, the snapshot says
  -- running exactly while there is a client, each interval that runs is one that this client holds,
  -- and every client before it was left with no socket and no interval running.
  pub run_agent-IsSingle :
      (events : List (AgentEvent to_lower)) → IsSingle (run_agent to_lower events no_agent)
  run_agent-IsSingle events =
      run_agent-IsSingle_from events no_agent (record { shown = tt; quiet = tt })
