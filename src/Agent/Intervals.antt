-- ===== src/Agent/Intervals.antt =====
-- The intervals of the outbound client: src/local-agent-outbound-client.ts.
use xautojs_devspace.Agent.{
  Client, ClientEvent, ClientOptions, Interval, answers, beats, clear_interval, closes, on_open,
  on_socket_close, opens, publish_catalog, publishes, run_client, send_heartbeat, send_hello,
  send_json, start, start_catalog_refresh, start_heartbeat, starts, step, stop,
  stop_catalog_refresh, stop_heartbeat, stops, ticks,
}
use xautojs_devspace.Channel.Messages.{AgentMessage}
use xautojs_devspace.Prelude.{
  All, Bool, Bool-cases, List, Option-cases, [], arith, false, if◌then◌else◌, inl, inr, none, refl,
  some, suc, true, ℕ, ◌==◌, ◌∷◌, ◌≡◌, ◌≢◌, ◌⊎◌,
}
use xautojs_devspace.Prelude.Json.{Json}
use xautojs_devspace.Prelude.Text.{Text}

-- The client holds the interval, and can clear it.
abbrev pub IsHeld : Client → Interval → Type 0
IsHeld c r = (c.heartbeat ≡ some r.number) ⊎ (c.catalog_refresh ≡ some r.number)

abbrev pub AllHeld : Client → Type 0
AllHeld c = All (IsHeld c) c.running

clear_interval-All :
    (P Q : Interval → Type 0) (t : ℕ) (rs : List Interval)
    → ((r : Interval) → P r → r.number ≢ t → Q r)
    → All P rs
    → All Q (clear_interval t rs)
unfolding clear_interval
clear_interval-All P Q t [] f a = tt
clear_interval-All P Q t (r ∷ rs) f (p, a) = elim (Bool-cases (r.number == t)) [
  | inl same ↦ rw same (clear_interval-All P Q t rs f a)
  | inr other ↦ rw other (f r p (λ e. ground arith), clear_interval-All P Q t rs f a)
]

All-imp :
    (P Q : Interval → Type 0) (rs : List Interval)
    → ((r : Interval) → P r → Q r)
    → All P rs
    → All Q rs
All-imp P Q [] f a = tt
All-imp P Q (r ∷ rs) f (p, a) = (f r p, All-imp P Q rs f a)

stop_heartbeat-AllHeld : (c : Client) → AllHeld c → AllHeld (stop_heartbeat c)
unfolding stop_heartbeat
stop_heartbeat-AllHeld c a = elim (Option-cases c.heartbeat) [
  | inl off ↦ rw off (
      All-imp (IsHeld c) (IsHeld (record c { heartbeat = none })) c.running
        (λ r held. elim held [ inl e ↦ absurd (ground arith) | inr e ↦ inr e ]) a)
  | inr (t, on) ↦ rw on (
      clear_interval-All (IsHeld c)
        (IsHeld (record c { heartbeat = none; running = clear_interval t c.running })) t c.running
        (λ r held other. elim held [ inl e ↦ absurd (ground arith) | inr e ↦ inr e ]) a)
]

stop_catalog_refresh-AllHeld : (c : Client) → AllHeld c → AllHeld (stop_catalog_refresh c)
unfolding stop_catalog_refresh
stop_catalog_refresh-AllHeld c a = elim (Option-cases c.catalog_refresh) [
  | inl off ↦ rw off (
      All-imp (IsHeld c) (IsHeld (record c { catalog_refresh = none })) c.running
        (λ r held. elim held [ inr e ↦ absurd (ground arith) | inl e ↦ inl e ]) a)
  | inr (t, on) ↦ rw on (
      clear_interval-All (IsHeld c)
        (IsHeld (record c { catalog_refresh = none; running = clear_interval t c.running })) t
        c.running (λ r held other. elim held [ inr e ↦ absurd (ground arith) | inl e ↦ inl e ]) a)
]

pub stopped_heartbeat : (c : Client) → (stop_heartbeat c).heartbeat ≡ none
unfolding stop_heartbeat
stopped_heartbeat c = ground arith

pub stopped_refresh :
    (c : Client)
    → ((stop_catalog_refresh c).catalog_refresh ≡ none)
      × ((stop_catalog_refresh c).heartbeat ≡ c.heartbeat)
unfolding stop_catalog_refresh
stopped_refresh c = ground arith

start_heartbeat-AllHeld : (c : Client) → AllHeld c → AllHeld (start_heartbeat c)
unfolding start_heartbeat
start_heartbeat-AllHeld c a =
    let s : Client = stop_heartbeat c in
    (
      inl refl,
      All-imp (IsHeld s) (IsHeld (start_heartbeat c)) s.running
          (λ r held. elim held [
            | inl e ↦ absurd (ground (arith, e, stopped_heartbeat c))
            | inr e ↦ inr e
          ])
          (stop_heartbeat-AllHeld c a),
    )

start_catalog_refresh-AllHeld :
    (options : ClientOptions) (c : Client) → AllHeld c → AllHeld (start_catalog_refresh options c)
unfolding start_catalog_refresh
start_catalog_refresh-AllHeld options c a =
    let s : Client = stop_catalog_refresh c in
    elim options.has_catalog_provider
      as (λ b. AllHeld (
        if b
        then record s {
          catalog_refresh = some s.intervals;
          intervals = suc s.intervals;
          running = record { number = s.intervals; sends_heartbeat = false } ∷ s.running;
        }
        else s)) [
          | false ↦ stop_catalog_refresh-AllHeld c a
          | true ↦ (
            inr refl,
            All-imp (IsHeld s)
                (λ r. (s.heartbeat ≡ some r.number) ⊎ (some s.intervals ≡ some r.number)) s.running
                (λ r held. elim held [
                  | inl e ↦ inl e
                  | inr e ↦ absurd (ground (arith, e, stopped_refresh c))
                ])
                (stop_catalog_refresh-AllHeld c a),
          )
        ]

send_json-AllHeld :
    (ready : ℕ → Bool) (message : AgentMessage Json) (c : Client)
    → AllHeld c
    → AllHeld (send_json ready message c)
unfolding send_json
send_json-AllHeld ready message c a = elim (Option-cases c.socket) [
  | inl off ↦ rw off a
  | inr (socket, on) ↦ elim (Bool-cases (ready socket)) [
    | inl yes_ready ↦ rw on (rw yes_ready a)
    | inr not_ready ↦ rw on (rw not_ready a)
  ]
]

pub start-AllHeld : (c : Client) → AllHeld c → AllHeld (start c)
unfolding start
start-AllHeld c a = elim (Option-cases c.socket) [ inl off ↦ rw off a | inr (socket, on) ↦ rw on a ]

pub stop-AllHeld : (reason : Text) (c : Client) → AllHeld c → AllHeld (stop reason c)
unfolding stop
stop-AllHeld reason c a =
    let b =
      stop_catalog_refresh-AllHeld (stop_heartbeat (record c { socket = none }))
        (stop_heartbeat-AllHeld (record c { socket = none }) a) in
    elim (Option-cases c.socket) [ inl off ↦ rw off b | inr (socket, on) ↦ rw on b ]

pub step-AllHeld :
    (options : ClientOptions) (ready : ℕ → Bool) (now : Text) (event : ClientEvent) (c : Client)
    → AllHeld c
    → AllHeld (step options ready now event c)
unfolding step on_open send_hello send_heartbeat publish_catalog on_socket_close
step-AllHeld options ready now starts c a = start-AllHeld c a
step-AllHeld options ready now (stops reason) c a = stop-AllHeld reason c a
step-AllHeld options ready now closes c a =
    stop_catalog_refresh-AllHeld (stop_heartbeat c) (stop_heartbeat-AllHeld c a)
step-AllHeld options ready now opens c a =
    start_catalog_refresh-AllHeld options (start_heartbeat (send_hello options ready now c))
      (start_heartbeat-AllHeld (send_hello options ready now c) (send_json-AllHeld ready _ c a))
step-AllHeld options ready now (answers message) c a = send_json-AllHeld ready message c a
step-AllHeld options ready now (ticks t) c a = elim (Bool-cases (beats t c.running)) [
  | inl beating ↦ rw beating (send_json-AllHeld ready _ c a)
  | inr silent ↦ rw silent a
]
step-AllHeld options ready now (publishes version workspaces) c a =
    elim (Bool-cases options.has_catalog_provider) [
      | inl given ↦ rw given (send_json-AllHeld ready _ c a)
      | inr missing ↦ rw missing a
    ]

pub run_client-AllHeld :
    (options : ClientOptions) (events : List ((ℕ → Bool) × Text × ClientEvent)) (c : Client)
    → AllHeld c
    → AllHeld (run_client options events c)
unfolding run_client
run_client-AllHeld options [] c a = a
run_client-AllHeld options ((ready, now, event) ∷ rest) c a =
    run_client-AllHeld options rest (step options ready now event c)
      (step-AllHeld options ready now event c a)
