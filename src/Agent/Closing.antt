-- ===== src/Agent/Closing.antt =====
-- How the outbound client ends: src/local-agent-outbound-client.ts.
use xautojs_devspace.Agent.{
  Client, ClientEvent, ClientOptions, Interval, new_client, on_socket_close, run_client, stop,
  stop_catalog_refresh, stop_heartbeat,
}
use xautojs_devspace.Agent.Intervals.{
  AllHeld, IsHeld, run_client-AllHeld, stop-AllHeld, stopped_heartbeat, stopped_refresh,
}
use xautojs_devspace.Prelude.{
  All, Bool, List, Option, Option-cases, [], ap, arith, inl, inr, none, refl, some, sym, ℕ, ◌++◌,
  ◌∙◌, ◌∷◌, ◌≡◌,
}
use xautojs_devspace.Prelude.Text.{Text}

none_held :
    (c : Client) (rs : List Interval)
    → c.heartbeat ≡ none
    → c.catalog_refresh ≡ none
    → All (IsHeld c) rs
    → rs ≡ []
none_held c [] h r a = refl
none_held c (x ∷ rs) h r (inl e, a) = absurd (ground arith)
none_held c (x ∷ rs) h r (inr e, a) = absurd (ground arith)

kept_by_heartbeat :
    (c : Client) → ((stop_heartbeat c).socket ≡ c.socket) × ((stop_heartbeat c).closed ≡ c.closed)
unfolding stop_heartbeat
kept_by_heartbeat c = ground arith

kept_by_refresh :
    (c : Client)
    → ((stop_catalog_refresh c).socket ≡ c.socket) × ((stop_catalog_refresh c).closed ≡ c.closed)
unfolding stop_catalog_refresh
kept_by_refresh c = ground arith

abbrev cleared : Client → Client
cleared c = stop_catalog_refresh (stop_heartbeat (record c { socket = none }))

cleared_off :
    (c : Client)
    → ((cleared c).heartbeat ≡ none)
      × ((cleared c).catalog_refresh ≡ none)
      × ((cleared c).socket ≡ none)
      × ((cleared c).closed ≡ c.closed)
cleared_off c =
    let d : Client = record c { socket = none } in
    let (refresh_off, same) = stopped_refresh (stop_heartbeat d) in
    let (socket_off, closed_kept) = kept_by_heartbeat d in
    let (socket_same, closed_same) = kept_by_refresh (stop_heartbeat d) in
    (same ∙ stopped_heartbeat d, refresh_off, socket_same ∙ socket_off, closed_same ∙ closed_kept)

append_nil : {A : Type 0} (xs : List A) → xs ++ [] ≡ xs
append_nil [] = refl
append_nil {A} (x ∷ xs) = ap (λ (l : List A). x ∷ l) (append_nil xs)

-- What `stop` asks of the socket that it had.
abbrev pub asked_close : Option ℕ → Text → List (ℕ × Text)
asked_close none reason = []
asked_close (some socket) reason = (socket, reason) ∷ []

stop-cleared :
    (reason : Text) (c : Client)
    → ((stop reason c).heartbeat ≡ none)
      × ((stop reason c).catalog_refresh ≡ none)
      × ((stop reason c).socket ≡ none)
      × ((stop reason c).closed ≡ c.closed ++ asked_close c.socket reason)
unfolding stop
stop-cleared reason c =
    let (heartbeat_off, refresh_off, socket_off, kept) = cleared_off c in
    elim (Option-cases c.socket) [
      | inl gone ↦
          rw gone (heartbeat_off, refresh_off, socket_off, kept ∙ sym (append_nil c.closed))
      | inr (socket, on) ↦ rw on (
        heartbeat_off,
        refresh_off,
        socket_off,
        ap (λ (l : List (ℕ × Text)). l ++ (socket, reason) ∷ []) kept,
      )
    ]

-- A client whose intervals are held is quiet after `stop`.
pub stop-quiet :
    (reason : Text) (c : Client)
    → AllHeld c
    → ((stop reason c).socket ≡ none) × ((stop reason c).running ≡ [])
stop-quiet reason c a =
    let (heartbeat_off, refresh_off, socket_off, closed) = stop-cleared reason c in
    (
      socket_off,
      none_held (stop reason c) (stop reason c).running heartbeat_off refresh_off
          (stop-AllHeld reason c a),
    )

-- Through every history of a client, `stop` leaves no interval running and no socket, and asks the
-- socket that the client had, if any, to close.
pub run_client-stop :
    (options : ClientOptions) (events : List ((ℕ → Bool) × Text × ClientEvent)) (reason : Text)
    → let c : Client = run_client options events new_client in
      ((stop reason c).running ≡ [])
      × ((stop reason c).socket ≡ none)
      × ((stop reason c).closed ≡ c.closed ++ asked_close c.socket reason)
run_client-stop options events reason =
    let c : Client = run_client options events new_client in
    let (socket_off, all_off) =
      stop-quiet reason c (run_client-AllHeld options events new_client tt) in
    (all_off, socket_off, (stop-cleared reason c).3)

-- After the close of a socket, whichever socket it is, `stop` asks none to close: where a client was
-- started again before its first socket's close was seen, the second socket stays open.
pub on_socket_close-forgets :
    (c : Client) (reason : Text)
    → let t : Client = stop reason (on_socket_close c) in (t.socket ≡ none) × (t.closed ≡ c.closed)
unfolding on_socket_close
on_socket_close-forgets c reason =
    let d : Client = on_socket_close c in
    let (_, _, socket_off, closed) = stop-cleared reason d in
    (
      socket_off,
      closed
          ∙ append_nil d.closed
          ∙ (kept_by_refresh (stop_heartbeat c)).1
          ∙ (kept_by_heartbeat c).1,
    )
