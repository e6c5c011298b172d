-- ===== src/Socket/Laws.antt =====
-- What a device's socket may change: src/cloud-device-websocket-route.ts.
use xautojs_devspace.Channel.Messages.{
  AgentMessage, HelloMessage, heartbeat_message, hello_message, tool_result_message,
  workspace_catalog_message,
}
use xautojs_devspace.Prelude.{
  Bool-cases, Option, Option-cases, arith, inl, inr, none, refl, some, subst, true, ℕ, ◌∙◌, ◌≡◌,
  ◌⊎◌,
}
use xautojs_devspace.Prelude.Json.{Json}
use xautojs_devspace.Prelude.Text.{Text}
use xautojs_devspace.Socket.{
  SocketAuth, SocketMethod, SocketState, close_socket, device_id_of, differs, greet,
  handle_heartbeat, handle_workspace_catalog, hello_matches_auth, join, on_catalog, on_records,
  on_routing, pass_on,
}
use xautojs_devspace.Socket.Events.{
  admit, admit_first, admitted, greeting, handle_admission, handle_admitted, handle_hello,
  on_message, or_close, refused,
}
use xautojs_devspace.Socket.Messages.{parse_agent_message}

-- A socket that has said hello has said it as what it is authenticated for.
abbrev pub IsAuthorized : SocketAuth → Option HelloMessage → Type 0
IsAuthorized auth none = Unit {0}
IsAuthorized auth (some hello) = hello_matches_auth hello auth ≡ true

module _ (auth : SocketAuth) (connection : ℕ) (clock uuid : Text) where
  handle_admitted-hello :
      (message : AgentMessage Json) (s : SocketState)
      → (handle_admitted auth connection clock uuid message s).0.socket.hello ≡ s.socket.hello
  unfolding handle_admitted handle_heartbeat handle_workspace_catalog pass_on on_routing on_records
      on_catalog
  handle_admitted-hello (hello_message m) s = refl
  handle_admitted-hello (tool_result_message m) s = refl
  handle_admitted-hello (heartbeat_message m) s = ground arith
  handle_admitted-hello (workspace_catalog_message m) s = ground arith

  handle_hello-hello :
      (message : HelloMessage) (s : SocketState)
      → (handle_hello auth connection clock uuid message s).0.socket.hello ≡ some message
  unfolding handle_hello greet join pass_on on_routing on_records
  handle_hello-hello message s = ground arith

  or_close-hello :
      (m : SocketMethod (Unit {0})) (s : SocketState)
      → (or_close auth connection clock uuid m s).socket.hello ≡ (m s).0.socket.hello
  unfolding or_close close_socket
  or_close-hello m s = ground arith

  -- What an event may do to a socket.
  record Step (s t : SocketState) : Type 0 where
    authorized : IsAuthorized auth s.socket.hello → IsAuthorized auth t.socket.hello
    kept : (hello : HelloMessage) → s.socket.hello ≡ some hello → t.socket.hello ≡ some hello
    quiet : t.socket.hello ≡ none → t.services ≡ s.services

  -- An event that leaves the hello, of a socket that has said it or in which nothing is done.
  unchanged-Step :
      (s t : SocketState)
      → t.socket.hello ≡ s.socket.hello
      → (t.socket.hello ≡ none → t.services ≡ s.services)
      → Step s t
  unchanged-Step s t e q = record { authorized = λ a. rw e a; kept = λ hello h. e ∙ h; quiet = q }

  says :
      (m : HelloMessage) (s : SocketState)
      → (handle_admission auth connection clock uuid (greeting m) s).socket.hello ≡ some m
  unfolding handle_admission
  says m s = or_close-hello (handle_hello auth connection clock uuid m) s ∙ handle_hello-hello m s

  stays :
      (message : AgentMessage Json) (s : SocketState)
      → (handle_admission auth connection clock uuid (admitted message) s).socket.hello
        ≡ s.socket.hello
  unfolding handle_admission
  stays message s =
      or_close-hello (handle_admitted auth connection clock uuid message) s
      ∙ handle_admitted-hello message s

  refused-Step :
      (s : SocketState) (code : ℕ) (reason : Text)
      → Step s (handle_admission auth connection clock uuid (refused code reason) s)
  unfolding handle_admission close_socket
  refused-Step s code reason = unchanged-Step s _ refl (λ h. refl)

  handle_admission-Step :
      (message : AgentMessage Json) (s : SocketState) (found : Option HelloMessage)
      → s.socket.hello ≡ found
      → Step s (handle_admission auth connection clock uuid (admit auth found message) s)
  unfolding admit admit_first
  handle_admission-Step (hello_message m) s none e = elim (Bool-cases (hello_matches_auth m auth)) [
    | inl matches ↦ rw matches (record {
      authorized = λ _. rw (says m s) matches;
      kept = λ hello h. absurd (ground (arith, e, h));
      quiet = λ h. absurd (ground (arith, says m s, h));
    })
    | inr other ↦ rw other (refused-Step s _ _)
  ]
  handle_admission-Step (heartbeat_message m) s none e = refused-Step s _ _
  handle_admission-Step (workspace_catalog_message m) s none e = refused-Step s _ _
  handle_admission-Step (tool_result_message m) s none e = refused-Step s _ _
  handle_admission-Step message s (some hello) e =
      elim (Bool-cases (differs (device_id_of message) (some hello.device_id))) [
        | inl other ↦ rw other (refused-Step s _ _)
        | inr same ↦ rw same (
            unchanged-Step s _ (stays message s)
              (λ h. absurd (ground (arith, e, stays message s, h))))
      ]

  on_message-Step :
      (raw : Option Json) (s : SocketState) → Step s (on_message auth connection clock uuid raw s)
  unfolding on_message close_socket
  on_message-Step raw s = elim (Option-cases (parse_agent_message raw)) [
    | inl unread ↦ rw (on_message, unread) (unchanged-Step s _ refl (λ h. refl))
    | inr (message, read) ↦
        rw (on_message, read) (handle_admission-Step message s s.socket.hello refl)
  ]

  -- A message, whatever it is, leaves a socket that has said a hello which matches its token, or one
  -- that has said none; in the second case no service has changed. The socket before has said such a
  -- hello, or none.
  pub on_message-IsAuthorized :
      (raw : Option Json) (s : SocketState)
      → IsAuthorized auth s.socket.hello
      → let t : SocketState = on_message auth connection clock uuid raw s in
        ((hello : HelloMessage) × (t.socket.hello ≡ some hello)
          × (hello_matches_auth hello auth ≡ true))
        ⊎ ((t.socket.hello ≡ none) × (t.services ≡ s.services))
  on_message-IsAuthorized raw s a =
      let t : SocketState = on_message auth connection clock uuid raw s in
      let step = on_message-Step raw s in
      elim (Option-cases t.socket.hello) [
        | inl none_said ↦ inr (none_said, step.quiet none_said)
        | inr (hello, said) ↦ inl (hello, said, subst (IsAuthorized auth) said (step.authorized a))
      ]

  -- Once a socket has said hello, no later message changes what it said.
  pub on_message-kept :
      (raw : Option Json) (s : SocketState) (hello : HelloMessage)
      → s.socket.hello ≡ some hello
      → (on_message auth connection clock uuid raw s).socket.hello ≡ some hello
  on_message-kept raw s hello h = (on_message-Step raw s).kept hello h
