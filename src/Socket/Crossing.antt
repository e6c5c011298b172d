-- ===== src/Socket/Crossing.antt =====
-- Where the sockets of one device, or of two, come across each other:
-- src/cloud-device-websocket-route.ts over src/websocket-device-channel.ts.
use xautojs_devspace.Channel.{
  Channel, PendingToolCall, RegisteredConnection, answer_of, channel_error, clear_timer, finish,
  handle_device_message, id_of, register_connection, resolved, settle, unregister_connection,
}
use xautojs_devspace.Channel.Closing.{reject_each-connections}
use xautojs_devspace.Channel.Messages.{HelloMessage, ToolResultMessage, tool_result_message}
use xautojs_devspace.Connections.{ConnectionRecord, ConnectionStore, connection_key}
use xautojs_devspace.Connections.Laws.{stale_ignored}
use xautojs_devspace.Prelude.{
  Option, ap, arith, none, refl, some, sym, true, ℕ, ◌++◌, ◌∙◌, ◌≡◌, ◌≢◌,
}
use xautojs_devspace.Prelude.JsMap.{delete, get, get-delete, get-put_same}
use xautojs_devspace.Prelude.Json.{Json}
use xautojs_devspace.Prelude.Result.{Result, ok}
use xautojs_devspace.Prelude.Text.{Text, text, truthy}
use xautojs_devspace.Prelude.Text.Laws.{text_eq_refl}
use xautojs_devspace.Routing.Contract.{
  RoutingError, WorkspaceIdentity, normalize_owner, normalize_required_id,
}
use xautojs_devspace.Socket.{
  SocketAuth, SocketState, device_id_of, join, on_records, on_routing, pass_on,
}
use xautojs_devspace.Socket.Events.{
  admit, handle_admission, handle_admitted, leave, on_close, on_message, or_close,
}
use xautojs_devspace.Socket.Messages.{parse_agent_message}

pub handle_device_message-settled :
    (m : ToolResultMessage Json) (waiting : PendingToolCall) (c : Channel Json)
    → get m.tool_call_id c.pending_tool_calls ≡ some waiting
    → answer_of waiting.promise c.settled ≡ none
    → answer_of waiting.promise (handle_device_message (tool_result_message m) c).settled
      ≡ some (resolved m.result)
unfolding handle_device_message finish settle clear_timer answer_of
handle_device_message-settled m waiting c pending unanswered =
    rw (handle_device_message, pending) (rw (settle, unanswered) (ground arith))

module _ {J : Type 0} where
  -- A device that is unregistered has no connection.
  unregister_connection-gone :
      (device_id reason : Text) (c : Channel J)
      → get device_id (unregister_connection device_id reason c).connections ≡ none
  unfolding unregister_connection
  unregister_connection-gone device_id reason c = ground (
    arith,
    reject_each-connections device_id
        (channel_error (text "AGENT_DISCONNECTED") (text "Device channel closed: " ++ reason)
          device_id none (id_of (get device_id c.connections)))
        c.pending_tool_calls (record c { connections = delete device_id c.connections }),
    get-delete device_id device_id c.connections,
    text_eq_refl device_id,
  )

module _ (auth : SocketAuth) (connection : ℕ) (clock uuid : Text) (s : SocketState)
    (hello : HelloMessage) (said : s.socket.hello ≡ some hello) where
  -- On a socket that has said hello, a result that is accepted and names no device answers the call
  -- that waits under its id and has no answer yet, though that call went to another device.
  pub on_message-crosses :
      (raw : Option Json) (m : ToolResultMessage Json) (waiting : PendingToolCall)
      → parse_agent_message raw ≡ some (tool_result_message m)
      → m.device_id ≡ none
      → get m.tool_call_id s.services.channel.pending_tool_calls ≡ some waiting
      → waiting.device_id ≢ hello.device_id
      → answer_of waiting.promise s.services.channel.settled ≡ none
      → answer_of waiting.promise
          (on_message auth connection clock uuid raw s).services.channel.settled
        ≡ some (resolved m.result)
  unfolding on_message admit device_id_of handle_admission handle_admitted pass_on or_close
  on_message-crosses raw m waiting read unnamed pending other unanswered =
      rw (on_message, read)
        (rw said (
          rw unnamed
            (handle_device_message-settled m waiting s.services.channel pending unanswered)))

  on_close-left :
      (connection_id : Text)
      → s.socket.connection_id ≡ some connection_id
      → truthy connection_id ≡ true
      → on_close auth connection clock uuid s
        ≡ leave auth connection clock uuid hello connection_id s
  unfolding on_close
  on_close-left connection_id joined given = ground arith

  close_unregisters :
      (connection_id : Text) (owner : WorkspaceIdentity) (device_id stale key : Text)
      (existing : ConnectionRecord)
      → s.socket.connection_id ≡ some connection_id
      → truthy connection_id ≡ true
      → normalize_owner auth.owner ≡ ok owner
      → normalize_required_id (some hello.device_id) "deviceId" ≡ ok device_id
      → normalize_required_id (some connection_id) "connectionId" ≡ ok stale
      → connection_key owner device_id ≡ ok key
      → get key s.services.records.connections ≡ some existing
      → existing.connection_id ≢ stale
      → let t : SocketState = on_close auth connection clock uuid s in
        (get hello.device_id t.services.channel.connections ≡ none)
        × (t.services.records ≡ s.services.records)
  unfolding leave on_records on_routing
  close_unregisters connection_id owner device_id stale key existing joined given o d c k found
        other =
      rw (on_close-left connection_id joined given) (
        unregister_connection-gone hello.device_id (text "websocket_closed") s.services.channel,
        ap (λ (p : ConnectionStore × Result RoutingError (Option ConnectionRecord)). p.0)
            (stale_ignored clock s.services.records
              (record {
                owner = auth.owner;
                device_id = hello.device_id;
                connection_id = connection_id;
                now = none;
              })
              owner device_id stale key o d c k existing found other).1,
      )

  join-registered :
      (registered : RegisteredConnection) × (get hello.device_id
          (join auth connection clock uuid hello s).0.services.channel.connections
        ≡ some registered)
      × (registered.connection ≡ connection)
  unfolding join on_records register_connection
  join-registered = (_, get-put_same hello.device_id _ s.services.channel.connections, refl)

  on_close-unjoined : s.socket.connection_id ≡ none → on_close auth connection clock uuid s ≡ s
  unfolding on_close
  on_close-unjoined waits = ground arith

  -- The close of a socket that has said hello but waits for the registration of the device, and so
  -- has no connection id, is not noticed: what the hello does next puts its connection in the channel.
  pub on_close-early :
      s.socket.connection_id ≡ none
      → let t : SocketState = on_close auth connection clock uuid s in
        (t ≡ s)
        × ((registered : RegisteredConnection) × (get hello.device_id
                (join auth connection clock uuid hello t).0.services.channel.connections
              ≡ some registered)
            × (registered.connection ≡ connection))
  on_close-early waits =
      let unnoticed : on_close auth connection clock uuid s ≡ s = on_close-unjoined waits in
      (unnoticed, rw unnoticed join-registered)

module _ (auth second_auth : SocketAuth) (connection second : ℕ)
    (clock uuid second_clock second_uuid : Text) (first later : SocketState)
    (hello again : HelloMessage) (said : first.socket.hello ≡ some hello)
    (said_again : later.socket.hello ≡ some again)
    (same_device : again.device_id ≡ hello.device_id) where
  -- The first socket, when the second one's hello has come through to its end.
  abbrev pub replaced : SocketState
  replaced = record first {
    services = (join second_auth second second_clock second_uuid again later).0.services;
  }

  -- After a second socket has said hello for the device that a first one has joined for, the channel's
  -- connection of the device is the second socket's. When then the first one closes, and its owner
  -- and ids parse, and the connection store records another connection than the first one's, the
  -- channel has no connection for the device any more, while the connection store is as it was.
  pub on_close-replaced :
      (connection_id : Text) (owner : WorkspaceIdentity) (device_id stale key : Text)
      (existing : ConnectionRecord)
      → first.socket.connection_id ≡ some connection_id
      → truthy connection_id ≡ true
      → normalize_owner auth.owner ≡ ok owner
      → normalize_required_id (some hello.device_id) "deviceId" ≡ ok device_id
      → normalize_required_id (some connection_id) "connectionId" ≡ ok stale
      → connection_key owner device_id ≡ ok key
      → get key replaced.services.records.connections ≡ some existing
      → existing.connection_id ≢ stale
      → let t : SocketState = on_close auth connection clock uuid replaced in
        ((current : RegisteredConnection) × (get hello.device_id
              replaced.services.channel.connections
            ≡ some current)
          × (current.connection ≡ second))
        × (get hello.device_id t.services.channel.connections ≡ none)
        × (t.services.records ≡ replaced.services.records)
  on_close-replaced connection_id owner device_id stale key existing joined given o d c k found
        other =
      let (current, here, its) =
        join-registered second_auth second second_clock second_uuid later again said_again in
      let (gone, kept) =
        close_unregisters auth connection clock uuid replaced hello said connection_id owner
          device_id stale key existing joined given o d c k found other in
      (
        (
          current,
          ap
                (λ id.
                  get id
                    (join second_auth second second_clock second_uuid again
                      later).0.services.channel.connections)
                (sym same_device)
              ∙ here,
          its,
        ),
        gone,
        kept,
      )
