-- ===== src/Channel/Waiting.antt =====
-- Through every history of the channel in src/websocket-device-channel.ts, the calls that wait are for
-- devices that are connected; so `close`, which goes through the connections, leaves no entry.
use xautojs_devspace.Channel.{
  Channel, PendingToolCall, RegisteredConnection, SendOutcome, cancel_tool_call, close, fail_send,
  finish, fire_timer, handle_device_message, idle, mark_device_offline, register_connection,
  returns, send_tool_call, settle, throws, unregister_connection, unregister_each,
}
use xautojs_devspace.Channel.Closing.{
  AllConnected, IsConnected, finish-waiting, unregister_connection-AllConnected,
  unregister_each-none,
}
use xautojs_devspace.Channel.History.{
  ChannelCall, cancelling, closing, failing, going_offline, perform, receiving, registering, run,
  sending, timing_out, unregistering,
}
use xautojs_devspace.Channel.Messages.{
  AgentMessage, RemoteMcpToolResult, ToolCallMessage, heartbeat_message, hello_message,
  tool_result_message, workspace_catalog_message,
}
use xautojs_devspace.Prelude.{List, Option, [], arith, get_or, none, some, ℕ, ◌++◌, ◌∷◌, ◌≡◌}
use xautojs_devspace.Prelude.JsMap.{Entries, Entries-delete, Entries-put, JsMap, get, get-put, put}
use xautojs_devspace.Prelude.Text.{Text, text}

Entries-put-IsConnected :
    (k : Text) (v : RegisteredConnection) (connections : JsMap RegisteredConnection)
    (m : JsMap PendingToolCall)
    → Entries (IsConnected connections) m
    → Entries (IsConnected (put k v connections)) m
Entries-put-IsConnected k v connections [] a = tt
Entries-put-IsConnected k v connections ((id, c) ∷ m) a = (
  ground (arith, get-put k c.device_id v connections),
  Entries-put-IsConnected k v connections m a.1,
)

module _ {J : Type 0} where
  finish-AllConnected :
      (q : ℕ) (id : Text) (r : RemoteMcpToolResult J) (s : Channel J)
      → AllConnected s
      → AllConnected (finish q id r s)
  finish-AllConnected q id r s a =
      let (waiting, same) = finish-waiting q id r s in
      rw (waiting, same) (Entries-delete (IsConnected s.connections) id s.pending_tool_calls a)

  send_tool_call-AllConnected :
      (call : ToolCallMessage J) (outcome : SendOutcome) (s : Channel J)
      → AllConnected s
      → AllConnected (send_tool_call call outcome s)
  unfolding send_tool_call settle
  send_tool_call-AllConnected call returns s a = grind (arith, Entries-put)
  send_tool_call-AllConnected call throws s a = grind (arith, Entries-put)

  mark_device_offline-AllConnected :
      (device_id : Text) (reason : Option Text) (s : Channel J)
      → AllConnected s
      → AllConnected (mark_device_offline device_id reason s)
  unfolding mark_device_offline
  mark_device_offline-AllConnected device_id reason s a =
      let why : Text = get_or reason (text "device_offline") in
      let cleared = unregister_connection-AllConnected device_id why s a in
      elim (get device_id s.connections)
        as (λ found. AllConnected (elim found [
          | none ↦ unregister_connection device_id why s
          | some connected ↦ record (unregister_connection device_id why s) {
            closed = s.closed ++ (connected.connection, why) ∷ [];
          }
        ])) [ none ↦ cleared | some connected ↦ cleared ]

  handle_device_message-AllConnected :
      (m : AgentMessage J) (s : Channel J)
      → AllConnected s
      → AllConnected (handle_device_message m s)
  unfolding handle_device_message
  handle_device_message-AllConnected (hello_message m) s a = grind (arith, Entries-put-IsConnected)
  handle_device_message-AllConnected (heartbeat_message m) s a =
      grind (arith, Entries-put-IsConnected)
  handle_device_message-AllConnected (workspace_catalog_message m) s a = a
  handle_device_message-AllConnected (tool_result_message m) s a =
      grind (arith, finish-AllConnected)

  unregister_each-AllConnected :
      (entries : JsMap RegisteredConnection) (s : Channel J)
      → AllConnected s
      → AllConnected (unregister_each entries s)
  unfolding unregister_each
  unregister_each-AllConnected [] s a = a
  unregister_each-AllConnected ((j, _) ∷ rest) s a =
      unregister_each-AllConnected rest _
        (unregister_connection-AllConnected j (text "channel_closed") s a)

  perform-AllConnected :
      (call : ChannelCall J) (s : Channel J) → AllConnected s → AllConnected (perform call s)
  unfolding perform register_connection fire_timer fail_send cancel_tool_call mark_device_offline
      close
  perform-AllConnected (registering clock uuid input) s a =
      Entries-put-IsConnected input.device_id _ s.connections s.pending_tool_calls a
  perform-AllConnected (unregistering device_id reason) s a =
      unregister_connection-AllConnected device_id reason s a
  perform-AllConnected (sending call outcome) s a = send_tool_call-AllConnected call outcome s a
  perform-AllConnected (timing_out promise) s a = grind (arith, finish-AllConnected)
  perform-AllConnected (failing promise device_id tool_call_id message) s a =
      finish-AllConnected promise tool_call_id _ s a
  perform-AllConnected (cancelling input) s a = grind arith
  perform-AllConnected (going_offline device_id reason) s a =
      mark_device_offline-AllConnected device_id reason s a
  perform-AllConnected (receiving message) s a = handle_device_message-AllConnected message s a
  perform-AllConnected closing s a = unregister_each-AllConnected s.connections s a

  run-AllConnected :
      (calls : List (ChannelCall J)) (s : Channel J) → AllConnected s → AllConnected (run calls s)
  unfolding run
  run-AllConnected [] s a = a
  run-AllConnected (call ∷ rest) s a =
      run-AllConnected rest (perform call s) (perform-AllConnected call s a)

  pub run-close_none :
      (calls : List (ChannelCall J)) → (close (run calls idle)).pending_tool_calls ≡ []
  unfolding close
  run-close_none calls =
      unregister_each-none (run calls idle).connections (run calls idle)
        (run-AllConnected calls idle tt) λ k here. here
