-- ===== src/Channel/Distinct.antt =====
-- Through every history of the channel in src/websocket-device-channel.ts, one entry at most waits
-- under an id.
-- No key stands twice.
use xautojs_devspace.Channel.{
  Channel, PendingToolCall, RegisteredConnection, SendOutcome, cancel_tool_call, close, fail_send,
  finish, fire_timer, handle_device_message, mark_device_offline, register_connection, reject_each,
  returns, send_tool_call, settle, throws, unregister_connection, unregister_each,
}
use xautojs_devspace.Channel.Closing.{finish-waiting}
use xautojs_devspace.Channel.History.{
  ChannelCall, cancelling, closing, failing, going_offline, perform, receiving, registering, run,
  sending, timing_out, unregistering,
}
use xautojs_devspace.Channel.Messages.{
  AgentMessage, RemoteMcpToolResult, ToolCallMessage, heartbeat_message, hello_message,
  tool_result_message, workspace_catalog_message,
}
use xautojs_devspace.Prelude.{
  In, List, Option, [], ap, arith, false, get_or, if◌then◌else◌, inl, inr, is_some, none, not, refl,
  some, true, ℕ, ◌++◌, ◌∷◌, ◌≡◌,
}
use xautojs_devspace.Prelude.JsMap.{JsMap, delete, get, get-delete, get-put, put}
use xautojs_devspace.Prelude.Text.{Text, text, text_eq}
use xautojs_devspace.Prelude.Text.Laws.{text_eq_iff, text_eq_refl}

abbrev pub IsDistinct : {V : Type 0} → JsMap V → Type 0
IsDistinct [] = Unit
IsDistinct ((k, v) ∷ m) = (get k m ≡ none) × IsDistinct m

module _ {V : Type 0} where
  IsDistinct-put : (k : Text) (v : V) (m : JsMap V) → IsDistinct m → IsDistinct (put k v m)
  unfolding put get
  IsDistinct-put k v [] d = (refl, tt)
  IsDistinct-put k v ((j, w) ∷ m) d =
      ground (arith, IsDistinct-put k v m d.1, get-put k j v m, text_eq_iff k j, text_eq_iff j k)

  IsDistinct-delete : (k : Text) (m : JsMap V) → IsDistinct m → IsDistinct (delete k m)
  unfolding delete
  IsDistinct-delete k [] d = tt
  IsDistinct-delete k ((j, w) ∷ m) d = ground (arith, IsDistinct-delete k m d.1, get-delete k j m)

  In-some : (k : Text) (v : V) (m : JsMap V) → In (k, v) m → is_some (get k m) ≡ true
  unfolding get
  In-some k v [] member = elim member [ ]
  In-some k v ((j, w) ∷ m) (inl e) = ground (arith, text_eq_refl k, ap (λ p. p.0) e)
  In-some k v ((j, w) ∷ m) (inr member) = ground (arith, In-some k v m member)

  pub In-get : (k : Text) (v : V) (m : JsMap V) → IsDistinct m → In (k, v) m → get k m ≡ some v
  unfolding get
  In-get k v [] d member = elim member [ ]
  In-get k v ((j, w) ∷ m) d (inl e) =
      ground (arith, text_eq_refl k, ap (λ p. p.0) e, ap (λ p. p.1) e)
  In-get k v ((j, w) ∷ m) d (inr member) =
      ground (arith, In-get k v m d.1 member, text_eq_iff j k, In-some k v m member)

module _ {J : Type 0} where
  abbrev pub AllDistinct : Channel J → Type 0
  AllDistinct s = IsDistinct s.pending_tool_calls

  pub finish-AllDistinct :
      (q : ℕ) (id : Text) (r : RemoteMcpToolResult J) (s : Channel J)
      → AllDistinct s
      → AllDistinct (finish q id r s)
  finish-AllDistinct q id r s d =
      rw (finish-waiting q id r s).0 (IsDistinct-delete id s.pending_tool_calls d)

  module _ (device_id : Text) (error : RemoteMcpToolResult J) where
    reject_each-AllDistinct :
        (es : JsMap PendingToolCall) (s : Channel J)
        → AllDistinct s
        → AllDistinct (reject_each device_id error es s)
    unfolding reject_each
    reject_each-AllDistinct [] s d = d
    reject_each-AllDistinct ((j, w) ∷ es) s d =
        elim (text_eq w.device_id device_id)
          as (λ b.
            AllDistinct
              (reject_each device_id error es (if not b then s else finish w.promise j error s))) [
                | false ↦ reject_each-AllDistinct es s d
                | true ↦
                    reject_each-AllDistinct es (finish w.promise j error s)
                      (finish-AllDistinct w.promise j error s d)
              ]

  pub unregister_connection-AllDistinct :
      (device_id reason : Text) (s : Channel J)
      → AllDistinct s
      → AllDistinct (unregister_connection device_id reason s)
  unfolding unregister_connection
  unregister_connection-AllDistinct device_id reason s d =
      reject_each-AllDistinct device_id _ s.pending_tool_calls
        (record s { connections = delete device_id s.connections }) d

  pub unregister_each-AllDistinct :
      (es : JsMap RegisteredConnection) (s : Channel J)
      → AllDistinct s
      → AllDistinct (unregister_each es s)
  unfolding unregister_each
  unregister_each-AllDistinct [] s d = d
  unregister_each-AllDistinct ((j, _) ∷ rest) s d =
      unregister_each-AllDistinct rest _
        (unregister_connection-AllDistinct j (text "channel_closed") s d)

  send_tool_call-AllDistinct :
      (call : ToolCallMessage J) (outcome : SendOutcome) (s : Channel J)
      → AllDistinct s
      → AllDistinct (send_tool_call call outcome s)
  unfolding send_tool_call settle
  send_tool_call-AllDistinct call returns s d = grind (arith, IsDistinct-put)
  send_tool_call-AllDistinct call throws s d = grind (arith, IsDistinct-put)

  handle_device_message-AllDistinct :
      (m : AgentMessage J) (s : Channel J) → AllDistinct s → AllDistinct (handle_device_message m s)
  unfolding handle_device_message
  handle_device_message-AllDistinct (hello_message m) s d = ground arith
  handle_device_message-AllDistinct (heartbeat_message m) s d = ground arith
  handle_device_message-AllDistinct (workspace_catalog_message m) s d = d
  handle_device_message-AllDistinct (tool_result_message m) s d = grind (arith, finish-AllDistinct)

  mark_device_offline-AllDistinct :
      (device_id : Text) (reason : Option Text) (s : Channel J)
      → AllDistinct s
      → AllDistinct (mark_device_offline device_id reason s)
  unfolding mark_device_offline
  mark_device_offline-AllDistinct device_id reason s d =
      let why : Text = get_or reason (text "device_offline") in
      let cleared = unregister_connection-AllDistinct device_id why s d in
      elim (get device_id s.connections)
        as (λ found. AllDistinct (elim found [
          | none ↦ unregister_connection device_id why s
          | some connected ↦ record (unregister_connection device_id why s) {
            closed = s.closed ++ (connected.connection, why) ∷ [];
          }
        ])) [ none ↦ cleared | some connected ↦ cleared ]

  perform-AllDistinct :
      (call : ChannelCall J) (s : Channel J) → AllDistinct s → AllDistinct (perform call s)
  unfolding perform register_connection fire_timer fail_send cancel_tool_call mark_device_offline
      close
  perform-AllDistinct (registering clock uuid input) s d = d
  perform-AllDistinct (unregistering device_id reason) s d =
      unregister_connection-AllDistinct device_id reason s d
  perform-AllDistinct (sending call outcome) s d = send_tool_call-AllDistinct call outcome s d
  perform-AllDistinct (timing_out promise) s d = grind (arith, finish-AllDistinct)
  perform-AllDistinct (failing promise device_id tool_call_id message) s d =
      finish-AllDistinct promise tool_call_id _ s d
  perform-AllDistinct (cancelling input) s d = grind arith
  perform-AllDistinct (going_offline device_id reason) s d =
      mark_device_offline-AllDistinct device_id reason s d
  perform-AllDistinct (receiving message) s d = handle_device_message-AllDistinct message s d
  perform-AllDistinct closing s d = unregister_each-AllDistinct s.connections s d

  pub run-AllDistinct :
      (calls : List (ChannelCall J)) (s : Channel J) → AllDistinct s → AllDistinct (run calls s)
  unfolding run
  run-AllDistinct [] s d = d
  run-AllDistinct (call ∷ rest) s d =
      run-AllDistinct rest (perform call s) (perform-AllDistinct call s d)
