-- ===== src/Channel/History.antt =====
-- Histories of the channel in src/websocket-device-channel.ts: what the gateway and the devices call,
-- the timers that end, and the sends that fail, in any order.
use xautojs_devspace.Channel.{
  Channel, PendingToolCall, RegisterConnectionInput, RegisteredConnection, SendOutcome, answer_of,
  cancel_tool_call, close, fail_send, find_timer, finish, fire_timer, handle_device_message, idle,
  mark_device_offline, register_connection, reject_each, returns, send_tool_call, settle, throws,
  unregister_connection, unregister_each,
}
use xautojs_devspace.Channel.Messages.{
  AgentMessage, HeartbeatMessage, HelloMessage, RemoteMcpToolResult, ToolCallMessage,
  ToolCancelMessage, ToolResultMessage, heartbeat_message, hello_message, tool_result_message,
  workspace_catalog_message,
}
use xautojs_devspace.Channel.Promises.{
  AllCovered, IsCovered, finish-IsCovered, finish-answered, finish-calls, is_answered,
}
use xautojs_devspace.Prelude.{
  List, Option, Option-cases, [], arith, false, get_or, if◌then◌else◌, inl, inr, not, refl, true, ℕ,
  ◌<◌, ◌∙◌, ◌∷◌, ◌≡◌,
}
use xautojs_devspace.Prelude.JsMap.{JsMap, delete, get}
use xautojs_devspace.Prelude.Text.{Text, text, text_eq}

pub data ChannelCall (J : Type 0) : Type 0 where
  registering : Text → Text → RegisterConnectionInput → ChannelCall J
  unregistering : Text → Text → ChannelCall J
  sending : ToolCallMessage J → SendOutcome → ChannelCall J
  timing_out : ℕ → ChannelCall J
  failing : ℕ → Text → Text → Text → ChannelCall J
  cancelling : ToolCancelMessage → ChannelCall J
  going_offline : Text → Option Text → ChannelCall J
  receiving : AgentMessage J → ChannelCall J
  closing : ChannelCall J

module _ {J : Type 0} where
  unfoldable pub perform : ChannelCall J → Channel J → Channel J
  perform (registering clock uuid input) s = (register_connection clock uuid input s).0
  perform (unregistering device_id reason) s = unregister_connection device_id reason s
  perform (sending call outcome) s = send_tool_call call outcome s
  perform (timing_out promise) s = fire_timer promise s
  perform (failing promise device_id tool_call_id message) s =
      fail_send promise device_id tool_call_id message s
  perform (cancelling input) s = cancel_tool_call input s
  perform (going_offline device_id reason) s = mark_device_offline device_id reason s
  perform (receiving message) s = handle_device_message message s
  perform closing s = close s

  unfoldable pub run : List (ChannelCall J) → Channel J → Channel J
  run [] s = s
  run (call ∷ rest) s = run rest (perform call s)

  -- What every step keeps: the promises given out stay as many, and covered.
  pub record Keeps (p : ℕ) (s u : Channel J) : Type 0 where
    pub same_calls : u.calls ≡ s.calls
    pub covered : IsCovered p s → IsCovered p u

  Keeps-trans : (p : ℕ) (s t u : Channel J) → Keeps p s t → Keeps p t u → Keeps p s u
  Keeps-trans p s t u a b = record {
    same_calls = b.same_calls ∙ a.same_calls;
    covered = λ h. b.covered (a.covered h);
  }

  finish-Keeps :
      (q : ℕ) (id : Text) (r : RemoteMcpToolResult J) (p : ℕ) (s : Channel J)
      → Keeps p s (finish q id r s)
  finish-Keeps q id r p s = record {
    same_calls = finish-calls q id r s;
    covered = finish-IsCovered q id r p s;
  }

  reject_each-Keeps :
      (device_id : Text) (error : RemoteMcpToolResult J) (entries : JsMap PendingToolCall) (p : ℕ)
      (s : Channel J)
      → Keeps p s (reject_each device_id error entries s)
  unfolding reject_each
  reject_each-Keeps device_id error [] p s = record { same_calls = refl; covered = λ h. h }
  reject_each-Keeps device_id error ((id, waiting) ∷ rest) p s =
      elim (text_eq waiting.device_id device_id)
        as (λ b. Keeps p s (
          reject_each device_id error rest
            (if not b then s else finish waiting.promise id error s))) [
              | false ↦ reject_each-Keeps device_id error rest p s
              | true ↦
                  Keeps-trans p s (finish waiting.promise id error s) _
                    (finish-Keeps waiting.promise id error p s)
                    (reject_each-Keeps device_id error rest p (finish waiting.promise id error s))
            ]

  unregister_connection-Keeps :
      (device_id reason : Text) (p : ℕ) (s : Channel J)
      → Keeps p s (unregister_connection device_id reason s)
  unfolding unregister_connection
  unregister_connection-Keeps device_id reason p s =
      let kept =
        reject_each-Keeps device_id _ s.pending_tool_calls p
          (record s { connections = delete device_id s.connections }) in
      record { same_calls = kept.same_calls; covered = kept.covered }

  unregister_each-Keeps :
      (entries : JsMap RegisteredConnection) (p : ℕ) (s : Channel J)
      → Keeps p s (unregister_each entries s)
  unfolding unregister_each
  unregister_each-Keeps [] p s = record { same_calls = refl; covered = λ h. h }
  unregister_each-Keeps ((device_id, _) ∷ rest) p s =
      Keeps-trans p s _ _ (unregister_connection-Keeps device_id (text "channel_closed") p s)
        (unregister_each-Keeps rest p (unregister_connection device_id (text "channel_closed") s))

  cancel_tool_call-Keeps :
      (input : ToolCancelMessage) (p : ℕ) (s : Channel J) → Keeps p s (cancel_tool_call input s)
  unfolding cancel_tool_call
  cancel_tool_call-Keeps input p s = ground arith

  mark_device_offline-Keeps :
      (device_id : Text) (reason : Option Text) (p : ℕ) (s : Channel J)
      → Keeps p s (mark_device_offline device_id reason s)
  unfolding mark_device_offline
  mark_device_offline-Keeps device_id reason p s =
      let kept =
        unregister_connection-Keeps device_id (get_or reason (text "device_offline")) p s in
      record {
        same_calls = ground (arith, kept.same_calls);
        covered = λ h. ground (arith, kept.covered h);
      }

  hello-Keeps :
      (m : HelloMessage) (p : ℕ) (s : Channel J)
      → Keeps p s (handle_device_message (hello_message m) s)
  unfolding handle_device_message
  hello-Keeps m p s = ground arith

  heartbeat-Keeps :
      (m : HeartbeatMessage) (p : ℕ) (s : Channel J)
      → Keeps p s (handle_device_message (heartbeat_message m) s)
  unfolding handle_device_message
  heartbeat-Keeps m p s = ground arith

  fire_timer-Keeps : (promise p : ℕ) (s : Channel J) → Keeps p s (fire_timer promise s)
  unfolding fire_timer
  fire_timer-Keeps promise p s = elim (Option-cases (find_timer promise s.timers)) [
    | inl stopped ↦ rw (fire_timer, stopped) (record { same_calls = refl; covered = λ h. h })
    | inr (t, running) ↦ rw (fire_timer, running) (finish-Keeps promise t.tool_call_id _ p s)
  ]

  result-Keeps :
      (m : ToolResultMessage J) (p : ℕ) (s : Channel J)
      → Keeps p s (handle_device_message (tool_result_message m) s)
  unfolding handle_device_message
  result-Keeps m p s = elim (Option-cases (get m.tool_call_id s.pending_tool_calls)) [
    | inl unknown ↦
        rw (handle_device_message, unknown) (record { same_calls = refl; covered = λ h. h })
    | inr (waiting, known) ↦
        rw (handle_device_message, known) (finish-Keeps waiting.promise m.tool_call_id m.result p s)
  ]

  send_tool_call-AllCovered :
      (call : ToolCallMessage J) (outcome : SendOutcome) (s : Channel J)
      → AllCovered s
      → AllCovered (send_tool_call call outcome s)
  unfolding send_tool_call settle find_timer answer_of
  send_tool_call-AllCovered call returns s h p less = ground (arith, h p)
  send_tool_call-AllCovered call throws s h p less = ground (arith, h p)

  of_Keeps : (s u : Channel J) → ((p : ℕ) → Keeps p s u) → AllCovered s → AllCovered u
  of_Keeps s u k h p less = (k p).covered (h p (ground (arith, (k p).same_calls)))

  perform-AllCovered :
      (call : ChannelCall J) (s : Channel J) → AllCovered s → AllCovered (perform call s)
  unfolding perform register_connection fire_timer fail_send cancel_tool_call mark_device_offline
      handle_device_message close
  perform-AllCovered (registering clock uuid input) s h = h
  perform-AllCovered (unregistering device_id reason) s h =
      of_Keeps s _ (λ p. unregister_connection-Keeps device_id reason p s) h
  perform-AllCovered (sending call outcome) s h = send_tool_call-AllCovered call outcome s h
  perform-AllCovered (timing_out promise) s h = of_Keeps s _ (λ p. fire_timer-Keeps promise p s) h
  perform-AllCovered (failing promise device_id tool_call_id message) s h =
      of_Keeps s _ (λ p. finish-Keeps promise tool_call_id _ p s) h
  perform-AllCovered (cancelling input) s h = of_Keeps s _ (λ p. cancel_tool_call-Keeps input p s) h
  perform-AllCovered (going_offline device_id reason) s h =
      of_Keeps s _ (λ p. mark_device_offline-Keeps device_id reason p s) h
  perform-AllCovered (receiving (hello_message m)) s h = of_Keeps s _ (λ p. hello-Keeps m p s) h
  perform-AllCovered (receiving (heartbeat_message m)) s h =
      of_Keeps s _ (λ p. heartbeat-Keeps m p s) h
  perform-AllCovered (receiving (workspace_catalog_message m)) s h = h
  perform-AllCovered (receiving (tool_result_message m)) s h =
      of_Keeps s _ (λ p. result-Keeps m p s) h
  perform-AllCovered closing s h = of_Keeps s _ (λ p. unregister_each-Keeps s.connections p s) h

  run-AllCovered :
      (calls : List (ChannelCall J)) (s : Channel J) → AllCovered s → AllCovered (run calls s)
  unfolding run
  run-AllCovered [] s h = h
  run-AllCovered (call ∷ rest) s h =
      run-AllCovered rest (perform call s) (perform-AllCovered call s h)

  fire_timer-answered :
      (p : ℕ) (s : Channel J) → IsCovered p s → is_answered p (fire_timer p s) ≡ true
  unfolding fire_timer
  fire_timer-answered p s h = elim (Option-cases (find_timer p s.timers)) [
    | inl stopped ↦ rw (fire_timer, stopped) (ground arith)
    | inr (t, running) ↦ rw (fire_timer, running) (finish-answered p t.tool_call_id _ s)
  ]

  -- Through every history of a channel that starts empty, whatever ids the calls have and whatever
  -- the devices send, each promise that `sendToolCall` gave out has its answer, at the latest when
  -- its timer ends.
  pub run-answered :
      (calls : List (ChannelCall J)) (p : ℕ)
      → p < (run calls idle).calls
      → is_answered p (fire_timer p (run calls idle)) ≡ true
  run-answered calls p less =
      fire_timer-answered p (run calls idle)
        (run-AllCovered calls idle (λ q none_yet. ground arith) p less)
