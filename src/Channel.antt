-- ===== src/Channel.antt =====
-- src/websocket-device-channel.ts: `WebSocketDeviceChannel`, the gateway's end of the connections
-- to the devices. A promise that `sendToolCall` returns is a number, in the order of the calls; the
-- same number names the call's timer. `settled` holds the promises that have an answer, `timers`
-- the timers that run. A connection is a number; what is sent to it, or asks it to close, is listed.
pub mod Messages
pub mod Promises
pub mod History
pub mod Closing
pub mod Waiting
pub mod Distinct
pub mod Answered
mod Tests
use xautojs_devspace.Channel.Messages.{
  AgentMessage, GatewayMessage, RemoteMcpToolResult, ToolCallMessage, ToolCancelMessage,
  channel_details, create_tool_cancel_message, heartbeat_message, hello_message, tool_call_message,
  tool_error, tool_result_message, workspace_catalog_message,
}
use xautojs_devspace.Prelude.{
  List, Option, [], get_or, if◌then◌else◌, map, none, not, some, suc, true, ℕ, ◌++◌, ◌==◌, ◌∷◌,
}
use xautojs_devspace.Prelude.JsMap.{JsMap, delete, get, put}
use xautojs_devspace.Prelude.Text.{Text, text, text_eq, trim, truthy}
use xautojs_devspace.Routing.Contract.Capabilities.{set_add, sort}

-- `RegisteredConnection`: a `CloudDeviceConnectionRecord` with its connection.
pub record RegisteredConnection : Type 0 where
  pub connection_id : Text
  pub device_id : Text
  pub connected_at : Text
  pub last_seen_at : Text
  pub capabilities : List Text
  pub connection : ℕ

-- `CloudDeviceConnectionRecord`
pub record DeviceConnection : Type 0 where
  pub connection_id : Text
  pub device_id : Text
  pub connected_at : Text
  pub last_seen_at : Text
  pub capabilities : List Text

unfoldable pub public_connection_record : RegisteredConnection → DeviceConnection
public_connection_record connected = record {
  connection_id = connected.connection_id;
  device_id = connected.device_id;
  connected_at = connected.connected_at;
  last_seen_at = connected.last_seen_at;
  capabilities = connected.capabilities;
}

pub record RegisterConnectionInput : Type 0 where
  pub device_id : Text
  pub connection : ℕ
  pub connection_id : Option Text
  pub capabilities : Option (List Text)
  pub now : Option Text

pub record PendingToolCall : Type 0 where
  pub device_id : Text
  pub promise : ℕ

pub record Timer : Type 0 where
  pub promise : ℕ
  pub device_id : Text
  pub tool_call_id : Text

-- A promise is resolved with a result, or rejected by what its executor threw.
pub data Answer (J : Type 0) : Type 0 where
  resolved : RemoteMcpToolResult J → Answer J
  rejected : Answer J

pub record Channel (J : Type 0) : Type 0 where
  pub connections : JsMap RegisteredConnection
  pub pending_tool_calls : JsMap PendingToolCall
  pub timers : List Timer
  pub settled : List (ℕ × Answer J)
  pub calls : ℕ
  pub sent : List (ℕ × GatewayMessage J)
  pub closed : List (ℕ × Text)

-- What a send does: it returns, or throws before it returns a promise.
pub data SendOutcome : Type 0 where
  returns throws : SendOutcome

unfoldable pub find_timer : ℕ → List Timer → Option Timer
find_timer promise [] = none
find_timer promise (t ∷ ts) = if t.promise == promise then some t else find_timer promise ts

unfoldable pub remove_timer : ℕ → List Timer → List Timer
remove_timer promise [] = []
remove_timer promise (t ∷ ts) =
    let rest = remove_timer promise ts in if t.promise == promise then rest else t ∷ rest

keep_truthy : List Text → List Text
keep_truthy [] = []
keep_truthy (x ∷ xs) = if truthy x then x ∷ keep_truthy xs else keep_truthy xs

add_all : List Text → List Text → List Text
unfolding set_add
add_all [] set = set
add_all (x ∷ xs) set = add_all xs (set_add x set)

unfoldable pub normalize_channel_capabilities : Option (List Text) → List Text
unfolding keep_truthy add_all map trim sort
normalize_channel_capabilities capabilities =
    sort (add_all (keep_truthy (map trim (get_or capabilities []))) [])

-- `record?.connectionId`
abbrev pub id_of : Option RegisteredConnection → Option Text
id_of none = none
id_of (some connected) = some connected.connection_id

module _ {J : Type 0} where
  unfoldable pub answer_of : ℕ → List (ℕ × Answer J) → Option (Answer J)
  answer_of promise [] = none
  answer_of promise ((p, answer) ∷ rest) =
      if p == promise then some answer else answer_of promise rest

  abbrev pub idle : Channel J
  idle = record {
    connections = [];
    pending_tool_calls = [];
    timers = [];
    settled = [];
    calls = 0;
    sent = [];
    closed = [];
  }

  -- `resolve(…)`: the first answer of a promise stays.
  unfoldable pub settle : ℕ → Answer J → Channel J → Channel J
  settle promise answer s = elim (answer_of promise s.settled) [
    | some _ ↦ s
    | none ↦ record s { settled = (promise, answer) ∷ s.settled }
  ]

  unfoldable pub clear_timer : ℕ → Channel J → Channel J
  clear_timer promise s = record s { timers = remove_timer promise s.timers }

  abbrev pub delete_pending : Text → Channel J → Channel J
  delete_pending tool_call_id s = record s {
    pending_tool_calls = delete tool_call_id s.pending_tool_calls;
  }

  -- `clearTimeout(timeout); this.pendingToolCalls.delete(toolCallId); resolve(answer)`
  unfoldable pub finish : ℕ → Text → RemoteMcpToolResult J → Channel J → Channel J
  unfolding settle clear_timer
  finish promise tool_call_id result s =
      settle promise (resolved result) (delete_pending tool_call_id (clear_timer promise s))

  abbrev pub channel_error : Text → Text → Text → Option Text → Option Text → RemoteMcpToolResult J
  channel_error code message device_id tool_call_id connection_id = tool_error (record {
    code = code;
    message = message;
    retryable = some true;
    details = some (channel_details device_id tool_call_id connection_id);
  })

  unfoldable pub register_connection :
      Text → Text → RegisterConnectionInput → Channel J → Channel J × DeviceConnection
  unfolding text public_connection_record
  register_connection clock uuid input s =
      let now : Text = get_or input.now clock in
      let made : RegisteredConnection = record {
        connection_id = get_or input.connection_id (text "conn_" ++ uuid);
        device_id = input.device_id;
        connected_at = now;
        last_seen_at = now;
        capabilities = normalize_channel_capabilities input.capabilities;
        connection = input.connection;
      } in
      (
        record s { connections = put made.device_id made s.connections },
        public_connection_record made,
      )

  -- `getConnection`, whose `publicConnectionRecord` leaves out the connection object.
  unfoldable pub get_device_connection : Text → Channel J → Option DeviceConnection
  unfolding public_connection_record
  get_device_connection device_id s = elim (get device_id s.connections) [
    | none ↦ none
    | some connected ↦ some (public_connection_record connected)
  ]

  -- One round of the loop in `rejectPendingForDevice`.
  reject_one : Text → RemoteMcpToolResult J → Text → PendingToolCall → Channel J → Channel J
  reject_one device_id error tool_call_id waiting s =
      if not (text_eq waiting.device_id device_id)
      then s
      else finish waiting.promise tool_call_id error s

  -- The loop visits the entries that are there at its start: it adds none, and deletes the one that
  -- it visits.
  unfoldable pub reject_each :
      Text → RemoteMcpToolResult J → JsMap PendingToolCall → Channel J → Channel J
  unfolding reject_one finish
  reject_each device_id error [] s = s
  reject_each device_id error ((tool_call_id, waiting) ∷ rest) s =
      reject_each device_id error rest (reject_one device_id error tool_call_id waiting s)

  unfoldable pub unregister_connection : Text → Text → Channel J → Channel J
  unfolding reject_each text
  unregister_connection device_id reason s =
      let connection_id : Option Text = id_of (get device_id s.connections) in
      let error : RemoteMcpToolResult J =
        channel_error (text "AGENT_DISCONNECTED") (text "Device channel closed: " ++ reason)
          device_id none connection_id in
      reject_each device_id error s.pending_tool_calls
        (record s { connections = delete device_id s.connections })

  -- The executor of the promise that `sendToolCall` returns: the timer, the pending call, the send.
  send_to : RegisteredConnection → ToolCallMessage J → SendOutcome → Channel J → Channel J
  send_to connected call outcome s =
      let promise : ℕ = s.calls in
      let waiting : Channel J = record s {
        calls = suc promise;
        timers =
            record {
              promise = promise;
              device_id = call.device_id;
              tool_call_id = call.tool_call_id;
            }
            ∷ s.timers;
        pending_tool_calls =
            put call.tool_call_id (record { device_id = call.device_id; promise = promise })
              s.pending_tool_calls;
      } in
      elim outcome [
        | returns ↦ record waiting {
          sent = s.sent ++ (connected.connection, tool_call_message call) ∷ [];
        }
        | throws ↦ settle promise rejected waiting
      ]

  -- The promise returned is the number `s.calls`.
  unfoldable pub send_tool_call : ToolCallMessage J → SendOutcome → Channel J → Channel J
  unfolding send_to settle text
  send_tool_call call outcome s = elim (get call.device_id s.connections) [
    | none ↦
        settle s.calls
          (resolved (
            channel_error (text "AGENT_DISCONNECTED") (text "Device channel is not connected.")
              call.device_id none none))
          (record s { calls = suc s.calls })
    | some connected ↦ send_to connected call outcome s
  ]

  -- The callback of `setTimeout`, at the end of a timer that runs.
  unfoldable pub fire_timer : ℕ → Channel J → Channel J
  unfolding finish text
  fire_timer promise s = elim (find_timer promise s.timers) [
    | none ↦ s
    | some t ↦
        finish promise t.tool_call_id
          (channel_error (text "TOOL_TIMEOUT") (text "Device tool call timed out.") t.device_id
            (some t.tool_call_id) none)
          s
  ]

  -- The rejection of what `send` returned for the call of this promise.
  unfoldable pub fail_send : ℕ → Text → Text → Text → Channel J → Channel J
  unfolding finish text
  fail_send promise device_id tool_call_id message s =
      finish promise tool_call_id
        (channel_error (text "AGENT_DISCONNECTED") message device_id (some tool_call_id) none) s

  unfoldable pub cancel_tool_call : ToolCancelMessage → Channel J → Channel J
  unfolding create_tool_cancel_message
  cancel_tool_call input s = elim (get input.device_id s.connections) [
    | none ↦ s
    | some connected ↦ record s {
      sent = s.sent ++ (connected.connection, create_tool_cancel_message input) ∷ [];
    }
  ]

  unfoldable pub mark_device_offline : Text → Option Text → Channel J → Channel J
  unfolding text unregister_connection
  mark_device_offline device_id reason s =
      let why : Text = get_or reason (text "device_offline") in
      let cleared : Channel J = unregister_connection device_id why s in
      elim (get device_id s.connections) [
        | none ↦ cleared
        | some connected ↦ record cleared { closed = s.closed ++ (connected.connection, why) ∷ [] }
      ]

  -- `existing.lastSeenAt = …` on the record in the map, and its capabilities on a hello.
  touch : Text → Text → Option (List Text) → Channel J → Channel J
  touch device_id time capabilities s = elim (get device_id s.connections) [
    | none ↦ s
    | some existing ↦
        let new_capabilities : List Text = elim capabilities [
          | none ↦ existing.capabilities
          | some given ↦ normalize_channel_capabilities (some given)
        ] in
        record s {
          connections =
              put device_id
                (record existing { last_seen_at = time; capabilities = new_capabilities })
                s.connections;
        }
  ]

  unfoldable pub handle_device_message : AgentMessage J → Channel J → Channel J
  unfolding touch finish
  handle_device_message (hello_message m) s = touch m.device_id m.time (some m.capabilities) s
  handle_device_message (heartbeat_message m) s = touch m.device_id m.time none s
  handle_device_message (workspace_catalog_message m) s = s
  handle_device_message (tool_result_message m) s = elim (get m.tool_call_id s.pending_tool_calls) [
    | none ↦ s
    | some waiting ↦ finish waiting.promise m.tool_call_id m.result s
  ]

  unfoldable pub unregister_each : JsMap RegisteredConnection → Channel J → Channel J
  unfolding unregister_connection text
  unregister_each [] s = s
  unregister_each ((device_id, _) ∷ rest) s =
      unregister_each rest (unregister_connection device_id (text "channel_closed") s)

  -- `close()`
  unfoldable pub close : Channel J → Channel J
  unfolding unregister_each
  close s = unregister_each s.connections s
