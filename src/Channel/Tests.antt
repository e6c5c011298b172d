-- ===== src/Channel/Tests.antt =====
-- A device that registers, is called twice under one id, answers, and goes offline.
use xautojs_devspace.Channel.{
  PendingToolCall, Timer, answer_of, clear_timer, close, find_timer, finish, fire_timer,
  handle_device_message, idle, normalize_channel_capabilities, register_connection, reject_each,
  remove_timer, resolved, returns, send_tool_call, settle, unregister_connection, unregister_each,
}
use xautojs_devspace.Channel.Answered.{run-close}
use xautojs_devspace.Channel.Closing.{fire_timer-drops}
use xautojs_devspace.Channel.History.{
  ChannelCall, perform, receiving, registering, run, run-answered, sending, timing_out,
}
use xautojs_devspace.Channel.Messages.{
  ToolCallMessage, ToolResultMessage, create_result_message, tool_ok, tool_result_message,
}
use xautojs_devspace.Channel.Promises.{is_answered}
use xautojs_devspace.Prelude.{
  List, [], arith, false, map, none, refl, some, true, ℕ, ◌++◌, ◌<◌, ◌∷◌, ◌≡◌,
}
use xautojs_devspace.Prelude.JsMap.{Entries, delete, get, put}
use xautojs_devspace.Prelude.Text.{Text, text, text_eq, trim}
use xautojs_devspace.Routing.Contract.{read_file}

channel : Unit {0}
unfolding run perform register_connection send_tool_call fire_timer handle_device_message
    unregister_connection reject_each finish settle clear_timer answer_of find_timer remove_timer
    normalize_channel_capabilities create_result_message text get put delete text_eq close
    unregister_each map trim
channel = tt

abbrev clock : Text
clock = text "2026-01-01T00:00:00.000Z"

abbrev call : ToolCallMessage ℕ
call = record {
  device_id = text "laptop";
  tool_call_id = text "t1";
  tool = read_file;
  context = 0;
  workspace_id = none;
  input = 1;
  deadline_at = none;
}

abbrev started : List (ChannelCall ℕ)
started =
    registering clock (text "u1") (record {
      device_id = text "laptop";
      connection = 7;
      connection_id = none;
      capabilities = some (text "shell" ∷ []);
      now = none;
    })
    ∷ sending call returns
    ∷ sending call returns
    ∷ []

abbrev answering : ChannelCall ℕ
answering = receiving (create_result_message none (text "t1") (tool_ok 42))

-- The answer goes to the second call of the id.
answered_second :
    answer_of 1 (run (started ++ answering ∷ []) idle).settled ≡ some (resolved (tool_ok 42))
unfolding channel
answered_second = refl

answered_first : answer_of 0 (run (started ++ answering ∷ []) idle).settled ≡ none
unfolding channel
answered_first = refl

-- The first call's timer takes the entry of the second call with it, and the answer is dropped.
answer_dropped : answer_of 1 (run (started ++ timing_out 0 ∷ answering ∷ []) idle).settled ≡ none
unfolding channel
answer_dropped = refl

two_calls : 1 < (run started idle).calls
unfolding channel
two_calls = ground arith

run-answered_example : is_answered 1 (fire_timer 1 (run started idle)) ≡ true
run-answered_example = run-answered started 1 two_calls

run-close_example :
    ((close (run started idle)).pending_tool_calls ≡ [])
    × Entries
        (λ id c. is_answered c.promise (close (run started idle)) ≡ true)
        (run started idle).pending_tool_calls
run-close_example = run-close started

abbrev late : ToolResultMessage ℕ
late = record { device_id = none; tool_call_id = text "t1"; result = tool_ok 42 }

abbrev first_timer : Timer
first_timer = record { promise = 0; device_id = text "laptop"; tool_call_id = text "t1" }

abbrev second_call : PendingToolCall
second_call = record { device_id = text "laptop"; promise = 1 }

first_runs : find_timer 0 (run started idle).timers ≡ some first_timer
unfolding channel
first_runs = refl

second_waits : get (text "t1") (run started idle).pending_tool_calls ≡ some second_call
unfolding channel
second_waits = refl

second_open : is_answered second_call.promise (run started idle) ≡ false
unfolding channel
second_open = refl

fire_timer-drops_example :
    is_answered second_call.promise
      (handle_device_message (tool_result_message late) (fire_timer 0 (run started idle)))
    ≡ false
fire_timer-drops_example =
    fire_timer-drops (run started idle) 0 first_timer second_call late first_runs second_waits
      (ground arith) second_open refl
