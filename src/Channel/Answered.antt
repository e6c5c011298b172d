-- ===== src/Channel/Answered.antt =====
-- `close` of the channel in src/websocket-device-channel.ts answers the call of each entry that waits.
-- An entry of the loop under the id is the call's own.
use xautojs_devspace.Channel.{
  Channel, PendingToolCall, RegisteredConnection, answer_of, clear_timer, close, finish, idle,
  reject_each, settle, unregister_connection, unregister_each,
}
use xautojs_devspace.Channel.Closing.{finish-waiting}
use xautojs_devspace.Channel.Distinct.{
  AllDistinct, In-get, IsDistinct, run-AllDistinct, unregister_connection-AllDistinct,
}
use xautojs_devspace.Channel.History.{ChannelCall, run}
use xautojs_devspace.Channel.Messages.{RemoteMcpToolResult}
use xautojs_devspace.Channel.Promises.{finish-answered, is_answered}
use xautojs_devspace.Channel.Waiting.{run-close_none}
use xautojs_devspace.Prelude.{
  All-In, Bool-cases, List, [], arith, false, if◌then◌else◌, inl, inr, not, some, subst, true, ℕ,
  ◌∷◌, ◌≡◌, ◌⊎◌,
}
use xautojs_devspace.Prelude.JsMap.{Entries, JsMap, delete, get, get-delete}
use xautojs_devspace.Prelude.Text.{Text, text, text_eq}
use xautojs_devspace.Prelude.Text.Laws.{eq_of_text_eq}

abbrev IsOwn : Text → PendingToolCall → Text → PendingToolCall → Type 0
IsOwn id c j w = text_eq j id ≡ true → w.promise ≡ c.promise

all-IsOwn :
    (id : Text) (c : PendingToolCall) (m : JsMap PendingToolCall)
    → IsDistinct m
    → get id m ≡ some c
    → Entries (IsOwn id c) m
all-IsOwn id c m d waits =
    All-In (λ e. IsOwn id c e.0 e.1) m
      λ e member same.
        let found : get e.0 m ≡ some e.1 = In-get e.0 e.1 m d member in
        ground (arith, eq_of_text_eq e.0 id same, found, waits)

module _ {J : Type 0} where
  -- The call has its answer, or its entry waits.
  abbrev IsKept : Text → PendingToolCall → Channel J → Type 0
  IsKept id c s = (is_answered c.promise s ≡ true) ⊎ (get id s.pending_tool_calls ≡ some c)

  finish-keeps_answer :
      (q : ℕ) (id : Text) (r : RemoteMcpToolResult J) (p : ℕ) (s : Channel J)
      → is_answered p s ≡ true
      → is_answered p (finish q id r s) ≡ true
  unfolding finish settle answer_of clear_timer
  finish-keeps_answer q id r p s h = ground arith

  finish-IsKept :
      (j : Text) (w : PendingToolCall) (r : RemoteMcpToolResult J) (id : Text) (c : PendingToolCall)
      (s : Channel J)
      → IsOwn id c j w
      → IsKept id c s
      → IsKept id c (finish w.promise j r s)
  finish-IsKept j w r id c s own (inl answered) =
      inl (finish-keeps_answer w.promise j r c.promise s answered)
  finish-IsKept j w r id c s own (inr waits) = elim (Bool-cases (text_eq j id)) [
    | inl same ↦ inl (
        subst (λ p. is_answered p (finish w.promise j r s) ≡ true) (own same)
          (finish-answered w.promise j r s))
    | inr other ↦ inr (
        rw (finish-waiting w.promise j r s).0
          (ground (arith, get-delete j id s.pending_tool_calls, waits)))
  ]

  module _ (device_id : Text) (error : RemoteMcpToolResult J) where
    reject_each-IsKept :
        (es : JsMap PendingToolCall) (id : Text) (c : PendingToolCall) (s : Channel J)
        → Entries (IsOwn id c) es
        → IsKept id c s
        → IsKept id c (reject_each device_id error es s)
    unfolding reject_each
    reject_each-IsKept [] id c s own h = h
    reject_each-IsKept ((j, w) ∷ es) id c s own h =
        elim (text_eq w.device_id device_id)
          as (λ b.
            IsKept id c
              (reject_each device_id error es (if not b then s else finish w.promise j error s))) [
                | false ↦ reject_each-IsKept es id c s own.1 h
                | true ↦
                    reject_each-IsKept es id c (finish w.promise j error s) own.1
                      (finish-IsKept j w error id c s own.0 h)
              ]

    reject_each-keeps_answer :
        (es : JsMap PendingToolCall) (p : ℕ) (s : Channel J)
        → is_answered p s ≡ true
        → is_answered p (reject_each device_id error es s) ≡ true
    unfolding reject_each
    reject_each-keeps_answer [] p s h = h
    reject_each-keeps_answer ((j, w) ∷ es) p s h =
        elim (text_eq w.device_id device_id)
          as (λ b.
            is_answered p
              (reject_each device_id error es (if not b then s else finish w.promise j error s))
            ≡ true) [
              | false ↦ reject_each-keeps_answer es p s h
              | true ↦
                  reject_each-keeps_answer es p (finish w.promise j error s)
                    (finish-keeps_answer w.promise j error p s h)
            ]

  unregister_connection-IsKept :
      (device_id reason : Text) (id : Text) (c : PendingToolCall) (s : Channel J)
      → AllDistinct s
      → IsKept id c s
      → IsKept id c (unregister_connection device_id reason s)
  unfolding unregister_connection
  unregister_connection-IsKept device_id reason id c s d (inl answered) = inl (
      reject_each-keeps_answer device_id _ s.pending_tool_calls c.promise
        (record s { connections = delete device_id s.connections }) answered)
  unregister_connection-IsKept device_id reason id c s d (inr waits) =
      reject_each-IsKept device_id _ s.pending_tool_calls id c
        (record s { connections = delete device_id s.connections })
        (all-IsOwn id c s.pending_tool_calls d waits) (inr waits)

  unregister_each-IsKept :
      (es : JsMap RegisteredConnection) (id : Text) (c : PendingToolCall) (s : Channel J)
      → AllDistinct s
      → IsKept id c s
      → IsKept id c (unregister_each es s)
  unfolding unregister_each
  unregister_each-IsKept [] id c s d h = h
  unregister_each-IsKept ((j, _) ∷ rest) id c s d h =
      unregister_each-IsKept rest id c _
        (unregister_connection-AllDistinct j (text "channel_closed") s d)
        (unregister_connection-IsKept j (text "channel_closed") id c s d h)

  close-answers :
      (id : Text) (c : PendingToolCall) (s : Channel J)
      → AllDistinct s
      → (close s).pending_tool_calls ≡ []
      → get id s.pending_tool_calls ≡ some c
      → is_answered c.promise (close s) ≡ true
  unfolding close get
  close-answers id c s d none_left waits =
      elim (unregister_each-IsKept s.connections id c s d (inr waits)) [
        | inl answered ↦ answered
        | inr still ↦ absurd (ground (arith, none_left))
      ]

  -- After every history of a channel that starts empty, `close` leaves no entry, and it answers
  -- the call of every entry that was waiting.
  pub run-close :
      (calls : List (ChannelCall J))
      → ((close (run calls idle)).pending_tool_calls ≡ [])
        × Entries
            (λ id c. is_answered c.promise (close (run calls idle)) ≡ true)
            (run calls idle).pending_tool_calls
  run-close calls =
      let s : Channel J = run calls idle in
      let d : AllDistinct s = run-AllDistinct calls idle tt in
      (
        run-close_none calls,
        All-In _ s.pending_tool_calls λ e member.
            close-answers e.0 e.1 s d (run-close_none calls)
              (In-get e.0 e.1 s.pending_tool_calls d member),
      )
