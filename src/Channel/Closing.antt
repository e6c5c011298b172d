-- ===== src/Channel/Closing.antt =====
-- What `unregisterConnection` and `close` of src/websocket-device-channel.ts leave behind: no call
-- that waits for a device whose connection is gone.
use xautojs_devspace.Channel.{
  Channel, PendingToolCall, RegisteredConnection, Timer, answer_of, clear_timer, find_timer, finish,
  fire_timer, handle_device_message, reject_each, settle, unregister_connection, unregister_each,
}
use xautojs_devspace.Channel.Messages.{RemoteMcpToolResult, ToolResultMessage, tool_result_message}
use xautojs_devspace.Channel.Promises.{is_answered}
use xautojs_devspace.Prelude.{
  All, All-In, Bool-cases, In, List, [], arith, false, if◌then◌else◌, inl, inr, is_some, not, refl,
  some, subst, sym, true, ℕ, ◌∙◌, ◌∷◌, ◌≡◌, ◌≢◌,
}
use xautojs_devspace.Prelude.JsMap.{Entries, Entries-delete, JsMap, delete, get, get-delete}
use xautojs_devspace.Prelude.Text.{Text, text, text_eq}
use xautojs_devspace.Prelude.Text.Laws.{text_eq_iff, text_eq_refl}

In-All : {A : Type 0} (P : A → Type 0) (xs : List A) → All P xs → (x : A) → In x xs → P x
In-All P [] a x m = elim m [ ]
In-All P (y ∷ xs) a x (inl e) = subst P (sym e) a.0
In-All P (y ∷ xs) a x (inr m) = In-All P xs a.1 x m

Entries-delete-key :
    {V : Type 0} (k : Text) (m : JsMap V) → Entries (λ j v. text_eq j k ≡ false) (delete k m)
unfolding delete
Entries-delete-key k [] = tt
Entries-delete-key k ((j, v) ∷ m) = ground (arith, Entries-delete-key k m)

-- A call that waits is for a device that is connected.
abbrev pub IsConnected : JsMap RegisteredConnection → Text → PendingToolCall → Type 0
IsConnected connections id c = is_some (get c.device_id connections) ≡ true

module _ {J : Type 0} where
  pub finish-waiting :
      (q : ℕ) (id : Text) (r : RemoteMcpToolResult J) (s : Channel J)
      → ((finish q id r s).pending_tool_calls ≡ delete id s.pending_tool_calls)
        × ((finish q id r s).connections ≡ s.connections)
  unfolding finish settle clear_timer
  finish-waiting q id r s = ground arith

  module _ (device_id : Text) (error : RemoteMcpToolResult J) where
    reject_each-Entries :
        (P : Text → PendingToolCall → Type 0) (es : JsMap PendingToolCall) (s : Channel J)
        → Entries P s.pending_tool_calls
        → Entries P (reject_each device_id error es s).pending_tool_calls
    unfolding reject_each
    reject_each-Entries P [] s a = a
    reject_each-Entries P ((id, waiting) ∷ es) s a =
        elim (text_eq waiting.device_id device_id)
          as (λ b.
            Entries P
              (reject_each device_id error es
                (if not b then s else finish waiting.promise id error s)).pending_tool_calls) [
                  | false ↦ reject_each-Entries P es s a
                  | true ↦ reject_each-Entries P es (finish waiting.promise id error s) (
                      rw (finish-waiting waiting.promise id error s).0
                        (Entries-delete P id s.pending_tool_calls a))
                ]

    pub reject_each-connections :
        (es : JsMap PendingToolCall) (s : Channel J)
        → (reject_each device_id error es s).connections ≡ s.connections
    unfolding reject_each
    reject_each-connections [] s = refl
    reject_each-connections ((id, waiting) ∷ es) s =
        elim (text_eq waiting.device_id device_id)
          as (λ b.
            (reject_each device_id error es
              (if not b then s else finish waiting.promise id error s)).connections
            ≡ s.connections) [
              | false ↦ reject_each-connections es s
              | true ↦
                  reject_each-connections es (finish waiting.promise id error s)
                  ∙ (finish-waiting waiting.promise id error s).1
            ]

    -- An entry of the device that the loop visits is gone.
    reject_each-removed :
        (es : JsMap PendingToolCall) (s : Channel J)
        → Entries
            (λ id waiting.
              text_eq waiting.device_id device_id ≡ true
              → Entries
                  (λ k c. text_eq k id ≡ false)
                  (reject_each device_id error es s).pending_tool_calls)
            es
    unfolding reject_each
    reject_each-removed [] s = tt
    reject_each-removed ((id, waiting) ∷ es) s = (
      λ mine.
          rw (reject_each, mine)
            (reject_each-Entries (λ k c. text_eq k id ≡ false) es
              (finish waiting.promise id error s)
              (rw (finish-waiting waiting.promise id error s).0
                (Entries-delete-key id s.pending_tool_calls))),
      reject_each-removed es _,
    )

    reject_each-none :
        (s : Channel J)
        → Entries
            (λ id c. text_eq c.device_id device_id ≡ false)
            (reject_each device_id error s.pending_tool_calls s).pending_tool_calls
    reject_each-none s =
        let es = s.pending_tool_calls in
        let left = (reject_each device_id error es s).pending_tool_calls in
        let old : Entries (λ id c. In (id, c) es) left =
          reject_each-Entries (λ id c. In (id, c) es) es s
            (All-In (λ e. In (e.0, e.1) es) es (λ e m. m)) in
        All-In _ left λ e m. elim (Bool-cases (text_eq e.1.device_id device_id)) [
          | inr other ↦ other
          | inl mine ↦ absurd (gone e m mine (In-All _ left old e m))
        ]
      where
        gone :
            (e : Text × PendingToolCall)
            → In e (reject_each device_id error s.pending_tool_calls s).pending_tool_calls
            → text_eq e.1.device_id device_id ≡ true
            → In (e.0, e.1) s.pending_tool_calls
            → ⊥
        gone e m mine before =
            let absent =
              In-All _ s.pending_tool_calls (reject_each-removed s.pending_tool_calls s) e before
                mine in
            let differs : text_eq e.0 e.0 ≡ false = In-All _ _ absent e m in
            ground (arith, text_eq_refl e.0)

  unregister_connection-none :
      (device_id reason : Text) (s : Channel J)
      → Entries
          (λ id c. text_eq c.device_id device_id ≡ false)
          (unregister_connection device_id reason s).pending_tool_calls
  unfolding unregister_connection
  unregister_connection-none device_id reason s =
      reject_each-none device_id _ (record s { connections = delete device_id s.connections })

  unregister_connection-connections :
      (device_id reason : Text) (s : Channel J)
      → (unregister_connection device_id reason s).connections ≡ delete device_id s.connections
  unfolding unregister_connection
  unregister_connection-connections device_id reason s =
      reject_each-connections device_id _ s.pending_tool_calls
        (record s { connections = delete device_id s.connections })

  unregister_connection-Entries :
      (P : Text → PendingToolCall → Type 0) (device_id reason : Text) (s : Channel J)
      → Entries P s.pending_tool_calls
      → Entries P (unregister_connection device_id reason s).pending_tool_calls
  unfolding unregister_connection
  unregister_connection-Entries P device_id reason s a =
      reject_each-Entries device_id _ P s.pending_tool_calls
        (record s { connections = delete device_id s.connections }) a

  abbrev pub AllConnected : Channel J → Type 0
  AllConnected s = Entries (IsConnected s.connections) s.pending_tool_calls

  pub unregister_connection-AllConnected :
      (device_id reason : Text) (s : Channel J)
      → AllConnected s
      → AllConnected (unregister_connection device_id reason s)
  unregister_connection-AllConnected device_id reason s a =
      let u = unregister_connection device_id reason s in
      let kept = unregister_connection-Entries (IsConnected s.connections) device_id reason s a in
      let other = unregister_connection-none device_id reason s in
      rw (unregister_connection-connections device_id reason s) (
        All-In _ u.pending_tool_calls
          λ e m. still device_id s.connections e.0 e.1 (In-All _ _ kept e m) (In-All _ _ other e m))
    where
      still :
          (device_id : Text) (connections : JsMap RegisteredConnection) (id : Text)
          (c : PendingToolCall)
          → IsConnected connections id c
          → text_eq c.device_id device_id ≡ false
          → IsConnected (delete device_id connections) id c
      still device_id connections id c here other = ground (
        arith,
        get-delete device_id c.device_id connections,
        text_eq_iff c.device_id device_id,
        text_eq_iff device_id c.device_id,
      )

  -- Every key that is left is among the entries that the loop has before it.
  pub unregister_each-none :
      (entries : JsMap RegisteredConnection) (s : Channel J)
      → AllConnected s
      → ((k : Text) → is_some (get k s.connections) ≡ true → is_some (get k entries) ≡ true)
      → (unregister_each entries s).pending_tool_calls ≡ []
  unfolding unregister_each get
  unregister_each-none [] s a h = none_left s.pending_tool_calls a
    where
      none_left : (m : JsMap PendingToolCall) → Entries (IsConnected s.connections) m → m ≡ []
      none_left [] a = refl
      none_left ((id, c) ∷ m) a = absurd (ground (arith, h c.device_id a.0))
  unregister_each-none ((j, _) ∷ rest) s a h =
      unregister_each-none rest (unregister_connection j (text "channel_closed") s)
        (unregister_connection-AllConnected j (text "channel_closed") s a)
        λ k here. ground (
          arith,
          h k,
          here,
          unregister_connection-connections j (text "channel_closed") s,
          get-delete j k s.connections,
        )

  -- Where a timer ends while the entry under its id is a later call's, that call loses its entry: a
  -- result that the device sends for it afterwards does not answer it.
  pub fire_timer-drops :
      (s : Channel J) (p : ℕ) (t : Timer) (waiting : PendingToolCall) (m : ToolResultMessage J)
      → find_timer p s.timers ≡ some t
      → get t.tool_call_id s.pending_tool_calls ≡ some waiting
      → waiting.promise ≢ p
      → is_answered waiting.promise s ≡ false
      → m.tool_call_id ≡ t.tool_call_id
      → is_answered waiting.promise (handle_device_message (tool_result_message m) (fire_timer p s))
        ≡ false
  unfolding handle_device_message fire_timer finish settle clear_timer answer_of
  fire_timer-drops s p t waiting m running found other quiet same = ground (
    arith,
    get-delete t.tool_call_id t.tool_call_id s.pending_tool_calls,
    text_eq_refl t.tool_call_id,
  )
