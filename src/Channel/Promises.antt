-- ===== src/Channel/Promises.antt =====
-- The promises of `sendToolCall` in src/websocket-device-channel.ts: each has its answer, or its
-- timer runs.
use xautojs_devspace.Channel.{
  Answer, Channel, Timer, answer_of, clear_timer, find_timer, finish, remove_timer, settle,
}
use xautojs_devspace.Channel.Messages.{RemoteMcpToolResult}
use xautojs_devspace.Prelude.{
  Bool, List, [], arith, if◌then◌else◌, is_some, none, true, ℕ, ◌<◌, ◌==◌, ◌||◌, ◌∷◌, ◌≡◌,
}
use xautojs_devspace.Prelude.Text.{Text}

find-remove :
    (q p : ℕ) (ts : List Timer)
    → find_timer p (remove_timer q ts) ≡ (if q == p then none else find_timer p ts)
unfolding find_timer remove_timer
find-remove q p [] = ground arith
find-remove q p (t ∷ ts) = ground (arith, find-remove q p ts)

module _ {J : Type 0} where
  abbrev pub is_answered : ℕ → Channel J → Bool
  is_answered promise s = is_some (answer_of promise s.settled)

  -- The promise has its answer, or its timer runs.
  abbrev pub IsCovered : ℕ → Channel J → Type 0
  IsCovered promise s = is_answered promise s || is_some (find_timer promise s.timers) ≡ true

  -- After `resolve` the promise has an answer, and no other promise loses its own.
  pub settle-answered :
      (q : ℕ) (a : Answer J) (p : ℕ) (s : Channel J)
      → is_answered p (settle q a s) ≡ (q == p) || is_answered p s
  unfolding settle answer_of
  settle-answered q a p s = ground arith

  pub settle-IsCovered :
      (q : ℕ) (a : Answer J) (p : ℕ) (s : Channel J) → IsCovered p s → IsCovered p (settle q a s)
  unfolding settle answer_of
  settle-IsCovered q a p s h = ground arith

  pub finish-answered :
      (q : ℕ) (id : Text) (r : RemoteMcpToolResult J) (s : Channel J)
      → is_answered q (finish q id r s) ≡ true
  unfolding finish settle answer_of clear_timer
  finish-answered q id r s = ground arith

  pub finish-IsCovered :
      (q : ℕ) (id : Text) (r : RemoteMcpToolResult J) (p : ℕ) (s : Channel J)
      → IsCovered p s
      → IsCovered p (finish q id r s)
  unfolding finish settle answer_of clear_timer
  finish-IsCovered q id r p s h = ground (arith, find-remove q p s.timers)

  -- Every promise given out is covered.
  abbrev pub AllCovered : Channel J → Type 0
  AllCovered s = (p : ℕ) → p < s.calls → IsCovered p s

  pub finish-calls :
      (q : ℕ) (id : Text) (r : RemoteMcpToolResult J) (s : Channel J)
      → (finish q id r s).calls ≡ s.calls
  unfolding finish settle clear_timer
  finish-calls q id r s = ground arith
