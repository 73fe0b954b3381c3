-- ===== src/Client/Engine/Ops.antt =====
-- The methods of `ClientEngine` that its callers use: crates/xeedee/src/client/engine.rs.
use xeedee.Base.{
  ℕ, min, Bool, true, false, Option, none, some, [], ◌∷◌, ◌++◌, Bytes, Result, ok, err, codes,
  length, take, drop,
}
use xeedee.Base.Options.{◌>>=◌}
use xeedee.Crates.{Crates}
use xeedee.Client.Engine.{
  State, ClientEngine, ClientEvent, HeadExpect, no_binary, eager_binary, stream_binary, fail,
  set_state, push_event,
}
use xeedee.Client.Engine.Steps.{advance}
use xeedee.Protocol.Error.{
  SubmitError, command_in_flight, not_connected, unusable, stream_abandoned,
}

unfoldable pub is_terminal_state : State → Bool
is_terminal_state State.closed = true
is_terminal_state State.failed = true
is_terminal_state _ = false

unfoldable pub is_terminal : ClientEngine → Bool
unfolding is_terminal_state
is_terminal e = is_terminal_state e.state

-- What a new command or an armed read is refused with.
unfoldable pub ready : State → Result SubmitError (Unit {0})
ready State.need_banner = err not_connected
ready State.idle = ok tt
ready State.closed = err unusable
ready State.failed = err unusable
ready _ = err command_in_flight

-- A method that may refuse returns the engine as it then is, and its result.
abbrev pub Outcome : Type 0
Outcome = ClientEngine × Result SubmitError (Unit {0})

unfoldable pub queue_submit : Bytes → HeadExpect → ClientEngine → Outcome
unfolding ready
queue_submit line expect e = elim (ready e.state) [
  | err cause ↦ (e, err cause)
  | ok _ ↦ (
    (record e { state = State.awaiting_head expect; outbox = (e.outbox ++ line) ++ codes "\r\n" }),
    ok tt,
  )
]

unfoldable pub submit : Bytes → Option ℕ → ClientEngine → Outcome
unfolding queue_submit
submit line none = queue_submit line no_binary
submit line (some n) = queue_submit line (eager_binary n)

unfoldable pub submit_streaming : Bytes → ClientEngine → Outcome
unfolding queue_submit
submit_streaming line = queue_submit line stream_binary

unfoldable pub expect_response : ClientEngine → Outcome
unfolding ready
expect_response e = elim (ready e.state) [
  | err cause ↦ (e, err cause)
  | ok _ ↦ (set_state (State.awaiting_head no_binary) e, ok tt)
]

-- Up to `n` bytes go into the caller's buffer of `n` bytes.
unfoldable pub send : ℕ → ClientEngine → ClientEngine × Bytes
send room e =
    let n = min (length e.outbox) room in ((record e { outbox = drop n e.outbox }), take n e.outbox)

unfoldable pub pending_send : ClientEngine → ℕ
pending_send e = length e.outbox

unfoldable pub close_read : ClientEngine → ClientEngine
unfolding is_terminal
close_read e = elim (is_terminal e) [
  | true ↦ e
  | false ↦ push_event ClientEvent.closed (set_state State.closed e)
]

unfoldable pub take_inbox : ClientEngine → ClientEngine × Bytes
take_inbox e = ((record e { inbox = [] }), e.inbox)

unfoldable pub is_streaming : State → Bool
is_streaming State.streaming_body = true
is_streaming _ = false

unfoldable pub end_stream : Bytes → ClientEngine → ClientEngine
unfolding is_streaming
end_stream leftover e = elim (is_streaming e.state) [
  | true ↦ record e { state = State.idle; inbox = e.inbox ++ leftover }
  | false ↦ e
]

unfoldable pub abort_stream : Option ℕ → ClientEngine → ClientEngine
unfolding is_streaming fail
abort_stream unread e = elim (is_streaming e.state) [
  | true ↦ fail (stream_abandoned unread) e
  | false ↦ e
]

-- The states in which received bytes are dropped.
unfoldable pub is_deaf : State → Bool
is_deaf State.closed = true
is_deaf State.failed = true
is_deaf State.streaming_body = true
is_deaf _ = false

unfoldable pub pop_event : ClientEngine → ClientEngine × Option ClientEvent
pop_event e = elim e.events [
  | [] ↦ (e, none)
  | event ∷ later ↦ ((record e { events = later }), some event)
]

module _ (x : Crates) where
  unfoldable pub recv : Bytes → ClientEngine → Option ClientEngine
  unfolding is_deaf advance
  recv bytes e = elim (is_deaf e.state) [
    | true ↦ some e
    | false ↦ advance x (record e { inbox = e.inbox ++ bytes })
  ]

  unfoldable pub poll : ClientEngine → Option (ClientEngine × Option ClientEvent)
  unfolding advance pop_event
  poll e = do e' ← advance x e; some (pop_event e')
