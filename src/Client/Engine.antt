-- ===== src/Client/Engine.antt =====
-- The sans-io client state machine: crates/xeedee/src/client/engine.rs. `bytes::BytesMut`, `Vec` and
-- `VecDeque` are held as their contents. A call that panics has no result.
pub mod Steps
pub mod Measure
pub mod Quiescence
pub mod Blind
pub mod Extend
pub mod Chunks
pub mod Lines
pub mod Server
pub mod Exchange
pub mod Ledger
pub mod Kept
pub mod Sessions
pub mod Balance
pub mod Ops
use xeedee.Base.{
  ℕ, zero, suc, ◌+◌, ◌-◌, ◌*◌, min, Bool, true, false, ◌&&◌, Option, none, some, List, [], ◌∷◌,
  ◌++◌, Bytes, Result, ok, err, codes, length, take, drop, get_elem?, bytes_eq, ltb, ◌==◌,
  if◌then◌else◌,
}
use xeedee.Base.Options.{◌>>=◌}
use xeedee.Crates.{Crates}
use xeedee.Protocol.Error.{
  Error, framing, transport, unknown_status_code, stream_abandoned, line_too_long, non_utf8_line,
  missing_banner, missing_binary_len, SubmitError, command_in_flight, not_connected, unusable,
}
use xeedee.Protocol.ErrorCode.{ErrorCode}
use xeedee.Protocol.Head.{ResponseHead, parse_response_head}
use xeedee.Protocol.Response.{Response}
use xeedee.Protocol.StatusCode.{StatusCode, Classified, success, error, unknown, try_classify}
use xeedee.Protocol.SuccessCode.{SuccessCode}
use xeedee.Text.Utf8.{is_utf8}

abbrev pub max_line_len : ℕ
max_line_len = 16 * 1024

pub data ClientEvent : Type 0 where
  connected : ClientEvent
  response : Response → ClientEvent
  binary_head : Bytes → ClientEvent
  remote_error : ErrorCode → Bytes → ClientEvent
  closed : ClientEvent
  failed : Error → ClientEvent

pub data HeadExpect : Type 0 where
  no_binary : HeadExpect
  eager_binary : ℕ → HeadExpect
  stream_binary : HeadExpect

pub data State : Type 0 where
  need_banner idle : State
  awaiting_head : HeadExpect → State
  reading_multiline : Bytes → List Bytes → State
  reading_binary : Bytes → ℕ → Bytes → State
  streaming_body closed failed : State

pub record ClientEngine : Type 0 where
  pub state : State
  pub inbox : Bytes
  pub outbox : Bytes
  pub events : List ClientEvent

abbrev pub new : ClientEngine
new = record { state = State.need_banner; inbox = []; outbox = []; events = [] }

-- `self.state = s`, `self.events.push_back(v)`
abbrev pub set_state : State → ClientEngine → ClientEngine
set_state s e = record e { state = s }

abbrev pub push_event : ClientEvent → ClientEngine → ClientEngine
push_event v e = record e { events = e.events ++ v ∷ [] }

unfoldable pub fail : Error → ClientEngine → ClientEngine
fail cause e = push_event (ClientEvent.failed cause) (set_state State.failed e)

-- Where the line that the LF at `pos` ends stops: in front of a CR.
unfoldable pub line_end : ℕ → Bytes → ℕ
line_end zero inbox = zero
line_end (suc p) inbox = elim (get_elem? inbox p) [
  | none ↦ suc p
  | some c ↦ (if c == b'\r' then p else suc p)
]

-- The head of a response to a submitted command, in the cases of `step`.
unfoldable pub on_head : HeadExpect → Classified → Bytes → ClientEngine → ClientEngine
unfolding fail
on_head expect (error code) rest e =
    set_state State.idle (push_event (ClientEvent.remote_error code rest) e)
on_head expect (unknown code) rest e = fail (unknown_status_code code.raw) e
on_head expect (success SuccessCode.multiline_follows) rest e =
    set_state (State.reading_multiline rest []) e
on_head HeadExpect.no_binary (success SuccessCode.binary_follows) rest e =
    fail (transport missing_binary_len) e
on_head (HeadExpect.eager_binary len) (success SuccessCode.binary_follows) rest e =
    set_state (State.reading_binary rest len []) e
on_head HeadExpect.stream_binary (success SuccessCode.binary_follows) rest e =
    push_event (ClientEvent.binary_head rest) (set_state State.streaming_body e)
on_head expect (success SuccessCode.send_binary) rest e =
    set_state State.idle (push_event (ClientEvent.response (Response.send_binary rest)) e)
on_head expect (success code) rest e =
    set_state State.idle (push_event (ClientEvent.response (Response.line code rest)) e)

-- The banner, in the cases of `step`.
unfoldable pub on_banner : Classified → ClientEngine → ClientEngine
unfolding fail
on_banner (success SuccessCode.connected) e =
    push_event ClientEvent.connected (set_state State.idle e)
on_banner _ e = fail (framing missing_banner) e

-- A line of a multiline body.
unfoldable pub on_body_line : Bytes → List Bytes → Bytes → ClientEngine → ClientEngine
on_body_line head lines line e =
    if bytes_eq line (codes ".")
    then push_event (ClientEvent.response (Response.multiline head lines)) (set_state State.idle e)
    else set_state (State.reading_multiline head (lines ++ line ∷ [])) e

-- What `step` returns: `moved` is `true`, `stuck` is `false`, both with the engine it leaves.
pub data Progress : Type 0 where
  moved stuck : ClientEngine → Progress
  panicked : Progress

-- Binary bytes in the inbox are taken until `remaining` is zero.
unfoldable pub step_binary : Bytes → ℕ → Bytes → ClientEngine → Progress
step_binary head zero body e =
    moved (push_event (ClientEvent.response (Response.binary head body)) (set_state State.idle e))
step_binary head (suc r) body e = elim e.inbox [
  | [] ↦ stuck e
  | c ∷ s ↦
      (let n = min (suc r) (length (c ∷ s)) in
        moved (record e {
          state = State.reading_binary head (suc r - n) (body ++ take n (c ∷ s));
          inbox = drop n (c ∷ s);
        }))
]
