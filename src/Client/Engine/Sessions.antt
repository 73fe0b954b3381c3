-- ===== src/Client/Engine/Sessions.antt =====
-- Whole sessions with the engine of crates/xeedee/src/client/engine.rs: any sequence of calls of
-- its methods.
use xeedee.Base.{ℕ, ◌+◌, ◌≤◌, ◌≡◌, false, Option, none, some, List, [], ◌∷◌, Bytes, ok, err}
use xeedee.Base.Options.{◌>>=◌}
use xeedee.Crates.{Crates}
use xeedee.Client.Engine.{ClientEngine, ClientEvent, new}
use xeedee.Client.Engine.Ledger.{is_answer, owed}
use xeedee.Client.Engine.Ops.{
  is_terminal_state, Outcome, submit, submit_streaming, expect_response, send, close_read,
  take_inbox, end_stream, abort_stream, recv, poll,
}

-- A call of a method.
pub data Op : Type 0 where
  recv_op : Bytes → Op
  poll_op : Op
  submit_op : Bytes → Option ℕ → Op
  submit_streaming_op : Bytes → Op
  expect_response_op : Op
  send_op : ℕ → Op
  close_read_op : Op
  take_inbox_op : Op
  end_stream_op : Bytes → Op
  abort_stream_op : Option ℕ → Op

-- The engine, the calls that were accepted, and the answers that `poll` has returned.
pub record Session : Type 0 where
  pub engine : ClientEngine
  pub accepted : ℕ
  pub delivered : ℕ

abbrev pub start : Session
start = record { engine = new; accepted = 0; delivered = 0 }

abbrev pub after : Session → Outcome → Session
after s (e, ok _) = record s { engine = e; accepted = s.accepted + 1 }
after s (e, err _) = record s { engine = e }

abbrev pub answer_of : Option ClientEvent → ℕ
answer_of none = 0
answer_of (some v) = is_answer v

module _ (x : Crates) where
  unfoldable pub act : Op → Session → Option Session
  act (recv_op bytes) s = do e ← recv x bytes s.engine; some (record s { engine = e })
  act poll_op s = do
    (e, v) ← poll x s.engine
    some (record s { engine = e; delivered = s.delivered + answer_of v })
  act (submit_op line len) s = some (after s (submit line len s.engine))
  act (submit_streaming_op line) s = some (after s (submit_streaming line s.engine))
  act expect_response_op s = some (after s (expect_response s.engine))
  act (send_op room) s = some (record s { engine = (send room s.engine).0 })
  act close_read_op s = some (record s { engine = close_read s.engine })
  act take_inbox_op s = some (record s { engine = (take_inbox s.engine).0 })
  act (end_stream_op leftover) s = some (record s { engine = end_stream leftover s.engine })
  act (abort_stream_op unread) s = some (record s { engine = abort_stream unread s.engine })

  unfoldable pub run : List Op → Session → Option Session
  unfolding act
  run [] s = some s
  run (op ∷ ops) s = do s' ← act op s; run ops s'

-- Answers do not outnumber accepted commands; while the engine lives, each accepted command has
-- its answer, in the queue or delivered, or is the one that waits.
pub record IsBalanced (s : Session) : Type 0 where
  pub most : s.delivered + owed s.engine ≤ s.accepted
  pub all : is_terminal_state s.engine.state ≡ false → s.delivered + owed s.engine ≡ s.accepted
