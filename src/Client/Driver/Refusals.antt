-- ===== src/Client/Driver/Refusals.antt =====
-- Calls that the client refuses (crates/xeedee/src/client/mod.rs).
use xeedee.Base.{ℕ, ◌≡◌, refl, ap, ◌∙◌, Option, none, some, List, Bytes, codes, ok, err}
use xeedee.Base.Results.{tried}
use xeedee.Client.Driver.{
  Transport, Client, connected, submit_to_report, on_engine, run_line, run, send_raw, run_streaming,
  bye, read_post_upload_response, await_raw, wanted_len, run_with,
}
use xeedee.Client.Engine.{State, ClientEngine, HeadExpect}
use xeedee.Client.Engine.Ops.{ready, queue_submit, submit, submit_streaming, expect_response}
use xeedee.Crates.{Crates}
use xeedee.Protocol.Command.{Command}
use xeedee.Protocol.Error.{
  SubmitError, not_connected, command_in_flight, unusable, Error, connection_closed, engine_misuse,
}

queue_submit-err :
    (line : Bytes) (expect : HeadExpect) (e : ClientEngine) (cause : SubmitError)
    → ready e.state ≡ err cause
    → queue_submit line expect e ≡ (e, err cause)
unfolding queue_submit
queue_submit-err line expect e cause h = rw (h, queue_submit) refl

-- No call that sends a command does anything when the engine is not idle: it returns the error of
-- the engine's state, and the transport and the engine are as they were.
module _ {T : Type 0} (x : Crates) (io : Transport T) (fuel : ℕ) (c : Client T connected)
    (cause : SubmitError) (h : ready c.engine.state ≡ err cause) where
  submit_err : (line : Bytes) (len : Option ℕ) → submit line len c.engine ≡ (c.engine, err cause)
  unfolding submit
  submit_err line none = queue_submit-err line _ c.engine cause h
  submit_err line (some n) = queue_submit-err line _ c.engine cause h

  run_line-refused :
      {A : Type 0}
      → (cmd : Command A) (line : Bytes) (len : Option ℕ)
      → run_line x io fuel cmd line len c ≡ some (err (submit_to_report cause), c)
  unfolding run_line on_engine tried
  run_line-refused cmd line len = rw (submit_err line len) refl

  await_raw-refused :
      await_raw x io fuel (c.engine, err cause) c.transport ≡ some (err (submit_to_report cause), c)
  unfolding await_raw on_engine tried
  await_raw-refused = refl

  expect_response_err : expect_response c.engine ≡ (c.engine, err cause)
  unfolding expect_response
  expect_response_err = rw (h, expect_response) refl

  run-refused :
      {A : Type 0}
      → (cmd : Command A) (line : Bytes) (len : Option ℕ) → cmd.wire_line ≡ ok line
      → wanted_len cmd ≡ ok len
      → run x io fuel cmd c ≡ some (err (submit_to_report cause), c)
  unfolding run run_with
  run-refused cmd line len wire want =
      ap (λ w. run_with x io fuel cmd c w (wanted_len cmd)) wire
      ∙ ap (run_with x io fuel cmd c (ok line)) want
      ∙ run_line-refused cmd line len

  send_raw-refused :
      (line : Bytes) → send_raw x io fuel line c ≡ some (err (submit_to_report cause), c)
  unfolding send_raw
  send_raw-refused line =
      ap (λ o. await_raw x io fuel o c.transport) (submit_err line none) ∙ await_raw-refused

  upload-refused : read_post_upload_response x io fuel c ≡ some (err (submit_to_report cause), c)
  unfolding read_post_upload_response
  upload-refused =
      ap (λ o. await_raw x io fuel o c.transport) expect_response_err ∙ await_raw-refused

  streaming-refused :
      (line : Bytes) → run_streaming x io fuel line c ≡ some (err (submit_to_report cause), c)
  unfolding run_streaming submit_streaming on_engine tried
  streaming-refused line = rw (queue_submit-err line HeadExpect.stream_binary c.engine cause h) refl

  bye-refused : bye x io fuel c ≡ some (err (submit_to_report cause))
  unfolding bye on_engine
  bye-refused = rw (submit_err (codes "bye") none) refl

-- What each state of the engine but the idle one answers to a command.
pub data NotReady : State → Error → Type 0 where
  before_banner : NotReady State.need_banner (engine_misuse not_connected)
  head_awaited :
      (expect : HeadExpect)
      → NotReady (State.awaiting_head expect) (engine_misuse command_in_flight)
  multiline_read :
      (head : Bytes) (lines : List Bytes)
      → NotReady (State.reading_multiline head lines) (engine_misuse command_in_flight)
  binary_read :
      (head : Bytes) (want : ℕ) (body : Bytes)
      → NotReady (State.reading_binary head want body) (engine_misuse command_in_flight)
  stream_open : NotReady State.streaming_body (engine_misuse command_in_flight)
  after_close : NotReady State.closed connection_closed
  after_failure : NotReady State.failed connection_closed

-- The engine's own answer in such a state.
not_ready :
    (s : State) (error : Error)
    → NotReady s error
    → (cause : SubmitError) × (ready s ≡ err cause) × (submit_to_report cause ≡ error)
unfolding ready submit_to_report
not_ready s error before_banner = (not_connected, refl, refl)
not_ready s error (head_awaited expect) = (command_in_flight, refl, refl)
not_ready s error (multiline_read head lines) = (command_in_flight, refl, refl)
not_ready s error (binary_read head want body) = (command_in_flight, refl, refl)
not_ready s error stream_open = (command_in_flight, refl, refl)
not_ready s error after_close = (unusable, refl, refl)
not_ready s error after_failure = (unusable, refl, refl)

-- In every state of the engine but the idle one, each call that would send a command or arm a read
-- is refused: before the banner as not connected, during any exchange and while a stream is open as a
-- command in flight, and after the end as a closed connection. The engine and the transport are as
-- they were, so nothing is written and nothing is read. The command has a line, and the length that
-- it needs.
pub run-refuses :
    {T A : Type 0} (x : Crates) (io : Transport T) (fuel : ℕ) (c : Client T connected)
    (error : Error)
    → NotReady c.engine.state error
    → (cmd : Command A) (line : Bytes) (len : Option ℕ) → cmd.wire_line ≡ ok line
    → wanted_len cmd ≡ ok len
    → (run x io fuel cmd c ≡ some (err error, c))
      × (send_raw x io fuel line c ≡ some (err error, c))
      × (run_streaming x io fuel line c ≡ some (err error, c))
      × (read_post_upload_response x io fuel c ≡ some (err error, c))
      × (bye x io fuel c ≡ some (err error))
run-refuses x io fuel c error refused cmd line len wire want =
    let (cause, h, told) = not_ready c.engine.state error refused in
    (
      run-refused x io fuel c cause h cmd line len wire want ∙ ap (λ e. some (err e, c)) told,
      send_raw-refused x io fuel c cause h line ∙ ap (λ e. some (err e, c)) told,
      streaming-refused x io fuel c cause h line ∙ ap (λ e. some (err e, c)) told,
      upload-refused x io fuel c cause h ∙ ap (λ e. some (err e, c)) told,
      bye-refused x io fuel c cause h ∙ ap (λ e. some (err e)) told,
    )
