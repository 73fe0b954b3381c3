-- ===== src/Client/Driver/Runs.antt =====
-- Whole runs of a command over a transport (crates/xeedee/src/client/mod.rs).
use xeedee.Base.{
  ℕ, suc, ◌≤◌, ◌<◌, min, ◌≡◌, refl, ap, ◌∙◌, inl, inr, Bool, true, false, Option, none, some, [],
  ◌∷◌, ◌++◌, arith, Bytes, Result, ok, err, ◌==◌, Option-cases, length, take, drop, length-append,
  take_all, drop_all,
}
use xeedee.Base.Results.{tried}
use xeedee.Client.Driver.{
  Transport, Client, connected, read_chunk, on_engine, on_transport, write_queued, surface,
  pump_until, is_reply, on_reply, run_line, run, wanted_len, run_with,
}
use xeedee.Client.Engine.{ClientEngine, ClientEvent, State}
use xeedee.Client.Engine.Exchange.{exchange, remote, expectation}
use xeedee.Client.Engine.Lines.{crlf, IsLine}
use xeedee.Client.Engine.Ops.{queue_submit, submit, recv, poll, pop_event}
use xeedee.Client.Engine.Server.{render, IsSendable, Expects, answered}
use xeedee.Client.Engine.Steps.{advance}
use xeedee.Crates.{Crates, plain, Documented, for_all_crates}
use xeedee.Protocol.Command.{Command}
use xeedee.Protocol.ErrorCode
use xeedee.Protocol.ErrorCode.{ErrorCode}
use xeedee.Protocol.Head.Printed.{print_head}
use xeedee.Protocol.Error.{Error}
use xeedee.Protocol.Response.{Response}

-- An engine between two commands, which holds bytes that came early.
abbrev pub quiet : Bytes → ClientEngine
quiet rest = record { state = State.idle; inbox = rest; outbox = []; events = [] }

-- An engine that waits for a response, with what it has still to send.
abbrev pub asked : Bytes → Option ℕ → ClientEngine
asked out len = record {
  state = State.awaiting_head (expectation len);
  inbox = [];
  outbox = out;
  events = [];
}

pub submit-quiet :
    (line : Bytes) (len : Option ℕ) → submit line len (quiet []) ≡ (asked (line ++ crlf) len, ok tt)
unfolding submit queue_submit
submit-quiet line none = refl
submit-quiet line (some n) = refl

drop_sent : (out : Bytes) → length out ≤ read_chunk → drop (min (length out) read_chunk) out ≡ []
drop_sent out short = drop_all _ out (omega (arith, short))

take_sent : (out : Bytes) → length out ≤ read_chunk → take (min (length out) read_chunk) out ≡ out
take_sent out short = take_all _ out (omega (arith, short))

has_line : (line : Bytes) → (length (line ++ crlf) == 0) ≡ false
has_line line = ground (arith, length-append line crlf)

poll-asked : (len : Option ℕ) → poll plain (asked [] len) ≡ some (asked [] len, none)
unfolding poll advance pop_event plain
poll-asked len = refl

-- What the transport does in one exchange: it takes the command's line whole, and it returns some
-- bytes.
pub record Carries {T : Type 0} (io : Transport T) (line said : Bytes) (t t' : T) : Type 0 where
  pub written : T
  pub flushed : T
  pub heard : T
  pub writes : io.write_all (line ++ crlf) t ≡ some (ok tt, written)
  pub flushes : io.flush written ≡ some (ok tt, flushed)
  pub reads : io.read read_chunk flushed ≡ some (ok said, heard)
  pub flushes_again : io.flush heard ≡ some (ok tt, t')

abbrev pub at : {T : Type 0} → T → ClientEngine → Client T connected
at t e = record { transport = t; engine = e }

module _ {T : Type 0} (io : Transport T) where
  pub write_asked :
      (fuel : ℕ) (line : Bytes) (len : Option ℕ) (t written : T)
      → length (line ++ crlf) ≤ read_chunk
      → io.write_all (line ++ crlf) t ≡ some (ok tt, written)
      → write_queued plain io (suc (suc fuel)) (at t (asked (line ++ crlf) len))
        ≡ some (ok tt, at written (asked [] len))
  unfolding write_queued on_transport tried
  write_asked fuel line len t written short wrote =
      rw
        (
          has_line line,
          drop_sent (line ++ crlf) short,
          take_sent (line ++ crlf) short,
          wrote,
          write_queued,
        )
        refl

  pub surface-asked :
      (fuel : ℕ) (wants : ClientEvent → Bool) (len : Option ℕ) (t : T)
      → surface plain io (suc fuel) wants (at t (asked [] len))
        ≡ some (ok none, at t (asked [] len))
  unfolding surface
  surface-asked fuel wants len t = rw (poll-asked len, surface) refl

  surface-answered :
      (fuel : ℕ) (rest : Bytes) (event : ClientEvent) (t : T)
      → is_reply event ≡ true
      → surface plain io (suc fuel) is_reply (at t (answered (quiet []) rest event))
        ≡ some (ok (some event), at t (quiet rest))
  unfolding surface
  surface-answered fuel rest event t reply = rw (reply, surface) refl

  -- The round that reads the response, and the one that finds it.
  pump_asked :
      (fuel : ℕ) (line said rest : Bytes) (len : Option ℕ) (event : ClientEvent) (t t' : T)
      → Carries io line said t t'
      → length (line ++ crlf) ≤ read_chunk
      → 0 < length said
      → recv plain said (asked [] len) ≡ some (answered (quiet []) rest event)
      → is_reply event ≡ true
      → pump_until plain io (suc (suc fuel)) is_reply (at t (asked (line ++ crlf) len))
        ≡ some (ok event, at t' (quiet rest))
  unfolding pump_until on_transport tried
  pump_asked fuel line [] rest len event t t' h short some_bytes received reply =
      absurd (omega (arith, some_bytes))
  pump_asked fuel line (b ∷ s) rest len event t t' h short some_bytes received reply =
      rw
        (
          write_asked fuel line len t h.written short h.writes,
          h.flushes,
          surface-asked (suc fuel) is_reply len h.flushed,
          h.reads,
          received,
          h.flushes_again,
          surface-answered fuel rest event t' reply,
          pump_until,
        )
        refl

  run-asked :
      {A : Type 0}
      → (fuel : ℕ) (cmd : Command A) (line said rest : Bytes) (len : Option ℕ) (event : ClientEvent)
        (result : Result Error A) (t t' : T)
      → cmd.wire_line ≡ ok line
      → wanted_len cmd ≡ ok len
      → Carries io line said t t'
      → length (line ++ crlf) ≤ read_chunk
      → 0 < length said
      → recv plain said (asked [] len) ≡ some (answered (quiet []) rest event)
      → is_reply event ≡ true
      → on_reply cmd event ≡ some result
      → run plain io (suc (suc fuel)) cmd (at t (quiet [])) ≡ some (result, at t' (quiet rest))
  unfolding run run_with
  run-asked fuel cmd line said rest len event result t t' wire want h short some_bytes received
        reply told =
      ap (λ w. run_with plain io (suc (suc fuel)) cmd (at t (quiet [])) w (wanted_len cmd)) wire
      ∙ ap (run_with plain io (suc (suc fuel)) cmd (at t (quiet [])) (ok line)) want
      ∙ (unfold run_line on_engine tried in
          rw
            (
              submit-quiet line len,
              pump_asked fuel line said rest len event t t' h short some_bytes received reply,
              told,
              run_line,
            )
            refl)

pub render_some : (r : Response) (rest : Bytes) → 0 < length (render r ++ rest)
render_some (Response.line code text) rest = omega arith
render_some (Response.multiline text lines) rest = omega arith
render_some (Response.binary text body) rest = omega arith
render_some (Response.send_binary text) rest = omega arith

recv-asked :
    (r : Response) (rest : Bytes) (len : Option ℕ)
    → IsSendable r
    → Expects len r
    → recv plain (render r ++ rest) (asked [] len)
      ≡ some (answered (quiet []) rest (ClientEvent.response r))
unfolding recv
recv-asked r rest len fits expects =
    exchange (quiet []) rest (expectation len) r fits len expects refl

recv_refused :
    (code : ErrorCode) (n : ℕ) (text rest : Bytes) (len : Option ℕ)
    → ErrorCode.from_raw n ≡ some code
    → IsLine (print_head n text)
    → recv plain ((print_head n text ++ crlf) ++ rest) (asked [] len)
      ≡ some (answered (quiet []) rest (ClientEvent.remote_error code text))
unfolding recv
recv_refused code n text rest len known fits =
    remote (quiet []) rest (expectation len) code n text known fits

-- What `run` returns for a refusal of the server.
abbrev pub refusal : {A : Type 0} → Command A → ErrorCode → Bytes → Result Error A
refusal cmd code text = elim (cmd.handle_remote code text) [
  | some mapped ↦ mapped
  | none ↦ err (Error.remote code text)
]

on_reply-refusal :
    {A : Type 0}
    → (cmd : Command A) (code : ErrorCode) (text : Bytes)
    → on_reply cmd (ClientEvent.remote_error code text) ≡ some (refusal cmd code text)
unfolding on_reply
on_reply-refusal cmd code text = elim (Option-cases (cmd.handle_remote code text)) [
  | inl nothing ↦ rw (nothing, on_reply, refusal) refl
  | inr (mapped, eq) ↦ rw (eq, on_reply, refusal) refl
]

-- A command that is run on a client that is idle and holds nothing (no byte received, none to send, no
-- event to pull) is written out as its line with CR and LF, and `run` returns what the command parses of
-- the response that comes back, of whatever shape. The client is idle again and keeps what came behind
-- the response. The transport takes the line in one write of
-- 8192 bytes at most and returns the response in one read; the response is one that a server may
-- send, and a binary one is as long as the command says.
pub run-response :
    (x : Crates)
    → Documented x
    → {T A : Type 0} (io : Transport T) (fuel : ℕ) (cmd : Command A) (line rest : Bytes)
      (len : Option ℕ) (r : Response) (t t' : T)
    → cmd.wire_line ≡ ok line
    → wanted_len cmd ≡ ok len
    → IsSendable r
    → Expects len r
    → length (line ++ crlf) ≤ read_chunk
    → Carries io line (render r ++ rest) t t'
    → run x io (suc (suc fuel)) cmd (at t (quiet [])) ≡ some (cmd.parse r, at t' (quiet rest))
run-response x documented {T} {A} =
    for_all_crates
      (λ x.
        (io : Transport T) (fuel : ℕ) (cmd : Command A) (line rest : Bytes) (len : Option ℕ)
        (r : Response) (t t' : T)
        → cmd.wire_line ≡ ok line
        → wanted_len cmd ≡ ok len
        → IsSendable r
        → Expects len r
        → length (line ++ crlf) ≤ read_chunk
        → Carries io line (render r ++ rest) t t'
        → run x io (suc (suc fuel)) cmd (at t (quiet [])) ≡ some (cmd.parse r, at t' (quiet rest)))
      run_plain x documented
  where
    run_plain :
        (io : Transport T) (fuel : ℕ) (cmd : Command A) (line rest : Bytes) (len : Option ℕ)
        (r : Response) (t t' : T)
        → cmd.wire_line ≡ ok line
        → wanted_len cmd ≡ ok len
        → IsSendable r
        → Expects len r
        → length (line ++ crlf) ≤ read_chunk
        → Carries io line (render r ++ rest) t t'
        → run plain io (suc (suc fuel)) cmd (at t (quiet []))
          ≡ some (cmd.parse r, at t' (quiet rest))
    run_plain io fuel cmd line rest len r t t' wire want fits expects short h =
        run-asked io fuel cmd line (render r ++ rest) rest len (ClientEvent.response r)
          (cmd.parse r) t t' wire want h short (render_some r rest)
          (recv-asked r rest len fits expects) refl (unfold on_reply in refl)

-- On a client that is idle and holds nothing, a refusal from 400 to 499 that comes back is handed to the command; `run` returns what the command
-- makes of it, or an error with its code and text where it makes nothing of it. The client is idle
-- again. The transport takes the line in one write of 8192 bytes at most and returns the refusal in
-- one read.
pub run-refusal :
    (x : Crates)
    → Documented x
    → {T A : Type 0} (io : Transport T) (fuel : ℕ) (cmd : Command A) (line rest text : Bytes)
      (len : Option ℕ) (code : ErrorCode) (n : ℕ) (t t' : T)
    → cmd.wire_line ≡ ok line
    → wanted_len cmd ≡ ok len
    → ErrorCode.from_raw n ≡ some code
    → IsLine (print_head n text)
    → length (line ++ crlf) ≤ read_chunk
    → Carries io line ((print_head n text ++ crlf) ++ rest) t t'
    → run x io (suc (suc fuel)) cmd (at t (quiet []))
      ≡ some (refusal cmd code text, at t' (quiet rest))
run-refusal x documented {T} {A} =
    for_all_crates
      (λ x.
        (io : Transport T) (fuel : ℕ) (cmd : Command A) (line rest text : Bytes) (len : Option ℕ)
        (code : ErrorCode) (n : ℕ) (t t' : T)
        → cmd.wire_line ≡ ok line
        → wanted_len cmd ≡ ok len
        → ErrorCode.from_raw n ≡ some code
        → IsLine (print_head n text)
        → length (line ++ crlf) ≤ read_chunk
        → Carries io line ((print_head n text ++ crlf) ++ rest) t t'
        → run x io (suc (suc fuel)) cmd (at t (quiet []))
          ≡ some (refusal cmd code text, at t' (quiet rest)))
      (λ io fuel cmd line rest text len code n t t' wire want known fits short h.
        run-asked io fuel cmd line ((print_head n text ++ crlf) ++ rest) rest len
          (ClientEvent.remote_error code text) (refusal cmd code text) t t' wire want h short
          (omega arith) (recv_refused code n text rest len known fits) refl
          (on_reply-refusal cmd code text))
      x documented
