-- ===== src/Client/Driver/Closes.antt =====
-- A connection that closes under a command (crates/xeedee/src/client/mod.rs).
use xeedee.Base.{
  ℕ, suc, ◌≤◌, ◌≡◌, refl, ap, ◌∙◌, Option, none, some, [], ◌++◌, arith, Bytes, codes, ok, err,
  length,
}
use xeedee.Base.Results.{tried}
use xeedee.Client.Driver.{
  Transport, read_chunk, on_engine, on_transport, pump_until, is_reply, is_reply_or_closed,
  run_line, run, bye, wanted_len, run_with,
}
use xeedee.Client.Driver.Refusals.{after_close, run-refuses}
use xeedee.Client.Driver.Runs.{quiet, asked, at, submit-quiet, write_asked, surface-asked}
use xeedee.Client.Engine.{ClientEngine, ClientEvent, State}
use xeedee.Client.Engine.Lines.{crlf}
use xeedee.Client.Engine.Ops.{is_terminal, close_read}
use xeedee.Crates.{Crates, plain, Documented, for_all_crates}
use xeedee.Protocol.Command.{Command}
use xeedee.Protocol.Error.{connection_closed}

-- An engine whose connection is closed.
abbrev pub shut : ClientEngine
shut = record { state = State.closed; inbox = []; outbox = []; events = [] }

-- The transport takes the line, and then has nothing more to read.
pub record HangsUp {T : Type 0} (io : Transport T) (line : Bytes) (t t' : T) : Type 0 where
  pub written : T
  pub flushed : T
  pub heard : T
  pub writes : io.write_all (line ++ crlf) t ≡ some (ok tt, written)
  pub flushes : io.flush written ≡ some (ok tt, flushed)
  pub reads : io.read read_chunk flushed ≡ some (ok [], heard)
  pub flushes_again : io.flush heard ≡ some (ok tt, t')

module _ {T : Type 0} (io : Transport T) where
  pump_hung :
      (fuel : ℕ) (line : Bytes) (len : Option ℕ) (t t' : T)
      → HangsUp io line t t'
      → length (line ++ crlf) ≤ read_chunk
      → pump_until plain io (suc (suc fuel)) is_reply (at t (asked (line ++ crlf) len))
        ≡ some (err connection_closed, at t' shut)
  unfolding pump_until on_transport tried is_terminal close_read
  pump_hung fuel line len t t' h short =
      rw
        (
          write_asked io fuel line len t h.written short h.writes,
          h.flushes,
          surface-asked io (suc fuel) is_reply len h.flushed,
          h.reads,
          h.flushes_again,
          pump_until,
        )
        refl

  pump_left :
      (fuel : ℕ) (line : Bytes) (len : Option ℕ) (t t' : T)
      → HangsUp io line t t'
      → length (line ++ crlf) ≤ read_chunk
      → pump_until plain io (suc (suc fuel)) is_reply_or_closed (at t (asked (line ++ crlf) len))
        ≡ some (ok ClientEvent.closed, at t' shut)
  unfolding pump_until on_transport tried is_terminal close_read
  pump_left fuel line len t t' h short =
      rw
        (
          write_asked io fuel line len t h.written short h.writes,
          h.flushes,
          surface-asked io (suc fuel) is_reply_or_closed len h.flushed,
          h.reads,
          h.flushes_again,
          pump_until,
        )
        refl

  run_hung :
      {A : Type 0}
      → (fuel : ℕ) (cmd : Command A) (line : Bytes) (len : Option ℕ) (t t' : T)
      → cmd.wire_line ≡ ok line
      → wanted_len cmd ≡ ok len
      → HangsUp io line t t'
      → length (line ++ crlf) ≤ read_chunk
      → run plain io (suc (suc fuel)) cmd (at t (quiet []))
        ≡ some (err connection_closed, at t' shut)
  unfolding run run_with
  run_hung fuel cmd line len t t' wire want h short =
      ap (λ w. run_with plain io (suc (suc fuel)) cmd (at t (quiet [])) w (wanted_len cmd)) wire
      ∙ ap (run_with plain io (suc (suc fuel)) cmd (at t (quiet [])) (ok line)) want
      ∙ (unfold run_line on_engine tried in
          rw (submit-quiet line len, pump_hung fuel line len t t' h short, run_line) refl)

  bye_hung :
      (fuel : ℕ) (t t' : T)
      → HangsUp io (codes "bye") t t'
      → bye plain io (suc (suc fuel)) (at t (quiet [])) ≡ some (ok tt)
  unfolding bye on_engine
  bye_hung fuel t t' h = rw (pump_left fuel (codes "bye") none t t' h (omega arith), bye) refl

-- On a client that is idle and holds nothing, when the connection ends in place of a response, `run`
-- returns that it is closed. So does any command that is run next, which has a line and the length
-- that it needs; it is not written. The transport takes the first line in one write of 8192 bytes at
-- most.
pub run-HangsUp :
    (x : Crates)
    → Documented x
    → {T A B : Type 0} (io : Transport T) (fuel next_fuel : ℕ) (cmd : Command A) (next : Command B)
      (line next_line : Bytes) (len next_len : Option ℕ) (t t' : T)
    → cmd.wire_line ≡ ok line
    → wanted_len cmd ≡ ok len
    → next.wire_line ≡ ok next_line
    → wanted_len next ≡ ok next_len
    → HangsUp io line t t'
    → length (line ++ crlf) ≤ read_chunk
    → (run x io (suc (suc fuel)) cmd (at t (quiet [])) ≡ some (err connection_closed, at t' shut))
      × (run x io next_fuel next (at t' shut) ≡ some (err connection_closed, at t' shut))
run-HangsUp x documented io fuel next_fuel cmd next line next_line len next_len t t' wire want
      next_wire next_want h short =
    (
      for_all_crates
          (λ x.
            run x io (suc (suc fuel)) cmd (at t (quiet []))
            ≡ some (err connection_closed, at t' shut))
          (run_hung io fuel cmd line len t t' wire want h short) x documented,
      (run-refuses x io next_fuel (at t' shut) connection_closed after_close next next_line next_len
          next_wire next_want).0,
    )

-- On a client that is idle and holds nothing, `bye` succeeds when the connection ends in place of a reply.
pub bye-HangsUp :
    (x : Crates)
    → Documented x
    → {T : Type 0} (io : Transport T) (fuel : ℕ) (t t' : T) → HangsUp io (codes "bye") t t'
    → bye x io (suc (suc fuel)) (at t (quiet [])) ≡ some (ok tt)
bye-HangsUp x documented io fuel t t' h =
    for_all_crates (λ x. bye x io (suc (suc fuel)) (at t (quiet [])) ≡ some (ok tt))
      (bye_hung io fuel t t' h) x documented
