-- ===== src/Witnesses/Playback.antt =====
-- Concrete inputs for the theorems on the client and the mock: a recorded session that is played.
use xeedee.Base.{
  ℕ, zero, suc, ◌<◌, ◌≡◌, refl, ap, ◌∙◌, fun_ext, ◌≢◌, false, none, some, List, [], ◌∷◌, ◌++◌,
  arith, Bytes, codes, Result, ok, err, length, drop, length-drop,
}
use xeedee.Client.Driver.{
  Client, connected, Transport, run, send_raw, run_streaming, read_post_upload_response, bye,
  wanted_len,
}
use xeedee.Client.Driver.Closes.{shut, HangsUp, run-HangsUp, bye-HangsUp}
use xeedee.Client.Driver.Mocked.{
  WriteAll, WritesAll, mock_transport, playing, entry, awaited, carries, run-mock_transport,
}
use xeedee.Client.Driver.Refusals.{stream_open, run-refuses}
use xeedee.Client.Driver.Runs.{quiet, at, refusal, Carries, run-response, run-refusal}
use xeedee.Client.Engine
use xeedee.Client.Engine.{ClientEngine, State}
use xeedee.Client.Engine.Lines.{crlf, IsLine}
use xeedee.Client.Engine.Server.{render, dot}
use xeedee.Commands.Memory.{VirtualRegion, walk_mem}
use xeedee.Crates.{plain, plain-Documented}
use xeedee.Protocol.Command.{Command, ExpectedBody, simple}
use xeedee.Protocol.Error.{
  IoErrorKind, write_zero, connection_closed, engine_misuse, command_in_flight,
}
use xeedee.Protocol.ErrorCode
use xeedee.Protocol.Head.Printed.{print_head}
use xeedee.Protocol.Response.{Response}
use xeedee.Text.Utf8.{is_utf8}
use xeedee.Transport.Capture.{CaptureEntry, server_to_client, client_to_server}
use xeedee.Transport.Mock.{MockTransport, ready, pending, Answer, poll_read, poll_write}
use xeedee.Transport.Mock.Reads
use xeedee.Transport.Mock.Reads.{poll_read-Answers}
use xeedee.Transport.Mock.Script.{Stands}
use xeedee.Transport.Mock.Writes

abbrev after_write :
    (ℕ → MockTransport → Result IoErrorKind (Unit {0}) × MockTransport)
    → MockTransport
    → Answer ℕ
    → Result IoErrorKind (Unit {0}) × MockTransport
after_write next m none = (err write_zero, m)
after_write next m (some (pending, m')) = (err write_zero, m')
after_write next m (some (ready (err cause), m')) = (err cause, m')
after_write next m (some (ready (ok zero), m')) = (err write_zero, m')
after_write next m (some (ready (ok (suc n)), m')) = next n m'

-- The documented loop of `write_all`; the fuel is above the bytes that are left.
abbrev write_loop : ℕ → Bytes → MockTransport → Result IoErrorKind (Unit {0}) × MockTransport
write_loop zero s m = (ok tt, m)
write_loop (suc fuel) [] m = (ok tt, m)
write_loop (suc fuel) (b ∷ s) m =
    after_write (λ n m'. write_loop fuel (drop n s) m') m (poll_write (b ∷ s) m)

abbrev write_all : WriteAll
write_all s m = write_loop (suc (length s)) s m

write_fuel :
    (f g : ℕ) (s : Bytes) (m : MockTransport)
    → length s < f
    → length s < g
    → write_loop f s m ≡ write_loop g s m
write_fuel zero g s m p q = absurd (omega (arith, p))
write_fuel (suc f) zero s m p q = absurd (omega (arith, q))
write_fuel (suc f) (suc g) [] m p q = refl
write_fuel (suc f) (suc g) (b ∷ s) m p q =
    ap (λ next. after_write next m (poll_write (b ∷ s) m))
      (fun_ext (λ n. fun_ext (λ m'.
        write_fuel f g (drop n s) m' (omega (arith, p, length-drop n s))
          (omega (arith, q, length-drop n s)))))

write_all-WritesAll : WritesAll write_all
write_all-WritesAll = record {
  done = λ m. refl;
  goes_on = λ b n s m m' h.
      ap (after_write (λ k m1. write_loop (suc (length s)) (drop k s) m1) m) h
      ∙ write_fuel (suc (length s)) (suc (length (drop n s))) (drop n s) m'
          (omega (arith, length-drop n s)) (omega arith);
  gives_up =
      λ b s cause m m' h. ap (after_write (λ k m1. write_loop (suc (length s)) (drop k s) m1) m) h;
}

abbrev listing : Response
listing = Response.multiline (codes "ok") (codes "base=0x10 size=2 protect=0x4" ∷ [])

abbrev session : List CaptureEntry
session =
    entry client_to_server (codes "walkmem" ++ crlf) ∷ entry server_to_client (render listing) ∷ []

head-IsLine : IsLine (print_head 202 (codes "ok"))
unfolding is_utf8
head-IsLine = record {
  lacks_lf = (
    omega arith,
    (omega arith, (omega arith, (omega arith, (omega arith, (omega arith, (omega arith, tt)))))),
  );
  utf8 = refl;
  short = omega arith;
}

row-IsLine : IsLine (codes "base=0x10 size=2 protect=0x4")
unfolding is_utf8
row-IsLine = record {
  lacks_lf = (
    omega arith,
    (
      omega arith,
      (
        omega arith,
        (
          omega arith,
          (
            omega arith,
            (
              omega arith,
              (
                omega arith,
                (
                  omega arith,
                  (
                    omega arith,
                    (
                      omega arith,
                      (
                        omega arith,
                        (
                          omega arith,
                          (
                            omega arith,
                            (
                              omega arith,
                              (
                                omega arith,
                                (
                                  omega arith,
                                  (
                                    omega arith,
                                    (
                                      omega arith,
                                      (
                                        omega arith,
                                        (
                                          omega arith,
                                          (
                                            omega arith,
                                            (
                                              omega arith,
                                              (
                                                omega arith,
                                                (
                                                  omega arith,
                                                  (
                                                    omega arith,
                                                    (omega arith, (omega arith, (omega arith, tt))),
                                                  ),
                                                ),
                                              ),
                                            ),
                                          ),
                                        ),
                                      ),
                                    ),
                                  ),
                                ),
                              ),
                            ),
                          ),
                        ),
                      ),
                    ),
                  ),
                ),
              ),
            ),
          ),
        ),
      ),
    ),
  );
  utf8 = refl;
  short = omega arith;
}

differs : codes "base=0x10 size=2 protect=0x4" ≢ dot
differs h = cc (h)

run-mock_transport_example :
    run plain
      (mock_transport write_all)
      2
      (walk_mem plain)
      (at (playing session false 0) (quiet []))
    ≡ some ((walk_mem plain).parse listing, at (playing session false 2) (quiet []))
unfolding is_utf8 walk_mem
run-mock_transport_example =
    run-mock_transport plain plain-Documented write_all write_all-WritesAll 0 0 session [] false
      (walk_mem plain) (codes "walkmem") none listing refl (unfold wanted_len in refl)
      ((head-IsLine, ((row-IsLine, differs), tt))) tt refl (omega arith) (omega arith)

poll_read-Answers_example :
    Reads.Answers (playing session false 1) 4 (poll_read 4 (playing session false 1))
poll_read-Answers_example =
    poll_read-Answers (playing session false 1) 4
      (record {
        frames_fill = (omega arith, (omega arith, tt));
        stands = unfold Stands in omega arith;
      })
      (omega arith)

abbrev table : Transport MockTransport
table = mock_transport write_all

session-Carries :
    Carries table
      (codes "walkmem")
      (render listing ++ [])
      (playing session false 0)
      (playing session false 2)
session-Carries =
    carries write_all write_all-WritesAll session false 0 (codes "walkmem") (render listing) [] refl
      (omega arith) (omega arith)

run-response_example :
    run plain table 2 (walk_mem plain) (at (playing session false 0) (quiet []))
    ≡ some ((walk_mem plain).parse listing, at (playing session false 2) (quiet []))
unfolding walk_mem
run-response_example =
    run-response plain plain-Documented table 0 (walk_mem plain) (codes "walkmem") [] none listing
      (playing session false 0) (playing session false 2) refl (unfold wanted_len in refl)
      (head-IsLine, ((row-IsLine, differs), tt)) tt (omega arith) session-Carries

abbrev refused : Bytes
refused = print_head 402 (codes "no") ++ crlf

abbrev refused_session : List CaptureEntry
refused_session =
    entry client_to_server (codes "walkmem" ++ crlf) ∷ entry server_to_client refused ∷ []

run-refusal_example :
    run plain table 2 (walk_mem plain) (at (playing refused_session false 0) (quiet []))
    ≡ some (
      refusal (walk_mem plain) ErrorCode.file_not_found (codes "no"),
      at (playing refused_session false 2) (quiet []),
    )
unfolding walk_mem is_utf8
run-refusal_example =
    run-refusal plain plain-Documented table 0 (walk_mem plain) (codes "walkmem") [] (codes "no")
      none ErrorCode.file_not_found 402 (playing refused_session false 0)
      (playing refused_session false 2) refl (unfold wanted_len in refl)
      (unfold ErrorCode.from_raw in refl)
      (record {
        lacks_lf = (
          omega arith,
          (
            omega arith,
            (omega arith, (omega arith, (omega arith, (omega arith, (omega arith, tt))))),
          ),
        );
        utf8 = refl;
        short = omega arith;
      })
      (omega arith)
      (carries write_all write_all-WritesAll refused_session false 0 (codes "walkmem") refused []
        refl (omega arith) (omega arith))

abbrev short_session : Bytes → List CaptureEntry
short_session line = entry client_to_server (line ++ crlf) ∷ []

hangs_up :
    HangsUp table
      (codes "bye")
      (playing (short_session (codes "bye")) false 0)
      (playing (short_session (codes "bye")) false 1)
unfolding awaited poll_write poll_read
hangs_up = record {
  written = playing (short_session (codes "bye")) false 1;
  flushed = playing (short_session (codes "bye")) false 1;
  heard = playing (short_session (codes "bye")) false 1;
  writes = refl;
  flushes = refl;
  reads = refl;
  flushes_again = refl;
}

bye-HangsUp_example :
    bye plain table 2 (at (playing (short_session (codes "bye")) false 0) (quiet [])) ≡ some (ok tt)
bye-HangsUp_example = bye-HangsUp plain plain-Documented table 0 _ _ hangs_up

abbrev goodbye : Command (List VirtualRegion)
goodbye = simple (ok (codes "bye")) ExpectedBody.line_body (λ response. ok [])

run-HangsUp_example :
    (run plain table 2 goodbye (at (playing (short_session (codes "bye")) false 0) (quiet []))
      ≡ some (err connection_closed, at (playing (short_session (codes "bye")) false 1) shut))
    × (run plain table 0 (walk_mem plain) (at (playing (short_session (codes "bye")) false 1) shut)
        ≡ some (err connection_closed, at (playing (short_session (codes "bye")) false 1) shut))
unfolding walk_mem
run-HangsUp_example =
    run-HangsUp plain plain-Documented table 0 0 goodbye (walk_mem plain) (codes "bye")
      (codes "walkmem") none none (playing (short_session (codes "bye")) false 0)
      (playing (short_session (codes "bye")) false 1) refl (unfold wanted_len in refl) refl
      (unfold wanted_len in refl) hangs_up (omega arith)

-- A client whose caller still reads the body of an answer.
abbrev streaming : Client MockTransport connected
streaming = at (playing [] false 0) (record Engine.new { state = State.streaming_body })

run-refuses_example :
    (run plain table 0 goodbye streaming ≡ some (err (engine_misuse command_in_flight), streaming))
    × (send_raw plain table 0 (codes "bye") streaming
        ≡ some (err (engine_misuse command_in_flight), streaming))
    × (run_streaming plain table 0 (codes "bye") streaming
        ≡ some (err (engine_misuse command_in_flight), streaming))
    × (read_post_upload_response plain table 0 streaming
        ≡ some (err (engine_misuse command_in_flight), streaming))
    × (bye plain table 0 streaming ≡ some (err (engine_misuse command_in_flight)))
run-refuses_example =
    run-refuses plain table 0 streaming (engine_misuse command_in_flight) stream_open goodbye
      (codes "bye") none refl (unfold wanted_len in refl)
