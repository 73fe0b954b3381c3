-- ===== src/Witnesses/Recordings.antt =====
-- Concrete inputs for the theorems on recordings, thread listings and stop conditions.
use xeedee.Base.{
  min, ◌≡◌, true, false, some, List, [], ◌∷◌, ◌++◌, map, arith, Bytes, codes, ok, length, take,
  drop,
}
use xeedee.Commands.Process.{ThreadId, threads}
use xeedee.Commands.Process.Threads.{as_signed, threads-parse}
use xeedee.Commands.System.{StopOnFlags, stop_on, no_stop_on}
use xeedee.Commands.System.Flags.{IsNamed, stop_on-wire_line}
use xeedee.Crates.{plain, plain-Documented}
use xeedee.Protocol.Kv.{parse_kv_line}
use xeedee.Protocol.Args.{print_int}
use xeedee.Protocol.Response.{Response}
use xeedee.Transport.Mock.{ready, from_log}
use xeedee.Transport.Mock.Script.{script, IsStanding}
use xeedee.Transport.Recording.{AsyncIo, RecordingTransport, new}
use xeedee.Transport.Recording.Replay.{
  Call, read_up_to, write_out, flush_out, close_out, IsBounded, crossing, recorded, script-recorded,
}

-- What is written comes back; a write takes at most three bytes.
abbrev echo : AsyncIo Bytes
echo = record {
  poll_read = λ room t. (ready (ok (take room t)), drop room t);
  poll_write = λ buf t. (ready (ok (min (length buf) 3)), t ++ take 3 buf);
  poll_flush = λ t. (ready (ok tt), t);
  poll_close = λ t. (ready (ok tt), t);
}

echo-IsBounded : IsBounded echo
echo-IsBounded buf t = omega arith

abbrev calls : List Call
calls = write_out (codes "bye\r\n") ∷ flush_out ∷ read_up_to 2 ∷ close_out ∷ []

script-recorded_example :
    (r : RecordingTransport Bytes) × (recorded echo calls (new [])
      ≡ some ((crossing echo calls []).0, r))
    × (r.inner ≡ (crossing echo calls []).2)
    × (script (from_log r.log) ≡ (crossing echo calls []).1)
    × IsStanding (from_log r.log)
script-recorded_example = script-recorded echo calls [] echo-IsBounded

abbrev handles : List ThreadId
handles = (record { handle = 0xfb000004 }) ∷ (record { handle = 12 }) ∷ []

threads-parse_example :
    threads.parse (Response.multiline (codes "ok") (map (λ t. print_int (as_signed t)) handles))
    ≡ ok handles
threads-parse_example = threads-parse (codes "ok") handles (omega arith, (omega arith, tt))

abbrev conditions : StopOnFlags
conditions = record {
  create_thread = true;
  first_chance_exception = false;
  debugstr = true;
  stacktrace = false;
  title_init = false;
  title_exit = true;
  debugger = false;
  every = false;
}

stop_on-wire_line_example :
    (on : Bytes) × (off : Bytes) × (tokens : List Bytes) × ((stop_on conditions).wire_line ≡ ok on)
    × (parse_kv_line plain on ≡ record { pairs = []; flags = codes "stopon" ∷ tokens })
    × ((no_stop_on conditions).wire_line ≡ ok off)
    × (parse_kv_line plain off ≡ record { pairs = []; flags = codes "nostopon" ∷ tokens })
    × IsNamed conditions tokens
stop_on-wire_line_example = stop_on-wire_line plain plain-Documented conditions
