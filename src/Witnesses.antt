-- ===== src/Witnesses.antt =====
-- Concrete inputs for which the hypotheses of the theorems hold: a session with a console, a
-- capture log, a discovery run.
mod Memories
mod Recordings
mod Files
mod Images
mod Playback
use xeedee.Base.{
  ◌*◌, ◌-◌, ◌+◌, ◌<◌, suc, ◌≤◌, ◌≡◌, refl, none, some, List, [], ◌∷◌, ◌++◌, arith, Bytes, codes, ok,
  length, All,
}
use xeedee.Text.Utf8.{is_utf8}
use xeedee.Protocol.Head.{parse_response_head}
use xeedee.Protocol.SuccessCode.{from_raw}
use xeedee.Crates.{plain_take_while, plain, plain-Documented}
use xeedee.Client.Engine
use xeedee.Client.Engine.{State, ClientEngine, ClientEvent}
use xeedee.Client.Engine.Balance.{run-start-IsBalanced}
use xeedee.Client.Engine.Chunks.{recv_all, join, recv-join}
use xeedee.Client.Engine.Exchange.{recv-submit, recv-submit_remote, sent}
use xeedee.Client.Engine.Lines.{crlf}
use xeedee.Client.Engine.Ops.{recv, submit, poll, is_deaf}
use xeedee.Client.Engine.Quiescence.{IsSettled, advance-IsSettled}
use xeedee.Client.Engine.Server.{render, answered}
use xeedee.Client.Engine.Sessions
use xeedee.Client.Engine.Sessions.{Session, IsBalanced, start, run}
use xeedee.Client.Engine.Steps.{advance}
use xeedee.Discovery.Engine.{
  DiscoveredConsole, SocketAddr, Discovery, config_broadcast, fresh, keep_all, v4, new,
}
use xeedee.Discovery.Engine.Consoles.{IsDistinct, IsFrom, heard, run-IsDistinct}
use xeedee.Discovery.Engine.Runs
use xeedee.Discovery.Engine.Runs.{Event, started}
use xeedee.Discovery.Engine.Sends.{run-sends}
use xeedee.Discovery.Runner.{Arrival, drive, drive-new}
use xeedee.Discovery.Wire.{encode_request, parse_response, what_is_your_name}
use xeedee.Discovery.Wire.RoundTrip.{Verdict, parse_response-Verdict}
use xeedee.Protocol.ErrorCode
use xeedee.Protocol.ErrorCode.{ErrorCode}
use xeedee.Protocol.Head.Printed.{print_head}
use xeedee.Protocol.Response.{Response}
use xeedee.Protocol.StatusCode.{try_classify}
use xeedee.Protocol.StatusCode.Classes.{Means, try_classify-Means}
use xeedee.Protocol.Args
use xeedee.Protocol.Args.{finish}
use xeedee.Protocol.Kv.{parse_kv_line}
use xeedee.Protocol.Args.RoundTrip.{
  Arg, flag_arg, dec_arg, hex32_arg, append_args, written, ReadsBack, parse_kv_line-finish,
}
use xeedee.Protocol.Tokens.{kv_tokens, default, bare, quoted, is_key, is_bare}
use xeedee.Text.Ascii.{is_whitespace}
use xeedee.Protocol.Tokens.Pieces.{Stops}
use xeedee.Protocol.Tokens.Items.{
  Item, pair_item, flag_item, render_item, render_items, add_item, add_items, kv_tokens-render,
}
use xeedee.Time
use xeedee.Time.{
  FileTime, from_halves, high, low, into_system_time, win_epoch_to_unix_100ns, from_halves-high,
}
use xeedee.Transport.Capture.{Direction, server_to_client, client_to_server, empty_log}
use xeedee.Transport.Capture.Lines.{to_text, from_text}
use xeedee.Transport.Capture.Pushes.{one_way, pushed, push_all, from_text-push_all}

abbrev idle_engine : ClientEngine
idle_engine = record { state = State.idle; inbox = []; outbox = []; events = [] }

abbrev listing : Response
listing = Response.multiline (codes "ok") (codes "a=1" ∷ [])

abbrev listing_command : Bytes
listing_command = codes "modules"

-- The response to an earlier command has not been pulled.
abbrev unpulled : ClientEngine
unpulled = record idle_engine { events = ClientEvent.response listing ∷ [] }

recv-submit_example :
    ((submit listing_command none unpulled).1 ≡ ok tt)
    × (recv plain (render listing ++ codes "20") (submit listing_command none unpulled).0
        ≡ some
            (answered (sent listing_command unpulled) (codes "20") (ClientEvent.response listing)))
unfolding is_utf8
recv-submit_example =
    recv-submit plain plain-Documented listing (codes "20") listing_command none unpulled refl refl
      (
        record { lacks_lf = omega arith; utf8 = refl; short = omega arith },
        ((record { lacks_lf = omega arith; utf8 = refl; short = omega arith }, λ e. cc), tt),
      )
      tt

recv-submit_remote_example :
    ((submit listing_command none idle_engine).1 ≡ ok tt)
    × (recv plain
          ((print_head 402 (codes "file not found") ++ crlf) ++ [])
          (submit listing_command none idle_engine).0
        ≡ some (
            answered
              (sent listing_command idle_engine)
              []
              (ClientEvent.remote_error ErrorCode.file_not_found (codes "file not found"))))
unfolding is_utf8 ErrorCode.from_raw
recv-submit_remote_example =
    recv-submit_remote plain plain-Documented ErrorCode.file_not_found 402 (codes "file not found")
      [] listing_command none idle_engine refl refl refl
      (record { lacks_lf = omega arith; utf8 = refl; short = omega arith })

abbrev banner : List Bytes
banner = codes "201- con" ∷ codes "nected\r\n" ∷ []

abbrev connected_engine : ClientEngine
connected_engine = record {
  state = State.idle;
  inbox = [];
  outbox = [];
  events = ClientEvent.connected ∷ [];
}

banner_received : recv_all plain banner Engine.new ≡ some connected_engine
unfolding recv plain is_utf8 parse_response_head plain_take_while try_classify from_raw
banner_received = refl

recv-join_example : recv plain (join banner) Engine.new ≡ some connected_engine
unfolding is_deaf
recv-join_example =
    recv-join plain plain-Documented (codes "201- con") (codes "nected\r\n" ∷ []) Engine.new
      connected_engine banner_received refl

abbrev banner_engine : ClientEngine
banner_engine = record {
  state = State.need_banner;
  inbox = codes "201- connected\r\n";
  outbox = [];
  events = [];
}

banner_advanced : advance plain banner_engine ≡ some connected_engine
unfolding advance plain is_utf8 parse_response_head plain_take_while try_classify from_raw
banner_advanced = refl

advance-IsSettled_example : IsSettled plain banner_engine connected_engine
advance-IsSettled_example =
    advance-IsSettled plain plain-Documented banner_engine connected_engine banner_advanced

abbrev calls : List Sessions.Op
calls =
    Sessions.recv_op (codes "201- hi\r\n")
    ∷ Sessions.poll_op
    ∷ Sessions.submit_op (codes "bye") none
    ∷ []

abbrev called : Session
called = record {
  engine = record {
    state = State.awaiting_head Engine.no_binary;
    inbox = [];
    outbox = codes "bye\r\n";
    events = [];
  };
  accepted = 1;
  delivered = 0;
}

calls-run : run plain calls start ≡ some called
unfolding run recv plain is_utf8 parse_response_head plain_take_while try_classify from_raw poll
    submit
calls-run = refl

run-start-IsBalanced_example : IsBalanced called
run-start-IsBalanced_example = run-start-IsBalanced plain plain-Documented calls called calls-run

abbrev pushes : List (Direction × Bytes)
pushes =
    (server_to_client, 50 ∷ 13 ∷ []) ∷ (server_to_client, 0 ∷ []) ∷ (client_to_server, 92 ∷ []) ∷ []

from_text-push_all_example :
    ((w : Direction) → one_way w (push_all pushes empty_log).entries ≡ pushed w pushes)
    × (from_text (to_text (push_all pushes empty_log)) ≡ ok (push_all pushes empty_log))
from_text-push_all_example = from_text-push_all pushes (omega arith)

abbrev console_addr : SocketAddr
console_addr = record { ip = v4 0xc0a8_0102; port = 730; flow = 0; scope = 0 }

abbrev asking : Discovery
asking = fresh (3 ∷ 0 ∷ []) config_broadcast keep_all 0

asking-new : new what_is_your_name config_broadcast keep_all 0 ≡ ok asking
unfolding new what_is_your_name
asking-new = refl

abbrev heard_of : List Event
heard_of =
    Runs.polled 0 ∷ Runs.inbound console_addr (2 ∷ 1 ∷ b'x' ∷ []) ∷ Runs.polled 2_000_000_000 ∷ []

run-IsDistinct_example :
    IsDistinct (heard (Runs.run plain heard_of (started asking)))
    × All
        (IsFrom plain (λ src payload. src ≡ console_addr) keep_all)
        (heard (Runs.run plain heard_of (started asking)))
run-IsDistinct_example =
    run-IsDistinct plain (λ src payload. src ≡ console_addr) what_is_your_name config_broadcast
      keep_all 0 asking heard_of asking-new (tt, (refl, (tt, tt)))

run-sends_example :
    (packet : Bytes) × (encode_request what_is_your_name ≡ ok packet)
    × (length (Runs.run plain heard_of (started asking)).sent ≤ suc config_broadcast.retransmits)
    × All
        (λ s. s ≡ (config_broadcast.destination, packet))
        (Runs.run plain heard_of (started asking)).sent
run-sends_example =
    run-sends plain what_is_your_name config_broadcast keep_all 0 asking heard_of asking-new

abbrev arrivals : List Arrival
arrivals = (100, some (console_addr, 2 ∷ 1 ∷ b'x' ∷ [])) ∷ []

drive-new_example :
    (consoles : List DiscoveredConsole) × (drive plain (λ round. round) 20 0 arrivals asking
      ≡ some consoles)
unfolding config_broadcast
drive-new_example =
    drive-new plain what_is_your_name config_broadcast keep_all 0 asking (λ round. round) 0 arrivals
      20 asking-new (omega arith)

parse_response-Verdict_example :
    Verdict (2 ∷ 1 ∷ b'x' ∷ []) (parse_response plain (2 ∷ 1 ∷ b'x' ∷ []))
parse_response-Verdict_example = parse_response-Verdict plain plain-Documented (2 ∷ 1 ∷ b'x' ∷ [])

try_classify-Means_example : Means 415 (try_classify (record { raw = 415 }))
try_classify-Means_example = try_classify-Means (record { raw = 415 })

abbrev module_line : List Item
module_line =
    pair_item (codes "name") (quoted (codes "a b"))
    ∷ pair_item (codes "base") (bare (codes "0x10"))
    ∷ flag_item (codes "tls")
    ∷ []

kv_tokens-render_example :
    kv_tokens plain (render_item (flag_item (codes "xex")) ++ render_items module_line)
    ≡ some (add_items module_line (add_item (flag_item (codes "xex")) default), [])
unfolding is_key is_bare is_whitespace Stops
kv_tokens-render_example =
    kv_tokens-render plain plain-Documented (flag_item (codes "xex")) module_line
      ((refl, (refl, (refl, tt))), omega arith)
      (
        ((refl, (refl, (refl, (refl, tt)))), omega arith, (refl, (refl, (refl, tt)))),
        (
          (
            (refl, (refl, (refl, (refl, tt)))),
            omega arith,
            ((refl, (refl, (refl, (refl, tt)))), refl),
          ),
          (((refl, (refl, (refl, tt))), omega arith), tt),
        ),
      )

abbrev dump_args : List Arg
dump_args =
    hex32_arg (codes "addr") 0x8200_0000 ∷ dec_arg (codes "length") 64 ∷ flag_arg (codes "raw") ∷ []

parse_kv_line-finish_example :
    (parse_kv_line plain (finish (append_args dump_args (Args.new (codes "getmem")))) ≡ record {
      pairs = (written (codes "getmem") dump_args).pairs;
      flags = (written (codes "getmem") dump_args).flags;
    })
    × All ReadsBack dump_args
unfolding is_key is_whitespace
parse_kv_line-finish_example =
    parse_kv_line-finish plain plain-Documented (codes "getmem") dump_args
      ((refl, (refl, (refl, (refl, (refl, (refl, tt)))))), omega arith)
      (
        (((refl, (refl, (refl, (refl, tt)))), omega arith), omega arith),
        (
          (((refl, (refl, (refl, (refl, (refl, (refl, tt)))))), omega arith), omega arith),
          (((refl, (refl, (refl, tt))), omega arith), tt),
        ),
      )

abbrev a_time : FileTime
a_time = Time.from_raw 131_000_000_000_000_000

from_halves-high_example :
    (from_halves (high a_time) (low a_time) ≡ a_time)
    × (high (from_halves 1 2) ≡ 1)
    × (low (from_halves 1 2) ≡ 2)
    × ((into_system_time a_time).nanos < 1_000_000_000)
    × ((into_system_time a_time).secs * 1_000_000_000 + (into_system_time a_time).nanos
        ≡ 100 * (a_time.ticks - win_epoch_to_unix_100ns))
from_halves-high_example = from_halves-high a_time 1 2 (omega arith) (omega arith) (omega arith)
