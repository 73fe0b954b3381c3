-- ===== src/Lib.antt =====
-- xeedee is a client of the Xbox 360 debug monitor. It speaks a text protocol over TCP and finds
-- consoles by UDP. This library models the parts that decide what is said and understood; the
-- parts that only move bytes are left out.
--
-- Parts, and where they are modelled (paths from the repository's root):
-- - Client/Engine.antt and its children: crates/xeedee/src/client/engine.rs, the client without
--   I/O. `ClientEngine` is the struct with its four fields. Engine.antt has the data and the cases
--   of `step`, Steps.antt `try_take_line`, `step` and `advance`, Ops.antt the methods. A caller
--   queues a line by `submit`, moves bytes by `send` and `recv`, and reads events by `poll`. The
--   other children hold proofs; Sessions.antt has the sequences of calls that Balance.antt is
--   about.
-- - Protocol/StatusCode.antt, SuccessCode.antt, ErrorCode.antt:
--   crates/xeedee/src/protocol/status.rs, the classes of status codes that the engine acts on.
--   Protocol/Head.antt: `parse_status`, `parse_response_head` of status.rs and response.rs, over
--   the parsers of parse.rs. Protocol/Response.antt: response.rs. Protocol/Error.antt:
--   crates/xeedee/src/error.rs.
-- - Protocol/Tokens.antt and Kv.antt: the key-value lines of protocol/parse.rs and
--   crates/xeedee/src/commands/kv.rs. Protocol/Args.antt: the command lines of protocol/args.rs.
-- - Discovery/Wire.antt: crates/xeedee/src/discovery/wire.rs, the packets. Discovery/Engine.antt:
--   discovery/engine.rs, the state machine that is polled with the time and handed datagrams.
--   Runs.antt has the sequences of such calls. Discovery/Runner.antt: `drive` of
--   discovery/runner.rs, over a list of what the socket receives.
-- - Transport/Capture.antt and Capture/Lines.antt: crates/xeedee/src/transport/capture.rs, the log
--   of what crossed the wire and its text form.
-- - Client/Driver.antt and its children: crates/xeedee/src/client/mod.rs, the client around the
--   engine. `Transport T` is the interface of what is read and written; `pump_until` writes what
--   the engine has queued, hands out its events and feeds it what is read, and the methods of
--   `Client` are the calls around it. Driver/Mocked.antt puts the client on the mock.
-- - Transport/Mock.antt: crates/xeedee/src/transport/mock.rs, the transport that plays a capture
--   log. Mock/Script.antt says what is left of the script, Reads.antt and Writes.antt what a call
--   does to it. Transport/Recording.antt: transport/recording.rs, the wrapper that logs what
--   crosses a transport.
-- - Protocol/Command.antt: crates/xeedee/src/protocol/command.rs, the trait as a record. Commands
--   and its children: crates/xeedee/src/commands/, each command as a value of this record:
--   Memory.antt is memory.rs, Fs.antt fs.rs, Process.antt process.rs, System.antt system.rs,
--   Info.antt info.rs.
-- - Dangerous/Sigscan.antt: crates/xeedee/src/commands/dangerous/sigscan.rs, reads over several
--   getmem commands and byte scans. `Console S` is the interface of the two memory commands.
--   Dangerous/Pe.antt: dangerous/pe.rs, the sections of a module in memory; Pe/Image.antt has
--   images as their parts.
-- - Time.antt: crates/xeedee/src/time.rs, file times.
-- - Text and Base: the functions of the standard library that these parts use, and shared helpers.
--   Crates.antt: the third-party crates winnow and memchr, which are a parameter `x : Crates`;
--   `Documented x` states what their documentation says, and `plain` is a value that meets it.
--   Witnesses.antt: concrete inputs.
--
-- How the code is read. Text is held as its UTF-8 bytes, and a byte as a natural number;
-- `BytesMut`, `Vec` and `VecDeque` are held as their contents, the set of addresses that discovery
-- has seen as a list. A method on `&mut self` takes the state and returns it. A panic is a result
-- of its own: the outer `none` of `parse_status`, `recv` and `poll`. Instants and durations are
-- natural numbers.
--
-- Fuel. `advance` has two rounds for each byte of the inbox and two more: each round but the last
-- reads a byte or ends a body. The loop over tokens has one round for each byte and one more, and
-- so has `unescape`. `print` has 64 digits, enough for a number of 64 bits at any radix. `drive`
-- takes its fuel as an argument, and so does the client's pump, where two rounds are enough for a
-- response that comes in one read. The mock's reads have a round for each frame that is left and
-- one more, the paged reads a round for each byte, the scans a round for each byte of the
-- haystack.
--
-- Not modelled: the commands of the files that are not named above, the tokio transport, the
-- command line tool and the foreign interface; the capacity that `Vec::with_capacity` asks for,
-- overflow of `Instant`, and the texts of most errors.
pub mod Base
pub mod Crates
pub mod Text
pub mod Protocol
pub mod Client
pub mod Commands
pub mod Dangerous
pub mod Discovery
pub mod Transport
pub mod Time
pub mod Witnesses
