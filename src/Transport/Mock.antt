-- ===== src/Transport/Mock.antt =====
-- The transport that plays a capture log: crates/xeedee/src/transport/mock.rs. An I/O error is its
-- kind; the waker of a poll is left out, since the mock does not keep it. A call that panics or
-- does not return has no result.
pub mod Script
pub mod Reads
pub mod Writes
use xeedee.Base.{
  ℕ, zero, suc, ◌+◌, ◌-◌, ◌*◌, ◌/◌, ◌%◌, ◌^◌, ◌≤◌, ◌<◌, min, max, String, ◌≡◌, refl, sym, ap, ◌∙◌,
  subst, fun_ext, ◌≢◌, ◌↔◌, ◌⊎◌, inl, inr, Bool, true, false, ◌&&◌, ◌||◌, not, Option, none, some,
  List, [], ◌∷◌, ◌++◌, map, append-nil, append_assoc, arith, Bytes, codes, bytes_eq, bytes_eq_refl,
  bytes_eq_sound, Result, ok, err, ok_or, map_err, ltb, leb, ◌==◌, if◌then◌else◌, ltb→lt, lt→ltb,
  leb→le, le→leb, leb_false→lt, ltb_false→le, take-min, drop-min, ==_iff, ==_refl, Bool-cases,
  Option-cases, length, take, drop, get_elem?, any, All, length-append, length-take, length-drop,
  take-append-drop, take_all, drop_all, take_left, drop_left, take-append_le, drop-append_le,
  take-append_ge, drop-append_ge, All-append,
}
use xeedee.Base.Options.{◌>>=◌}
use xeedee.Protocol.Error.{IoErrorKind, invalid_data}
use xeedee.Transport.Capture.{
  CaptureLog, CaptureEntry, Direction, server_to_client, client_to_server, push, empty_log,
}

pub data Poll (A : Type 0) : Type 0 where
  ready : A → Poll A
  pending : Poll A

pub record MockTransport : Type 0 where
  pub frames : List CaptureEntry
  pub cursor : ℕ
  pub offset : ℕ
  pub lax_writes : Bool
  pub reads_pend_on_end : Bool

abbrev pub from_log : CaptureLog → MockTransport
from_log log = record {
  frames = log.entries;
  cursor = 0;
  offset = 0;
  lax_writes = false;
  reads_pend_on_end = false;
}

abbrev pub with_lax_writes : MockTransport → MockTransport
with_lax_writes m = record m { lax_writes = true }

abbrev pub with_idle_after_end : MockTransport → MockTransport
with_idle_after_end m = record m { reads_pend_on_end = true }

unfoldable pub script_log : List Bytes → CaptureLog → CaptureLog
unfolding push
script_log [] log = log
script_log (chunk ∷ chunks) log = script_log chunks (push server_to_client chunk log)

unfoldable pub from_server_script : List Bytes → MockTransport
unfolding script_log
from_server_script chunks = with_lax_writes (from_log (script_log chunks empty_log))

unfoldable pub is_exhausted : MockTransport → Bool
is_exhausted m = leb (length m.frames) m.cursor

abbrev pub current_frame : MockTransport → Option CaptureEntry
current_frame m = get_elem? m.frames m.cursor

abbrev pub advance_frame : MockTransport → MockTransport
advance_frame m = record m { cursor = m.cursor + 1; offset = 0 }

-- The direction of the current frame, how many of its bytes are left, and how many it has.
unfoldable pub frame_view : MockTransport → Option (Direction × ℕ × ℕ)
frame_view m = do
  frame ← current_frame m
  some (frame.direction, length frame.data_bytes - m.offset, length frame.data_bytes)

-- The `n` bytes of the current frame at the offset.
unfoldable pub frame_bytes : ℕ → MockTransport → Option Bytes
frame_bytes n m = do frame ← current_frame m; some (take n (drop m.offset frame.data_bytes))

-- `self.offset += n; if self.offset >= frame_total { self.advance_frame() }`
unfoldable pub consume : ℕ → ℕ → MockTransport → MockTransport
consume n total m =
    let moved = record m { offset = m.offset + n } in
    if leb total (m.offset + n) then advance_frame moved else moved

abbrev pub Answer : Type 0 → Type 0
Answer A = Option (Poll (Result IoErrorKind A) × MockTransport)

abbrev pub refuse : {A : Type 0} → MockTransport → Answer A
refuse m = some (ready (err invalid_data), m)

-- What a read of up to `room` bytes copies out of a frame.
unfoldable pub copy_out : ℕ → ℕ → ℕ → MockTransport → Answer Bytes
unfolding frame_bytes consume
copy_out room remaining total m = do
  bytes ← frame_bytes (min remaining room) m
  some (ready (ok bytes), consume (min remaining room) total m)

-- Each round moves the cursor, so a fuel above the frames that are left is enough.
unfoldable pub read_loop : ℕ → ℕ → MockTransport → Answer Bytes
unfolding frame_view copy_out
read_loop zero room m = none
read_loop (suc fuel) room m =
    let later = read_loop fuel room (advance_frame m) in
    elim (frame_view m) [
      | none ↦ some (if m.reads_pend_on_end then pending else ready (ok []), m)
      | some (client_to_server, remaining, total) ↦ elim m.lax_writes [
        | true ↦ later
        | false ↦ refuse m
      ]
      | some (server_to_client, remaining, total) ↦
          if remaining == 0 then later else copy_out room remaining total m
    ]

unfoldable pub poll_read : ℕ → MockTransport → Answer Bytes
unfolding read_loop
poll_read room m = read_loop (suc (length m.frames - m.cursor)) room m

-- A write that the script is checked against.
unfoldable pub check_write : Bytes → ℕ → ℕ → MockTransport → Answer ℕ
unfolding frame_bytes consume
check_write buf remaining total m = do
  bytes ← frame_bytes (min remaining (length buf)) m
  (if bytes_eq bytes (take (min remaining (length buf)) buf)
      then some
          (ready (ok (min remaining (length buf))), consume (min remaining (length buf)) total m)
      else refuse m)

unfoldable pub strict_write : Bytes → MockTransport → Answer ℕ
unfolding frame_view check_write
strict_write buf m = elim (frame_view m) [
  | none ↦ refuse m
  | some (server_to_client, remaining, total) ↦ refuse m
  | some (client_to_server, remaining, total) ↦ check_write buf remaining total m
]

unfoldable pub poll_write : Bytes → MockTransport → Answer ℕ
unfolding strict_write
poll_write [] m = some (ready (ok 0), m)
poll_write (b ∷ s) m =
    if m.lax_writes then some (ready (ok (length (b ∷ s))), m) else strict_write (b ∷ s) m

abbrev pub poll_flush : MockTransport → Answer (Unit {0})
poll_flush m = some (ready (ok tt), m)

abbrev pub poll_close : MockTransport → Answer (Unit {0})
poll_close m = some (ready (ok tt), m)

two_reads :
    poll_read 2 (from_server_script ((1 ∷ 2 ∷ 3 ∷ []) ∷ []))
    ≡ some (
      ready (ok (1 ∷ 2 ∷ [])),
      record {
        frames = (record { direction = server_to_client; data_bytes = 1 ∷ 2 ∷ 3 ∷ [] }) ∷ [];
        cursor = 0;
        offset = 2;
        lax_writes = true;
        reads_pend_on_end = false;
      },
    )
unfolding poll_read from_server_script push
two_reads = refl
