-- ===== src/Transport/Recording.antt =====
-- The transport that records what crosses it: crates/xeedee/src/transport/recording.rs. The inner
-- transport is a parameter, with the waker of a poll left out; the lock of the log is not poisoned.
pub mod Replay
use xeedee.Base.{
  ℕ, zero, suc, ◌+◌, ◌-◌, ◌*◌, ◌/◌, ◌%◌, ◌^◌, ◌≤◌, ◌<◌, min, max, String, ◌≡◌, refl, sym, ap, ◌∙◌,
  subst, fun_ext, ◌≢◌, ◌↔◌, ◌⊎◌, inl, inr, Bool, true, false, ◌&&◌, ◌||◌, not, Option, none, some,
  List, [], ◌∷◌, ◌++◌, map, append-nil, append_assoc, arith, Bytes, codes, bytes_eq, bytes_eq_refl,
  bytes_eq_sound, Result, ok, err, ok_or, map_err, ltb, leb, ◌==◌, if◌then◌else◌, ltb→lt, lt→ltb,
  leb→le, le→leb, leb_false→lt, ltb_false→le, take-min, drop-min, ==_iff, ==_refl, Bool-cases,
  Option-cases, length, take, drop, get_elem?, any, All, length-append, length-take, length-drop,
  take-append-drop, take_all, drop_all, take_left, drop_left, take-append_le, drop-append_le,
  take-append_ge, drop-append_ge, All-append,
}
use xeedee.Base.Options.{◌>>=◌}
use xeedee.Protocol.Error.{IoErrorKind}
use xeedee.Transport.Capture.{
  CaptureLog, Direction, server_to_client, client_to_server, push, empty_log,
}
use xeedee.Transport.Mock.{Poll, ready, pending}

-- `AsyncRead` and `AsyncWrite`: a read returns the bytes that it put into the buffer, a write how many
-- bytes it took.
pub record AsyncIo (T : Type 0) : Type 0 where
  pub poll_read : ℕ → T → Poll (Result IoErrorKind Bytes) × T
  pub poll_write : Bytes → T → Poll (Result IoErrorKind ℕ) × T
  pub poll_flush : T → Poll (Result IoErrorKind (Unit {0})) × T
  pub poll_close : T → Poll (Result IoErrorKind (Unit {0})) × T

pub record RecordingTransport (T : Type 0) : Type 0 where
  pub inner : T
  pub log : CaptureLog

unfoldable pub new : {T : Type 0} → T → RecordingTransport T
new t = record { inner = t; log = empty_log }

abbrev pub snapshot : {T : Type 0} → RecordingTransport T → CaptureLog
snapshot r = r.log

-- `if let Poll::Ready(Ok(n)) = &poll && *n > 0`: the log with what a read returned.
unfoldable pub log_read : Poll (Result IoErrorKind Bytes) → CaptureLog → CaptureLog
unfolding push
log_read (ready (ok bytes)) log =
    if ltb 0 (length bytes) then push server_to_client bytes log else log
log_read _ log = log

-- The log with the bytes of `buf` that a write took; `none` is the panic of the slice.
unfoldable pub log_write : Bytes → Poll (Result IoErrorKind ℕ) → CaptureLog → Option CaptureLog
unfolding push
log_write buf (ready (ok n)) log =
    if ltb 0 n
    then (if leb n (length buf) then some (push client_to_server (take n buf) log) else none)
    else some log
log_write buf _ log = some log

module _ {T : Type 0} (io : AsyncIo T) where
  unfoldable pub read_recorded :
      ℕ → RecordingTransport T → Poll (Result IoErrorKind Bytes) × RecordingTransport T
  unfolding log_read
  read_recorded room r =
      let (poll, inner) = io.poll_read room r.inner in
      (poll, record { inner = inner; log = log_read poll r.log })

  unfoldable pub write_recorded :
      Bytes → RecordingTransport T → Option (Poll (Result IoErrorKind ℕ) × RecordingTransport T)
  unfolding log_write
  write_recorded buf r =
      let (poll, inner) = io.poll_write buf r.inner in
      do log ← log_write buf poll r.log; some (poll, record { inner = inner; log = log })

  unfoldable pub flush_recorded :
      RecordingTransport T → Poll (Result IoErrorKind (Unit {0})) × RecordingTransport T
  flush_recorded r = let (poll, inner) = io.poll_flush r.inner in (poll, record r { inner = inner })

  unfoldable pub close_recorded :
      RecordingTransport T → Poll (Result IoErrorKind (Unit {0})) × RecordingTransport T
  close_recorded r = let (poll, inner) = io.poll_close r.inner in (poll, record r { inner = inner })
