-- ===== src/Client/Driver/Mocked.antt =====
-- The client over the mock (crates/xeedee/src/client/mod.rs, crates/xeedee/src/transport/mock.rs). `write_all` of
-- `futures_util` is a parameter: it writes until nothing is left or a write fails.
use xeedee.Base.{
  ℕ, suc, ◌+◌, ◌-◌, ◌≤◌, ◌<◌, min, ◌≡◌, refl, sym, ap, ◌∙◌, subst, inl, inr, Bool, true, false,
  Option, none, some, List, [], ◌∷◌, ◌++◌, append-nil, arith, Bytes, bytes_eq_refl, Result, ok, err,
  map_err, leb, ◌==◌, length, drop, get_elem?, length-append, take_all, drop_all,
}
use xeedee.Client.Driver.{Transport, read_chunk, run, wanted_len}
use xeedee.Client.Driver.Runs.{quiet, at, Carries, render_some, run-response}
use xeedee.Client.Engine.Lines.{crlf}
use xeedee.Client.Engine.Server.{render, IsSendable, Expects}
use xeedee.Crates.{Crates, Documented}
use xeedee.Protocol.Command.{Command}
use xeedee.Protocol.Error.{Error, io, IoErrorKind}
use xeedee.Protocol.Response.{Response}
use xeedee.Transport.Capture.{CaptureEntry, Direction, server_to_client, client_to_server}
use xeedee.Transport.Mock.{
  MockTransport, Poll, ready, pending, frame_view, frame_bytes, consume, check_write, strict_write,
  poll_write, copy_out, read_loop, poll_read,
}
use xeedee.Transport.Mock.Script.{get-drop}

abbrev pub WriteAll : Type 0
WriteAll = Bytes → MockTransport → Result IoErrorKind (Unit {0}) × MockTransport

pub record WritesAll (write_all : WriteAll) : Type 0 where
  pub done : (m : MockTransport) → write_all [] m ≡ (ok tt, m)
  pub goes_on :
      (b n : ℕ) (s : Bytes) (m m' : MockTransport)
      → poll_write (b ∷ s) m ≡ some (ready (ok (suc n)), m')
      → write_all (b ∷ s) m ≡ write_all (drop n s) m'
  pub gives_up :
      (b : ℕ) (s : Bytes) (cause : IoErrorKind) (m m' : MockTransport)
      → poll_write (b ∷ s) m ≡ some (ready (err cause), m')
      → write_all (b ∷ s) m ≡ (err cause, m')

-- A read that is pending waits for ever, since the mock does not wake its reader.
unfoldable pub awaited :
    {A : Type 0}
    → Option (Poll (Result IoErrorKind A) × MockTransport)
    → Option (Result Error A × MockTransport)
awaited none = none
awaited (some (pending, m)) = none
awaited (some (ready r, m)) = some (map_err io r, m)

abbrev pub mock_transport : WriteAll → Transport MockTransport
mock_transport write_all = record {
  read = λ room m. awaited (poll_read room m);
  write_all = λ bytes m. let (r, m') = write_all bytes m in some (map_err io r, m');
  flush = λ m. some (ok tt, m);
}

-- A mock that checks what is written, at the start of a frame.
abbrev pub playing : List CaptureEntry → Bool → ℕ → MockTransport
playing frames pends cursor = record {
  frames = frames;
  cursor = cursor;
  offset = 0;
  lax_writes = false;
  reads_pend_on_end = pends;
}

abbrev pub entry : Direction → Bytes → CaptureEntry
entry d bytes = record { direction = d; data_bytes = bytes }

drop_here :
    (n : ℕ) (l : List CaptureEntry) (e : CaptureEntry) (rest : List CaptureEntry)
    → drop n l ≡ e ∷ rest
    → (get_elem? l n ≡ some e) × (drop (n + 1) l ≡ rest)
drop_here n l e rest h = elim (get-drop n l) [
  | inl (_, nothing) ↦ absurd (cc)
  | inr (f, rest', got, now, later, _) ↦ (cc, cc)
]

whole_write : (n : ℕ) → min (n - 0) n ≡ n
whole_write n = omega arith

whole_read : (n : ℕ) → n ≤ read_chunk → min (n - 0) read_chunk ≡ n
whole_read n short = omega (arith, short)

reached : (n : ℕ) → leb n (0 + n) ≡ true
reached n = ground arith

some_left : (n : ℕ) → (suc n - 0 == 0) ≡ false
some_left n = ground arith

module _ (frames : List CaptureEntry) (pends : Bool) (cursor : ℕ) (rest : List CaptureEntry) where
  write_frame :
      (b : ℕ) (s : Bytes)
      → drop cursor frames ≡ entry client_to_server (b ∷ s) ∷ rest
      → poll_write (b ∷ s) (playing frames pends cursor)
        ≡ some (ready (ok (length (b ∷ s))), playing frames pends (cursor + 1))
  unfolding poll_write frame_view strict_write check_write frame_bytes consume
  write_frame b s now =
      rw
        (
          (drop_here cursor frames _ rest now).0,
          whole_write (suc (length s)),
          (drop_here cursor frames _ rest now).0,
          take_all (length s) s (omega arith),
          bytes_eq_refl (b ∷ s),
          reached (suc (length s)),
          check_write,
        )
        refl

  read_frame :
      (b : ℕ) (s : Bytes)
      → drop cursor frames ≡ entry server_to_client (b ∷ s) ∷ rest
      → length (b ∷ s) ≤ read_chunk
      → poll_read read_chunk (playing frames pends cursor)
        ≡ some (ready (ok (b ∷ s)), playing frames pends (cursor + 1))
  unfolding poll_read read_loop copy_out frame_bytes consume frame_view
  read_frame b s now short =
      rw
        (
          (drop_here cursor frames _ rest now).0,
          some_left (length s),
          whole_read (suc (length s)) short,
          (drop_here cursor frames _ rest now).0,
          take_all (length s) s (omega arith),
          reached (suc (length s)),
          copy_out,
        )
        refl

module _ (write_all : WriteAll) (h : WritesAll write_all) (frames : List CaptureEntry)
    (pends : Bool) where
  written_whole :
      (cursor : ℕ) (bytes : Bytes) (rest : List CaptureEntry)
      → 0 < length bytes
      → drop cursor frames ≡ entry client_to_server bytes ∷ rest
      → write_all bytes (playing frames pends cursor) ≡ (ok tt, playing frames pends (cursor + 1))
  written_whole cursor [] rest some_bytes now = absurd (omega (arith, some_bytes))
  written_whole cursor (b ∷ s) rest some_bytes now =
      h.goes_on b (length s) s _ _ (write_frame frames pends cursor rest b s now)
      ∙ ap (λ t. write_all t (playing frames pends (cursor + 1)))
          (drop_all (length s) s (omega arith))
      ∙ h.done (playing frames pends (cursor + 1))

  read_whole :
      (cursor : ℕ) (bytes : Bytes) (rest : List CaptureEntry)
      → 0 < length bytes
      → length bytes ≤ read_chunk
      → drop cursor frames ≡ entry server_to_client bytes ∷ rest
      → poll_read read_chunk (playing frames pends cursor)
        ≡ some (ready (ok bytes), playing frames pends (cursor + 1))
  read_whole cursor [] rest some_bytes short now = absurd (omega (arith, some_bytes))
  read_whole cursor (b ∷ s) rest some_bytes short now =
      read_frame frames pends cursor rest b s now short

  pub carries :
      (cursor : ℕ) (line said : Bytes) (rest : List CaptureEntry)
      → drop cursor frames
        ≡ entry client_to_server (line ++ crlf) ∷ entry server_to_client said ∷ rest
      → 0 < length said
      → length said ≤ read_chunk
      → Carries
          (mock_transport write_all)
          line
          said
          (playing frames pends cursor)
          (playing frames pends (cursor + 1 + 1))
  unfolding awaited
  carries cursor line said rest now some_said short = record {
    written = playing frames pends (cursor + 1);
    flushed = playing frames pends (cursor + 1);
    heard = playing frames pends (cursor + 1 + 1);
    writes =
        rw (written_whole cursor (line ++ crlf) _ (omega (arith, length-append line crlf)) now)
          refl;
    flushes = refl;
    reads =
        rw (read_whole (cursor + 1) said rest some_said short ((drop_here cursor frames _ _ now).1))
          refl;
    flushes_again = refl;
  }

-- On a client that is idle and holds nothing, over a mock that checks what is written, whose next two frames are the command's line with CR and
-- LF and a response that a server may send, `run` returns what the command parses of that response.
-- The mock then stands behind these frames, and the client is idle and holds nothing. The line and
-- the response take 8192 bytes each at most.
pub run-mock_transport :
    (x : Crates)
    → Documented x
    → {A : Type 0} (write_all : WriteAll) → WritesAll write_all
    → (fuel cursor : ℕ) (frames later : List CaptureEntry) (pends : Bool) (cmd : Command A)
      (line : Bytes) (len : Option ℕ) (r : Response)
    → cmd.wire_line ≡ ok line
    → wanted_len cmd ≡ ok len
    → IsSendable r
    → Expects len r
    → drop cursor frames
      ≡ entry client_to_server (line ++ crlf) ∷ entry server_to_client (render r) ∷ later
    → length (line ++ crlf) ≤ read_chunk
    → length (render r) ≤ read_chunk
    → run x
        (mock_transport write_all)
        (suc (suc fuel))
        cmd
        (at (playing frames pends cursor) (quiet []))
      ≡ some (cmd.parse r, at (playing frames pends (cursor + 1 + 1)) (quiet []))
run-mock_transport x documented write_all h fuel cursor frames later pends cmd line len r wire want
      fits expects now short short' =
    run-response x documented (mock_transport write_all) fuel cmd line [] len r _ _ wire want fits
      expects short
      (subst
        (λ said.
          Carries (mock_transport write_all) line said (playing frames pends cursor)
            (playing frames pends (cursor + 1 + 1)))
        (sym (append-nil (render r)))
        (carries write_all h frames pends cursor line (render r) later now
          (subst (λ s. 0 < length s) (append-nil (render r)) (render_some r [])) short'))
