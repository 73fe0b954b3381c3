-- ===== src/Transport/Recording/Replay.antt =====
-- What a recording plays back (crates/xeedee/src/transport/recording.rs and mock.rs).
use xeedee.Base.{
  ℕ, zero, suc, ◌≤◌, ◌≡◌, refl, sym, ap, ◌∙◌, inl, inr, true, false, Option, none, some, List, [],
  ◌∷◌, ◌++◌, append-nil, append_assoc, arith, Bytes, Result, ok, err, ltb, leb, le→leb, Bool-cases,
  length, take, All, length-append,
}
use xeedee.Base.Options.{◌>>=◌}
use xeedee.Protocol.Error.{IoErrorKind}
use xeedee.Transport.Capture.{
  CaptureLog, CaptureEntry, Direction, server_to_client, client_to_server, push, merge,
  direction_eq,
}
use xeedee.Transport.Mock.{Poll, ready, pending, from_log}
use xeedee.Transport.Mock.Script.{
  Item, tagged, items, play, script, IsStanding, HasBytes, Direction-cases, from_log-IsStanding,
  script-start,
}
use xeedee.Transport.Recording.{
  AsyncIo, RecordingTransport, new, log_read, log_write, read_recorded, write_recorded,
  flush_recorded, close_recorded,
}

-- What a user of the transport calls.
pub data Call : Type 0 where
  read_up_to : ℕ → Call
  write_out : Bytes → Call
  flush_out close_out : Call

-- What a call hands to its caller.
pub data Answer : Type 0 where
  read_answer : Poll (Result IoErrorKind Bytes) → Answer
  write_answer : Poll (Result IoErrorKind ℕ) → Answer
  done_answer : Poll (Result IoErrorKind (Unit {0})) → Answer

-- The bytes that cross the wire in a call, by what it answers.
abbrev pub read_items : Poll (Result IoErrorKind Bytes) → List Item
read_items (ready (ok bytes)) = tagged server_to_client bytes
read_items _ = []

abbrev pub write_items : Bytes → Poll (Result IoErrorKind ℕ) → List Item
write_items buf (ready (ok n)) = tagged client_to_server (take n buf)
write_items buf _ = []

-- The calls on the inner transport itself: what they answer, what crosses the wire, and the transport
-- after them.
unfoldable pub crossing : {T : Type 0} → AsyncIo T → List Call → T → List Answer × List Item × T
crossing io [] t = ([], [], t)
crossing io (read_up_to room ∷ calls) t =
    let (poll, t') = io.poll_read room t in
    let (answers, later, t'') = crossing io calls t' in
    (read_answer poll ∷ answers, read_items poll ++ later, t'')
crossing io (write_out buf ∷ calls) t =
    let (poll, t') = io.poll_write buf t in
    let (answers, later, t'') = crossing io calls t' in
    (write_answer poll ∷ answers, write_items buf poll ++ later, t'')
crossing io (flush_out ∷ calls) t =
    let (poll, t') = io.poll_flush t in
    let (answers, later, t'') = crossing io calls t' in (done_answer poll ∷ answers, later, t'')
crossing io (close_out ∷ calls) t =
    let (poll, t') = io.poll_close t in
    let (answers, later, t'') = crossing io calls t' in (done_answer poll ∷ answers, later, t'')

abbrev after :
    {T : Type 0}
    → Answer
    → Option (List Answer × RecordingTransport T)
    → Option (List Answer × RecordingTransport T)
after answer none = none
after answer (some (answers, r)) = some (answer ∷ answers, r)

-- The same calls on a recording of it: what they answer, and the recording after them.
unfoldable pub recorded :
    {T : Type 0}
    → AsyncIo T
    → List Call
    → RecordingTransport T
    → Option (List Answer × RecordingTransport T)
unfolding read_recorded write_recorded flush_recorded close_recorded
recorded io [] r = some ([], r)
recorded io (read_up_to room ∷ calls) r =
    let (poll, r') = read_recorded io room r in after (read_answer poll) (recorded io calls r')
recorded io (write_out buf ∷ calls) r = do
  (poll, r') ← write_recorded io buf r
  after (write_answer poll) (recorded io calls r')
recorded io (flush_out ∷ calls) r =
    let (poll, r') = flush_recorded io r in after (done_answer poll) (recorded io calls r')
recorded io (close_out ∷ calls) r =
    let (poll, r') = close_recorded io r in after (done_answer poll) (recorded io calls r')

-- What is documented of a write: it takes no more bytes than it is given.
abbrev Takes : Bytes → Poll (Result IoErrorKind ℕ) → Type 0
Takes buf (ready (ok n)) = n ≤ length buf
Takes buf _ = Unit

abbrev pub IsBounded : {T : Type 0} → AsyncIo T → Type 0
IsBounded io = (buf : Bytes) (t : _) → Takes buf ((io.poll_write buf t).0)

tagged-append : (d : Direction) (s t : Bytes) → tagged d (s ++ t) ≡ tagged d s ++ tagged d t
unfolding tagged
tagged-append d [] t = refl
tagged-append d (b ∷ s) t = ap (λ u. (d, b) ∷ u) (tagged-append d s t)

items-tagged : (e : CaptureEntry) → items false e ≡ tagged e.direction e.data_bytes
unfolding items
items-tagged e = elim (Direction-cases e.direction) [
  | inl server ↦ rw (server) refl
  | inr client ↦ rw (client) refl
]

direction_same : (d w : Direction) → direction_eq d w ≡ true → d ≡ w
unfolding direction_eq
direction_same server_to_client server_to_client h = refl
direction_same client_to_server client_to_server h = refl
direction_same server_to_client client_to_server h = absurd (cc)
direction_same client_to_server server_to_client h = absurd (cc)

merge-play :
    (d : Direction) (b : Bytes) (entries : List CaptureEntry)
    → play false (merge d b entries) ≡ play false entries ++ tagged d b
unfolding play merge
merge-play d b [] =
    ap (λ u. u ++ []) (items-tagged (record { direction = d; data_bytes = b }))
    ∙ append-nil (tagged d b)
merge-play d b (e ∷ []) = elim (Bool-cases (direction_eq e.direction d)) [
  | inl same ↦
      rw (same, merge)
        (ap (λ u. u ++ [])
            (items-tagged (record e { data_bytes = e.data_bytes ++ b })
              ∙ tagged-append e.direction e.data_bytes b)
          ∙ append-nil (tagged e.direction e.data_bytes ++ tagged e.direction b)
          ∙ ap (λ w. tagged e.direction e.data_bytes ++ tagged w b)
              (direction_same e.direction d same)
          ∙ ap (λ u. u ++ tagged d b) (sym (items-tagged e) ∙ sym (append-nil (items false e))))
  | inr other ↦
      rw (other, merge)
        (ap (λ u. items false e ++ (u ++ []))
            (items-tagged (record { direction = d; data_bytes = b }))
          ∙ ap (λ u. items false e ++ u) (append-nil (tagged d b))
          ∙ ap (λ u. u ++ tagged d b) (sym (append-nil (items false e))))
]
merge-play d b (e ∷ f ∷ entries) =
    ap (λ t. items false e ++ t) (merge-play d b (f ∷ entries))
    ∙ sym (append_assoc (items false e) _ _)

merge-HasBytes :
    (d : Direction) (c : ℕ) (s : Bytes) (entries : List CaptureEntry)
    → All HasBytes entries
    → All HasBytes (merge d (c ∷ s) entries)
unfolding merge
merge-HasBytes d c s [] h = (omega arith, tt)
merge-HasBytes d c s (e ∷ []) (he, _) = elim (Bool-cases (direction_eq e.direction d)) [
  | inl same ↦ rw (same, merge) (omega (arith, length-append e.data_bytes (c ∷ s)), tt)
  | inr other ↦ rw (other, merge) (he, (omega arith, tt))
]
merge-HasBytes d c s (e ∷ f ∷ entries) (he, h) = (he, merge-HasBytes d c s (f ∷ entries) h)

-- What the log plays after a call, and that it has no empty frame.
Grows : CaptureLog → List Item → CaptureLog → Type 0
Grows log crossed log' =
    (play false log'.entries ≡ play false log.entries ++ crossed)
    × (All HasBytes log.entries → All HasBytes log'.entries)

stays : (log : CaptureLog) → Grows log [] log
unfolding Grows
stays log = (sym (append-nil (play false log.entries)), λ h. h)

push-Grows : (d : Direction) (b : Bytes) (log : CaptureLog) → Grows log (tagged d b) (push d b log)
unfolding Grows push tagged
push-Grows d [] log = (sym (append-nil (play false log.entries)), λ h. h)
push-Grows d (c ∷ s) log = (merge-play d (c ∷ s) log.entries, merge-HasBytes d c s log.entries)

positive : (n : ℕ) → ltb 0 (suc n) ≡ true
positive n = ground arith

log_read-Grows :
    (poll : Poll (Result IoErrorKind Bytes)) (log : CaptureLog)
    → Grows log (read_items poll) (log_read poll log)
unfolding log_read tagged
log_read-Grows pending log = stays log
log_read-Grows (ready (err e)) log = stays log
log_read-Grows (ready (ok [])) log = stays log
log_read-Grows (ready (ok (c ∷ s))) log =
    rw (positive (length s)) (push-Grows server_to_client (c ∷ s) log)

log_write-Grows :
    (buf : Bytes) (poll : Poll (Result IoErrorKind ℕ)) (log : CaptureLog)
    → Takes buf poll
    → (log' : CaptureLog) × (log_write buf poll log ≡ some log')
      × Grows log (write_items buf poll) log'
unfolding log_write tagged
log_write-Grows buf pending log h = (log, refl, stays log)
log_write-Grows buf (ready (err e)) log h = (log, refl, stays log)
log_write-Grows buf (ready (ok zero)) log h = (log, refl, stays log)
log_write-Grows buf (ready (ok (suc n))) log h =
    let fits : leb (suc n) (length buf) ≡ true = le→leb (suc n) (length buf) h in
    (
      push client_to_server (take (suc n) buf) log,
      rw (positive n, fits) refl,
      push-Grows client_to_server (take (suc n) buf) log,
    )

Grows-then :
    (log : CaptureLog) (first later : List Item) (log' log'' : CaptureLog)
    → Grows log first log'
    → Grows log' later log''
    → Grows log (first ++ later) log''
unfolding Grows
Grows-then log first later log' log'' (eq, fill) (eq', fill') = (
  eq' ∙ ap (λ u. u ++ later) eq ∙ append_assoc (play false log.entries) first later,
  λ h. fill' (fill h),
)

module _ {T : Type 0} (io : AsyncIo T) (bounded : IsBounded io) where
  -- The calls on a recording answer as they would without it and end with the inner transport that
  -- they would leave, and the log grows by what they let cross.
  recorded-Grows :
      (calls : List Call) (r : RecordingTransport T)
      → (r' : RecordingTransport T) × (recorded io calls r
          ≡ some ((crossing io calls r.inner).0, r'))
        × (r'.inner ≡ (crossing io calls r.inner).2)
        × Grows r.log ((crossing io calls r.inner).1) r'.log
  unfolding recorded crossing read_recorded write_recorded flush_recorded close_recorded
  recorded-Grows [] r = (r, refl, refl, stays r.log)
  recorded-Grows (read_up_to room ∷ calls) r =
      let (r', eq, inner, grows) = recorded-Grows calls ((read_recorded io room r).1) in
      (
        r',
        ap (after (read_answer ((io.poll_read room r.inner).0))) eq,
        inner,
        Grows-then r.log _ _ _ _ (log_read-Grows ((io.poll_read room r.inner).0) r.log) grows,
      )
  recorded-Grows (write_out buf ∷ calls) r =
      let (log', wrote, first) =
        log_write-Grows buf ((io.poll_write buf r.inner).0) r.log (bounded buf r.inner) in
      let (r', eq, inner, grows) =
        recorded-Grows calls (record { inner = (io.poll_write buf r.inner).1; log = log' }) in
      (
        r',
        rw (wrote) (ap (after (write_answer ((io.poll_write buf r.inner).0))) eq),
        inner,
        Grows-then r.log _ _ _ _ first grows,
      )
  recorded-Grows (flush_out ∷ calls) r =
      let (r', eq, inner, grows) = recorded-Grows calls ((flush_recorded io r).1) in
      (r', ap (after (done_answer ((io.poll_flush r.inner).0))) eq, inner, grows)
  recorded-Grows (close_out ∷ calls) r =
      let (r', eq, inner, grows) = recorded-Grows calls ((close_recorded io r).1) in
      (r', ap (after (done_answer ((io.poll_close r.inner).0))) eq, inner, grows)

-- Recording changes nothing and misses nothing: any reads, writes, flushes and closes answer their
-- caller as they would without it, the inner transport is as the calls alone would have left it, and a
-- mock made from the log stands at a byte of its script, which is exactly what crossed the wire, byte
-- by byte and in order. No write takes more bytes than it is given.
pub script-recorded :
    {T : Type 0} (io : AsyncIo T) (calls : List Call) (t : T)
    → IsBounded io
    → (r : RecordingTransport T) × (recorded io calls (new t) ≡ some ((crossing io calls t).0, r))
      × (r.inner ≡ (crossing io calls t).2)
      × (script (from_log r.log) ≡ (crossing io calls t).1)
      × IsStanding (from_log r.log)
unfolding new Grows play
script-recorded io calls t bounded =
    let (r, eq, inner, grown) = recorded-Grows io bounded calls (new t) in
    (r, eq, inner, script-start r.log ∙ grown.0, from_log-IsStanding r.log (grown.1 tt))
