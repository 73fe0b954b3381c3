-- ===== src/Transport/Mock/Reads.antt =====
-- What a read of the mock does to its script (crates/xeedee/src/transport/mock.rs).
use xeedee.Base.{
  ℕ, zero, suc, ◌+◌, ◌-◌, ◌≤◌, ◌<◌, min, ◌≡◌, refl, sym, ap, ◌∙◌, subst, inl, inr, Bool, true,
  false, some, List, [], ◌∷◌, ◌++◌, arith, Bytes, Result, ok, err, ◌==◌, if◌then◌else◌, Bool-cases,
  length, take, drop, get_elem?, length-take, length-drop,
}
use xeedee.Protocol.Error.{IoErrorKind, invalid_data}
use xeedee.Transport.Capture.{CaptureEntry, server_to_client, client_to_server}
use xeedee.Transport.Mock.{
  MockTransport, Poll, ready, pending, Answer, advance_frame, consume, frame_bytes, refuse,
  copy_out, read_loop, poll_read,
}
use xeedee.Transport.Mock.Script.{
  Item, tagged, items, script, IsStanding, get-drop, advance_frame-fills, script_step, items-server,
  items-client, stands_inside, script-left, view_here, view_end, script-passed, script-over,
  consume-IsStanding, Direction-cases,
}

-- The script before a read, whether reads wait at its end, the room, the answer and the script after.
pub data Reads : List Item → Bool → ℕ → Poll (Result IoErrorKind Bytes) → List Item → Type 0 where
  idle : {room : ℕ} → Reads [] true room pending []
  ended : {room : ℕ} → Reads [] false room (ready (ok [])) []
  refused :
      {pends : Bool} {room b : ℕ} {rest : List Item}
      → Reads
          ((client_to_server, b) ∷ rest)
          pends
          room
          (ready (err invalid_data))
          ((client_to_server, b) ∷ rest)
  copied :
      {pends : Bool} {room b : ℕ} {s : Bytes} {rest : List Item}
      → length (b ∷ s) ≤ room
      → Reads (tagged server_to_client (b ∷ s) ++ rest) pends room (ready (ok (b ∷ s))) rest

-- The bytes that a read may copy, which are some.
copies :
    (pends : Bool) (room : ℕ) (bytes : Bytes) (rest : List Item)
    → 0 < length bytes
    → length bytes ≤ room
    → Reads (tagged server_to_client bytes ++ rest) pends room (ready (ok bytes)) rest
copies pends room [] rest some_bytes fits = absurd (omega (arith, some_bytes))
copies pends room (b ∷ s) rest some_bytes fits = Reads.copied fits

at_end :
    (pends : Bool) (room : ℕ) → Reads [] pends room (if pends then pending else ready (ok [])) []
at_end true room = Reads.idle
at_end false room = Reads.ended

at_client :
    (pends : Bool) (room : ℕ) (s : Bytes) (rest : List Item)
    → 0 < length s
    → Reads
        (tagged client_to_server s ++ rest)
        pends
        room
        (ready (err invalid_data))
        (tagged client_to_server s ++ rest)
unfolding tagged
at_client pends room [] rest h = absurd (omega (arith, h))
at_client pends room (b ∷ s) rest h = Reads.refused

-- What a read answers, and that it leaves the mock at the next byte.
abbrev pub Answers : MockTransport → ℕ → Answer Bytes → Type 0
Answers m room answer =
    (r : Poll (Result IoErrorKind Bytes)) × (m' : MockTransport) × (answer ≡ some (r, m'))
    × Reads (script m) m.reads_pend_on_end room r (script m')
    × IsStanding m'

module _ (m : MockTransport) (room : ℕ) (h : IsStanding m) (some_room : 0 < room) where
  copy_out-Answers :
      (e : CaptureEntry) (rest : List CaptureEntry)
      → get_elem? m.frames m.cursor ≡ some e
      → drop m.cursor m.frames ≡ e ∷ rest
      → drop (m.cursor + 1) m.frames ≡ rest
      → e.direction ≡ server_to_client
      → m.offset < length e.data_bytes
      → Answers m room (copy_out room (length e.data_bytes - m.offset) (length e.data_bytes) m)
  unfolding copy_out frame_bytes
  copy_out-Answers e rest got now later way inside = (
    ready (ok bytes),
    consume n (length e.data_bytes) m,
    rw (got) refl,
    subst (λ t. Reads t m.reads_pend_on_end room (ready (ok bytes)) after)
        (sym (script_step m e rest now later played n fits))
        (subst
          (λ d. Reads (tagged d bytes ++ after) m.reads_pend_on_end room (ready (ok bytes)) after)
          (sym way)
          (copies m.reads_pend_on_end room bytes after (omega (arith, long, some_room, inside))
            (omega (arith, long)))),
    consume-IsStanding m e rest now later played n h fits,
  )
    where
      n : ℕ
      n = min (length e.data_bytes - m.offset) room

      bytes : Bytes
      bytes = take n (drop m.offset e.data_bytes)

      after : List Item
      after = script (consume n (length e.data_bytes) m)

      played : items m.lax_writes e ≡ tagged e.direction e.data_bytes
      played = items-server m.lax_writes e way

      fits : m.offset + min (length e.data_bytes - m.offset) room ≤ length e.data_bytes
      fits = omega (arith, inside)

      long :
          length (take (min (length e.data_bytes - m.offset) room) (drop m.offset e.data_bytes))
          ≡ min (length e.data_bytes - m.offset) room
      long = omega (
        arith,
        length-take (min (length e.data_bytes - m.offset) room) (drop m.offset e.data_bytes),
        length-drop m.offset e.data_bytes,
      )

refused_here :
    (m : MockTransport) (room : ℕ) (e : CaptureEntry) (rest : List CaptureEntry)
    → drop m.cursor m.frames ≡ e ∷ rest
    → drop (m.cursor + 1) m.frames ≡ rest
    → e.direction ≡ client_to_server
    → m.lax_writes ≡ false
    → IsStanding m
    → Reads (script m) m.reads_pend_on_end room (ready (err invalid_data)) (script m)
refused_here m room e rest now later client strict h =
    let (left, after, whole, some_left) =
      script-left m e rest client_to_server now later (items-client m.lax_writes e client strict)
        client h in
    subst (λ t. Reads t m.reads_pend_on_end room (ready (err invalid_data)) t) (sym whole)
      (at_client m.reads_pend_on_end room left after some_left)

-- The loop ends: every frame that is passed over is one that is left.
loop-Answers :
    (fuel : ℕ) (m : MockTransport) (room : ℕ)
    → IsStanding m
    → 0 < room
    → length m.frames - m.cursor < fuel
    → Answers m room (read_loop fuel room m)
unfolding read_loop
loop-Answers zero m room h some_room few = absurd (omega (arith, few))
loop-Answers (suc fuel) m room h some_room few = elim (get-drop m.cursor m.frames) [
  | inl (got, now) ↦ (
    if m.reads_pend_on_end then pending else ready (ok []),
    m,
    rw (view_end m got, read_loop) refl,
    subst
        (λ t.
          Reads t m.reads_pend_on_end room (if m.reads_pend_on_end then pending else ready (ok []))
            t)
        (sym (script-over m now)) (at_end m.reads_pend_on_end room),
    h,
  )
  | inr (e, rest, got, now, later, less) ↦
      let inside : m.offset < length e.data_bytes = stands_inside m e rest now h in
      elim (Direction-cases e.direction) [
        | inl server ↦
            subst (Answers m room)
              (sym (rw (view_here m e got, server, left_bytes e inside, read_loop) refl))
              (copy_out-Answers m room h some_room e rest got now later server inside)
        | inr client ↦ elim (Bool-cases m.lax_writes) [
          | inl lax ↦
              let (r, m', eq, reads, h') =
                loop-Answers fuel (advance_frame m) room (advance_frame-fills m h.frames_fill)
                  some_room (omega (arith, less, few)) in
              (
                r,
                m',
                passes e got client lax ∙ eq,
                subst (λ t. Reads t m.reads_pend_on_end room r (script m'))
                    (script-passed m e rest now later client lax) reads,
                h',
              )
          | inr strict ↦ (
            ready (err invalid_data),
            m,
            rw (view_here m e got, client, read_loop) (ap over_client strict),
            refused_here m room e rest now later client strict h,
            h,
          )
        ]
      ]
]
  where
    over_client : Bool → Answer Bytes
    over_client lax = elim lax [ true ↦ read_loop fuel room (advance_frame m) | false ↦ refuse m ]

    passes :
        (e : CaptureEntry)
        → get_elem? m.frames m.cursor ≡ some e
        → e.direction ≡ client_to_server
        → m.lax_writes ≡ true
        → read_loop (suc fuel) room m ≡ read_loop fuel room (advance_frame m)
    passes e got client lax =
        rw (view_here m e got, client, read_loop) (ap (λ b. over_client b) lax)

    left_bytes :
        (e : CaptureEntry)
        → m.offset < length e.data_bytes
        → (length e.data_bytes - m.offset == 0) ≡ false
    left_bytes e inside = ground (arith, inside)

-- A read with room, of a mock that stands at a byte of its script, answers as follows. At the end
-- of the script it waits or returns no bytes, as the mock was set. At a byte that the client is to
-- write it is refused. Else it copies one byte or more, as many as there is room for or fewer, which
-- are the next of the script. The mock then stands at what is left of the script.
pub poll_read-Answers :
    (m : MockTransport) (room : ℕ) → IsStanding m → 0 < room → Answers m room (poll_read room m)
unfolding poll_read
poll_read-Answers m room h some_room =
    loop-Answers (suc (length m.frames - m.cursor)) m room h some_room (omega arith)
