-- ===== src/Client/Engine/Server.antt =====
-- What a server sends that keeps to the protocol, and how the engine of
-- crates/xeedee/src/client/engine.rs takes the bodies of its responses.
use xeedee.Base.{
  ℕ, ◌≡◌, refl, sym, ap, ◌∙◌, ◌≢◌, inl, inr, Bool, true, false, Option, some, List, [], ◌∷◌, ◌++◌,
  append-nil, append_assoc, arith, Bytes, bytes_eq, bytes_eq_sound, Bool-cases, length, All,
  length-append, take_left, drop_left,
}
use xeedee.Client.Engine.{State, ClientEngine, ClientEvent, on_body_line, step_binary, moved}
use xeedee.Client.Engine.Extend.{advance-filled, binary, binary-eq}
use xeedee.Client.Engine.Lines.{crlf, IsLine, step_body_line}
use xeedee.Client.Engine.Quiescence.{step_at, advance_moved, advance_stuck}
use xeedee.Client.Engine.Steps.{step_in, advance}
use xeedee.Crates.{plain}
use xeedee.Protocol.Head.Printed.{print_head}
use xeedee.Protocol.Response.{Response}
use xeedee.Protocol.SuccessCode
use xeedee.Protocol.SuccessCode.{SuccessCode}
use xeedee.Text.Utf8.{is_utf8}

abbrev pub dot : Bytes
dot = b'.' ∷ []

-- The body of a multiline response.
abbrev pub render_body : List Bytes → Bytes
render_body [] = dot ++ crlf
render_body (l ∷ ls) = l ++ b'\r' ∷ b'\n' ∷ render_body ls

-- What a server sends.
abbrev pub render : Response → Bytes
render (Response.line code text) = print_head (SuccessCode.raw code) text ++ crlf
render (Response.multiline text lines) = print_head 202 text ++ b'\r' ∷ b'\n' ∷ render_body lines
render (Response.binary text body) = print_head 203 text ++ b'\r' ∷ b'\n' ∷ body
render (Response.send_binary text) = print_head 204 text ++ crlf

-- The codes of responses that are a single line.
abbrev pub is_single : SuccessCode → Bool
is_single SuccessCode.ok = true
is_single SuccessCode.connected = true
is_single SuccessCode.disconnecting = true
is_single SuccessCode.dedicated = true
is_single _ = false

-- The lines are lines, and no line of a body is its end.
abbrev pub IsSendable : Response → Type 0
IsSendable (Response.line code text) =
    IsLine (print_head (SuccessCode.raw code) text) × (is_single code ≡ true)
IsSendable (Response.multiline text lines) =
    IsLine (print_head 202 text) × All (λ l. IsLine l × (l ≢ dot)) lines
IsSendable (Response.binary text body) = IsLine (print_head 203 text)
IsSendable (Response.send_binary text) = IsLine (print_head 204 text)

-- A binary response is as long as the caller said.
abbrev pub Expects : Option ℕ → Response → Type 0
Expects len (Response.binary text body) = len ≡ some (length body)
Expects len _ = Unit

-- An engine after a response.
abbrev pub answered : ClientEngine → Bytes → ClientEvent → ClientEngine
answered e rest event = record e {
  state = State.idle;
  inbox = rest;
  events = e.events ++ event ∷ [];
}

pub advance_idle : (e : ClientEngine) → e.state ≡ State.idle → advance plain e ≡ some e
advance_idle e at = advance_stuck e e (step_at e State.idle _ at (unfold step_in in refl))

dot-IsLine : IsLine dot
dot-IsLine = record { lacks_lf = omega arith; utf8 = unfold is_utf8 in refl; short = omega arith }

not_dot : (l : Bytes) → l ≢ dot → bytes_eq l dot ≡ false
not_dot l h = elim (Bool-cases (bytes_eq l dot)) [
  | inl same ↦ absurd (h (bytes_eq_sound l dot same))
  | inr other ↦ other
]

more_lines :
    (text : Bytes) (done : List Bytes) (l : Bytes) (e : ClientEngine)
    → l ≢ dot
    → moved (on_body_line text done l e)
      ≡ moved (record e { state = State.reading_multiline text (done ++ l ∷ []) })
unfolding on_body_line
more_lines text done l e other = rw (not_dot l other) refl

pub advance_body :
    (lines : List Bytes) (text : Bytes) (done : List Bytes) (rest : Bytes) (e : ClientEngine)
    → e.state ≡ State.reading_multiline text done
    → All (λ l. IsLine l × (l ≢ dot)) lines
    → e.inbox ≡ render_body lines ++ rest
    → advance plain e
      ≡ some (answered e rest (ClientEvent.response (Response.multiline text (done ++ lines))))
unfolding on_body_line
advance_body [] text done rest e at h has =
    advance_moved e _ (step_body_line e rest text done dot at dot-IsLine has)
    ∙ advance_idle _ refl
    ∙ ap (λ ls. some (answered e rest (ClientEvent.response (Response.multiline text ls))))
        (sym (append-nil done))
advance_body (l ∷ lines) text done rest e at ((fits, other), h) has =
    advance_moved e _ (
      step_body_line e (render_body lines ++ rest) text done l at fits
        (has ∙ append_assoc l (b'\r' ∷ b'\n' ∷ render_body lines) rest)
      ∙ more_lines text done l (record e { inbox = render_body lines ++ rest }) other)
    ∙ advance_body lines text (done ++ l ∷ []) rest
        (record e {
          state = State.reading_multiline text (done ++ l ∷ []);
          inbox = render_body lines ++ rest;
        })
        refl h refl
    ∙ ap (λ ls. some (answered e rest (ClientEvent.response (Response.multiline text ls))))
        (append_assoc done (l ∷ []) lines)

step_done :
    (text body : Bytes) (e : ClientEngine)
    → step_binary text 0 body e
      ≡ moved (answered e e.inbox (ClientEvent.response (Response.binary text body)))
unfolding step_binary
step_done text body e = refl

binary_done :
    (text body : Bytes) (e : ClientEngine)
    → e.state ≡ State.reading_binary text 0 body
    → advance plain e ≡ some (answered e e.inbox (ClientEvent.response (Response.binary text body)))
unfolding step_in
binary_done text body e at =
    advance_moved e _ (step_at e (State.reading_binary text 0 body) _ at (step_done text body e))
    ∙ advance_idle _ refl

pub advance-binary :
    (text body rest : Bytes) (e : ClientEngine)
    → e.state ≡ State.reading_binary text (length body) []
    → e.inbox ≡ body ++ rest
    → advance plain e ≡ some (answered e rest (ClientEvent.response (Response.binary text body)))
advance-binary text [] rest e at has =
    binary_done text [] e at
    ∙ ap (λ i. some (answered e i (ClientEvent.response (Response.binary text [])))) has
advance-binary text (c ∷ body) rest e at has =
    advance-filled text (length body) [] c (body ++ rest) e at has
    ∙ ap (advance plain) (
        binary-eq text e (omega (arith, length-append body rest)) (take_left (c ∷ body) rest)
          (drop_left (c ∷ body) rest))
    ∙ binary_done text (c ∷ body) (binary text e 0 (c ∷ body) rest) refl
