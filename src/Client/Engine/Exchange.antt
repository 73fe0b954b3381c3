-- ===== src/Client/Engine/Exchange.antt =====
-- A whole exchange with a server (crates/xeedee/src/client/engine.rs): what a server says that
-- keeps to the protocol is what the caller of the engine is told.
use xeedee.Base.{
  ℕ, ◌≤◌, ◌≡◌, refl, ap, ◌∙◌, true, Option, none, some, [], ◌∷◌, ◌++◌, append_assoc, arith, Bytes,
  length, ok,
}
use xeedee.Client.Engine.{
  State, ClientEngine, ClientEvent, HeadExpect, no_binary, eager_binary, on_head,
}
use xeedee.Client.Engine.Lines.{crlf, IsLine, step_head}
use xeedee.Client.Engine.Ops.{ready, queue_submit, submit, recv}
use xeedee.Client.Engine.Quiescence.{advance_moved}
use xeedee.Client.Engine.Steps.{advance}
use xeedee.Crates.{Crates, plain, Documented, for_all_crates}
use xeedee.Protocol.ErrorCode
use xeedee.Protocol.ErrorCode.{ErrorCode}
use xeedee.Protocol.Head.Printed.{print_head}
use xeedee.Protocol.Response.{Response}
use xeedee.Protocol.StatusCode.Classes.{error_range, try_classify-error}
use xeedee.Protocol.StatusCode.{success, try_classify}
use xeedee.Protocol.SuccessCode
use xeedee.Protocol.SuccessCode.{SuccessCode}
use xeedee.Client.Engine.Server.{
  render, render_body, is_single, IsSendable, Expects, answered, advance_idle, advance_body,
  advance-binary,
}

-- What `submit` notes of the length that its caller gives.
abbrev pub expectation : Option ℕ → HeadExpect
expectation none = no_binary
expectation (some n) = eager_binary n

-- The command has been submitted, and the whole response has come.
module _ (e : ClientEngine) (rest : Bytes) (expect : HeadExpect) where
  abbrev pub waiting : Bytes → ClientEngine
  waiting said = record e { state = State.awaiting_head expect; inbox = said ++ rest }

  after_head :
      (n : ℕ) (text more : Bytes)
      → 100 ≤ n
      → n ≤ 999
      → IsLine (print_head n text)
      → advance plain (waiting (print_head n text ++ b'\r' ∷ b'\n' ∷ more))
        ≡ advance plain (
            on_head expect
              (try_classify (record { raw = n }))
              text
              (record e { state = State.awaiting_head expect; inbox = more ++ rest }))
  after_head n text more low high fits =
      advance_moved (waiting (print_head n text ++ b'\r' ∷ b'\n' ∷ more)) _ (
        step_head (waiting (print_head n text ++ b'\r' ∷ b'\n' ∷ more)) (more ++ rest) expect n text
          refl low high fits (append_assoc (print_head n text) (b'\r' ∷ b'\n' ∷ more) rest))

  -- What is told of a single line.
  single :
      (code : SuccessCode) (text : Bytes)
      → is_single code ≡ true
      → IsLine (print_head (SuccessCode.raw code) text)
      → advance plain (waiting (print_head (SuccessCode.raw code) text ++ crlf))
        ≡ some (answered (waiting []) rest (ClientEvent.response (Response.line code text)))
  unfolding on_head try_classify SuccessCode.raw SuccessCode.from_raw
  single SuccessCode.ok text h fits =
      after_head 200 text [] (omega arith) (omega arith) fits ∙ advance_idle _ refl
  single SuccessCode.connected text h fits =
      after_head 201 text [] (omega arith) (omega arith) fits ∙ advance_idle _ refl
  single SuccessCode.disconnecting text h fits =
      after_head 205 text [] (omega arith) (omega arith) fits ∙ advance_idle _ refl
  single SuccessCode.dedicated text h fits =
      after_head 206 text [] (omega arith) (omega arith) fits ∙ advance_idle _ refl
  single _ text h fits = absurd (cc)

  pub exchange :
      (r : Response)
      → IsSendable r
      → (len : Option ℕ) → Expects len r
      → expect ≡ expectation len
      → advance plain (waiting (render r))
        ≡ some (answered (waiting []) rest (ClientEvent.response r))
  unfolding on_head try_classify SuccessCode.from_raw
  exchange (Response.line code text) (fits, one) len fit eq = single code text one fits
  exchange (Response.multiline text lines) (fits, body) len fit eq =
      after_head 202 text (render_body lines) (omega arith) (omega arith) fits
      ∙ advance_body lines text [] rest _ refl body refl
  exchange (Response.binary text body) fits len fit eq =
      let want_body : expect ≡ eager_binary (length body) = cc in
      after_head 203 text body (omega arith) (omega arith) fits
      ∙ ap
          (λ want. advance plain (
            on_head want (success SuccessCode.binary_follows) text
              (record e { state = State.awaiting_head expect; inbox = body ++ rest })))
          want_body
      ∙ advance-binary text body rest _ refl refl
  exchange (Response.send_binary text) fits len fit eq =
      after_head 204 text [] (omega arith) (omega arith) fits ∙ advance_idle _ refl

  pub remote :
      (code : ErrorCode) (n : ℕ) (text : Bytes)
      → ErrorCode.from_raw n ≡ some code
      → IsLine (print_head n text)
      → advance plain (waiting (print_head n text ++ crlf))
        ≡ some (answered (waiting []) rest (ClientEvent.remote_error code text))
  unfolding on_head
  remote code n text known fits =
      after_head n text [] (omega (arith, (error_range n code known).0))
        (omega (arith, (error_range n code known).1)) fits
      ∙ ap
          (λ k.
            advance plain (
              on_head expect k text
                (record e { state = State.awaiting_head expect; inbox = rest })))
          (try_classify-error n code known)
      ∙ advance_idle _ refl

-- The engine with the command line queued.
abbrev pub sent : Bytes → ClientEngine → ClientEngine
sent line e = record e { outbox = (e.outbox ++ line) ++ crlf }

submit_idle :
    (line : Bytes) (len : Option ℕ) (e : ClientEngine)
    → e.state ≡ State.idle
    → (submit line len e).0 ≡ record (sent line e) { state = State.awaiting_head (expectation len) }
unfolding submit
submit_idle line none e at = unfold queue_submit in rw (at, queue_submit, ready) refl
submit_idle line (some n) e at = unfold queue_submit in rw (at, queue_submit, ready) refl

recv_waiting :
    (said line : Bytes) (len : Option ℕ) (e : ClientEngine)
    → e.state ≡ State.idle
    → e.inbox ≡ []
    → recv plain said (submit line len e).0
      ≡ advance plain
          (record (sent line e) { state = State.awaiting_head (expectation len); inbox = said })
recv_waiting said line len e at empty =
    ap (recv plain said) (submit_idle line len e at)
    ∙ (unfold recv in
        ap
          (λ i. advance plain (record (sent line e) {
            state = State.awaiting_head (expectation len);
            inbox = i ++ said;
          }))
          empty)

exchange_plain :
    (r : Response) (rest line : Bytes) (len : Option ℕ) (e : ClientEngine)
    → e.state ≡ State.idle
    → e.inbox ≡ []
    → IsSendable r
    → Expects len r
    → recv plain (render r ++ rest) (submit line len e).0
      ≡ some (answered (sent line e) rest (ClientEvent.response r))
exchange_plain r rest line len e at empty fits expects =
    recv_waiting (render r ++ rest) line len e at empty
    ∙ exchange (sent line e) rest (expectation len) r fits len expects refl

remote_plain :
    (code : ErrorCode) (n : ℕ) (text rest line : Bytes) (len : Option ℕ) (e : ClientEngine)
    → e.state ≡ State.idle
    → e.inbox ≡ []
    → ErrorCode.from_raw n ≡ some code
    → IsLine (print_head n text)
    → recv plain ((print_head n text ++ crlf) ++ rest) (submit line len e).0
      ≡ some (answered (sent line e) rest (ClientEvent.remote_error code text))
remote_plain code n text rest line len e at empty known fits =
    recv_waiting ((print_head n text ++ crlf) ++ rest) line len e at empty
    ∙ remote (sent line e) rest (expectation len) code n text known fits

submit-accepted :
    (line : Bytes) (len : Option ℕ) (e : ClientEngine)
    → e.state ≡ State.idle
    → (submit line len e).1 ≡ ok tt
unfolding submit
submit-accepted line none e at = unfold queue_submit in rw (at, queue_submit, ready) refl
submit-accepted line (some n) e at = unfold queue_submit in rw (at, queue_submit, ready) refl

-- A command submitted to an idle engine with an empty inbox is accepted and queued as its line with
-- CR and LF, and any response that a server may send to it, of whatever shape, is reported as exactly
-- that response, once it is received whole. The engine is idle again, and holds what came after.
-- Events that the caller has not pulled yet are no reason for a refusal, and stay before the answer.
-- The response's texts are lines of UTF-8 with no LF that fit the line limit, no line of a multiline
-- body is a lone dot, and a binary body has the length that was submitted with the command.
pub recv-submit :
    (x : Crates)
    → Documented x
    → (r : Response) (rest line : Bytes) (len : Option ℕ) (e : ClientEngine) → e.state ≡ State.idle
    → e.inbox ≡ []
    → IsSendable r
    → Expects len r
    → ((submit line len e).1 ≡ ok tt)
      × (recv x (render r ++ rest) (submit line len e).0
          ≡ some (answered (sent line e) rest (ClientEvent.response r)))
recv-submit x documented r rest line len e at empty fits expects =
    (submit-accepted line len e at, received x documented r rest line len e at empty fits expects)
  where
    received :
        (x : Crates)
        → Documented x
        → (r : Response) (rest line : Bytes) (len : Option ℕ) (e : ClientEngine)
        → e.state ≡ State.idle
        → e.inbox ≡ []
        → IsSendable r
        → Expects len r
        → recv x (render r ++ rest) (submit line len e).0
          ≡ some (answered (sent line e) rest (ClientEvent.response r))
    received =
        for_all_crates
          (λ x.
            (r : Response) (rest line : Bytes) (len : Option ℕ) (e : ClientEngine)
            → e.state ≡ State.idle
            → e.inbox ≡ []
            → IsSendable r
            → Expects len r
            → recv x (render r ++ rest) (submit line len e).0
              ≡ some (answered (sent line e) rest (ClientEvent.response r)))
          exchange_plain

-- A command submitted to an idle engine with an empty inbox is accepted, and a refusal from 400 to
-- 499 is reported with its code and text whatever the command expected; the engine is idle again, so
-- that the next command can be submitted. Events that the caller has not pulled yet are no reason
-- against it, and stay before the refusal.
pub recv-submit_remote :
    (x : Crates)
    → Documented x
    → (code : ErrorCode) (n : ℕ) (text rest line : Bytes) (len : Option ℕ) (e : ClientEngine)
    → e.state ≡ State.idle
    → e.inbox ≡ []
    → ErrorCode.from_raw n ≡ some code
    → IsLine (print_head n text)
    → ((submit line len e).1 ≡ ok tt)
      × (recv x ((print_head n text ++ crlf) ++ rest) (submit line len e).0
          ≡ some (answered (sent line e) rest (ClientEvent.remote_error code text)))
recv-submit_remote x documented code n text rest line len e at empty known fits = (
  submit-accepted line len e at,
  received x documented code n text rest line len e at empty known fits,
)
  where
    received :
        (x : Crates)
        → Documented x
        → (code : ErrorCode) (n : ℕ) (text rest line : Bytes) (len : Option ℕ) (e : ClientEngine)
        → e.state ≡ State.idle
        → e.inbox ≡ []
        → ErrorCode.from_raw n ≡ some code
        → IsLine (print_head n text)
        → recv x ((print_head n text ++ crlf) ++ rest) (submit line len e).0
          ≡ some (answered (sent line e) rest (ClientEvent.remote_error code text))
    received =
        for_all_crates
          (λ x.
            (code : ErrorCode) (n : ℕ) (text rest line : Bytes) (len : Option ℕ) (e : ClientEngine)
            → e.state ≡ State.idle
            → e.inbox ≡ []
            → ErrorCode.from_raw n ≡ some code
            → IsLine (print_head n text)
            → recv x ((print_head n text ++ crlf) ++ rest) (submit line len e).0
              ≡ some (answered (sent line e) rest (ClientEvent.remote_error code text)))
          remote_plain
