-- ===== src/Client/Engine/Lines.antt =====
-- A line that a server wrote is taken off the inbox (crates/xeedee/src/client/engine.rs).
use xeedee.Base.{
  ℕ, suc, ◌+◌, ◌≤◌, ◌≡◌, refl, ap, ◌∙◌, ◌≢◌, true, Option, some, List, [], ◌∷◌, ◌++◌, arith, Bytes,
  Result, ok, length, drop, get_elem?, All, take_left,
}
use xeedee.Crates.{plain, find_index}
use xeedee.Client.Engine.{
  State, ClientEngine, HeadExpect, max_line_len, line_end, on_head, on_body_line, Progress, moved,
}
use xeedee.Client.Engine.Quiescence.{step_at}
use xeedee.Protocol.Error.{Error}
use xeedee.Client.Engine.Steps.{taken, with_head, try_take_line, step_line, step_in, step}
use xeedee.Protocol.Head.{ResponseHead}
use xeedee.Protocol.Head.Printed.{print_head, parse-print_head}
use xeedee.Protocol.StatusCode.{try_classify}
use xeedee.Text.Utf8.{is_utf8}

abbrev pub crlf : Bytes
crlf = b'\r' ∷ b'\n' ∷ []

-- What a server may send as a line, in front of its CR and LF.
pub record IsLine (line : Bytes) : Type 0 where
  pub lacks_lf : All (λ c. c ≢ b'\n') line
  pub utf8 : is_utf8 line ≡ true
  pub short : length line ≤ max_line_len

find_index_cr :
    (line rest : Bytes)
    → All (λ c. c ≢ b'\n') line
    → find_index b'\n' (line ++ b'\r' ∷ b'\n' ∷ rest) ≡ some (suc (length line))
find_index_cr [] rest h = refl
find_index_cr (c ∷ line) rest (hc, h) = ground (arith, find_index_cr line rest h)

get_elem?_cr : (line rest : Bytes) → get_elem? (line ++ b'\r' ∷ rest) (length line) ≡ some b'\r'
get_elem?_cr [] rest = refl
get_elem?_cr (c ∷ line) rest = get_elem?_cr line rest

line_end_cr :
    (line rest : Bytes) → line_end (suc (length line)) (line ++ b'\r' ∷ rest) ≡ length line
unfolding line_end
line_end_cr line rest = rw (get_elem?_cr line rest, line_end) refl

drop_crlf : (line rest : Bytes) → drop (suc (length line) + 1) (line ++ b'\r' ∷ b'\n' ∷ rest) ≡ rest
drop_crlf [] rest = refl
drop_crlf (c ∷ line) rest =
    ap (λ (k : ℕ). drop k ((c ∷ line) ++ b'\r' ∷ b'\n' ∷ rest)) (shift (length line))
    ∙ drop_crlf line rest
  where
    shift : (n : ℕ) → suc (suc n) + 1 ≡ suc (suc n + 1)
    shift n = omega arith

pub take_line :
    (line rest : Bytes) (e : ClientEngine)
    → IsLine line
    → e.inbox ≡ line ++ b'\r' ∷ b'\n' ∷ rest
    → try_take_line plain e ≡ taken line (record e { inbox = rest })
unfolding try_take_line plain
take_line line rest e fits has = ground (
  arith,
  find_index_cr line rest fits.lacks_lf,
  line_end_cr line (b'\n' ∷ rest),
  take_left line (b'\r' ∷ b'\n' ∷ rest),
  drop_crlf line rest,
)

step_line_taken :
    (k : Bytes → ClientEngine → Progress) (e m : ClientEngine) (line : Bytes)
    → try_take_line plain e ≡ taken line m
    → step_line plain k e ≡ k line m
unfolding step_line
step_line_taken k e m line h = rw (h, step_line) refl

with_parsed :
    (o : Option (Result Error ResponseHead)) (k : ResponseHead → ClientEngine → ClientEngine)
    (h : ResponseHead) (e : ClientEngine)
    → o ≡ some (ok h)
    → with_head o k e ≡ moved (k h e)
unfolding with_head
with_parsed o k h e p = rw (p, with_head) refl

module _ (e : ClientEngine) (rest : Bytes) where
  -- The step that reads a head.
  pub step_head :
      (expect : HeadExpect) (n : ℕ) (text : Bytes)
      → e.state ≡ State.awaiting_head expect
      → 100 ≤ n
      → n ≤ 999
      → IsLine (print_head n text)
      → e.inbox ≡ print_head n text ++ b'\r' ∷ b'\n' ∷ rest
      → step plain e
        ≡ moved
            (on_head expect (try_classify (record { raw = n })) text (record e { inbox = rest }))
  unfolding step_in
  step_head expect n text at low high fits has = step_at e (State.awaiting_head expect) _ at (
      step_line_taken _ e (record e { inbox = rest }) (print_head n text)
        (take_line (print_head n text) rest e fits has)
      ∙ with_parsed _ _ _ _ (parse-print_head n text low high))

  -- The step that reads a line of a multiline body.
  pub step_body_line :
      (head : Bytes) (lines : List Bytes) (line : Bytes)
      → e.state ≡ State.reading_multiline head lines
      → IsLine line
      → e.inbox ≡ line ++ b'\r' ∷ b'\n' ∷ rest
      → step plain e ≡ moved (on_body_line head lines line (record e { inbox = rest }))
  unfolding step_in
  step_body_line head lines line at fits has =
      step_at e (State.reading_multiline head lines) _ at
        (step_line_taken _ e (record e { inbox = rest }) line (take_line line rest e fits has))
