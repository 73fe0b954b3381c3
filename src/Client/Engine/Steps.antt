-- ===== src/Client/Engine/Steps.antt =====
-- One transition of the engine and the loop over it: `try_take_line`, `step` and `advance` of
-- crates/xeedee/src/client/engine.rs.
use xeedee.Base.{
  ℕ, zero, suc, ◌+◌, ◌*◌, Option, none, some, Bytes, Result, ok, err, length, take, drop, ltb,
  if◌then◌else◌,
}
use xeedee.Crates.{Crates}
use xeedee.Client.Engine.{
  State, ClientEngine, max_line_len, fail, line_end, on_head, on_banner, on_body_line, step_binary,
  Progress, moved, stuck, panicked,
}
use xeedee.Protocol.Error.{Error, framing, line_too_long, non_utf8_line}
use xeedee.Protocol.Head.{ResponseHead, parse_response_head}
use xeedee.Protocol.StatusCode.{try_classify}
use xeedee.Text.Utf8.{is_utf8}

-- `None` of `try_take_line` leaves a failed engine, or an unchanged one that waits for more.
pub data TakenLine : Type 0 where
  no_line : ClientEngine → TakenLine
  taken : Bytes → ClientEngine → TakenLine

-- What is done with the head of a line that was read.
unfoldable pub with_head :
    Option (Result Error ResponseHead)
    → (ResponseHead → ClientEngine → ClientEngine)
    → ClientEngine
    → Progress
with_head none k e = panicked
with_head (some (err cause)) k e = moved (fail cause e)
with_head (some (ok head)) k e = moved (k head e)

-- Fuel for the loop over `step`.
abbrev pub enough : ClientEngine → ℕ
enough e = suc (suc (2 * length e.inbox))

module _ (x : Crates) where
  unfoldable pub take_line_at : ℕ → ClientEngine → TakenLine
  unfolding line_end fail
  take_line_at pos e =
      let end = line_end pos e.inbox in
      if ltb max_line_len end
      then no_line (fail (framing line_too_long) e)
      else let rest = record e { inbox = drop (pos + 1) e.inbox } in
        if is_utf8 (take end e.inbox)
        then taken (take end e.inbox) rest
        else no_line (fail (framing non_utf8_line) rest)

  unfoldable pub try_take_line : ClientEngine → TakenLine
  unfolding take_line_at fail
  try_take_line e = elim (x.memchr b'\n' e.inbox) [
    | none ↦
        no_line (if ltb max_line_len (length e.inbox) then fail (framing line_too_long) e else e)
    | some pos ↦ take_line_at pos e
  ]

  unfoldable pub step_line : (Bytes → ClientEngine → Progress) → ClientEngine → Progress
  unfolding try_take_line
  step_line k e = elim (try_take_line e) [ no_line e' ↦ stuck e' | taken line e' ↦ k line e' ]

  unfoldable pub step_in : State → ClientEngine → Progress
  unfolding step_line with_head on_head on_banner on_body_line step_binary
  step_in State.need_banner e =
      step_line
        (λ line e'.
          with_head (parse_response_head x line) (λ head. on_banner (try_classify head.code)) e')
        e
  step_in (State.awaiting_head expect) e =
      step_line
        (λ line e'.
          with_head (parse_response_head x line)
            (λ head. on_head expect (try_classify head.code) head.rest) e')
        e
  step_in (State.reading_multiline head lines) e =
      step_line (λ line e'. moved (on_body_line head lines line e')) e
  step_in (State.reading_binary head remaining body) e = step_binary head remaining body e
  step_in _ e = stuck e

  unfoldable pub step : ClientEngine → Progress
  unfolding step_in
  step e = step_in e.state e

  -- `while self.step() {}`: each round but a last one reads from the inbox.
  unfoldable pub advance_loop : ℕ → ClientEngine → Option ClientEngine
  advance_loop zero e = some e
  advance_loop (suc fuel) e = elim (step e) [
    | moved e' ↦ advance_loop fuel e'
    | stuck e' ↦ some e'
    | panicked ↦ none
  ]

  unfoldable pub advance : ClientEngine → Option ClientEngine
  unfolding advance_loop step
  advance e = advance_loop (enough e) e
