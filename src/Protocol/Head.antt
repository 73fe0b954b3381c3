-- ===== src/Protocol/Head.antt =====
-- Response heads: `three_digit_code`, `response_head` and `run_framing` of
-- crates/xeedee/src/protocol/parse.rs, `parse_status` of status.rs, `parse_response_head` of
-- response.rs. The outer `none` of the last two is a panic.
pub mod Printed
use xeedee.Base.{
  ℕ, Bool, ◌||◌, Option, none, some, [], ◌∷◌, Bytes, Result, ok, err, ok_or, codes, length, take,
  get_elem?, ltb, leb, ◌==◌, if◌then◌else◌,
}
use xeedee.Base.Options.{◌>>=◌}
use xeedee.Crates.{Crates, Parser}
use xeedee.Protocol.Error.{
  FramingError, head_too_short, non_digit_in_status, status_out_of_range, trailing_garbage_in_head,
  Error, framing,
}
use xeedee.Protocol.StatusCode
use xeedee.Protocol.StatusCode.{StatusCode}
use xeedee.Text.Number.{from_radix, max_u16}

pub record ResponseHead : Type 0 where
  pub code : StatusCode
  pub rest : Bytes

-- `str::is_char_boundary`
abbrev pub is_char_boundary : ℕ → Bytes → Bool
is_char_boundary n s = elim (get_elem? s n) [
  | none ↦ n == length s
  | some b ↦ ltb b 0x80 || leb 0xc0 b
]

-- `&s[..n]`, which panics inside a character
abbrev pub slice_to : ℕ → Bytes → Option Bytes
slice_to n s = if is_char_boundary n s then some (take n s) else none

abbrev pub run_framing {ℓ} :
    {A : Type ℓ} → Option (A × Bytes) → FramingError → Result FramingError A
run_framing none on_fail = err on_fail
run_framing (some (a, _)) on_fail = ok a

module _ (x : Crates) where
  unfoldable pub three_digit_code : Parser ℕ
  unfolding from_radix
  three_digit_code =
      x.try_map Bytes ℕ (from_radix 10 max_u16) (x.verify Bytes (λ s. length s == 3) x.digit1)

  unfoldable pub response_head : Parser (ℕ × Bytes)
  unfolding three_digit_code
  response_head s = do
    (code, s1) ← three_digit_code s
    (_, s2) ←
        x.opt Bytes
          (x.alt Bytes
            (x.literal (codes "- ") ∷ x.literal (codes "-") ∷ x.literal (codes " ") ∷ []))
          s1
    (tail, s3) ← x.rest s2
    some ((code, tail), s3)

  unfoldable pub parse_status : Bytes → Option (Result FramingError StatusCode)
  unfolding three_digit_code StatusCode.new
  parse_status text = if ltb (length text) 3 then some (err head_too_short) else do
    digits ← slice_to 3 text
    some (elim (run_framing (three_digit_code digits) non_digit_in_status) [
      | err e ↦ err e
      | ok code ↦ ok_or (StatusCode.new code) status_out_of_range
    ])

  unfoldable pub parse_response_head : Bytes → Option (Result Error ResponseHead)
  unfolding parse_status response_head StatusCode.new
  parse_response_head line = do
    status ← parse_status line
    some (elim status [
      | err e ↦ err (framing e)
      | ok _ ↦ elim (run_framing (response_head line) trailing_garbage_in_head) [
        | err e ↦ err (framing e)
        | ok (code, rest) ↦ elim (StatusCode.new code) [
          | none ↦ err (framing status_out_of_range)
          | some c ↦ ok (record { code = c; rest = rest })
        ]
      ]
    ])
