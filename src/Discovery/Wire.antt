-- ===== src/Discovery/Wire.antt =====
-- The name-resolution packets: crates/xeedee/src/discovery/wire.rs. A name is its UTF-8 bytes.
use xeedee.Base.{
  ℕ, zero, suc, ◌+◌, ◌-◌, ◌*◌, ◌/◌, ◌%◌, ◌^◌, ◌≤◌, ◌<◌, min, String, ◌≡◌, refl, sym, ap, ◌∙◌, subst,
  fun_ext, ◌≢◌, ◌↔◌, ◌⊎◌, inl, inr, Bool, true, false, ◌&&◌, ◌||◌, not, Option, none, some, List,
  [], ◌∷◌, ◌++◌, map, append-nil, append_assoc, arith, Bytes, codes, bytes_eq, bytes_eq_refl,
  bytes_eq_sound, Result, ok, err, ok_or, map_err, ltb, leb, ◌==◌, if◌then◌else◌, ltb→lt, lt→ltb,
  leb→le, le→leb, leb_false→lt, ltb_false→le, take-min, drop-min, ==_iff, ==_refl, Bool-cases,
  Option-cases, length, take, drop, get_elem?, any, All, length-append, length-take, length-drop,
  take-append-drop, take_all, drop_all, take_left, drop_left, take-append_le, drop-append_le,
  take-append_ge, drop-append_ge, All-append,
}
use xeedee.Base.Options.{◌>>=◌}
use xeedee.Crates.{Crates, Parser}
use xeedee.Text.Utf8.{is_utf8}
pub mod RoundTrip

abbrev pub nap_port : ℕ
nap_port = 730

abbrev pub max_name_len : ℕ
max_name_len = 254

abbrev pub response_opcode : ℕ
response_opcode = 2

pub data RequestOpcode : Type 0 where
  lookup_name what_is_your_name_opcode : RequestOpcode

pub record NapRequest : Type 0 where
  pub opcode : RequestOpcode
  pub name : Bytes

pub record NapResponse : Type 0 where
  pub name : Bytes

pub data NapError : Type 0 where
  name_too_long name_contains_control_char empty_packet : NapError
  unexpected_opcode truncated : ℕ → ℕ → NapError
  non_utf8_name : NapError

unfoldable pub as_byte : RequestOpcode → ℕ
as_byte lookup_name = 1
as_byte what_is_your_name_opcode = 3

unfoldable pub lookup_request : Bytes → NapRequest
lookup_request name = record { opcode = lookup_name; name = name }

unfoldable pub what_is_your_name : NapRequest
what_is_your_name = record { opcode = what_is_your_name_opcode; name = [] }

abbrev pub is_control : ℕ → Bool
is_control b = (b == 0) || (b == b'\r') || (b == b'\n')

unfoldable pub encode_request : NapRequest → Result NapError Bytes
unfolding as_byte
encode_request request =
    if ltb max_name_len (length request.name)
    then err name_too_long
    else if any is_control request.name
    then err name_contains_control_char
    else ok (as_byte request.opcode ∷ length request.name % 256 ∷ request.name)

unfoldable pub classify_parse_failure : Bytes → NapError
classify_parse_failure [] = empty_packet
classify_parse_failure (op ∷ []) =
    if op == response_opcode then truncated 0 0 else unexpected_opcode response_opcode op
classify_parse_failure (op ∷ expected ∷ raw) =
    if not (op == response_opcode)
    then unexpected_opcode response_opcode op
    else if ltb (length raw) expected
    then truncated expected (length raw)
    else non_utf8_name

module _ (x : Crates) where
  unfoldable pub parser_response : Parser NapResponse
  parser_response s = do
    (_, s1) ← x.verify ℕ (λ b. b == response_opcode) x.next s
    (namelen, s2) ← x.next s1
    (raw, s3) ← x.take_n namelen s2
    if is_utf8 raw then some (record { name = raw }, s3) else none

  unfoldable pub parse_response : Bytes → Result NapError NapResponse
  unfolding parser_response
  parse_response packet = elim (parser_response packet) [
    | some (response, _) ↦ ok response
    | none ↦ err (classify_parse_failure packet)
  ]
