-- ===== src/Protocol/Kv.antt =====
-- Response lines of keys and values: crates/xeedee/src/commands/kv.rs.
use xeedee.Base.{
  ℕ, Bool, Option, none, some, List, [], ◌∷◌, Bytes, Result, ok, err, ok_or, ◌==◌, if◌then◌else◌,
  length, any,
}
use xeedee.Crates.{Crates}
use xeedee.Protocol.Error.{
  ParseError, missing_key, invalid_hex_digits, invalid_decimal_u32, invalid_decimal_u64,
  missing_quadword_prefix, quadword_wrong_length, invalid_quadword_hex, unrecognized_shape,
}
use xeedee.Protocol.Tokens.{KvValue, as_str, kv_tokens}
use xeedee.Text.Ascii.{eq_ignore_case, strip_prefix}
use xeedee.Text.Number.{from_radix, max_u32, max_u64}

pub record KvLine : Type 0 where
  pub pairs : List (Bytes × KvValue)
  pub flags : List Bytes

-- `.iter().find(…)` and `.map(…)`
unfoldable pub find_value : Bytes → List (Bytes × KvValue) → Option KvValue
find_value key [] = none
find_value key ((k, v) ∷ pairs) =
    let later = find_value key pairs in if eq_ignore_case k key then some v else later

unfoldable pub get : Bytes → KvLine → Option KvValue
unfolding find_value
get key line = find_value key line.pairs

unfoldable pub require : Bytes → KvLine → Result ParseError KvValue
unfolding get
require key line = ok_or (get key line) (missing_key key)

unfoldable pub has_flag : Bytes → KvLine → Bool
has_flag name line = any (λ f. eq_ignore_case f name) line.flags

-- `run_parse`
abbrev pub run_parse {ℓ} : {A : Type ℓ} → Option (A × Bytes) → ParseError → Result ParseError A
run_parse none on_fail = err on_fail
run_parse (some (a, _)) on_fail = ok a

unfoldable pub parse_kv_line : Crates → Bytes → KvLine
unfolding kv_tokens
parse_kv_line x line = elim (run_parse (kv_tokens x line) unrecognized_shape) [
  | ok tokens ↦ record { pairs = tokens.pairs; flags = tokens.flags }
  | err _ ↦ record { pairs = []; flags = [] }
]

-- `strip_prefix(a).or_else(|| strip_prefix(b))`
abbrev pub strip_either : ℕ → ℕ → ℕ → Bytes → Option Bytes
strip_either zero_char low high s = elim (strip_prefix zero_char low s) [
  | some t ↦ some t
  | none ↦ strip_prefix zero_char high s
]

unfoldable pub value_unsigned : ℕ → (Bytes → ParseError) → KvValue → Bytes → Result ParseError ℕ
unfolding as_str
value_unsigned most bad_decimal value key = elim (strip_either b'0' b'x' b'X' (as_str value)) [
  | some stripped ↦ ok_or (from_radix 16 most stripped) (invalid_hex_digits key)
  | none ↦ ok_or (from_radix 10 most (as_str value)) (bad_decimal key)
]

unfoldable pub value_u32 : KvValue → Bytes → Result ParseError ℕ
unfolding value_unsigned
value_u32 = value_unsigned max_u32 invalid_decimal_u32

unfoldable pub value_u64 : KvValue → Bytes → Result ParseError ℕ
unfolding value_unsigned
value_u64 = value_unsigned max_u64 invalid_decimal_u64

unfoldable pub value_qword : KvValue → Bytes → Result ParseError ℕ
unfolding as_str
value_qword value key = elim (strip_either b'0' b'q' b'Q' (as_str value)) [
  | none ↦ err (missing_quadword_prefix key)
  | some stripped ↦
      if length stripped == 16
      then ok_or (from_radix 16 max_u64 stripped) (invalid_quadword_hex key)
      else err (quadword_wrong_length key)
]
