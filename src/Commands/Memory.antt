-- ===== src/Commands/Memory.antt =====
-- Reading and writing memory, and the map of it: crates/xeedee/src/commands/memory.rs.
pub mod Decode
pub mod Encode
use xeedee.Base.{
  ℕ, zero, suc, ◌+◌, ◌-◌, ◌*◌, ◌/◌, ◌%◌, ◌^◌, ◌≤◌, ◌<◌, min, max, String, ◌≡◌, refl, sym, ap, ◌∙◌,
  subst, fun_ext, ◌≢◌, ◌↔◌, ◌⊎◌, inl, inr, Bool, true, false, ◌&&◌, ◌||◌, not, Option, none, some,
  List, [], ◌∷◌, ◌++◌, map, append-nil, append_assoc, arith, Bytes, codes, bytes_eq, bytes_eq_refl,
  bytes_eq_sound, Result, ok, err, ok_or, map_err, ltb, leb, ◌==◌, if◌then◌else◌, ltb→lt, lt→ltb,
  leb→le, le→leb, leb_false→lt, ltb_false→le, take-min, drop-min, ==_iff, ==_refl, Bool-cases,
  Option-cases, length, take, drop, get_elem?, any, All, length-append, length-take, length-drop,
  take-append-drop, take_all, drop_all, take_left, drop_left, take-append_le, drop-append_le,
  take-append_ge, drop-append_ge, All-append,
}
use xeedee.Base.Results.{◌>>=◌}
use xeedee.Crates.{Crates}
use xeedee.Protocol.Args
use xeedee.Protocol.Args.{hex32, finish}
use xeedee.Protocol.Command.{Command, simple, line_body, multiline_body}
use xeedee.Protocol.Error.{
  Error, argument, parse, ParseError, invalid_hex_digits, invalid_decimal_u32, empty_filename,
}
use xeedee.Protocol.Kv.{KvLine, require, parse_kv_line, value_u32}
use xeedee.Protocol.Response.{Response, expect_ok, expect_multiline}
use xeedee.Text.Ascii.{is_whitespace}
use xeedee.Text.Number.{from_radix, print_hex, max_u8, max_u32}
use xeedee.Text.Utf8.{is_utf8}

unfoldable pub require_u32 : KvLine → Bytes → Result ParseError ℕ
unfolding require value_u32
require_u32 kv key = do value ← require key kv; value_u32 value key

-- Two hexadecimal digits.
unfoldable pub hex_pair : Bytes → Option ℕ
unfolding from_radix
hex_pair pair = if is_utf8 pair then from_radix 16 max_u8 pair else none

abbrev pub bad_hex : ParseError
bad_hex = invalid_hex_digits (codes "memory-hex")

-- `chunks(2)`; a last chunk may be shorter.
unfoldable pub hex_chunks : Bytes → Bytes → Result ParseError Bytes
unfolding hex_pair
hex_chunks [] out = ok out
hex_chunks (a ∷ []) out = elim (hex_pair (a ∷ [])) [
  | none ↦ err bad_hex
  | some v ↦ ok (out ++ v ∷ [])
]
hex_chunks (a ∷ b ∷ s) out = elim (hex_pair (a ∷ b ∷ [])) [
  | none ↦ err bad_hex
  | some v ↦ hex_chunks s (out ++ v ∷ [])
]

unfoldable pub hex_string_to_bytes : Bytes → Result ParseError Bytes
unfolding hex_chunks
hex_string_to_bytes s = if length s % 2 == 0 then hex_chunks s [] else err bad_hex

pub record MemorySnapshot : Type 0 where
  pub address : ℕ
  pub bytes : Bytes
  pub unmapped_offsets : List ℕ

-- The bytes read so far, and the offsets of those that are not mapped.
pub record Dump : Type 0 where
  pub bytes : Bytes
  pub unmapped : List ℕ

abbrev pub push_byte : ℕ → Dump → Dump
push_byte v d = record d { bytes = d.bytes ++ v ∷ [] }

-- `unmapped.push(data.len() as u32); data.push(0)`
abbrev pub push_unmapped : Dump → Dump
push_unmapped d = record {
  bytes = d.bytes ++ 0 ∷ [];
  unmapped = d.unmapped ++ (length d.bytes % 2 ^ 32) ∷ [];
}

unfoldable pub dump_chunks : Bytes → Dump → Result ParseError Dump
unfolding hex_pair
dump_chunks [] d = ok d
dump_chunks (a ∷ []) d = elim (hex_pair (a ∷ [])) [
  | none ↦ err bad_hex
  | some v ↦ ok (push_byte v d)
]
dump_chunks (a ∷ b ∷ s) d = elim (bytes_eq (a ∷ b ∷ []) (codes "??")) [
  | true ↦ dump_chunks s (push_unmapped d)
  | false ↦ elim (hex_pair (a ∷ b ∷ [])) [
    | none ↦ err bad_hex
    | some v ↦ dump_chunks s (push_byte v d)
  ]
]

unfoldable pub dump_line : Bytes → Dump → Result ParseError Dump
unfolding dump_chunks
dump_line line d = if length line % 2 == 0 then dump_chunks line d else err bad_hex

unfoldable pub dump_lines : List Bytes → Dump → Result ParseError Dump
unfolding dump_line
dump_lines [] d = ok d
dump_lines (line ∷ lines) d = do d' ← dump_line line d; dump_lines lines d'

abbrev pub no_dump : Dump
no_dump = record { bytes = []; unmapped = [] }

unfoldable pub get_mem_parse : ℕ → Response → Result Error MemorySnapshot
unfolding expect_multiline dump_lines
get_mem_parse address response = do
  lines ← expect_multiline response
  d ← map_err parse (dump_lines lines no_dump)
  ok (record { address = address; bytes = d.bytes; unmapped_offsets = d.unmapped })

unfoldable pub get_mem_line : ℕ → ℕ → Result Error Bytes
unfolding Args.new hex32 finish
get_mem_line address len =
    if len == 0
    then err (argument empty_filename)
    else ok (
        finish
          (hex32 (codes "LENGTH") len (hex32 (codes "ADDR") address (Args.new (codes "getmem")))))

unfoldable pub get_mem : ℕ → ℕ → Command MemorySnapshot
unfolding get_mem_line get_mem_parse
get_mem address len = simple (get_mem_line address len) multiline_body (get_mem_parse address)

-- `{:02X}`
unfoldable pub upper_char : ℕ → ℕ
upper_char d = if ltb d 10 then b'0' + d else 55 + d

unfoldable pub upper_hex : Bytes → Bytes
unfolding upper_char
upper_hex [] = []
upper_hex (b ∷ s) = upper_char (b / 16 % 16) ∷ upper_char (b % 16) ∷ upper_hex s

pub record BytesWritten : Type 0 where
  pub requested : ℕ
  pub written : ℕ

unfoldable pub set_mem_line : ℕ → Bytes → Result Error Bytes
unfolding upper_hex
set_mem_line address [] = err (argument empty_filename)
set_mem_line address (b ∷ s) =
    ok (codes "setmem addr=0x" ++ (print_hex 8 address ++ (codes " data=" ++ upper_hex (b ∷ s))))

-- `split_ascii_whitespace`, the word that is being read in front
unfoldable pub words_from : Bytes → Bytes → List Bytes
unfolding is_whitespace
words_from [] [] = []
words_from (b ∷ word) [] = (b ∷ word) ∷ []
words_from word (c ∷ s) = elim (is_whitespace c) [
  | false ↦ words_from (word ++ c ∷ []) s
  | true ↦ elim word [ [] ↦ words_from [] s | b ∷ w ↦ (b ∷ w) ∷ words_from [] s ]
]

-- `find_map(|token| token.parse::<u32>().ok())`
unfoldable pub first_number : List Bytes → Option ℕ
unfolding from_radix
first_number [] = none
first_number (token ∷ tokens) =
    let later = first_number tokens in
    elim (from_radix 10 max_u32 token) [ some n ↦ some n | none ↦ later ]

unfoldable pub set_mem_parse : Bytes → Response → Result Error BytesWritten
unfolding expect_ok words_from first_number
set_mem_parse payload response = do
  head ← expect_ok response
  written ←
      ok_or (first_number (words_from [] head)) (parse (invalid_decimal_u32 (codes "setmem-count")))
  ok (record { requested = length payload % 2 ^ 32; written = written })

unfoldable pub set_mem : ℕ → Bytes → Command BytesWritten
unfolding set_mem_line set_mem_parse
set_mem address payload = simple (set_mem_line address payload) line_body (set_mem_parse payload)

pub record VirtualRegion : Type 0 where
  pub base : ℕ
  pub size : ℕ
  pub protect : ℕ

unfoldable pub region : Crates → Bytes → Result ParseError VirtualRegion
unfolding require_u32 parse_kv_line
region x line = do
  let kv = parse_kv_line x line
  base ← require_u32 kv (codes "base")
  size ← require_u32 kv (codes "size")
  protect ← require_u32 kv (codes "protect")
  ok (record { base = base; size = size; protect = protect })

unfoldable pub regions :
    Crates → List Bytes → List VirtualRegion → Result ParseError (List VirtualRegion)
unfolding region
regions x [] out = ok out
regions x (line ∷ lines) out = do r ← region x line; regions x lines (out ++ r ∷ [])

unfoldable pub walk_mem_parse : Crates → Response → Result Error (List VirtualRegion)
unfolding expect_multiline regions
walk_mem_parse x response = do lines ← expect_multiline response; map_err parse (regions x lines [])

unfoldable pub walk_mem : Crates → Command (List VirtualRegion)
unfolding walk_mem_parse
walk_mem x = simple (ok (codes "walkmem")) multiline_body (walk_mem_parse x)
