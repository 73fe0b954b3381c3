-- ===== src/Transport/Capture.antt =====
-- The capture log: crates/xeedee/src/transport/capture.rs. A text is its UTF-8 bytes.
use xeedee.Base.{
  ℕ, zero, suc, ◌+◌, ◌-◌, ◌*◌, ◌/◌, ◌%◌, ◌^◌, ◌≤◌, ◌<◌, min, String, ◌≡◌, refl, sym, ap, ◌∙◌, subst,
  fun_ext, ◌≢◌, ◌↔◌, ◌⊎◌, inl, inr, Bool, true, false, ◌&&◌, ◌||◌, not, Option, none, some, List,
  [], ◌∷◌, ◌++◌, map, append-nil, append_assoc, arith, Bytes, codes, bytes_eq, bytes_eq_refl,
  bytes_eq_sound, Result, ok, err, ok_or, map_err, ltb, leb, ◌==◌, if◌then◌else◌, ltb→lt, lt→ltb,
  leb→le, le→leb, leb_false→lt, ltb_false→le, take-min, drop-min, ==_iff, ==_refl, Bool-cases,
  Option-cases, length, take, drop, get_elem?, any, All, length-append, length-take, length-drop,
  take-append-drop, take_all, drop_all, take_left, drop_left, take-append_le, drop-append_le,
  take-append_ge, drop-append_ge, All-append,
}
use xeedee.Base.Options.{◌>>=◌}
use xeedee.Text.Number.{from_radix, print_hex, max_u8}
use xeedee.Text.Utf8.{is_utf8}
pub mod Escapes
pub mod Lines
pub mod Pushes
pub mod RoundTrip

pub data Direction : Type 0 where
  server_to_client client_to_server : Direction

unfoldable pub direction_eq : Direction → Direction → Bool
direction_eq server_to_client server_to_client = true
direction_eq client_to_server client_to_server = true
direction_eq _ _ = false

unfoldable pub tag : Direction → Bytes
tag server_to_client = codes "S>"
tag client_to_server = codes "C>"

unfoldable pub from_tag : Bytes → Option Direction
from_tag s =
    if bytes_eq s (codes "S>")
    then some server_to_client
    else if bytes_eq s (codes "C>")
    then some client_to_server
    else none

pub record CaptureEntry : Type 0 where
  pub direction : Direction
  pub data_bytes : Bytes

pub record CaptureLog : Type 0 where
  pub entries : List CaptureEntry

abbrev pub empty_log : CaptureLog
empty_log = record { entries = [] }

pub data CaptureParseError : Type 0 where
  missing_tag unknown_tag bad_escape : ℕ → CaptureParseError

-- Bytes are added to the last entry if it goes the same way, else as an entry of their own.
unfoldable pub merge : Direction → Bytes → List CaptureEntry → List CaptureEntry
unfolding direction_eq
merge direction bytes [] = record { direction = direction; data_bytes = bytes } ∷ []
merge direction bytes (e ∷ []) =
    if direction_eq e.direction direction
    then record e { data_bytes = e.data_bytes ++ bytes } ∷ []
    else e ∷ record { direction = direction; data_bytes = bytes } ∷ []
merge direction bytes (e ∷ f ∷ entries) = e ∷ merge direction bytes (f ∷ entries)

unfoldable pub push : Direction → Bytes → CaptureLog → CaptureLog
unfolding merge
push direction [] log = log
push direction (c ∷ s) log = record { entries = merge direction (c ∷ s) log.entries }

unfoldable pub escape_byte : ℕ → Bytes
unfolding print_hex
escape_byte b =
    if b == b'\\'
    then b'\\' ∷ b'\\' ∷ []
    else if b == b'\r'
    then b'\\' ∷ b'r' ∷ []
    else if b == b'\n'
    then b'\\' ∷ b'n' ∷ []
    else if b == b'\t'
    then b'\\' ∷ b't' ∷ []
    else if leb 0x20 b && leb b 0x7e
    then b ∷ []
    else b'\\' ∷ b'x' ∷ print_hex 2 b

unfoldable pub escape : Bytes → Bytes
unfolding escape_byte
escape [] = []
escape (b ∷ s) = escape_byte b ++ escape s

-- The two bytes behind `\x`.
unfoldable pub hex_byte : Bytes → Option ℕ
unfolding from_radix
hex_byte s = if is_utf8 s then from_radix 16 max_u8 s else none

-- What an escape of one letter stands for.
unfoldable pub letter : ℕ → Option ℕ
letter d =
    if d == b'\\'
    then some b'\\'
    else if d == b'r'
    then some b'\r'
    else if d == b'n'
    then some b'\n'
    else if d == b't'
    then some b'\t'
    else none

-- The byte that an escape stands for, and what is behind it.
unfoldable pub unescape_one : Bytes → Option (ℕ × Bytes)
unfolding hex_byte letter
unescape_one [] = none
unescape_one (d ∷ s) = elim (letter d) [
  | some b ↦ some (b, s)
  | none ↦
      if (d == b'x') && not (ltb (length s) 2)
      then (hex_byte (take 2 s) >>= λ b. some (b, drop 2 s))
      else none
]

-- Each round reads a byte, so a fuel above the length is enough.
unfoldable pub unescape_loop : ℕ → Bytes → Bytes → Option Bytes
unfolding unescape_one
unescape_loop zero s out = none
unescape_loop (suc fuel) [] out = some out
unescape_loop (suc fuel) (c ∷ s) out = elim (c == b'\\') [
  | false ↦ unescape_loop fuel s (out ++ c ∷ [])
  | true ↦ elim (unescape_one s) [
    | none ↦ none
    | some (b, t) ↦ unescape_loop fuel t (out ++ b ∷ [])
  ]
]

unfoldable pub unescape : Bytes → Option Bytes
unfolding unescape_loop
unescape s = unescape_loop (suc (length s)) s []

back_and_forth :
    unescape (escape (0 ∷ b'a' ∷ 13 ∷ 10 ∷ 255 ∷ [])) ≡ some (0 ∷ b'a' ∷ 13 ∷ 10 ∷ 255 ∷ [])
unfolding unescape escape is_utf8
back_and_forth = refl
