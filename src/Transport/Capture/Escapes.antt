-- ===== src/Transport/Capture/Escapes.antt =====
-- Escaped bytes are read back (crates/xeedee/src/transport/capture.rs).
use xeedee.Base.{
  ℕ, zero, suc, ◌/◌, ◌%◌, ◌≤◌, ◌<◌, ◌≡◌, refl, sym, ap, ◌∙◌, inl, inr, false, ◌&&◌, some, [], ◌∷◌,
  ◌++◌, append-nil, append_assoc, arith, Bytes, leb, ◌==◌, Bool-cases, length, All, length-append,
}
use xeedee.Text.Number.{digit_char, print_hex, max_u8}
use xeedee.Text.Number.RoundTrip.{from_radix-print_hex}
use xeedee.Text.Utf8.{IsAscii, IsAscii-is_utf8}
use xeedee.Transport.Capture.{
  escape_byte, escape, hex_byte, letter, unescape_one, unescape_loop, unescape,
}

IsByte : ℕ → Type 0
IsByte b = b < 256

abbrev pub IsBytes : Bytes → Type 0
IsBytes = All (λ b. b < 256)

small_digit : (d : ℕ) → d < 16 → digit_char d < 128
unfolding digit_char
small_digit d h = ground arith

hex-IsAscii : (b : ℕ) → IsAscii (print_hex 2 b)
unfolding print_hex
hex-IsAscii b = (small_digit (b / 16 % 16) (omega arith), (small_digit (b % 16) (omega arith), tt))

hex_read : (b : ℕ) → b < 256 → hex_byte (print_hex 2 b) ≡ some b
unfolding hex_byte
hex_read b h =
    rw (IsAscii-is_utf8 (print_hex 2 b) (hex-IsAscii b))
      (from_radix-print_hex 2 max_u8 b (omega arith) (omega arith) (omega arith))

-- How a byte is written.
data Escaped (b : ℕ) : Bytes → Type 0 where
  lettered : (d : ℕ) → letter d ≡ some b → Escaped b (b'\\' ∷ d ∷ [])
  shown : (b == b'\\') ≡ false → Escaped b (b ∷ [])
  in_hex : Escaped b (b'\\' ∷ b'x' ∷ print_hex 2 b)

escape_byte-Escaped : (b : ℕ) → Escaped b (escape_byte b)
unfolding escape_byte letter
escape_byte-Escaped b = elim (Bool-cases (b == b'\\')) [
  | inl same ↦ rw (same, escape_byte) (lettered b'\\' (ground arith))
  | inr not_slash ↦ elim (Bool-cases (b == b'\r')) [
    | inl same ↦ rw (not_slash, escape_byte) (rw (same) (lettered b'r' (ground arith)))
    | inr not_cr ↦ elim (Bool-cases (b == b'\n')) [
      | inl same ↦
          rw (not_slash, escape_byte) (rw (not_cr) (rw (same) (lettered b'n' (ground arith))))
      | inr not_lf ↦ elim (Bool-cases (b == b'\t')) [
        | inl same ↦
            rw (not_slash, escape_byte)
              (rw (not_cr) (rw (not_lf) (rw (same) (lettered b't' (ground arith)))))
        | inr not_tab ↦
            rw (not_slash, escape_byte)
              (rw (not_cr) (
                rw (not_lf) (
                  rw (not_tab) (elim (Bool-cases (leb 0x20 b && leb b 0x7e)) [
                    | inl print_it ↦ rw (print_it) (shown not_slash)
                    | inr other ↦ rw (other) in_hex
                  ]))))
      ]
    ]
  ]
]

escape_read :
    (fuel b : ℕ) (text rest out : Bytes)
    → unescape_one text ≡ some (b, rest)
    → unescape_loop (suc fuel) (b'\\' ∷ text) out ≡ unescape_loop fuel rest (out ++ b ∷ [])
unfolding unescape_loop
escape_read fuel b text rest out h = rw (h, unescape_loop) refl

letter_read :
    (b d : ℕ) (rest : Bytes) → letter d ≡ some b → unescape_one (d ∷ rest) ≡ some (b, rest)
unfolding unescape_one
letter_read b d rest h = rw (h, unescape_one) refl

two_read :
    (b h l : ℕ) (rest : Bytes)
    → hex_byte (h ∷ l ∷ []) ≡ some b
    → unescape_one (b'x' ∷ h ∷ l ∷ rest) ≡ some (b, rest)
unfolding unescape_one letter
two_read b h l rest e = ground (arith, e)

byte_read :
    (fuel b : ℕ) (text rest out : Bytes)
    → b < 256
    → Escaped b text
    → unescape_loop (suc fuel) (text ++ rest) out ≡ unescape_loop fuel rest (out ++ b ∷ [])
unfolding unescape_loop print_hex
byte_read fuel b text rest out h (lettered d is_b) =
    escape_read fuel b (d ∷ rest) rest out (letter_read b d rest is_b)
byte_read fuel b text rest out h (shown other) = rw (other, unescape_loop) refl
byte_read fuel b text rest out h in_hex =
    escape_read fuel b (b'x' ∷ (print_hex 2 b ++ rest)) rest out
      (two_read b (digit_char (b / 16 % 16)) (digit_char (b % 16)) rest (hex_read b h))

loop_read :
    (s out : Bytes) (fuel : ℕ)
    → IsBytes s
    → length s < fuel
    → unescape_loop fuel (escape s) out ≡ some (out ++ s)
unfolding unescape_loop escape
loop_read s out zero h k = absurd (omega arith)
loop_read [] out (suc fuel) h k = ap some (sym (append-nil out))
loop_read (b ∷ s) out (suc fuel) (hb, hs) k =
    byte_read fuel b (escape_byte b) (escape s) out hb (escape_byte-Escaped b)
    ∙ loop_read s (out ++ b ∷ []) fuel hs (omega arith)
    ∙ ap some (append_assoc out (b ∷ []) s)

escape_longer : (s : Bytes) → length s ≤ length (escape s)
unfolding escape
escape_longer [] = omega arith
escape_longer (b ∷ s) = omega (
  arith,
  escape_longer s,
  length-append (escape_byte b) (escape s),
  one_more (escape_byte b) (escape_byte-Escaped b),
)
  where
    one_more : (t : Bytes) → Escaped b t → 1 ≤ length t
    one_more t (lettered d _) = omega arith
    one_more t (shown _) = omega arith
    one_more t in_hex = omega arith

-- Bytes that are escaped are read back.
pub unescape-escape : (s : Bytes) → IsBytes s → unescape (escape s) ≡ some s
unfolding unescape
unescape-escape s h = loop_read s [] (suc (length (escape s))) h (omega (arith, escape_longer s))
