-- ===== src/Protocol/Args.antt =====
-- The builder of command lines: crates/xeedee/src/protocol/args.rs.
pub mod RoundTrip
use xeedee.Base.{
  ℕ, suc, ◌/◌, ◌%◌, ◌^◌, ◌≡◌, refl, ◌||◌, [], ◌∷◌, ◌++◌, Bytes, codes, Result, ok, err,
  if◌then◌else◌,
}
use xeedee.Protocol.Error.{ArgumentError, quoted_contains_double_quote, quoted_contains_crlf}
use xeedee.Text.Ascii.{contains}
use xeedee.Text.Number.{print, print_hex}

-- A 64-bit value, and a pair of them.
pub record Qword : Type 0 where
  pub value : ℕ

pub record QwordPair : Type 0 where
  pub hi : ℕ
  pub lo : ℕ

-- `value >> 32` and `value as u32`
abbrev pub high_half : ℕ → ℕ
high_half v = v / 2 ^ 32

abbrev pub low_half : ℕ → ℕ
low_half v = v % 2 ^ 32

unfoldable pub display_qword : Qword → Bytes
display_qword q = codes "0q" ++ (print_hex 8 (high_half q.value) ++ print_hex 8 (low_half q.value))

unfoldable pub display_pair : QwordPair → Bytes
display_pair q =
    codes "0q"
    ++ (print_hex 8 (high_half q.hi)
        ++ (print_hex 8 (low_half q.hi)
            ++ (print_hex 8 (high_half q.lo) ++ print_hex 8 (low_half q.lo))))

-- An `i64`: `negsuc n` is -(n + 1).
pub data ℤ : Type 0 where
  pos negsuc : ℕ → ℤ

unfoldable pub print_int : ℤ → Bytes
print_int (pos n) = print 10 n
print_int (negsuc n) = b'-' ∷ print 10 (suc n)

pub record ArgBuilder : Type 0 where
  pub buf : Bytes

unfoldable pub new : Bytes → ArgBuilder
new command = record { buf = command }

-- `write!(self.buf, " {}={}", key, value)`
abbrev pub write_pair : Bytes → Bytes → ArgBuilder → ArgBuilder
write_pair key value b = record { buf = b.buf ++ 32 ∷ (key ++ b'=' ∷ value) }

unfoldable pub flag : Bytes → ArgBuilder → ArgBuilder
flag token b = record { buf = b.buf ++ 32 ∷ token }

unfoldable pub dec : Bytes → ℕ → ArgBuilder → ArgBuilder
dec key value = write_pair key (print 10 value)

unfoldable pub int : Bytes → ℤ → ArgBuilder → ArgBuilder
unfolding print_int
int key value = write_pair key (print_int value)

unfoldable pub hex32 : Bytes → ℕ → ArgBuilder → ArgBuilder
hex32 key value = write_pair key (codes "0x" ++ print_hex 8 value)

unfoldable pub hex : Bytes → ℕ → ArgBuilder → ArgBuilder
hex key value = write_pair key (codes "0x" ++ print 16 value)

unfoldable pub qword : Bytes → Qword → ArgBuilder → ArgBuilder
unfolding display_qword
qword key value = write_pair key (display_qword value)

unfoldable pub qword_pair : Bytes → QwordPair → ArgBuilder → ArgBuilder
unfolding display_pair
qword_pair key value = write_pair key (display_pair value)

unfoldable pub quoted : Bytes → Bytes → ArgBuilder → Result ArgumentError ArgBuilder
unfolding contains
quoted key value b =
    if contains b'"' value
    then err quoted_contains_double_quote
    else if contains b'\r' value || contains b'\n' value
    then err quoted_contains_crlf
    else ok (write_pair key (b'"' ∷ (value ++ b'"' ∷ [])) b)

unfoldable pub finish : ArgBuilder → Bytes
finish b = b.buf

systime_wire :
    finish (hex32 (codes "clockhi") 0x01d4_c3e5 (new (codes "setsystime")))
    ≡ codes "setsystime clockhi=0x01d4c3e5"
unfolding finish hex32 new print_hex
systime_wire = refl
