-- ===== src/Text/Number.antt =====
-- Numbers as text, as the standard library reads and prints them: `from_str_radix` and `parse` of
-- the unsigned types, and the formats `{}`, `{:x}`, `{:0wx}`.
pub mod Digits
pub mod RoundTrip
use xeedee.Base.{
  ℕ, zero, suc, ◌+◌, ◌-◌, ◌*◌, ◌/◌, ◌%◌, ◌≡◌, refl, ◌&&◌, Option, none, some, [], ◌∷◌, ◌++◌, Bytes,
  codes, ltb, leb, ◌==◌, if◌then◌else◌,
}
use xeedee.Base.Options.{◌>>=◌}

-- `char::to_digit`
pub digit_value : ℕ → ℕ
digit_value c =
    if leb b'0' c && leb c b'9'
    then c - b'0'
    else if leb b'a' c && leb c b'z'
    then c - 87
    else if leb b'A' c && leb c b'Z'
    then c - 55
    else 36

unfoldable pub to_digit : ℕ → ℕ → Option ℕ
unfolding digit_value
to_digit radix c = let v = digit_value c in if ltb v radix then some v else none

-- `most` is the largest value of the type: past it the checked arithmetic fails.
unfoldable pub read_digits : ℕ → ℕ → Bytes → ℕ → Option ℕ
read_digits radix most [] n = some n
read_digits radix most (c ∷ s) n = do
  d ← to_digit radix c
  if ltb most (n * radix + d) then none else read_digits radix most s (n * radix + d)

unfoldable pub read_unsigned : ℕ → ℕ → Bytes → Option ℕ
read_unsigned radix most [] = none
read_unsigned radix most (c ∷ s) = read_digits radix most (c ∷ s) 0

-- One leading plus sign is read over.
unfoldable pub from_radix : ℕ → ℕ → Bytes → Option ℕ
unfolding read_digits read_unsigned to_digit
from_radix radix most [] = none
from_radix radix most (c ∷ s) =
    if c == b'+' then read_unsigned radix most s else read_digits radix most (c ∷ s) 0

unfoldable pub digit_char : ℕ → ℕ
digit_char d = if ltb d 10 then b'0' + d else 87 + d

unfoldable pub print_loop : ℕ → ℕ → ℕ → Bytes → Bytes
print_loop zero radix n out = out
print_loop (suc fuel) radix n out =
    let more = print_loop fuel radix (n / radix) (digit_char (n % radix) ∷ out) in
    if n / radix == 0 then digit_char (n % radix) ∷ out else more

-- 64 digits are enough for a number below 2 ^ 64 at any radix.
unfoldable pub print : ℕ → ℕ → Bytes
unfolding print_loop digit_char
print radix n = print_loop 64 radix n []

-- `{:0wx}` of a number below 16 ^ w
unfoldable pub print_hex : ℕ → ℕ → Bytes
unfolding digit_char
print_hex zero n = []
print_hex (suc w) n = print_hex w (n / 16) ++ digit_char (n % 16) ∷ []

abbrev pub max_u8 : ℕ
max_u8 = 0xff

abbrev pub max_u16 : ℕ
max_u16 = 0xffff

abbrev pub max_u32 : ℕ
max_u32 = 0xffff_ffff

abbrev pub max_u64 : ℕ
max_u64 = 0xffff_ffff_ffff_ffff

reads : from_radix 16 max_u32 (codes "8012aBcd") ≡ some 0x8012_abcd
unfolding from_radix
reads = refl

too_large : from_radix 10 max_u32 (codes "4294967296") ≡ none
unfolding from_radix
too_large = refl

prints : print 10 0 ++ print 16 0xbeef ++ print_hex 4 0xab ≡ codes "0beef00ab"
unfolding print print_hex
prints = refl
