-- ===== src/Text/Ascii.antt =====
-- ASCII classes and comparisons of the standard library: `is_ascii_whitespace`,
-- `eq_ignore_ascii_case`, `is_ascii_hexdigit`, `str::strip_prefix`, `slice::contains`.
use xeedee.Base.{
  ℕ, ◌+◌, ◌≡◌, refl, Bool, true, false, ◌&&◌, ◌||◌, Option, none, some, [], ◌∷◌, Bytes, leb, ◌==◌,
  if◌then◌else◌, arith,
}

unfoldable pub is_whitespace : ℕ → Bool
is_whitespace c = (c == 32) || (c == 9) || (c == 10) || (c == 12) || (c == 13)

unfoldable pub is_hexdigit : ℕ → Bool
is_hexdigit c = leb b'0' c && leb c b'9' || leb b'a' c && leb c b'f' || leb b'A' c && leb c b'F'

unfoldable pub to_lower : ℕ → ℕ
to_lower c = if leb b'A' c && leb c b'Z' then c + 32 else c

unfoldable pub eq_ignore_case : Bytes → Bytes → Bool
eq_ignore_case [] [] = true
eq_ignore_case (c ∷ s) (d ∷ t) = (to_lower c == to_lower d) && eq_ignore_case s t
eq_ignore_case _ _ = false

unfoldable pub contains : ℕ → Bytes → Bool
contains b [] = false
contains b (c ∷ s) = (c == b) || contains b s

-- `strip_prefix` of a text of two bytes
unfoldable pub strip_prefix : ℕ → ℕ → Bytes → Option Bytes
strip_prefix a b (c ∷ d ∷ s) = if (c == a) && (d == b) then some s else none
strip_prefix a b _ = none

pub eq_ignore_case_refl : (s : Bytes) → eq_ignore_case s s ≡ true
unfolding eq_ignore_case
eq_ignore_case_refl [] = refl
eq_ignore_case_refl (c ∷ s) = ground (arith, eq_ignore_case_refl s)
