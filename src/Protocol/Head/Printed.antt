-- ===== src/Protocol/Head/Printed.antt =====
-- A head as a server writes it is read back (crates/xeedee/src/protocol/response.rs).
use xeedee.Base.{
  ℕ, ◌+◌, ◌/◌, ◌%◌, ◌≤◌, ◌<◌, ◌≡◌, refl, true, none, some, [], ◌∷◌, ◌++◌, arith, Bytes, ok, length,
  take, drop,
}
use xeedee.Crates.{plain, is_digit, span_length, plain_take_while}
use xeedee.Protocol.Head.{three_digit_code, response_head, parse_status, parse_response_head}
use xeedee.Protocol.StatusCode
use xeedee.Protocol.StatusCode.{StatusCode}
use xeedee.Text.Number.{from_radix, max_u16, to_digit}

-- The digits of a number of three digits.
abbrev pub three_digits : ℕ → Bytes
three_digits n = (b'0' + n / 100) ∷ (b'0' + n / 10 % 10) ∷ (b'0' + n % 10) ∷ []

-- `NNN- text`
abbrev pub print_head : ℕ → Bytes → Bytes
print_head n text = three_digits n ++ b'-' ∷ 32 ∷ text

IsStatus : ℕ → Type 0
IsStatus n = (100 ≤ n) × (n ≤ 999)

digit_read : (d acc : ℕ) → d < 10 → to_digit 10 (b'0' + d) ≡ some d
unfolding to_digit
digit_read d acc h = ground arith

three_read : (n : ℕ) → n ≤ 999 → from_radix 10 max_u16 (three_digits n) ≡ some n
unfolding from_radix
three_read n h = ground arith

first_digit : (n : ℕ) → n ≤ 999 → is_digit (b'0' + n / 100) ≡ true
first_digit n h = ground arith

other_digit : (n : ℕ) → is_digit (b'0' + n % 10) ≡ true
other_digit n = ground arith

three_span :
    (a b c : ℕ) (s : Bytes)
    → is_digit a ≡ true
    → is_digit b ≡ true
    → is_digit c ≡ true
    → span_length is_digit s ≡ 0
    → span_length is_digit (a ∷ b ∷ c ∷ s) ≡ 3
three_span a b c s p q r h = ground arith

digits_of_span :
    (t : Bytes)
    → span_length is_digit t ≡ 3
    → plain_take_while 1 none is_digit t ≡ some (take 3 t, drop 3 t)
unfolding plain_take_while
digits_of_span t h = rw h refl

code_of_digits :
    (t u s : Bytes) (n : ℕ)
    → plain_take_while 1 none is_digit t ≡ some (u, s)
    → length u ≡ 3
    → from_radix 10 max_u16 u ≡ some n
    → three_digit_code plain t ≡ some (n, s)
unfolding three_digit_code plain
code_of_digits t u s n h k r = ground arith

code_of_three :
    (n : ℕ) (s : Bytes)
    → n ≤ 999
    → span_length is_digit s ≡ 0
    → three_digit_code plain (three_digits n ++ s) ≡ some (n, s)
code_of_three n s h stop =
    code_of_digits (three_digits n ++ s) (three_digits n) s n
      (digits_of_span (three_digits n ++ s) (
        three_span (b'0' + n / 100) (b'0' + n / 10 % 10) (b'0' + n % 10) s (first_digit n h)
          (other_digit (n / 10)) (other_digit n) stop))
      refl (three_read n h)

status_printed :
    (n : ℕ) (s : Bytes)
    → 100 ≤ n
    → n ≤ 999
    → parse_status plain (three_digits n ++ b'-' ∷ s) ≡ some (ok (record { raw = n }))
unfolding parse_status StatusCode.new
status_printed n s low high = rw (code_of_three n [] high refl) (ground arith)

head_printed :
    (n : ℕ) (text : Bytes)
    → n ≤ 999
    → response_head plain (print_head n text) ≡ some ((n, text), [])
unfolding response_head plain
head_printed n text h = rw (code_of_three n (b'-' ∷ 32 ∷ text) h refl) refl

-- A printed head is read back.
pub parse-print_head :
    (n : ℕ) (text : Bytes)
    → 100 ≤ n
    → n ≤ 999
    → parse_response_head plain (print_head n text)
      ≡ some (ok (record { code = record { raw = n }; rest = text }))
unfolding parse_response_head StatusCode.new
parse-print_head n text low high =
    rw (status_printed n (32 ∷ text) low high, head_printed n text high) (ground arith)
