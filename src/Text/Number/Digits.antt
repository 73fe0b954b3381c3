-- ===== src/Text/Number/Digits.antt =====
-- Printed numbers consist of hexadecimal digits.
use xeedee.Base.{
  ℕ, zero, suc, ◌/◌, ◌%◌, ◌≤◌, ◌<◌, ◌≡◌, ◌≢◌, refl, true, [], ◌∷◌, Bytes, ◌==◌, arith, Bool-cases,
  inl, inr, All, All-append,
}
use xeedee.Text.Ascii.{is_hexdigit}
use xeedee.Text.Number.{read_digits, from_radix, digit_char, print_loop, print, print_hex}

abbrev pub IsHexText : Bytes → Type 0
IsHexText = All (λ c. is_hexdigit c ≡ true)

digit_char-is_hexdigit : (d : ℕ) → d < 16 → is_hexdigit (digit_char d) ≡ true
unfolding is_hexdigit digit_char
digit_char-is_hexdigit d h = ground arith

print_loop-IsHexText :
    (fuel radix n : ℕ) (out : Bytes)
    → 2 ≤ radix
    → radix ≤ 16
    → IsHexText out
    → IsHexText (print_loop fuel radix n out)
unfolding print_loop
print_loop-IsHexText zero radix n out h k o = o
print_loop-IsHexText (suc fuel) radix n out h k o =
    let last : n % radix < 16 = grind arith in
    let d = digit_char-is_hexdigit (n % radix) last in
    elim (Bool-cases (n / radix == 0)) [
      | inl stop ↦ rw stop (d, o)
      | inr more ↦ rw more (print_loop-IsHexText fuel radix (n / radix) _ h k (d, o))
    ]

print_loop-ne-nil : (fuel radix n : ℕ) (out : Bytes) → out ≢ [] → print_loop fuel radix n out ≢ []
unfolding print_loop
print_loop-ne-nil zero radix n out h = h
print_loop-ne-nil (suc fuel) radix n out h = elim (Bool-cases (n / radix == 0)) [
  | inl stop ↦ rw stop (λ e. cc)
  | inr more ↦ rw more (print_loop-ne-nil fuel radix (n / radix) _ (λ e. cc))
]

pub print-IsHexText : (radix n : ℕ) → 2 ≤ radix → radix ≤ 16 → IsHexText (print radix n)
unfolding print
print-IsHexText radix n h k = print_loop-IsHexText 64 radix n [] h k tt

pub print-ne-nil : (radix n : ℕ) → print radix n ≢ []
unfolding print
print-ne-nil radix n = elim (Bool-cases (n / radix == 0)) [
  | inl stop ↦ rw stop (λ e. cc)
  | inr more ↦ rw more (print_loop-ne-nil 63 radix (n / radix) _ (λ e. cc))
]

pub print_hex-IsHexText : (w n : ℕ) → IsHexText (print_hex w n)
unfolding print_hex
print_hex-IsHexText zero n = tt
print_hex-IsHexText (suc w) n =
    All-append _ (print_hex w (n / 16)) _ (print_hex-IsHexText w (n / 16))
      (digit_char-is_hexdigit (n % 16) (omega arith), tt)

-- A digit is no plus sign.
pub from_radix-IsHexText :
    (radix most : ℕ) (s : Bytes)
    → IsHexText s
    → s ≢ []
    → from_radix radix most s ≡ read_digits radix most s 0
unfolding from_radix is_hexdigit
from_radix-IsHexText radix most [] h k = absurd (k refl)
from_radix-IsHexText radix most (c ∷ s) (hc, hs) k = ground arith
