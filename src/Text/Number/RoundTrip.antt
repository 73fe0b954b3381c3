-- ===== src/Text/Number/RoundTrip.antt =====
-- What is printed is read back.
use mathlib.Core.List.{concat-ne-nil}
use native.Mathlib.Nat.{pow-suc}
use xeedee.Base.{
  ℕ, zero, suc, ◌+◌, ◌*◌, ◌/◌, ◌%◌, ◌^◌, ◌≤◌, ◌<◌, ◌≡◌, refl, sym, ap, ◌∙◌, subst, ◌≢◌, inl, inr,
  some, [], ◌∷◌, ◌++◌, arith, Bytes, ◌==◌, ==_iff, Bool-cases, Option-cases,
}
use xeedee.Base.Options.{◌>>=◌}
use xeedee.Text.Ascii.{is_hexdigit}
use xeedee.Text.Number.Digits.{
  IsHexText, print-IsHexText, print-ne-nil, print_hex-IsHexText, from_radix-IsHexText,
}
use xeedee.Text.Number.{to_digit, read_digits, from_radix, digit_char, print_loop, print, print_hex}

rem-lt : (radix n : ℕ) → 2 ≤ radix → n % radix < radix
rem-lt radix n h = grind arith

whole : (radix n : ℕ) → 2 ≤ radix → n / radix * radix + n % radix ≡ n
whole radix n h = grind arith

quotient-le : (radix n : ℕ) → 2 ≤ radix → 2 * (n / radix) ≤ n
quotient-le radix n h = grind (arith, whole radix n h)

to_digit-digit_char :
    (radix d : ℕ) → radix ≤ 36 → d < radix → to_digit radix (digit_char d) ≡ some d
unfolding to_digit digit_char
to_digit-digit_char radix d h k = ground arith

read_last :
    (radix most n : ℕ) (out : Bytes)
    → 2 ≤ radix
    → radix ≤ 36
    → n ≤ most
    → read_digits radix most (digit_char (n % radix) ∷ out) (n / radix)
      ≡ read_digits radix most out n
unfolding read_digits
read_last radix most n out h k fits =
    rw (to_digit-digit_char radix (n % radix) k (rem-lt radix n h), whole radix n h) (ground arith)

read-print_loop :
    (fuel radix most n : ℕ) (out : Bytes)
    → 2 ≤ radix
    → radix ≤ 36
    → n ≤ most
    → n < 2 ^ fuel
    → read_digits radix most (print_loop fuel radix n out) 0 ≡ read_digits radix most out n
unfolding print_loop
read-print_loop zero radix most n out h k fits small = ap (read_digits radix most out) (omega arith)
read-print_loop (suc fuel) radix most n out h k fits small = elim (Bool-cases (n / radix == 0)) [
  | inl last ↦ rw last (
      subst
        (λ q.
          read_digits radix most (digit_char (n % radix) ∷ out) q ≡ read_digits radix most out n)
        ((==_iff (n / radix) 0).0 last) (read_last radix most n out h k fits))
  | inr more ↦ rw more (
      read-print_loop fuel radix most (n / radix) (digit_char (n % radix) ∷ out) h k
        (omega (arith, quotient-le radix n h))
        (omega (arith, quotient-le radix n h, pow-suc 2 fuel))
      ∙ read_last radix most n out h k fits)
]

-- A printed number is read back, if it fits the type read and 64 bits.
pub from_radix-print :
    (radix most n : ℕ)
    → 2 ≤ radix
    → radix ≤ 16
    → n ≤ most
    → n < 2 ^ 64
    → from_radix radix most (print radix n) ≡ some n
from_radix-print radix most n h k fits small =
    from_radix-IsHexText radix most _ (print-IsHexText radix n h k) (print-ne-nil radix n)
    ∙ (unfold print read_digits in read-print_loop 64 radix most n [] h (omega arith) fits small)

read_digits-append :
    (radix most : ℕ) (s t : Bytes) (n : ℕ)
    → read_digits radix most (s ++ t) n ≡ (read_digits radix most s n >>= read_digits radix most t)
unfolding read_digits
read_digits-append radix most [] t n = refl
read_digits-append radix most (c ∷ s) t n = elim (Option-cases (to_digit radix c)) [
  | inl e ↦ rw e
  | inr (d, e) ↦ rw e (ground (arith, read_digits-append radix most s t (n * radix + d)))
]

read-print_hex :
    (w most n : ℕ) → n < 16 ^ w → n ≤ most → read_digits 16 most (print_hex w n) 0 ≡ some n
unfolding print_hex
read-print_hex zero most n small fits = unfold read_digits in ap some (omega arith)
read-print_hex (suc w) most n small fits =
    rw
      (
        read_digits-append 16 most (print_hex w (n / 16)) (digit_char (n % 16) ∷ []) 0,
        read-print_hex w most (n / 16) (omega (arith, pow-suc 16 w)) (omega arith),
      )
      (read_last 16 most n [] (omega arith) (omega arith) fits ∙ (unfold read_digits in refl))

print_hex-ne-nil : (w n : ℕ) → 0 < w → print_hex w n ≢ []
unfolding print_hex
print_hex-ne-nil zero n h = absurd (omega arith)
print_hex-ne-nil (suc w) n h = concat-ne-nil (digit_char (n % 16)) (print_hex w (n / 16))

-- A number printed at a fixed width is read back.
pub from_radix-print_hex :
    (w most n : ℕ) → 0 < w → n < 16 ^ w → n ≤ most → from_radix 16 most (print_hex w n) ≡ some n
from_radix-print_hex w most n h small fits =
    from_radix-IsHexText 16 most _ (print_hex-IsHexText w n) (print_hex-ne-nil w n h)
    ∙ read-print_hex w most n small fits

abbrev pub leading : ℕ → Bytes
leading zero = []
leading (suc z) = b'0' ∷ leading z

read-leading :
    (z most : ℕ) (s : Bytes) → read_digits 16 most (leading z ++ s) 0 ≡ read_digits 16 most s 0
unfolding read_digits to_digit
read-leading zero most s = refl
read-leading (suc z) most s = ground (arith, read-leading z most s)

pub leading-IsHexText : (z : ℕ) (s : Bytes) → IsHexText s → IsHexText (leading z ++ s)
unfolding is_hexdigit
leading-IsHexText zero s h = h
leading-IsHexText (suc z) s h = (refl, leading-IsHexText z s h)

-- A number with any zeros before it is read back.
pub from_radix-leading :
    (z most n : ℕ) → n ≤ most → n < 2 ^ 64 → from_radix 16 most (leading z ++ print 16 n) ≡ some n
from_radix-leading zero most n fits small =
    from_radix-print 16 most n (omega arith) (omega arith) fits small
from_radix-leading (suc z) most n fits small =
    from_radix-IsHexText 16 most _ (leading-IsHexText (suc z) (print 16 n) digits) (λ e. cc e)
    ∙ read-leading (suc z) most (print 16 n)
    ∙ sym (from_radix-IsHexText 16 most _ digits (print-ne-nil 16 n))
    ∙ from_radix-print 16 most n (omega arith) (omega arith) fits small
  where
    digits : IsHexText (print 16 n)
    digits = print-IsHexText 16 n (omega arith) (omega arith)
