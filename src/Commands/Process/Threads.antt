-- ===== src/Commands/Process/Threads.antt =====
-- Thread listings that are read back (crates/xeedee/src/commands/process.rs).
use xeedee.Base.{
  ℕ, zero, suc, ◌-◌, ◌^◌, ◌≤◌, ◌<◌, ◌≡◌, refl, sym, ap, ◌∙◌, ◌≢◌, inl, inr, false, none, some, List,
  [], ◌∷◌, ◌++◌, map, append-nil, append_assoc, arith, Bytes, ok, ltb, ◌==◌, if◌then◌else◌, ltb→lt,
  ltb_false→le, Bool-cases, length, All,
}
use xeedee.Commands.Process.{ThreadId, from_signed, thread_ids, threads_parse, threads}
use xeedee.Protocol.Args.{ℤ, pos, negsuc, print_int}
use xeedee.Protocol.Response.{Response, expect_multiline}
use xeedee.Text.Ascii.{is_hexdigit}
use xeedee.Text.Number.{print, from_radix, read_unsigned}
use xeedee.Text.Number.Digits.{IsHexText, print-IsHexText, print-ne-nil, from_radix-IsHexText}
use xeedee.Text.Number.RoundTrip.{from_radix-print}
use xeedee.Text.Trim.{leading_space, trim_start, trim_tail, trim, parse_i32}

-- A handle as the console prints it, with `%d`.
abbrev pub as_signed : ThreadId → ℤ
as_signed thread =
    if ltb thread.handle (2 ^ 31) then pos thread.handle else negsuc (2 ^ 32 - 1 - thread.handle)

abbrev IsSolid : Bytes → Type 0
IsSolid = All (λ c. (33 ≤ c) × (c < 128))

solid_start : (c : ℕ) (s : Bytes) → 33 ≤ c → c < 128 → leading_space (c ∷ s) ≡ 0
unfolding leading_space
solid_start c [] low high = ground arith
solid_start c (d ∷ []) low high = ground arith
solid_start c (d ∷ e ∷ s) low high = ground arith

start_kept : (fuel c : ℕ) (s : Bytes) → 33 ≤ c → c < 128 → trim_start fuel (c ∷ s) ≡ c ∷ s
unfolding trim_start
start_kept zero c s low high = refl
start_kept (suc fuel) c s low high = rw (solid_start c s low high, trim_start) refl

tail_kept : (fuel : ℕ) (s : Bytes) → length s ≤ fuel → IsSolid s → trim_tail fuel s ≡ s
unfolding trim_tail
tail_kept zero [] few h = refl
tail_kept zero (c ∷ s) few h = absurd (omega (arith, few))
tail_kept (suc fuel) [] few h = refl
tail_kept (suc fuel) (c ∷ s) few ((low, high), h) =
    let kept : (length (trim_start (length (c ∷ s)) (c ∷ s)) == 0) ≡ false =
      ap (λ t. length t == 0) (start_kept (length (c ∷ s)) c s low high) ∙ ground arith in
    rw (kept, trim_tail) (ap (λ t. c ∷ t) (tail_kept fuel s (omega (arith, few)) h))

trim-IsSolid : (s : Bytes) → IsSolid s → trim s ≡ s
unfolding trim
trim-IsSolid [] h = refl
trim-IsSolid (c ∷ s) ((low, high), h) =
    ap (trim_tail (length (c ∷ s))) (start_kept (length (c ∷ s)) c s low high)
    ∙ tail_kept (length (c ∷ s)) (c ∷ s) (omega arith) ((low, high), h)

hex-IsSolid : (s : Bytes) → IsHexText s → IsSolid s
unfolding is_hexdigit
hex-IsSolid [] h = tt
hex-IsSolid (c ∷ s) (hc, h) = ((ground (arith, hc), ground (arith, hc)), hex-IsSolid s h)

unsigned_print : (most n : ℕ) → n ≤ most → n < 2 ^ 64 → read_unsigned 10 most (print 10 n) ≡ some n
unfolding read_unsigned
unsigned_print most n fits small =
    as_radix (print 10 n) (print-IsHexText 10 n (omega arith) (omega arith)) (print-ne-nil 10 n)
    ∙ from_radix-print 10 most n (omega arith) (omega arith) fits small
  where
    as_radix : (s : Bytes) → IsHexText s → s ≢ [] → read_unsigned 10 most s ≡ from_radix 10 most s
    as_radix [] h some_bytes = absurd (some_bytes refl)
    as_radix (c ∷ s) h some_bytes = sym (from_radix-IsHexText 10 most (c ∷ s) h some_bytes)

parse_digits :
    (s : Bytes)
    → IsHexText s
    → s ≢ []
    → parse_i32 s ≡ elim (from_radix 10 (2 ^ 31 - 1) s) [ none ↦ none | some n ↦ some (pos n) ]
unfolding parse_i32
parse_digits [] h some_bytes = absurd (some_bytes refl)
parse_digits (c ∷ s) (hc, h) some_bytes =
    let digit : (c == b'-') ≡ false = (unfold is_hexdigit in ground (arith, hc)) in rw (digit) refl

parse_positive : (n : ℕ) → n < 2 ^ 31 → parse_i32 (print 10 n) ≡ some (pos n)
parse_positive n small =
    parse_digits (print 10 n) (print-IsHexText 10 n (omega arith) (omega arith)) (print-ne-nil 10 n)
    ∙ rw
        (from_radix-print 10 (2 ^ 31 - 1) n (omega arith) (omega arith) (omega (arith, small))
          (omega (arith, small)))
        refl

parse_negative : (n : ℕ) → n < 2 ^ 31 → parse_i32 (b'-' ∷ print 10 (suc n)) ≡ some (negsuc n)
unfolding parse_i32
parse_negative n small =
    rw (unsigned_print (2 ^ 31) (suc n) (omega (arith, small)) (omega (arith, small))) refl

printed-IsSolid : (z : ℤ) → IsSolid (print_int z)
unfolding print_int
printed-IsSolid (pos n) =
    hex-IsSolid (print 10 n) (print-IsHexText 10 n (omega arith) (omega arith))
printed-IsSolid (negsuc n) = (
  (omega arith, omega arith),
  hex-IsSolid (print 10 (suc n)) (print-IsHexText 10 (suc n) (omega arith) (omega arith)),
)

-- A line with a handle, read as the parser reads it.
signed_back :
    (h : ℕ)
    → h < 2 ^ 32
    → (z : ℤ) × (as_signed (record { handle = h }) ≡ z)
      × (parse_i32 (print_int z) ≡ some z)
      × (from_signed z ≡ record { handle = h })
unfolding print_int from_signed
signed_back h small = elim (Bool-cases (ltb h (2 ^ 31))) [
  | inl low ↦ (
    pos h,
    rw (low) refl,
    parse_positive h (ltb→lt h (2 ^ 31) low),
    ap (λ k. record { handle = k }) (omega (arith, small)),
  )
  | inr high ↦
      let most : 2 ^ 31 ≤ h = ltb_false→le h (2 ^ 31) high in
      (
        negsuc (2 ^ 32 - 1 - h),
        rw (high) refl,
        parse_negative (2 ^ 32 - 1 - h) (omega (arith, most, small)),
        ap (λ k. record { handle = k }) (omega (arith, most, small)),
      )
]

ids_back :
    (ids out : List ThreadId)
    → All (λ t. t.handle < 2 ^ 32) ids
    → thread_ids (map (λ t. print_int (as_signed t)) ids) out ≡ ok (out ++ ids)
unfolding thread_ids
ids_back [] out h = ap ok (sym (append-nil out))
ids_back (t ∷ ids) out (ht, h) =
    let (z, signed, parsed, back) = signed_back t.handle ht in
    rw (signed, trim-IsSolid (print_int z) (printed-IsSolid z), parsed, back, thread_ids)
      (ids_back ids (out ++ t ∷ []) h ∙ ap ok (append_assoc out (t ∷ []) ids))

-- A listing in which each thread's handle of 32 bits is printed as a signed number is read as
-- exactly these handles, in order, those above 2 ^ 31, which are printed as negative, included.
pub threads-parse :
    (head : Bytes) (ids : List ThreadId)
    → All (λ t. t.handle < 2 ^ 32) ids
    → threads.parse (Response.multiline head (map (λ t. print_int (as_signed t)) ids)) ≡ ok ids
unfolding threads threads_parse expect_multiline
threads-parse head ids h = rw (ids_back ids [] h) refl
