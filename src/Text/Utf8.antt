-- ===== src/Text/Utf8.antt =====
-- `core::str::from_utf8`: the well-formed byte sequences of the Unicode standard.
use xeedee.Base.{
  ℕ, ◌<◌, ◌≡◌, refl, Bool, true, false, ◌&&◌, Option, none, some, List, [], ◌∷◌, ◌++◌, append-nil,
  append_assoc, sym, ap, ◌∙◌, Bytes, All, ltb, leb, ◌==◌, if◌then◌else◌, arith,
}

abbrev Range : Type 0
Range = ℕ × ℕ

abbrev tail : Range
tail = (0x80, 0xbf)

-- What must follow a first byte; `none` if it starts nothing.
abbrev follows : ℕ → Option (List Range)
follows c =
    if ltb c 0x80
    then some []
    else if ltb c 0xc2
    then none
    else if leb c 0xdf
    then some (tail ∷ [])
    else if c == 0xe0
    then some ((0xa0, 0xbf) ∷ tail ∷ [])
    else if c == 0xed
    then some ((0x80, 0x9f) ∷ tail ∷ [])
    else if leb c 0xef
    then some (tail ∷ tail ∷ [])
    else if c == 0xf0
    then some ((0x90, 0xbf) ∷ tail ∷ tail ∷ [])
    else if leb c 0xf3
    then some (tail ∷ tail ∷ tail ∷ [])
    else if c == 0xf4
    then some ((0x80, 0x8f) ∷ tail ∷ tail ∷ [])
    else none

scan : List Range → Bytes → Bool
scan [] [] = true
scan (r ∷ rs) [] = false
scan ((low, high) ∷ rs) (c ∷ s) = leb low c && leb c high && scan rs s
scan [] (c ∷ s) = elim (follows c) [ none ↦ false | some rs ↦ scan rs s ]

unfoldable pub is_utf8 : Bytes → Bool
unfolding scan
is_utf8 s = scan [] s

abbrev replacement : Bytes
replacement = 0xef ∷ 0xbf ∷ 0xbd ∷ []

-- `String::from_utf8_lossy`: U+FFFD in place of each longest start of a character that does not go on
-- as it should. `held` is the character so far.
unfoldable lossy_loop : Bytes → List Range → Bytes → Bytes
lossy_loop held [] [] = held
lossy_loop held (r ∷ rs) [] = replacement
lossy_loop held [] (c ∷ s) = held ++ elim (follows c) [
  | none ↦ replacement ++ lossy_loop [] [] s
  | some rs ↦ lossy_loop (c ∷ []) rs s
]
lossy_loop held ((low, high) ∷ rs) (c ∷ s) = elim (leb low c && leb c high) [
  | true ↦ lossy_loop (held ++ c ∷ []) rs s
  | false ↦ replacement ++ elim (follows c) [
    | none ↦ replacement ++ lossy_loop [] [] s
    | some rs' ↦ lossy_loop (c ∷ []) rs' s
  ]
]

unfoldable pub from_utf8_lossy : Bytes → Bytes
unfolding lossy_loop
from_utf8_lossy s = lossy_loop [] [] s

lossy_starts :
    (o : Option (List Range)) (c : ℕ) (s : Bytes)
    → ((rs : List Range) → scan rs s ≡ true → lossy_loop (c ∷ []) rs s ≡ c ∷ s)
    → elim o [ none ↦ false | some rs ↦ scan rs s ] ≡ true
    → elim o [ none ↦ replacement ++ lossy_loop [] [] s | some rs ↦ lossy_loop (c ∷ []) rs s ]
      ≡ c ∷ s
lossy_starts none c s keeps h = absurd (cc h)
lossy_starts (some rs) c s keeps h = keeps rs h

lossy_inside :
    (p q go : Bool) (t u v : Bytes)
    → p && q && go ≡ true
    → (go ≡ true → t ≡ v)
    → elim (p && q) [ true ↦ t | false ↦ u ] ≡ v
lossy_inside true true go t u v h keeps = keeps h
lossy_inside true false go t u v h keeps = absurd (cc h)
lossy_inside false q go t u v h keeps = absurd (cc h)

lossy_keeps :
    (held : Bytes) (rs : List Range) (s : Bytes)
    → scan rs s ≡ true
    → lossy_loop held rs s ≡ held ++ s
unfolding lossy_loop scan
lossy_keeps held [] [] h = sym (append-nil held)
lossy_keeps held (r ∷ rs) [] h = absurd (cc h)
lossy_keeps held [] (c ∷ s) h =
    ap (λ t. held ++ t) (lossy_starts (follows c) c s (λ rs. lossy_keeps (c ∷ []) rs s) h)
lossy_keeps held ((low, high) ∷ rs) (c ∷ s) h =
    lossy_inside (leb low c) (leb c high) (scan rs s) _ _ _ h
      (λ go. lossy_keeps (held ++ c ∷ []) rs s go ∙ append_assoc held (c ∷ []) s)

pub from_utf8_lossy_lem : (s : Bytes) → is_utf8 s ≡ true → from_utf8_lossy s ≡ s
unfolding from_utf8_lossy is_utf8
from_utf8_lossy_lem s h = lossy_keeps [] [] s h

cut_short : from_utf8_lossy (0x41 ∷ 0xe2 ∷ 0x82 ∷ 0x42 ∷ []) ≡ 0x41 ∷ 0xef ∷ 0xbf ∷ 0xbd ∷ 0x42 ∷ []
unfolding from_utf8_lossy
cut_short = refl

abbrev pub IsAscii : Bytes → Type 0
IsAscii = All (λ c. c < 128)

pub IsAscii-is_utf8 : (s : Bytes) → IsAscii s → is_utf8 s ≡ true
unfolding is_utf8
IsAscii-is_utf8 [] h = refl
IsAscii-is_utf8 (c ∷ s) (hc, hs) = ground (arith, IsAscii-is_utf8 s hs)

two_bytes : is_utf8 (0xc3 ∷ 0xa9 ∷ []) ≡ true
unfolding is_utf8
two_bytes = refl

surrogate : is_utf8 (0xed ∷ 0xa0 ∷ 0x80 ∷ []) ≡ false
unfolding is_utf8
surrogate = refl
