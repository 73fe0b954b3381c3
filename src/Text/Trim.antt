-- ===== src/Text/Trim.antt =====
-- `str::trim` on UTF-8 bytes, and `parse::<i32>`.
use xeedee.Base.{
  ℕ, zero, suc, ◌-◌, ◌^◌, ◌≡◌, refl, ◌&&◌, ◌||◌, Option, none, some, [], ◌∷◌, Bytes, codes, leb,
  ◌==◌, if◌then◌else◌, length, drop,
}
use xeedee.Protocol.Args.{ℤ, pos, negsuc}
use xeedee.Text.Number.{from_radix, read_unsigned}

-- How many bytes a white space character at the start has; 0 if there is none.
unfoldable pub leading_space : Bytes → ℕ
leading_space (c ∷ d ∷ e ∷ s) =
    if (leb 9 c && leb c 13) || (c == 32)
    then 1
    else if (c == 0xc2) && ((d == 0x85) || (d == 0xa0))
    then 2
    else if ((c == 0xe1) && ((d == 0x9a) && (e == 0x80)))
        || (((c == 0xe2)
              && ((d == 0x80)
                  && ((leb 0x80 e && leb e 0x8a) || ((e == 0xa8) || ((e == 0xa9) || (e == 0xaf))))))
            || (((c == 0xe2) && ((d == 0x81) && (e == 0x9f)))
                || ((c == 0xe3) && ((d == 0x80) && (e == 0x80)))))
    then 3
    else 0
leading_space (c ∷ d ∷ []) =
    if (leb 9 c && leb c 13) || (c == 32)
    then 1
    else if (c == 0xc2) && ((d == 0x85) || (d == 0xa0))
    then 2
    else 0
leading_space (c ∷ []) = if (leb 9 c && leb c 13) || (c == 32) then 1 else 0
leading_space [] = 0

-- Each round drops a byte at least, so a fuel of the length is enough.
unfoldable pub trim_start : ℕ → Bytes → Bytes
unfolding leading_space
trim_start zero s = s
trim_start (suc fuel) s =
    let rest = trim_start fuel (drop (leading_space s) s) in
    if leading_space s == 0 then s else rest

-- The text is cut where all that follows is white space.
unfoldable pub trim_tail : ℕ → Bytes → Bytes
unfolding leading_space
trim_tail zero s = []
trim_tail (suc fuel) [] = []
trim_tail (suc fuel) (c ∷ s) =
    let rest = trim_tail fuel s in
    if length (trim_start (length (c ∷ s)) (c ∷ s)) == 0 then [] else c ∷ rest

unfoldable pub trim : Bytes → Bytes
unfolding trim_start trim_tail
trim s = trim_tail (length s) (trim_start (length s) s)

unfoldable pub parse_i32 : Bytes → Option ℤ
unfolding from_radix read_unsigned
parse_i32 [] = none
parse_i32 (c ∷ s) =
    if c == b'-'
    then elim (read_unsigned 10 (2 ^ 31) s) [
      | none ↦ none
      | some zero ↦ some (pos 0)
      | some (suc n) ↦ some (negsuc n)
    ]
    else elim (from_radix 10 (2 ^ 31 - 1) (c ∷ s)) [ none ↦ none | some n ↦ some (pos n) ]

trimmed : trim (codes " \t-12\r\n ") ≡ codes "-12"
unfolding trim
trimmed = refl
