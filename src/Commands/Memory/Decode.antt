-- ===== src/Commands/Memory/Decode.antt =====
-- What a memory dump is read as (crates/xeedee/src/commands/memory.rs).
use xeedee.Base.{
  ℕ, suc, ◌+◌, ◌*◌, ◌%◌, ◌^◌, ◌≤◌, ◌<◌, ◌≡◌, refl, sym, ap, ◌∙◌, true, false, Option, none, some,
  List, [], ◌∷◌, ◌++◌, map, append-nil, append_assoc, arith, Bytes, codes, bytes_eq, ok, ◌==◌,
  length, length-append,
}
use xeedee.Commands.Memory.{
  Dump, no_dump, hex_pair, dump_chunks, dump_line, dump_lines, push_unmapped, push_byte, get_mem,
  get_mem_parse,
}
use xeedee.Protocol.Response.{Response, expect_multiline}
use xeedee.Text.Number.{to_digit, from_radix}
use xeedee.Text.Utf8.{IsAscii-is_utf8}

-- A byte of the console's memory, or a place where nothing is mapped.
abbrev pub Cell : Type 0
Cell = Option ℕ

-- Two bytes of a dump for a cell: digits of either case, or two question marks.
abbrev pub ShowsCell : ℕ → ℕ → Cell → Type 0
ShowsCell a b none = (a ≡ b'?') × (b ≡ b'?')
ShowsCell a b (some v) =
    (h : ℕ) × (l : ℕ) × (to_digit 16 a ≡ some h) × (to_digit 16 b ≡ some l) × (v ≡ h * 16 + l)

abbrev pub Shows : Bytes → List Cell → Type 0
Shows [] [] = Unit
Shows (a ∷ b ∷ s) (c ∷ cells) = ShowsCell a b c × Shows s cells
Shows _ _ = ⊥

abbrev pub ShowsAll : List Bytes → List (List Cell) → Type 0
ShowsAll [] [] = Unit
ShowsAll (line ∷ lines) (cells ∷ rest) = Shows line cells × ShowsAll lines rest
ShowsAll _ _ = ⊥

abbrev pub concat : List (List Cell) → List Cell
concat [] = []
concat (cells ∷ rest) = cells ++ concat rest

abbrev pub value : Cell → ℕ
value none = 0
value (some v) = v

-- The offsets of the cells where nothing is mapped.
abbrev pub holes : ℕ → List Cell → List ℕ
holes n [] = []
holes n (none ∷ cells) = n ∷ holes (n + 1) cells
holes n (some v ∷ cells) = holes (n + 1) cells

digit_facts :
    (c h : ℕ)
    → to_digit 16 c ≡ some h
    → (h < 16) × (c < 128) × ((c == b'+') ≡ false) × ((c == b'?') ≡ false)
unfolding to_digit
digit_facts c h e = ground arith

pub hex_pair-digits :
    (a b h l : ℕ)
    → to_digit 16 a ≡ some h
    → to_digit 16 b ≡ some l
    → hex_pair (a ∷ b ∷ []) ≡ some (h * 16 + l)
unfolding hex_pair from_radix
hex_pair-digits a b h l p q =
    let (h_small, a_ascii, not_plus, _) = digit_facts a h p in
    let (l_small, b_ascii, _, _) = digit_facts b l q in
    rw (IsAscii-is_utf8 (a ∷ b ∷ []) (a_ascii, (b_ascii, tt))) (ground arith)

-- Two digits are no marker of an unmapped byte.
digits_no_marker : (a b h : ℕ) → to_digit 16 a ≡ some h → bytes_eq (a ∷ b ∷ []) (codes "??") ≡ false
digits_no_marker a b h p = ground (arith, digit_facts a h p)

values-append : (xs ys : List Cell) → map value (xs ++ ys) ≡ map value xs ++ map value ys
values-append [] ys = refl
values-append (x ∷ xs) ys = ap (λ t. value x ∷ t) (values-append xs ys)

holes-append :
    (n m : ℕ) (xs ys : List Cell)
    → n + length xs ≡ m
    → holes n (xs ++ ys) ≡ holes n xs ++ holes m ys
holes-append n m [] ys e = ap (λ k. holes k ys) (omega arith)
holes-append n m (none ∷ xs) ys e = ap (λ t. n ∷ t) (holes-append (n + 1) m xs ys (omega arith))
holes-append n m (some v ∷ xs) ys e = holes-append (n + 1) m xs ys (omega arith)

length-values : (xs : List Cell) → length (map value xs) ≡ length xs
length-values [] = refl
length-values (x ∷ xs) = ap suc (length-values xs)

-- A dump with more cells behind it.
abbrev behind : Dump → List Cell → Dump
behind d cells = record {
  bytes = d.bytes ++ map value cells;
  unmapped = d.unmapped ++ holes (length d.bytes) cells;
}

abbrev Fits : Dump → List Cell → Type 0
Fits d cells = length d.bytes + length cells ≤ 2 ^ 32

behind-append : (d : Dump) (xs ys : List Cell) → behind (behind d xs) ys ≡ behind d (xs ++ ys)
behind-append d xs ys = λ i. record { bytes = bytes_side i; unmapped = holes_side i }
  where
    bytes_side : (d.bytes ++ map value xs) ++ map value ys ≡ d.bytes ++ map value (xs ++ ys)
    bytes_side =
        append_assoc d.bytes (map value xs) (map value ys)
        ∙ ap (λ t. d.bytes ++ t) (sym (values-append xs ys))

    next : length d.bytes + length xs ≡ length (d.bytes ++ map value xs)
    next = omega (arith, length-append d.bytes (map value xs), length-values xs)

    holes_side :
        (d.unmapped ++ holes (length d.bytes) xs) ++ holes (length (d.bytes ++ map value xs)) ys
        ≡ d.unmapped ++ holes (length d.bytes) (xs ++ ys)
    holes_side =
        append_assoc d.unmapped (holes (length d.bytes) xs)
          (holes (length (d.bytes ++ map value xs)) ys)
        ∙ ap (λ t. d.unmapped ++ t)
            (sym (holes-append (length d.bytes) (length (d.bytes ++ map value xs)) xs ys next))

marker_is : (a b : ℕ) → a ≡ b'?' → b ≡ b'?' → bytes_eq (a ∷ b ∷ []) (codes "??") ≡ true
marker_is a b p q = ground (arith, p, q)

behind-none : (d : Dump) → length d.bytes < 2 ^ 32 → push_unmapped d ≡ behind d (none ∷ [])
behind-none d h =
    ap (λ n. record { bytes = d.bytes ++ 0 ∷ []; unmapped = d.unmapped ++ n ∷ [] }) (omega arith)

behind-some : (d : Dump) (v : ℕ) → push_byte v d ≡ behind d (some v ∷ [])
behind-some d v =
    ap (λ u. record { bytes = d.bytes ++ v ∷ []; unmapped = u }) (sym (append-nil d.unmapped))

length-behind :
    (d : Dump) (cells : List Cell) → length (behind d cells).bytes ≡ length d.bytes + length cells
length-behind d cells = omega (arith, length-append d.bytes (map value cells), length-values cells)

chunk_unmapped :
    (a b : ℕ) (s : Bytes) (d : Dump)
    → a ≡ b'?'
    → b ≡ b'?'
    → dump_chunks (a ∷ b ∷ s) d ≡ dump_chunks s (push_unmapped d)
unfolding dump_chunks
chunk_unmapped a b s d p q = rw (marker_is a b p q, dump_chunks) refl

chunk_byte :
    (a b v : ℕ) (s : Bytes) (d : Dump)
    → bytes_eq (a ∷ b ∷ []) (codes "??") ≡ false
    → hex_pair (a ∷ b ∷ []) ≡ some v
    → dump_chunks (a ∷ b ∷ s) d ≡ dump_chunks s (push_byte v d)
unfolding dump_chunks
chunk_byte a b v s d p q = rw (p, dump_chunks) (rw (q, dump_chunks) refl)

chunks_read :
    (s : Bytes) (cells : List Cell) (d : Dump)
    → Shows s cells
    → Fits d cells
    → dump_chunks s d ≡ ok (behind d cells)
chunks_read [] [] d h fits =
    unfold dump_chunks in
    ap ok
      (λ i. record { bytes = sym (append-nil d.bytes) i; unmapped = sym (append-nil d.unmapped) i })
chunks_read [] (c ∷ cells) d h fits = absurd h
chunks_read (a ∷ []) cells d h fits = absurd (single_shows a cells h)
  where
    single_shows : (a : ℕ) (cells : List Cell) → Shows (a ∷ []) cells → ⊥
    single_shows a [] h = h
    single_shows a (c ∷ cells) h = h
chunks_read (a ∷ b ∷ s) [] d h fits = absurd h
chunks_read (a ∷ b ∷ s) (none ∷ cells) d ((ha, hb), h) fits =
    chunk_unmapped a b s d ha hb
    ∙ ap (dump_chunks s) (behind-none d (omega (arith, fits)))
    ∙ chunks_read s cells (behind d (none ∷ [])) h
        (omega (arith, fits, length-behind d (none ∷ [])))
    ∙ ap ok (behind-append d (none ∷ []) cells)
chunks_read (a ∷ b ∷ s) (some v ∷ cells) d ((x, l, p, q, e), h) fits =
    chunk_byte a b v s d (digits_no_marker a b x p) (hex_pair-digits a b x l p q ∙ ap some (sym e))
    ∙ ap (dump_chunks s) (behind-some d v)
    ∙ chunks_read s cells (behind d (some v ∷ [])) h
        (omega (arith, fits, length-behind d (some v ∷ [])))
    ∙ ap ok (behind-append d (some v ∷ []) cells)

even-Shows : (s : Bytes) (cells : List Cell) → Shows s cells → length s ≡ 2 * length cells
even-Shows [] [] h = refl
even-Shows [] (c ∷ cells) h = absurd h
even-Shows (a ∷ []) [] h = absurd h
even-Shows (a ∷ []) (c ∷ cells) h = absurd h
even-Shows (a ∷ b ∷ s) [] h = absurd h
even-Shows (a ∷ b ∷ s) (c ∷ cells) (_, h) = omega (arith, even-Shows s cells h)

line_read :
    (s : Bytes) (cells : List Cell) (d : Dump)
    → Shows s cells
    → Fits d cells
    → dump_line s d ≡ ok (behind d cells)
unfolding dump_line
line_read s cells d h fits =
    let even : (length s % 2 == 0) ≡ true = ground (arith, even-Shows s cells h) in
    rw (even) (chunks_read s cells d h fits)

lines_read :
    (lines : List Bytes) (rows : List (List Cell)) (d : Dump)
    → ShowsAll lines rows
    → Fits d (concat rows)
    → dump_lines lines d ≡ ok (behind d (concat rows))
unfolding dump_lines
lines_read [] [] d h fits =
    ap ok
      (λ i. record { bytes = sym (append-nil d.bytes) i; unmapped = sym (append-nil d.unmapped) i })
lines_read [] (r ∷ rows) d h fits = absurd h
lines_read (line ∷ lines) [] d h fits = absurd h
lines_read (line ∷ lines) (r ∷ rows) d (hl, h) fits =
    let long : length (r ++ concat rows) ≡ length r + length (concat rows) =
      length-append r (concat rows) in
    rw (line_read line r d hl (omega (arith, fits, long))) (
      lines_read lines rows (behind d r) h (omega (arith, fits, long, length-behind d r))
      ∙ ap ok (behind-append d r (concat rows)))

-- A dump that shows memory cells line by line, at most 2 ^ 32 of them, is read as these cells: the
-- bytes in order with zeros where nothing is mapped, and the offsets of exactly those places.
pub get_mem-parse :
    (address len : ℕ) (head : Bytes) (lines : List Bytes) (rows : List (List Cell))
    → ShowsAll lines rows
    → length (concat rows) ≤ 2 ^ 32
    → (get_mem address len).parse (Response.multiline head lines)
      ≡ ok (record {
        address = address;
        bytes = map value (concat rows);
        unmapped_offsets = holes 0 (concat rows);
      })
unfolding get_mem get_mem_parse expect_multiline
get_mem-parse address len head lines rows h fits =
    rw (lines_read lines rows no_dump h (omega (arith, fits))) refl
