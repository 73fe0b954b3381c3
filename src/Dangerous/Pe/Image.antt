-- ===== src/Dangerous/Pe/Image.antt =====
-- PE images as their parts, and how the checks of crates/xeedee/src/commands/dangerous/pe.rs read
-- them.
use xeedee.Base.{
  ℕ, zero, suc, ◌+◌, ◌-◌, ◌*◌, ◌/◌, ◌%◌, ◌^◌, ◌≤◌, ◌<◌, ◌≡◌, refl, sym, ap, ◌∙◌, true, some, List,
  [], ◌∷◌, ◌++◌, map, append_assoc, arith, Bytes, codes, ok, le→leb, length, take, drop, All,
  length-append, take_left, drop_left,
}
use xeedee.Dangerous.Pe.{
  Section, slice, u16_le, u32_le, zero_position, read_section, read_sections, check_count,
  check_machine, check_header, check_dos,
}
use xeedee.Text.Utf8.{is_utf8, from_utf8_lossy_lem}

-- An entry of the section table, with what the reader passes over; `padding` zeros follow the name.
pub record Entry : Type 0 where
  pub name : Bytes
  pub padding : ℕ
  pub virtual_size : ℕ
  pub rva : ℕ
  pub others : Bytes

pub record PeImage : Type 0 where
  pub stub : Bytes
  pub e_lfanew : ℕ
  pub coff : Bytes
  pub optional : ℕ
  pub characteristics : Bytes
  pub entries : List Entry

unfoldable pub le16 : ℕ → Bytes
le16 v = v % 256 ∷ v / 256 % 256 ∷ []

unfoldable pub le32 : ℕ → Bytes
le32 v = v % 256 ∷ v / 256 % 256 ∷ v / 65536 % 256 ∷ v / 16777216 % 256 ∷ []

abbrev pub zeros : ℕ → Bytes
zeros zero = []
zeros (suc n) = 0 ∷ zeros n

unfoldable pub entry_bytes : Entry → Bytes
unfolding le32
entry_bytes e = (e.name ++ zeros e.padding) ++ (le32 e.virtual_size ++ (le32 e.rva ++ e.others))

unfoldable pub table_bytes : List Entry → Bytes
unfolding entry_bytes
table_bytes [] = []
table_bytes (e ∷ es) = entry_bytes e ++ table_bytes es

unfoldable pub dos_bytes : PeImage → Bytes
unfolding le32
dos_bytes i = codes "MZ" ++ (i.stub ++ le32 i.e_lfanew)

unfoldable pub header_bytes : PeImage → Bytes
unfolding le16
header_bytes i =
    (codes "PE" ++ 0 ∷ 0 ∷ [])
    ++ (le16 0x1f2
        ++ (le16 (length i.entries) ++ (i.coff ++ (le16 i.optional ++ i.characteristics))))

abbrev pub IsEntry : Entry → Type 0
IsEntry e =
    All (λ b. 0 < b) e.name
    × (is_utf8 e.name ≡ true)
    × (length e.name + e.padding ≡ 8)
    × (e.virtual_size < 2 ^ 32)
    × (e.rva < 2 ^ 32)
    × (length e.others ≡ 24)

abbrev pub IsImage : PeImage → Type 0
IsImage i =
    (length i.stub ≡ 58)
    × (i.e_lfanew < 2 ^ 32)
    × (length i.coff ≡ 12)
    × (i.optional < 2 ^ 16)
    × (1 ≤ length i.entries)
    × (length i.entries ≤ 64)
    × All IsEntry i.entries

abbrev pub listed : Entry → Section
listed e = record { name = e.name; rva = e.rva; virtual_size = e.virtual_size }

length-zeros : (n : ℕ) → length (zeros n) ≡ n
length-zeros zero = refl
length-zeros (suc n) = ap suc (length-zeros n)

slice-middle :
    (from to : ℕ) (a b c : Bytes)
    → length a ≡ from
    → from + length b ≡ to
    → slice from to (a ++ (b ++ c)) ≡ some b
unfolding slice
slice-middle from to a b c start stop =
    rw
      (
        le→leb from to (omega (arith, stop)),
        le→leb to (length (a ++ (b ++ c)))
            (omega (arith, start, stop, length-append a (b ++ c), length-append b c)),
      )
      (ap some (
        ap (λ n. take (to - from) (drop n (a ++ (b ++ c)))) (sym start)
        ∙ ap (take (to - from)) (drop_left a (b ++ c))
        ∙ ap (λ n. take n (b ++ c)) (omega (arith, stop))
        ∙ take_left b c))

le16_read : (v : ℕ) → v < 2 ^ 16 → u16_le (le16 v) ≡ some v
unfolding u16_le le16
le16_read v h = ap some (omega (arith, h))

le32_read : (v : ℕ) → v < 2 ^ 32 → u32_le (le32 v) ≡ some v
unfolding u32_le le32
le32_read v h = ap some (omega (arith, h))

name_ends : (s : Bytes) (n : ℕ) → All (λ b. 0 < b) s → zero_position (s ++ zeros n) ≡ length s
unfolding zero_position
name_ends [] zero h = refl
name_ends [] (suc n) h = refl
name_ends (b ∷ s) n (hb, h) = ground (arith, hb, name_ends s n h)

name_sliced : (s : Bytes) (n : ℕ) → slice 0 (length s) (s ++ zeros n) ≡ some s
name_sliced s n = slice-middle 0 (length s) [] s (zeros n) refl (omega arith)

module _ (e : Entry) (valid : IsEntry e) where
  eight : length (e.name ++ zeros e.padding) ≡ 8
  eight = omega (arith, length-append e.name (zeros e.padding), length-zeros e.padding, valid.2)

  size_at : slice 8 12 (entry_bytes e) ≡ some (le32 e.virtual_size)
  unfolding entry_bytes le32
  size_at =
      slice-middle 8 12 (e.name ++ zeros e.padding) (le32 e.virtual_size) (le32 e.rva ++ e.others)
        eight refl

  rva_at : slice 12 16 (entry_bytes e) ≡ some (le32 e.rva)
  unfolding entry_bytes le32
  rva_at =
      ap (slice 12 16) (
        sym
          (append_assoc (e.name ++ zeros e.padding) (le32 e.virtual_size) (le32 e.rva ++ e.others)))
      ∙ slice-middle 12 16 ((e.name ++ zeros e.padding) ++ le32 e.virtual_size) (le32 e.rva)
          e.others
          (omega (arith, eight, length-append (e.name ++ zeros e.padding) (le32 e.virtual_size)))
          refl

  name_at : slice 0 8 (entry_bytes e) ≡ some (e.name ++ zeros e.padding)
  unfolding entry_bytes
  name_at = slice-middle 0 8 [] (e.name ++ zeros e.padding) _ refl (omega (arith, eight))

  section_read : read_section (entry_bytes e) ≡ some (listed e)
  unfolding read_section
  section_read =
      rw
        (
          name_at,
          name_ends e.name e.padding valid.0,
          name_sliced e.name e.padding,
          size_at,
          le32_read e.virtual_size valid.3,
          rva_at,
          le32_read e.rva valid.4,
        )
        (ap (λ n. some (record { name = n; rva = e.rva; virtual_size = e.virtual_size }))
          (from_utf8_lossy_lem e.name valid.1))

  entry_long : length (entry_bytes e) ≡ 40
  unfolding entry_bytes le32
  entry_long = omega (
    arith,
    length-append (e.name ++ zeros e.padding) (le32 e.virtual_size ++ (le32 e.rva ++ e.others)),
    eight,
    valid.5,
  )

-- A table of entries is read as its sections, wherever it starts in what was read.
pub table_read :
    (es : List Entry) (i : ℕ) (before : Bytes)
    → All IsEntry es
    → length before ≡ i * 40
    → read_sections (length es) i (before ++ table_bytes es) ≡ some (map listed es)
unfolding read_sections table_bytes
table_read [] i before valid start = refl
table_read (e ∷ es) i before (first, valid) start =
    rw
      (
        slice-middle (i * 40) ((i + 1) * 40) before (entry_bytes e) (table_bytes es) start
            (omega (arith, entry_long e first)),
        section_read e first,
        sym (append_assoc before (entry_bytes e) (table_bytes es)),
        table_read es (i + 1) (before ++ entry_bytes e) valid
            (omega (arith, start, length-append before (entry_bytes e), entry_long e first)),
      )
      refl

module _ (i : PeImage) (valid : IsImage i) where
  signature_at : slice 0 2 (dos_bytes i) ≡ some (codes "MZ")
  unfolding dos_bytes
  signature_at = slice-middle 0 2 [] (codes "MZ") (i.stub ++ le32 i.e_lfanew) refl refl

  offset_at : slice 60 64 (dos_bytes i) ≡ some (le32 i.e_lfanew)
  unfolding dos_bytes le32
  offset_at =
      slice-middle 60 64 (b'M' ∷ b'Z' ∷ i.stub) (le32 i.e_lfanew) [] (omega (arith, valid.0)) refl

  pub dos_read : check_dos (dos_bytes i) ≡ some (ok i.e_lfanew)
  unfolding check_dos
  dos_read = rw (signature_at, offset_at, le32_read i.e_lfanew valid.1) refl

  magic_at : slice 0 4 (header_bytes i) ≡ some (codes "PE" ++ 0 ∷ 0 ∷ [])
  unfolding header_bytes
  magic_at = slice-middle 0 4 [] (codes "PE" ++ 0 ∷ 0 ∷ []) _ refl refl

  machine_at : slice 4 6 (header_bytes i) ≡ some (le16 0x1f2)
  unfolding header_bytes le16
  machine_at = slice-middle 4 6 (codes "PE" ++ 0 ∷ 0 ∷ []) (le16 0x1f2) _ refl refl

  count_at : slice 6 8 (header_bytes i) ≡ some (le16 (length i.entries))
  unfolding header_bytes le16
  count_at =
      slice-middle 6 8 ((codes "PE" ++ 0 ∷ 0 ∷ []) ++ le16 0x1f2) (le16 (length i.entries))
        (i.coff ++ (le16 i.optional ++ i.characteristics)) refl refl

  optional_at : slice 20 22 (header_bytes i) ≡ some (le16 i.optional)
  unfolding header_bytes le16
  optional_at =
      slice-middle 20 22
        ((codes "PE" ++ 0 ∷ 0 ∷ []) ++ (le16 0x1f2 ++ (le16 (length i.entries) ++ i.coff)))
        (le16 i.optional) i.characteristics (omega (arith, valid.2)) refl

  pub header_read : check_header (header_bytes i) ≡ some (ok (length i.entries, i.optional))
  unfolding check_header check_machine check_count
  header_read =
      rw
        (
          magic_at,
          machine_at,
          le16_read 0x1f2 (omega arith),
          count_at,
          le16_read (length i.entries) (omega (arith, valid.5)),
          le→leb 1 (length i.entries) valid.4,
          le→leb (length i.entries) 64 valid.5,
          optional_at,
          le16_read i.optional valid.3,
        )
        refl
