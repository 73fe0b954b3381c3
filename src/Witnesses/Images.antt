-- ===== src/Witnesses/Images.antt =====
-- A module with one section, in the memory of a console.
use xeedee.Base.{ℕ, ◌-◌, ◌≡◌, refl, Option, none, some, [], ◌∷◌, ◌++◌, arith, codes, ok, get_elem?}
use xeedee.Dangerous.Pe.{read_layout}
use xeedee.Dangerous.Pe.Image.{
  Entry, PeImage, zeros, listed, dos_bytes, header_bytes, table_bytes, entry_bytes, le32, le16,
}
use xeedee.Dangerous.Pe.Layout.{read_layout-IsLoaded}
use xeedee.Dangerous.Sigscan.Pages.{range}
use xeedee.Witnesses.Memories.{console, console-IsReadable}
use xeedee.Text.Utf8.{is_utf8}

abbrev code : Entry
code = record {
  name = codes ".text";
  padding = 3;
  virtual_size = 0x12345;
  rva = 0x1000;
  others = zeros 24;
}

abbrev image : PeImage
image = record {
  stub = zeros 58;
  e_lfanew = 64;
  coff = zeros 12;
  optional = 0;
  characteristics = zeros 2;
  entries = code ∷ [];
}

abbrev or_zero : Option ℕ → ℕ
or_zero none = 0
or_zero (some b) = b

memory : ℕ → ℕ
unfolding dos_bytes header_bytes table_bytes
memory k =
    or_zero
      (get_elem? (dos_bytes image ++ (header_bytes image ++ table_bytes (code ∷ []))) (k - 4096))

read_layout-IsLoaded_example :
    (s' : ℕ → ℕ) × (read_layout console 4096 memory
      ≡ some (ok (record { module_base = 4096; sections = listed code ∷ [] }), s'))
    × (s' ≡ memory)
unfolding memory dos_bytes header_bytes table_bytes entry_bytes le16 le32 is_utf8 range
read_layout-IsLoaded_example =
    read_layout-IsLoaded console (λ mem. mem) console-IsReadable image 4096 memory
      (
        refl,
        omega arith,
        refl,
        omega arith,
        omega arith,
        omega arith,
        (
          (
            (omega arith, (omega arith, (omega arith, (omega arith, (omega arith, tt))))),
            refl,
            refl,
            omega arith,
            omega arith,
            refl,
          ),
          tt,
        ),
      )
      (refl, refl, refl)
