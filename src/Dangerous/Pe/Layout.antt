-- ===== src/Dangerous/Pe/Layout.antt =====
-- The layout that is read of an image in memory (crates/xeedee/src/commands/dangerous/pe.rs).
use xeedee.Base.{
  ℕ, ◌+◌, ◌*◌, ◌%◌, ◌^◌, ◌<◌, ◌≡◌, refl, ap, ◌∙◌, some, [], map, arith, Bytes, ok, length,
}
use xeedee.Base.Results.{tried}
use xeedee.Dangerous.Pe.{read_layout}
use xeedee.Dangerous.Pe.Image.{
  PeImage, IsImage, listed, dos_bytes, header_bytes, table_bytes, dos_read, header_read, table_read,
}
use xeedee.Dangerous.Sigscan.{Console, read}
use xeedee.Dangerous.Sigscan.Pages.{range, range_wrap, IsReadable, read-range}

-- The image is in the memory where the module is loaded.
abbrev pub IsLoaded : (ℕ → ℕ) → ℕ → PeImage → Type 0
IsLoaded mem base i =
    (range mem base 64 ≡ dos_bytes i)
    × (range mem (base + i.e_lfanew) 24 ≡ header_bytes i)
    × (range mem (base + i.e_lfanew + 24 + i.optional) (length i.entries * 40)
        ≡ table_bytes i.entries)

module _ {S : Type 0} (console : Console S) (view : S → ℕ → ℕ)
    (readable : IsReadable console view) where
  reads :
      (a b n : ℕ) (s : S) (mem : ℕ → ℕ) (bytes : Bytes)
      → n < 2 ^ 32
      → view s ≡ mem
      → a % 2 ^ 32 ≡ b % 2 ^ 32
      → range mem b n ≡ bytes
      → (s' : S) × (read console a n s ≡ some (ok bytes, s')) × (view s' ≡ mem)
  reads a b n s mem bytes small same wrapped held =
      let (s', got, kept) = read-range console view readable a n s small in
      (
        s',
        got
            ∙ ap (λ r. some (ok r, s'))
                (ap (λ v. range v a n) same ∙ range_wrap mem a b n wrapped ∙ held),
        kept ∙ same,
      )

  -- Over a console whose `getmem` of up to 64 KiB succeeds with what the memory holds and changes
  -- nothing, the layout of an image that is loaded at a base is read as the base and the image's
  -- sections, in order, and the memory stays as it is; the module may wrap around the end of the
  -- addresses. The image has one to 64 sections, whose names have up to eight bytes of UTF-8 and no
  -- zero, and each part of it has the format's width.
  pub read_layout-IsLoaded :
      (i : PeImage) (base : ℕ) (s : S)
      → IsImage i
      → IsLoaded (view s) base i
      → (s' : S) × (read_layout console base s
          ≡ some (ok (record { module_base = base; sections = map listed i.entries }), s'))
        × (view s' ≡ view s)
  unfolding read_layout tried
  read_layout-IsLoaded i base s valid (dos, header, table) =
      let (s1, got1, same1) =
        reads base base 64 s (view s) (dos_bytes i) (omega arith) refl refl dos in
      let (s2, got2, same2) =
        reads ((base + i.e_lfanew) % 2 ^ 32) (base + i.e_lfanew) 24 s1 (view s) (header_bytes i)
          (omega arith) same1 (omega arith) header in
      let (s3, got3, same3) =
        reads ((base + (i.e_lfanew + 24 + i.optional) % 2 ^ 32) % 2 ^ 32)
          (base + i.e_lfanew + 24 + i.optional) (length i.entries * 40) s2 (view s)
          (table_bytes i.entries) (omega (arith, valid.5)) same2 (omega arith) table in
      (
        s3,
        rw
            (
              got1,
              dos_read i valid,
              got2,
              header_read i valid,
              got3,
              table_read i.entries 0 [] valid.6 refl,
            )
            refl,
        same3,
      )
