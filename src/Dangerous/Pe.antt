-- ===== src/Dangerous/Pe.antt =====
-- The reader of a PE image in the console's memory: crates/xeedee/src/commands/dangerous/pe.rs. A
-- slice out of range, which panics, is `none`.
pub mod Image
pub mod Layout
use xeedee.Base.{
  ℕ, zero, suc, ◌+◌, ◌-◌, ◌*◌, ◌/◌, ◌%◌, ◌^◌, ◌≤◌, ◌<◌, min, max, String, ◌≡◌, refl, sym, ap, ◌∙◌,
  subst, fun_ext, ◌≢◌, ◌↔◌, ◌⊎◌, inl, inr, Bool, true, false, ◌&&◌, ◌||◌, not, Option, none, some,
  List, [], ◌∷◌, ◌++◌, map, append-nil, append_assoc, arith, Bytes, codes, bytes_eq, bytes_eq_refl,
  bytes_eq_sound, Result, ok, err, ok_or, map_err, ltb, leb, ◌==◌, if◌then◌else◌, ltb→lt, lt→ltb,
  leb→le, le→leb, leb_false→lt, ltb_false→le, take-min, drop-min, ==_iff, ==_refl, Bool-cases,
  Option-cases, length, take, drop, get_elem?, any, All, length-append, length-take, length-drop,
  take-append-drop, take_all, drop_all, take_left, drop_left, take-append_le, drop-append_le,
  take-append_ge, drop-append_ge, All-append,
}
use xeedee.Base.Options.{◌>>=◌}
use xeedee.Base.Results.{tried}
use xeedee.Dangerous.Sigscan.{Console, read}
use xeedee.Protocol.Error.{
  Error, PeError, pe, missing_dos_signature, missing_pe_signature, unexpected_machine,
  absurd_section_count,
}
use xeedee.Text.Ascii.{eq_ignore_case}
use xeedee.Text.Utf8.{from_utf8_lossy}

-- One entry of the section table; `rva` is relative to the module's base.
pub record Section : Type 0 where
  pub name : Bytes
  pub rva : ℕ
  pub virtual_size : ℕ

pub record PeLayout : Type 0 where
  pub module_base : ℕ
  pub sections : List Section

unfoldable pub address : ℕ → Section → ℕ
address module_base s = (module_base + s.rva) % 2 ^ 32

unfoldable pub end : ℕ → Section → ℕ
unfolding address
end module_base s = (address module_base s + s.virtual_size) % 2 ^ 32

unfoldable pub find_section : Bytes → List Section → Option Section
find_section name [] = none
find_section name (s ∷ rest) = if eq_ignore_case s.name name then some s else find_section name rest

unfoldable pub section : Bytes → PeLayout → Option Section
unfolding find_section
section name layout = find_section name layout.sections

-- `max` over the ends; of none, the base.
unfoldable pub last_end : ℕ → List Section → Option ℕ
unfolding end
last_end module_base [] = none
last_end module_base (s ∷ rest) = elim (last_end module_base rest) [
  | none ↦ some (end module_base s)
  | some e ↦ some (max (end module_base s) e)
]

unfoldable pub module_end : PeLayout → ℕ
unfolding last_end
module_end layout = elim (last_end layout.module_base layout.sections) [
  | none ↦ layout.module_base
  | some e ↦ e
]

-- `&bytes[from..to]`
unfoldable pub slice : ℕ → ℕ → Bytes → Option Bytes
slice from to bytes =
    if leb from to && leb to (length bytes) then some (take (to - from) (drop from bytes)) else none

unfoldable pub u16_le : Bytes → Option ℕ
u16_le (a ∷ b ∷ []) = some (a + 256 * b)
u16_le _ = none

unfoldable pub u32_le : Bytes → Option ℕ
u32_le (a ∷ b ∷ c ∷ d ∷ []) = some (a + 256 * (b + 256 * (c + 256 * d)))
u32_le _ = none

-- `iter().position(|&b| b == 0).unwrap_or(…)`
unfoldable pub zero_position : Bytes → ℕ
zero_position [] = 0
zero_position (b ∷ s) = if b == 0 then 0 else suc (zero_position s)

-- An entry of 40 bytes.
unfoldable pub read_section : Bytes → Option Section
unfolding slice u32_le zero_position from_utf8_lossy
read_section entry = do
  name_bytes ← slice 0 8 entry
  name ← slice 0 (zero_position name_bytes) name_bytes
  size_bytes ← slice 8 12 entry
  virtual_size ← u32_le size_bytes
  rva_bytes ← slice 12 16 entry
  rva ← u32_le rva_bytes
  some (record { name = from_utf8_lossy name; rva = rva; virtual_size = virtual_size })

-- The entries from number `i` on, `n` of them.
unfoldable pub read_sections : ℕ → ℕ → Bytes → Option (List Section)
unfolding slice read_section
read_sections zero i raw = some []
read_sections (suc n) i raw = do
  entry ← slice (i * 40) ((i + 1) * 40) raw
  s ← read_section entry
  rest ← read_sections n (i + 1) raw
  some (s ∷ rest)

-- The number of sections and the size of the optional header.
unfoldable pub check_count : Bytes → Option (Result Error (ℕ × ℕ))
unfolding slice u16_le
check_count header = do
  count_bytes ← slice 6 8 header
  count ← u16_le count_bytes
  (if leb 1 count && leb count 64
      then (do
        optional_bytes ← slice 20 22 header
        optional ← u16_le optional_bytes
        some (ok (count, optional)))
      else some (err (pe (absurd_section_count count))))

unfoldable pub check_machine : Bytes → Option (Result Error (ℕ × ℕ))
unfolding slice u16_le check_count
check_machine header = do
  machine_bytes ← slice 4 6 header
  machine ← u16_le machine_bytes
  (if machine == 0x1f2 then check_count header else some (err (pe (unexpected_machine machine))))

unfoldable pub check_header : Bytes → Option (Result Error (ℕ × ℕ))
unfolding slice check_machine
check_header header = do
  signature ← slice 0 4 header
  (if bytes_eq signature (codes "PE" ++ 0 ∷ 0 ∷ [])
      then check_machine header
      else some (err (pe missing_pe_signature)))

-- Where the DOS stub says that the PE header is.
unfoldable pub check_dos : Bytes → Option (Result Error ℕ)
unfolding slice u32_le
check_dos dos = do
  signature ← slice 0 2 dos
  (if bytes_eq signature (codes "MZ")
      then (do
        offset_bytes ← slice 0x3c 0x40 dos
        e_lfanew ← u32_le offset_bytes
        some (ok e_lfanew))
      else some (err (pe missing_dos_signature)))

-- A check of what was read, with the state passed on.
abbrev pub checked : {S A : Type 0} → Option (Result Error A) → S → Option (Result Error A × S)
checked none s = none
checked (some r) s = some (r, s)

module _ {S : Type 0} (console : Console S) where
  unfoldable pub read_layout : ℕ → S → Option (Result Error PeLayout × S)
  unfolding read check_dos check_header read_sections tried
  read_layout base s = do
    dos ← read console base 64 s
    tried dos (λ dos_bytes s1. do
      offset ← checked (check_dos dos_bytes) s1
      tried offset (λ e_lfanew s2. do
        got ← read console ((base + e_lfanew) % 2 ^ 32) 24 s2
        tried got (λ header s3. do
          fields ← checked (check_header header) s3
          tried fields (λ f s4. do
            table ← read console ((base + (e_lfanew + 24 + f.1) % 2 ^ 32) % 2 ^ 32) (f.0 * 40) s4
            tried table (λ raw s5. do
              sections ← read_sections f.0 0 raw
              some (ok (record { module_base = base; sections = sections }), s5))))))
