-- ===== src/Dangerous/Sigscan.antt =====
-- Paged memory reads and byte scans: crates/xeedee/src/commands/dangerous/sigscan.rs. A client that
-- runs the memory commands is a parameter; a loop that never ends has no result.
pub mod Scan
pub mod Pages
use xeedee.Base.{
  ℕ, zero, suc, ◌+◌, ◌-◌, ◌*◌, ◌/◌, ◌%◌, ◌^◌, ◌≤◌, ◌<◌, min, max, String, ◌≡◌, refl, sym, ap, ◌∙◌,
  subst, fun_ext, ◌≢◌, ◌↔◌, ◌⊎◌, inl, inr, Bool, true, false, ◌&&◌, ◌||◌, not, Option, none, some,
  List, [], ◌∷◌, ◌++◌, map, append-nil, append_assoc, arith, Bytes, codes, bytes_eq, bytes_eq_refl,
  bytes_eq_sound, Result, ok, err, ok_or, map_err, ltb, leb, ◌==◌, if◌then◌else◌, ltb→lt, lt→ltb,
  leb→le, le→leb, leb_false→lt, ltb_false→le, take-min, drop-min, ==_iff, ==_refl, Bool-cases,
  Option-cases, length, take, drop, get_elem?, any, All, length-append, length-take, length-drop,
  take-append-drop, take_all, drop_all, take_left, drop_left, take-append_le, drop-append_le,
  take-append_ge, drop-append_ge, All-append,
}
use xeedee.Base.Options.{◌>>=◌}
use xeedee.Base.Results.{tried}
use xeedee.Commands.Memory.{MemorySnapshot, BytesWritten}
use xeedee.Protocol.Error.{Error}

-- `client.run(GetMem { … })` and `client.run(SetMem { … })`, with the client's state passed on.
pub record Console (S : Type 0) : Type 0 where
  pub run_get_mem : ℕ → ℕ → S → Result Error MemorySnapshot × S
  pub run_set_mem : ℕ → Bytes → S → Result Error BytesWritten × S

abbrev pub chunk : ℕ
chunk = 0x10000

unfoldable pub from_be_bytes : Bytes → Option ℕ
from_be_bytes (a ∷ b ∷ c ∷ d ∷ []) = some (((a * 256 + b) * 256 + c) * 256 + d)
from_be_bytes _ = none

unfoldable pub to_be_bytes : ℕ → Bytes
to_be_bytes value =
    value / 2 ^ 24 % 256 ∷ value / 2 ^ 16 % 256 ∷ value / 2 ^ 8 % 256 ∷ value % 256 ∷ []

module _ {S : Type 0} (console : Console S) where
  -- Each round moves the cursor, so a fuel above the rest of the range is enough.
  unfoldable pub read_loop : ℕ → ℕ → ℕ → ℕ → Bytes → S → Option (Result Error Bytes × S)
  unfolding tried
  read_loop zero address len cursor out s = none
  read_loop (suc fuel) address len cursor out s = elim (ltb cursor len) [
    | false ↦ some (ok out, s)
    | true ↦
        let part = min chunk (len - cursor) in
        tried (console.run_get_mem ((address + cursor) % 2 ^ 32) part s)
          (λ m s'. read_loop fuel address len ((cursor + part) % 2 ^ 32) (out ++ m.bytes) s')
  ]

  unfoldable pub read : ℕ → ℕ → S → Option (Result Error Bytes × S)
  unfolding read_loop
  read address len s = read_loop (suc len) address len 0 [] s

  -- `u32::from_be_bytes`; `none` is the panic of `expect`, or no result of `read`.
  unfoldable pub read_u32_be : ℕ → S → Option (Result Error ℕ × S)
  unfolding read from_be_bytes tried
  read_u32_be address s = do
    got ← read address 4 s
    tried got (λ bytes s'. do value ← from_be_bytes bytes; some (ok value, s'))

  unfoldable pub write_u32_be : ℕ → ℕ → S → Option (Result Error (Unit {0}) × S)
  unfolding tried
  write_u32_be address value s =
      tried (console.run_set_mem address (to_be_bytes value) s) (λ w s'. some (ok tt, s'))

-- `haystack[i..i + needle.len()] == *needle`
abbrev pub matches : Bytes → Bytes → ℕ → Bool
matches haystack needle i = bytes_eq (take (length needle) (drop i haystack)) needle

unfoldable pub find_loop : ℕ → Bytes → Bytes → ℕ → ℕ → ℕ → Option (Option ℕ)
find_loop zero haystack needle align last i = none
find_loop (suc fuel) haystack needle align last i = elim (leb i last) [
  | false ↦ some none
  | true ↦ elim (matches haystack needle i) [
    | true ↦ some (some i)
    | false ↦ find_loop fuel haystack needle align last (i + align)
  ]
]

abbrev pub cannot_occur : Bytes → Bytes → Bool
cannot_occur haystack needle = (length needle == 0) || ltb (length haystack) (length needle)

unfoldable pub find_bytes : Bytes → Bytes → ℕ → Option (Option ℕ)
unfolding find_loop
find_bytes haystack needle align =
    if cannot_occur haystack needle
    then some none
    else find_loop (suc (length haystack)) haystack needle align (length haystack - length needle) 0

unfoldable pub find_cstr : Bytes → Bytes → Option (Option ℕ)
unfolding find_bytes
find_cstr haystack needle = find_bytes haystack (needle ++ 0 ∷ []) 1

unfoldable pub find_all_loop : ℕ → Bytes → Bytes → ℕ → ℕ → ℕ → List ℕ → Option (List ℕ)
find_all_loop zero haystack needle align last i out = none
find_all_loop (suc fuel) haystack needle align last i out = elim (leb i last) [
  | false ↦ some out
  | true ↦
      find_all_loop fuel haystack needle align last (i + align)
        (if matches haystack needle i then out ++ i ∷ [] else out)
]

unfoldable pub find_bytes_all : Bytes → Bytes → ℕ → Option (List ℕ)
unfolding find_all_loop
find_bytes_all haystack needle align =
    if cannot_occur haystack needle
    then some []
    else find_all_loop (suc (length haystack)) haystack needle align
        (length haystack - length needle) 0 []

skips_unaligned : find_bytes (0 ∷ 0xde ∷ 0xad ∷ 0xbe ∷ []) (0xde ∷ 0xad ∷ []) 2 ≡ some none
unfolding find_bytes
skips_unaligned = refl
