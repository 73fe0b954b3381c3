-- ===== src/Witnesses/Memories.antt =====
-- Concrete inputs for the theorems on memory: a dump, a write, a scan, and a console whose memory is
-- a function.
use xeedee.Base.{
  ℕ, zero, suc, ◌+◌, ◌-◌, ◌/◌, ◌%◌, ◌^◌, ◌≤◌, ◌<◌, min, ◌≡◌, refl, sym, ap, ◌∙◌, Option, none, some,
  List, [], ◌∷◌, ◌++◌, append_assoc, arith, Bytes, codes, Result, ok, err, take-min, length, take,
  get_elem?, All, length-append, length-take,
}
use xeedee.Protocol.Error.{Error}
use xeedee.Commands.Memory.{
  BytesWritten, get_mem, set_mem, hex_pair, upper_hex, hex_string_to_bytes,
}
use xeedee.Commands.Memory.Decode.{get_mem-parse}
use xeedee.Commands.Memory.Encode.{set_mem-wire_line}
use xeedee.Crates.{plain, plain-Documented}
use xeedee.Dangerous.Sigscan.{
  Console, chunk, to_be_bytes, find_bytes, find_bytes_all, read, read_u32_be, write_u32_be,
}
use xeedee.Dangerous.Sigscan.Pages.{
  range, IsReadable, IsCounted, read-range, read_u32_be-write_u32_be,
}
use xeedee.Dangerous.Sigscan.Scan.{IsFirst, IsEvery, first_of, find_bytes-IsFirst}
use xeedee.Protocol.Kv.{parse_kv_line, value_u32}
use xeedee.Protocol.SuccessCode.{SuccessCode}
use xeedee.Protocol.Tokens.{bare}
use xeedee.Protocol.Response.{Response}
use xeedee.Text.Utf8.{is_utf8}
use xeedee.Text.Number.{from_radix, print, print_hex}

Memory : Type 0
Memory = ℕ → ℕ

-- What is at `k` once `bytes` have been stored at `a`.
abbrev at_offset : Option ℕ → ℕ → ℕ
at_offset none old = old
at_offset (some b) old = b

abbrev store : ℕ → Bytes → (ℕ → ℕ) → ℕ → ℕ
store a bytes mem k = at_offset (get_elem? bytes ((k + 2 ^ 32 - a) % 2 ^ 32)) (mem k)

abbrev pub console : Console (ℕ → ℕ)
console = record {
  run_get_mem =
      λ a n mem. (ok (record { address = a; bytes = range mem a n; unmapped_offsets = [] }), mem);
  run_set_mem = λ a bytes mem.
      (ok (record { requested = length bytes; written = length bytes }), store a bytes mem);
}

get_elem?_behind : (s t : Bytes) (b : ℕ) → get_elem? (s ++ b ∷ t) (length s) ≡ some b
get_elem?_behind [] t b = refl
get_elem?_behind (c ∷ s) t b = get_elem?_behind s t b

range-store :
    (a : ℕ) (s t : Bytes) (mem : ℕ → ℕ)
    → a < 2 ^ 32
    → length s + length t ≤ chunk
    → range (store a (s ++ t) mem) (a + length s) (length t) ≡ t
unfolding range
range-store a s [] mem low small = refl
range-store a s (b ∷ t) mem low small =
    ap
      (λ k.
        at_offset (get_elem? (s ++ b ∷ t) k) (mem ((a + length s) % 2 ^ 32))
        ∷ range (store a (s ++ b ∷ t) mem) (a + length s + 1) (length t))
      (omega (arith, low, small))
    ∙ ap
        (λ o.
          at_offset o (mem ((a + length s) % 2 ^ 32))
          ∷ range (store a (s ++ b ∷ t) mem) (a + length s + 1) (length t))
        (get_elem?_behind s t b)
    ∙ ap (λ r. b ∷ r)
        (ap (λ w. range (store a w mem) (a + length s + 1) (length t))
            (sym (append_assoc s (b ∷ []) t))
          ∙ ap (λ k. range (store a ((s ++ b ∷ []) ++ t) mem) k (length t))
              (omega (arith, length-append s (b ∷ [])))
          ∙ range-store a (s ++ b ∷ []) t mem low (omega (arith, length-append s (b ∷ []), small)))

pub console-IsReadable : IsReadable console (λ mem. mem)
console-IsReadable = record { gets = λ a n mem low some_bytes small. (_, mem, refl, refl, refl) }

-- A console that stops after the first two bytes of a write.
abbrev stopping : Console (ℕ → ℕ)
stopping = record {
  run_get_mem = console.run_get_mem;
  run_set_mem = λ a bytes mem. (
    ok (record { requested = length bytes; written = min 2 (length bytes) }),
    store a (take 2 bytes) mem,
  );
}

stopping-IsReadable : IsReadable stopping (λ mem. mem)
stopping-IsReadable = record { gets = λ a n mem low some_bytes small. (_, mem, refl, refl, refl) }

bytes_stored : (s : Bytes) (o : ℕ) → All (λ b. b < 256) s → at_offset (get_elem? s o) 0 < 256
bytes_stored [] o h = omega arith
bytes_stored (b ∷ s) zero (hb, h) = hb
bytes_stored (b ∷ s) (suc o) (hb, h) = bytes_stored s o h

abbrev written_of : Result Error BytesWritten → ℕ
written_of (ok w) = w.written
written_of (err e) = 0

stopping-IsCounted : IsCounted stopping (λ mem. mem)
stopping-IsCounted = record {
  counts = λ a bytes mem mem' w low small eq.
      let few : min 2 (length bytes) ≡ w.written = ap (λ p. written_of (p.0)) eq in
      let stored : store a (take 2 bytes) mem ≡ mem' = ap (λ p. p.1) eq in
      let long : w.written ≡ length (take 2 bytes) = omega (arith, few, length-take 2 bytes) in
      (
        omega (arith, few),
        ap (λ v. range v a w.written) (sym stored)
            ∙ ap (range (store a (take 2 bytes) mem) a) long
            ∙ ap (λ k. range (store a (take 2 bytes) mem) k (length (take 2 bytes))) (omega arith)
            ∙ range-store a [] (take 2 bytes) mem low (omega (arith, small, length-take 2 bytes))
            ∙ sym (take-min 2 bytes)
            ∙ ap (λ n. take n bytes) few,
      );
}

read-range_example :
    (s' : ℕ → ℕ) × (read console 0xffffffff 0x20000 (λ k. k % 256)
      ≡ some (ok (range (λ k. k % 256) 0xffffffff 0x20000), s'))
    × (s' ≡ (λ k. k % 256))
read-range_example =
    read-range console (λ mem. mem) console-IsReadable 0xffffffff 0x20000 (λ k. k % 256)
      (omega arith)

read_u32_be-write_u32_be_example :
    (got : ℕ) × (s'' : ℕ → ℕ) × (write_u32_be stopping 0x82000000 0xdeadbeef (λ k. 0)
      ≡ some (ok tt, store 0x82000000 (0xde ∷ 0xad ∷ []) (λ k. 0)))
    × (read_u32_be stopping 0x82000000 (store 0x82000000 (0xde ∷ 0xad ∷ []) (λ k. 0))
        ≡ some (ok got, s''))
    × (got / 256 ^ 2 ≡ 0xdeadbeef / 256 ^ 2)
unfolding to_be_bytes
read_u32_be-write_u32_be_example =
    read_u32_be-write_u32_be stopping (λ mem. mem) stopping-IsReadable stopping-IsCounted 0x82000000
      0xdeadbeef (λ k. 0) (store 0x82000000 (0xde ∷ 0xad ∷ []) (λ k. 0))
      (record { requested = 4; written = 2 }) (omega arith) (omega arith) refl
      (λ k.
        bytes_stored (0xde ∷ 0xad ∷ []) ((k + 2 ^ 32 - 0x82000000) % 2 ^ 32)
          (omega arith, (omega arith, tt)))

get_mem-parse_example :
    (get_mem 0x82000000 3).parse (Response.multiline (codes "ok") (codes "0A??" ∷ codes "ff" ∷ []))
    ≡ ok (record { address = 0x82000000; bytes = 10 ∷ 0 ∷ 255 ∷ []; unmapped_offsets = 1 ∷ [] })
unfolding hex_pair from_radix is_utf8
get_mem-parse_example =
    get_mem-parse 0x82000000 3 (codes "ok") (codes "0A??" ∷ codes "ff" ∷ [])
      ((some 10 ∷ none ∷ []) ∷ (some 255 ∷ []) ∷ [])
      (
        ((0, 10, refl, refl, omega arith), ((refl, refl), tt)),
        (((15, 15, refl, refl, omega arith), tt), tt),
      )
      (omega arith)

abbrev payload : Bytes
payload = 0xab ∷ 0xcd ∷ []

set_mem-wire_line_example :
    (line : Bytes) × ((set_mem 0x82000000 payload).wire_line ≡ ok line)
    × (parse_kv_line plain line ≡ record {
      pairs =
          (codes "addr", bare (codes "0x" ++ print_hex 8 0x82000000))
          ∷ (codes "data", bare (upper_hex payload))
          ∷ [];
      flags = codes "setmem" ∷ [];
    })
    × (value_u32 (bare (codes "0x" ++ print_hex 8 0x82000000)) (codes "addr") ≡ ok 0x82000000)
    × (hex_string_to_bytes (upper_hex payload) ≡ ok payload)
    × ((set_mem 0x82000000 payload).parse
          (Response.line SuccessCode.ok (codes "set " ++ (print 10 1 ++ codes " bytes")))
        ≡ ok (record { requested = length payload % 2 ^ 32; written = 1 }))
set_mem-wire_line_example =
    set_mem-wire_line plain plain-Documented 0x82000000 0xab 1 (0xcd ∷ []) (omega arith)
      (omega arith) (omega arith, (omega arith, tt))

abbrev haystack : Bytes
haystack = codes "abcabcabc"

find_bytes-IsFirst_example :
    (r : Option ℕ) × (l : List ℕ) × (find_bytes haystack (codes "ca") 2 ≡ some r)
    × IsFirst haystack (codes "ca") 2 (length haystack - 2) r
    × (find_bytes_all haystack (codes "ca") 2 ≡ some l)
    × IsEvery haystack (codes "ca") 2 (length haystack - 2) 0 l
    × (r ≡ first_of l)
find_bytes-IsFirst_example =
    find_bytes-IsFirst haystack (codes "ca") 2 (omega arith) (omega arith) (omega arith)
