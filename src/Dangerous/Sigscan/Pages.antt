-- ===== src/Dangerous/Sigscan/Pages.antt =====
-- What paged reads return (crates/xeedee/src/commands/dangerous/sigscan.rs), for a console whose
-- memory commands do what they are documented to do.
use xeedee.Base.{
  ℕ, zero, suc, ◌+◌, ◌-◌, ◌/◌, ◌%◌, ◌^◌, ◌≤◌, ◌<◌, min, ◌≡◌, refl, sym, ap, ◌∙◌, inl, inr, true,
  false, some, [], ◌∷◌, ◌++◌, append-nil, append_assoc, arith, Bytes, ok, ltb, ltb→lt, ltb_false→le,
  Bool-cases, length, take,
}
use xeedee.Base.Results.{tried}
use xeedee.Commands.Memory.{MemorySnapshot, BytesWritten}
use xeedee.Dangerous.Sigscan.{
  Console, chunk, read_loop, read, read_u32_be, write_u32_be, from_be_bytes, to_be_bytes,
}

-- The bytes of a memory from an address on; addresses wrap at 32 bits.
unfoldable pub range : (ℕ → ℕ) → ℕ → ℕ → Bytes
range mem a zero = []
range mem a (suc n) = mem (a % 2 ^ 32) ∷ range mem (a + 1) n

length-range : (mem : ℕ → ℕ) (a n : ℕ) → length (range mem a n) ≡ n
unfolding range
length-range mem a zero = refl
length-range mem a (suc n) = ap suc (length-range mem (a + 1) n)

pub range_wrap : (mem : ℕ → ℕ) (a b n : ℕ) → a % 2 ^ 32 ≡ b % 2 ^ 32 → range mem a n ≡ range mem b n
unfolding range
range_wrap mem a b zero h = refl
range_wrap mem a b (suc n) h =
    ap (λ k. mem k ∷ range mem (a + 1) n) h
    ∙ ap (λ t. mem (b % 2 ^ 32) ∷ t) (range_wrap mem (a + 1) (b + 1) n (omega (arith, h)))

range-append :
    (mem : ℕ → ℕ) (a b n m : ℕ) → a + n ≡ b → range mem a n ++ range mem b m ≡ range mem a (n + m)
unfolding range
range-append mem a b zero m h =
    ap (λ k. range mem k m) (omega (arith, h)) ∙ ap (range mem a) (omega arith)
range-append mem a b (suc n) m h =
    ap (λ t. mem (a % 2 ^ 32) ∷ t) (range-append mem (a + 1) b n m (omega (arith, h)))
    ∙ sym (ap (range mem a) (suc_add n m))
  where
    suc_add : (n m : ℕ) → suc n + m ≡ suc (n + m)
    suc_add n m = omega arith

-- A console whose `getmem` of at most a chunk returns what the memory holds, with zeros where nothing
-- is mapped, and leaves the memory as it is.
pub record IsReadable {S : Type 0} (console : Console S) (view : S → ℕ → ℕ) : Type 0 where
  pub gets :
      (a n : ℕ) (s : S)
      → a < 2 ^ 32
      → 0 < n
      → n ≤ chunk
      → (m : MemorySnapshot) × (s' : S) × (console.run_get_mem a n s ≡ (ok m, s'))
        × (m.bytes ≡ range (view s) a n)
        × (view s' ≡ view s)

-- A console whose `setmem`, where it answers, has stored as many of the first bytes as it counts,
-- which may be fewer than it was given.
pub record IsCounted {S : Type 0} (console : Console S) (view : S → ℕ → ℕ) : Type 0 where
  pub counts :
      (a : ℕ) (bytes : Bytes) (s s' : S) (w : BytesWritten)
      → a < 2 ^ 32
      → length bytes ≤ chunk
      → console.run_set_mem a bytes s ≡ (ok w, s')
      → (w.written ≤ length bytes) × (range (view s') a w.written ≡ take w.written bytes)

-- The byte at a place, zero behind the end.
byte_at : ℕ → Bytes → ℕ
byte_at i [] = 0
byte_at zero (b ∷ s) = b
byte_at (suc i) (b ∷ s) = byte_at i s

-- What four bytes of memory make agrees with a value in as many of the first bytes as they share.
first_bytes :
    (mem : ℕ → ℕ) (a w value : ℕ)
    → ((k : ℕ) → mem k < 256)
    → value < 2 ^ 32
    → w ≤ 4
    → range mem a w ≡ take w (to_be_bytes value)
    → (got : ℕ) × (from_be_bytes (range mem a 4) ≡ some got)
      × (got / 256 ^ (4 - w) ≡ value / 256 ^ (4 - w))
unfolding range to_be_bytes from_be_bytes byte_at
first_bytes mem a zero value bytes small few h = (
  _,
  refl,
  omega (
    arith,
    small,
    bytes (a % 2 ^ 32),
    bytes ((a + 1) % 2 ^ 32),
    bytes ((a + 1 + 1) % 2 ^ 32),
    bytes ((a + 1 + 1 + 1) % 2 ^ 32),
  ),
)
first_bytes mem a (suc zero) value bytes small few h = (
  _,
  refl,
  omega (
    arith,
    small,
    ap (byte_at 0) h,
    bytes ((a + 1) % 2 ^ 32),
    bytes ((a + 1 + 1) % 2 ^ 32),
    bytes ((a + 1 + 1 + 1) % 2 ^ 32),
  ),
)
first_bytes mem a (suc (suc zero)) value bytes small few h = (
  _,
  refl,
  omega (
    arith,
    small,
    ap (byte_at 0) h,
    ap (byte_at 1) h,
    bytes ((a + 1 + 1) % 2 ^ 32),
    bytes ((a + 1 + 1 + 1) % 2 ^ 32),
  ),
)
first_bytes mem a (suc (suc (suc zero))) value bytes small few h = (
  _,
  refl,
  omega (
    arith,
    small,
    ap (byte_at 0) h,
    ap (byte_at 1) h,
    ap (byte_at 2) h,
    bytes ((a + 1 + 1 + 1) % 2 ^ 32),
  ),
)
first_bytes mem a (suc (suc (suc (suc zero)))) value bytes small few h = (
  _,
  refl,
  omega (arith, small, ap (byte_at 0) h, ap (byte_at 1) h, ap (byte_at 2) h, ap (byte_at 3) h),
)
first_bytes mem a (suc (suc (suc (suc (suc w))))) value bytes small few h =
    absurd (omega (arith, few))

module _ {S : Type 0} (console : Console S) (view : S → ℕ → ℕ)
    (readable : IsReadable console view) where
  loop_step :
      (fuel address len cursor part : ℕ) (out : Bytes) (s s' : S) (m : MemorySnapshot)
      → ltb cursor len ≡ true
      → part ≡ min chunk (len - cursor)
      → console.run_get_mem ((address + cursor) % 2 ^ 32) part s ≡ (ok m, s')
      → read_loop console (suc fuel) address len cursor out s
        ≡ read_loop console fuel address len ((cursor + part) % 2 ^ 32) (out ++ m.bytes) s'
  unfolding read_loop tried
  loop_step fuel address len cursor part out s s' m more size got =
      rw (more, read_loop, ← size, got) refl

  -- One round and the rest of the range make the range.
  joins :
      (mem mem' : ℕ → ℕ) (address len cursor part next : ℕ) (out part_bytes : Bytes)
      → mem' ≡ mem
      → cursor + part ≡ next
      → next ≤ len
      → part_bytes ≡ range mem ((address + cursor) % 2 ^ 32) part
      → (out ++ part_bytes) ++ range mem' (address + next) (len - next)
        ≡ out ++ range mem (address + cursor) (len - cursor)
  joins mem mem' address len cursor part next out part_bytes same moved inside h =
      ap (λ v. (out ++ part_bytes) ++ range v (address + next) (len - next)) same
      ∙ append_assoc out part_bytes (range mem (address + next) (len - next))
      ∙ ap (λ t. out ++ t)
          (ap (λ t. t ++ range mem (address + next) (len - next))
              (h
                ∙ range_wrap mem ((address + cursor) % 2 ^ 32) (address + cursor) part
                    (omega arith))
            ∙ range-append mem (address + cursor) (address + next) part (len - next)
                (omega (arith, moved))
            ∙ ap (range mem (address + cursor)) (omega (arith, moved, inside)))

  loop_reads :
      (fuel address len cursor : ℕ) (out : Bytes) (s : S)
      → len < 2 ^ 32
      → cursor ≤ len
      → len - cursor < fuel
      → (s' : S) × (read_loop console fuel address len cursor out s
          ≡ some (ok (out ++ range (view s) (address + cursor) (len - cursor)), s'))
        × (view s' ≡ view s)
  unfolding read_loop range
  loop_reads zero address len cursor out s small inside few = absurd (omega (arith, few))
  loop_reads (suc fuel) address len cursor out s small inside few =
      elim (Bool-cases (ltb cursor len)) [
        | inr over ↦ (s, all_read over, refl)
        | inl more ↦
            let less : cursor < len = ltb→lt cursor len more in
            let moved : cursor + min chunk (len - cursor)
                ≡ (cursor + min chunk (len - cursor)) % 2 ^ 32 =
              omega (arith, less, small) in
            let (m, s1, got, bytes, same) =
              readable.gets ((address + cursor) % 2 ^ 32) (min chunk (len - cursor)) s (omega arith)
                (omega (arith, less)) (omega arith) in
            let (s2, rest, same2) =
              loop_reads fuel address len ((cursor + min chunk (len - cursor)) % 2 ^ 32)
                (out ++ m.bytes) s1 small (omega (arith, less, small)) (omega (arith, less, few)) in
            (
              s2,
              loop_step fuel address len cursor _ out s s1 m more refl got
                  ∙ rest
                  ∙ ap (λ r. some (ok r, s2))
                      (joins (view s) (view s1) address len cursor _ _ out m.bytes same moved
                        (omega (arith, less, small)) bytes),
              same2 ∙ same,
            )
      ]
    where
      all_read :
          ltb cursor len ≡ false
          → read_loop console (suc fuel) address len cursor out s
            ≡ some (ok (out ++ range (view s) (address + cursor) (len - cursor)), s)
      all_read over =
          rw (over, read_loop)
            (ap (λ n. some (ok n, s))
              (sym (append-nil out) ∙ ap (λ n. out ++ range (view s) (address + cursor) n) gone))
        where
          gone : 0 ≡ len - cursor
          gone = omega (arith, ltb_false→le cursor len over)

  -- Over a console whose `getmem` of up to 64 KiB succeeds with what the memory holds and changes
  -- nothing, `read` returns what the memory holds from the address on, over any number of `getmem`
  -- commands, and leaves the memory as it is, where the length is one of 32 bits.
  pub read-range :
      (address len : ℕ) (s : S)
      → len < 2 ^ 32
      → (s' : S) × (read console address len s ≡ some (ok (range (view s) address len), s'))
        × (view s' ≡ view s)
  unfolding read
  read-range address len s small =
      let (s', got, same) =
        loop_reads (suc len) address len 0 [] s small (omega arith) (omega arith) in
      (
        s',
        got
            ∙ ap (λ n. some (ok (range (view s) (address + 0) n), s')) (omega arith)
            ∙ ap (λ a. some (ok (range (view s) a len), s')) (omega arith),
        same,
      )

  -- `write_u32_be` reports success whenever `setmem` answers, however few bytes it counts, and
  -- `read_u32_be` then returns a value that agrees with the written one in the bytes that were counted:
  -- the written value itself where all four were. The address and the value are of 32 bits, `getmem`
  -- succeeds with what the memory holds, which is bytes after the write, and `setmem` has stored as
  -- many of the first bytes as it counts.
  pub read_u32_be-write_u32_be :
      IsCounted console view
      → (address value : ℕ) (s s' : S) (w : BytesWritten) → address < 2 ^ 32
      → value < 2 ^ 32
      → console.run_set_mem address (to_be_bytes value) s ≡ (ok w, s')
      → ((k : ℕ) → view s' k < 256)
      → (got : ℕ) × (s'' : S) × (write_u32_be console address value s ≡ some (ok tt, s'))
        × (read_u32_be console address s' ≡ some (ok got, s''))
        × (got / 256 ^ (4 - w.written) ≡ value / 256 ^ (4 - w.written))
  unfolding write_u32_be read_u32_be tried
  read_u32_be-write_u32_be counted address value s s' w low small wrote bytes =
      let (few, stored) =
        counted.counts address (to_be_bytes value) s s' w low (unfold to_be_bytes in omega arith)
          wrote in
      let (got, whole, agrees) =
        first_bytes (view s') address w.written value bytes small (unfold to_be_bytes in few)
          stored in
      let (s'', back, same) = read-range address 4 s' (omega arith) in
      (got, s'', rw (wrote) refl, rw (back, whole) refl, agrees)
