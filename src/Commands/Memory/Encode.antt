-- ===== src/Commands/Memory/Encode.antt =====
-- What is written to memory, as the console reads it (crates/xeedee/src/commands/memory.rs).
use xeedee.Base.{
  ℕ, ◌/◌, ◌%◌, ◌^◌, ◌<◌, ◌≡◌, refl, sym, ap, ◌∙◌, ◌≢◌, true, false, none, some, List, [], ◌∷◌, ◌++◌,
  append-nil, append_assoc, arith, Bytes, codes, ok, ◌==◌, length, All,
}
use xeedee.Commands.Memory.{
  hex_pair, hex_chunks, hex_string_to_bytes, upper_char, upper_hex, set_mem, set_mem_line,
  set_mem_parse, words_from, first_number,
}
use xeedee.Commands.Memory.Decode.{hex_pair-digits}
use xeedee.Crates.{Crates, Documented}
use xeedee.Protocol.Args.RoundTrip.{hex32_read, hex_bare, hex_unquoted, prefixed_bare, tokens_line}
use xeedee.Protocol.Kv.{parse_kv_line, value_u32}
use xeedee.Protocol.Response.{Response, expect_ok}
use xeedee.Protocol.SuccessCode
use xeedee.Protocol.Tokens.{bare, is_key, is_bare}
use xeedee.Protocol.Tokens.Items.{
  Item, pair_item, flag_item, render_item, render_items, add_items, IsItem, kv_tokens-render,
}
use xeedee.Protocol.Tokens.Pieces.{AllPass, Stops}
use xeedee.Text.Ascii.{is_whitespace, is_hexdigit}
use xeedee.Text.Number.{to_digit, from_radix, print, print_hex, max_u32}
use xeedee.Text.Number.Digits.{IsHexText, print-ne-nil, print_hex-IsHexText, print-IsHexText}
use xeedee.Text.Number.RoundTrip.{from_radix-print}

abbrev IsBytes : Bytes → Type 0
IsBytes = All (λ b. b < 256)

upper_digit : (d : ℕ) → d < 16 → to_digit 16 (upper_char d) ≡ some d
unfolding to_digit upper_char
upper_digit d h = ground arith

upper-IsHexText : (s : Bytes) → IsHexText (upper_hex s)
unfolding upper_hex upper_char is_hexdigit
upper-IsHexText [] = tt
upper-IsHexText (b ∷ s) = (ground arith, (ground arith, upper-IsHexText s))

pair_read :
    (b : ℕ) → b < 256 → hex_pair (upper_char (b / 16 % 16) ∷ upper_char (b % 16) ∷ []) ≡ some b
pair_read b h =
    hex_pair-digits (upper_char (b / 16 % 16)) (upper_char (b % 16)) (b / 16 % 16) (b % 16)
      (upper_digit (b / 16 % 16) (omega arith)) (upper_digit (b % 16) (omega arith))
    ∙ ap some (omega arith)

chunks-upper : (s out : Bytes) → IsBytes s → hex_chunks (upper_hex s) out ≡ ok (out ++ s)
unfolding hex_chunks upper_hex
chunks-upper [] out h = ap ok (sym (append-nil out))
chunks-upper (b ∷ s) out (hb, h) =
    rw (pair_read b hb, hex_chunks)
      (chunks-upper s (out ++ b ∷ []) h ∙ ap ok (append_assoc out (b ∷ []) s))

length-upper : (s : Bytes) → length (upper_hex s) % 2 ≡ 0
unfolding upper_hex
length-upper [] = omega arith
length-upper (b ∷ s) = omega (arith, length-upper s)

hex_string-upper : (s : Bytes) → IsBytes s → hex_string_to_bytes (upper_hex s) ≡ ok s
unfolding hex_string_to_bytes
hex_string-upper s h =
    let even : (length (upper_hex s) % 2 == 0) ≡ true = ground (arith, length-upper s) in
    rw (even) (chunks-upper s [] h)

-- The two arguments of the command.
abbrev sent_items : ℕ → Bytes → List Item
sent_items address s =
    pair_item (codes "addr") (bare (codes "0x" ++ print_hex 8 address))
    ∷ pair_item (codes "data") (bare (upper_hex s))
    ∷ []

sent_line :
    (address b : ℕ) (s : Bytes)
    → set_mem_line address (b ∷ s)
      ≡ ok (render_item (flag_item (codes "setmem")) ++ render_items (sent_items address (b ∷ s)))
unfolding set_mem_line render_items
sent_line address b s = rw (append-nil (upper_hex s)) refl

sent_IsItem : (address : ℕ) (s : Bytes) → All IsItem (sent_items address s)
unfolding is_key is_whitespace Stops
sent_IsItem address s = (
  (
    (refl, (refl, (refl, (refl, tt)))),
    omega arith,
    (prefixed_bare (print_hex 8 address) (print_hex-IsHexText 8 address), refl),
  ),
  (
    (
      (refl, (refl, (refl, (refl, tt)))),
      omega arith,
      (hex_bare (upper_hex s) (upper-IsHexText s), hex_unquoted (upper_hex s) (upper-IsHexText s)),
    ),
    tt,
  ),
)

-- Words are read up to a space.
words_run :
    (word w rest : Bytes)
    → AllPass is_bare w
    → words_from word (w ++ 32 ∷ rest) ≡ words_from (word ++ w) (32 ∷ rest)
unfolding words_from is_bare
words_run word [] rest h = ap (λ t. words_from t (32 ∷ rest)) (sym (append-nil word))
words_run [] (c ∷ w) rest (hc, h) =
    let solid : is_whitespace c ≡ false = ground (arith, hc) in
    rw (solid, words_from) (words_run (c ∷ []) w rest h)
words_run (b ∷ word) (c ∷ w) rest (hc, h) =
    let solid : is_whitespace c ≡ false = ground (arith, hc) in
    rw (solid, words_from)
      (words_run (b ∷ (word ++ c ∷ [])) w rest h
        ∙ ap (λ t. words_from (b ∷ t) (32 ∷ rest)) (append_assoc word (c ∷ []) w))

words_word :
    (w rest : Bytes)
    → w ≢ []
    → AllPass is_bare w
    → words_from [] (w ++ 32 ∷ rest) ≡ w ∷ words_from [] rest
words_word [] rest h hw = absurd (h refl)
words_word (b ∷ w) rest h hw =
    words_run [] (b ∷ w) rest hw ∙ unfold words_from is_whitespace in refl

second_number :
    (a b : Bytes) (l : List Bytes) (n : ℕ)
    → from_radix 10 max_u32 a ≡ none
    → from_radix 10 max_u32 b ≡ some n
    → first_number (a ∷ b ∷ l) ≡ some n
unfolding first_number
second_number a b l n h k = rw (h, first_number) (rw (k) refl)

answer_read :
    (n : ℕ)
    → n < 2 ^ 32
    → first_number (words_from [] (codes "set " ++ (print 10 n ++ codes " bytes"))) ≡ some n
answer_read n h =
    let digits : IsHexText (print 10 n) = print-IsHexText 10 n (omega arith) (omega arith) in
    ap first_number (
      words_word (codes "set") (print 10 n ++ codes " bytes") (λ e. cc)
        (unfold is_bare is_whitespace in (refl, (refl, (refl, tt)))))
    ∙ ap (λ l. first_number (codes "set" ∷ l))
        (words_word (print 10 n) (codes "bytes") (print-ne-nil 10 n) (hex_bare (print 10 n) digits))
    ∙ second_number (codes "set") (print 10 n) (words_from [] (codes "bytes")) n
        (unfold from_radix in refl)
        (from_radix-print 10 max_u32 n (omega arith) (omega arith) (omega arith) (omega arith))

command_key : IsItem (flag_item (codes "setmem"))
unfolding is_key is_whitespace
command_key = ((refl, (refl, (refl, (refl, (refl, (refl, tt)))))), omega arith)

-- The line that writes bytes carries the address and exactly these bytes: it parses to the two
-- arguments of the command, which read back as the address and, as hexadecimal text, the bytes. The
-- console's answer that it set a number of bytes is reported with that number and the number asked.
-- There is at least one byte, and the address and the number are of 32 bits.
pub set_mem-wire_line :
    (x : Crates)
    → Documented x
    → (address b n : ℕ) (s : Bytes) → address < 2 ^ 32
    → n < 2 ^ 32
    → IsBytes (b ∷ s)
    → (line : Bytes) × ((set_mem address (b ∷ s)).wire_line ≡ ok line)
      × (parse_kv_line x line ≡ record {
        pairs =
            (codes "addr", bare (codes "0x" ++ print_hex 8 address))
            ∷ (codes "data", bare (upper_hex (b ∷ s)))
            ∷ [];
        flags = codes "setmem" ∷ [];
      })
      × (value_u32 (bare (codes "0x" ++ print_hex 8 address)) (codes "addr") ≡ ok address)
      × (hex_string_to_bytes (upper_hex (b ∷ s)) ≡ ok (b ∷ s))
      × ((set_mem address (b ∷ s)).parse
            (Response.line SuccessCode.ok (codes "set " ++ (print 10 n ++ codes " bytes")))
          ≡ ok (record { requested = length (b ∷ s) % 2 ^ 32; written = n }))
unfolding set_mem set_mem_parse expect_ok add_items
set_mem-wire_line x d address b n s small few h = (
  render_item (flag_item (codes "setmem")) ++ render_items (sent_items address (b ∷ s)),
  sent_line address b s,
  tokens_line x _ _ (
      kv_tokens-render x d (flag_item (codes "setmem")) (sent_items address (b ∷ s)) command_key
        (sent_IsItem address (b ∷ s))),
  hex32_read address (codes "addr") small,
  hex_string-upper (b ∷ s) h,
  rw (answer_read n few) refl,
)
