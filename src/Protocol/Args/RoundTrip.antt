-- ===== src/Protocol/Args/RoundTrip.antt =====
-- What a builder of command lines writes is read back by the readers of responses
-- (crates/xeedee/src/protocol/args.rs, crates/xeedee/src/commands/kv.rs).
use xeedee.Base.{
  ℕ, ◌^◌, ◌≤◌, ◌<◌, ◌≡◌, refl, sym, ap, ◌∙◌, false, none, some, List, [], ◌∷◌, ◌++◌, map,
  append-nil, append_assoc, arith, Bytes, codes, ok, ◌==◌, length, All,
}
use xeedee.Protocol.Args.{ArgBuilder, new, flag, dec, hex32, hex, finish}
use xeedee.Crates.{Crates, Documented}
use xeedee.Protocol.Tokens.Pieces.{AllPass, Stops}
use xeedee.Protocol.Tokens.Items.{
  Item, pair_item, flag_item, IsItem, render_items, add_item, add_items, kv_tokens-render,
}
use xeedee.Protocol.Kv.{parse_kv_line, value_u32, value_u64, value_unsigned}
use xeedee.Protocol.Tokens.{as_str, bare, KvTokens, is_key, is_bare, kv_tokens, default}
use xeedee.Text.Ascii.{is_hexdigit, strip_prefix, is_whitespace}
use xeedee.Text.Number.{from_radix, print, print_hex, max_u32, max_u64}
use xeedee.Text.Number.Digits.{IsHexText, print-IsHexText, print_hex-IsHexText}
use xeedee.Text.Number.RoundTrip.{from_radix-print, from_radix-print_hex}

-- Hexadecimal digits do not start with a prefix.
hex_no_prefix :
    (a b : ℕ) (s : Bytes) → is_hexdigit b ≡ false → IsHexText s → strip_prefix a b s ≡ none
unfolding strip_prefix is_hexdigit
hex_no_prefix a b [] h hs = refl
hex_no_prefix a b (c ∷ []) h hs = refl
hex_no_prefix a b (c ∷ d ∷ s) h (_, (hd, _)) = ground (arith, h, hd)

no_prefix_read :
    (s : Bytes) (n : ℕ) (key : Bytes)
    → strip_prefix b'0' b'x' s ≡ none
    → strip_prefix b'0' b'X' s ≡ none
    → from_radix 10 max_u64 s ≡ some n
    → value_u64 (bare s) key ≡ ok n
unfolding value_u64 value_unsigned as_str
no_prefix_read s n key h k r = rw (h, value_u64, value_unsigned) (rw (k) (rw (r) refl))

pub dec_read : (n : ℕ) (key : Bytes) → n < 2 ^ 64 → value_u64 (bare (print 10 n)) key ≡ ok n
unfolding is_hexdigit
dec_read n key h =
    let digits : IsHexText (print 10 n) = print-IsHexText 10 n (omega arith) (omega arith) in
    no_prefix_read (print 10 n) n key (hex_no_prefix b'0' b'x' (print 10 n) refl digits)
      (hex_no_prefix b'0' b'X' (print 10 n) refl digits)
      (from_radix-print 10 max_u64 n (omega arith) (omega arith) (omega arith) h)

pub hex32_read :
    (n : ℕ) (key : Bytes) → n < 2 ^ 32 → value_u32 (bare (codes "0x" ++ print_hex 8 n)) key ≡ ok n
unfolding value_u32 value_unsigned strip_prefix
hex32_read n key h =
    rw (from_radix-print_hex 8 max_u32 n (omega arith) (omega arith) (omega arith)) refl

pub hex_read :
    (n : ℕ) (key : Bytes) → n < 2 ^ 64 → value_u64 (bare (codes "0x" ++ print 16 n)) key ≡ ok n
unfolding value_u64 value_unsigned strip_prefix
hex_read n key h =
    rw (from_radix-print 16 max_u64 n (omega arith) (omega arith) (omega arith) h) refl

-- What is appended to a line: a flag, or a key with a number.
pub data Arg : Type 0 where
  flag_arg : Bytes → Arg
  dec_arg hex32_arg hex_arg : Bytes → ℕ → Arg

unfoldable pub append_args : List Arg → ArgBuilder → ArgBuilder
append_args [] b = b
append_args (flag_arg t ∷ args) b = append_args args (flag t b)
append_args (dec_arg k n ∷ args) b = append_args args (dec k n b)
append_args (hex32_arg k n ∷ args) b = append_args args (hex32 k n b)
append_args (hex_arg k n ∷ args) b = append_args args (hex k n b)

abbrev pub item_of : Arg → Item
item_of (flag_arg t) = flag_item t
item_of (dec_arg k n) = pair_item k (bare (print 10 n))
item_of (hex32_arg k n) = pair_item k (bare (codes "0x" ++ print_hex 8 n))
item_of (hex_arg k n) = pair_item k (bare (codes "0x" ++ print 16 n))

-- A flag or key that the tokeniser takes whole, and a number of the argument's type.
abbrev pub IsKey : Bytes → Type 0
IsKey k = AllPass is_key k × (1 ≤ length k)

abbrev pub IsArg : Arg → Type 0
IsArg (flag_arg t) = IsKey t
IsArg (dec_arg k n) = IsKey k × (n < 2 ^ 64)
IsArg (hex32_arg k n) = IsKey k × (n < 2 ^ 32)
IsArg (hex_arg k n) = IsKey k × (n < 2 ^ 64)

-- The number is read back from the value that the line has for it.
abbrev pub ReadsBack : Arg → Type 0
ReadsBack (flag_arg t) = Unit
ReadsBack (dec_arg k n) = value_u64 (bare (print 10 n)) k ≡ ok n
ReadsBack (hex32_arg k n) = value_u32 (bare (codes "0x" ++ print_hex 8 n)) k ≡ ok n
ReadsBack (hex_arg k n) = value_u64 (bare (codes "0x" ++ print 16 n)) k ≡ ok n

pub hex_bare : (s : Bytes) → IsHexText s → AllPass is_bare s
unfolding is_bare is_hexdigit is_whitespace
hex_bare [] h = tt
hex_bare (c ∷ s) (hc, h) = (ground (arith, hc), hex_bare s h)

pub hex_unquoted : (s : Bytes) → IsHexText s → Stops (λ c. c == b'"') s
unfolding Stops is_hexdigit
hex_unquoted [] h = tt
hex_unquoted (c ∷ s) (hc, h) = ground (arith, hc)

pub prefixed_bare : (s : Bytes) → IsHexText s → AllPass is_bare (codes "0x" ++ s)
unfolding is_bare is_whitespace
prefixed_bare s h = (refl, (refl, hex_bare s h))

item_of-IsItem : (a : Arg) → IsArg a → IsItem (item_of a)
unfolding Stops
item_of-IsItem (flag_arg t) h = h
item_of-IsItem (dec_arg k n) ((hk, one), h) =
    let digits : IsHexText (print 10 n) = print-IsHexText 10 n (omega arith) (omega arith) in
    (hk, one, (hex_bare (print 10 n) digits, hex_unquoted (print 10 n) digits))
item_of-IsItem (hex32_arg k n) ((hk, one), h) =
    (hk, one, (prefixed_bare (print_hex 8 n) (print_hex-IsHexText 8 n), refl))
item_of-IsItem (hex_arg k n) ((hk, one), h) =
    (hk, one, (prefixed_bare (print 16 n) (print-IsHexText 16 n (omega arith) (omega arith)), refl))

map-IsItem : (args : List Arg) → All IsArg args → All IsItem (map item_of args)
map-IsItem [] h = tt
map-IsItem (a ∷ args) (ha, h) = (item_of-IsItem a ha, map-IsItem args h)

arg-ReadsBack : (a : Arg) → IsArg a → ReadsBack a
arg-ReadsBack (flag_arg t) h = tt
arg-ReadsBack (dec_arg k n) (_, h) = dec_read n k h
arg-ReadsBack (hex32_arg k n) (_, h) = hex32_read n k h
arg-ReadsBack (hex_arg k n) (_, h) = hex_read n k h

args-ReadsBack : (args : List Arg) → All IsArg args → All ReadsBack args
args-ReadsBack [] h = tt
args-ReadsBack (a ∷ args) (ha, h) = (arg-ReadsBack a ha, args-ReadsBack args h)

finish-append :
    (args : List Arg) (b : ArgBuilder)
    → finish (append_args args b) ≡ b.buf ++ render_items (map item_of args)
unfolding finish append_args render_items flag dec hex32 hex
finish-append [] b = sym (append-nil b.buf)
finish-append (flag_arg t ∷ args) b = finish-append args (flag t b) ∙ append_assoc b.buf _ _
finish-append (dec_arg k n ∷ args) b = finish-append args (dec k n b) ∙ append_assoc b.buf _ _
finish-append (hex32_arg k n ∷ args) b = finish-append args (hex32 k n b) ∙ append_assoc b.buf _ _
finish-append (hex_arg k n ∷ args) b = finish-append args (hex k n b) ∙ append_assoc b.buf _ _

pub tokens_line :
    (x : Crates) (line : Bytes) (out : KvTokens)
    → kv_tokens x line ≡ some (out, [])
    → parse_kv_line x line ≡ record { pairs = out.pairs; flags = out.flags }
unfolding parse_kv_line
tokens_line x line out h = rw (h, parse_kv_line) refl

-- The tokens of a command with its arguments.
abbrev pub written : Bytes → List Arg → KvTokens
written command args = add_items (map item_of args) (add_item (flag_item command) default)

-- A command line that is built from flags, decimal numbers and hexadecimal numbers parses to the
-- command and the flags, in order, and the keys with their values, in order; and each number is
-- read back from its value. The command, the flags and the keys have at least one byte, none an
-- equals sign or white space, and the numbers are of 64 or, for `hex32`, of 32 bits.
pub parse_kv_line-finish :
    (x : Crates)
    → Documented x
    → (command : Bytes) (args : List Arg) → IsKey command
    → All IsArg args
    → (parse_kv_line x (finish (append_args args (new command)))
        ≡ record { pairs = (written command args).pairs; flags = (written command args).flags })
      × All ReadsBack args
unfolding new
parse_kv_line-finish x d command args hc h = (
  ap (parse_kv_line x) (finish-append args (new command))
      ∙ tokens_line x (command ++ render_items (map item_of args)) (written command args)
          (kv_tokens-render x d (flag_item command) (map item_of args) hc (map-IsItem args h)),
  args-ReadsBack args h,
)
