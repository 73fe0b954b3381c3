-- ===== src/Commands/Fs/Listing.antt =====
-- Directory listings that are read back (crates/xeedee/src/commands/fs.rs).
use xeedee.Base.{
  ℕ, ◌/◌, ◌%◌, ◌^◌, ◌<◌, ◌≡◌, refl, sym, ap, ◌∙◌, Bool, true, false, List, [], ◌∷◌, ◌++◌, map,
  append-nil, append_assoc, arith, Bytes, codes, ok, ◌==◌, All,
}
use xeedee.Commands.Fs.{hi_lo_u64, DirEntry, dir_entry, dir_entries, dir_list_parse, dir_list}
use xeedee.Crates.{Crates, Documented}
use xeedee.Protocol.Args.RoundTrip.{prefixed_bare, tokens_line}
use xeedee.Protocol.Kv.{
  value_u32, value_unsigned, KvLine, require, get, find_value, has_flag, parse_kv_line,
}
use xeedee.Protocol.Response.{Response, expect_multiline}
use xeedee.Protocol.Tokens.{KvValue, bare, quoted, as_str, is_key, default}
use xeedee.Protocol.Tokens.Items.{
  Item, pair_item, flag_item, render_item, render_items, IsItem, key_ok, key_passes, add_item,
  add_items, kv_tokens-render,
}
use xeedee.Protocol.Tokens.Pieces.{Stops}
use xeedee.Text.Ascii.{strip_prefix, eq_ignore_case, to_lower, is_whitespace}
use xeedee.Text.Number.{print, max_u32}
use xeedee.Text.Number.Digits.{print-IsHexText}
use xeedee.Text.Number.RoundTrip.{leading, leading-IsHexText, from_radix-leading}

-- A number of 32 bits in hexadecimal, after some zeros.
abbrev pub word : ℕ → ℕ → KvValue
word z n = bare (codes "0x" ++ (leading z ++ print 16 n))

word_read : (z n : ℕ) (key : Bytes) → n < 2 ^ 32 → value_u32 (word z n) key ≡ ok n
unfolding value_u32 value_unsigned strip_prefix
word_read z n key h = rw (from_radix-leading z max_u32 n (omega arith) (omega arith)) refl

-- A number of 64 bits in two halves, under two keys, with zeros before each.
abbrev pub halves : (Bytes → ℕ) → Bytes → Bytes → ℕ → List Item → List Item
halves pad hi_key lo_key v items =
    pair_item hi_key (word (pad hi_key) (v / 2 ^ 32))
    ∷ pair_item lo_key (word (pad lo_key) (v % 2 ^ 32))
    ∷ items

abbrev pub directory_flag : Bool → List Item
directory_flag true = flag_item (codes "directory") ∷ []
directory_flag false = []

abbrev pub entry_items : (Bytes → ℕ) → DirEntry → List Item
entry_items pad e = halves pad (codes "sizehi") (codes "sizelo") e.size (
    halves pad (codes "createhi") (codes "createlo") e.create_time.ticks (
      halves pad (codes "changehi") (codes "changelo") e.change_time.ticks
        (directory_flag e.is_directory)))

-- A line of the listing; how many zeros stand before a number may depend on the entry and the key.
abbrev pub entry_line : (DirEntry → Bytes → ℕ) → DirEntry → Bytes
entry_line pads e =
    render_item (pair_item (codes "name") (quoted e.name)) ++ render_items (entry_items (pads e) e)

pub record IsEntry (e : DirEntry) : Type 0 where
  pub unquoted : All (λ c. (c == b'"') ≡ false) e.name
  pub size_fits : e.size < 2 ^ 64
  pub create_fits : e.create_time.ticks < 2 ^ 64
  pub change_fits : e.change_time.ticks < 2 ^ 64

hi_lo_read :
    (kv : KvLine) (hi_key lo_key : Bytes) (z y v : ℕ)
    → v < 2 ^ 64
    → require hi_key kv ≡ ok (word z (v / 2 ^ 32))
    → require lo_key kv ≡ ok (word y (v % 2 ^ 32))
    → hi_lo_u64 kv hi_key lo_key ≡ ok v
unfolding hi_lo_u64
hi_lo_read kv hi_key lo_key z y v small hi lo =
    rw
      (
        hi,
        word_read z (v / 2 ^ 32) hi_key (omega (arith, small)),
        lo,
        word_read y (v % 2 ^ 32) lo_key (omega arith),
      )
      (ap ok (omega arith))

word-IsItem : (key : Bytes) (z n : ℕ) → key_ok key ≡ true → IsItem (pair_item key (word z n))
unfolding Stops
word-IsItem key z n h = (
  (key_passes key h).0,
  (key_passes key h).1,
  (
    prefixed_bare (leading z ++ print 16 n)
        (leading-IsHexText z (print 16 n) (print-IsHexText 16 n (omega arith) (omega arith))),
    refl,
  ),
)

flag-IsItem : (d : Bool) → All IsItem (directory_flag d)
unfolding is_key is_whitespace
flag-IsItem true = (key_passes (codes "directory") refl, tt)
flag-IsItem false = tt

entry-IsItem : (pad : Bytes → ℕ) (e : DirEntry) → All IsItem (entry_items pad e)
unfolding is_key is_whitespace
entry-IsItem pad e = (
  word-IsItem (codes "sizehi") _ (e.size / 2 ^ 32) refl,
  (
    word-IsItem (codes "sizelo") _ (e.size % 2 ^ 32) refl,
    (
      word-IsItem (codes "createhi") _ (e.create_time.ticks / 2 ^ 32) refl,
      (
        word-IsItem (codes "createlo") _ (e.create_time.ticks % 2 ^ 32) refl,
        (
          word-IsItem (codes "changehi") _ (e.change_time.ticks / 2 ^ 32) refl,
          (
            word-IsItem (codes "changelo") _ (e.change_time.ticks % 2 ^ 32) refl,
            flag-IsItem e.is_directory,
          ),
        ),
      ),
    ),
  ),
)

-- What the line of an entry parses to.
abbrev entry_kv : (Bytes → ℕ) → DirEntry → KvLine
entry_kv pad e =
    let tokens =
      add_items (entry_items pad e) (add_item (pair_item (codes "name") (quoted e.name)) default) in
    record { pairs = tokens.pairs; flags = tokens.flags }

entry_parsed :
    (x : Crates)
    → Documented x
    → (pads : DirEntry → Bytes → ℕ) (e : DirEntry) → IsEntry e
    → parse_kv_line x (entry_line pads e) ≡ entry_kv (pads e) e
unfolding is_key is_whitespace
entry_parsed x d pads e h = tokens_line x _ _ (
    kv_tokens-render x d (pair_item (codes "name") (quoted e.name)) (entry_items (pads e) e)
      ((key_passes (codes "name") refl).0, (key_passes (codes "name") refl).1, h.unquoted)
      (entry-IsItem (pads e) e))

abbrev entry_of : Bytes → ℕ → ℕ → ℕ → Bool → DirEntry
entry_of name size create change dir = record {
  name = name;
  size = size;
  create_time = record { ticks = create };
  change_time = record { ticks = change };
  is_directory = dir;
}

fields_read :
    (pad : Bytes → ℕ) (name : Bytes) (size create change : ℕ) (dir : Bool)
    → size < 2 ^ 64
    → create < 2 ^ 64
    → change < 2 ^ 64
    → dir_entry (entry_kv pad (entry_of name size create change dir))
      ≡ ok (entry_of name size create change dir)
unfolding dir_entry add_items require get find_value has_flag as_str eq_ignore_case to_lower
fields_read pad name size create change true s c h =
    let kv : KvLine = entry_kv pad (entry_of name size create change true) in
    rw
      (
        hi_lo_read kv (codes "sizehi") (codes "sizelo") _ _ size s refl refl,
        hi_lo_read kv (codes "createhi") (codes "createlo") _ _ create c refl refl,
        hi_lo_read kv (codes "changehi") (codes "changelo") _ _ change h refl refl,
      )
      refl
fields_read pad name size create change false s c h =
    let kv : KvLine = entry_kv pad (entry_of name size create change false) in
    rw
      (
        hi_lo_read kv (codes "sizehi") (codes "sizelo") _ _ size s refl refl,
        hi_lo_read kv (codes "createhi") (codes "createlo") _ _ create c refl refl,
        hi_lo_read kv (codes "changehi") (codes "changelo") _ _ change h refl refl,
      )
      refl

entry_back :
    (x : Crates)
    → Documented x
    → (pads : DirEntry → Bytes → ℕ) (e : DirEntry) → IsEntry e
    → dir_entry (parse_kv_line x (entry_line pads e)) ≡ ok e
entry_back x d pads e h =
    ap dir_entry (entry_parsed x d pads e h)
    ∙ fields_read (pads e) e.name e.size e.create_time.ticks e.change_time.ticks e.is_directory
        h.size_fits h.create_fits h.change_fits

entries_back :
    (x : Crates)
    → Documented x
    → (pads : DirEntry → Bytes → ℕ) (entries out : List DirEntry) → All IsEntry entries
    → dir_entries x (map (entry_line pads) entries) out ≡ ok (out ++ entries)
unfolding dir_entries
entries_back x d pads [] out h = ap ok (sym (append-nil out))
entries_back x d pads (e ∷ entries) out (he, h) =
    rw (entry_back x d pads e he, dir_entries)
      (entries_back x d pads entries (out ++ e ∷ []) h ∙ ap ok (append_assoc out (e ∷ []) entries))

-- A listing in which each line has an entry's name in quotes, its size and times in halves of 32
-- bits, and a flag if it is a directory, is read as exactly these entries, in order. The halves are in
-- hexadecimal behind 0x, each with any number of zeros before it, so both the padded and the plain
-- numbers that consoles write are covered. No name has a quote in it, and the sizes and times are of 64
-- bits.
pub dir_list-parse :
    (x : Crates)
    → Documented x
    → (path head : Bytes) (pads : DirEntry → Bytes → ℕ) (entries : List DirEntry)
    → All IsEntry entries
    → (dir_list x path).parse (Response.multiline head (map (entry_line pads) entries)) ≡ ok entries
unfolding dir_list dir_list_parse expect_multiline
dir_list-parse x d path head pads entries h = rw (entries_back x d pads entries [] h) refl
