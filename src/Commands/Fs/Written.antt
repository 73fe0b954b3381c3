-- ===== src/Commands/Fs/Written.antt =====
-- Command lines with paths that are read back (crates/xeedee/src/commands/fs.rs).
use xeedee.Base.{
  ℕ, ◌^◌, ◌<◌, ◌≡◌, refl, Bool, true, false, List, [], ◌∷◌, ◌++◌, append-nil, append_assoc, arith,
  Bytes, codes, ok, ◌==◌, length, All,
}
use xeedee.Commands.Fs.{reject_empty, with_quoted, file_eof_line, file_eof, rename_line, rename}
use xeedee.Commands.Fs.Paths.{breaks}
use xeedee.Crates.{Crates, Documented}
use xeedee.Protocol.Args
use xeedee.Protocol.Args.{ArgBuilder, dec, flag, finish, write_pair}
use xeedee.Protocol.Args.RoundTrip.{dec_read, tokens_line, hex_bare, hex_unquoted}
use xeedee.Protocol.Kv.{parse_kv_line, value_u64}
use xeedee.Protocol.Tokens.{bare, quoted, is_key}
use xeedee.Protocol.Tokens.Items.{
  Item, pair_item, flag_item, render_item, render_items, IsItem, key_ok, key_passes, add_items,
  kv_tokens-render,
}
use xeedee.Text.Ascii.{contains, is_whitespace}
use xeedee.Text.Number.{print}
use xeedee.Text.Number.Digits.{IsHexText, print-IsHexText}

-- A path that can be written in quotes.
pub record IsPath (path : Bytes) : Type 0 where
  pub some_bytes : 0 < length path
  pub no_quote : contains b'"' path ≡ false
  pub no_break : breaks path ≡ false

path_accepted : (path : Bytes) → IsPath path → reject_empty path ≡ ok tt
unfolding reject_empty
path_accepted [] h = absurd (omega (arith, h.some_bytes))
path_accepted (c ∷ s) h = refl

quoted_accepted :
    (key path : Bytes) (b : ArgBuilder)
    → IsPath path
    → with_quoted key path b ≡ ok (write_pair key (b'"' ∷ (path ++ b'"' ∷ [])) b)
unfolding with_quoted Args.quoted
quoted_accepted key path b h = rw (h.no_quote, h.no_break) refl

unquoted : (s : Bytes) → contains b'"' s ≡ false → All (λ c. (c == b'"') ≡ false) s
unfolding contains
unquoted [] h = tt
unquoted (c ∷ s) h = (ground (arith, h), unquoted s (ground (arith, h)))

path-IsItem :
    (key path : Bytes) → key_ok key ≡ true → IsPath path → IsItem (pair_item key (quoted path))
path-IsItem key path k h = ((key_passes key k).0, (key_passes key k).1, unquoted path h.no_quote)

-- The line of a command and its arguments is read as these.
line_back :
    (x : Crates)
    → Documented x
    → (command : Bytes) (items : List Item) → key_ok command ≡ true
    → All IsItem items
    → parse_kv_line x (render_item (flag_item command) ++ render_items items) ≡ record {
      pairs = (add_items items (record { pairs = []; flags = command ∷ [] })).pairs;
      flags = (add_items items (record { pairs = []; flags = command ∷ [] })).flags;
    }
line_back x d command items k h =
    tokens_line x _ _ (kv_tokens-render x d (flag_item command) items (key_passes command k) h)

abbrev renamed_items : Bytes → Bytes → List Item
renamed_items from to =
    pair_item (codes "NAME") (quoted from) ∷ pair_item (codes "NEWNAME") (quoted to) ∷ []

rename_sent :
    (from to : Bytes)
    → IsPath from
    → IsPath to
    → rename_line from to
      ≡ ok (render_item (flag_item (codes "rename")) ++ render_items (renamed_items from to))
unfolding rename_line Args.new finish render_items
rename_sent from to hf ht =
    rw
      (
        path_accepted from hf,
        path_accepted to ht,
        quoted_accepted (codes "NAME") from (Args.new (codes "rename")) hf,
        quoted_accepted (codes "NEWNAME") to
            (write_pair (codes "NAME") (b'"' ∷ (from ++ b'"' ∷ [])) (Args.new (codes "rename"))) ht,
        append-nil (to ++ b'"' ∷ []),
      )
      refl

create_flag : Bool → List Item
create_flag true = flag_item (codes "CREATE") ∷ []
create_flag false = []

abbrev eof_items : Bytes → ℕ → Bool → List Item
eof_items path size create =
    pair_item (codes "NAME") (quoted path)
    ∷ pair_item (codes "SIZE") (bare (print 10 size))
    ∷ create_flag create

eof_sent :
    (path : Bytes) (size : ℕ) (create : Bool)
    → IsPath path
    → file_eof_line path size create
      ≡ ok (render_item (flag_item (codes "fileeof")) ++ render_items (eof_items path size create))
unfolding file_eof_line Args.new finish render_items dec flag create_flag
eof_sent path size true h =
    rw
      (
        path_accepted path h,
        quoted_accepted (codes "NAME") path (Args.new (codes "fileeof")) h,
        append_assoc (path ++ b'"' ∷ []) (codes " SIZE=" ++ print 10 size) (codes " CREATE"),
      )
      refl
eof_sent path size false h =
    rw
      (
        path_accepted path h,
        quoted_accepted (codes "NAME") path (Args.new (codes "fileeof")) h,
        append-nil (print 10 size),
      )
      refl

abbrev pub created : Bool → List Bytes
created true = codes "CREATE" ∷ []
created false = []

eof-IsItem :
    (path : Bytes) (size : ℕ) (create : Bool)
    → IsPath path
    → All IsItem (eof_items path size create)
unfolding is_key is_whitespace create_flag
eof-IsItem path size create h =
    (path-IsItem (codes "NAME") path refl h, (size_item, flagged create))
  where
    digits : IsHexText (print 10 size)
    digits = print-IsHexText 10 size (omega arith) (omega arith)

    size_item : IsItem (pair_item (codes "SIZE") (bare (print 10 size)))
    size_item = (
      (key_passes (codes "SIZE") refl).0,
      (key_passes (codes "SIZE") refl).1,
      (hex_bare (print 10 size) digits, hex_unquoted (print 10 size) digits),
    )

    flagged : (create : Bool) → All IsItem (create_flag create)
    flagged true = (key_passes (codes "CREATE") refl, tt)
    flagged false = tt

eof_back :
    (x : Crates)
    → Documented x
    → (path : Bytes) (size : ℕ) (create : Bool) → IsPath path
    → parse_kv_line x
        (render_item (flag_item (codes "fileeof")) ++ render_items (eof_items path size create))
      ≡ record {
        pairs = (codes "NAME", quoted path) ∷ (codes "SIZE", bare (print 10 size)) ∷ [];
        flags = codes "fileeof" ∷ created create;
      }
unfolding add_items is_key is_whitespace create_flag
eof_back x d path size true h =
    line_back x d (codes "fileeof") (eof_items path size true) refl (eof-IsItem path size true h)
eof_back x d path size false h =
    line_back x d (codes "fileeof") (eof_items path size false) refl (eof-IsItem path size false h)

-- A rename is sent as a line that parses to the command and its two paths. The command that sets a
-- file's end is sent as a line that parses to the command, its path, a flag if the file is to be
-- created, and a number that reads back as the size. The paths have at least one byte, and no
-- quote, CR or LF, and the size is of 64 bits.
pub rename-wire_line :
    (x : Crates)
    → Documented x
    → (from to : Bytes) (size : ℕ) (create : Bool) → IsPath from
    → IsPath to
    → size < 2 ^ 64
    → ((line : Bytes) × ((rename from to).wire_line ≡ ok line)
        × (parse_kv_line x line ≡ record {
          pairs = (codes "NAME", quoted from) ∷ (codes "NEWNAME", quoted to) ∷ [];
          flags = codes "rename" ∷ [];
        }))
      × ((line : Bytes) × ((file_eof from size create).wire_line ≡ ok line)
          × (parse_kv_line x line ≡ record {
            pairs = (codes "NAME", quoted from) ∷ (codes "SIZE", bare (print 10 size)) ∷ [];
            flags = codes "fileeof" ∷ created create;
          })
          × (value_u64 (bare (print 10 size)) (codes "SIZE") ≡ ok size))
unfolding rename file_eof add_items is_key is_whitespace
rename-wire_line x d from to size create hf ht small = (
  (
    render_item (flag_item (codes "rename")) ++ render_items (renamed_items from to),
    rename_sent from to hf ht,
    line_back x d (codes "rename") (renamed_items from to) refl
        (path-IsItem (codes "NAME") from refl hf, (path-IsItem (codes "NEWNAME") to refl ht, tt)),
  ),
  (
    render_item (flag_item (codes "fileeof")) ++ render_items (eof_items from size create),
    eof_sent from size create hf,
    eof_back x d from size create hf,
    dec_read size (codes "SIZE") small,
  ),
)
