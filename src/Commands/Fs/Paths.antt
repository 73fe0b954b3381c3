-- ===== src/Commands/Fs/Paths.antt =====
-- Paths in command lines (crates/xeedee/src/commands/fs.rs).
use xeedee.Base.{
  ℕ, ◌≡◌, refl, inl, inr, Bool, true, false, ◌||◌, [], ◌∷◌, ◌++◌, arith, Bytes, codes, Result, ok,
  err, Bool-cases,
}
use xeedee.Base.Results.{◌>>=◌}
use xeedee.Commands.Fs.{
  reject_empty, with_quoted, named_line, drive_free_space, dir_list, get_file_attributes,
  make_directory, delete_line, delete, file_eof_line, file_eof, rename_line, rename,
}
use xeedee.Crates.{Crates}
use xeedee.Protocol.Args
use xeedee.Protocol.Args.{ArgBuilder, dec, flag, quoted, finish, write_pair}
use xeedee.Protocol.Error.{Error}
use xeedee.Text.Ascii.{contains, is_hexdigit}
use xeedee.Text.Number.{print}
use xeedee.Text.Number.Digits.{IsHexText, print-IsHexText}

-- A text that would end a line.
abbrev pub breaks : Bytes → Bool
breaks s = contains b'\r' s || contains b'\n' s

-- A line that is one command, or no line.
abbrev pub IsOneLine : Result Error Bytes → Type 0
IsOneLine (err e) = Unit
IsOneLine (ok line) = breaks line ≡ false

breaks-append : (s t : Bytes) → breaks s ≡ false → breaks t ≡ false → breaks (s ++ t) ≡ false
unfolding contains
breaks-append [] t h k = k
breaks-append (c ∷ s) t h k = ground (arith, breaks-append s t)

pair-breaks :
    (buf key value : Bytes)
    → breaks buf ≡ false
    → breaks key ≡ false
    → breaks value ≡ false
    → breaks (buf ++ 32 ∷ (key ++ b'=' ∷ value)) ≡ false
unfolding contains
pair-breaks buf key value hb hk hv =
    breaks-append buf (32 ∷ (key ++ b'=' ∷ value)) hb (breaks-append key (b'=' ∷ value) hk hv)

hex-breaks : (s : Bytes) → IsHexText s → breaks s ≡ false
unfolding contains is_hexdigit
hex-breaks [] h = refl
hex-breaks (c ∷ s) (hc, h) = ground (arith, hc, hex-breaks s h)

-- A builder whose text is of one line, or none.
abbrev Builds : Result Error ArgBuilder → Type 0
Builds (err e) = Unit
Builds (ok b) = breaks b.buf ≡ false

with_quoted-Builds :
    (key value : Bytes) (b : ArgBuilder)
    → breaks b.buf ≡ false
    → breaks key ≡ false
    → Builds (with_quoted key value b)
unfolding with_quoted quoted contains
with_quoted-Builds key value b hb hk = elim (Bool-cases (contains b'"' value)) [
  | inl found ↦ rw (found) tt
  | inr free ↦ elim (Bool-cases (breaks value)) [
    | inl found ↦ rw (free, found) tt
    | inr single ↦
        rw (free, single)
          (pair-breaks b.buf key (b'"' ∷ (value ++ b'"' ∷ [])) hb hk
            (breaks-append value (b'"' ∷ []) single refl))
  ]
]

-- What is made of a builder is of one line if the builder is.
then-IsOneLine :
    (r : Result Error ArgBuilder) (f : ArgBuilder → Result Error Bytes)
    → Builds r
    → ((b : ArgBuilder) → breaks b.buf ≡ false → IsOneLine (f b))
    → IsOneLine (r >>= f)
then-IsOneLine (err e) f h k = tt
then-IsOneLine (ok b) f h k = k b h

named-IsOneLine :
    (command name : Bytes) → breaks command ≡ false → IsOneLine (named_line command name)
unfolding named_line reject_empty Args.new finish contains
named-IsOneLine command [] h = tt
named-IsOneLine command (c ∷ s) h =
    then-IsOneLine _ (λ b. ok (finish b))
      (with_quoted-Builds (codes "NAME") (c ∷ s) (Args.new command) h refl) (λ b hb. hb)

delete-IsOneLine : (path : Bytes) (dir : Bool) → IsOneLine (delete_line path dir)
unfolding delete_line reject_empty Args.new finish contains flag
delete-IsOneLine [] dir = tt
delete-IsOneLine (c ∷ s) true =
    then-IsOneLine _ (λ b. ok (finish (flag (codes "DIR") b)))
      (with_quoted-Builds (codes "NAME") (c ∷ s) (Args.new (codes "delete")) refl refl)
      (λ b hb. breaks-append b.buf (codes " DIR") hb refl)
delete-IsOneLine (c ∷ s) false =
    then-IsOneLine _ (λ b. ok (finish b))
      (with_quoted-Builds (codes "NAME") (c ∷ s) (Args.new (codes "delete")) refl refl) (λ b hb. hb)

dec-breaks :
    (b : ArgBuilder) (size : ℕ)
    → breaks b.buf ≡ false
    → breaks (dec (codes "SIZE") size b).buf ≡ false
unfolding dec contains
dec-breaks b size h =
    pair-breaks b.buf (codes "SIZE") (print 10 size) h refl
      (hex-breaks (print 10 size) (print-IsHexText 10 size (omega arith) (omega arith)))

file_eof-IsOneLine :
    (path : Bytes) (size : ℕ) (create : Bool) → IsOneLine (file_eof_line path size create)
unfolding file_eof_line reject_empty Args.new finish contains flag
file_eof-IsOneLine [] size create = tt
file_eof-IsOneLine (c ∷ s) size true =
    then-IsOneLine _ (λ b. ok (finish (flag (codes "CREATE") (dec (codes "SIZE") size b))))
      (with_quoted-Builds (codes "NAME") (c ∷ s) (Args.new (codes "fileeof")) refl refl)
      (λ b hb.
        breaks-append (dec (codes "SIZE") size b).buf (codes " CREATE") (dec-breaks b size hb) refl)
file_eof-IsOneLine (c ∷ s) size false =
    then-IsOneLine _ (λ b. ok (finish (dec (codes "SIZE") size b)))
      (with_quoted-Builds (codes "NAME") (c ∷ s) (Args.new (codes "fileeof")) refl refl)
      (λ b hb. dec-breaks b size hb)

rename-IsOneLine : (from to : Bytes) → IsOneLine (rename_line from to)
unfolding rename_line reject_empty Args.new finish contains
rename-IsOneLine [] to = tt
rename-IsOneLine (c ∷ s) [] = tt
rename-IsOneLine (c ∷ s) (d ∷ t) =
    then-IsOneLine _ (λ b. with_quoted (codes "NEWNAME") (d ∷ t) b >>= λ b'. ok (finish b'))
      (with_quoted-Builds (codes "NAME") (c ∷ s) (Args.new (codes "rename")) refl refl)
      (λ b hb.
        then-IsOneLine (with_quoted (codes "NEWNAME") (d ∷ t) b) (λ b'. ok (finish b'))
          (with_quoted-Builds (codes "NEWNAME") (d ∷ t) b hb refl) (λ b' hb'. hb'))

-- Whatever the path is, a command on files that has a line has one without CR or LF, so it is one
-- command on the wire; a path cannot add a second one.
pub path_commands-IsOneLine :
    (x : Crates) (path to : Bytes) (size : ℕ) (flagged : Bool)
    → IsOneLine ((drive_free_space x path).wire_line)
      × IsOneLine ((dir_list x path).wire_line)
      × IsOneLine ((get_file_attributes x path).wire_line)
      × IsOneLine ((make_directory path).wire_line)
      × IsOneLine ((delete path flagged).wire_line)
      × IsOneLine ((file_eof path size flagged).wire_line)
      × IsOneLine ((rename path to).wire_line)
unfolding drive_free_space dir_list get_file_attributes make_directory delete file_eof rename
    contains
path_commands-IsOneLine x path to size flagged = (
  named-IsOneLine (codes "drivefreespace") path refl,
  named-IsOneLine (codes "dirlist") path refl,
  named-IsOneLine (codes "getfileattributes") path refl,
  named-IsOneLine (codes "mkdir") path refl,
  delete-IsOneLine path flagged,
  file_eof-IsOneLine path size flagged,
  rename-IsOneLine path to,
)
