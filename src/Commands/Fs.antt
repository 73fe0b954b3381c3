-- ===== src/Commands/Fs.antt =====
-- Files and directories: crates/xeedee/src/commands/fs.rs.
pub mod Listing
pub mod Paths
pub mod Written
use xeedee.Base.{
  ℕ, zero, suc, ◌+◌, ◌-◌, ◌*◌, ◌/◌, ◌%◌, ◌^◌, ◌≤◌, ◌<◌, min, max, String, ◌≡◌, refl, sym, ap, ◌∙◌,
  subst, fun_ext, ◌≢◌, ◌↔◌, ◌⊎◌, inl, inr, Bool, true, false, ◌&&◌, ◌||◌, not, Option, none, some,
  List, [], ◌∷◌, ◌++◌, map, append-nil, append_assoc, arith, Bytes, codes, bytes_eq, bytes_eq_refl,
  bytes_eq_sound, Result, ok, err, ok_or, map_err, ltb, leb, ◌==◌, if◌then◌else◌, ltb→lt, lt→ltb,
  leb→le, le→leb, leb_false→lt, ltb_false→le, take-min, drop-min, ==_iff, ==_refl, Bool-cases,
  Option-cases, length, take, drop, get_elem?, any, All, length-append, length-take, length-drop,
  take-append-drop, take_all, drop_all, take_left, drop_left, take-append_le, drop-append_le,
  take-append_ge, drop-append_ge, All-append,
}
use xeedee.Base.Results.{◌>>=◌}
use xeedee.Crates.{Crates}
use xeedee.Protocol.Args
use xeedee.Protocol.Args.{ArgBuilder, dec, flag, quoted, finish}
use xeedee.Protocol.Command.{Command, simple, line_body, multiline_body}
use xeedee.Protocol.Error.{Error, argument, parse, ParseError, unrecognized_shape, empty_filename}
use xeedee.Protocol.Kv.{KvLine, require, has_flag, parse_kv_line, value_u32}
use xeedee.Protocol.Response.{Response, expect_ok, expect_multiline}
use xeedee.Protocol.Tokens.{as_str}
use xeedee.Time.{FileTime, from_raw}

-- `((hi as u64) << 32) | (lo as u64)`
unfoldable pub hi_lo_u64 : KvLine → Bytes → Bytes → Result ParseError ℕ
unfolding require value_u32
hi_lo_u64 kv hi_key lo_key = do
  hi_value ← require hi_key kv
  hi ← value_u32 hi_value hi_key
  lo_value ← require lo_key kv
  lo ← value_u32 lo_value lo_key
  ok (hi * 2 ^ 32 + lo)

unfoldable pub reject_empty : Bytes → Result Error (Unit {0})
reject_empty [] = err (argument empty_filename)
reject_empty (c ∷ s) = ok tt

-- `.quoted(key, value).map_err(report_argument)`
unfoldable pub with_quoted : Bytes → Bytes → ArgBuilder → Result Error ArgBuilder
unfolding quoted
with_quoted key value b = map_err argument (quoted key value b)

-- The line of a command with one name.
unfoldable pub named_line : Bytes → Bytes → Result Error Bytes
unfolding reject_empty with_quoted Args.new finish
named_line command name = do
  _ ← reject_empty name
  b ← with_quoted (codes "NAME") name (Args.new command)
  ok (finish b)

-- `lines.pop()`
unfoldable pub last_line : List Bytes → Option Bytes
last_line [] = none
last_line (line ∷ []) = some line
last_line (_ ∷ line ∷ lines) = last_line (line ∷ lines)

unfoldable pub only_line : Crates → Response → Result Error KvLine
unfolding expect_multiline last_line parse_kv_line
only_line x response = do
  lines ← expect_multiline response
  head ← ok_or (last_line lines) (parse unrecognized_shape)
  ok (parse_kv_line x head)

-- The parser of the commands that return nothing.
unfoldable pub done_parse : Response → Result Error (Unit {0})
unfolding expect_ok
done_parse response = do _ ← expect_ok response; ok tt

pub record DriveSpace : Type 0 where
  pub free_to_caller_bytes : ℕ
  pub total_bytes : ℕ
  pub total_free_bytes : ℕ

unfoldable pub drive_space : KvLine → Result ParseError DriveSpace
unfolding hi_lo_u64
drive_space kv = do
  to_caller ← hi_lo_u64 kv (codes "freetocallerhi") (codes "freetocallerlo")
  total ← hi_lo_u64 kv (codes "totalbyteshi") (codes "totalbyteslo")
  total_free ← hi_lo_u64 kv (codes "totalfreebyteshi") (codes "totalfreebyteslo")
  ok (record {
    free_to_caller_bytes = to_caller;
    total_bytes = total;
    total_free_bytes = total_free;
  })

unfoldable pub drive_space_parse : Crates → Response → Result Error DriveSpace
unfolding only_line drive_space
drive_space_parse x response = do kv ← only_line x response; map_err parse (drive_space kv)

unfoldable pub drive_free_space : Crates → Bytes → Command DriveSpace
unfolding named_line drive_space_parse
drive_free_space x drive =
    simple (named_line (codes "drivefreespace") drive) multiline_body (drive_space_parse x)

pub record DirEntry : Type 0 where
  pub name : Bytes
  pub size : ℕ
  pub create_time : FileTime
  pub change_time : FileTime
  pub is_directory : Bool

unfoldable pub dir_entry : KvLine → Result ParseError DirEntry
unfolding require hi_lo_u64 as_str has_flag
dir_entry kv = do
  name_value ← require (codes "name") kv
  size ← hi_lo_u64 kv (codes "sizehi") (codes "sizelo")
  create ← hi_lo_u64 kv (codes "createhi") (codes "createlo")
  change ← hi_lo_u64 kv (codes "changehi") (codes "changelo")
  ok (record {
    name = as_str name_value;
    size = size;
    create_time = from_raw create;
    change_time = from_raw change;
    is_directory = has_flag (codes "directory") kv;
  })

unfoldable pub dir_entries : Crates → List Bytes → List DirEntry → Result ParseError (List DirEntry)
unfolding dir_entry parse_kv_line
dir_entries x [] out = ok out
dir_entries x (line ∷ lines) out = do
  e ← dir_entry (parse_kv_line x line)
  dir_entries x lines (out ++ e ∷ [])

unfoldable pub dir_list_parse : Crates → Response → Result Error (List DirEntry)
unfolding expect_multiline dir_entries
dir_list_parse x response = do
  lines ← expect_multiline response
  map_err parse (dir_entries x lines [])

unfoldable pub dir_list : Crates → Bytes → Command (List DirEntry)
unfolding named_line dir_list_parse
dir_list x path = simple (named_line (codes "dirlist") path) multiline_body (dir_list_parse x)

pub record FileAttributes : Type 0 where
  pub size : ℕ
  pub create_time : FileTime
  pub change_time : FileTime
  pub is_directory : Bool

unfoldable pub file_attributes : KvLine → Result ParseError FileAttributes
unfolding hi_lo_u64 has_flag
file_attributes kv = do
  size ← hi_lo_u64 kv (codes "sizehi") (codes "sizelo")
  create ← hi_lo_u64 kv (codes "createhi") (codes "createlo")
  change ← hi_lo_u64 kv (codes "changehi") (codes "changelo")
  ok (record {
    size = size;
    create_time = from_raw create;
    change_time = from_raw change;
    is_directory = has_flag (codes "directory") kv;
  })

unfoldable pub attributes_parse : Crates → Response → Result Error FileAttributes
unfolding only_line file_attributes
attributes_parse x response = do kv ← only_line x response; map_err parse (file_attributes kv)

unfoldable pub get_file_attributes : Crates → Bytes → Command FileAttributes
unfolding named_line attributes_parse
get_file_attributes x path =
    simple (named_line (codes "getfileattributes") path) multiline_body (attributes_parse x)

unfoldable pub make_directory : Bytes → Command (Unit {0})
unfolding named_line done_parse
make_directory path = simple (named_line (codes "mkdir") path) line_body done_parse

unfoldable pub delete_line : Bytes → Bool → Result Error Bytes
unfolding reject_empty with_quoted Args.new flag finish
delete_line path is_directory = do
  _ ← reject_empty path
  b ← with_quoted (codes "NAME") path (Args.new (codes "delete"))
  ok (finish (if is_directory then flag (codes "DIR") b else b))

unfoldable pub delete : Bytes → Bool → Command (Unit {0})
unfolding delete_line done_parse
delete path is_directory = simple (delete_line path is_directory) line_body done_parse

unfoldable pub file_eof_line : Bytes → ℕ → Bool → Result Error Bytes
unfolding reject_empty with_quoted Args.new dec flag finish
file_eof_line path size create_if_missing = do
  _ ← reject_empty path
  b ← with_quoted (codes "NAME") path (Args.new (codes "fileeof"))
  ok (
      finish (
        if create_if_missing
        then flag (codes "CREATE") (dec (codes "SIZE") size b)
        else dec (codes "SIZE") size b))

unfoldable pub file_eof : Bytes → ℕ → Bool → Command (Unit {0})
unfolding file_eof_line done_parse
file_eof path size create_if_missing =
    simple (file_eof_line path size create_if_missing) line_body done_parse

unfoldable pub rename_line : Bytes → Bytes → Result Error Bytes
unfolding reject_empty with_quoted Args.new finish
rename_line from to = do
  _ ← reject_empty from
  _ ← reject_empty to
  b ← with_quoted (codes "NAME") from (Args.new (codes "rename"))
  b' ← with_quoted (codes "NEWNAME") to b
  ok (finish b')

unfoldable pub rename : Bytes → Bytes → Command (Unit {0})
unfolding rename_line done_parse
rename from to = simple (rename_line from to) line_body done_parse
