-- ===== src/Commands/Info.antt =====
-- What the console tells of itself: crates/xeedee/src/commands/info.rs.
use xeedee.Base.{
  ℕ, ◌%◌, ◌||◌, none, some, List, [], ◌∷◌, ◌++◌, map, Bytes, codes, bytes_eq, Result, ok, err,
  map_err, ◌==◌, if◌then◌else◌, length,
}
use xeedee.Base.Results.{◌>>=◌}
use xeedee.Commands.Memory.{require_u32, hex_pair, words_from}
use xeedee.Crates.{Crates}
use xeedee.Dangerous.Sigscan.{to_be_bytes}
use xeedee.Protocol.Args
use xeedee.Protocol.Args.{finish}
use xeedee.Protocol.Command.{Command, simple, line_body, multiline_body}
use xeedee.Protocol.Error.{
  Error, argument, parse, ParseError, invalid_hex_digits, invalid_dbg_name_char,
}
use xeedee.Protocol.Kv.{KvLine, get, require, parse_kv_line, value_u32}
use xeedee.Protocol.Response.{Response, expect_ok, expect_multiline}
use xeedee.Protocol.Tokens.{as_str}
use xeedee.Text.Ascii.{contains, to_lower}
use xeedee.Text.Trim.{trim}
use xeedee.Time.{FileTime, from_halves}

pub data DbgName : Type 0 where
  get_name : DbgName
  set_name : Bytes → DbgName

unfoldable pub dbg_name_line : DbgName → Result Error Bytes
unfolding Args.new finish contains
dbg_name_line get_name = ok (finish (Args.new (codes "dbgname")))
dbg_name_line (set_name name) =
    if contains b'\r' name || (contains b'\n' name || contains b'"' name)
    then err (argument invalid_dbg_name_char)
    else ok (codes "dbgname name=" ++ name)

unfoldable pub dbg_name : DbgName → Command Bytes
unfolding dbg_name_line expect_ok
dbg_name which = simple (dbg_name_line which) line_body expect_ok

-- `parse_kv_line` of the text of a single response
unfoldable pub head_kv : Crates → Response → Result Error KvLine
unfolding expect_ok parse_kv_line
head_kv x response = do head ← expect_ok response; ok (parse_kv_line x head)

unfoldable pub sys_time_of : KvLine → Result ParseError FileTime
unfolding require value_u32 from_halves
sys_time_of kv = do
  hi_value ← require (codes "clockhi") kv
  lo_value ← require (codes "clocklo") kv
  hi ← value_u32 hi_value (codes "clockhi")
  lo ← value_u32 lo_value (codes "clocklo")
  ok (from_halves hi lo)

unfoldable pub sys_time_parse : Crates → Response → Result Error FileTime
unfolding head_kv sys_time_of
sys_time_parse x response = do kv ← head_kv x response; map_err parse (sys_time_of kv)

unfoldable pub sys_time : Crates → Command FileTime
unfolding Args.new finish sys_time_parse
sys_time x = simple (ok (finish (Args.new (codes "systime")))) line_body (sys_time_parse x)

unfoldable pub dm_version : Command Bytes
unfolding expect_ok
dm_version = simple (ok (codes "dmversion")) line_body expect_ok

pub data ConsoleType : Type 0 where
  retail dev_kit test_kit reviewer_kit : ConsoleType
  other : Bytes → ConsoleType

unfoldable pub console_type_of : Bytes → ConsoleType
unfolding trim to_lower
console_type_of head =
    let word = map to_lower (trim head) in
    if bytes_eq word (codes "devkit")
    then dev_kit
    else if bytes_eq word (codes "testkit")
    then test_kit
    else if bytes_eq word (codes "retail")
    then retail
    else if bytes_eq word (codes "reviewerkit")
    then reviewer_kit
    else other head

unfoldable pub console_type_parse : Response → Result Error ConsoleType
unfolding expect_ok console_type_of
console_type_parse response = do head ← expect_ok response; ok (console_type_of head)

unfoldable pub get_console_type : Command ConsoleType
unfolding console_type_parse
get_console_type = simple (ok (codes "consoletype")) line_body console_type_parse

unfoldable pub console_features_parse : Response → Result Error (List Bytes)
unfolding expect_ok words_from
console_features_parse response = do head ← expect_ok response; ok (words_from [] head)

unfoldable pub get_console_features : Command (List Bytes)
unfolding console_features_parse
get_console_features = simple (ok (codes "consolefeatures")) line_body console_features_parse

-- A number under one key of the response.
unfoldable pub head_u32 : Crates → Bytes → Response → Result Error ℕ
unfolding head_kv require_u32
head_u32 x key response = do kv ← head_kv x response; map_err parse (require_u32 kv key)

-- `Ipv4Addr::from(raw)`: the four octets
unfoldable pub alt_addr_parse : Crates → Response → Result Error Bytes
unfolding head_u32 to_be_bytes
alt_addr_parse x response = do raw ← head_u32 x (codes "addr") response; ok (to_be_bytes raw)

unfoldable pub alt_addr : Crates → Command Bytes
unfolding alt_addr_parse
alt_addr x = simple (ok (codes "altaddr")) line_body (alt_addr_parse x)

unfoldable pub get_pid : Crates → Command ℕ
unfolding head_u32
get_pid x = simple (ok (codes "getpid")) line_body (head_u32 x (codes "pid"))

pub record ConsoleMem : Type 0 where
  pub class : ℕ

unfoldable pub console_mem_parse : Crates → Response → Result Error ConsoleMem
unfolding head_u32
console_mem_parse x response = do
  raw ← head_u32 x (codes "consolemem") response
  ok (record { class = raw % 256 })

unfoldable pub get_console_mem : Crates → Command ConsoleMem
unfolding console_mem_parse
get_console_mem x = simple (ok (codes "consolemem")) line_body (console_mem_parse x)

abbrev pub bad_blob : ParseError
bad_blob = invalid_hex_digits (codes "net-blob")

-- `chunks(2)` of an even length
unfoldable pub blob_chunks : Bytes → Bytes → Result ParseError Bytes
unfolding hex_pair
blob_chunks [] out = ok out
blob_chunks (a ∷ []) out = elim (hex_pair (a ∷ [])) [
  | none ↦ err bad_blob
  | some v ↦ ok (out ++ v ∷ [])
]
blob_chunks (a ∷ b ∷ s) out = elim (hex_pair (a ∷ b ∷ [])) [
  | none ↦ err bad_blob
  | some v ↦ blob_chunks s (out ++ v ∷ [])
]

unfoldable pub blob_to_bytes : Bytes → Result ParseError Bytes
unfolding blob_chunks
blob_to_bytes s = if length s % 2 == 0 then blob_chunks s [] else err bad_blob

pub record NetAddrs : Type 0 where
  pub name : Bytes
  pub debug : Bytes
  pub title : Bytes

unfoldable pub net_addrs_of : KvLine → Result ParseError NetAddrs
unfolding require as_str blob_to_bytes
net_addrs_of kv = do
  name_value ← require (codes "name") kv
  debug_value ← require (codes "debug") kv
  title_value ← require (codes "title") kv
  debug ← blob_to_bytes (as_str debug_value)
  title ← blob_to_bytes (as_str title_value)
  ok (record { name = as_str name_value; debug = debug; title = title })

unfoldable pub net_addrs_parse : Crates → Response → Result Error NetAddrs
unfolding head_kv net_addrs_of
net_addrs_parse x response = do kv ← head_kv x response; map_err parse (net_addrs_of kv)

unfoldable pub get_net_addrs : Crates → Command NetAddrs
unfolding net_addrs_parse
get_net_addrs x = simple (ok (codes "getnetaddrs")) line_body (net_addrs_parse x)

-- Lines without a drive are passed over.
unfoldable pub drive_names : Crates → List Bytes → List Bytes → List Bytes
unfolding get as_str parse_kv_line
drive_names x [] out = out
drive_names x (line ∷ lines) out = elim (get (codes "drivename") (parse_kv_line x line)) [
  | none ↦ drive_names x lines out
  | some value ↦ drive_names x lines (out ++ as_str value ∷ [])
]

unfoldable pub drive_list_parse : Crates → Response → Result Error (List Bytes)
unfolding expect_multiline drive_names
drive_list_parse x response = do lines ← expect_multiline response; ok (drive_names x lines [])

unfoldable pub drive_list : Crates → Command (List Bytes)
unfolding drive_list_parse
drive_list x = simple (ok (codes "drivelist")) multiline_body (drive_list_parse x)
