-- ===== src/Commands/Process.antt =====
-- Modules, threads and executables: crates/xeedee/src/commands/process.rs.
pub mod Threads
use xeedee.Base.{
  ℕ, zero, suc, ◌+◌, ◌-◌, ◌*◌, ◌/◌, ◌%◌, ◌^◌, ◌≤◌, ◌<◌, min, max, String, ◌≡◌, refl, sym, ap, ◌∙◌,
  subst, fun_ext, ◌≢◌, ◌↔◌, ◌⊎◌, inl, inr, Bool, true, false, ◌&&◌, ◌||◌, not, Option, none, some,
  List, [], ◌∷◌, ◌++◌, map, append-nil, append_assoc, arith, Bytes, codes, bytes_eq, bytes_eq_refl,
  bytes_eq_sound, Result, ok, err, ok_or, map_err, ltb, leb, ◌==◌, if◌then◌else◌, ltb→lt, lt→ltb,
  leb→le, le→leb, leb_false→lt, ltb_false→le, take-min, drop-min, ==_iff, ==_refl, Bool-cases,
  Option-cases, length, take, drop, get_elem?, any, All, length-append, length-take, length-drop,
  take-append-drop, take_all, drop_all, take_left, drop_left, take-append_le, drop-append_le,
  take-append_ge, drop-append_ge, All-append,
}
use xeedee.Base.Results.{◌>>=◌}
use xeedee.Commands.Fs.{named_line, with_quoted, only_line}
use xeedee.Commands.Memory.{require_u32}
use xeedee.Crates.{Crates}
use xeedee.Protocol.Args
use xeedee.Protocol.Args.{ℤ, pos, negsuc, flag, hex32, finish}
use xeedee.Protocol.Command.{Command, simple, multiline_body}
use xeedee.Protocol.Error.{Error, parse, ParseError, invalid_decimal_u32, missing_key}
use xeedee.Protocol.Kv.{KvLine, get, require, has_flag, parse_kv_line, value_u32}
use xeedee.Protocol.Response.{Response, expect_multiline}
use xeedee.Protocol.Tokens.{KvValue, as_str}
use xeedee.Text.Trim.{trim, parse_i32}
use xeedee.Time.{FileTime, from_halves}

pub record ModuleInfo : Type 0 where
  pub name : Bytes
  pub base : ℕ
  pub size : ℕ
  pub checksum : ℕ
  pub timestamp : ℕ
  pub pdata : ℕ
  pub psize : ℕ
  pub thread : ℕ
  pub osize : ℕ
  pub is_dll : Bool
  pub is_tls : Bool
  pub is_xbe : Bool

unfoldable pub module_info : KvLine → Result ParseError ModuleInfo
unfolding require as_str require_u32 has_flag
module_info kv = do
  name ← require (codes "name") kv
  base ← require_u32 kv (codes "base")
  size ← require_u32 kv (codes "size")
  checksum ← require_u32 kv (codes "check")
  timestamp ← require_u32 kv (codes "timestamp")
  pdata ← require_u32 kv (codes "pdata")
  psize ← require_u32 kv (codes "psize")
  thread ← require_u32 kv (codes "thread")
  osize ← require_u32 kv (codes "osize")
  ok (record {
    name = as_str name;
    base = base;
    size = size;
    checksum = checksum;
    timestamp = timestamp;
    pdata = pdata;
    psize = psize;
    thread = thread;
    osize = osize;
    is_dll = has_flag (codes "dll") kv;
    is_tls = has_flag (codes "tls") kv;
    is_xbe = has_flag (codes "xbe") kv;
  })

-- `for line in lines { out.push(…) }` over a reader of key-value lines.
unfoldable pub each_line :
    {A : Type 0}
    → Crates
    → (KvLine → Result ParseError A)
    → List Bytes
    → List A
    → Result ParseError (List A)
unfolding parse_kv_line
each_line x read [] out = ok out
each_line x read (line ∷ lines) out = do
  a ← read (parse_kv_line x line)
  each_line x read lines (out ++ a ∷ [])

unfoldable pub modules_parse : Crates → Response → Result Error (List ModuleInfo)
unfolding expect_multiline each_line module_info
modules_parse x response = do
  lines ← expect_multiline response
  map_err parse (each_line x module_info lines [])

unfoldable pub modules : Crates → Command (List ModuleInfo)
unfolding modules_parse
modules x = simple (ok (codes "modules")) multiline_body (modules_parse x)

pub record SectionFlags : Type 0 where
  pub bits : ℕ

-- `self.0 & (1 << k) != 0`
abbrev pub has_bit : ℕ → SectionFlags → Bool
has_bit k flags = flags.bits / 2 ^ k % 2 == 1

abbrev pub readable : SectionFlags → Bool
readable = has_bit 1

abbrev pub writable : SectionFlags → Bool
writable = has_bit 2

abbrev pub executable : SectionFlags → Bool
executable = has_bit 3

abbrev pub uninitialized : SectionFlags → Bool
uninitialized = has_bit 4

pub record ModuleSection : Type 0 where
  pub name : Bytes
  pub base : ℕ
  pub size : ℕ
  pub index : ℕ
  pub flags : SectionFlags

unfoldable pub module_section : KvLine → Result ParseError ModuleSection
unfolding require as_str require_u32
module_section kv = do
  name ← require (codes "name") kv
  base ← require_u32 kv (codes "base")
  size ← require_u32 kv (codes "size")
  index ← require_u32 kv (codes "index")
  flags ← require_u32 kv (codes "flags")
  ok (record {
    name = as_str name;
    base = base;
    size = size;
    index = index;
    flags = record { bits = flags };
  })

unfoldable pub sections_parse : Crates → Response → Result Error (List ModuleSection)
unfolding expect_multiline each_line module_section
sections_parse x response = do
  lines ← expect_multiline response
  map_err parse (each_line x module_section lines [])

unfoldable pub module_sections : Crates → Bytes → Command (List ModuleSection)
unfolding named_line sections_parse
module_sections x name =
    simple (named_line (codes "modsections") name) multiline_body (sections_parse x)

pub record ThreadId : Type 0 where
  pub handle : ℕ

-- `raw as u32`
unfoldable pub from_signed : ℤ → ThreadId
from_signed (pos n) = record { handle = n % 2 ^ 32 }
from_signed (negsuc n) = record { handle = (2 ^ 32 - 1 - n) % 2 ^ 32 }

unfoldable pub thread_ids : List Bytes → List ThreadId → Result ParseError (List ThreadId)
unfolding trim parse_i32 from_signed
thread_ids [] out = ok out
thread_ids (line ∷ lines) out = do
  signed ← ok_or (parse_i32 (trim line)) (invalid_decimal_u32 (codes "thread-id"))
  thread_ids lines (out ++ from_signed signed ∷ [])

unfoldable pub threads_parse : Response → Result Error (List ThreadId)
unfolding expect_multiline thread_ids
threads_parse response = do lines ← expect_multiline response; map_err parse (thread_ids lines [])

unfoldable pub threads : Command (List ThreadId)
unfolding threads_parse
threads = simple (ok (codes "threads")) multiline_body threads_parse

pub record ThreadDetail : Type 0 where
  pub thread : ThreadId
  pub suspend : ℕ
  pub priority : ℤ
  pub tls_base : ℕ
  pub start : ℕ
  pub base : ℕ
  pub limit : ℕ
  pub slack : ℕ
  pub create_time : FileTime
  pub name_address : ℕ
  pub name_length : ℕ
  pub processor : ℕ
  pub last_error : ℕ

unfoldable pub thread_detail : ThreadId → KvLine → Result ParseError ThreadDetail
unfolding require as_str require_u32 parse_i32 from_halves
thread_detail thread kv = do
  create_hi ← require_u32 kv (codes "createhi")
  create_lo ← require_u32 kv (codes "createlo")
  priority_value ← require (codes "priority") kv
  priority ← ok_or (parse_i32 (as_str priority_value)) (invalid_decimal_u32 (codes "priority"))
  suspend ← require_u32 kv (codes "suspend")
  tls_base ← require_u32 kv (codes "tlsbase")
  start ← require_u32 kv (codes "start")
  base ← require_u32 kv (codes "base")
  limit ← require_u32 kv (codes "limit")
  slack ← require_u32 kv (codes "slack")
  name_address ← require_u32 kv (codes "nameaddr")
  name_length ← require_u32 kv (codes "namelen")
  processor ← require_u32 kv (codes "proc")
  last_error ← require_u32 kv (codes "lasterr")
  ok (record {
    thread = thread;
    suspend = suspend;
    priority = priority;
    tls_base = tls_base;
    start = start;
    base = base;
    limit = limit;
    slack = slack;
    create_time = from_halves create_hi create_lo;
    name_address = name_address;
    name_length = name_length;
    processor = processor;
    last_error = last_error;
  })

unfoldable pub thread_info_parse : Crates → ThreadId → Response → Result Error ThreadDetail
unfolding only_line thread_detail
thread_info_parse x thread response = do
  kv ← only_line x response
  map_err parse (thread_detail thread kv)

unfoldable pub thread_info : Crates → ThreadId → Command ThreadDetail
unfolding Args.new hex32 finish thread_info_parse
thread_info x thread =
    simple (ok (finish (hex32 (codes "THREAD") thread.handle (Args.new (codes "threadinfo")))))
      multiline_body (thread_info_parse x thread)

pub data XbeInfo : Type 0 where
  running : XbeInfo
  named : Bytes → XbeInfo

pub record XbeInfoResult : Type 0 where
  pub timestamp : ℕ
  pub checksum : ℕ
  pub name : Bytes

-- What has been seen of it so far.
pub record XbeSeen : Type 0 where
  pub timestamp : Option ℕ
  pub checksum : Option ℕ
  pub name : Option Bytes

-- A number under a key replaces the one that was seen.
unfoldable pub see_u32 : KvLine → Bytes → Option ℕ → Result ParseError (Option ℕ)
unfolding get value_u32
see_u32 kv key seen = elim (get key kv) [
  | none ↦ ok seen
  | some value ↦ do n ← value_u32 value key; ok (some n)
]

unfoldable pub see_text : KvLine → Bytes → Option Bytes → Option Bytes
unfolding get as_str
see_text kv key seen = elim (get key kv) [ none ↦ seen | some value ↦ some (as_str value) ]

unfoldable pub xbe_lines : Crates → List Bytes → XbeSeen → Result ParseError XbeSeen
unfolding parse_kv_line see_u32 see_text
xbe_lines x [] seen = ok seen
xbe_lines x (line ∷ lines) seen = do
  timestamp ← see_u32 (parse_kv_line x line) (codes "timestamp") seen.timestamp
  checksum ← see_u32 (parse_kv_line x line) (codes "checksum") seen.checksum
  xbe_lines x lines (record {
    timestamp = timestamp;
    checksum = checksum;
    name = see_text (parse_kv_line x line) (codes "name") seen.name;
  })

unfoldable pub xbe_result : XbeSeen → Result ParseError XbeInfoResult
xbe_result seen = do
  timestamp ← ok_or seen.timestamp (missing_key (codes "timestamp"))
  checksum ← ok_or seen.checksum (missing_key (codes "checksum"))
  name ← ok_or seen.name (missing_key (codes "name"))
  ok (record { timestamp = timestamp; checksum = checksum; name = name })

abbrev pub nothing_seen : XbeSeen
nothing_seen = record { timestamp = none; checksum = none; name = none }

unfoldable pub xbe_info_parse : Crates → Response → Result Error XbeInfoResult
unfolding expect_multiline xbe_lines xbe_result
xbe_info_parse x response = do
  lines ← expect_multiline response
  seen ← map_err parse (xbe_lines x lines nothing_seen)
  map_err parse (xbe_result seen)

unfoldable pub xbe_info_line : XbeInfo → Result Error Bytes
unfolding Args.new flag finish with_quoted
xbe_info_line XbeInfo.running = ok (finish (flag (codes "RUNNING") (Args.new (codes "xbeinfo"))))
xbe_info_line (XbeInfo.named path) = do
  b ← with_quoted (codes "NAME") path (Args.new (codes "xbeinfo"))
  ok (finish b)

unfoldable pub xbe_info : Crates → XbeInfo → Command XbeInfoResult
unfolding xbe_info_line xbe_info_parse
xbe_info x which = simple (xbe_info_line which) multiline_body (xbe_info_parse x)
