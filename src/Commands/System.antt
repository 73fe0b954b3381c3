-- ===== src/Commands/System.antt =====
-- Reboot, title, stop conditions and notifications: crates/xeedee/src/commands/system.rs.
pub mod Flags
use xeedee.Base.{
  ℕ, zero, suc, ◌+◌, ◌-◌, ◌*◌, ◌/◌, ◌%◌, ◌^◌, ◌≤◌, ◌<◌, min, max, String, ◌≡◌, refl, sym, ap, ◌∙◌,
  subst, fun_ext, ◌≢◌, ◌↔◌, ◌⊎◌, inl, inr, Bool, true, false, ◌&&◌, ◌||◌, not, Option, none, some,
  List, [], ◌∷◌, ◌++◌, map, append-nil, append_assoc, arith, Bytes, codes, bytes_eq, bytes_eq_refl,
  bytes_eq_sound, Result, ok, err, ok_or, map_err, ltb, leb, ◌==◌, if◌then◌else◌, ltb→lt, lt→ltb,
  leb→le, le→leb, leb_false→lt, ltb_false→le, take-min, drop-min, ==_iff, ==_refl, Bool-cases,
  Option-cases, length, take, drop, get_elem?, any, All, length-append, length-take, length-drop,
  take-append-drop, take_all, drop_all, take_left, drop_left, take-append_le, drop-append_le,
  take-append_ge, drop-append_ge, All-append,
}
use xeedee.Base.Results.{◌>>=◌}
use xeedee.Commands.Fs.{with_quoted, done_parse}
use xeedee.Crates.{Crates}
use xeedee.Protocol.Args
use xeedee.Protocol.Args.{ArgBuilder, dec, flag, finish}
use xeedee.Protocol.Command.{Command, simple, line_body}
use xeedee.Protocol.Error.{Error}
use xeedee.Protocol.Kv.{get, parse_kv_line, value_u32}
use xeedee.Protocol.Response.{Response, expect_ok}

pub record RebootFlags : Type 0 where
  pub warm : Bool
  pub stop_on_start : Bool
  pub no_debug : Bool
  pub wait : Bool

abbrev pub default_flags : RebootFlags
default_flags = record { warm = false; stop_on_start = false; no_debug = false; wait = false }

pub record Reboot : Type 0 where
  pub flags : RebootFlags
  pub title : Option Bytes
  pub directory : Option Bytes
  pub cmd_line : Option Bytes

abbrev pub warm_reboot : Reboot
warm_reboot = record {
  flags = record default_flags { warm = true };
  title = none;
  directory = none;
  cmd_line = none;
}

-- `if let Some(value) = value { builder = builder.quoted(key, value)?; }`
unfoldable pub maybe_quoted : Bytes → Option Bytes → ArgBuilder → Result Error ArgBuilder
unfolding with_quoted
maybe_quoted key none b = ok b
maybe_quoted key (some value) b = with_quoted key value b

-- `if set { builder = builder.flag(token); }`
unfoldable pub maybe_flag : Bytes → Bool → ArgBuilder → ArgBuilder
unfolding flag
maybe_flag token set b = if set then flag token b else b

unfoldable pub reboot_line : Reboot → Result Error Bytes
unfolding Args.new maybe_quoted maybe_flag finish
reboot_line r = do
  b ← maybe_quoted (codes "TITLE") r.title (Args.new (codes "reboot"))
  b' ← maybe_quoted (codes "DIRECTORY") r.directory b
  b'' ← maybe_quoted (codes "CMDLINE") r.cmd_line b'
  ok (
      finish (
        maybe_flag (codes "WAIT") r.flags.wait (
          maybe_flag (codes "NODEBUG") r.flags.no_debug (
            maybe_flag (codes "STOP") r.flags.stop_on_start
              (maybe_flag (codes "WARM") r.flags.warm b'')))))

unfoldable pub reboot : Reboot → Command (Unit {0})
unfolding reboot_line done_parse
reboot r = simple (reboot_line r) line_body done_parse

pub data Title : Type 0 where
  set_title : Bytes → Title
  no_persist : Title

unfoldable pub title_line : Title → Result Error Bytes
unfolding Args.new with_quoted flag finish
title_line (set_title name) = do
  b ← with_quoted (codes "NAME") name (Args.new (codes "title"))
  ok (finish b)
title_line no_persist = ok (finish (flag (codes "NOPERSIST") (Args.new (codes "title"))))

unfoldable pub title : Title → Command (Unit {0})
unfolding title_line done_parse
title t = simple (title_line t) line_body done_parse

pub record StopOnFlags : Type 0 where
  pub create_thread : Bool
  pub first_chance_exception : Bool
  pub debugstr : Bool
  pub stacktrace : Bool
  pub title_init : Bool
  pub title_exit : Bool
  pub debugger : Bool
  pub every : Bool

-- `if set { out.push(token); }`
abbrev pub push_if : Bool → Bytes → List Bytes → List Bytes
push_if set token out = if set then out ++ token ∷ [] else out

unfoldable pub named_tokens : StopOnFlags → List Bytes
named_tokens f = push_if f.debugger (codes "debugger") (
    push_if f.title_exit (codes "titleexit") (
      push_if f.title_init (codes "titleinit") (
        push_if f.stacktrace (codes "stacktrace") (
          push_if f.debugstr (codes "debugstr") (
            push_if f.first_chance_exception (codes "fce")
              (push_if f.create_thread (codes "createthread") []))))))

unfoldable pub stop_tokens : StopOnFlags → List Bytes
unfolding named_tokens
stop_tokens f = if f.every then codes "all" ∷ [] else named_tokens f

unfoldable pub flag_all : List Bytes → ArgBuilder → ArgBuilder
unfolding flag
flag_all [] b = b
flag_all (token ∷ tokens) b = flag_all tokens (flag token b)

unfoldable pub stop_on : StopOnFlags → Command (Unit {0})
unfolding Args.new stop_tokens flag_all finish done_parse
stop_on f =
    simple (ok (finish (flag_all (stop_tokens f) (Args.new (codes "stopon"))))) line_body done_parse

unfoldable pub no_stop_on : StopOnFlags → Command (Unit {0})
unfolding Args.new stop_tokens flag_all finish done_parse
no_stop_on f =
    simple (ok (finish (flag_all (stop_tokens f) (Args.new (codes "nostopon"))))) line_body
      done_parse

pub record Notify : Type 0 where
  pub reconnect_port : ℕ
  pub reverse : Bool
  pub drop_on_reconnect : Bool

pub record NotifyReply : Type 0 where
  pub reconnect_port : Option ℕ
  pub raw : Bytes

unfoldable pub notify_line : Notify → Bytes
unfolding Args.new dec maybe_flag finish
notify_line n = finish (
    maybe_flag (codes "drop") n.drop_on_reconnect (
      maybe_flag (codes "reverse") n.reverse
        (dec (codes "reconnectport") n.reconnect_port (Args.new (codes "notify")))))

-- A port that cannot be read is left out; `v as u16` keeps its low 16 bits.
unfoldable pub reply_port : Crates → Bytes → Option ℕ
unfolding get parse_kv_line value_u32
reply_port x head = elim (get (codes "reconnectport") (parse_kv_line x head)) [
  | none ↦ none
  | some v ↦ elim (value_u32 v (codes "reconnectport")) [
    | err e ↦ none
    | ok port ↦ some (port % 2 ^ 16)
  ]
]

unfoldable pub notify_parse : Crates → Response → Result Error NotifyReply
unfolding expect_ok reply_port
notify_parse x response = do
  head ← expect_ok response
  ok (record { reconnect_port = reply_port x head; raw = head })

unfoldable pub notify : Crates → Notify → Command NotifyReply
unfolding notify_line notify_parse
notify x n = simple (ok (notify_line n)) line_body (notify_parse x)
