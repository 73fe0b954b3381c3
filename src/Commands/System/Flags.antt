-- ===== src/Commands/System/Flags.antt =====
-- The stop conditions in a line (crates/xeedee/src/commands/system.rs).
use xeedee.Base.{
  ◌≡◌, refl, sym, ap, ◌∙◌, Bool, true, false, ◌&&◌, ◌||◌, not, List, [], ◌∷◌, ◌++◌, map, append-nil,
  append_assoc, arith, Bytes, codes, ok, if◌then◌else◌, any, All,
}
use xeedee.Commands.System.{
  StopOnFlags, push_if, named_tokens, stop_tokens, flag_all, stop_on, no_stop_on,
}
use xeedee.Crates.{Crates, Documented}
use xeedee.Protocol.Args
use xeedee.Protocol.Args.{ArgBuilder, flag, finish}
use xeedee.Protocol.Args.RoundTrip.{
  flag_arg, append_args, item_of, IsKey, IsArg, parse_kv_line-finish,
}
use xeedee.Protocol.Kv.{parse_kv_line}
use xeedee.Protocol.Tokens.{KvTokens, is_key, default}
use xeedee.Protocol.Tokens.Items.{flag_item, add_item, add_items, key_ok, key_passes}
use xeedee.Text.Ascii.{eq_ignore_case, to_lower, is_whitespace}

flag_args :
    (tokens : List Bytes) (b : ArgBuilder) → flag_all tokens b ≡ append_args (map flag_arg tokens) b
unfolding flag_all append_args
flag_args [] b = refl
flag_args (token ∷ tokens) b = flag_args tokens (flag token b)

written_flags :
    (tokens : List Bytes) (out : KvTokens)
    → add_items (map item_of (map flag_arg tokens)) out
      ≡ record { pairs = out.pairs; flags = out.flags ++ tokens }
unfolding add_items
written_flags [] out =
    ap (λ f. record { pairs = out.pairs; flags = f }) (sym (append-nil out.flags))
written_flags (token ∷ tokens) out =
    written_flags tokens (add_item (flag_item token) out)
    ∙ ap (λ f. record { pairs = out.pairs; flags = f }) (append_assoc out.flags (token ∷ []) tokens)

-- A key that is pushed, or not, is one.
push-IsArg :
    (set : Bool) (token : Bytes) (out : List Bytes)
    → key_ok token ≡ true
    → All IsArg (map flag_arg out)
    → All IsArg (map flag_arg (push_if set token out))
push-IsArg false token out k h = h
push-IsArg true token out k h = appended out h
  where
    appended :
        (out : List Bytes)
        → All IsArg (map flag_arg out)
        → All IsArg (map flag_arg (out ++ token ∷ []))
    appended [] h = (key_passes token k, tt)
    appended (t ∷ out) (ht, h) = (ht, appended out h)

named-IsArg : (f : StopOnFlags) → All IsArg (map flag_arg (named_tokens f))
unfolding named_tokens is_key is_whitespace
named-IsArg f = push-IsArg f.debugger (codes "debugger") _ refl (
    push-IsArg f.title_exit (codes "titleexit") _ refl (
      push-IsArg f.title_init (codes "titleinit") _ refl (
        push-IsArg f.stacktrace (codes "stacktrace") _ refl (
          push-IsArg f.debugstr (codes "debugstr") _ refl (
            push-IsArg f.first_chance_exception (codes "fce") _ refl
              (push-IsArg f.create_thread (codes "createthread") [] refl tt))))))

tokens-IsArg : (f : StopOnFlags) → All IsArg (map flag_arg (stop_tokens f))
unfolding stop_tokens is_key is_whitespace
tokens-IsArg f = chosen f.every
  where
    chosen :
        (all : Bool) → All IsArg (map flag_arg (if all then codes "all" ∷ [] else named_tokens f))
    chosen true = (key_passes (codes "all") refl, tt)
    chosen false = named-IsArg f

any-append :
    (P : Bytes → Bool) (s : List Bytes) (token : Bytes)
    → any P (s ++ token ∷ []) ≡ any P s || P token
any-append P [] token = ground arith
any-append P (t ∷ s) token = ground (arith, any-append P s token)

any-push :
    (P : Bytes → Bool) (set : Bool) (token : Bytes) (out : List Bytes)
    → any P (push_if set token out) ≡ any P out || (set && P token)
any-push P true token out = any-append P out token
any-push P false token out = ground arith

abbrev pub names : Bytes → List Bytes → Bool
names s tokens = any (λ t. eq_ignore_case t s) tokens

any-named :
    (P : Bytes → Bool) (f : StopOnFlags)
    → any P (named_tokens f)
      ≡ ((((((f.create_thread && P (codes "createthread"))
                  || (f.first_chance_exception && P (codes "fce")))
                || (f.debugstr && P (codes "debugstr")))
              || (f.stacktrace && P (codes "stacktrace")))
            || (f.title_init && P (codes "titleinit")))
          || (f.title_exit && P (codes "titleexit")))
        || (f.debugger && P (codes "debugger"))
unfolding named_tokens
any-named P f =
    let t1 = push_if f.create_thread (codes "createthread") [] in
    let t2 = push_if f.first_chance_exception (codes "fce") t1 in
    let t3 = push_if f.debugstr (codes "debugstr") t2 in
    let t4 = push_if f.stacktrace (codes "stacktrace") t3 in
    let t5 = push_if f.title_init (codes "titleinit") t4 in
    let t6 = push_if f.title_exit (codes "titleexit") t5 in
    cc (
      any-push P f.debugger (codes "debugger") t6,
      any-push P f.title_exit (codes "titleexit") t5,
      any-push P f.title_init (codes "titleinit") t4,
      any-push P f.stacktrace (codes "stacktrace") t3,
      any-push P f.debugstr (codes "debugstr") t2,
      any-push P f.first_chance_exception (codes "fce") t1,
      any-push P f.create_thread (codes "createthread") [],
    )

-- Each condition is named in the line if it is set, unless all of them are.
abbrev pub IsNamed : StopOnFlags → List Bytes → Type 0
IsNamed f tokens =
    (names (codes "all") tokens ≡ f.every)
    × (names (codes "createthread") tokens ≡ not f.every && f.create_thread)
    × (names (codes "fce") tokens ≡ not f.every && f.first_chance_exception)
    × (names (codes "debugstr") tokens ≡ not f.every && f.debugstr)
    × (names (codes "stacktrace") tokens ≡ not f.every && f.stacktrace)
    × (names (codes "titleinit") tokens ≡ not f.every && f.title_init)
    × (names (codes "titleexit") tokens ≡ not f.every && f.title_exit)
    × (names (codes "debugger") tokens ≡ not f.every && f.debugger)

tokens-IsNamed : (f : StopOnFlags) → IsNamed f (stop_tokens f)
unfolding stop_tokens eq_ignore_case to_lower
tokens-IsNamed f = chosen f.every
  where
    chosen :
        (all : Bool)
        → IsNamed (record f { every = all }) (if all then codes "all" ∷ [] else named_tokens f)
    chosen true = (refl, refl, refl, refl, refl, refl, refl, refl)
    chosen false = (
      any-named (λ t. eq_ignore_case t (codes "all")) f ∙ ground arith,
      any-named (λ t. eq_ignore_case t (codes "createthread")) f ∙ ground arith,
      any-named (λ t. eq_ignore_case t (codes "fce")) f ∙ ground arith,
      any-named (λ t. eq_ignore_case t (codes "debugstr")) f ∙ ground arith,
      any-named (λ t. eq_ignore_case t (codes "stacktrace")) f ∙ ground arith,
      any-named (λ t. eq_ignore_case t (codes "titleinit")) f ∙ ground arith,
      any-named (λ t. eq_ignore_case t (codes "titleexit")) f ∙ ground arith,
      any-named (λ t. eq_ignore_case t (codes "debugger")) f ∙ ground arith,
    )

line_back :
    (x : Crates)
    → Documented x
    → (command : Bytes) (f : StopOnFlags) → IsKey command
    → parse_kv_line x (finish (flag_all (stop_tokens f) (Args.new command)))
      ≡ record { pairs = []; flags = command ∷ stop_tokens f }
line_back x d command f key =
    ap (λ b. parse_kv_line x (finish b)) (flag_args (stop_tokens f) (Args.new command))
    ∙ (parse_kv_line-finish x d command (map flag_arg (stop_tokens f)) key (tokens-IsArg f)).0
    ∙ ap (λ out. record { pairs = out.pairs; flags = out.flags })
        (written_flags (stop_tokens f) (add_item (flag_item command) default))

-- The lines that set and clear stop conditions parse to the command and some flags; the flags name
-- exactly the conditions that are set, or the one for all of them if that is set.
pub stop_on-wire_line :
    (x : Crates)
    → Documented x
    → (f : StopOnFlags)
    → (on : Bytes) × (off : Bytes) × (tokens : List Bytes) × ((stop_on f).wire_line ≡ ok on)
      × (parse_kv_line x on ≡ record { pairs = []; flags = codes "stopon" ∷ tokens })
      × ((no_stop_on f).wire_line ≡ ok off)
      × (parse_kv_line x off ≡ record { pairs = []; flags = codes "nostopon" ∷ tokens })
      × IsNamed f tokens
unfolding stop_on no_stop_on is_key is_whitespace
stop_on-wire_line x d f = (
  finish (flag_all (stop_tokens f) (Args.new (codes "stopon"))),
  finish (flag_all (stop_tokens f) (Args.new (codes "nostopon"))),
  stop_tokens f,
  refl,
  line_back x d (codes "stopon") f (key_passes (codes "stopon") refl),
  refl,
  line_back x d (codes "nostopon") f (key_passes (codes "nostopon") refl),
  tokens-IsNamed f,
)
