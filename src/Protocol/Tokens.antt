-- ===== src/Protocol/Tokens.antt =====
-- The tokens of a response line: `kv_tokens`, `kv_value` and the literals of
-- crates/xeedee/src/protocol/parse.rs.
pub mod Pieces
pub mod Items
use xeedee.Base.{
  ℕ, zero, suc, Bool, ◌&&◌, not, Option, none, some, List, [], ◌∷◌, ◌++◌, Bytes, codes, ◌==◌,
  length,
}
use xeedee.Base.Options.{◌>>=◌}
use xeedee.Crates.{Crates, Parser}
use xeedee.Text.Ascii.{is_whitespace, is_hexdigit}
use xeedee.Text.Number.{from_radix, max_u64}

pub data KvValue : Type 0 where
  bare quoted : Bytes → KvValue

unfoldable pub as_str : KvValue → Bytes
as_str (bare s) = s
as_str (quoted s) = s

pub record KvTokens : Type 0 where
  pub pairs : List (Bytes × KvValue)
  pub flags : List Bytes

abbrev pub default : KvTokens
default = record { pairs = []; flags = [] }

-- `out.pairs.push`, `out.flags.push`
abbrev pub push_pair : Bytes → KvValue → KvTokens → KvTokens
push_pair key value out = record out { pairs = out.pairs ++ (key, value) ∷ [] }

abbrev pub push_flag : Bytes → KvTokens → KvTokens
push_flag key out = record out { flags = out.flags ++ key ∷ [] }

unfoldable pub is_key : ℕ → Bool
unfolding is_whitespace
is_key c = not (c == b'=') && not (is_whitespace c)

unfoldable pub is_bare : ℕ → Bool
unfolding is_whitespace
is_bare c = not (is_whitespace c)

module _ (x : Crates) where
  unfoldable pub hex_u64_prefixed : Parser ℕ
  hex_u64_prefixed s = do
    (_, s1) ← x.alt Bytes (x.literal (codes "0x") ∷ x.literal (codes "0X") ∷ []) s
    x.try_map Bytes ℕ (from_radix 16 max_u64) (x.take_while 1 (some 16) is_hexdigit) s1

  unfoldable pub qword_literal : Parser ℕ
  qword_literal s = do
    (_, s1) ← x.alt Bytes (x.literal (codes "0q") ∷ x.literal (codes "0Q") ∷ []) s
    x.try_map Bytes ℕ (from_radix 16 max_u64) (x.take_while 16 (some 16) is_hexdigit) s1

  unfoldable pub bare_value : Parser KvValue
  bare_value s = do (value, s1) ← x.take_while 0 none is_bare s; some (bare value, s1)

  unfoldable pub quoted_value : Parser KvValue
  quoted_value s = do
    (_, s1) ← x.literal (b'"' ∷ []) s
    (inner, s2) ← x.take_until b'"' s1
    (_, s3) ← x.literal (b'"' ∷ []) s2
    some (quoted inner, s3)

  unfoldable pub kv_value : Parser KvValue
  unfolding bare_value quoted_value
  kv_value = x.alt KvValue (quoted_value ∷ bare_value ∷ [])

  -- The key of a token, and whether an equals sign follows.
  unfoldable pub kv_key : Parser (Bytes × Option Bytes)
  kv_key s = do
    (key, s1) ← x.take_while 1 none is_key s
    (sign, s2) ← x.opt Bytes (x.literal (b'=' ∷ [])) s1
    some ((key, sign), s2)

  -- Each round of the loop reads a key, so a fuel above the input's length is enough.
  unfoldable pub kv_loop : ℕ → KvTokens → Parser KvTokens
  kv_loop zero out s = none
  kv_loop (suc fuel) out s = x.space0 s >>= λ (_, s1). elim s1 [
    | [] ↦ some (out, [])
    | c ∷ t ↦ kv_key (c ∷ t) >>= λ ((key, sign), s2). elim sign [
      | some _ ↦ kv_value s2 >>= λ (value, s3). kv_loop fuel (push_pair key value out) s3
      | none ↦ kv_loop fuel (push_flag key out) s2
    ]
  ]

  unfoldable pub kv_tokens : Parser KvTokens
  unfolding kv_loop kv_key kv_value
  kv_tokens s = kv_loop (suc (length s)) default s
