-- ===== src/Protocol/Tokens/Pieces.antt =====
-- A written key or value is read back by the parser of its kind (crates/xeedee/src/protocol/parse.rs).
use xeedee.Base.{
  ℕ, suc, ◌≤◌, ◌≡◌, refl, sym, ap, ◌∙◌, subst, Bool, true, false, none, some, [], ◌∷◌, ◌++◌,
  append_assoc, arith, Bytes, ltb, ◌==◌, ==_refl, length, drop, All, take_left, drop_left,
}
use xeedee.Crates.{plain, find_index, span_length, plain_take_while, plain_take_until}
use xeedee.Protocol.Tokens.{
  KvValue, bare, quoted, is_key, is_bare, bare_value, quoted_value, kv_value, kv_key,
}
use xeedee.Text.Ascii.{is_whitespace}

-- A run of bytes that pass a test ends here.
unfoldable pub Stops : (ℕ → Bool) → Bytes → Type 0
Stops p [] = Unit
Stops p (c ∷ _) = p c ≡ false

abbrev pub AllPass : (ℕ → Bool) → Bytes → Type 0
AllPass p = All (λ c. p c ≡ true)

span-append :
    (p : ℕ → Bool) (s rest : Bytes)
    → AllPass p s
    → Stops p rest
    → span_length p (s ++ rest) ≡ length s
unfolding Stops
span-append p [] [] h stop = refl
span-append p [] (c ∷ rest) h stop = rw (stop) refl
span-append p (c ∷ s) rest (hc, h) stop = rw (hc) (ap suc (span-append p s rest h stop))

pub taken_run :
    (low : ℕ) (p : ℕ → Bool) (s rest : Bytes)
    → AllPass p s
    → Stops p rest
    → low ≤ length s
    → plain_take_while low none p (s ++ rest) ≡ some (s, rest)
unfolding plain_take_while
taken_run low p s rest h stop fits =
    let enough : ltb (length s) low ≡ false = ground arith in
    rw (span-append p s rest h stop) (
      rw (enough) (
        ap (λ t. some (t, drop (length s) (s ++ rest))) (take_left s rest)
        ∙ ap (λ t. some (s, t)) (drop_left s rest)))

-- What may stand behind a token.
abbrev pub EndsToken : Bytes → Type 0
EndsToken [] = Unit
EndsToken (c ∷ _) = c ≡ 32

ends_key : (s : Bytes) → EndsToken s → Stops is_key s
unfolding Stops is_key is_whitespace
ends_key [] h = tt
ends_key (c ∷ s) h = ground (arith, h)

ends_bare : (s : Bytes) → EndsToken s → Stops is_bare s
unfolding Stops is_bare is_whitespace
ends_bare [] h = tt
ends_bare (c ∷ s) h = ground (arith, h)

-- The key of a pair, and the key of a flag.
pub pair_key :
    (k rest : Bytes)
    → AllPass is_key k
    → 1 ≤ length k
    → kv_key plain (k ++ b'=' ∷ rest) ≡ some ((k, some (b'=' ∷ [])), rest)
unfolding kv_key plain
pair_key k rest h one =
    rw (taken_run 1 is_key k (b'=' ∷ rest) h (unfold Stops is_key in refl) one) refl

no_sign :
    (rest : Bytes)
    → EndsToken rest
    → plain.opt Bytes (plain.literal (b'=' ∷ [])) rest ≡ some (none, rest)
unfolding plain
no_sign [] h = refl
no_sign (c ∷ rest) h =
    subst (λ d. plain.opt Bytes (plain.literal (b'=' ∷ [])) (d ∷ rest) ≡ some (none, d ∷ rest))
      (sym h) refl

pub flag_key :
    (k rest : Bytes)
    → AllPass is_key k
    → 1 ≤ length k
    → EndsToken rest
    → kv_key plain (k ++ rest) ≡ some ((k, none), rest)
unfolding kv_key plain
flag_key k rest h one ends =
    rw (taken_run 1 is_key k rest h (ends_key rest ends) one) (rw (no_sign rest ends) refl)

index_of :
    (b : ℕ) (s rest : Bytes)
    → All (λ c. (c == b) ≡ false) s
    → find_index b (s ++ b ∷ rest) ≡ some (length s)
index_of b [] rest h = rw (==_refl b) refl
index_of b (c ∷ s) rest (hc, h) = rw (hc) (rw (index_of b s rest h) refl)

abbrev pub text : KvValue → Bytes
text (bare s) = s
text (quoted s) = b'"' ∷ (s ++ b'"' ∷ [])

abbrev pub IsPlainValue : KvValue → Type 0
IsPlainValue (bare s) = AllPass is_bare s × Stops (λ c. c == b'"') s
IsPlainValue (quoted s) = All (λ c. (c == b'"') ≡ false) s

quoted_not : (c : ℕ) (s : Bytes) → (c == b'"') ≡ false → quoted_value plain (c ∷ s) ≡ none
unfolding quoted_value plain
quoted_not c s h = rw (h) refl

bare_read :
    (s rest : Bytes)
    → AllPass is_bare s
    → EndsToken rest
    → bare_value plain (s ++ rest) ≡ some (bare s, rest)
unfolding bare_value plain
bare_read s rest h ends = rw (taken_run 0 is_bare s rest h (ends_bare rest ends) (omega arith)) refl

kv_bare :
    (s rest : Bytes) (v : KvValue)
    → quoted_value plain s ≡ none
    → bare_value plain s ≡ some (v, rest)
    → kv_value plain s ≡ some (v, rest)
unfolding kv_value plain
kv_bare s rest v h k = rw (h) (rw (k) refl)

until_read :
    (s rest : Bytes)
    → All (λ c. (c == b'"') ≡ false) s
    → plain_take_until b'"' (s ++ b'"' ∷ rest) ≡ some (s, b'"' ∷ rest)
unfolding plain_take_until
until_read s rest h =
    rw (index_of b'"' s rest h, plain_take_until)
      (ap (λ t. some (t, drop (length s) (s ++ b'"' ∷ rest))) (take_left s (b'"' ∷ rest))
        ∙ ap (λ t. some (s, t)) (drop_left s (b'"' ∷ rest)))

quoted_read :
    (s rest : Bytes)
    → All (λ c. (c == b'"') ≡ false) s
    → quoted_value plain (b'"' ∷ (s ++ b'"' ∷ rest)) ≡ some (quoted s, rest)
unfolding quoted_value plain
quoted_read s rest h = rw (until_read s rest h) refl

kv_quoted :
    (s rest : Bytes) (v : KvValue)
    → quoted_value plain s ≡ some (v, rest)
    → kv_value plain s ≡ some (v, rest)
unfolding kv_value plain
kv_quoted s rest v h = rw (h) refl

space_not_quote : (c : ℕ) → c ≡ 32 → (c == b'"') ≡ false
space_not_quote c h = ground (arith, h)

pub value_read :
    (v : KvValue) (rest : Bytes)
    → IsPlainValue v
    → EndsToken rest
    → kv_value plain (text v ++ rest) ≡ some (v, rest)
unfolding Stops
value_read (bare []) [] h ends =
    kv_bare [] [] (bare []) (unfold quoted_value plain in refl) (bare_read [] [] tt tt)
value_read (bare []) (c ∷ rest) h ends =
    kv_bare (c ∷ rest) (c ∷ rest) (bare []) (quoted_not c rest (space_not_quote c ends))
      (bare_read [] (c ∷ rest) tt ends)
value_read (bare (c ∷ s)) rest (h, first) ends =
    kv_bare (c ∷ (s ++ rest)) rest (bare (c ∷ s)) (quoted_not c (s ++ rest) first)
      (bare_read (c ∷ s) rest h ends)
value_read (quoted s) rest h ends =
    ap (λ t. kv_value plain (b'"' ∷ t)) (append_assoc s (b'"' ∷ []) rest)
    ∙ kv_quoted (b'"' ∷ (s ++ b'"' ∷ rest)) rest (quoted s) (quoted_read s rest h)
