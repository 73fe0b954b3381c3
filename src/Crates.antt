-- ===== src/Crates.antt =====
-- The third-party crates that the protocol code calls, as a parameter: `winnow`'s parsers and
-- combinators (crates/xeedee/src/protocol/parse.rs, crates/xeedee/src/discovery/wire.rs) and
-- `memchr` (crates/xeedee/src/client/engine.rs). `Documented` states what their documentation
-- says of them; `plain` is a value that meets it.
use xeedee.Base.{
  ℕ, suc, min, ◌≡◌, refl, subst, sym, Bool, ◌&&◌, ◌||◌, Option, none, some, List, [], ◌∷◌, Bytes,
  length, take, drop, ltb, leb, ◌==◌, if◌then◌else◌, bytes_eq,
}

-- A parser reads from the front of its input; an error carries nothing that the callers read.
abbrev pub Parser : Type 0 → Type 0
Parser A = Bytes → Option (A × Bytes)

pub record Crates : Type 1 where
  pub memchr : ℕ → Bytes → Option ℕ
  pub literal : Bytes → Parser Bytes
  pub digit1 : Parser Bytes
  pub space0 : Parser Bytes
  pub take_while : ℕ → Option ℕ → (ℕ → Bool) → Parser Bytes
  pub take_until : ℕ → Parser Bytes
  pub take_n : ℕ → Parser Bytes
  pub next : Parser ℕ
  pub rest : Parser Bytes
  pub opt : (A : Type 0) → Parser A → Parser (Option A)
  pub alt : (A : Type 0) → List (Parser A) → Parser A
  pub verify : (A : Type 0) → (A → Bool) → Parser A → Parser A
  pub try_map : (A B : Type 0) → (A → Option B) → Parser A → Parser B

-- Where the first `b` stands.
abbrev pub find_index : ℕ → Bytes → Option ℕ
find_index b [] = none
find_index b (c ∷ s) =
    let later = find_index b s in
    if c == b then some 0 else elim later [ none ↦ none | some i ↦ some (suc i) ]

-- How many bytes at the front pass the test.
abbrev pub span_length : (ℕ → Bool) → Bytes → ℕ
span_length p [] = 0
span_length p (c ∷ s) = let more = span_length p s in if p c then suc more else 0

abbrev pub split_after : ℕ → Bytes → Option (Bytes × Bytes)
split_after n s = some (take n s, drop n s)

abbrev pub up_to : Option ℕ → ℕ → ℕ
up_to none n = n
up_to (some m) n = min m n

abbrev pub is_digit : ℕ → Bool
is_digit c = leb b'0' c && leb c b'9'

abbrev pub is_blank : ℕ → Bool
is_blank c = (c == 32) || (c == 9)

abbrev plain_literal : Bytes → Parser Bytes
plain_literal t s = if bytes_eq (take (length t) s) t then split_after (length t) s else none

unfoldable pub plain_take_while : ℕ → Option ℕ → (ℕ → Bool) → Parser Bytes
plain_take_while low high p s =
    let n = up_to high (span_length p s) in if ltb n low then none else split_after n s

unfoldable pub plain_take_until : ℕ → Parser Bytes
plain_take_until b s = elim (find_index b s) [ none ↦ none | some i ↦ split_after i s ]

abbrev plain_take_n : ℕ → Parser Bytes
plain_take_n n s = if ltb (length s) n then none else split_after n s

abbrev plain_next : Parser ℕ
plain_next [] = none
plain_next (c ∷ s) = some (c, s)

abbrev plain_opt : (A : Type 0) → Parser A → Parser (Option A)
plain_opt A p s = elim (p s) [ none ↦ some (none, s) | some (a, r) ↦ some (some a, r) ]

abbrev plain_alt : (A : Type 0) → List (Parser A) → Parser A
plain_alt A [] s = none
plain_alt A (p ∷ ps) s =
    let other = plain_alt A ps s in elim (p s) [ none ↦ other | some r ↦ some r ]

abbrev plain_verify : (A : Type 0) → (A → Bool) → Parser A → Parser A
plain_verify A t p s = elim (p s) [
  | none ↦ none
  | some (a, r) ↦ (if t a then some (a, r) else none)
]

abbrev plain_try_map : (A B : Type 0) → (A → Option B) → Parser A → Parser B
plain_try_map A B f p s = elim (p s) [
  | none ↦ none
  | some (a, r) ↦ elim (f a) [ none ↦ none | some b ↦ some (b, r) ]
]

-- What the crates document of the functions used.
pub record Documented (x : Crates) : Type 1 where
  -- the index of the first occurrence of the byte
  pub memchr_first : (b : ℕ) (s : Bytes) → x.memchr b s ≡ find_index b s
  -- the given text, or an error
  pub literal_prefix : (t s : Bytes) → x.literal t s ≡ plain_literal t s
  -- one or more decimal digits, as many as there are
  pub digit1_longest : (s : Bytes) → x.digit1 s ≡ plain_take_while 1 none is_digit s
  -- spaces and tabs, as many as there are
  pub space0_longest : (s : Bytes) → x.space0 s ≡ plain_take_while 0 none is_blank s
  -- the longest run that passes the test, cut at the upper bound, refused below the lower one
  pub take_while_longest :
      (low : ℕ) (high : Option ℕ) (p : ℕ → Bool) (s : Bytes)
      → x.take_while low high p s ≡ plain_take_while low high p s
  -- the text in front of the first occurrence, an error if there is none
  pub take_until_first : (b : ℕ) (s : Bytes) → x.take_until b s ≡ plain_take_until b s
  -- a number of bytes, an error if there are fewer
  pub take_n_exact : (n : ℕ) (s : Bytes) → x.take_n n s ≡ plain_take_n n s
  -- one byte
  pub next_byte : (s : Bytes) → x.next s ≡ plain_next s
  -- all that is left
  pub rest_all : (s : Bytes) → x.rest s ≡ some (s, [])
  -- an error is undone
  pub opt_undoes : (A : Type 0) (p : Parser A) (s : Bytes) → x.opt A p s ≡ plain_opt A p s
  -- the first parser that succeeds, each on the same input
  pub alt_first : (A : Type 0) (l : List (Parser A)) (s : Bytes) → x.alt A l s ≡ plain_alt A l s
  -- an error where the test fails
  pub verify_test :
      (A : Type 0) (t : A → Bool) (p : Parser A) (s : Bytes)
      → x.verify A t p s ≡ plain_verify A t p s
  -- an error where the function fails
  pub try_map_maps :
      (A B : Type 0) (f : A → Option B) (p : Parser A) (s : Bytes)
      → x.try_map A B f p s ≡ plain_try_map A B f p s

unfoldable pub plain : Crates
plain = record {
  memchr = find_index;
  literal = plain_literal;
  digit1 = plain_take_while 1 none is_digit;
  space0 = plain_take_while 0 none is_blank;
  take_while = plain_take_while;
  take_until = plain_take_until;
  take_n = plain_take_n;
  next = plain_next;
  rest = λ s. some (s, []);
  opt = plain_opt;
  alt = plain_alt;
  verify = plain_verify;
  try_map = plain_try_map;
}

pub plain-Documented : Documented plain
unfolding plain
plain-Documented = record {
  memchr_first = λ b s. refl;
  literal_prefix = λ t s. refl;
  digit1_longest = λ s. refl;
  space0_longest = λ s. refl;
  take_while_longest = λ low high p s. refl;
  take_until_first = λ b s. refl;
  take_n_exact = λ n s. refl;
  next_byte = λ s. refl;
  rest_all = λ s. refl;
  opt_undoes = λ A p s. refl;
  alt_first = λ A l s. refl;
  verify_test = λ A t p s. refl;
  try_map_maps = λ A B f p s. refl;
}

-- The documentation leaves no freedom, so a property of `plain` is one of every such value.
pub plain-eq : (x : Crates) → Documented x → plain ≡ x
unfolding plain
plain-eq x d = sym λ i. record {
  memchr = λ b s. d.memchr_first b s i;
  literal = λ t s. d.literal_prefix t s i;
  digit1 = λ s. d.digit1_longest s i;
  space0 = λ s. d.space0_longest s i;
  take_while = λ low high p s. d.take_while_longest low high p s i;
  take_until = λ b s. d.take_until_first b s i;
  take_n = λ n s. d.take_n_exact n s i;
  next = λ s. d.next_byte s i;
  rest = λ s. d.rest_all s i;
  opt = λ A p s. d.opt_undoes A p s i;
  alt = λ A l s. d.alt_first A l s i;
  verify = λ A t p s. d.verify_test A t p s i;
  try_map = λ A B f p s. d.try_map_maps A B f p s i;
}

pub for_all_crates {ℓ} : (P : Crates → Type ℓ) → P plain → (x : Crates) → Documented x → P x
for_all_crates P h x d = subst P (plain-eq x d) h
